-- ===== src/Petri/WellFormed/Builder.antt =====
-- src/petri/net.rs: making places and adding transitions keeps a net well formed.
use conc_ir.Prelude.{
  ℕ, ◌≡◌, refl, ◌∙◌, sym, ap, subst, ◌⊎◌, inl, inr, false, Option, none, some, List, [], ◌∷◌, ◌++◌,
  length, get_elem?, get_elem?-snoc, get_elem?-snoc_last, get_elem?-snoc_inv, get_elem?-lt,
}
use conc_ir.Prelude.Map.{
  Map, get, insert, get-insert_self, get-insert_inv, get-insert_fresh, nat_key,
}
use conc_ir.Sem.Outcome.{FunctionId, TransitionOrigin}
use conc_ir.Interp.Ownership.Relation.{Every, Opt, Every-append}
use conc_ir.Petri.Net.{PlaceId, PlaceKey, place_key, Place, Binding, NetOp, Transition}
use conc_ir.Petri.Build.{Builder, new_place, place, add, ctrl, add_step, add_on}
use conc_ir.Petri.Safety.Relation.{is_sync}

abbrev pub Places : Type 0
Places = Map PlaceKey PlaceId

-- The place has a key; it has one that stands for no mutex, semaphore or channel.
abbrev pub Named : Places → PlaceId → Type 0
Named m pid = (key : PlaceKey) × (get key m ≡ some pid)

abbrev pub NamedLoose : Places → PlaceId → Type 0
NamedLoose m pid = (key : PlaceKey) × (get key m ≡ some pid) × (is_sync key ≡ false)

abbrev pub binding_places : Binding → List PlaceId
binding_places (Binding.control pid) = pid ∷ []
binding_places (Binding.wait pid) = pid ∷ []
binding_places (Binding.pair a b) = a ∷ b ∷ []
binding_places (Binding.control_wait a b) = a ∷ b ∷ []
binding_places (Binding.control_choose_wait a b) = a ∷ b ∷ []

-- A transition's places exist; tokens are taken from, and a control token goes to, places that
-- stand for no mutex, semaphore or channel.
pub record IsWellPlaced (m : Places) (t : Transition) : Type 0 where
  pub inputs : Every (NamedLoose m) (binding_places t.binding)
  pub next : Opt (NamedLoose m) t.next
  pub outputs : Every (Named m) t.outputs

-- The places of a key and the keys of a place correspond.
pub record IsWellFormed (places : List Place) (m : Places) (ts : List Transition) : Type 0 where
  pub located :
      (k : PlaceKey) (id : PlaceId)
      → get k m ≡ some id
      → get_elem? places id ≡ some (record { id = id; key = k })
  pub placed :
      (id : PlaceId) (p : Place)
      → get_elem? places id ≡ some p
      → (p.id ≡ id) × (get p.key m ≡ some id)
  pub transitions : Every (IsWellPlaced m) ts

abbrev pub IsWellBuilt : Builder → Type 0
IsWellBuilt b = IsWellFormed b.places b.place_of b.transitions

-- A key keeps its place.
pub record Extends (m n : Places) : Type 0 where
  pub kept : (k : PlaceKey) (id : PlaceId) → get k m ≡ some id → get k n ≡ some id

then-Extends : {l m n : Places} → Extends l m → Extends m n → Extends l n
then-Extends x y = record { kept = λ k id e. y.kept k id (x.kept k id e) }

pub record Good (b r : Builder) : Type 0 where
  pub built : IsWellBuilt r
  pub extends : Extends b.place_of r.place_of

-- The key has the place in the second builder.
pub record Made (key : PlaceKey) (b : Builder) (pid : PlaceId) (r : Builder) : Type 0 where
  pub built : IsWellBuilt r
  pub extends : Extends b.place_of r.place_of
  pub found : get key r.place_of ≡ some pid

pub Loose-ext : {m n : Places} → Extends m n → (pid : PlaceId) → NamedLoose m pid → NamedLoose n pid
Loose-ext x pid (key, e, h) = (key, x.kept key pid e, h)

pub Named-ext : {m n : Places} → Extends m n → (pid : PlaceId) → Named m pid → Named n pid
Named-ext x pid (key, e) = (key, x.kept key pid e)

Every-map :
    {A : Type 0} (P Q : A → Type 0) (xs : List A) → ((a : A) → P a → Q a) → Every P xs → Every Q xs
unfolding Every
Every-map P Q [] f h = tt
Every-map P Q (x ∷ xs) f (p, ps) = (f x p, Every-map P Q xs f ps)

Opt-map : {A : Type 0} (P Q : A → Type 0) (o : Option A) → ((a : A) → P a → Q a) → Opt P o → Opt Q o
Opt-map P Q none f h = tt
Opt-map P Q (some a) f h = f a h

pub Named-all :
    {m n : Places}
    → Extends m n
    → (pids : List PlaceId) → Every (Named m) pids
    → Every (Named n) pids
Named-all {m} {n} x pids h = Every-map (Named m) (Named n) pids (Named-ext x) h

placed_ext : {m n : Places} → Extends m n → (t : Transition) → IsWellPlaced m t → IsWellPlaced n t
placed_ext {m} {n} x t w = record {
  inputs =
      Every-map (NamedLoose m) (NamedLoose n) (binding_places t.binding) (Loose-ext x) w.inputs;
  next = Opt-map (NamedLoose m) (NamedLoose n) t.next (Loose-ext x) w.next;
  outputs = Every-map (Named m) (Named n) t.outputs (Named-ext x) w.outputs;
}

pub Good-refl : (b : Builder) → IsWellBuilt b → Good b b
Good-refl b w = record { built = w; extends = record { kept = λ k id e. e } }

pub then-Good : {a b c : Builder} → Good a b → Good b c → Good a c
then-Good x y = record { built = y.built; extends = then-Extends x.extends y.extends }

pub Made-Good :
    {a b c : Builder} {key : PlaceKey} {pid : PlaceId} → Made key a pid b → Good b c → Good a c
Made-Good x y = record { built = y.built; extends = then-Extends x.extends y.extends }

pub Good-of : {a b : Builder} {key : PlaceKey} {pid : PlaceId} → Made key a pid b → Good a b
Good-of x = record { built = x.built; extends = x.extends }

fresh_Made :
    (key : PlaceKey) (b : Builder)
    → IsWellBuilt b
    → get key b.place_of ≡ none
    → Made key b (length b.places) (new_place key b none).1
fresh_Made key b w free = record {
  built = record {
    located = λ k id e. old_or_new k id (get-insert_inv key k (length b.places) id b.place_of e);
    placed = λ id p e. was_or_is id p (get_elem?-snoc_inv b.places _ id p e);
    transitions =
        Every-map (IsWellPlaced b.place_of) (IsWellPlaced _) b.transitions (placed_ext kept)
          w.transitions;
  };
  extends = kept;
  found = get-insert_self key (length b.places) b.place_of;
}
  where
    fresh : Place
    fresh = record { id = length b.places; key = key }

    kept : Extends b.place_of (insert key (length b.places) b.place_of)
    kept = record { kept = λ k id e. get-insert_fresh key k (length b.places) id b.place_of free e }

    old_or_new :
        (k : PlaceKey) (id : PlaceId)
        → ((key ≡ k) × (length b.places ≡ id)) ⊎ (get k b.place_of ≡ some id)
        → get_elem? (b.places ++ fresh ∷ []) id ≡ some (record { id = id; key = k })
    old_or_new k id (inl (p, q)) =
        subst (λ i. get_elem? (b.places ++ fresh ∷ []) i ≡ some (record { id = i; key = k })) q
          (subst
            (λ j.
              get_elem? (b.places ++ fresh ∷ []) (length b.places)
              ≡ some (record { id = length b.places; key = j }))
            p (get_elem?-snoc_last b.places fresh))
    old_or_new k id (inr e) =
        get_elem?-snoc b.places fresh id (get_elem?-lt b.places id _ (w.located k id e))
        ∙ w.located k id e

    was_or_is :
        (id : PlaceId) (p : Place)
        → (get_elem? b.places id ≡ some p) ⊎ ((id ≡ length b.places) × (fresh ≡ p))
        → (p.id ≡ id) × (get p.key (insert key (length b.places) b.place_of) ≡ some id)
    was_or_is id p (inl e) = let old = w.placed id p e in (old.0, kept.kept p.key id (old.1))
    was_or_is id p (inr (q, r)) = (
      sym (ap (λ x. x.id) r) ∙ sym q,
      ap (λ x. get x.key (insert key (length b.places) b.place_of)) (sym r)
          ∙ (get-insert_self key (length b.places) b.place_of ∙ ap some (sym q)),
    )

pub place-Made :
    (key : PlaceKey) (b : Builder) → IsWellBuilt b → Made key b (place key b).0 (place key b).1
unfolding place
place-Made key b w = choose (get key b.place_of) refl
  where
    choose :
        (o : Option PlaceId)
        → get key b.place_of ≡ o
        → Made key b (new_place key b o).0 (new_place key b o).1
    choose none e = fresh_Made key b w e
    choose (some id) e = record { built = w; extends = record { kept = λ k i h. h }; found = e }

pub ctrl-Made :
    (f : FunctionId) (sid : ℕ) (b : Builder)
    → IsWellBuilt b
    → Made (PlaceKey.control f sid) b (ctrl f sid b).0 (ctrl f sid b).1
unfolding ctrl
ctrl-Made f sid b w = place-Made (PlaceKey.control f sid) b w

pub loose-Made :
    {key : PlaceKey} {b r : Builder} {pid : PlaceId}
    → Made key b pid r
    → is_sync key ≡ false
    → NamedLoose r.place_of pid
loose-Made {key} x h = (key, x.found, h)

pub Named-Made :
    {key : PlaceKey} {b r : Builder} {pid : PlaceId} → Made key b pid r → Named r.place_of pid
Named-Made {key} x = (key, x.found)

pub add-Good :
    (op : NetOp) (binding : Binding) (next : Option PlaceId) (outputs : List PlaceId)
    (origin : TransitionOrigin) (b : Builder)
    → IsWellBuilt b
    → Every (NamedLoose b.place_of) (binding_places binding)
    → Opt (NamedLoose b.place_of) next
    → Every (Named b.place_of) outputs
    → Good b (add op binding next outputs origin b)
unfolding add Every
add-Good op binding next outputs origin b w i n o = record {
  built = record {
    located = w.located;
    placed = w.placed;
    transitions =
        Every-append (IsWellPlaced b.place_of) b.transitions _ w.transitions
          (record { inputs = i; next = n; outputs = o }, tt);
  };
  extends = record { kept = λ k id e. e };
}

pub Named-loose : (m : Places) (pid : PlaceId) → NamedLoose m pid → Named m pid
Named-loose m pid (key, e, h) = (key, e)

pub add_step-Good :
    (op : NetOp) (input next : PlaceId) (outputs : List PlaceId) (origin : TransitionOrigin)
    (b : Builder)
    → IsWellBuilt b
    → NamedLoose b.place_of input
    → NamedLoose b.place_of next
    → Every (Named b.place_of) outputs
    → Good b (add_step op input next outputs origin b)
unfolding add_step Every
add_step-Good op input next outputs origin b w i n o =
    add-Good op (Binding.control input) (some next) (next ∷ outputs) origin b w (i, tt) n
      (Named-loose _ _ n, o)

pub no_outputs : (m : Places) → Every (Named m) []
unfolding Every
no_outputs m = tt

pub one_output : (m : Places) (pid : PlaceId) → Named m pid → Every (Named m) (pid ∷ [])
unfolding Every
one_output m pid h = (h, tt)

pub two_outputs :
    (m : Places) (a b : PlaceId) → Named m a → Named m b → Every (Named m) (a ∷ b ∷ [])
unfolding Every
two_outputs m a b x y = (x, (y, tt))

pub add_on-Good :
    (key : PlaceKey) (op : NetOp) (input fall : PlaceId) (origin : TransitionOrigin) (b : Builder)
    → IsWellBuilt b
    → NamedLoose b.place_of input
    → NamedLoose b.place_of fall
    → Good b (add_on key op input fall origin b)
unfolding add_on
add_on-Good key op input fall origin b w i f =
    let x = place-Made key b w in
    Made-Good x (
      add_step-Good op input fall _ origin _ x.built (Loose-ext x.extends input i)
        (Loose-ext x.extends fall f) (one_output _ _ (Named-Made x)))
