-- ===== src/Petri/Safety/Relation.antt =====
-- src/petri: what a firing may do to the tokens at the places of mutexes, semaphores and channels.
use conc_ir.Prelude.{
  ◌≤◌, ◌≡◌, refl, sym, ap, ◌∙◌, subst, ◌⊎◌, inl, inr, Bool, true, false, Bool-cases, Option, none,
  some, List, [], ◌∷◌, head?, if◌then◌else◌,
}
use conc_ir.Prelude.Int.{pos, leb_ℤ}
use conc_ir.Prelude.Map.{get, insert, nat_key, get-insert, same, same_sound}
use conc_ir.Sem.Outcome.{ThreadId, Result, ok}
use conc_ir.Sem.Program.{SemResource, resource}
use conc_ir.Interp.Ownership.Relation.{Opt}
use conc_ir.Petri.Net.{PlaceId, PlaceKey}
use conc_ir.Petri.State.{
  MutexToken, free, held, NetToken, NetState, place_tokens, put, take_token, with_tokens,
  drop_token, set_single, as_data, as_mutex, tokens_or_empty,
}
use conc_ir.Petri.Engine.{Engine, Fired, place}
use conc_ir.Petri.Sync.{count_of, or_zero}
use conc_ir.Petri.Channels.{as_buffer, buffered}

-- The predicate holds of the next state of a firing that is enabled.
abbrev pub Fires : (NetState → Type 0) → Fired → Type 0
Fires P fired = Opt P fired.next

-- No place stands for two keys.
abbrev pub Injective : Engine → Type 0
Injective eng =
    (k j : PlaceKey) (pid : PlaceId) → place eng k ≡ some pid → place eng j ≡ some pid → k ≡ j

abbrev pub is_sync : PlaceKey → Bool
is_sync (PlaceKey.mutex r) = true
is_sync (PlaceKey.semaphore r) = true
is_sync (PlaceKey.channel r) = true
is_sync _ = false

-- The place stands for no mutex, semaphore or channel.
abbrev pub Loose : Engine → PlaceId → Type 0
Loose eng pid = (key : PlaceKey) → place eng key ≡ some pid → is_sync key ≡ false

-- A mutex is left alone, taken while it is free, or released by its holder.
abbrev pub MutexChange : ThreadId → Option MutexToken → Option MutexToken → Type 0
MutexChange tid m n =
    (n ≡ m)
    ⊎ (((m ≡ some free) × (n ≡ some (held tid))) ⊎ ((m ≡ some (held tid)) × (n ≡ some free)))

abbrev pub NonNegative : List NetToken → Type 0
NonNegative ts = leb_ℤ (pos 0) (or_zero (count_of (as_data (head? ts)))) ≡ true

abbrev pub FitsCapacity : Result SemResource → List NetToken → Type 0
FitsCapacity (ok res) ts = buffered (as_buffer (as_data (head? ts))) ≤ res.capacity
FitsCapacity _ ts = Unit {0}

-- What a firing for a thread may do to the tokens of a place.
unfoldable pub Change : Engine → ThreadId → PlaceKey → List NetToken → List NetToken → Type 0
Change eng tid (PlaceKey.mutex r) ts us =
    MutexChange tid (as_mutex (head? ts)) (as_mutex (head? us))
Change eng tid (PlaceKey.semaphore r) ts us = NonNegative ts → NonNegative us
Change eng tid (PlaceKey.channel r) ts us =
    FitsCapacity (resource eng.program r) ts → FitsCapacity (resource eng.program r) us
Change eng tid _ ts us = Unit {0}

-- The tokens of mutexes, semaphores and channels are those of the first state.
pub record Kept (eng : Engine) (s s' : NetState) : Type 0 where
  pub tokens :
      (key : PlaceKey) (pid : PlaceId)
      → is_sync key ≡ true
      → place eng key ≡ some pid
      → place_tokens pid s' ≡ place_tokens pid s

pub record Steps (eng : Engine) (tid : ThreadId) (s s' : NetState) : Type 0 where
  pub change :
      (key : PlaceKey) (pid : PlaceId)
      → place eng key ≡ some pid
      → Change eng tid key (place_tokens pid s) (place_tokens pid s')

sync_clash : (b : Bool) → b ≡ true → b ≡ false → ⊥
sync_clash b h k = cc

module _ (eng : Engine) where
  pub unchanged : (s : NetState) → Kept eng s s
  unchanged s = record { tokens = λ key pid h e. refl }

  pub then-Kept : {a b c : NetState} → Kept eng a b → Kept eng b c → Kept eng a c
  then-Kept x y = record { tokens = λ key pid h e. y.tokens key pid h e ∙ x.tokens key pid h e }

  pub same_marking-Kept : (s s' : NetState) → s'.marking ≡ s.marking → Kept eng s s'
  unfolding place_tokens
  same_marking-Kept s s' e = record {
    tokens = λ key pid h p. ap (λ m. tokens_or_empty (get pid m)) e;
  }

  Change-refl :
      (tid : ThreadId) (key : PlaceKey) (ts us : List NetToken) → us ≡ ts → Change eng tid key ts us
  unfolding Change
  Change-refl tid (PlaceKey.mutex r) ts us e = inl (ap (λ l. as_mutex (head? l)) e)
  Change-refl tid (PlaceKey.semaphore r) ts us e = λ h. subst NonNegative (sym e) h
  Change-refl tid (PlaceKey.channel r) ts us e =
      λ h. subst (FitsCapacity (resource eng.program r)) (sym e) h
  Change-refl tid _ ts us e = tt

  Change-loose :
      (tid : ThreadId) (key : PlaceKey) (ts us : List NetToken)
      → is_sync key ≡ false
      → Change eng tid key ts us
  unfolding Change
  Change-loose tid (PlaceKey.mutex r) ts us e = cc
  Change-loose tid (PlaceKey.semaphore r) ts us e = cc
  Change-loose tid (PlaceKey.channel r) ts us e = cc
  Change-loose tid _ ts us e = tt

  -- A change of tokens that are equal to others is one of those.
  abbrev change_to :
      (tid : ThreadId) (key : PlaceKey) (ts us vs : List NetToken)
      → us ≡ vs
      → Change eng tid key ts us
      → Change eng tid key ts vs
  change_to tid key ts us vs e c = subst (Change eng tid key ts) e c

  pub kept-Steps : (tid : ThreadId) {s s' : NetState} → Kept eng s s' → Steps eng tid s s'
  kept-Steps tid k = record {
    change = λ key pid e. elim (Bool-cases (is_sync key)) [
      | inl h ↦ Change-refl tid key _ _ (k.tokens key pid h e)
      | inr h ↦ Change-loose tid key _ _ h
    ];
  }

  pub Steps-then :
      (tid : ThreadId) {a b c : NetState} → Steps eng tid a b → Kept eng b c → Steps eng tid a c
  Steps-then tid x k = record {
    change = λ key pid e. elim (Bool-cases (is_sync key)) [
      | inl h ↦ change_to tid key _ _ _ (sym (k.tokens key pid h e)) (x.change key pid e)
      | inr h ↦ Change-loose tid key _ _ h
    ];
  }

  pub then-Steps :
      (tid : ThreadId) {a b c : NetState} → Kept eng a b → Steps eng tid b c → Steps eng tid a c
  then-Steps tid {a} {b} {c} k x = record {
    change = λ key pid e. elim (Bool-cases (is_sync key)) [
      | inl h ↦
          subst (λ ts. Change eng tid key ts (place_tokens pid c)) (k.tokens key pid h e)
            (x.change key pid e)
      | inr h ↦ Change-loose tid key _ _ h
    ];
  }

  pub tokens-insert :
      (pid pid' : PlaceId) (ts : List NetToken) (s : NetState)
      → place_tokens pid' (record s { marking = insert pid ts s.marking })
        ≡ (if same pid pid' then ts else place_tokens pid' s)
  unfolding place_tokens
  tokens-insert pid pid' ts s =
      ap tokens_or_empty (get-insert pid pid' ts s.marking) ∙ choose (same pid pid')
    where
      choose :
          (b : Bool)
          → tokens_or_empty (if b then some ts else get pid' s.marking)
            ≡ (if b then ts else tokens_or_empty (get pid' s.marking))
      choose true = refl
      choose false = refl

  pub insert-Kept :
      (pid : PlaceId) (ts : List NetToken) (s : NetState)
      → Loose eng pid
      → Kept eng s (record s { marking = insert pid ts s.marking })
  insert-Kept pid ts s loose = record {
    tokens = λ key pid' h e. tokens-insert pid pid' ts s ∙ choose key pid' h e (same pid pid') refl;
  }
    where
      choose :
          (key : PlaceKey) (pid' : PlaceId)
          → is_sync key ≡ true
          → place eng key ≡ some pid'
          → (b : Bool) → same pid pid' ≡ b
          → (if b then ts else place_tokens pid' s) ≡ place_tokens pid' s
      choose key pid' h e true q =
          absurd (sync_clash _ h (loose key (e ∙ ap some (sym (same_sound pid pid' q)))))
      choose key pid' h e false q = refl

  pub put-Kept :
      (pid : PlaceId) (t : NetToken) (s : NetState) → Loose eng pid → Kept eng s (put pid t s)
  unfolding put
  put-Kept pid t s loose = insert-Kept pid _ s loose

  pub take-Kept :
      (pid : PlaceId) (t : NetToken) (s : NetState)
      → Loose eng pid
      → Opt (Kept eng s) (take_token pid t s)
  unfolding take_token
  take-Kept pid t s loose = choose (drop_token t (place_tokens pid s))
    where
      choose : (o : Option (List NetToken)) → Opt (Kept eng s) (with_tokens pid s o)
      choose none = tt
      choose (some ts) = insert-Kept pid ts s loose

  pub set-Kept :
      (pid : PlaceId) (t : NetToken) (s : NetState)
      → Loose eng pid
      → Kept eng s (set_single pid t s)
  unfolding set_single
  set-Kept pid t s loose = insert-Kept pid _ s loose

  -- One token in place of those of a key's place.
  pub set-Steps :
      Injective eng
      → (tid : ThreadId) (key : PlaceKey) (pid : PlaceId) (t : NetToken) (s : NetState)
      → place eng key ≡ some pid
      → Change eng tid key (place_tokens pid s) (t ∷ [])
      → Steps eng tid s (set_single pid t s)
  unfolding set_single
  set-Steps inj tid key pid t s e c = record {
    change = λ key' pid' e'.
        change_to tid key' (place_tokens pid' s) _ _ (sym (tokens-insert pid pid' (t ∷ []) s))
          (choose key' pid' e' (same pid pid') refl);
  }
    where
      moved :
          (key' : PlaceKey) (pid' : PlaceId)
          → pid ≡ pid'
          → key ≡ key'
          → Change eng tid key' (place_tokens pid' s) (t ∷ [])
      moved key' pid' p q =
          subst (λ k. Change eng tid k (place_tokens pid' s) (t ∷ [])) q
            (subst (λ i. Change eng tid key (place_tokens i s) (t ∷ [])) p c)

      choose :
          (key' : PlaceKey) (pid' : PlaceId)
          → place eng key' ≡ some pid'
          → (b : Bool) → same pid pid' ≡ b
          → Change eng tid key' (place_tokens pid' s) (if b then t ∷ [] else place_tokens pid' s)
      choose key' pid' e' true q =
          let p = same_sound pid pid' q in moved key' pid' p (inj key key' pid' (e ∙ ap some p) e')
      choose key' pid' e' false q = Change-refl tid key' _ _ refl

  pub Loose-key :
      Injective eng
      → (key : PlaceKey) (pid : PlaceId) → place eng key ≡ some pid
      → is_sync key ≡ false
      → Loose eng pid
  Loose-key inj key pid e h = λ key' e'. subst (λ k. is_sync k ≡ false) (inj key key' pid e e') h
