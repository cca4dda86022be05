-- ===== src/Interp/Ownership/Relation.antt =====
-- src/interp: what a result, and each state that a step of src/interp/exec.rs fires, satisfies.
use conc_ir.Prelude.{
  Bool, true, false, ◌≡◌, refl, ◌∙◌, Option, none, some, List, [], ◌∷◌, ◌++◌, if◌then◌else◌,
}
use conc_ir.Sem.Outcome.{Result, ok, err, panic, ◌>>=◌}
use conc_ir.Interp.State.{MachineState}
use conc_ir.Interp.Access.{Fired}

-- The predicate holds of the value of a successful result.
unfoldable pub Post {ℓ} : {A : Type ℓ} → (A → Type 0) → Result A → Type 0
Post P (ok a) = P a
Post P (err e) = Unit {0}
Post P panic = Unit {0}

unfoldable pub Every {ℓ} : {A : Type ℓ} → (A → Type 0) → List A → Type 0
Every P [] = Unit {0}
Every P (a ∷ xs) = P a × Every P xs

abbrev pub Opt {ℓ} : {A : Type ℓ} → (A → Type 0) → Option A → Type 0
Opt P none = Unit {0}
Opt P (some a) = P a

abbrev pub Fires : (MachineState → Type 0) → Fired → Type 0
Fires P fired = Every P fired.states

-- The synchronisation resources are those of the first state.
pub record Kept (s s' : MachineState) : Type 0 where
  pub mutexes : s'.store.mutexes ≡ s.store.mutexes
  pub semaphores : s'.store.semaphores ≡ s.store.semaphores
  pub channels : s'.store.channels ≡ s.store.channels

pub same : (s : MachineState) → Kept s s
same s = record { mutexes = refl; semaphores = refl; channels = refl }

pub kept :
    {s s' : MachineState}
    → s'.store.mutexes ≡ s.store.mutexes
    → s'.store.semaphores ≡ s.store.semaphores
    → s'.store.channels ≡ s.store.channels
    → Kept s s'
kept m n c = record { mutexes = m; semaphores = n; channels = c }

pub then_same : {a b c : MachineState} → Kept a b → Kept b c → Kept a c
then_same x y = record {
  mutexes = y.mutexes ∙ x.mutexes;
  semaphores = y.semaphores ∙ x.semaphores;
  channels = y.channels ∙ x.channels;
}

pub Kept-if :
    {s : MachineState} (b : Bool) (x y : MachineState)
    → Kept s x
    → Kept s y
    → Kept s (if b then x else y)
Kept-if true x y p q = p
Kept-if false x y p q = q

module _ {ℓ κ} {A : Type ℓ} {B : Type κ} where
  pub Post-bind :
      {P : A → Type 0} (Q : B → Type 0) (m : Result A) (f : A → Result B)
      → Post P m
      → ((a : A) → P a → Post Q (f a))
      → Post Q (m >>= f)
  unfolding Post
  Post-bind Q (ok a) f p k = k a p
  Post-bind Q (err e) f p k = tt
  Post-bind Q panic f p k = tt

  pub Post-any :
      (Q : B → Type 0) (m : Result A) (f : A → Result B)
      → ((a : A) → Post Q (f a))
      → Post Q (m >>= f)
  unfolding Post
  Post-any Q (ok a) f k = k a
  Post-any Q (err e) f k = tt
  Post-any Q panic f k = tt

module _ {ℓ} {A : Type ℓ} where
  pub Post-ok : (P : A → Type 0) (a : A) → P a → Post P (ok a)
  unfolding Post
  Post-ok P a p = p

  pub Post-panic : (P : A → Type 0) → Post P panic
  unfolding Post
  Post-panic P = tt

  pub Post-map : {P Q : A → Type 0} (m : Result A) → Post P m → ((a : A) → P a → Q a) → Post Q m
  unfolding Post
  Post-map (ok a) p k = k a p
  Post-map (err e) p k = tt
  Post-map panic p k = tt

  pub Post-if :
      (P : A → Type 0) (b : Bool) (x y : Result A)
      → Post P x
      → Post P y
      → Post P (if b then x else y)
  Post-if P true x y p q = p
  Post-if P false x y p q = q

  pub Post-if_known :
      (P : A → Type 0) (b : Bool) (x y : Result A)
      → (b ≡ true → Post P x)
      → (b ≡ false → Post P y)
      → Post P (if b then x else y)
  Post-if_known P true x y p q = p refl
  Post-if_known P false x y p q = q refl

  pub Every-append :
      (P : A → Type 0) (xs ys : List A) → Every P xs → Every P ys → Every P (xs ++ ys)
  unfolding Every
  Every-append P [] ys p q = q
  Every-append P (x ∷ xs) ys (p, ps) q = (p, Every-append P xs ys ps q)
