-- ===== src/Sem/Results.antt =====
-- Chains of fallible steps, and accesses in range.
use conc_ir.Prelude.{ℕ, zero, suc, ◌<◌, ◌≡◌, refl, List, [], ◌∷◌, length, modify, set, arith}
use conc_ir.Sem.Outcome.{Result, ok, err, panic, ◌>>=◌, modify_at, set_at}

-- Where a chain of fallible steps succeeds, its first step does.
pub bind-ok :
    {A B : Type 0} (m : Result A) (k : A → Result B) (b : B)
    → (m >>= k) ≡ ok b
    → (a : A) × (m ≡ ok a) × (k a ≡ ok b)
bind-ok (ok a) k b h = (a, refl, h)
bind-ok (err e) k b h = cc
bind-ok panic k b h = cc

pub ok-inj : {A : Type 0} {a b : A} → ok a ≡ ok b → a ≡ b
ok-inj h = cc

pub modify_at-ok :
    {A : Type 0} (xs : List A) (i : ℕ) (f : A → A)
    → i < length xs
    → modify_at xs i f ≡ ok (modify xs i f)
modify_at-ok [] i f h = elim h [ ]
modify_at-ok (x ∷ xs) zero f h = refl
modify_at-ok (x ∷ xs) (suc i) f h = rw (modify_at-ok xs i f (omega arith)) refl

pub set_at-ok :
    {A : Type 0} (xs : List A) (i : ℕ) (v : A) → i < length xs → set_at xs i v ≡ ok (set xs i v)
set_at-ok [] i v h = elim h [ ]
set_at-ok (x ∷ xs) zero v h = refl
set_at-ok (x ∷ xs) (suc i) v h = rw (set_at-ok xs i v (omega arith)) refl
