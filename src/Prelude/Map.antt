-- ===== src/Prelude/Map.antt =====
-- `BTreeMap` and `BTreeSet`: association lists in the order of their keys. `HashMap` has the same
-- model where the program does not iterate over it.
use Prim.Native.Nat.{ℕ, compare, Ordering}
use mathlib.Core.Path.{◌≡◌, refl}
use mathlib.Core.Logic.{◌↔◌, ◌⊎◌}
use mathlib.Core.Bool.{Bool, true, false}
use mathlib.Core.Option.{Option, none, some}
use mathlib.Core.List.{List, [], ◌∷◌}
use native.Mathlib.Omega.{arith}
use conc_ir.Prelude.Tests.{if◌then◌else◌}

-- A total order on keys, as far as a map needs it.
pub record Key {ℓ} (K : Type ℓ) : Type ℓ where
  pub cmp : K → K → Ordering
  pub cmp_iff : (a b : K) → (cmp a b ≡ Ordering.eq) ↔ (a ≡ b)

abbrev pub same {ℓ} : {K : Type ℓ} ⦃key : Key K⦄ → K → K → Bool
same ⦃key⦄ a b = elim (key.cmp a b) [ Ordering.eq ↦ true | _ ↦ false ]

pub compare_iff : (a b : ℕ) → (compare a b ≡ Ordering.eq) ↔ (a ≡ b)
compare_iff a b = ground arith

instance abbrev pub nat_key : Key ℕ
nat_key = record { cmp = compare; cmp_iff = compare_iff }

module _ {ℓ} {K : Type ℓ} ⦃key : Key K⦄ where
  abbrev pub lex : List K → List K → Ordering
  lex [] [] = Ordering.eq
  lex [] (b ∷ bs) = Ordering.lt
  lex (a ∷ as') [] = Ordering.gt
  lex (a ∷ as') (b ∷ bs) =
      let rest = lex as' bs in elim (key.cmp a b) [ Ordering.eq ↦ rest | o ↦ o ]

  lex_sound : (xs ys : List K) → lex xs ys ≡ Ordering.eq → xs ≡ ys
  lex_sound [] [] h = refl
  lex_sound [] (y ∷ ys) h = cc
  lex_sound (x ∷ xs) [] h = cc
  lex_sound (x ∷ xs) (y ∷ ys) h = ground (arith, key.cmp_iff x y, lex_sound xs ys)

  lex_refl : (xs : List K) → lex xs xs ≡ Ordering.eq
  lex_refl [] = refl
  lex_refl (x ∷ xs) = ground (arith, key.cmp_iff x x, lex_refl xs)

  pub lex_iff : (xs ys : List K) → (lex xs ys ≡ Ordering.eq) ↔ (xs ≡ ys)
  lex_iff xs ys = (lex_sound xs ys, λ e. rw e (lex_refl ys))

  instance abbrev pub list_key : Key (List K)
  list_key = record { cmp = lex; cmp_iff = lex_iff }

module _ {ℓ κ} {K : Type ℓ} {L : Type κ} ⦃key : Key K⦄ ⦃key' : Key L⦄ where
  abbrev pub pair_cmp : K × L → K × L → Ordering
  pair_cmp (a, b) (c, d) = elim (key.cmp a c) [ Ordering.eq ↦ key'.cmp b d | o ↦ o ]

  pub pair_iff : (x y : K × L) → (pair_cmp x y ≡ Ordering.eq) ↔ (x ≡ y)
  pair_iff (a, b) (c, d) = ground (arith, key.cmp_iff a c, key'.cmp_iff b d)

  instance abbrev pub pair_key : Key (K × L)
  pair_key = record { cmp = pair_cmp; cmp_iff = pair_iff }

module _ {ℓ} {K : Type ℓ} ⦃key : Key K⦄ where
  pub same_self : (k : K) → same k k ≡ true
  same_self k = ground (arith, key.cmp_iff k k)

  pub same_sound : (k j : K) → same k j ≡ true → k ≡ j
  same_sound k j h = ground (arith, key.cmp_iff k j)

abbrev pub Map {ℓ κ} : Type ℓ → Type κ → Type (ℓ ⊔ κ)
Map K V = List (K × V)

module _ {ℓ κ} {K : Type ℓ} ⦃key : Key K⦄ {V : Type κ} where
  unfoldable pub get : K → Map K V → Option V
  get k [] = none
  get k ((j, v) ∷ m) = if same j k then some v else get k m

  unfoldable pub insert : K → V → Map K V → Map K V
  insert k v [] = (k, v) ∷ []
  insert k v ((j, w) ∷ m) =
      let rest = insert k v m in
      elim (key.cmp k j) [
        | Ordering.lt ↦ (k, v) ∷ (j, w) ∷ m
        | Ordering.eq ↦ (k, v) ∷ m
        | Ordering.gt ↦ (j, w) ∷ rest
      ]

  unfoldable pub remove : K → Map K V → Map K V
  remove k [] = []
  remove k ((j, w) ∷ m) = let rest = remove k m in if same j k then rest else (j, w) ∷ rest

  pub get-insert :
      (k j : K) (v : V) (m : Map K V)
      → get j (insert k v m) ≡ (if same k j then some v else get j m)
  unfolding get insert
  get-insert k j v [] = refl
  get-insert k j v ((i, w) ∷ m) =
      ground (arith, get-insert k j v m, key.cmp_iff k i, key.cmp_iff k j, key.cmp_iff i j)

  pub get-remove :
      (k j : K) (m : Map K V) → get j (remove k m) ≡ (if same k j then none else get j m)
  unfolding get remove
  get-remove k j [] = ground arith
  get-remove k j ((i, w) ∷ m) =
      ground (arith, get-remove k j m, key.cmp_iff i k, key.cmp_iff k j, key.cmp_iff i j)

  pub get-insert_self : (k : K) (v : V) (m : Map K V) → get k (insert k v m) ≡ some v
  get-insert_self k v m = rw (get-insert k k v m, same_self k)

  pub get-insert_inv :
      (k j : K) (v w : V) (m : Map K V)
      → get j (insert k v m) ≡ some w
      → ((k ≡ j) × (v ≡ w)) ⊎ (get j m ≡ some w)
  get-insert_inv k j v w m h = ground (arith, get-insert k j v m, same_sound k j)

  pub get-insert_fresh :
      (k j : K) (v w : V) (m : Map K V)
      → get k m ≡ none
      → get j m ≡ some w
      → get j (insert k v m) ≡ some w
  get-insert_fresh k j v w m h e = ground (arith, get-insert k j v m, same_sound k j)

  pub get-empty : (k : K) → get k [] ≡ none
  unfolding get
  get-empty k = refl
