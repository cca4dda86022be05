-- ===== src/Explore/Positions.antt =====
-- What the searches through the vectors of the graph find.
use conc_ir.Prelude.{
  ℕ, zero, suc, ◌+◌, ◌≡◌, refl, sym, subst, ◌⊎◌, inl, inr, Bool, true, false, Option, none, some,
  List, [], ◌∷◌, get_elem?, In, arith, Bool-cases,
}
use conc_ir.Sem.Outcome.{Outcome}
use conc_ir.Explore.Check.{absent, present}
use conc_ir.Explore.Judgement.{flag, row_of, first_from, all_from}

pub flag-elem : (bs : List Bool) (i : ℕ) (b : Bool) → get_elem? bs i ≡ some b → flag bs i ≡ b
flag-elem [] i b e = cc
flag-elem (c ∷ bs) zero b e = cc
flag-elem (c ∷ bs) (suc i) b e = flag-elem bs i b e

module _ {A : Type 0} where
  pub row_of-elem :
      (rows : List (List A)) (i : ℕ) (r : List A) → get_elem? rows i ≡ some r → row_of rows i ≡ r
  row_of-elem [] i r e = cc
  row_of-elem (x ∷ rows) zero r e = cc
  row_of-elem (x ∷ rows) (suc i) r e = row_of-elem rows i r e

module _ {S : Type 0} (test : ℕ → S → Bool) where
  position-none_from :
      (k : ℕ) (ss : List S)
      → first_from test k ss ≡ none
      → (i : ℕ) (s : S) → get_elem? ss i ≡ some s
      → test (k + i) s ≡ false
  position-none_from k [] h i s e = cc
  position-none_from k (x ∷ ss) h zero s e = elim (Bool-cases (test k x)) [
    | inl hit ↦ absurd (some_ne_none k (rw hit at h))
    | inr miss ↦
        subst (λ j. test j s ≡ false) (sym (plus_zero k))
          (subst (λ t. test k t ≡ false) (head e) miss)
  ]
    where
      some_ne_none : (k : ℕ) → some k ≡ none → ⊥
      some_ne_none k h = cc

      plus_zero : (k : ℕ) → k + 0 ≡ k
      plus_zero k = omega arith

      head : some x ≡ some s → x ≡ s
      head e = cc
  position-none_from k (x ∷ ss) h (suc i) s e = elim (Bool-cases (test k x)) [
    | inl hit ↦ absurd (some_ne_none k (rw hit at h))
    | inr miss ↦
        subst (λ j. test j s ≡ false) (shift k i)
          (position-none_from (suc k) ss (rw miss at h) i s e)
  ]
    where
      some_ne_none : (k : ℕ) → some k ≡ none → ⊥
      some_ne_none k h = cc

      shift : (k i : ℕ) → suc k + i ≡ k + suc i
      shift k i = omega arith

  position-some_from :
      (k : ℕ) (ss : List S) (j : ℕ)
      → first_from test k ss ≡ some j
      → (i : ℕ) × (s : S) × (get_elem? ss i ≡ some s) × (test (k + i) s ≡ true)
  position-some_from k [] j h = cc
  position-some_from k (x ∷ ss) j h = elim (Bool-cases (test k x)) [
    | inl hit ↦ (0, x, refl, subst (λ j. test j x ≡ true) (sym (plus_zero k)) hit)
    | inr miss ↦
        let (i, s, a, b) = position-some_from (suc k) ss j (rw miss at h) in
        (suc i, s, a, subst (λ j. test j s ≡ true) (shift k i) b)
  ]
    where
      plus_zero : (k : ℕ) → k + 0 ≡ k
      plus_zero k = omega arith

      shift : (k i : ℕ) → suc k + i ≡ k + suc i
      shift k i = omega arith

  zero_plus : (i : ℕ) → 0 + i ≡ i
  zero_plus i = omega arith

  -- `absent` passes on a complete search that found nothing, and fails on a finding.
  pub absent-pass :
      (done : Bool) (ss : List S)
      → absent done (first_from test 0 ss) ≡ Outcome.pass
      → (done ≡ true) × ((i : ℕ) (s : S) → get_elem? ss i ≡ some s → test i s ≡ false)
  absent-pass done ss h = split (first_from test 0 ss) refl
    where
      split :
          (o : Option ℕ)
          → first_from test 0 ss ≡ o
          → (done ≡ true) × ((i : ℕ) (s : S) → get_elem? ss i ≡ some s → test i s ≡ false)
      split none e = (
        ground (arith, h, e),
        λ i s g. subst (λ j. test j s ≡ false) (zero_plus i) (position-none_from 0 ss e i s g),
      )
      split (some j) e = absurd (ground (arith, h, e))

  pub absent-fail :
      (done : Bool) (ss : List S)
      → absent done (first_from test 0 ss) ≡ Outcome.fail
      → (i : ℕ) × (s : S) × (get_elem? ss i ≡ some s) × (test i s ≡ true)
  absent-fail done ss h = split (first_from test 0 ss) refl
    where
      split :
          (o : Option ℕ)
          → first_from test 0 ss ≡ o
          → (i : ℕ) × (s : S) × (get_elem? ss i ≡ some s) × (test i s ≡ true)
      split none e = absurd (ground (arith, h, e))
      split (some j) e =
          let (i, s, a, b) = position-some_from 0 ss j e in
          (i, s, a, subst (λ j. test j s ≡ true) (zero_plus i) b)

  pub present-pass :
      (done : Bool) (ss : List S)
      → present done (first_from test 0 ss) ≡ Outcome.pass
      → (i : ℕ) × (s : S) × (get_elem? ss i ≡ some s) × (test i s ≡ true)
  present-pass done ss h = split (first_from test 0 ss) refl
    where
      split :
          (o : Option ℕ)
          → first_from test 0 ss ≡ o
          → (i : ℕ) × (s : S) × (get_elem? ss i ≡ some s) × (test i s ≡ true)
      split none e = absurd (ground (arith, h, e))
      split (some j) e =
          let (i, s, a, b) = position-some_from 0 ss j e in
          (i, s, a, subst (λ j. test j s ≡ true) (zero_plus i) b)

  pub present-fail :
      (done : Bool) (ss : List S)
      → present done (first_from test 0 ss) ≡ Outcome.fail
      → (done ≡ true) × ((i : ℕ) (s : S) → get_elem? ss i ≡ some s → test i s ≡ false)
  present-fail done ss h = split (first_from test 0 ss) refl
    where
      split :
          (o : Option ℕ)
          → first_from test 0 ss ≡ o
          → (done ≡ true) × ((i : ℕ) (s : S) → get_elem? ss i ≡ some s → test i s ≡ false)
      split none e = (
        ground (arith, h, e),
        λ i s g. subst (λ j. test j s ≡ false) (zero_plus i) (position-none_from 0 ss e i s g),
      )
      split (some j) e = absurd (ground (arith, h, e))

module _ {S : Type 0} (test : S → Bool) where
  pub indices_from_sound :
      (k : ℕ) (ss : List S) (j : ℕ)
      → In j (all_from test k ss)
      → (i : ℕ) × (s : S) × (j ≡ k + i) × (get_elem? ss i ≡ some s) × (test s ≡ true)
  indices_from_sound k [] j h = absurd h
  indices_from_sound k (x ∷ ss) j h = elim (Bool-cases (test x)) [
    | inl hit ↦ elim (hit_cases (rw hit at h)) [
      | inl e ↦ (0, x, omega (arith, e), refl, hit)
      | inr m ↦
          let (i, s, a, b, c) = indices_from_sound (suc k) ss j m in
          (suc i, s, omega (arith, a), b, c)
    ]
    | inr miss ↦
        let (i, s, a, b, c) = indices_from_sound (suc k) ss j (rw miss at h) in
        (suc i, s, omega (arith, a), b, c)
  ]
    where
      hit_cases : In j (k ∷ all_from test (suc k) ss) → (k ≡ j) ⊎ In j (all_from test (suc k) ss)
      hit_cases h = h

  -- The indices collected are those of states that pass the test.
  pub indices_sound :
      (ss : List S) (j : ℕ)
      → In j (all_from test 0 ss)
      → (s : S) × (get_elem? ss j ≡ some s) × (test s ≡ true)
  indices_sound ss j h =
      let (i, s, a, b, c) = indices_from_sound 0 ss j h in
      (s, subst (λ t. get_elem? ss t ≡ some s) (omega (arith, a)) b, c)
