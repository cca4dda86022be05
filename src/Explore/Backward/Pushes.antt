-- ===== src/Explore/Backward/Pushes.antt =====
-- What one visit of the backward search `collected` pushes, and how many different states
-- it can see.
use conc_ir.Prelude.{
  ℕ, zero, suc, ◌+◌, ◌<◌, ◌≤◌, ◌≡◌, ◌≢◌, refl, sym, subst, ◌⊎◌, inl, inr, true, false, List, [],
  ◌∷◌, ◌∙◌, length, In, arith, Bool-cases,
}
use conc_ir.Explore.Check.{contains, push_unseen}
use conc_ir.Explore.Backward.{contains_In}

abbrev pub Distinct : List ℕ → Type 0
Distinct [] = Unit {0}
Distinct (x ∷ xs) = (¬ In x xs) × Distinct xs

pub In-contains : (xs : List ℕ) (i : ℕ) → In i xs → contains xs i ≡ true
In-contains [] i h = absurd h
In-contains (x ∷ xs) i (inl e) = ground (arith, e)
In-contains (x ∷ xs) i (inr m) = ground (arith, In-contains xs i m)

-- All elements but one value.
without :
    (n : ℕ) (xs : List ℕ)
    → Distinct xs
    → (ys : List ℕ) × (length xs ≤ suc (length ys))
      × Distinct ys
      × ((p : ℕ) → In p ys → In p xs × (p ≢ n))
without n [] d = ([], omega arith, tt, λ p m. absurd m)
without n (x ∷ xs) (new, d) = elim (eq_or_not x n) [
  | inl e ↦ (xs, omega arith, d, λ p m. (inr m, λ q. new (subst (λ z. In z xs) (q ∙ sym e) m)))
  | inr ne ↦
      let (ys, l, d', h) = without n xs d in
      (x ∷ ys, omega (arith, l), ((λ m. new (h x m).0), d'), member ys h ne)
]
  where
    eq_or_not : (x n : ℕ) → (x ≡ n) ⊎ (x ≢ n)
    eq_or_not x n = omega arith

    member :
        (ys : List ℕ)
        → ((p : ℕ) → In p ys → In p xs × (p ≢ n))
        → x ≢ n
        → (p : ℕ) → In p (x ∷ ys)
        → In p (x ∷ xs) × (p ≢ n)
    member ys h ne p (inl e) = (inl e, λ q. ne (e ∙ q))
    member ys h ne p (inr m) = (inr (h p m).0, (h p m).1)

-- Different numbers below `n` are at most `n` many.
pub pigeonhole : (n : ℕ) (xs : List ℕ) → Distinct xs → ((p : ℕ) → In p xs → p < n) → length xs ≤ n
pigeonhole zero [] d h = omega arith
pigeonhole zero (x ∷ xs) d h = omega (arith, h x (inl refl))
pigeonhole (suc n) xs d h =
    let (ys, l, d', m) = without n xs d in
    omega (arith, l, pigeonhole n ys d' (λ p i. smaller p (h p (m p i).0) (m p i).1))
  where
    smaller : (p : ℕ) → p < suc n → p ≢ n → p < n
    smaller p a b = omega arith

-- What is pushed when the predecessors `ps` are looked through.
pub record Pushed (ps seen stack : List ℕ) (r : List ℕ × List ℕ) : Type 0 where
  pub distinct : Distinct seen → Distinct r.0
  pub kept : (p : ℕ) → In p seen → In p r.0
  pub waiting : (p : ℕ) → In p stack → In p r.1
  pub all : (p : ℕ) → In p ps → In p r.0
  pub balance : length r.0 + length stack ≡ length seen + length r.1
  pub origin : (p : ℕ) → In p r.0 → In p seen ⊎ (In p ps × In p r.1)

pub push_unseen-Pushed : (ps seen stack : List ℕ) → Pushed ps seen stack (push_unseen ps seen stack)
unfolding push_unseen
push_unseen-Pushed [] seen stack = record {
  distinct = λ d. d;
  kept = λ p m. m;
  waiting = λ p m. m;
  all = λ p m. absurd m;
  balance = refl;
  origin = λ p m. inl m;
}
push_unseen-Pushed (q ∷ ps) seen stack = elim (Bool-cases (contains seen q)) [
  | inl old ↦ rw old (
      known (push_unseen ps seen stack) (contains_In seen q old) (push_unseen-Pushed ps seen stack))
  | inr new ↦ rw new (
      pushed (λ m. absurd_bool (sym (In-contains seen q m) ∙ new))
        (push_unseen-Pushed ps (q ∷ seen) (q ∷ stack)))
]
  where
    absurd_bool : true ≡ false → ⊥
    absurd_bool h = cc

    known :
        (res : List ℕ × List ℕ)
        → In q seen
        → Pushed ps seen stack res
        → Pushed (q ∷ ps) seen stack res
    known res m r = record {
      distinct = r.distinct;
      kept = r.kept;
      waiting = r.waiting;
      all = λ p i. elim i [ inl e ↦ moved p e (r.kept q m) | inr j ↦ r.all p j ];
      balance = r.balance;
      origin = λ p i. elim (r.origin p i) [ inl j ↦ inl j | inr (j, w) ↦ inr (inr j, w) ];
    }
      where
        moved : (p : ℕ) → q ≡ p → In q res.0 → In p res.0
        moved p e m = subst (λ z. In z res.0) e m

    pushed :
        {r : List ℕ × List ℕ}
        → ¬ In q seen
        → Pushed ps (q ∷ seen) (q ∷ stack) r
        → Pushed (q ∷ ps) seen stack r
    pushed fresh r = record {
      distinct = λ d. r.distinct (fresh, d);
      kept = λ p m. r.kept p (inr m);
      waiting = λ p m. r.waiting p (inr m);
      all = λ p i. elim i [ inl e ↦ r.kept p (inl e) | inr j ↦ r.all p j ];
      balance = omega (arith, r.balance);
      origin = λ p i. elim (r.origin p i) [
        | inl (inl e) ↦ inr (inl e, r.waiting p (inl e))
        | inl (inr j) ↦ inl j
        | inr (j, w) ↦ inr (inr j, w)
      ];
    }
