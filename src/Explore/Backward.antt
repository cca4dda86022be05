-- ===== src/Explore/Backward.antt =====
-- The backward search of `collected` collects only states with a path of edges to a root.
pub mod Pushes
pub mod Reversed
pub mod Ranges
pub mod Complete
use mathlib.Core.List.{reverse, reverse-cons}
use conc_ir.Prelude.{
  ℕ, zero, suc, ◌+◌, ◌≡◌, refl, sym, ap, subst, ◌⊎◌, inl, inr, true, some, List, [], ◌∷◌, ◌++◌,
  length, get_elem?, modify, In, arith, Bool-cases,
}
use conc_ir.Sem.Outcome.{ok, StepLabel}
use conc_ir.Explore.Search.{Graph}
use conc_ir.Explore.Check.{contains, empty_rows, push_unseen, reverse_reachable}
use conc_ir.Explore.Judgement.Agree.{collected-agrees}
use conc_ir.Explore.Judgement.{row_of, collected, collect_loop, turned_row, turned_edges}

-- A path of edges from `i` to one of the roots.
pub data ToRoot (edges : List (List (ℕ × StepLabel))) (roots : List ℕ) : ℕ → Type 0 where
  root : (i : ℕ) → In i roots → ToRoot edges roots i
  edge :
      (i t : ℕ) (label : StepLabel) (row : List (ℕ × StepLabel))
      → get_elem? edges i ≡ some row
      → In (t, label) row
      → ToRoot edges roots t
      → ToRoot edges roots i

pub In-snoc_inv : (xs : List ℕ) (y p : ℕ) → In p (xs ++ y ∷ []) → In p xs ⊎ (y ≡ p)
In-snoc_inv [] y p (inl e) = inr e
In-snoc_inv [] y p (inr h) = absurd h
In-snoc_inv (x ∷ xs) y p (inl e) = inl (inl e)
In-snoc_inv (x ∷ xs) y p (inr h) = elim (In-snoc_inv xs y p h) [
  | inl m ↦ inl (inr m)
  | inr e ↦ inr e
]

modify_sound :
    (rev : List (List ℕ)) (target i t p : ℕ)
    → In p (row_of (modify rev target (λ ps. ps ++ i ∷ [])) t)
    → In p (row_of rev t) ⊎ ((i ≡ p) × (target ≡ t))
modify_sound [] target i t p h = absurd h
modify_sound (r ∷ rev) zero i zero p h = elim (In-snoc_inv r i p h) [
  | inl m ↦ inl m
  | inr e ↦ inr (e, refl)
]
modify_sound (r ∷ rev) zero i (suc t) p h = inl h
modify_sound (r ∷ rev) (suc target) i zero p h = inl h
modify_sound (r ∷ rev) (suc target) i (suc t) p h = elim (modify_sound rev target i t p h) [
  | inl m ↦ inl m
  | inr (a, b) ↦ inr (a, ap suc b)
]

row_sound :
    (i : ℕ) (row : List (ℕ × StepLabel)) (rev : List (List ℕ)) (t p : ℕ)
    → In p (row_of (turned_row i row rev) t)
    → In p (row_of rev t) ⊎ ((i ≡ p) × ((l : StepLabel) × In (t, l) row))
row_sound i [] rev t p h = inl h
row_sound i ((target, label) ∷ row) rev t p h =
    elim (row_sound i row (modify rev target (λ ps. ps ++ i ∷ [])) t p h) [
      | inl m ↦ elim (modify_sound rev target i t p m) [
        | inl n ↦ inl n
        | inr (a, b) ↦ inr (a, (label, inl (cc b)))
      ]
      | inr (a, (l, m)) ↦ inr (a, (l, inr m))
    ]

-- An entry of the reversed graph is an edge of the graph.
pub edges_sound :
    (k : ℕ) (rows : List (List (ℕ × StepLabel))) (rev : List (List ℕ)) (t p : ℕ)
    → In p (row_of (turned_edges k rows rev) t)
    → In p (row_of rev t)
      ⊎ ((i : ℕ) × (row : List (ℕ × StepLabel)) × (l : StepLabel) × (p ≡ k + i)
          × (get_elem? rows i ≡ some row)
          × In (t, l) row)
edges_sound k [] rev t p h = inl h
edges_sound k (row ∷ rows) rev t p h =
    elim (edges_sound (suc k) rows (turned_row k row rev) t p h) [
      | inl m ↦ elim (row_sound k row rev t p m) [
        | inl n ↦ inl n
        | inr (a, (l, n)) ↦ inr (0, row, l, omega (arith, a), refl, n)
      ]
      | inr (i, row', l, a, b, c) ↦ inr (suc i, row', l, omega (arith, a), b, c)
    ]

pub empty_rows_nothing : {S : Type 0} (ss : List S) (t p : ℕ) → In p (row_of (empty_rows ss) t) → ⊥
empty_rows_nothing [] t p h = h
empty_rows_nothing (s ∷ ss) zero p h = h
empty_rows_nothing (s ∷ ss) (suc t) p h = empty_rows_nothing ss t p h

pub In-reverse_acc : (xs : List ℕ) (p : ℕ) → In p (reverse xs) → In p xs
In-reverse_acc [] p h = h
In-reverse_acc (x ∷ xs) p h = elim (In-snoc_inv (reverse xs) x p (rw reverse-cons at h)) [
  | inl m ↦ inr (In-reverse_acc xs p m)
  | inr e ↦ inl e
]

module _ {P : ℕ → Type 0} (rev : List (List ℕ))
    (closed : (t p : ℕ) → P t → In p (row_of rev t) → P p) where
  abbrev pub Both : List ℕ × List ℕ → Type 0
  Both r = ((p : ℕ) → In p r.0 → P p) × ((p : ℕ) → In p r.1 → P p)

  pub unseen_sound :
      (ps seen stack : List ℕ)
      → ((p : ℕ) → In p ps → P p)
      → ((p : ℕ) → In p seen → P p)
      → ((p : ℕ) → In p stack → P p)
      → Both (push_unseen ps seen stack)
  unfolding push_unseen
  unseen_sound [] seen stack hp hs ht = (hs, ht)
  unseen_sound (q ∷ ps) seen stack hp hs ht = elim (Bool-cases (contains seen q)) [
    | inl old ↦ rw old (unseen_sound ps seen stack (λ p m. hp p (inr m)) hs ht)
    | inr new ↦ rw new (
        unseen_sound ps (q ∷ seen) (q ∷ stack) (λ p m. hp p (inr m)) (also seen hs) (also stack ht))
  ]
    where
      also : (xs : List ℕ) → ((p : ℕ) → In p xs → P p) → (p : ℕ) → In p (q ∷ xs) → P p
      also xs h p (inl e) = subst P e (hp q (inl refl))
      also xs h p (inr m) = h p m

  loop_sound :
      (f : ℕ) (seen stack : List ℕ)
      → ((p : ℕ) → In p seen → P p)
      → ((p : ℕ) → In p stack → P p)
      → (p : ℕ) → In p (collect_loop f rev seen stack)
      → P p
  unfolding collect_loop
  loop_sound zero seen stack hs ht = hs
  loop_sound (suc f) seen [] hs ht = hs
  loop_sound (suc f) seen (i ∷ stack) hs ht =
      let (a, b) =
        unseen_sound (row_of rev i) seen stack (λ p m. closed i p (ht i (inl refl)) m) hs
          (λ p m. ht p (inr m)) in
      loop_sound f (push_unseen (row_of rev i) seen stack).0
        (push_unseen (row_of rev i) seen stack).1 a b

pub collected_sound :
    {S : Type 0} (g : Graph S) (roots : List ℕ) (p : ℕ)
    → In p (collected g roots)
    → ToRoot g.edges roots p
unfolding collected
collected_sound g roots p h =
    loop_sound {P = ToRoot g.edges roots} (turned_edges 0 g.edges (empty_rows g.states)) closed
      (suc (length g.states)) roots (reverse roots) (λ q m. root q m)
      (λ q m. root q (In-reverse_acc roots q m)) p h
  where
    closed :
        (t q : ℕ)
        → ToRoot g.edges roots t
        → In q (row_of (turned_edges 0 g.edges (empty_rows g.states)) t)
        → ToRoot g.edges roots q
    closed t q r m = elim (edges_sound 0 g.edges (empty_rows g.states) t q m) [
      | inl n ↦ absurd (empty_rows_nothing g.states t q n)
      | inr (i, row, l, a, b, c) ↦
          edge q t l row (subst (λ j. get_elem? g.edges j ≡ some row) (omega (arith, a)) b) c r
    ]

-- Every state that the backward search collects has a path to a root.
pub reverse_reachable_sound :
    {S : Type 0} (g : Graph S) (roots can_reach : List ℕ) (p : ℕ)
    → reverse_reachable g roots ≡ ok can_reach
    → In p can_reach
    → ToRoot g.edges roots p
reverse_reachable_sound g roots can_reach p h m =
    collected_sound g roots p (subst (In p) (sym (collected-agrees g roots can_reach h)) m)

-- The Boolean membership test.
pub contains_In : (xs : List ℕ) (i : ℕ) → contains xs i ≡ true → In i xs
contains_In [] i h = cc
contains_In (x ∷ xs) i h = ground (arith, contains_In xs i)
