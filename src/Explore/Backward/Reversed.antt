-- ===== src/Explore/Backward/Reversed.antt =====
-- The reversed graph of `collected` has an entry for every edge.
use mathlib.Core.List.{reverse, reverse-cons}
use conc_ir.Prelude.{
  ℕ, zero, suc, ◌+◌, ◌<◌, ◌≡◌, refl, ap, sym, subst, inl, inr, List, [], ◌∷◌, some, ◌++◌, ◌∙◌,
  length, get_elem?, modify, In, arith, length-modify, length-snoc,
}
use conc_ir.Sem.Outcome.{StepLabel}
use conc_ir.Explore.Check.{empty_rows}
use conc_ir.Explore.Judgement.{row_of, turned_row, turned_edges}

In-snoc : (xs : List ℕ) (y p : ℕ) → In p xs → In p (xs ++ y ∷ [])
In-snoc [] y p h = absurd h
In-snoc (x ∷ xs) y p (inl e) = inl e
In-snoc (x ∷ xs) y p (inr m) = inr (In-snoc xs y p m)

In-snoc_last : (xs : List ℕ) (y : ℕ) → In y (xs ++ y ∷ [])
In-snoc_last [] y = inl refl
In-snoc_last (x ∷ xs) y = inr (In-snoc_last xs y)

pub In-reverse : (xs : List ℕ) (p : ℕ) → In p xs → In p (reverse xs)
In-reverse [] p h = absurd h
In-reverse (x ∷ xs) p (inl e) =
    rw reverse-cons (subst (λ z. In z (reverse xs ++ x ∷ [])) e (In-snoc_last (reverse xs) x))
In-reverse (x ∷ xs) p (inr m) = rw reverse-cons (In-snoc (reverse xs) x p (In-reverse xs p m))

pub length-reverse : (xs : List ℕ) → length (reverse xs) ≡ length xs
length-reverse [] = refl
length-reverse (x ∷ xs) = rw reverse-cons (length-snoc (reverse xs) x ∙ ap suc (length-reverse xs))

modify_keeps :
    (rev : List (List ℕ)) (target i t p : ℕ)
    → In p (row_of rev t)
    → In p (row_of (modify rev target (λ ps. ps ++ i ∷ [])) t)
modify_keeps [] target i t p h = h
modify_keeps (r ∷ rev) zero i zero p h = In-snoc r i p h
modify_keeps (r ∷ rev) zero i (suc t) p h = h
modify_keeps (r ∷ rev) (suc target) i zero p h = h
modify_keeps (r ∷ rev) (suc target) i (suc t) p h = modify_keeps rev target i t p h

modify_adds :
    (rev : List (List ℕ)) (i t : ℕ)
    → t < length rev
    → In i (row_of (modify rev t (λ ps. ps ++ i ∷ [])) t)
modify_adds [] i t h = elim h [ ]
modify_adds (r ∷ rev) i zero h = In-snoc_last r i
modify_adds (r ∷ rev) i (suc t) h = modify_adds rev i t (omega arith)

row_keeps :
    (i : ℕ) (row : List (ℕ × StepLabel)) (rev : List (List ℕ)) (t p : ℕ)
    → In p (row_of rev t)
    → In p (row_of (turned_row i row rev) t)
row_keeps i [] rev t p h = h
row_keeps i ((target, label) ∷ row) rev t p h =
    row_keeps i row (modify rev target (λ ps. ps ++ i ∷ [])) t p (modify_keeps rev target i t p h)

pub length-turned_row :
    (i : ℕ) (row : List (ℕ × StepLabel)) (rev : List (List ℕ))
    → length (turned_row i row rev) ≡ length rev
length-turned_row i [] rev = refl
length-turned_row i ((target, label) ∷ row) rev =
    length-turned_row i row (modify rev target (λ ps. ps ++ i ∷ []))
    ∙ length-modify rev target (λ ps. ps ++ i ∷ [])

row_complete :
    (i : ℕ) (row : List (ℕ × StepLabel)) (rev : List (List ℕ)) (t : ℕ) (l : StepLabel)
    → t < length rev
    → In (t, l) row
    → In i (row_of (turned_row i row rev) t)
row_complete i [] rev t l h m = absurd m
row_complete i ((target, label) ∷ row) rev t l h (inl e) =
    row_keeps i row (modify rev target (λ ps. ps ++ i ∷ [])) t i (
      subst (λ u. In i (row_of (modify rev u (λ ps. ps ++ i ∷ [])) t)) (sym (ap (λ q. q.0) e))
        (modify_adds rev i t h))
row_complete i ((target, label) ∷ row) rev t l h (inr m) =
    row_complete i row (modify rev target (λ ps. ps ++ i ∷ [])) t l
      (subst (λ n. t < n) (sym (length-modify rev target (λ ps. ps ++ i ∷ []))) h) m

edges_keeps :
    (k : ℕ) (rows : List (List (ℕ × StepLabel))) (rev : List (List ℕ)) (t p : ℕ)
    → In p (row_of rev t)
    → In p (row_of (turned_edges k rows rev) t)
edges_keeps k [] rev t p h = h
edges_keeps k (row ∷ rows) rev t p h =
    edges_keeps (suc k) rows (turned_row k row rev) t p (row_keeps k row rev t p h)

-- An edge of the graph is an entry of the reversed graph.
pub edges_complete :
    (k : ℕ) (rows : List (List (ℕ × StepLabel))) (rev : List (List ℕ)) (i t : ℕ) (l : StepLabel)
    (row : List (ℕ × StepLabel))
    → get_elem? rows i ≡ some row
    → t < length rev
    → In (t, l) row
    → In (k + i) (row_of (turned_edges k rows rev) t)
edges_complete k [] rev i t l row e h m = cc
edges_complete k (r ∷ rows) rev zero t l row e h m =
    edges_keeps (suc k) rows (turned_row k r rev) t (k + 0) (
      subst (λ z. In z (row_of (turned_row k r rev) t)) (omega arith)
        (row_complete k r rev t l h (subst (In (t, l)) (same e) m)))
  where
    same : some r ≡ some row → row ≡ r
    same e = cc
edges_complete k (r ∷ rows) rev (suc i) t l row e h m =
    subst (λ z. In z (row_of (turned_edges (suc k) rows (turned_row k r rev)) t)) (omega arith)
      (edges_complete (suc k) rows (turned_row k r rev) i t l row e
        (subst (λ n. t < n) (sym (length-turned_row k r rev)) h) m)

pub length-empty_rows : {S : Type 0} (ss : List S) → length (empty_rows ss) ≡ length ss
length-empty_rows [] = refl
length-empty_rows (s ∷ ss) = ap suc (length-empty_rows ss)
