-- ===== src/Explore/Backward/Ranges.antt =====
-- No index of `reverse_reachable` is out of range where the rows and targets of the edges are states.
use mathlib.Core.List.{reverse}
use conc_ir.Prelude.{
  ℕ, zero, suc, ◌<◌, ◌≤◌, ◌≡◌, refl, sym, subst, ◌∙◌, inl, inr, List, [], ◌∷◌, some, ◌++◌, length,
  get_elem?, modify, In, arith, length-modify, get_elem?-lt,
}
use conc_ir.Sem.Outcome.{ok, read_at, StepLabel}
use conc_ir.Sem.Results.{modify_at-ok}
use conc_ir.Explore.Search.{Graph}
use conc_ir.Explore.Check.{
  reverse_row, reverse_edges, reverse_loop, reverse_reachable, empty_rows, push_unseen,
}
use conc_ir.Explore.Judgement.{row_of, turned_row, turned_edges, collect_loop, collected}
use conc_ir.Explore.Backward.{edges_sound, empty_rows_nothing, unseen_sound, In-reverse_acc}
use conc_ir.Explore.Backward.Reversed.{length-turned_row, length-empty_rows}

read_at-ok :
    {A : Type 0} (rows : List (List A)) (i : ℕ)
    → i < length rows
    → read_at rows i ≡ ok (row_of rows i)
read_at-ok [] i h = elim h [ ]
read_at-ok (r ∷ rows) zero h = refl
read_at-ok (r ∷ rows) (suc i) h = read_at-ok rows i (omega arith)

reverse_row-ok :
    (i : ℕ) (es : List (ℕ × StepLabel)) (rev : List (List ℕ))
    → ((t : ℕ) (l : StepLabel) → In (t, l) es → t < length rev)
    → reverse_row i es rev ≡ ok (turned_row i es rev)
reverse_row-ok i [] rev h = refl
reverse_row-ok i ((target, label) ∷ es) rev h =
    rw (modify_at-ok rev target (λ ps. ps ++ i ∷ []) (h target label (inl refl))) (
      reverse_row-ok i es (modify rev target (λ ps. ps ++ i ∷ [])) (λ t l m.
        subst (λ n. t < n) (sym (length-modify rev target (λ ps. ps ++ i ∷ []))) (h t l (inr m))))

reverse_edges-ok :
    (k : ℕ) (rows : List (List (ℕ × StepLabel))) (rev : List (List ℕ))
    → ((i t : ℕ) (l : StepLabel) (row : List (ℕ × StepLabel))
        → get_elem? rows i ≡ some row
        → In (t, l) row
        → t < length rev)
    → reverse_edges k rows rev ≡ ok (turned_edges k rows rev)
reverse_edges-ok k [] rev h = refl
reverse_edges-ok k (row ∷ rows) rev h =
    rw (reverse_row-ok k row rev (λ t l m. h 0 t l row refl m)) (
      reverse_edges-ok (suc k) rows (turned_row k row rev) (λ i t l r e m.
        subst (λ n. t < n) (sym (length-turned_row k row rev)) (h (suc i) t l r e m)))

length-turned_edges :
    (k : ℕ) (rows : List (List (ℕ × StepLabel))) (rev : List (List ℕ))
    → length (turned_edges k rows rev) ≡ length rev
length-turned_edges k [] rev = refl
length-turned_edges k (row ∷ rows) rev =
    length-turned_edges (suc k) rows (turned_row k row rev) ∙ length-turned_row k row rev

reverse_loop-ok :
    (n : ℕ) (rev : List (List ℕ))
    → length rev ≡ n
    → ((t p : ℕ) → In p (row_of rev t) → p < n)
    → (f : ℕ) (seen stack : List ℕ) → ((p : ℕ) → In p seen → p < n)
    → ((p : ℕ) → In p stack → p < n)
    → reverse_loop f rev seen stack ≡ ok (collect_loop f rev seen stack)
unfolding reverse_loop collect_loop
reverse_loop-ok n rev e inside zero seen stack hs ht = refl
reverse_loop-ok n rev e inside (suc f) seen [] hs ht = refl
reverse_loop-ok n rev e inside (suc f) seen (i ∷ stack) hs ht =
    let (a, b) =
      unseen_sound {P = λ p. p < n} rev (λ t p _. inside t p) (row_of rev i) seen stack (inside i)
        hs (λ p m. ht p (inr m)) in
    rw (read_at-ok rev i (subst (λ k. i < k) (sym e) (ht i (inl refl)))) (
      reverse_loop-ok n rev e inside f (push_unseen (row_of rev i) seen stack).0
        (push_unseen (row_of rev i) seen stack).1 a b)

pub reverse_reachable-ok :
    {S : Type 0} (g : Graph S) (roots : List ℕ)
    → ((i : ℕ) → In i roots → i < length g.states)
    → length g.edges ≤ length g.states
    → ((i t : ℕ) (l : StepLabel) (row : List (ℕ × StepLabel))
        → get_elem? g.edges i ≡ some row
        → In (t, l) row
        → t < length g.states)
    → reverse_reachable g roots ≡ ok (collected g roots)
unfolding reverse_reachable collected
reverse_reachable-ok g roots known few targets =
    rw
      (reverse_edges-ok 0 g.edges (empty_rows g.states) (λ i t l row e m.
        subst (λ n. t < n) (sym (length-empty_rows g.states)) (targets i t l row e m)))
      (reverse_loop-ok (length g.states) (turned_edges 0 g.edges (empty_rows g.states))
        (length-turned_edges 0 g.edges (empty_rows g.states) ∙ length-empty_rows g.states) inside
        (suc (length g.states)) roots (reverse roots) known
        (λ p m. known p (In-reverse_acc roots p m)))
  where
    inside :
        (t q : ℕ)
        → In q (row_of (turned_edges 0 g.edges (empty_rows g.states)) t)
        → q < length g.states
    inside t q m = elim (edges_sound 0 g.edges (empty_rows g.states) t q m) [
      | inl n ↦ absurd (empty_rows_nothing g.states t q n)
      | inr (i, row, l, a, b, c) ↦ omega (arith, a, few, get_elem?-lt g.edges i row b)
    ]
