-- ===== src/Explore/Backward/Complete.antt =====
-- The backward search of `collected` ends with every state that has a path of edges to a
-- root: its fuel, one more than the number of states, is enough.
use mathlib.Core.List.{reverse}
use conc_ir.Prelude.{
  ℕ, zero, suc, ◌+◌, ◌<◌, ◌≤◌, ◌≡◌, sym, subst, ◌⊎◌, inl, inr, List, [], ◌∷◌, some, length,
  get_elem?, In, arith, get_elem?-lt,
}
use conc_ir.Sem.Outcome.{ok, StepLabel}
use conc_ir.Explore.Search.{Graph}
use conc_ir.Explore.Check.{empty_rows, push_unseen, reverse_reachable}
use conc_ir.Explore.Judgement.{row_of, collected, collect_loop, turned_edges}
use conc_ir.Explore.Backward.{ToRoot, root, edge, edges_sound, empty_rows_nothing}
use conc_ir.Explore.Backward.Ranges.{reverse_reachable-ok}
use conc_ir.Explore.Backward.Pushes.{Distinct, pigeonhole, Pushed, push_unseen-Pushed}
use conc_ir.Explore.Backward.Reversed.{
  In-reverse, length-reverse, edges_complete, length-empty_rows,
}

-- The state of the backward search: what was seen is waiting or has its predecessors seen.
record Searching (n f : ℕ) (rev : List (List ℕ)) (seen stack : List ℕ) : Type 0 where
  distinct : Distinct seen
  below : (p : ℕ) → In p seen → p < n
  fuel : f + length seen ≡ suc n + length stack
  closed : (t : ℕ) → In t seen → In t stack ⊎ ((p : ℕ) → In p (row_of rev t) → In p seen)

module _ (n : ℕ) (rev : List (List ℕ)) (inside : (t p : ℕ) → In p (row_of rev t) → p < n) where
  visit_keeps :
      (f i : ℕ) (seen stack : List ℕ) (r : List ℕ × List ℕ)
      → Searching n (suc f) rev seen (i ∷ stack)
      → Pushed (row_of rev i) seen stack r
      → Searching n f rev r.0 r.1
  visit_keeps f i seen stack r s m = record {
    distinct = m.distinct s.distinct;
    below = λ p h. elim (m.origin p h) [ inl j ↦ s.below p j | inr (j, w) ↦ inside i p j ];
    fuel = omega (arith, s.fuel, m.balance);
    closed = λ t h. elim (m.origin t h) [ inl j ↦ old t (s.closed t j) | inr (j, w) ↦ inl w ];
  }
    where
      old :
          (t : ℕ)
          → In t (i ∷ stack) ⊎ ((p : ℕ) → In p (row_of rev t) → In p seen)
          → In t r.1 ⊎ ((p : ℕ) → In p (row_of rev t) → In p r.0)
      old t (inl (inl e)) = inr (subst (λ z. (p : ℕ) → In p (row_of rev z) → In p r.0) e m.all)
      old t (inl (inr w)) = inl (m.waiting t w)
      old t (inr c) = inr (λ p h. m.kept p (c p h))

  abbrev Closed : List ℕ → List ℕ → Type 0
  Closed seen res =
      ((p : ℕ) → In p seen → In p res)
      × ((t : ℕ) → In t res → (p : ℕ) → In p (row_of rev t) → In p res)

  collect_loop-Closed :
      (f : ℕ) (seen stack : List ℕ)
      → Searching n f rev seen stack
      → Closed seen (collect_loop f rev seen stack)
  unfolding collect_loop
  collect_loop-Closed zero seen stack s =
      absurd (too_many (pigeonhole n seen s.distinct s.below) s.fuel)
    where
      too_many : length seen ≤ n → zero + length seen ≡ suc n + length stack → ⊥
      too_many a b = omega arith
  collect_loop-Closed (suc f) seen [] s =
      (λ p m. m, λ t m. elim (s.closed t m) [ inl w ↦ absurd w | inr c ↦ c ])
  collect_loop-Closed (suc f) seen (i ∷ stack) s =
      let m = push_unseen-Pushed (row_of rev i) seen stack in
      let (a, b) =
        collect_loop-Closed f (push_unseen (row_of rev i) seen stack).0
          (push_unseen (row_of rev i) seen stack).1
          (visit_keeps f i seen stack (push_unseen (row_of rev i) seen stack) s m) in
      (λ p h. a p (m.kept p h), b)

abbrev reversed : {S : Type 0} → Graph S → List (List ℕ)
reversed g = turned_edges 0 g.edges (empty_rows g.states)

pub collected_complete :
    {S : Type 0} (g : Graph S) (roots : List ℕ)
    → Distinct roots
    → ((i : ℕ) → In i roots → i < length g.states)
    → length g.edges ≤ length g.states
    → ((i t : ℕ) (l : StepLabel) (row : List (ℕ × StepLabel))
        → get_elem? g.edges i ≡ some row
        → In (t, l) row
        → t < length g.states)
    → (p : ℕ) → ToRoot g.edges roots p
    → In p (collected g roots)
unfolding collected
collected_complete g roots distinct known few targets p path = collected p path
  where
    inside : (t q : ℕ) → In q (row_of (reversed g) t) → q < length g.states
    inside t q m = elim (edges_sound 0 g.edges (empty_rows g.states) t q m) [
      | inl n ↦ absurd (empty_rows_nothing g.states t q n)
      | inr (i, row, l, a, b, c) ↦ omega (arith, a, few, get_elem?-lt g.edges i row b)
    ]

    first_state :
        Searching (length g.states) (suc (length g.states)) (reversed g) roots (reverse roots)
    first_state = record {
      distinct = distinct;
      below = known;
      fuel = omega (arith, length-reverse roots);
      closed = λ t m. inl (In-reverse roots t m);
    }

    result :
        Closed
          (length g.states)
          (reversed g)
          inside
          roots
          (collect_loop (suc (length g.states)) (reversed g) roots (reverse roots))
    result =
        collect_loop-Closed (length g.states) (reversed g) inside (suc (length g.states)) roots
          (reverse roots) first_state

    collected :
        (q : ℕ)
        → ToRoot g.edges roots q
        → In q (collect_loop (suc (length g.states)) (reversed g) roots (reverse roots))
    collected q (root i m) = result.0 i m
    collected q (edge i t l row e m r) = result.1 t (collected t r) i (
        subst (λ z. In z (row_of (reversed g) t)) (omega arith)
          (edges_complete 0 g.edges (empty_rows g.states) i t l row e
            (subst (λ n. t < n) (sym (length-empty_rows g.states)) (targets i t l row e m)) m))

-- Where the roots are different states, there is at most one row of edges for each state, and every
-- edge leads to a state, the backward search does not panic, and it collects every state with a path
-- of edges to a root.
pub reverse_reachable_complete :
    {S : Type 0} (g : Graph S) (roots : List ℕ)
    → Distinct roots
    → ((i : ℕ) → In i roots → i < length g.states)
    → length g.edges ≤ length g.states
    → ((i t : ℕ) (l : StepLabel) (row : List (ℕ × StepLabel))
        → get_elem? g.edges i ≡ some row
        → In (t, l) row
        → t < length g.states)
    → (can_reach : List ℕ) × (reverse_reachable g roots ≡ ok can_reach)
      × ((p : ℕ) → ToRoot g.edges roots p → In p can_reach)
reverse_reachable_complete g roots distinct known few targets = (
  collected g roots,
  reverse_reachable-ok g roots known few targets,
  collected_complete g roots distinct known few targets,
)
