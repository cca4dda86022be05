-- ===== src/Explore/Invariant/Visit.antt =====
-- The visit of the successors of the state that is being expanded: no index is out of range, and the
-- invariant is kept.
use conc_ir.Prelude.{
  ℕ, ◌<◌, ◌≡◌, refl, inl, inr, Bool, Option, none, some, List, [], ◌∷◌, ◌++◌, length, In, arith,
  length-snoc,
}
use mathlib.Core.List.{append_assoc, append-nil}
use conc_ir.Prelude.Map.{get, list_key, nat_key}
use conc_ir.Sem.Outcome.{ok}
use conc_ir.Sem.Results.{modify_at-ok}
use conc_ir.Sem.System.{Step, TransitionSystem}
use conc_ir.Explore.Search.{Search, push_edge, push_state, add_successor, visit_step, visit}
use conc_ir.Explore.Reach.{Reach}
use conc_ir.Explore.Invariant.{Visiting}
use conc_ir.Explore.Invariant.Grow.{grown, row_with, visit_found, visit_new}

module _ {S : Type 0} (sys : TransitionSystem S) (p depth : ℕ) (s : S) (mark : Bool)
    (done : List (Step S)) (x : Step S) (st : Search S) (v : Visiting sys p s mark done st) where
  in_edges : p < length st.graph.edges
  in_edges = omega (arith, v.bounded, v.core.shape.edges)

  in_more : p < length (st.graph.edges ++ [] ∷ [])
  in_more = omega (arith, in_edges, length-snoc st.graph.edges [])

  add_successor-ok :
      (o : Option ℕ)
      → add_successor o (sys.state_key x.state) p depth x st
        ≡ ok (grown o (sys.state_key x.state) p depth x st)
  unfolding push_edge push_state
  add_successor-ok (some t) =
      rw (modify_at-ok st.graph.edges p (row_with sys p depth s mark done x st v t) in_edges) refl
  add_successor-ok none =
      rw
        (modify_at-ok (st.graph.edges ++ [] ∷ []) p
          (row_with sys p depth s mark done x st v (length st.graph.states)) in_more)
        refl

  visit_step-Visiting :
      Reach sys x.state
      → (st' : Search S) × (visit_step sys p depth x st ≡ ok st')
        × Visiting sys p s mark (done ++ x ∷ []) st'
  unfolding visit_step
  visit_step-Visiting r = split (get (sys.state_key x.state) st.graph.index) refl
    where
      split :
          (o : Option ℕ)
          → get (sys.state_key x.state) st.graph.index ≡ o
          → (st' : Search S) × (add_successor o (sys.state_key x.state) p depth x st ≡ ok st')
            × Visiting sys p s mark (done ++ x ∷ []) st'
      split (some t) e = (
        grown (some t) (sys.state_key x.state) p depth x st,
        add_successor-ok (some t),
        visit_found sys p depth s mark done x st v t e,
      )
      split none e = (
        grown none (sys.state_key x.state) p depth x st,
        add_successor-ok none,
        visit_new sys p depth s mark done x st v e r,
      )

-- All successors of the state that is being expanded; no index is out of range.
pub visit-Visiting :
    {S : Type 0} (sys : TransitionSystem S) (p depth : ℕ) (s : S) (mark : Bool)
    (done steps : List (Step S)) (st : Search S)
    → ((x : Step S) → In x steps → Reach sys x.state)
    → Visiting sys p s mark done st
    → (st' : Search S) × (visit sys p depth steps st ≡ ok st')
      × Visiting sys p s mark (done ++ steps) st'
unfolding visit
visit-Visiting sys p depth s mark done [] st r v = (st, refl, rw (append-nil done) v)
visit-Visiting sys p depth s mark done (x ∷ steps) st r v =
    let (next, a, w) = visit_step-Visiting sys p depth s mark done x st v (r x (inl refl)) in
    let (last, b, u) =
      visit-Visiting sys p depth s mark (done ++ x ∷ []) steps next (λ y h. r y (inr h)) w in
    (last, rw a b, rw (← append_assoc done (x ∷ []) steps) u)
