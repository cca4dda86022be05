-- ===== src/Explore/Invariant/Turn.antt =====
-- Every turn of the search loop keeps the invariant.
use conc_ir.Prelude.{
  ℕ, suc, ◌<◌, ◌≡◌, ◌≢◌, refl, ap, ◌∙◌, inl, inr, Bool, true, false, not, ◌&&◌, some, List, [], ◌∷◌,
  ◌++◌, length, is_empty, get_elem?, set, In, arith, leb, get_elem?-set_self, get_elem?-total,
  Bool-cases, leb→lt,
}
use conc_ir.Sem.Outcome.{
  Result, ok, err, panic, set_at, BackendError, AnalysisBounds, BoundaryEvent, state_limit,
  depth_limit,
}
use conc_ir.Sem.Results.{set_at-ok}
use conc_ir.Sem.System.{Step, Enabled, TransitionSystem}
use conc_ir.Explore.Search.{
  Search, complete, or_crash, visit, mark_boundary, mark_processed, add_boundary, check_events,
  expand, at_depth, turn, limit_event,
}
use conc_ir.Explore.Reach.{Reach, later}
use conc_ir.Explore.Invariant.{expanded, spoiled, Core, Visiting}
use conc_ir.Explore.Invariant.Visit.{visit-Visiting}
use conc_ir.Explore.Invariant.Flags.{
  IsTotal, Good, more_events, settle, reflag, check_events-Good, Popped, graph', marked_boundary,
  marked_plain, marked-spoiled, Fresh-p, in_processed, in_boundary,
}

module _ {S : Type 0} (sys : TransitionSystem S) (p : ℕ) where
  -- After the visit of all enabled steps the popped state is settled.
  visited-Core :
      (e : Enabled S) (s : S) (mark : Bool) (st : Search S)
      → sys.successors s ≡ ok e
      → Visiting sys p s mark e.steps st
      → Core sys (suc p) (suc p) st
  visited-Core e s true st a v = settle sys p st v.core (λ t h. spoiled v.boundary (v.dirty refl))
  visited-Core e s false st a v = settle sys p st v.core (λ t h.
      expanded e v.row (ap sys.successors (cc (h, v.state)) ∙ a) v.row_eq v.matches v.boundary
        v.processed)

  module _ (bounds : AnalysisBounds) (st : Search S) (pop : Popped sys p st) where
    abbrev st' : Search S
    st' = record st { graph = graph' sys p bounds st pop }

    start_visit : (s : S) → get_elem? st.graph.states p ≡ some s → Visiting sys p s false [] st'
    start_visit s at = record {
      core = marked_plain sys p bounds st pop;
      queue = pop.queue;
      state = at;
      row = [];
      row_eq = (Fresh-p sys p bounds st pop).edges;
      matches = tt;
      boundary = (Fresh-p sys p bounds st pop).had_boundary;
      dirty = λ h. cc;
      processed = get_elem?-set_self st.graph.processed p true (in_processed sys p bounds st pop);
      bounded = pop.bounded;
    }

    -- After `had_boundary[idx] = true`, with the events of the state.
    abbrev dirty_state : List BoundaryEvent → Search S
    dirty_state bs = record st' {
      graph = record st'.graph { had_boundary = set st.graph.had_boundary p true };
      boundary_events = st.boundary_events ++ bs;
    }

    boundary_set : set_at st.graph.had_boundary p true ≡ ok (set st.graph.had_boundary p true)
    boundary_set = set_at-ok st.graph.had_boundary p true (in_boundary sys p bounds st pop)

    add_boundary-ok :
        (b : BoundaryEvent) (bs : List BoundaryEvent)
        → add_boundary p (b ∷ bs) st' ≡ ok (dirty_state (b ∷ bs))
    unfolding add_boundary mark_boundary
    add_boundary-ok b bs = rw boundary_set refl

    start_dirty :
        (s : S) (b : BoundaryEvent) (bs : List BoundaryEvent)
        → get_elem? st.graph.states p ≡ some s
        → Visiting sys p s true [] (dirty_state (b ∷ bs))
    unfolding complete
    start_dirty s b bs at =
        let h = more_events st.boundary_events b bs in
        record {
          core =
              marked_boundary sys p bounds st pop st.unsupported st.invalid
                (st.boundary_events ++ b ∷ bs) st.truncated (incomplete h);
          queue = pop.queue;
          state = at;
          row = [];
          row_eq = (Fresh-p sys p bounds st pop).edges;
          matches = tt;
          boundary =
              get_elem?-set_self st.graph.had_boundary p true (in_boundary sys p bounds st pop);
          dirty = λ g. incomplete h;
          processed =
              get_elem?-set_self st.graph.processed p true (in_processed sys p bounds st pop);
          bounded = pop.bounded;
        }
      where
        incomplete :
            is_empty (st.boundary_events ++ b ∷ bs) ≡ false
            → (not st.truncated
                && (is_empty (st.boundary_events ++ b ∷ bs)
                    && (is_empty st.unsupported && is_empty st.invalid)))
              ≡ false
        incomplete h = ground arith

    step_Reach :
        (s : S) (e : Enabled S)
        → get_elem? st.graph.states p ≡ some s
        → sys.successors s ≡ ok e
        → (x : Step S) → In x e.steps
        → Reach sys x.state
    step_Reach s e h a x m =
        later (pop.core.reach p s h)
          (record { enabled = e; taken = x; allowed = a; chosen = m; reached = refl })

    visited-Good :
        (e : Enabled S) (s : S) (mark : Bool) (first : Search S) (depth : ℕ)
        → sys.successors s ≡ ok e
        → ((x : Step S) → In x e.steps → Reach sys x.state)
        → p < bounds.max_states
        → Visiting sys p s mark [] first
        → Good sys bounds p (or_crash (visit sys p depth e.steps first) (check_events bounds))
    visited-Good e s mark first depth a r lt v =
        let (last, b, w) = visit-Visiting sys p depth s mark [] e.steps first r v in
        rw b (check_events-Good sys p bounds last (visited-Core e s mark last a w) w.queue lt)

    incomplete_last : (a b c : Bool) → (a && (b && (c && false))) ≡ false
    incomplete_last a b c = ground arith

    incomplete_third : (a b d : Bool) → (a && (b && (false && d))) ≡ false
    incomplete_third a b d = ground arith

    expand_boundary-Good :
        (depth : ℕ) (s : S) (steps : List (Step S)) (bs : List BoundaryEvent)
        → get_elem? st.graph.states p ≡ some s
        → p < bounds.max_states
        → sys.successors s ≡ ok (record { steps = steps; boundary = bs })
        → Good sys bounds p
            (expand sys bounds p depth (ok (record { steps = steps; boundary = bs })) st')
    unfolding expand add_boundary
    expand_boundary-Good depth s steps [] h lt a =
        visited-Good (record { steps = steps; boundary = [] }) s false st' depth a
          (step_Reach s (record { steps = steps; boundary = [] }) h a) lt (start_visit s h)
    expand_boundary-Good depth s steps (b ∷ bs) h lt a = rw boundary_set (
        visited-Good (record { steps = steps; boundary = b ∷ bs }) s true (dirty_state (b ∷ bs))
          depth a (step_Reach s (record { steps = steps; boundary = b ∷ bs }) h a) lt
          (start_dirty s b bs h))

    expand-Good :
        (depth : ℕ) (s : S) (r : Result (Enabled S))
        → get_elem? st.graph.states p ≡ some s
        → p < bounds.max_states
        → r ≢ panic
        → sys.successors s ≡ r
        → Good sys bounds p (expand sys bounds p depth r st')
    unfolding expand mark_boundary complete
    expand-Good depth s (ok e) h lt total a = expand_boundary-Good depth s e.steps e.boundary h lt a
    expand-Good depth s (err (BackendError.unsupported u)) h lt total a = rw boundary_set (
        check_events-Good sys p bounds _
          (marked-spoiled sys p bounds st pop (st.unsupported ++ u ∷ []) st.invalid
            st.boundary_events st.truncated
            (rw (more_events st.unsupported u []) (
              incomplete_third (not st.truncated) (is_empty st.boundary_events)
                (is_empty st.invalid))))
          pop.queue lt)
    expand-Good depth s (err (BackendError.invalid i)) h lt total a = rw boundary_set (
        check_events-Good sys p bounds _
          (marked-spoiled sys p bounds st pop st.unsupported (st.invalid ++ i ∷ [])
            st.boundary_events st.truncated
            (rw (more_events st.invalid i []) (
              incomplete_last (not st.truncated) (is_empty st.boundary_events)
                (is_empty st.unsupported))))
          pop.queue lt)
    expand-Good depth s panic h lt total a = absurd (total refl)

    at_depth-Good :
        IsTotal sys
        → (depth : ℕ) (s : S) → get_elem? st.graph.states p ≡ some s
        → p < bounds.max_states
        → Good sys bounds p (at_depth sys bounds p (some depth) st')
    unfolding at_depth mark_boundary complete
    at_depth-Good total depth s h lt = elim (Bool-cases (leb bounds.max_depth depth)) [
      | inl deep ↦
          rw (deep, boundary_set)
            (
              record {
                core =
                    marked-spoiled sys p bounds st pop st.unsupported st.invalid
                      (limit_event (record { kind = depth_limit }) st.boundary_events) true refl;
                queue = pop.queue;
              },
              lt,
            )
      | inr shallow ↦
          rw (shallow, h)
            (expand-Good depth s (sys.successors s) h lt (total s (pop.core.reach p s h)) refl)
    ]

    -- A turn keeps the invariant, or ends the loop with what is known; it does not panic.
    pub turn-Good : IsTotal sys → Good sys bounds p (turn sys bounds p st)
    unfolding turn mark_processed complete
    turn-Good total = elim (Bool-cases (leb bounds.max_states (length st.graph.states))) [
      | inl full ↦ rw full (record {
        popped = p;
        core =
            reflag sys p p st st.unsupported st.invalid
              (limit_event (record { kind = state_limit }) st.boundary_events) true (λ c. refl)
              pop.core;
        all_popped = λ c. cc;
      })
      | inr room ↦
          let (s, h) = get_elem?-total st.graph.states p pop.bounded in
          let (d, g) = get_elem?-total st.graph.depth p in_depth in
          rw (room, processed_set, g)
            (at_depth-Good total d s h (below (leb→lt bounds.max_states _ room)))
    ]
      where
        processed_set : set_at st.graph.processed p true ≡ ok (set st.graph.processed p true)
        processed_set = set_at-ok st.graph.processed p true (in_processed sys p bounds st pop)

        in_depth : p < length st.graph.depth
        in_depth = let e = pop.core.shape.depth in omega (arith, pop.bounded)

        below : length st.graph.states < bounds.max_states → p < bounds.max_states
        below h = omega (arith, pop.bounded)
