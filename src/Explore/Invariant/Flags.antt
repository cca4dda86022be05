-- ===== src/Explore/Invariant/Flags.antt =====
-- The flags of the popped state and the results of the search: how they change within a turn.
use conc_ir.Prelude.{
  ℕ, suc, ◌<◌, ◌≡◌, ◌≢◌, refl, sym, ap, ◌∙◌, subst, ◌⊎◌, inl, inr, Bool, true, false, some, List,
  [], ◌∷◌, ◌++◌, length, is_empty, get_elem?, set, arith, ltb, length-set, get_elem?-set_self,
  get_elem?-set_ne, Bool-cases,
}
use conc_ir.Prelude.Map.{list_key, nat_key}
use conc_ir.Sem.Outcome.{panic, AnalysisBounds, BoundaryEvent, StepLabel, Unsupported, Invalid}
use conc_ir.Sem.System.{TransitionSystem}
use conc_ir.Explore.Search.{Graph, Search, Turn, continue, stop, crash, complete, check_events}
use conc_ir.Explore.Reach.{Reach}
use conc_ir.Explore.Invariant.{Upto, Fresh, Settled, spoiled, Core, Settled-mono}

-- The systems whose `successors` does not panic on reachable states.
abbrev pub IsTotal : {S : Type 0} → TransitionSystem S → Type 0
IsTotal {S} sys = (s : S) → Reach sys s → sys.successors s ≢ panic

-- Between two turns `p` states have been popped, and the queue holds the others.
pub record Inv {S : Type 0} (sys : TransitionSystem S) (p : ℕ) (st : Search S) : Type 0 where
  pub core : Core sys p p st
  pub queue : Upto p (length st.graph.states) st.queue

-- The end of the loop: all states were popped, or the search is not complete.
pub record Final {S : Type 0} (sys : TransitionSystem S) (st : Search S) : Type 0 where
  pub popped : ℕ
  pub core : Core sys popped popped st
  pub all_popped : complete st ≡ true → popped ≡ length st.graph.states

-- What a turn on the index `p` leaves.
abbrev pub Good : {S : Type 0} → TransitionSystem S → AnalysisBounds → ℕ → Turn S → Type 0
Good sys bounds p (continue st) = Inv sys (suc p) st × (p < bounds.max_states)
Good sys bounds p (stop st) = Final sys st
Good sys bounds p crash = ⊥

pub more_events : {A : Type 0} (xs : List A) (y : A) (ys : List A) → is_empty (xs ++ y ∷ ys) ≡ false
more_events [] y ys = refl
more_events (x ∷ xs) y ys = refl

module _ {S : Type 0} (sys : TransitionSystem S) (p : ℕ) where
  -- The popped state is settled.
  pub settle :
      (st : Search S)
      → Core sys p (suc p) st
      → ((s : S) → get_elem? st.graph.states p ≡ some s → Settled sys st p s)
      → Core sys (suc p) (suc p) st
  settle st c f = record {
    shape = c.shape;
    reach = c.reach;
    root = c.root;
    indexed = c.indexed;
    sound = c.sound;
    targets = c.targets;
    settled = λ i s lt e. elim (below_or i lt) [
      | inl h ↦ c.settled i s h e
      | inr h ↦
          subst (λ j. Settled sys st j s) (sym h)
            (f s (subst (λ j. get_elem? st.graph.states j ≡ some s) h e))
    ];
    fresh = c.fresh;
  }
    where
      below_or : (i : ℕ) → i < suc p → (i < p) ⊎ (i ≡ p)
      below_or i h = omega arith

  -- The flags of `p` change, and the results of the search grow.
  touch :
      (st st' : Search S)
      → Core sys p (suc p) st
      → st'.graph.states ≡ st.graph.states
      → st'.graph.index ≡ st.graph.index
      → st'.graph.edges ≡ st.graph.edges
      → st'.graph.depth ≡ st.graph.depth
      → length st'.graph.had_boundary ≡ length st.graph.had_boundary
      → length st'.graph.processed ≡ length st.graph.processed
      → ((i : ℕ) → p ≢ i → get_elem? st'.graph.had_boundary i ≡ get_elem? st.graph.had_boundary i)
      → ((i : ℕ) → p ≢ i → get_elem? st'.graph.processed i ≡ get_elem? st.graph.processed i)
      → (complete st ≡ false → complete st' ≡ false)
      → Core sys p (suc p) st'
  touch st st' c hs hi he hd lb lp gb gp hc = record {
    shape = record {
      edges = ap length he ∙ c.shape.edges ∙ ap length (sym hs);
      had_boundary = lb ∙ c.shape.had_boundary ∙ ap length (sym hs);
      depth = ap length hd ∙ c.shape.depth ∙ ap length (sym hs);
      processed = lp ∙ c.shape.processed ∙ ap length (sym hs);
    };
    reach = λ i s e. c.reach i s (rw hs at e);
    root = λ s e. rw hs (c.root s e);
    indexed = λ i s e. rw hi (c.indexed i s (rw hs at e));
    sound = λ k j e. rw hs (c.sound k j (rw hi at e));
    targets = λ i t l row e m. rw hs (c.targets i t l row (rw he at e) m);
    settled = λ i s lt e.
        Settled-mono sys st st' i s (ap (λ (es : List (List (ℕ × StepLabel))). get_elem? es i) he)
          (gb i (omega arith)) (gp i (omega arith)) (λ k j h. rw hi h) hc
          (c.settled i s lt (rw hs at e));
    fresh = λ i le lt.
        let f = c.fresh i le (rw hs at lt) in
        record {
          edges = rw he f.edges;
          had_boundary = gb i (omega arith) ∙ f.had_boundary;
          processed = gp i (omega arith) ∙ f.processed;
        };
  }

  -- Only the results of the search change, and not towards completeness.
  pub reflag :
      (lo : ℕ) (st : Search S) (us : List Unsupported) (is : List Invalid) (ev : List BoundaryEvent)
      (tr : Bool)
      → let st' = record st {
        unsupported = us;
        invalid = is;
        boundary_events = ev;
        truncated = tr;
      } in
        (complete st ≡ false → complete st' ≡ false) → Core sys p lo st → Core sys p lo st'
  reflag lo st us is ev tr h c = record {
    shape = c.shape;
    reach = c.reach;
    root = c.root;
    indexed = c.indexed;
    sound = c.sound;
    targets = c.targets;
    settled =
        λ i s lt e. Settled-mono sys st _ i s refl refl refl (λ k j g. g) h (c.settled i s lt e);
    fresh = c.fresh;
  }

  -- The index `p` has been taken off the queue.
  pub record Popped (st : Search S) : Type 0 where
    pub core : Core sys p p st
    pub queue : Upto (suc p) (length st.graph.states) st.queue
    pub bounded : p < length st.graph.states

  weaken : (st : Search S) → Core sys p p st → Core sys p (suc p) st
  weaken st c = record {
    shape = c.shape;
    reach = c.reach;
    root = c.root;
    indexed = c.indexed;
    sound = c.sound;
    targets = c.targets;
    settled = c.settled;
    fresh = λ i le lt. c.fresh i (omega arith) lt;
  }

  pub check_events-Good :
      (bounds : AnalysisBounds) (st : Search S)
      → Core sys (suc p) (suc p) st
      → Upto (suc p) (length st.graph.states) st.queue
      → p < bounds.max_states
      → Good sys bounds p (check_events bounds st)
  unfolding check_events complete
  check_events-Good bounds st c q lt =
      elim (Bool-cases (ltb bounds.max_boundary_events (length st.boundary_events))) [
        | inl over ↦ rw over (record { popped = suc p; core = flagged; all_popped = λ h. cc })
        | inr under ↦ rw under (record { core = c; queue = q }, lt)
      ]
    where
      flagged : Core sys (suc p) (suc p) (record st { truncated = true })
      flagged = record {
        shape = c.shape;
        reach = c.reach;
        root = c.root;
        indexed = c.indexed;
        sound = c.sound;
        targets = c.targets;
        settled = λ i s lt' e.
            Settled-mono sys st _ i s refl refl refl (λ k j g. g) (λ g. refl) (c.settled i s lt' e);
        fresh = c.fresh;
      }

  module _ (bounds : AnalysisBounds) (st : Search S) (pop : Popped st) where
    abbrev pub graph' : Graph S
    graph' = record st.graph { processed = set st.graph.processed p true }

    -- After `processed[idx] = true`, with other results.
    abbrev pub marked :
        List Bool → List Unsupported → List Invalid → List BoundaryEvent → Bool → Search S
    marked hb us is ev tr = record st {
      graph = record graph' { had_boundary = hb };
      unsupported = us;
      invalid = is;
      boundary_events = ev;
      truncated = tr;
    }

    pub in_processed : p < length st.graph.processed
    in_processed = let e = pop.core.shape.processed in omega (arith, pop.bounded)

    pub in_boundary : p < length st.graph.had_boundary
    in_boundary = let e = pop.core.shape.had_boundary in omega (arith, pop.bounded)

    pub marked_boundary :
        (us : List Unsupported) (is : List Invalid) (ev : List BoundaryEvent) (tr : Bool)
        → complete (marked (set st.graph.had_boundary p true) us is ev tr) ≡ false
        → Core sys p (suc p) (marked (set st.graph.had_boundary p true) us is ev tr)
    marked_boundary us is ev tr h =
        touch st (marked (set st.graph.had_boundary p true) us is ev tr) (weaken st pop.core) refl
          refl refl refl (length-set st.graph.had_boundary p true)
          (length-set st.graph.processed p true)
          (λ i. get_elem?-set_ne st.graph.had_boundary p i true)
          (λ i. get_elem?-set_ne st.graph.processed p i true) (λ g. h)

    pub marked_plain :
        Core sys p
          (suc p)
          (marked st.graph.had_boundary st.unsupported st.invalid st.boundary_events st.truncated)
    unfolding complete
    marked_plain =
        touch st _ (weaken st pop.core) refl refl refl refl refl
          (length-set st.graph.processed p true) (λ i ne. refl)
          (λ i. get_elem?-set_ne st.graph.processed p i true) (λ g. g)

    -- The expansion failed or met a limit.
    pub marked-spoiled :
        (us : List Unsupported) (is : List Invalid) (ev : List BoundaryEvent) (tr : Bool)
        → complete (marked (set st.graph.had_boundary p true) us is ev tr) ≡ false
        → Core sys (suc p) (suc p) (marked (set st.graph.had_boundary p true) us is ev tr)
    marked-spoiled us is ev tr h =
        settle (marked (set st.graph.had_boundary p true) us is ev tr)
          (marked_boundary us is ev tr h)
          (λ s e. spoiled (get_elem?-set_self st.graph.had_boundary p true in_boundary) h)

    pub Fresh-p : Fresh st.graph p
    Fresh-p = pop.core.fresh p (omega arith) pop.bounded
