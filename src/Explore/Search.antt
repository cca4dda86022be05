-- ===== src/Explore/Search.antt =====
-- The breadth-first search of src/explore/mod.rs, shared by `explore` and `verify`.
use conc_ir.Prelude.{
  ℕ, zero, suc, ◌+◌, Bool, true, false, not, ◌&&◌, Option, none, some, List, [], ◌∷◌, ◌++◌, length,
  is_empty, get_elem?, leb, ltb, if◌then◌else◌,
}
use conc_ir.Prelude.Text.{Str}
use conc_ir.Prelude.Map.{Map, get, insert, nat_key, list_key}
use conc_ir.Sem.Outcome.{
  Unsupported, Invalid, BackendError, Result, ok, err, panic, ◌>>=◌, modify_at, set_at,
  AnalysisBounds, BoundaryEvent, state_limit, depth_limit, StepLabel,
}
use conc_ir.Sem.System.{Step, Enabled, TransitionSystem}

-- `Graph`: parallel vectors, one entry for each state found.
pub record Graph (S : Type 0) : Type 0 where
  pub states : List S
  pub index : Map Str ℕ
  pub edges : List (List (ℕ × StepLabel))
  pub pred : List (Option (ℕ × StepLabel))
  pub had_boundary : List Bool
  pub depth : List ℕ
  pub processed : List Bool

-- The local variables of the search loop.
pub record Search (S : Type 0) : Type 0 where
  pub graph : Graph S
  pub queue : List ℕ
  pub unsupported : List Unsupported
  pub invalid : List Invalid
  pub boundary_events : List BoundaryEvent
  pub truncated : Bool
  pub transitions_explored : ℕ

-- What one turn of the loop ends in: the next turn, `break`, or a panic of indexing.
pub data Turn (S : Type 0) : Type 0 where
  continue stop : Search S → Turn S
  crash : Turn S

-- How the loop ends.
pub data Exit (A : Type 0) : Type 0 where
  finished : A → Exit A
  crashed no_fuel : Exit A

abbrev pub limit_event : BoundaryEvent → List BoundaryEvent → List BoundaryEvent
limit_event e events = events ++ e ∷ []

-- Each turn pops another index below `max_states`, or stops the loop.
abbrev pub enough : AnalysisBounds → ℕ
enough bounds = bounds.max_states + 1

module _ {S : Type 0} where
  -- Goes on where nothing panicked.
  abbrev pub or_crash : {A : Type 0} → Result A → (A → Turn S) → Turn S
  or_crash (ok a) rest = rest a
  or_crash (err e) rest = crash
  or_crash panic rest = crash

  -- `graph.edges[idx].push((target, label))`
  unfoldable pub push_edge : Graph S → ℕ → ℕ → StepLabel → Result (Graph S)
  push_edge g idx target label = do
    edges ← modify_at g.edges idx (λ row. row ++ (target, label) ∷ [])
    ok (record g { edges = edges })

  -- A successor that is new: its index is the number of states so far.
  unfoldable pub push_state : Graph S → Str → S → ℕ → StepLabel → ℕ → Result (Graph S)
  push_state g key succ idx label depth = do
    edges ← modify_at (g.edges ++ [] ∷ []) idx (λ row. row ++ (length g.states, label) ∷ [])
    ok (record g {
      states = g.states ++ succ ∷ [];
      index = insert key (length g.states) g.index;
      edges = edges;
      pred = g.pred ++ some (idx, label) ∷ [];
      had_boundary = g.had_boundary ++ false ∷ [];
      depth = g.depth ++ (depth + 1) ∷ [];
      processed = g.processed ++ false ∷ [];
    })

  abbrev pub add_successor : Option ℕ → Str → ℕ → ℕ → Step S → Search S → Result (Search S)
  add_successor (some target) key idx depth step st = do
    graph ← push_edge st.graph idx target step.label
    ok (record st { graph = graph; transitions_explored = st.transitions_explored + 1 })
  add_successor none key idx depth step st = do
    graph ← push_state st.graph key step.state idx step.label depth
    ok (record st {
      graph = graph;
      queue = st.queue ++ length st.graph.states ∷ [];
      transitions_explored = st.transitions_explored + 1;
    })

  -- The body of the loop over the enabled steps of the state `idx`.
  unfoldable pub visit_step : TransitionSystem S → ℕ → ℕ → Step S → Search S → Result (Search S)
  unfolding push_edge push_state
  visit_step sys idx depth step st =
      let key = sys.state_key step.state in
      add_successor (get key st.graph.index) key idx depth step st

  unfoldable pub visit : TransitionSystem S → ℕ → ℕ → List (Step S) → Search S → Result (Search S)
  unfolding visit_step
  visit sys idx depth [] st = ok st
  visit sys idx depth (step ∷ steps) st = do
    next ← visit_step sys idx depth step st
    visit sys idx depth steps next

  -- `graph.had_boundary[idx] = true`
  unfoldable pub mark_boundary : Graph S → ℕ → Result (Graph S)
  mark_boundary g idx = do
    flags ← set_at g.had_boundary idx true
    ok (record g { had_boundary = flags })

  -- `graph.processed[idx] = true`
  unfoldable pub mark_processed : Graph S → ℕ → Result (Graph S)
  mark_processed g idx = do flags ← set_at g.processed idx true; ok (record g { processed = flags })

  unfoldable pub add_boundary : ℕ → List BoundaryEvent → Search S → Result (Search S)
  unfolding mark_boundary
  add_boundary idx [] st = ok st
  add_boundary idx (b ∷ bs) st = do
    graph ← mark_boundary st.graph idx
    ok (record st { graph = graph; boundary_events = st.boundary_events ++ b ∷ bs })

  -- `if boundary_events.len() > bounds.max_boundary_events { truncated = true; break; }`
  unfoldable pub check_events : AnalysisBounds → Search S → Turn S
  check_events bounds st =
      if ltb bounds.max_boundary_events (length st.boundary_events)
      then stop (record st { truncated = true })
      else continue st

  -- The three results of `successors`.
  unfoldable pub expand :
      TransitionSystem S → AnalysisBounds → ℕ → ℕ → Result (Enabled S) → Search S → Turn S
  unfolding check_events visit add_boundary mark_boundary
  expand sys bounds idx depth (ok e) st =
      or_crash (add_boundary idx e.boundary st >>= λ next. visit sys idx depth e.steps next)
        (check_events bounds)
  expand sys bounds idx depth (err (BackendError.unsupported u)) st =
      or_crash (mark_boundary st.graph idx) (λ graph.
        check_events bounds (record st { graph = graph; unsupported = st.unsupported ++ u ∷ [] }))
  expand sys bounds idx depth (err (BackendError.invalid i)) st =
      or_crash (mark_boundary st.graph idx)
        (λ graph. check_events bounds (record st { graph = graph; invalid = st.invalid ++ i ∷ [] }))
  expand sys bounds idx depth panic st = crash

  abbrev pub with_state : TransitionSystem S → AnalysisBounds → ℕ → ℕ → Option S → Search S → Turn S
  with_state sys bounds idx depth none st = crash
  with_state sys bounds idx depth (some s) st = expand sys bounds idx depth (sys.successors s) st

  -- The depth limit, with the graph of a processed `idx`. `verify` continues there; `explore` may
  -- stop there on the number of boundary events, which ends the loop sooner.
  unfoldable pub at_depth : TransitionSystem S → AnalysisBounds → ℕ → Option ℕ → Search S → Turn S
  unfolding expand mark_boundary
  at_depth sys bounds idx none st = crash
  at_depth sys bounds idx (some depth) st =
      if leb bounds.max_depth depth
      then or_crash (mark_boundary st.graph idx) (λ graph. continue (record st {
        graph = graph;
        boundary_events = limit_event (record { kind = depth_limit }) st.boundary_events;
        truncated = true;
      }))
      else with_state sys bounds idx depth (get_elem? st.graph.states idx) st

  -- One turn of the loop, for the index that was popped off the queue.
  unfoldable pub turn : TransitionSystem S → AnalysisBounds → ℕ → Search S → Turn S
  unfolding at_depth mark_processed
  turn sys bounds idx st =
      if leb bounds.max_states (length st.graph.states)
      then stop (record st {
        truncated = true;
        boundary_events = limit_event (record { kind = state_limit }) st.boundary_events;
      })
      else or_crash (mark_processed st.graph idx) (λ graph.
        at_depth sys bounds idx (get_elem? st.graph.depth idx) (record st { graph = graph }))

  abbrev pub after_turn : (Search S → Exit (Search S)) → Turn S → Exit (Search S)
  after_turn rest (continue st) = rest st
  after_turn rest (stop st) = finished st
  after_turn rest crash = crashed

  -- `while let Some(idx) = queue.pop_front()`, on fuel.
  unfoldable pub search_loop :
      ℕ → TransitionSystem S → AnalysisBounds → List ℕ → Search S → Exit (Search S)
  search_loop zero sys bounds queue st = no_fuel
  search_loop (suc f) sys bounds [] st = finished st
  search_loop (suc f) sys bounds (idx ∷ queue) st =
      after_turn (λ next. search_loop f sys bounds next.queue next)
        (turn sys bounds idx (record st { queue = queue }))

  -- The state before the loop: the initial state alone, and its index in the queue.
  unfoldable pub start : TransitionSystem S → S → Search S
  start sys init = record {
    graph = record {
      states = init ∷ [];
      index = insert (sys.state_key init) 0 [];
      edges = [] ∷ [];
      pred = none ∷ [];
      had_boundary = false ∷ [];
      depth = 0 ∷ [];
      processed = false ∷ [];
    };
    queue = 0 ∷ [];
    unsupported = [];
    invalid = [];
    boundary_events = [];
    truncated = false;
    transitions_explored = 0;
  }

  unfoldable pub explore : TransitionSystem S → AnalysisBounds → S → Exit (Search S)
  unfolding search_loop start
  explore sys bounds init = search_loop (enough bounds) sys bounds (0 ∷ []) (start sys init)

  -- `complete` of `verify`.
  unfoldable pub complete : Search S → Bool
  complete st =
      not st.truncated
      && (is_empty st.boundary_events && (is_empty st.unsupported && is_empty st.invalid))
