-- ===== src/Explore/Check.antt =====
-- The verdicts of src/explore/mod.rs on the graph that the search built: `check_property`, the
-- preserved behaviours, and the overall outcome. A panic of an index or of a predicate ends a check.
use mathlib.Core.List.{reverse}
use conc_ir.Prelude.{
  ℕ, zero, suc, ◌==◌, Bool, true, false, not, ◌||◌, Option, none, some, List, [], ◌∷◌, ◌++◌, length,
  is_empty, any, if◌then◌else◌,
}
use conc_ir.Prelude.Text.{Str, ascii}
use conc_ir.Sem.Outcome.{
  Unsupported, Invalid, BackendError, Result, ok, err, panic, ◌>>=◌, read_at, modify_at,
  AnalysisBounds, BoundaryEvent, Outcome, StepLabel,
}
use conc_ir.Sem.System.{TransitionSystem}
use conc_ir.Explore.Search.{Graph, Search, Exit, finished, crashed, no_fuel, complete, explore}
use conc_ir.Explore.Contract.{
  Property, safety, unreachable, deadlock_free, reachability, always_reachable, Preserved,
  reachable, always, PropertySpecResolved, PreservedBehavior, VerificationContract,
}

pub record PropertyResult : Type 0 where
  pub id : Str
  pub outcome : Outcome

pub record VerificationReport : Type 0 where
  pub outcome : Outcome
  pub complete : Bool
  pub states_explored : ℕ
  pub transitions_explored : ℕ
  pub properties : List PropertyResult
  pub boundary_events : List BoundaryEvent
  pub unsupported : List Unsupported
  pub invalid : List Invalid
  pub bounds : AnalysisBounds
  pub analysis_started : Bool

abbrev pub contains : List ℕ → ℕ → Bool
contains xs i = any (λ x. x == i) xs

-- The first state, with its index, that passes a test: `iter().position(…)`.
abbrev pub position_from {ℓ} : {S : Type ℓ} → (ℕ → S → Result Bool) → ℕ → List S → Result (Option ℕ)
position_from test i [] = ok none
position_from test i (s ∷ ss) =
    let rest = position_from test (suc i) ss in
    test i s >>= λ hit. if hit then ok (some i) else rest

abbrev pub indices_from {ℓ} : {S : Type ℓ} → (S → Result Bool) → ℕ → List S → Result (List ℕ)
indices_from test i [] = ok []
indices_from test i (s ∷ ss) = do
  hit ← test s
  rest ← indices_from test (suc i) ss
  ok (if hit then i ∷ rest else rest)

abbrev pub negated : Result Bool → Result Bool
negated r = r >>= λ b. ok (not b)

-- `a && b`, where `b` is not evaluated after a false `a`.
abbrev pub and_then : Result Bool → Result Bool → Result Bool
and_then a b = a >>= λ x. if x then b else ok false

-- Fail where something was found, and otherwise what the search can say.
abbrev pub absent : Bool → Option ℕ → Outcome
absent done (some i) = Outcome.fail
absent done none = if done then Outcome.pass else Outcome.unknown

abbrev pub present : Bool → Option ℕ → Outcome
present done (some i) = Outcome.pass
present done none = if done then Outcome.fail else Outcome.unknown

-- `rev[target].push(i)` for each edge.
abbrev pub reverse_row : ℕ → List (ℕ × StepLabel) → List (List ℕ) → Result (List (List ℕ))
reverse_row i [] rev = ok rev
reverse_row i ((target, label) ∷ es) rev = do
  next ← modify_at rev target (λ ps. ps ++ i ∷ [])
  reverse_row i es next

abbrev pub reverse_edges : ℕ → List (List (ℕ × StepLabel)) → List (List ℕ) → Result (List (List ℕ))
reverse_edges i [] rev = ok rev
reverse_edges i (row ∷ rows) rev = do next ← reverse_row i row rev; reverse_edges (suc i) rows next

abbrev pub empty_rows {ℓ} : {S : Type ℓ} → List S → List (List ℕ)
empty_rows [] = []
empty_rows (s ∷ ss) = [] ∷ empty_rows ss

-- `for &p in &rev[i] { if seen.insert(p) { stack.push(p) } }`; the head of the list is the top.
unfoldable pub push_unseen : List ℕ → List ℕ → List ℕ → List ℕ × List ℕ
push_unseen [] seen stack = (seen, stack)
push_unseen (p ∷ ps) seen stack =
    let known = push_unseen ps seen stack in
    let pushed = push_unseen ps (p ∷ seen) (p ∷ stack) in if contains seen p then known else pushed

unfoldable pub reverse_loop : ℕ → List (List ℕ) → List ℕ → List ℕ → Result (List ℕ)
unfolding push_unseen
reverse_loop zero rev seen stack = ok seen
reverse_loop (suc f) rev seen [] = ok seen
reverse_loop (suc f) rev seen (i ∷ stack) = do
  row ← read_at rev i
  let (seen', stack') = push_unseen row seen stack
  reverse_loop f rev seen' stack'

module _ {S : Type 0} where
  unfoldable pub reverse_reachable : Graph S → List ℕ → Result (List ℕ)
  unfolding reverse_loop
  reverse_reachable g roots = do
    rev ← reverse_edges 0 g.edges (empty_rows g.states)
    reverse_loop (suc (length g.states)) rev roots (reverse roots)

  unfoldable pub is_deadlock : TransitionSystem S → Graph S → ℕ → S → Result Bool
  is_deadlock sys g i s = and_then (read_at g.processed i) (
      and_then (negated (read_at g.had_boundary i))
        (and_then (read_at g.edges i >>= λ row. ok (is_empty row)) (ok (not (sys.is_finished s)))))

  -- A state that passes the test is a violation, or what was looked for.
  abbrev pub absent_where : Graph S → (ℕ → S → Result Bool) → Bool → Result Outcome
  absent_where g test done = position_from test 0 g.states >>= λ found. ok (absent done found)

  abbrev pub present_where : Graph S → (ℕ → S → Result Bool) → Bool → Result Outcome
  present_where g test done = position_from test 0 g.states >>= λ found. ok (present done found)

  abbrev pub always_outcome : TransitionSystem S → Graph S → List ℕ → Bool → Result Outcome
  always_outcome sys g [] done = ok Outcome.fail
  always_outcome sys g (r ∷ roots) done = do
    can_reach ← reverse_reachable g (r ∷ roots)
    absent_where g (λ i s. ok (not (contains can_reach i))) done

  -- The outcome of `check_property`.
  unfoldable pub check_property : TransitionSystem S → Graph S → Property → Bool → Result Outcome
  unfolding is_deadlock reverse_reachable
  check_property sys g (safety invariant) done =
      absent_where g (λ i s. negated (sys.satisfied s invariant)) done
  check_property sys g (unreachable bad) done = absent_where g (λ i s. sys.satisfied s bad) done
  check_property sys g deadlock_free done = absent_where g (is_deadlock sys g) done
  check_property sys g (reachability goal) done = present_where g (λ i s. sys.satisfied s goal) done
  check_property sys g (always_reachable goal) done = do
    roots ← indices_from (λ s. sys.satisfied s goal) 0 g.states
    always_outcome sys g roots done

  unfoldable pub check_preserved : TransitionSystem S → Graph S → Preserved → Bool → Result Outcome
  check_preserved sys g (reachable goal) done = present_where g (λ i s. sys.satisfied s goal) done
  check_preserved sys g (always invariant) done =
      absent_where g (λ i s. negated (sys.satisfied s invariant)) done

  unfoldable pub property_results :
      TransitionSystem S → Graph S → Bool → List PropertySpecResolved → Result (List PropertyResult)
  unfolding check_property
  property_results sys g done [] = ok []
  property_results sys g done (p ∷ ps) = do
    outcome ← check_property sys g p.property done
    rest ← property_results sys g done ps
    ok (record { id = p.id; outcome = outcome } ∷ rest)

  unfoldable pub preserved_results :
      TransitionSystem S → Graph S → Bool → List PreservedBehavior → Result (List PropertyResult)
  unfolding check_preserved
  preserved_results sys g done [] = ok []
  preserved_results sys g done (p ∷ ps) = do
    outcome ← check_preserved sys g p.behavior done
    rest ← preserved_results sys g done ps
    ok (record { id = ascii "preserved: " ++ p.description; outcome = outcome } ∷ rest)

abbrev pub is_fail : PropertyResult → Bool
is_fail r = elim r.outcome [ Outcome.fail ↦ true | _ ↦ false ]

abbrev pub is_unknown : PropertyResult → Bool
is_unknown r = elim r.outcome [ Outcome.unknown ↦ true | _ ↦ false ]

-- The overall outcome, in the order of the program's tests.
unfoldable pub overall : List PropertyResult → Bool → Bool → Bool → Outcome
overall results any_invalid any_unsupported done =
    if any is_fail results
    then Outcome.fail
    else if any_invalid
    then Outcome.invalid
    else if any_unsupported
    then Outcome.unsupported
    else if any is_unknown results || not done
    then Outcome.unknown
    else Outcome.pass

unfoldable pub report_early :
    Outcome → List Unsupported → List Invalid → AnalysisBounds → VerificationReport
report_early outcome us is bounds = record {
  outcome = outcome;
  complete = false;
  states_explored = 0;
  transitions_explored = 0;
  properties = [];
  boundary_events = [];
  unsupported = us;
  invalid = is;
  bounds = bounds;
  analysis_started = false;
}

abbrev pub unless_panic : Result VerificationReport → Exit VerificationReport
unless_panic (ok r) = finished r
unless_panic (err e) = crashed
unless_panic panic = crashed

module _ {S : Type 0} where
  unfoldable pub results_of :
      TransitionSystem S → VerificationContract → Search S → Result (List PropertyResult)
  unfolding property_results preserved_results complete
  results_of sys contract st = do
    props ← property_results sys st.graph (complete st) contract.properties
    kept ← preserved_results sys st.graph (complete st) contract.preserved
    ok (props ++ kept)

  abbrev pub report_with :
      VerificationContract → Search S → List PropertyResult → VerificationReport
  report_with contract st results = record {
    outcome =
        overall results (not (is_empty st.invalid)) (not (is_empty st.unsupported)) (complete st);
    complete = complete st;
    states_explored = length st.graph.states;
    transitions_explored = st.transitions_explored;
    properties = results;
    boundary_events = st.boundary_events;
    unsupported = st.unsupported;
    invalid = st.invalid;
    bounds = contract.bounds;
    analysis_started = true;
  }

  unfoldable pub report_of :
      TransitionSystem S → VerificationContract → Search S → Result VerificationReport
  unfolding results_of overall complete
  report_of sys contract st = do
    results ← results_of sys contract st
    ok (report_with contract st results)

  abbrev pub verify_exit :
      TransitionSystem S → VerificationContract → Exit (Search S) → Exit VerificationReport
  verify_exit sys contract (finished st) = unless_panic (report_of sys contract st)
  verify_exit sys contract crashed = crashed
  verify_exit sys contract no_fuel = no_fuel

  abbrev pub verify_from :
      TransitionSystem S → VerificationContract → Result S → Exit VerificationReport
  verify_from sys contract (ok init) = verify_exit sys contract (explore sys contract.bounds init)
  verify_from sys contract (err (BackendError.unsupported u)) =
      finished (report_early Outcome.unsupported (u ∷ []) [] contract.bounds)
  verify_from sys contract (err (BackendError.invalid i)) =
      finished (report_early Outcome.invalid [] (i ∷ []) contract.bounds)
  verify_from sys contract panic = crashed

  unfoldable pub verify : TransitionSystem S → VerificationContract → Exit VerificationReport
  unfolding report_of report_early explore
  verify sys contract = verify_from sys contract sys.initial
