-- ===== src/Explore/Judgement.antt =====
-- What the checks of Explore.Check answer where nothing panics, as functions into plain outcomes. The
-- proofs about verdicts go through them; Explore.Judgement.Agree relates the two.
pub mod Agree
pub mod Verdicts
use mathlib.Core.List.{reverse}
use conc_ir.Prelude.{
  ℕ, zero, suc, Bool, true, false, not, ◌&&◌, Option, none, some, List, [], ◌∷◌, ◌++◌, length,
  is_empty, modify, if◌then◌else◌,
}
use conc_ir.Prelude.Text.{ascii}
use conc_ir.Sem.Outcome.{Result, ok, err, panic, Outcome, StepLabel}
use conc_ir.Sem.System.{Predicate, TransitionSystem}
use conc_ir.Explore.Search.{Graph, Search, complete}
use conc_ir.Explore.Contract.{
  Property, safety, unreachable, deadlock_free, reachability, always_reachable, Preserved,
  reachable, always, PropertySpecResolved, PreservedBehavior, VerificationContract,
}
use conc_ir.Explore.Check.{
  contains, absent, present, empty_rows, push_unseen, PropertyResult, VerificationReport, overall,
}

-- Answers true, and does not panic.
abbrev pub is_yes : Result Bool → Bool
is_yes (ok b) = b
is_yes (err e) = false
is_yes panic = false

abbrev pub answers : {S : Type 0} → TransitionSystem S → S → Predicate → Bool
answers sys s p = is_yes (sys.satisfied s p)

abbrev pub flag : List Bool → ℕ → Bool
flag [] i = false
flag (b ∷ bs) zero = b
flag (b ∷ bs) (suc i) = flag bs i

abbrev pub row_of {ℓ} : {A : Type ℓ} → List (List A) → ℕ → List A
row_of [] i = []
row_of (r ∷ rs) zero = r
row_of (r ∷ rs) (suc i) = row_of rs i

-- The first state, with its index, that passes a test: `iter().position(…)`.
abbrev pub first_from {ℓ} : {S : Type ℓ} → (ℕ → S → Bool) → ℕ → List S → Option ℕ
first_from test i [] = none
first_from test i (s ∷ ss) =
    let rest = first_from test (suc i) ss in if test i s then some i else rest

abbrev pub all_from {ℓ} : {S : Type ℓ} → (S → Bool) → ℕ → List S → List ℕ
all_from test i [] = []
all_from test i (s ∷ ss) = let rest = all_from test (suc i) ss in if test s then i ∷ rest else rest

-- `rev[target].push(i)` for each edge.
abbrev pub turned_row : ℕ → List (ℕ × StepLabel) → List (List ℕ) → List (List ℕ)
turned_row i [] rev = rev
turned_row i ((target, label) ∷ es) rev = turned_row i es (modify rev target (λ ps. ps ++ i ∷ []))

abbrev pub turned_edges : ℕ → List (List (ℕ × StepLabel)) → List (List ℕ) → List (List ℕ)
turned_edges i [] rev = rev
turned_edges i (row ∷ rows) rev = turned_edges (suc i) rows (turned_row i row rev)

unfoldable pub collect_loop : ℕ → List (List ℕ) → List ℕ → List ℕ → List ℕ
unfolding push_unseen
collect_loop zero rev seen stack = seen
collect_loop (suc f) rev seen [] = seen
collect_loop (suc f) rev seen (i ∷ stack) =
    let (seen', stack') = push_unseen (row_of rev i) seen stack in collect_loop f rev seen' stack'

module _ {S : Type 0} where
  unfoldable pub collected : Graph S → List ℕ → List ℕ
  unfolding collect_loop
  collected g roots =
      collect_loop (suc (length g.states)) (turned_edges 0 g.edges (empty_rows g.states)) roots
        (reverse roots)

  unfoldable pub is_stuck : TransitionSystem S → Graph S → ℕ → S → Bool
  is_stuck sys g i s =
      flag g.processed i
      && (not (flag g.had_boundary i) && (is_empty (row_of g.edges i) && not (sys.is_finished s)))

  abbrev pub judge_always : TransitionSystem S → Graph S → List ℕ → Bool → Outcome
  judge_always sys g [] done = Outcome.fail
  judge_always sys g (r ∷ roots) done =
      let can_reach = collected g (r ∷ roots) in
      absent done (first_from (λ i s. not (contains can_reach i)) 0 g.states)

  -- The outcome of `judge`.
  unfoldable pub judge : TransitionSystem S → Graph S → Property → Bool → Outcome
  unfolding is_stuck collected
  judge sys g (safety invariant) done =
      absent done (first_from (λ i s. not (answers sys s invariant)) 0 g.states)
  judge sys g (unreachable bad) done =
      absent done (first_from (λ i s. answers sys s bad) 0 g.states)
  judge sys g deadlock_free done = absent done (first_from (is_stuck sys g) 0 g.states)
  judge sys g (reachability goal) done =
      present done (first_from (λ i s. answers sys s goal) 0 g.states)
  judge sys g (always_reachable goal) done =
      judge_always sys g (all_from (λ s. answers sys s goal) 0 g.states) done

  unfoldable pub judge_preserved : TransitionSystem S → Graph S → Preserved → Bool → Outcome
  judge_preserved sys g (reachable goal) done =
      present done (first_from (λ i s. answers sys s goal) 0 g.states)
  judge_preserved sys g (always invariant) done =
      absent done (first_from (λ i s. not (answers sys s invariant)) 0 g.states)

  unfoldable pub judged_results :
      TransitionSystem S → Graph S → Bool → List PropertySpecResolved → List PropertyResult
  unfolding judge
  judged_results sys g done [] = []
  judged_results sys g done (p ∷ ps) =
      record { id = p.id; outcome = judge sys g p.property done } ∷ judged_results sys g done ps

  unfoldable pub judged_preserved :
      TransitionSystem S → Graph S → Bool → List PreservedBehavior → List PropertyResult
  unfolding judge_preserved
  judged_preserved sys g done [] = []
  judged_preserved sys g done (p ∷ ps) =
      record {
        id = ascii "preserved: " ++ p.description;
        outcome = judge_preserved sys g p.behavior done;
      }
      ∷ judged_preserved sys g done ps

module _ {S : Type 0} where
  unfoldable pub judged_of :
      TransitionSystem S → VerificationContract → Search S → List PropertyResult
  unfolding judged_results judged_preserved complete
  judged_of sys contract st =
      judged_results sys st.graph (complete st) contract.properties
      ++ judged_preserved sys st.graph (complete st) contract.preserved

  unfoldable pub judged_report :
      TransitionSystem S → VerificationContract → Search S → VerificationReport
  unfolding judged_of overall complete
  judged_report sys contract st = record {
    outcome =
        overall (judged_of sys contract st) (not (is_empty st.invalid))
          (not (is_empty st.unsupported)) (complete st);
    complete = complete st;
    states_explored = length st.graph.states;
    transitions_explored = st.transitions_explored;
    properties = judged_of sys contract st;
    boundary_events = st.boundary_events;
    unsupported = st.unsupported;
    invalid = st.invalid;
    bounds = contract.bounds;
    analysis_started = true;
  }
