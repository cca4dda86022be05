-- ===== src/Examples/Machine.antt =====
-- The interpreter of src/interp on a program whose entry takes a mutex and sends a message.
use conc_ir.Prelude.{
  ℕ, ◌≡◌, refl, subst, ◌≢◌, ◌↔◌, true, false, none, some, [], ◌∷◌, In, inl, inr, List, leb,
}
use conc_ir.Prelude.Int.{pos, leb_ℤ}
use conc_ir.Prelude.Map.{get, insert, remove, nat_key, pair_key}
use conc_ir.Sem.Outcome.{ThreadId, ok, default_bounds}
use conc_ir.Sem.Eval.{lit, int, Host}
use conc_ir.Sem.Program.{
  SemProgram, SemFunction, SemResource, SemStmt, SemOp, ResKind, mutex, channel, mutex_lock,
  channel_send,
}
use conc_ir.Sem.System.{Step, Enabled, Predicate, negation, function_completed_at_least}
use conc_ir.Sem.Monitor.{from_predicates}
use conc_ir.Sem.Monitor.Saturation.{Asks}
use conc_ir.Interp.Completions.{completions, count_of, satisfied-completions}
use conc_ir.Interp.State.{MachineState, ThreadState, blocked, condvar, new_thread, held}
use conc_ir.Interp.Access.{Interpreter}
use conc_ir.Interp.Machine.{initial, successors, satisfied}
use conc_ir.Interp.Ownership.Respect.{NonNegative, Bounded}
use conc_ir.Interp.Ownership.Safety.{
  Runs, begin, move, holders_stable, taken_when_unheld, reachable-Bounded, reachable-NonNegative,
}

abbrev pub a_resource : ℕ → ResKind → SemResource
a_resource id kind = record {
  id = id;
  module_id = 0;
  name = [];
  kind = kind;
  ty = none;
  capacity = 1;
  permits = pos 2;
  init = none;
  mode = none;
}

abbrev pub a_statement : ℕ → SemOp → SemStmt
a_statement id op = record { id = id; sid = []; op = op }

abbrev pub main_function : SemFunction
main_function = record {
  id = 0;
  module_id = 0;
  name = [];
  kind = [];
  is_nobody = false;
  effects_empty = false;
  may_block = none;
  params = [];
  returns = none;
  slots = [];
  body = a_statement 0 (mutex_lock 0) ∷ a_statement 1 (channel_send 1 (lit (int (pos 7)))) ∷ [];
  sid_to_idx = [];
  requires_held = [];
  num_modeled_params = 0;
  bound = none;
}

abbrev pub the_program : SemProgram
the_program = record {
  module_names = [] ∷ [];
  functions = main_function ∷ [];
  resources = a_resource 0 mutex ∷ a_resource 1 channel ∷ a_resource 2 ResKind.semaphore ∷ [];
  protection = [];
  entry = 0;
  unsupported = [];
}

-- A host for programs without floats.
abbrev pub the_host : Host
the_host = record {
  float_neg = λ a. a;
  float_bin = λ op a b. a;
  float_cmp = λ a b. none;
  parse_i64 = λ s. none;
}

abbrev pub the_interpreter : Interpreter
the_interpreter = record {
  program = the_program;
  bounds = default_bounds;
  monitor = record { default_max = 0; saturate = [] };
  host = the_host;
}

begins : (s : MachineState) × (initial the_interpreter ≡ ok s)
unfolding initial
begins = (_, refl)

-- The steps of the first state, with the first of them.
locks :
    (en : Enabled MachineState) × (successors the_interpreter begins.0 ≡ ok en)
    × (st : Step MachineState) × In st en.steps
unfolding successors begins get insert
locks = (_, refl, _, inl refl)

abbrev locked : MachineState
locked = locks.2.state

sends :
    (en : Enabled MachineState) × (successors the_interpreter locked ≡ ok en)
    × (st : Step MachineState) × In st en.steps
unfolding successors locks get insert
sends = (_, refl, _, inl refl)

sent_run : Runs the_interpreter sends.2.state
sent_run =
    move locked sends.0 sends.2
      (move begins.0 locks.0 locks.2 (begin begins.0 begins.1) locks.1 locks.3) sends.1 sends.3

holders_stable_example :
    (tid : ThreadId) × (sends.2.label.thread ≡ some tid)
    × ((r h : ℕ)
        → h ≢ tid
        → (get r locked.store.mutexes ≡ some (held h))
          ↔ (get r sends.2.state.store.mutexes ≡ some (held h)))
holders_stable_example = holders_stable the_interpreter locked sends.0 sends.2 sends.1 sends.3

reachable-Bounded_example : Bounded the_interpreter sends.2.state
reachable-Bounded_example = reachable-Bounded the_interpreter sends.2.state sent_run

permits_declared :
    (res : SemResource) → In res the_program.resources → leb_ℤ (pos 0) res.permits ≡ true
permits_declared res (inl e) = subst (λ (x : SemResource). leb_ℤ (pos 0) x.permits ≡ true) e refl
permits_declared res (inr (inl e)) =
    subst (λ (x : SemResource). leb_ℤ (pos 0) x.permits ≡ true) e refl
permits_declared res (inr (inr (inl e))) =
    subst (λ (x : SemResource). leb_ℤ (pos 0) x.permits ≡ true) e refl
permits_declared res (inr (inr (inr e))) = absurd e

reachable-NonNegative_example : NonNegative sends.2.state
reachable-NonNegative_example =
    reachable-NonNegative the_interpreter sends.2.state permits_declared sent_run

-- The first step takes the mutex, which is free before.
held_after : get 0 locked.store.mutexes ≡ some (held 0)
unfolding locks get insert
held_after = refl

free_before : get 0 begins.0.store.mutexes ≢ some (held 0)
unfolding begins get insert
free_before e = cc

taken_when_unheld_example : get 0 begins.0.store.mutexes ≢ some (held 1)
taken_when_unheld_example =
    taken_when_unheld the_interpreter begins.0 locks.0 locks.2 0 0 1 locks.1 locks.3 held_after
      free_before

-- Two threads wait on a condition variable.
abbrev waiter : ThreadId → ThreadState
waiter w = new_thread w (blocked (condvar 3 0)) [] 0 none

abbrev waiting : MachineState
waiting = record begins.0 {
  store = record begins.0.store {
    condvars = insert 3 (record { waiters = (1, 0) ∷ (2, 0) ∷ [] }) [];
  };
  threads = insert 1 (waiter 1) (insert 2 (waiter 2) begins.0.threads);
}

-- A contract that asks whether function 0 completed twice.
abbrev asked : List Predicate
asked = negation (function_completed_at_least 0 2) ∷ []

abbrev the_monitored : Interpreter
the_monitored = record the_interpreter { monitor = from_predicates asked }

two_asked : Asks 0 2 (negation (function_completed_at_least 0 2))
unfolding Asks
two_asked = (refl, refl)

none_completed : count_of 0 begins.0 ≡ 0
unfolding begins get remove
none_completed = refl

satisfied-completions_example :
    satisfied the_monitored
      (completions the_monitored 0 3 begins.0)
      (function_completed_at_least 0 2)
    ≡ ok (leb 2 3)
satisfied-completions_example =
    satisfied-completions the_monitored asked (negation (function_completed_at_least 0 2)) 0 2 3
      begins.0 refl (inl refl) two_asked none_completed
