-- ===== src/Interp/Machine.antt =====
-- src/interp/exec.rs: the interpreter as a transition system: its initial state, the steps of every
-- thread in the order of their identities, and the predicates that a state satisfies.
use conc_ir.Prelude.{
  ℕ, ◌==◌, Bool, true, false, ◌&&◌, not, Option, none, some, List, [], ◌∷◌, ◌++◌, map, every,
  is_empty, length, leb, if◌then◌else◌,
}
use conc_ir.Prelude.Int.{pos, leb_ℤ}
use conc_ir.Prelude.Text.{Str}
use conc_ir.Prelude.Map.{Map, get, remove, nat_key, pair_key}
use conc_ir.Sem.Outcome.{FunctionId, ResourceId, ThreadId, FrameId, StepLabel, Result, ok, ◌>>=◌}
use conc_ir.Sem.Value.{Value, value_eq}
use conc_ir.Sem.Eval.{CmpOp, Host}
use conc_ir.Sem.Program.{mutex, semaphore, resource}
use conc_ir.Sem.Monitor.{max_for, get_or}
use conc_ir.Sem.System.{
  Enabled, TransitionSystem, Predicate, Predicates, compare_values, truth, falsity, var_eq, var_cmp,
  function_completed, function_completed_at_least, scope_completed, statement_reached, mutex_free,
  mutex_held, holds_all, mutex_exclusive, never_holds_all, channel_empty, channel_at_least,
  negation, conjunction, disjunction, no_predicates, predicate,
}
use conc_ir.Interp.State.{
  MachineState, MutexState, held, ChannelState, Frame, ThreadState, ThreadStatus, runnable, blocked,
  finished, is_some, read_shared, initial_state,
}
use conc_ir.Interp.Access.{Interpreter, Fired, permits_of, thread_holds}
use conc_ir.Interp.Sync.{is_free}
use conc_ir.Interp.Threads.{is_finished_status}
use conc_ir.Interp.Step.{step_thread}
use conc_ir.Interp.Resume.{resume_thread}

-- A completed transparent entry is dropped where no property observes it.
unfoldable pub initial : Interpreter → Result MachineState
unfolding initial_state max_for
initial it = do
  s ← initial_state it.program
  let entry = it.program.entry
  ok (
      if max_for it.monitor entry == 0
      then record s { completed_functions = remove entry s.completed_functions }
      else s)

abbrev pub no_steps : Enabled MachineState
no_steps = record { steps = []; boundary = [] }

abbrev pub labelled : StepLabel × Fired → Enabled MachineState
labelled (label, fired) = record {
  steps = map (λ s. record { label = label; state = s }) fired.states;
  boundary = fired.boundary;
}

abbrev pub join_enabled : Enabled MachineState → Enabled MachineState → Enabled MachineState
join_enabled a b = record { steps = a.steps ++ b.steps; boundary = a.boundary ++ b.boundary }

unfoldable pub thread_steps :
    Interpreter → MachineState → ThreadId → ThreadStatus → Result (Enabled MachineState)
unfolding step_thread resume_thread
thread_steps it s tid runnable = do fired ← step_thread it s tid; ok (labelled fired)
thread_steps it s tid (blocked reason) = do
  fired ← resume_thread it s tid reason
  ok (labelled fired)
thread_steps it s tid finished = ok no_steps

unfoldable pub all_steps :
    Interpreter → MachineState → Map ThreadId ThreadState → Result (Enabled MachineState)
unfolding thread_steps
all_steps it s [] = ok no_steps
all_steps it s ((tid, t) ∷ m) = do
  here ← thread_steps it s tid t.status
  rest ← all_steps it s m
  ok (join_enabled here rest)

unfoldable pub successors : Interpreter → MachineState → Result (Enabled MachineState)
unfolding all_steps
successors it s = all_steps it s s.threads

unfoldable pub is_finished : MachineState → Bool
is_finished s = every (λ (tid, t). is_finished_status t.status) s.threads

abbrev pub var_is : Option Value → Value → Bool
var_is none v = false
var_is (some w) v = value_eq w v

abbrev pub or_false : Option Bool → Bool
or_false none = false
or_false (some b) = b

abbrev pub var_compares : Host → CmpOp → Option Value → Value → Bool
var_compares host op none v = false
var_compares host op (some w) v = or_false (compare_values host op w v)

abbrev pub is_held : Option MutexState → Bool
is_held (some (held h)) = true
is_held _ = false

abbrev pub idle : Option ChannelState → Bool
idle none = true
idle (some ch) = is_empty ch.buffer && is_empty ch.pending_send

abbrev pub filled : Option ChannelState → ℕ → Bool
filled none n = false
filled (some ch) n = leb n (length ch.buffer)

abbrev pub runs : Option Frame → FunctionId → Bool
runs none func = false
runs (some f) func = f.function == func

abbrev pub executes : MachineState → FunctionId → List FrameId → Bool
executes s func [] = false
executes s func (fid ∷ fids) =
    if runs (get fid s.store.frames) func then true else executes s func fids

abbrev pub holds_every : Interpreter → MachineState → ThreadId → List ResourceId → Result Bool
holds_every it s tid [] = ok true
holds_every it s tid (r ∷ rs) = do
  h ← thread_holds it s tid r
  if h then holds_every it s tid rs else ok false

-- Whether some thread executes the function and holds all the resources.
unfoldable pub any_holds_all :
    Interpreter
    → MachineState
    → FunctionId
    → List ResourceId
    → Map ThreadId ThreadState
    → Result Bool
unfolding thread_holds
any_holds_all it s func rs [] = ok false
any_holds_all it s func rs ((tid, t) ∷ m) =
    let rest = any_holds_all it s func rs m in
    if executes s func t.stack
    then (holds_every it s t.id rs >>= λ h. if h then ok true else rest)
    else rest

unfoldable pub exclusive : Interpreter → MachineState → ResourceId → Result Bool
unfolding resource
exclusive it s r = do
  res ← resource it.program r
  ok (elim res.kind [
    | mutex ↦ true
    | semaphore ↦ leb_ℤ (pos 0) (permits_of (get r s.store.semaphores))
    | _ ↦ false
  ])

unfoldable mutual
  unfolding read_shared value_eq compare_values any_holds_all exclusive

  pub satisfied : Interpreter → MachineState → Predicate → Result Bool
  satisfied it s truth = ok true
  satisfied it s falsity = ok false
  satisfied it s (var_eq r v) = ok (var_is (read_shared s.store r) v)
  satisfied it s (var_cmp r op v) = ok (var_compares it.host op (read_shared s.store r) v)
  satisfied it s (function_completed f) = ok (leb 1 (get_or (get f s.completed_functions) 0))
  satisfied it s (function_completed_at_least f n) =
      ok (leb n (get_or (get f s.completed_functions) 0))
  satisfied it s (scope_completed f sid) = ok (is_some (get (f, sid) s.completed_scopes))
  satisfied it s (statement_reached f sid) = ok (is_some (get (f, sid) s.reached))
  satisfied it s (mutex_free r) = ok (is_free (get r s.store.mutexes))
  satisfied it s (mutex_held r) = ok (is_held (get r s.store.mutexes))
  satisfied it s (channel_empty r) = ok (idle (get r s.store.channels))
  satisfied it s (channel_at_least r n) = ok (filled (get r s.store.channels) n)
  satisfied it s (holds_all f rs) = any_holds_all it s f rs s.threads
  satisfied it s (mutex_exclusive r) = exclusive it s r
  satisfied it s (never_holds_all f rs) = do h ← any_holds_all it s f rs s.threads; ok (not h)
  satisfied it s (negation p) = do b ← satisfied it s p; ok (not b)
  satisfied it s (conjunction ps) = satisfied_all it s ps
  satisfied it s (disjunction ps) = satisfied_any it s ps

  pub satisfied_all : Interpreter → MachineState → Predicates → Result Bool
  satisfied_all it s no_predicates = ok true
  satisfied_all it s (predicate p ps) =
      let rest = satisfied_all it s ps in satisfied it s p >>= λ b. if b then rest else ok false

  pub satisfied_any : Interpreter → MachineState → Predicates → Result Bool
  satisfied_any it s no_predicates = ok false
  satisfied_any it s (predicate p ps) =
      let rest = satisfied_any it s ps in satisfied it s p >>= λ b. if b then ok true else rest

-- `impl TransitionSystem for Interpreter`, over the text of a state.
abbrev pub transition_system : Interpreter → (MachineState → Str) → TransitionSystem MachineState
transition_system it state_key = record {
  initial = initial it;
  successors = successors it;
  is_finished = is_finished;
  satisfied = satisfied it;
  state_key = state_key;
}
