-- ===== src/Interp/Step.antt =====
-- src/interp/exec.rs: the control statements and the step of a runnable thread.
use conc_ir.Prelude.{ℕ, Bool, false, Option, none, some, [], ◌∷◌, get_elem?, if◌then◌else◌}
use conc_ir.Prelude.Int.{ℤ, eqb_ℤ}
use conc_ir.Prelude.Text.{Str}
use conc_ir.Prelude.Map.{Map, get, insert, nat_key, list_key, pair_key}
use conc_ir.Sem.Outcome.{
  FunctionId, ThreadId, FrameId, Location, BackendError, e201, e202, e999, error_at, invalid_error,
  Result, ok, err, ◌>>=◌, ok_or, StepLabel,
}
use conc_ir.Sem.Value.{Value, int, enum, as_bool}
use conc_ir.Sem.Eval.{LExpr, Host}
use conc_ir.Sem.Program.{SemOp, SemFunction, function}
use conc_ir.Interp.State.{MachineState, current_frame_id, frame_of, write_frame, advance}
use conc_ir.Interp.Access.{Interpreter, Fired, fires, if_written, eval_in, step_label}
use conc_ir.Interp.Threads.{apply_return}
use conc_ir.Interp.Sync.{
  step_on, fails_at, step_assign_local, step_read_shared, step_write_shared, step_atomic_load,
  step_atomic_store, step_atomic_cas, step_mutex_lock, step_mutex_unlock, step_condvar_wait,
  step_notify, step_notify_all, step_semaphore_acquire, step_semaphore_release,
}
use conc_ir.Interp.Channels.{step_channel_send, step_channel_recv}
use conc_ir.Interp.Calls.{step_call, step_spawn, step_scope, step_join}

-- `frame_mut(fid).pc = target`.
unfoldable pub jump : FrameId → ℕ → MachineState → Result Fired
unfolding frame_of write_frame
jump fid target s = do f ← frame_of s fid; fires (write_frame fid (record f { pc = target }) s)

unfoldable pub step_branch :
    Interpreter → Location → FrameId → LExpr → ℕ → ℕ → MachineState → Result Fired
unfolding eval_in as_bool error_at jump
step_branch it at fid cond then_target else_target s = do
  v ← eval_in it s fid cond
  taken ← ok_or (as_bool v) (error_at (invalid_error e201) at)
  jump fid (if taken then then_target else else_target) s

abbrev pub is_int : ℤ → Option ℤ → Bool
is_int i none = false
is_int i (some n) = eqb_ℤ n i

-- The first case, in the order of the keys, whose text is the integer.
abbrev pub int_case : Host → ℤ → Map Str ℕ → ℕ → ℕ
int_case host i [] default = default
int_case host i ((k, t) ∷ cases) default =
    if is_int i (host.parse_i64 k) then t else int_case host i cases default

abbrev pub or_default : Option ℕ → ℕ → ℕ
or_default none d = d
or_default (some t) d = t

abbrev pub switch_target : Host → Location → Map Str ℕ → ℕ → Value → Result ℕ
switch_target host at cases default v = elim v [
  | enum e ↦ ok (or_default (get e cases) default)
  | int i ↦ ok (int_case host i cases default)
  | _ ↦ fails_at e202 at
]

unfoldable pub step_switch :
    Interpreter → Location → FrameId → LExpr → Map Str ℕ → ℕ → MachineState → Result Fired
unfolding eval_in error_at jump
step_switch it at fid e cases default s = do
  v ← eval_in it s fid e
  target ← switch_target it.host at cases default v
  jump fid target s

abbrev pub eval_returned :
    Interpreter → MachineState → FrameId → Option LExpr → Result (Option Value)
eval_returned it s fid none = ok none
eval_returned it s fid (some e) = do v ← eval_in it s fid e; ok (some v)

unfoldable pub step_return :
    Interpreter
    → ThreadId
    → FrameId
    → FunctionId
    → SemFunction
    → Option LExpr
    → MachineState
    → Result Fired
unfolding eval_in apply_return
step_return it tid fid func f value s = do
  val ← eval_returned it s fid value
  s' ← apply_return it tid fid func f val s
  if_written fires s'

-- A statement of the body, in the state that counts it as reached.
unfoldable pub step_op :
    Interpreter
    → Location
    → ThreadId
    → FrameId
    → FunctionId
    → SemFunction
    → ℕ
    → SemOp
    → MachineState
    → Result Fired
unfolding step_assign_local step_read_shared step_write_shared step_atomic_load step_atomic_store
    step_atomic_cas step_mutex_lock step_mutex_unlock step_channel_send step_channel_recv
    step_condvar_wait step_notify step_notify_all step_semaphore_acquire step_semaphore_release
    step_call step_spawn step_scope step_join jump step_branch step_switch step_return advance
    error_at
step_op it at tid fid func f pc op s = elim op [
  | SemOp.nop ↦ step_on tid s
  | SemOp.assign_local target e ↦ step_assign_local it tid fid f target e s
  | SemOp.read_shared r dst ↦ step_read_shared it tid fid r dst s
  | SemOp.write_shared r e ↦ step_write_shared it tid fid r e s
  | SemOp.atomic_load r dst ↦ step_atomic_load it tid fid r dst s
  | SemOp.atomic_store r e ↦ step_atomic_store it tid fid r e s
  | SemOp.atomic_cas r expected desired dst ↦ step_atomic_cas it tid fid r expected desired dst s
  | SemOp.mutex_lock r ↦ step_mutex_lock tid r s
  | SemOp.mutex_unlock r ↦ step_mutex_unlock at tid r s
  | SemOp.channel_send c e ↦ step_channel_send it tid fid c e s
  | SemOp.channel_recv c dst ↦ step_channel_recv it tid fid c s
  | SemOp.condvar_wait c l ↦ step_condvar_wait at tid c l s
  | SemOp.condvar_notify c ↦ step_notify tid c s
  | SemOp.condvar_notify_all c ↦ step_notify_all tid c s
  | SemOp.semaphore_acquire r count ↦ step_semaphore_acquire at tid r count s
  | SemOp.semaphore_release r count ↦ step_semaphore_release at tid r count s
  | SemOp.call g args dst ↦ step_call it tid fid pc g args dst s
  | SemOp.spawn g handle ↦ step_spawn it tid fid g handle s
  | SemOp.scope funcs ↦ step_scope it at tid fid func pc funcs s
  | SemOp.join handle ↦ step_join at tid fid handle s
  | SemOp.goto target ↦ jump fid target s
  | SemOp.branch cond t e ↦ step_branch it at fid cond t e s
  | SemOp.switch e cases default ↦ step_switch it at fid e cases default s
  | SemOp.return value ↦ step_return it tid fid func f value s
  | SemOp.unsupported_op construct ↦
      err
        (error_at (BackendError.unsupported (record { construct = construct; location = none })) at)
]

-- Falling off the end is a return without a value, which reaches no statement.
unfoldable pub step_thread : Interpreter → MachineState → ThreadId → Result (StepLabel × Fired)
unfolding current_frame_id frame_of function step_op apply_return step_label
step_thread it s tid = do
  fid ← ok_or (current_frame_id s tid) (invalid_error e999)
  frame ← frame_of s fid
  f ← function it.program frame.function
  label ← step_label it frame.function frame.pc tid fid
  let func = frame.function
  let pc = frame.pc
  fired ← elim (get_elem? f.body pc) [
    | none ↦ do s' ← apply_return it tid fid func f none s; if_written fires s'
    | some stmt ↦
        step_op it (func, some pc) tid fid func f pc stmt.op
          (record s { reached = insert (func, pc) tt s.reached })
  ]
  ok (label, fired)
