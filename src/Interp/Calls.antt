-- ===== src/Interp/Calls.antt =====
-- src/interp/exec.rs: calls, spawned threads, scopes and joins.
use conc_ir.Prelude.{
  ℕ, suc, ◌+◌, Bool, true, false, ◌&&◌, Option, none, some, List, [], ◌∷◌, ◌++◌, is_empty, length,
  get_elem?, leb, if◌then◌else◌,
}
use conc_ir.Prelude.Text.{Str}
use conc_ir.Prelude.Map.{Map, get, insert, remove, nat_key, list_key, pair_key}
use conc_ir.Sem.Outcome.{
  FunctionId, ThreadId, FrameId, ScopeId, HandleId, SlotId, SlotRef, discard, Location,
  BoundaryKind, frame_limit, thread_limit, e402, e410, error_at, invalid_error, Result, ok, ◌>>=◌,
  unwrap, ok_or,
}
use conc_ir.Sem.Value.{Value, within_type}
use conc_ir.Sem.Eval.{LExpr}
use conc_ir.Sem.Program.{SlotClass, param, SemSlot, function, is_transparent_nobody}
use conc_ir.Interp.State.{
  MachineState, Frame, ThreadState, Alloc, join, scope, is_some, frame_of, write_frame, block,
  advance, alloc_frame,
}
use conc_ir.Interp.Access.{Interpreter, Fired, disabled, fires, eval_in, record_completion}
use conc_ir.Interp.Sync.{step_on, fails_at}
use conc_ir.Interp.Threads.{is_finished_status, reclaim, within_function_bound, create_thread}

abbrev pub limited : BoundaryKind → Result Fired
limited kind = ok (record { states = []; boundary = record { kind = kind } ∷ [] })

abbrev pub is_param : SlotClass → Bool
is_param param = true
is_param _ = false

-- The positions of the parameters that carry data.
abbrev pub modeled_params : ℕ → List SemSlot → List SlotId
modeled_params i [] = []
modeled_params i (slot ∷ slots) =
    let rest = modeled_params (suc i) slots in
    if is_param slot.class && slot.modeled then i ∷ rest else rest

abbrev pub eval_all : Interpreter → MachineState → FrameId → List LExpr → Result (List Value)
eval_all it s fid [] = ok []
eval_all it s fid (e ∷ es) = do v ← eval_in it s fid e; vs ← eval_all it s fid es; ok (v ∷ vs)

-- Both lists are read together, and the longer one is cut.
abbrev pub args_ok : List SemSlot → List SlotId → List Value → Result Bool
args_ok slots (i ∷ is) (v ∷ vs) = do
  slot ← unwrap (get_elem? slots i)
  rest ← args_ok slots is vs
  ok (within_type slot.ty v && rest)
args_ok slots _ _ = ok true

abbrev pub bind_args : List SlotId → List Value → Map SlotId Value → Map SlotId Value
bind_args (i ∷ is) (v ∷ vs) locals = bind_args is vs (insert i v locals)
bind_args _ _ locals = locals

abbrev pub push_frame : ThreadId → ThreadState → FrameId → MachineState → MachineState
push_frame tid t fid s = record s {
  threads = insert tid (record t { stack = t.stack ++ fid ∷ [] }) s.threads;
}

abbrev pub or_discard : Option SlotRef → SlotRef
or_discard none = discard
or_discard (some dst) = dst

unfoldable pub enter_callee :
    Interpreter
    → ThreadId
    → ℕ
    → FunctionId
    → List SlotId
    → List Value
    → Option SlotRef
    → MachineState
    → Result Fired
unfolding alloc_frame write_frame
enter_callee it tid pc func params values dst s = do
  (frame, s') ← alloc_frame it.program func s
  let frame' = record frame {
    locals = bind_args params values frame.locals;
    ret = some (record { pc_next = pc + 1; dst = or_discard dst });
  }
  let s'' = write_frame frame.id frame' s'
  t ← unwrap (get tid s''.threads)
  fires (push_frame tid t frame.id s'')

unfoldable pub step_call :
    Interpreter
    → ThreadId
    → FrameId
    → ℕ
    → FunctionId
    → List LExpr
    → Option SlotRef
    → MachineState
    → Result Fired
unfolding function is_transparent_nobody record_completion advance eval_in enter_callee
step_call it tid fid pc func args dst s = do
  callee ← function it.program func
  if is_transparent_nobody callee then step_on tid (record_completion it func s) else (do
    t ← unwrap (get tid s.threads)
    if leb it.bounds.max_frames_per_thread (length t.stack) then limited frame_limit else (do
      values ← eval_all it s fid args
      let params = modeled_params 0 callee.slots
      fits ← args_ok callee.slots params values
      if fits then enter_callee it tid pc func params values dst s else disabled))

abbrev pub bump_handle : Alloc → Alloc
bump_handle a = record a { next_handle = a.next_handle + 1 }

abbrev pub bump_scope : Alloc → Alloc
bump_scope a = record a { next_scope = a.next_scope + 1 }

-- The handle is bound in the frame, and its child in the thread.
abbrev pub bind_handle : ThreadId → FrameId → Str → ThreadId → MachineState → Result MachineState
bind_handle tid fid handle child s = do
  let hid = s.alloc.next_handle
  f ← frame_of s fid
  let s' =
      write_frame fid (record f { handles = insert handle hid f.handles })
        (record s { alloc = bump_handle s.alloc })
  t ← unwrap (get tid s'.threads)
  ok (record s' {
    threads =
        insert tid (record t { handle_children = insert hid child t.handle_children }) s'.threads;
  })

abbrev pub spawned : ThreadId → FrameId → Str → Option (ThreadId × MachineState) → Result Fired
spawned tid fid handle none = limited thread_limit
spawned tid fid handle (some (child, s)) = do
  s' ← bind_handle tid fid handle child s
  step_on tid s'

unfoldable pub step_spawn :
    Interpreter → ThreadId → FrameId → FunctionId → Str → MachineState → Result Fired
unfolding within_function_bound create_thread frame_of write_frame advance
step_spawn it tid fid func handle s = do
  fits ← within_function_bound it s func
  if fits
      then (create_thread it func none s >>= λ created. spawned tid fid handle created)
      else disabled

abbrev pub all_within_bound : Interpreter → MachineState → List FunctionId → Result Bool
all_within_bound it s [] = ok true
all_within_bound it s (func ∷ funcs) = do
  fits ← within_function_bound it s func
  if fits then all_within_bound it s funcs else ok false

abbrev pub Members : Type 0
Members = Map ThreadId (Unit {0})

-- `status != Finished` of a created thread, whose members then hold it.
abbrev pub add_member : ThreadId → Members → MachineState → Result Members
add_member child remaining s = do
  t ← unwrap (get child s.threads)
  ok (if is_finished_status t.status then remaining else insert child tt remaining)

-- `none`: the thread limit is reached, and no member of the scope is started.
unfoldable pub start_members :
    Interpreter
    → ScopeId
    → List FunctionId
    → Members
    → MachineState
    → Result (Option (Members × MachineState))
unfolding create_thread
start_members it id [] remaining s = ok (some (remaining, s))
start_members it id (func ∷ funcs) remaining s = create_thread it func (some id) s >>= λ created.
    elim created [
      | none ↦ ok none
      | some (child, s') ↦ do
        remaining' ← add_member child remaining s'
        start_members it id funcs remaining' s'
    ]

abbrev pub started :
    ThreadId → FrameId → FunctionId → ℕ → ScopeId → Option (Members × MachineState) → Result Fired
started tid fid func pc id none = limited thread_limit
started tid fid func pc id (some (remaining, s)) =
    if is_empty remaining
    then step_on tid (record s { completed_scopes = insert (func, pc) tt s.completed_scopes })
    else fires (
        block tid (scope id) (record s {
          scopes =
              insert id (record { id = id; owner = tid; owner_frame = fid; remaining = remaining })
                s.scopes;
        }))

unfoldable pub step_scope :
    Interpreter
    → Location
    → ThreadId
    → FrameId
    → FunctionId
    → ℕ
    → List FunctionId
    → MachineState
    → Result Fired
unfolding error_at within_function_bound start_members block advance
step_scope it at tid fid func pc funcs s = if is_empty funcs then fails_at e410 at else (do
  fits ← all_within_bound it s funcs
  let id = s.alloc.next_scope
  if fits
      then (start_members it id funcs [] (record s { alloc = bump_scope s.alloc }) >>= λ members.
          started tid fid func pc id members)
      else disabled)

-- The handle and the child are consumed.
abbrev pub consume_child :
    ThreadId
    → FrameId
    → Frame
    → ThreadState
    → Str
    → HandleId
    → ThreadId
    → MachineState
    → Result Fired
consume_child tid fid f t handle hid child s =
    let s' = write_frame fid (record f { handles = remove handle f.handles }) s in
    step_on tid (
      reclaim child (record s' {
        threads =
            insert tid (record t { handle_children = remove hid t.handle_children }) s'.threads;
      }))

unfoldable pub step_join : Location → ThreadId → FrameId → Str → MachineState → Result Fired
unfolding error_at frame_of write_frame block advance
step_join at tid fid handle s = do
  f ← frame_of s fid
  hid ← ok_or (get handle f.handles) (error_at (invalid_error e402) at)
  t ← unwrap (get tid s.threads)
  child ← ok_or (get hid t.handle_children) (error_at (invalid_error e402) at)
  if is_some (get child s.finished)
      then consume_child tid fid f t handle hid child s
      else fires (block tid (join hid) s)
