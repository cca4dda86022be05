-- ===== src/Interp/State.antt =====
-- src/interp/state.rs: the machine state of the interpreter.
use conc_ir.Prelude.{
  ℕ, suc, ◌+◌, Bool, true, false, Option, none, some, List, [], ◌∷◌, get_last?, if◌then◌else◌,
}
use conc_ir.Prelude.Int.{ℤ}
use conc_ir.Prelude.Text.{Str}
use conc_ir.Prelude.Map.{Map, get, insert, nat_key, pair_key}
use conc_ir.Sem.Outcome.{
  FunctionId, ResourceId, ThreadId, FrameId, ScopeId, HandleId, SlotRef, local, shared, discard,
  Result, ok, ◌>>=◌, unwrap,
}
use conc_ir.Sem.Value.{Value, default_value}
use conc_ir.Sem.Eval.{ValueStore}
use conc_ir.Sem.Program.{
  SemProgram, SemResource, SemSlot, ResKind, var, atomic, mutex, rw_lock, channel, function,
  is_transparent_nobody,
}

pub data MutexState : Type 0 where
  free : MutexState
  held : ThreadId → MutexState

pub record PendingSend : Type 0 where
  pub thread : ThreadId
  pub value : Value

pub record ChannelState : Type 0 where
  pub buffer : List Value
  pub pending_send : List PendingSend
  pub pending_recv : List ThreadId

pub record CondvarState : Type 0 where
  pub waiters : List (ThreadId × ResourceId)

pub record RetAddr : Type 0 where
  pub pc_next : ℕ
  pub dst : SlotRef

pub record Frame : Type 0 where
  pub id : FrameId
  pub function : FunctionId
  pub pc : ℕ
  pub locals : Map ℕ Value
  pub handles : Map Str HandleId
  pub ret : Option RetAddr

pub record Store : Type 0 where
  pub vars : Map ResourceId Value
  pub atomics : Map ResourceId Value
  pub mutexes : Map ResourceId MutexState
  pub semaphores : Map ResourceId ℤ
  pub channels : Map ResourceId ChannelState
  pub condvars : Map ResourceId CondvarState
  pub frames : Map FrameId Frame

pub data BlockReason : Type 0 where
  lock : ResourceId → BlockReason
  channel_send : ResourceId → BlockReason
  channel_recv : ResourceId → BlockReason
  condvar : ResourceId → ResourceId → BlockReason
  semaphore : ResourceId → BlockReason
  join : HandleId → BlockReason
  scope : ScopeId → BlockReason

pub data ThreadStatus : Type 0 where
  runnable : ThreadStatus
  blocked : BlockReason → ThreadStatus
  finished : ThreadStatus

-- The top of the stack is its last element.
pub record ThreadState : Type 0 where
  pub id : ThreadId
  pub status : ThreadStatus
  pub stack : List FrameId
  pub entry_function : FunctionId
  pub handle_children : Map HandleId ThreadId
  pub parent_scope : Option ScopeId

abbrev pub current_frame : ThreadState → Option FrameId
current_frame t = get_last? t.stack

pub record ScopeState : Type 0 where
  pub id : ScopeId
  pub owner : ThreadId
  pub owner_frame : FrameId
  pub remaining : Map ThreadId (Unit {0})

pub record Alloc : Type 0 where
  pub next_thread : ℕ
  pub next_frame : ℕ
  pub next_scope : ℕ
  pub next_handle : ℕ

pub record MachineState : Type 0 where
  pub store : Store
  pub threads : Map ThreadId ThreadState
  pub sem_waiters : Map ResourceId (List (ThreadId × ℤ))
  pub scopes : Map ScopeId ScopeState
  pub finished : Map ThreadId (Unit {0})
  pub completed_functions : Map FunctionId ℕ
  pub completed_scopes : Map (FunctionId × ℕ) (Unit {0})
  pub reached : Map (FunctionId × ℕ) (Unit {0})
  pub alloc : Alloc

abbrev pub or_else {ℓ} : {A : Type ℓ} → Option A → Option A → Option A
or_else none b = b
or_else (some a) b = some a

unfoldable pub read_shared : Store → ResourceId → Option Value
read_shared s r = or_else (get r s.vars) (get r s.atomics)

abbrev pub is_some {ℓ} : {A : Type ℓ} → Option A → Bool
is_some none = false
is_some (some a) = true

unfoldable pub write_shared : ResourceId → Value → Store → Store
write_shared r v s =
    if is_some (get r s.vars)
    then record s { vars = insert r v s.vars }
    else record s { atomics = insert r v s.atomics }

-- `state.frame(id)`, which panics on an unknown frame.
unfoldable pub frame_of : MachineState → FrameId → Result Frame
frame_of s id = unwrap (get id s.store.frames)

abbrev pub with_store : MachineState → Store → MachineState
with_store s store = record s { store = store }

unfoldable pub write_frame : FrameId → Frame → MachineState → MachineState
write_frame id f s = with_store s (record s.store { frames = insert id f s.store.frames })

-- `FrameView`.
unfoldable pub frame_view : Frame → Store → ValueStore
unfolding read_shared
frame_view f store = record { get_slot = λ slot. get slot f.locals; get_shared = read_shared store }

unfoldable pub current_frame_id : MachineState → ThreadId → Option FrameId
current_frame_id s tid = elim (get tid s.threads) [ none ↦ none | some t ↦ current_frame t ]

-- Nothing happens where the thread is unknown.
abbrev pub with_status : Option ThreadState → ThreadId → ThreadStatus → MachineState → MachineState
with_status none tid status s = s
with_status (some t) tid status s = record s {
  threads = insert tid (record t { status = status }) s.threads;
}

unfoldable pub set_runnable : ThreadId → MachineState → MachineState
set_runnable tid s = with_status (get tid s.threads) tid runnable s

unfoldable pub block : ThreadId → BlockReason → MachineState → MachineState
block tid reason s = with_status (get tid s.threads) tid (blocked reason) s

abbrev pub advance_frame : Option FrameId → MachineState → Result MachineState
advance_frame none s = ok s
advance_frame (some fid) s = unwrap (get fid s.store.frames) >>= λ f. ok (
    with_store s
      (record s.store { frames = insert fid (record f { pc = f.pc + 1 }) s.store.frames }))

unfoldable pub advance : ThreadId → MachineState → Result MachineState
unfolding current_frame_id
advance tid s = advance_frame (current_frame_id s tid) s

unfoldable pub write_dst : FrameId → SlotRef → Value → MachineState → Result MachineState
unfolding write_frame frame_of write_shared
write_dst fid discard v s = ok s
write_dst fid (local slot) v s =
    frame_of s fid >>= λ f. ok (write_frame fid (record f { locals = insert slot v f.locals }) s)
write_dst fid (shared r) v s = ok (with_store s (write_shared r v s.store))

abbrev pub initial_value : SemSlot → Result Value
initial_value slot = elim slot.init [ none ↦ default_value slot.ty | some v ↦ ok v ]

unfoldable pub init_locals : ℕ → List SemSlot → Map ℕ Value → Result (Map ℕ Value)
init_locals i [] locals = ok locals
init_locals i (slot ∷ slots) locals =
    initial_value slot >>= λ v. init_locals (suc i) slots (insert i v locals)

abbrev pub bump_frame : Alloc → Alloc
bump_frame a = record a { next_frame = a.next_frame + 1 }

-- The new frame, and the state with the identity taken.
unfoldable pub alloc_frame : SemProgram → FunctionId → MachineState → Result (Frame × MachineState)
unfolding function init_locals
alloc_frame p func s = function p func >>= λ f. init_locals 0 f.slots [] >>= λ locals. ok (
  record {
    id = s.alloc.next_frame;
    function = func;
    pc = 0;
    locals = locals;
    handles = [];
    ret = none;
  },
  record s { alloc = bump_frame s.alloc },
)

abbrev pub empty_channel : ChannelState
empty_channel = record { buffer = []; pending_send = []; pending_recv = [] }

abbrev pub init_value : ResourceId → Option Value → Map ResourceId Value → Map ResourceId Value
init_value r none m = m
init_value r (some v) m = insert r v m

unfoldable pub init_resource : SemResource → Store → Store
init_resource r s = elim r.kind [
  | var ↦ record s { vars = init_value r.id r.init s.vars }
  | atomic ↦ record s { atomics = init_value r.id r.init s.atomics }
  | mutex ↦ record s { mutexes = insert r.id free s.mutexes }
  | ResKind.condvar ↦ record s { condvars = insert r.id (record { waiters = [] }) s.condvars }
  | ResKind.semaphore ↦ record s { semaphores = insert r.id r.permits s.semaphores }
  | channel ↦ record s { channels = insert r.id empty_channel s.channels }
  | rw_lock ↦ s
]

unfoldable pub init_resources : List SemResource → Store → Store
unfolding init_resource
init_resources [] s = s
init_resources (r ∷ rs) s = init_resources rs (init_resource r s)

abbrev pub empty_store : Store
empty_store = record {
  vars = [];
  atomics = [];
  mutexes = [];
  semaphores = [];
  channels = [];
  condvars = [];
  frames = [];
}

abbrev pub empty_state : Store → MachineState
empty_state store = record {
  store = store;
  threads = [];
  sem_waiters = [];
  scopes = [];
  finished = [];
  completed_functions = [];
  completed_scopes = [];
  reached = [];
  alloc = record { next_thread = 1; next_frame = 0; next_scope = 0; next_handle = 0 };
}

abbrev pub new_thread :
    ThreadId → ThreadStatus → List FrameId → FunctionId → Option ScopeId → ThreadState
new_thread tid status stack func parent = record {
  id = tid;
  status = status;
  stack = stack;
  entry_function = func;
  handle_children = [];
  parent_scope = parent;
}

-- `MachineState::initial`: one thread, 0, on the entry function.
unfoldable pub initial_state : SemProgram → Result MachineState
unfolding function init_resources is_transparent_nobody alloc_frame write_frame
initial_state p =
    let s = empty_state (init_resources p.resources empty_store) in
    function p p.entry >>= λ f.
    if is_transparent_nobody f
    then ok (record s {
      threads = insert 0 (new_thread 0 finished [] p.entry none) [];
      finished = insert 0 tt [];
      completed_functions = insert p.entry 1 [];
    })
    else (alloc_frame p p.entry s >>= λ (frame, s').
        let s'' = write_frame frame.id frame s' in
        ok (record s'' {
          threads = insert 0 (new_thread 0 runnable (frame.id ∷ []) p.entry none) s''.threads;
        }))
