-- ===== src/Interp/Access.antt =====
-- src/interp/exec.rs: the helpers of a step that read and write values under the declared domains.
use conc_ir.Prelude.{
  ℕ, ◌+◌, ◌==◌, Bool, true, false, Option, none, some, List, [], ◌∷◌, get_elem?, ltb, if◌then◌else◌,
}
use conc_ir.Prelude.Int.{ℤ, pos, ltb_ℤ}
use conc_ir.Prelude.Map.{get, insert, nat_key}
use conc_ir.Sem.Outcome.{
  FunctionId, ResourceId, ThreadId, FrameId, SlotRef, local, shared, discard, Result, ok, ◌>>=◌,
  AnalysisBounds, BoundaryEvent, StepLabel, statement,
}
use conc_ir.Sem.Value.{Value, BaseType, within_type}
use conc_ir.Sem.Eval.{LExpr, Host}
use conc_ir.Sem.Eval
use conc_ir.Sem.Program.{
  SemProgram, channel_recv, SemSlot, SemStmt, function, resource, mutex, semaphore,
}
use conc_ir.Sem.Monitor.{MonitorConfig, max_for, get_or}
use conc_ir.Interp.State.{
  MachineState, MutexState, held, frame_of, frame_view, current_frame_id, set_runnable, advance,
  write_dst,
}

-- `Interpreter`, with the host's arithmetic.
pub record Interpreter : Type 0 where
  pub program : SemProgram
  pub bounds : AnalysisBounds
  pub monitor : MonitorConfig
  pub host : Host

-- What a step yields: its successor states and the boundary events it met.
pub record Fired : Type 0 where
  pub states : List MachineState
  pub boundary : List BoundaryEvent

-- A step that is not enabled; a step with one successor.
abbrev pub disabled : Result Fired
disabled = ok (record { states = []; boundary = [] })

abbrev pub fires : MachineState → Result Fired
fires s = ok (record { states = s ∷ []; boundary = [] })

abbrev pub fires_all : List MachineState → Result Fired
fires_all ss = ok (record { states = ss; boundary = [] })

-- The rest of a step whose checked write may have disabled it.
abbrev pub if_written : (MachineState → Result Fired) → Option MachineState → Result Fired
if_written rest none = disabled
if_written rest (some s) = rest s

unfoldable pub eval_in : Interpreter → MachineState → FrameId → LExpr → Result Value
unfolding frame_of frame_view Eval.eval
eval_in it s fid e = frame_of s fid >>= λ f. Eval.eval e it.host (frame_view f s.store)

unfoldable pub record_completion : Interpreter → FunctionId → MachineState → MachineState
unfolding max_for
record_completion it func s =
    let max = max_for it.monitor func in
    let count = get_or (get func s.completed_functions) 0 in
    if max == 0 then s else record s {
      completed_functions =
          insert func (if ltb count max then count + 1 else count) s.completed_functions;
    }

abbrev pub within_slot : Option SemSlot → Value → Bool
within_slot none v = true
within_slot (some slot) v = within_type slot.ty v

abbrev pub within_option : Option BaseType → Value → Bool
within_option none v = true
within_option (some ty) v = within_type ty v

unfoldable pub dst_type_ok : Interpreter → MachineState → FrameId → SlotRef → Value → Result Bool
unfolding function resource frame_of
dst_type_ok it s fid discard v = ok true
dst_type_ok it s fid (local slot) v = do
  f ← frame_of s fid
  func ← function it.program f.function
  ok (within_slot (get_elem? func.slots slot) v)
dst_type_ok it s fid (shared r) v = do res ← resource it.program r; ok (within_option res.ty v)

-- `none`: the value lies outside the destination's domain, and nothing is written.
unfoldable pub try_write_dst :
    Interpreter → FrameId → SlotRef → Value → MachineState → Result (Option MachineState)
unfolding dst_type_ok write_dst
try_write_dst it fid dst v s = do
  fits ← dst_type_ok it s fid dst v
  if fits then (do s' ← write_dst fid dst v s; ok (some s')) else ok none

unfoldable pub complete : ThreadId → MachineState → Result MachineState
unfolding set_runnable advance
complete tid s = advance tid (set_runnable tid s)

abbrev pub recv_dst : Option SemStmt → Option SlotRef
recv_dst none = none
recv_dst (some stmt) = elim stmt.op [ channel_recv r dst ↦ some dst | _ ↦ none ]

unfoldable pub recv_dst_of : Interpreter → MachineState → ThreadId → Result (Option SlotRef)
unfolding frame_of function
recv_dst_of it s tid = elim (current_frame_id s tid) [
  | none ↦ ok none
  | some fid ↦ do
    f ← frame_of s fid
    func ← function it.program f.function
    ok (recv_dst (get_elem? func.body f.pc))
]

abbrev pub deliver :
    Interpreter
    → Option SlotRef
    → Option FrameId
    → Value
    → MachineState
    → Result (Option MachineState)
deliver it (some dst) (some fid) v s = try_write_dst it fid dst v s
deliver it _ _ v s = ok (some s)

-- `none`: the receiver's destination rejects the value.
unfoldable pub deliver_to_recv :
    Interpreter → ThreadId → Value → MachineState → Result (Option MachineState)
unfolding recv_dst_of try_write_dst
deliver_to_recv it recv v s = do
  dst ← recv_dst_of it s recv
  deliver it dst (current_frame_id s recv) v s

abbrev pub holds_mutex : ThreadId → Option MutexState → Bool
holds_mutex tid (some (held h)) = h == tid
holds_mutex tid _ = false

abbrev pub permits_of : Option ℤ → ℤ
permits_of none = pos 0
permits_of (some n) = n

-- Whether `tid` holds the resource, in a program where it exists.
unfoldable pub thread_holds : Interpreter → MachineState → ThreadId → ResourceId → Result Bool
unfolding resource
thread_holds it s tid r = do
  res ← resource it.program r
  ok (elim res.kind [
    | mutex ↦ holds_mutex tid (get r s.store.mutexes)
    | semaphore ↦ ltb_ℤ (permits_of (get r s.store.semaphores)) res.permits
    | _ ↦ false
  ])

unfoldable pub step_label : Interpreter → FunctionId → ℕ → ThreadId → FrameId → Result StepLabel
unfolding function
step_label it func sid tid fid = do
  f ← function it.program func
  ok (record {
    origin = record { module_id = f.module_id; function = func; sid = some sid; phase = statement };
    thread = some tid;
    frame = some fid;
  })
