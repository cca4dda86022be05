-- ===== src/Petri/Engine.antt =====
-- src/petri/exec.rs: the engine, and the helpers of a firing.
use conc_ir.Prelude.{
  ℕ, ◌+◌, ◌==◌, Bool, true, Option, none, some, List, [], ◌∷◌, get_elem?, ltb, if◌then◌else◌,
}
use conc_ir.Prelude.Map.{Map, get, insert, nat_key}
use conc_ir.Sem.Outcome.{
  FunctionId, ResourceId, ThreadId, FrameId, SlotRef, local, shared, discard, Result, ok, err,
  ◌>>=◌, unwrap, ok_or, AnalysisBounds, BoundaryEvent, BoundaryKind, Location, BackendError, Code,
  error_at, invalid_error, e602, e900,
}
use conc_ir.Sem.Value.{Value}
use conc_ir.Sem.Eval.{LExpr, Host}
use conc_ir.Sem.Eval
use conc_ir.Sem.Program.{SemProgram, SemOp, channel_recv, function, resource}
use conc_ir.Sem.Monitor.{MonitorConfig, max_for, get_or}
use conc_ir.Interp.Access.{within_slot, within_option}
use conc_ir.Petri.Net.{PlaceId, PlaceKey, place_key, Place, PetriNet}
use conc_ir.Petri.State.{
  NetToken, token_ids, NetFrame, NetThread, NetState, frame_of, put, set_data, net_frame_view,
  shared_place,
}

-- `PetriEngine`, with the host's arithmetic.
pub record Engine : Type 0 where
  pub program : SemProgram
  pub net : PetriNet
  pub bounds : AnalysisBounds
  pub monitor : MonitorConfig
  pub host : Host

-- What a firing yields: the next state where it is enabled, and the boundary events it met.
pub record Fired : Type 0 where
  pub next : Option NetState
  pub boundary : List BoundaryEvent

abbrev pub disabled : Result Fired
disabled = ok (record { next = none; boundary = [] })

abbrev pub fires : NetState → Result Fired
fires s = ok (record { next = some s; boundary = [] })

abbrev pub limited : BoundaryKind → Result Fired
limited kind = ok (record { next = none; boundary = record { kind = kind } ∷ [] })

-- The rest of a firing that a missing token or a rejected value disables.
abbrev pub if_some : (NetState → Result Fired) → Option NetState → Result Fired
if_some rest none = disabled
if_some rest (some s) = rest s

abbrev pub located : Option Location → BackendError → BackendError
located none e = e
located (some at) e = error_at e at

abbrev pub fails_at {ℓ} : {A : Type ℓ} → Code → Option Location → Result A
fails_at code at = err (located at (invalid_error code))

abbrev pub with_threads : NetState → Map ThreadId NetThread → NetState
with_threads s threads = record s { store = record s.store { threads = threads } }

abbrev pub with_frames : NetState → Map FrameId NetFrame → NetState
with_frames s frames = record s { store = record s.store { frames = frames } }

unfoldable pub record_completion : Engine → FunctionId → NetState → NetState
unfolding max_for
record_completion eng func s =
    let max = max_for eng.monitor func in
    let count = get_or (get func s.store.completed_functions) 0 in
    if max == 0 then s else record s {
      store = record s.store {
        completed_functions =
            insert func (if ltb count max then count + 1 else count) s.store.completed_functions;
      };
    }

unfoldable pub place : Engine → PlaceKey → Option PlaceId
place eng key = get key eng.net.place_of

unfoldable pub ctrl : Engine → FunctionId → ℕ → Option PlaceId
unfolding place
ctrl eng f sid = place eng (PlaceKey.control f sid)

unfoldable pub eval_in : Engine → NetState → FrameId → LExpr → Result Value
unfolding frame_of net_frame_view Eval.eval
eval_in eng s fid e = frame_of s fid >>= λ f. Eval.eval e eng.host (net_frame_view eng.net f s)

abbrev pub write_blocked_at : ThreadId → Option PlaceKey → Option NetThread → NetState → NetState
write_blocked_at tid key none s = s
write_blocked_at tid key (some t) s =
    with_threads s (insert tid (record t { blocked_at = key }) s.store.threads)

unfoldable pub set_blocked : ThreadId → PlaceKey → NetState → NetState
set_blocked tid key s = write_blocked_at tid (some key) (get tid s.store.threads) s

unfoldable pub clear_blocked : ThreadId → NetState → NetState
clear_blocked tid s = write_blocked_at tid none (get tid s.store.threads) s

-- The program counter that a control place stands for.
abbrev pub control_sid : Option Place → Option ℕ
control_sid none = none
control_sid (some p) = elim p.key [ PlaceKey.control f sid ↦ some sid | _ ↦ none ]

abbrev pub write_pc : FrameId → Option ℕ → Option NetFrame → NetState → NetState
write_pc fid (some sid) (some f) s =
    with_frames s (insert fid (record f { pc = sid }) s.store.frames)
write_pc fid _ _ s = s

-- A control token, with the frame's program counter in step with the place.
unfoldable pub place_control : Engine → PlaceId → ThreadId → FrameId → NetState → NetState
unfolding put
place_control eng pid tid fid s =
    put pid (NetToken.control tid fid)
      (write_pc fid (control_sid (get_elem? eng.net.places pid)) (get fid s.store.frames) s)

unfoldable pub put_control_next : Engine → NetToken → NetState → Result NetState
unfolding token_ids frame_of ctrl place_control clear_blocked
put_control_next eng token s = do
  (tid, fid) ← unwrap (token_ids token)
  f ← frame_of s fid
  pid ← ok_or (ctrl eng f.function (f.pc + 1)) (invalid_error e602)
  ok (clear_blocked tid (place_control eng pid tid fid s))

-- A control token at a place that may be missing.
abbrev pub place_if : Engine → Option PlaceId → ThreadId → FrameId → NetState → NetState
place_if eng none tid fid s = s
place_if eng (some pid) tid fid s = place_control eng pid tid fid s

abbrev pub wake_next : Engine → Option (ThreadId × FrameId) → NetState → Result NetState
wake_next eng none s = ok s
wake_next eng (some (tid, fid)) s = do
  f ← frame_of s fid
  ok (clear_blocked tid (place_if eng (ctrl eng f.function (f.pc + 1)) tid fid s))

unfoldable pub wake_control_next : Engine → NetToken → NetState → Result NetState
unfolding token_ids frame_of ctrl place_control clear_blocked
wake_control_next eng token s = wake_next eng (token_ids token) s

unfoldable pub payload_ok : Engine → ResourceId → Value → Result Bool
unfolding resource
payload_ok eng c v = do res ← resource eng.program c; ok (within_option res.ty v)

abbrev pub slot_type_ok : Engine → Option NetFrame → ℕ → Value → Result Bool
slot_type_ok eng none slot v = ok true
slot_type_ok eng (some f) slot v = do
  func ← function eng.program f.function
  ok (within_slot (get_elem? func.slots slot) v)

unfoldable pub dst_type_ok : Engine → NetState → FrameId → SlotRef → Value → Result Bool
unfolding function resource
dst_type_ok eng s fid discard v = ok true
dst_type_ok eng s fid (local slot) v = slot_type_ok eng (get fid s.store.frames) slot v
dst_type_ok eng s fid (shared r) v = do res ← resource eng.program r; ok (within_option res.ty v)

unfoldable pub write_local : FrameId → ℕ → Value → NetState → Result NetState
unfolding frame_of
write_local fid slot v s = do
  f ← frame_of s fid
  ok (with_frames s (insert fid (record f { locals = insert slot v f.locals }) s.store.frames))

abbrev pub write_checked : Engine → FrameId → SlotRef → Value → NetState → Result NetState
write_checked eng fid discard v s = ok s
write_checked eng fid (local slot) v s = write_local fid slot v s
write_checked eng fid (shared r) v s = do
  pid ← ok_or (shared_place eng.net r) (invalid_error e900)
  ok (set_data pid v s)

-- `none`: the value lies outside the destination's domain, and nothing is written.
unfoldable pub write_dst : Engine → FrameId → SlotRef → Value → NetState → Result (Option NetState)
unfolding dst_type_ok write_local shared_place set_data
write_dst eng fid dst v s = do
  fits ← dst_type_ok eng s fid dst v
  if fits then (do s' ← write_checked eng fid dst v s; ok (some s')) else ok none

unfoldable pub current_stmt : Engine → NetState → FrameId → Result SemOp
unfolding frame_of function
current_stmt eng s fid = do
  f ← frame_of s fid
  func ← function eng.program f.function
  stmt ← unwrap (get_elem? func.body f.pc)
  ok stmt.op

unfoldable pub recv_dst : Engine → NetState → FrameId → Result (Option SlotRef)
unfolding current_stmt
recv_dst eng s fid = do
  op ← current_stmt eng s fid
  ok (elim op [ channel_recv r dst ↦ some dst | _ ↦ none ])

-- A received value goes to the destination of the receiver's statement, if it has one. A write to
-- `_` writes nothing.
abbrev pub deliver : Engine → FrameId → Option SlotRef → Value → NetState → Result (Option NetState)
deliver eng fid none v s = ok (some s)
deliver eng fid (some dst) v s = elim dst [
  | discard ↦ ok (some s)
  | other ↦ write_dst eng fid other v s
]

unfoldable pub deliver_to : Engine → FrameId → Value → NetState → Result (Option NetState)
unfolding recv_dst write_dst
deliver_to eng fid v s = do dst ← recv_dst eng s fid; deliver eng fid dst v s

-- The end of a firing whose control token moves to `t.next`.
unfoldable pub move_on : Engine → Option PlaceId → ThreadId → FrameId → NetState → Result Fired
unfolding place_control
move_on eng out tid fid s = do pid ← unwrap out; fires (place_control eng pid tid fid s)

-- A token that waits at `t.next`, and its thread marked as blocked there.
unfoldable pub wait_at : Option PlaceId → NetToken → ThreadId → PlaceKey → NetState → Result Fired
unfolding put set_blocked
wait_at out token tid key s = do pid ← unwrap out; fires (set_blocked tid key (put pid token s))
