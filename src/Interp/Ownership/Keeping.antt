-- ===== src/Interp/Ownership/Keeping.antt =====
-- src/interp: the operations of state.rs and exec.rs that leave mutexes, semaphores and channels alone.
use conc_ir.Prelude.{ℕ, ◌==◌, refl, Bool, true, false, Option, none, some, [], if◌then◌else◌}
use conc_ir.Prelude.Map.{get, insert, nat_key, list_key, pair_key}
use conc_ir.Sem.Outcome.{FunctionId, ThreadId, FrameId, SlotRef, local, shared, discard, unwrap}
use conc_ir.Sem.Value.{Value}
use conc_ir.Sem.Monitor.{max_for}
use conc_ir.Sem.Program.{SemProgram, function}
use conc_ir.Interp.State.{
  MachineState, ThreadState, ThreadStatus, Frame, BlockReason, frame_of, write_frame,
  current_frame_id, with_status, set_runnable, block, advance_frame, advance, write_shared,
  write_dst, alloc_frame, init_locals, is_some,
}
use conc_ir.Interp.Access.{
  Interpreter, record_completion, dst_type_ok, try_write_dst, complete, recv_dst_of, deliver,
  deliver_to_recv,
}
use conc_ir.Interp.Ownership.Relation.{
  Post, Opt, Kept, kept, Kept-if, same, then_same, Post-bind, Post-any, Post-map, Post-if,
}

pub with_status-Kept :
    (o : Option ThreadState) (tid : ThreadId) (status : ThreadStatus) (s : MachineState)
    → Kept s (with_status o tid status s)
with_status-Kept none tid status s = same s
with_status-Kept (some t) tid status s = kept refl refl refl

pub set_runnable-Kept : (tid : ThreadId) (s : MachineState) → Kept s (set_runnable tid s)
unfolding set_runnable
set_runnable-Kept tid s = with_status-Kept (get tid s.threads) tid _ s

pub block-Kept :
    (tid : ThreadId) (reason : BlockReason) (s : MachineState) → Kept s (block tid reason s)
unfolding block
block-Kept tid reason s = with_status-Kept (get tid s.threads) tid _ s

advance_frame-Kept : (o : Option FrameId) (s : MachineState) → Post (Kept s) (advance_frame o s)
unfolding Post
advance_frame-Kept none s = same s
advance_frame-Kept (some fid) s =
    Post-any _ (unwrap (get fid s.store.frames)) _ (λ f. kept refl refl refl)

pub advance-Kept : (tid : ThreadId) (s : MachineState) → Post (Kept s) (advance tid s)
unfolding advance
advance-Kept tid s = advance_frame-Kept (current_frame_id s tid) s

pub complete-Kept : (tid : ThreadId) (s : MachineState) → Post (Kept s) (complete tid s)
unfolding complete
complete-Kept tid s =
    Post-map (advance tid (set_runnable tid s)) (advance-Kept tid _)
      (λ s' k. then_same (set_runnable-Kept tid s) k)

pub write_frame-Kept : (fid : FrameId) (f : Frame) (s : MachineState) → Kept s (write_frame fid f s)
unfolding write_frame
write_frame-Kept fid f s = kept refl refl refl

write_shared-Kept :
    (r : ℕ) (v : Value) (s : MachineState) → Kept s (record s { store = write_shared r v s.store })
unfolding write_shared
write_shared-Kept r v s = choose (is_some (get r s.store.vars))
  where
    choose :
        (b : Bool)
        → Kept s (record s {
          store =
              if b
              then record s.store { vars = insert r v s.store.vars }
              else record s.store { atomics = insert r v s.store.atomics };
        })
    choose true = kept refl refl refl
    choose false = kept refl refl refl

pub write_dst-Kept :
    (fid : FrameId) (dst : SlotRef) (v : Value) (s : MachineState)
    → Post (Kept s) (write_dst fid dst v s)
unfolding write_dst Post
write_dst-Kept fid discard v s = same s
write_dst-Kept fid (local slot) v s = Post-any _ (frame_of s fid) _ (λ f. write_frame-Kept fid _ s)
write_dst-Kept fid (shared r) v s = write_shared-Kept r v s

pub try_write-Kept :
    (it : Interpreter) (fid : FrameId) (dst : SlotRef) (v : Value) (s : MachineState)
    → Post (Opt (Kept s)) (try_write_dst it fid dst v s)
unfolding try_write_dst Post
try_write-Kept it fid dst v s = Post-any _ (dst_type_ok it s fid dst v) _ (λ fits.
    Post-if _ fits _ _
      (Post-bind _ (write_dst fid dst v s) _ (write_dst-Kept fid dst v s) (λ s' k. k)) tt)

deliver-Kept :
    (it : Interpreter) (dst : Option SlotRef) (fid : Option FrameId) (v : Value) (s : MachineState)
    → Post (Opt (Kept s)) (deliver it dst fid v s)
unfolding Post
deliver-Kept it (some dst) (some fid) v s = try_write-Kept it fid dst v s
deliver-Kept it (some dst) none v s = same s
deliver-Kept it none fid v s = same s

pub deliver_to_recv-Kept :
    (it : Interpreter) (recv : ThreadId) (v : Value) (s : MachineState)
    → Post (Opt (Kept s)) (deliver_to_recv it recv v s)
unfolding deliver_to_recv
deliver_to_recv-Kept it recv v s =
    Post-any _ (recv_dst_of it s recv) _ (λ dst. deliver-Kept it dst (current_frame_id s recv) v s)

pub record_completion-Kept :
    (it : Interpreter) (func : FunctionId) (s : MachineState) → Kept s (record_completion it func s)
unfolding record_completion
record_completion-Kept it func s =
    Kept-if (max_for it.monitor func == 0) _ _ (same s) (kept refl refl refl)

pub alloc_frame-Kept :
    (p : SemProgram) (func : FunctionId) (s : MachineState)
    → Post (λ (frame, s'). Kept s s') (alloc_frame p func s)
unfolding alloc_frame Post
alloc_frame-Kept p func s =
    Post-any _ (function p func) _
      (λ f. Post-any _ (init_locals 0 f.slots []) _ (λ locals. kept refl refl refl))
