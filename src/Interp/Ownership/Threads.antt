-- ===== src/Interp/Ownership/Threads.antt =====
-- src/interp/exec.rs: returning, finishing and creating threads leave mutexes, semaphores and channels alone.
use conc_ir.Prelude.{
  refl, Option, none, some, List, [], ◌∷◌, get_last?, drop_last, length, is_empty, ltb, leb,
}
use conc_ir.Prelude.Map.{get, insert, remove, nat_key, list_key, pair_key}
use conc_ir.Prelude.Text.{Str}
use conc_ir.Sem.Outcome.{FunctionId, ThreadId, FrameId, ScopeId, unwrap}
use conc_ir.Sem.Value.{Value}
use conc_ir.Sem.Program.{SemFunction, function, is_transparent_nobody}
use conc_ir.Interp.State.{
  MachineState, ThreadState, Frame, RetAddr, ScopeState, frame_of, current_frame_id, advance,
  alloc_frame, finished, with_status,
}
use conc_ir.Interp.Access.{Interpreter, record_completion, complete}
use conc_ir.Interp.Threads.{
  keys_where, reclaim, reclaim_all, in_scope, complete_scope, leave_scope_of, leave_scope,
  drop_child, joins, unbind, unbind_joined, resume_joiner, resume_joiners, finish_thread,
  return_type_ok, ret_dst_ok, pop_frame, write_returned, return_to, return_to_caller, apply_return,
  create_thread, live_threads,
}
use conc_ir.Interp.Ownership.Relation.{
  Post, Opt, Kept, kept, Kept-if, same, then_same, Post-bind, Post-any, Post-map, Post-if, Post-ok,
}
use conc_ir.Interp.Ownership.Keeping.{
  with_status-Kept, set_runnable-Kept, advance-Kept, complete-Kept, write_frame-Kept,
  write_dst-Kept, record_completion-Kept, alloc_frame-Kept,
}

reclaim_all-Kept : (tids : List ThreadId) (s : MachineState) → Kept s (reclaim_all tids s)
unfolding reclaim_all
reclaim_all-Kept [] s = same s
reclaim_all-Kept (tid ∷ tids) s =
    then_same (kept refl refl refl) (reclaim_all-Kept tids (reclaim tid s))

complete_scope-Kept :
    (scope : ScopeId) (sc : ScopeState) (s : MachineState)
    → Post (Kept s) (complete_scope scope sc s)
unfolding complete_scope Post
complete_scope-Kept scope sc s = Post-any _ (frame_of s sc.owner_frame) _ (λ f.
    Post-bind _ (advance sc.owner _) _ (advance-Kept sc.owner _) (λ s' k.
      then_same (then_same (kept refl refl refl) (then_same (set_runnable-Kept sc.owner _) k)) (
        then_same (reclaim_all-Kept (keys_where (in_scope scope) s'.threads) s')
          (kept refl refl refl))))

leave_scope-Kept :
    (tid : ThreadId) (parent : Option ScopeId) (s : MachineState)
    → Post (Kept s) (leave_scope tid parent s)
unfolding Post
leave_scope-Kept tid none s = same s
leave_scope-Kept tid (some scope) s = known (get scope s.scopes)
  where
    known : (o : Option ScopeState) → Post (Kept s) (leave_scope_of tid scope o s)
    known none = same s
    known (some sc) =
        Post-if _ (is_empty (remove tid sc.remaining)) _ _
          (Post-map (complete_scope scope _ _) (complete_scope-Kept scope _ _)
            (λ s' k. then_same (kept refl refl refl) k))
          (kept refl refl refl)

drop_child-Kept :
    (tid j : ThreadId) (o : Option ThreadState) (s : MachineState) → Kept s (drop_child tid j o s)
drop_child-Kept tid j none s = same s
drop_child-Kept tid j (some t) s = kept refl refl refl

unbind-Kept :
    (jf : FrameId) (f : Frame) (o : Option Str) (s : MachineState) → Kept s (unbind jf f o s)
unbind-Kept jf f none s = same s
unbind-Kept jf f (some handle) s = write_frame-Kept jf _ s

unbind_joined-Kept :
    (it : Interpreter) (o : Option FrameId) (s : MachineState)
    → Post (Kept s) (unbind_joined it o s)
unfolding Post
unbind_joined-Kept it none s = same s
unbind_joined-Kept it (some jf) s =
    Post-any _ (frame_of s jf) _
      (λ f. Post-any _ (function it.program f.function) _ (λ func. unbind-Kept jf f _ s))

resume_joiner-Kept :
    (it : Interpreter) (tid j : ThreadId) (s : MachineState)
    → Post (Kept s) (resume_joiner it tid j s)
unfolding resume_joiner
resume_joiner-Kept it tid j s =
    let s' = drop_child tid j (get j s.threads) s in
    Post-bind _ (unbind_joined it (current_frame_id s' j) s') _ (unbind_joined-Kept it _ s')
      (λ s'' k.
        Post-map (complete j s'') (complete-Kept j s'')
          (λ s''' k'. then_same (then_same (drop_child-Kept tid j (get j s.threads) s) k) k'))

resume_joiners-Kept :
    (it : Interpreter) (tid : ThreadId) (js : List ThreadId) (s : MachineState)
    → Post (Kept s) (resume_joiners it tid js s)
unfolding resume_joiners Post
resume_joiners-Kept it tid [] s = same s
resume_joiners-Kept it tid (j ∷ js) s =
    Post-bind _ (resume_joiner it tid j s) _ (resume_joiner-Kept it tid j s) (λ s' k.
      Post-map (resume_joiners it tid js s') (resume_joiners-Kept it tid js s')
        (λ s'' k'. then_same k k'))

finish_thread-Kept :
    (it : Interpreter) (tid : ThreadId) (func : FunctionId) (s : MachineState)
    → Post (Kept s) (finish_thread it tid func s)
unfolding finish_thread
finish_thread-Kept it tid func s =
    let marked = with_status (get tid s.threads) tid finished s in
    let done =
      record_completion it func (record marked { finished = insert tid tt marked.finished }) in
    Post-any _ (unwrap (get tid done.threads)) _ (λ t.
      Post-bind _ (leave_scope tid t.parent_scope done) _ (leave_scope-Kept tid t.parent_scope done)
        (λ left k.
          Post-bind _ (resume_joiners it tid (keys_where (joins tid) left.threads) left) _
            (resume_joiners-Kept it tid _ left)
            (λ joined k'. Post-ok _ _ (
              then_same
                (then_same
                  (then_same (with_status-Kept (get tid s.threads) tid finished s) (
                    then_same (kept refl refl refl) (
                      record_completion-Kept it func
                        (record marked { finished = insert tid tt marked.finished }))))
                  (then_same k k'))
                (Kept-if (is_empty (keys_where (joins tid) left.threads)) _ _ (same joined)
                  (kept refl refl refl))))))

write_returned-Kept :
    (caller : FrameId) (ret : RetAddr) (val : Option Value) (s : MachineState)
    → Post (Kept s) (write_returned caller ret val s)
unfolding Post
write_returned-Kept caller ret none s = same s
write_returned-Kept caller ret (some v) s = write_dst-Kept caller ret.dst v s

return_to-Kept :
    (caller : FrameId) (ret : Option RetAddr) (val : Option Value) (s : MachineState)
    → Post (Kept s) (return_to caller ret val s)
unfolding Post
return_to-Kept caller none val s = same s
return_to-Kept caller (some ret) val s =
    Post-bind _ (write_returned caller ret val s) _ (write_returned-Kept caller ret val s)
      (λ s' k. Post-any _ (frame_of s' caller) _ (λ f. then_same k (write_frame-Kept caller _ s')))

return_to_caller-Kept :
    (it : Interpreter) (tid : ThreadId) (fid : FrameId) (func : FunctionId) (val : Option Value)
    (t : ThreadState) (s : MachineState)
    → Post (Opt (Kept s)) (return_to_caller it tid fid func val t s)
unfolding return_to_caller Post
return_to_caller-Kept it tid fid func val t s =
    Post-any _ (unwrap (get_last? (drop_last t.stack))) _ (λ caller.
      Post-any _ (frame_of s fid) _ (λ callee.
        Post-any _ (ret_dst_ok it s caller callee.ret val) _ (λ fits.
          Post-if _ fits _ _
            (Post-bind _ (return_to caller callee.ret val (pop_frame tid t fid s)) _
              (return_to-Kept caller callee.ret val _)
              (λ s' k.
                then_same (then_same (kept refl refl refl) k) (record_completion-Kept it func s')))
            tt)))

pub apply_return-Kept :
    (it : Interpreter) (tid : ThreadId) (fid : FrameId) (func : FunctionId) (f : SemFunction)
    (val : Option Value) (s : MachineState)
    → Post (Opt (Kept s)) (apply_return it tid fid func f val s)
unfolding apply_return Post
apply_return-Kept it tid fid func f val s =
    Post-if _ (return_type_ok f.returns val) _ _
      (Post-any _ (unwrap (get tid s.threads)) _ (λ t.
        Post-if _ (ltb 1 (length t.stack)) _ _ (return_to_caller-Kept it tid fid func val t s) (
          Post-bind _ (finish_thread it tid func (pop_frame tid t fid s)) _
            (finish_thread-Kept it tid func _) (λ s' k. then_same (kept refl refl refl) k))))
      tt

pub create_thread-Kept :
    (it : Interpreter) (func : FunctionId) (parent : Option ScopeId) (s : MachineState)
    → Post (Opt (λ (tid, s'). Kept s s')) (create_thread it func parent s)
unfolding create_thread Post
create_thread-Kept it func parent s =
    Post-if _ (leb it.bounds.max_threads (live_threads s)) _ _ tt (
      Post-any _ (function it.program func) _ (λ f.
        Post-if _ (is_transparent_nobody f) _ _
          (then_same (kept refl refl refl) (record_completion-Kept it func _))
          (Post-bind _ (alloc_frame it.program func _) _ (alloc_frame-Kept it.program func _)
            (λ (frame, s') k.
              then_same (then_same (kept refl refl refl) k)
                (then_same (write_frame-Kept frame.id frame s') (kept refl refl refl))))))
