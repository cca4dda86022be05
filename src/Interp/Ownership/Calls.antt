-- ===== src/Interp/Ownership/Calls.antt =====
-- src/interp/exec.rs: calls, spawns, scopes, joins and control leave mutexes, semaphores and channels alone.
use conc_ir.Prelude.{
  ℕ, refl, leb, Option, none, some, List, [], ◌∷◌, is_empty, length, if◌then◌else◌,
}
use conc_ir.Prelude.Text.{Str}
use conc_ir.Prelude.Map.{Map, get, nat_key, list_key, pair_key}
use conc_ir.Sem.Outcome.{
  FunctionId, ThreadId, FrameId, ScopeId, SlotId, SlotRef, Location, BoundaryKind, frame_limit,
  thread_limit, e201, e402, error_at, invalid_error, ok, ◌>>=◌, unwrap, ok_or,
}
use conc_ir.Sem.Value.{Value, as_bool}
use conc_ir.Sem.Eval.{LExpr}
use conc_ir.Sem.Program.{SemFunction, function, is_transparent_nobody}
use conc_ir.Interp.State.{MachineState, join, scope, is_some, frame_of, write_frame, alloc_frame}
use conc_ir.Interp.Access.{Interpreter, if_written, fires, eval_in}
use conc_ir.Interp.Threads.{apply_return, within_function_bound, create_thread}
use conc_ir.Interp.Calls.{
  limited, modeled_params, eval_all, args_ok, enter_callee, step_call, bind_handle, bump_scope,
  spawned, step_spawn, all_within_bound, Members, add_member, start_members, started, step_scope,
  step_join,
}
use conc_ir.Interp.Step.{jump, step_branch, switch_target, step_switch, eval_returned, step_return}
use conc_ir.Interp.Ownership.Relation.{
  Post, Every, Opt, Fires, Kept, kept, then_same, Post-bind, Post-any, Post-if, Post-ok,
}
use conc_ir.Interp.Ownership.Keeping.{
  block-Kept, write_frame-Kept, record_completion-Kept, alloc_frame-Kept,
}
use conc_ir.Interp.Ownership.Threads.{apply_return-Kept, create_thread-Kept}
use conc_ir.Interp.Ownership.Respect.{
  Respects, keeps, fires_ok, disabled_ok, error_ok, if_written_ok, step_on-Respects,
}

module _ (it : Interpreter) (tid : ThreadId) where
  limited-Respects :
      (kind : BoundaryKind) (s : MachineState) → Post (Fires (Respects it tid s)) (limited kind)
  unfolding Every
  limited-Respects kind s = Post-ok _ _ tt

  enter_callee-Respects :
      (pc : ℕ) (func : FunctionId) (params : List SlotId) (values : List Value)
      (dst : Option SlotRef) (s : MachineState)
      → Post (Fires (Respects it tid s)) (enter_callee it tid pc func params values dst s)
  unfolding enter_callee write_frame
  enter_callee-Respects pc func params values dst s =
      Post-bind _ (alloc_frame it.program func s) _ (alloc_frame-Kept it.program func s)
        (λ (frame, s') k.
          Post-any _ (unwrap _) _ (λ t. fires_ok _ _ (keeps (then_same k (kept refl refl refl)))))

  pub call-Respects :
      (fid : FrameId) (pc : ℕ) (func : FunctionId) (args : List LExpr) (dst : Option SlotRef)
      (s : MachineState)
      → Post (Fires (Respects it tid s)) (step_call it tid fid pc func args dst s)
  unfolding step_call
  call-Respects fid pc func args dst s = Post-any _ (function it.program func) _ (λ callee.
      Post-if _ (is_transparent_nobody callee) _ _
        (step_on-Respects tid _ (keeps (record_completion-Kept it func s)))
        (Post-any _ (unwrap (get tid s.threads)) _ (λ t.
          Post-if _ (leb it.bounds.max_frames_per_thread (length t.stack)) _ _
            (limited-Respects frame_limit s)
            (Post-any _ (eval_all it s fid args) _ (λ values.
              Post-any _ (args_ok callee.slots (modeled_params 0 callee.slots) values) _ (λ fits.
                Post-if _ fits _ _
                  (enter_callee-Respects pc func (modeled_params 0 callee.slots) values dst s)
                  (disabled_ok _)))))))

  bind_handle-Kept :
      (fid : FrameId) (handle : Str) (child : ThreadId) (s : MachineState)
      → Post (Kept s) (bind_handle tid fid handle child s)
  bind_handle-Kept fid handle child s = Post-any _ (frame_of s fid) _ (λ f.
      Post-any _ (unwrap _) _ (λ t. Post-ok _ _ (
        then_same (then_same (kept refl refl refl) (write_frame-Kept fid _ _))
          (kept refl refl refl))))

  spawned-Respects :
      (fid : FrameId) (handle : Str) (o : Option (ThreadId × MachineState)) (s : MachineState)
      → Opt (λ (child, s'). Kept s s') o
      → Post (Fires (Respects it tid s)) (spawned tid fid handle o)
  spawned-Respects fid handle none s k = limited-Respects thread_limit s
  spawned-Respects fid handle (some (child, s')) s k =
      Post-bind _ (bind_handle tid fid handle child s') _ (bind_handle-Kept fid handle child s')
        (λ s'' k'. step_on-Respects tid s'' (keeps (then_same k k')))

  pub spawn-Respects :
      (fid : FrameId) (func : FunctionId) (handle : Str) (s : MachineState)
      → Post (Fires (Respects it tid s)) (step_spawn it tid fid func handle s)
  unfolding step_spawn
  spawn-Respects fid func handle s = Post-any _ (within_function_bound it s func) _ (λ fits.
      Post-if _ fits _ _
        (Post-bind _ (create_thread it func none s) _ (create_thread-Kept it func none s)
          (λ o k. spawned-Respects fid handle o s k))
        (disabled_ok _))

  start_members-Kept :
      (id : ScopeId) (funcs : List FunctionId) (remaining : Members) (s s' : MachineState)
      → Kept s s'
      → Post (Opt (λ (members, s''). Kept s s'')) (start_members it id funcs remaining s')
  unfolding start_members
  start_members-Kept id [] remaining s s' k = Post-ok _ _ k
  start_members-Kept id (func ∷ funcs) remaining s s' k =
      Post-bind _ (create_thread it func (some id) s') _ (create_thread-Kept it func (some id) s')
        (λ o k'.
          members-Kept (λ remaining' s'' k''. start_members-Kept id funcs remaining' s s'' k'') o
            k')
    where
      members-Kept :
          ((remaining' : Members) (s'' : MachineState)
            → Kept s s''
            → Post (Opt (λ (members, s''). Kept s s'')) (start_members it id funcs remaining' s''))
          → (o : Option (ThreadId × MachineState)) → Opt (λ (child, s''). Kept s' s'') o
          → Post (Opt (λ (members, s''). Kept s s'')) (elim o [
            | none ↦ ok none
            | some (child, s'') ↦ add_member child remaining s'' >>= λ remaining'.
                start_members it id funcs remaining' s''
          ])
      members-Kept go none k' = Post-ok _ _ tt
      members-Kept go (some (child, s'')) k' =
          Post-any _ (add_member child remaining s'') _
            (λ remaining'. go remaining' s'' (then_same k k'))

  started-Respects :
      (fid : FrameId) (func : FunctionId) (pc : ℕ) (id : ScopeId)
      (o : Option (Members × MachineState)) (s : MachineState)
      → Opt (λ (members, s'). Kept s s') o
      → Post (Fires (Respects it tid s)) (started tid fid func pc id o)
  started-Respects fid func pc id none s k = limited-Respects thread_limit s
  started-Respects fid func pc id (some (remaining, s')) s k =
      Post-if _ (is_empty remaining) _ _
        (step_on-Respects tid _ (keeps (then_same k (kept refl refl refl))))
        (fires_ok _ _
          (keeps (then_same (then_same k (kept refl refl refl)) (block-Kept tid (scope id) _))))

  pub scope-Respects :
      (at : Location) (fid : FrameId) (func : FunctionId) (pc : ℕ) (funcs : List FunctionId)
      (s : MachineState)
      → Post (Fires (Respects it tid s)) (step_scope it at tid fid func pc funcs s)
  unfolding step_scope
  scope-Respects at fid func pc funcs s =
      let id = s.alloc.next_scope in
      let s' = record s { alloc = bump_scope s.alloc } in
      Post-if _ (is_empty funcs) _ _ (error_ok _ _) (
        Post-any _ (all_within_bound it s funcs) _ (λ fits.
          Post-if _ fits _ _
            (Post-bind _ (start_members it id funcs [] s') _
              (start_members-Kept id funcs [] s s' (kept refl refl refl))
              (λ o k. started-Respects fid func pc id o s k))
            (disabled_ok _)))

  pub join-Respects :
      (at : Location) (fid : FrameId) (handle : Str) (s : MachineState)
      → Post (Fires (Respects it tid s)) (step_join at tid fid handle s)
  unfolding step_join write_frame
  join-Respects at fid handle s = Post-any _ (frame_of s fid) _ (λ f.
      Post-any _ (ok_or (get handle f.handles) (error_at (invalid_error e402) at)) _ (λ hid.
        Post-any _ (unwrap (get tid s.threads)) _ (λ t.
          Post-any _ (ok_or (get hid t.handle_children) (error_at (invalid_error e402) at)) _
            (λ child.
              Post-if _ (is_some (get child s.finished)) _ _
                (step_on-Respects tid _ (keeps (kept refl refl refl)))
                (fires_ok _ _ (keeps (block-Kept tid (join hid) s)))))))

  pub jump-Respects :
      (fid : FrameId) (target : ℕ) (s : MachineState)
      → Post (Fires (Respects it tid s)) (jump fid target s)
  unfolding jump
  jump-Respects fid target s =
      Post-any _ (frame_of s fid) _ (λ f. fires_ok _ _ (keeps (write_frame-Kept fid _ s)))

  pub branch-Respects :
      (at : Location) (fid : FrameId) (cond : LExpr) (t e : ℕ) (s : MachineState)
      → Post (Fires (Respects it tid s)) (step_branch it at fid cond t e s)
  unfolding step_branch
  branch-Respects at fid cond t e s = Post-any _ (eval_in it s fid cond) _ (λ v.
      Post-any _ (ok_or (as_bool v) (error_at (invalid_error e201) at)) _
        (λ taken. jump-Respects fid (if taken then t else e) s))

  pub switch-Respects :
      (at : Location) (fid : FrameId) (e : LExpr) (cases : Map Str ℕ) (default : ℕ)
      (s : MachineState)
      → Post (Fires (Respects it tid s)) (step_switch it at fid e cases default s)
  unfolding step_switch
  switch-Respects at fid e cases default s = Post-any _ (eval_in it s fid e) _ (λ v.
      Post-any _ (switch_target it.host at cases default v) _
        (λ target. jump-Respects fid target s))

  pub returned-Respects :
      (fid : FrameId) (func : FunctionId) (f : SemFunction) (val : Option Value) (s : MachineState)
      → Post
          (Fires (Respects it tid s))
          (apply_return it tid fid func f val s >>= λ o. if_written fires o)
  returned-Respects fid func f val s =
      Post-bind _ (apply_return it tid fid func f val s) _
        (apply_return-Kept it tid fid func f val s)
        (λ o k. if_written_ok _ fires o k (λ s' k'. fires_ok _ s' (keeps k')))

  pub return-Respects :
      (fid : FrameId) (func : FunctionId) (f : SemFunction) (value : Option LExpr)
      (s : MachineState)
      → Post (Fires (Respects it tid s)) (step_return it tid fid func f value s)
  unfolding step_return
  return-Respects fid func f value s =
      Post-any _ (eval_returned it s fid value) _ (λ val. returned-Respects fid func f val s)
