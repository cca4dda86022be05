-- ===== src/Petri/Safety/Calls.antt =====
-- src/petri/exec.rs: firing calls, returns, spawned threads, scopes and joins leaves the places of
-- mutexes, semaphores and channels alone.
use conc_ir.Prelude.{
  ◌==◌, refl, Option, none, some, List, [], ◌∷◌, length, is_empty, get_last?, drop_last, leb,
}
use conc_ir.Prelude.Text.{Str}
use conc_ir.Prelude.Map.{Map, get, nat_key, list_key, pair_key}
use conc_ir.Sem.Outcome.{
  FunctionId, ThreadId, FrameId, ScopeId, SlotId, SlotRef, Location, ok, ◌>>=◌, unwrap,
}
use conc_ir.Sem.Value.{Value}
use conc_ir.Sem.Eval.{LExpr}
use conc_ir.Sem.Program.{function}
use conc_ir.Interp.Ownership.Relation.{Post, Opt, Post-bind, Post-any, Post-map, Post-if}
use conc_ir.Petri.Net.{PlaceId, PlaceKey}
use conc_ir.Petri.State.{NetRetAddr, NetState, frame_of, default_locals, modeled_params}
use conc_ir.Petri.Engine.{Engine, ctrl, place}
use conc_ir.Petri.Threads.{
  with_store, create_thread, within_bound, drop_child, unbind, finish_thread,
}
use conc_ir.Petri.Calls.{
  eval_all, args_ok, push_callee, fire_call, bind_handle, spawned, fire_spawn, all_within_bound,
  note_child, create_members, open_scope, bump_scope, fire_scope, find_child, is_done, is_running,
  fire_join_ready, fire_join_block, eval_returned, return_type_ok, pop_frame, write_returned,
  resume_caller, return_to, fire_return_inner, fire_return_final,
}
use conc_ir.Petri.Safety.Relation.{
  Fires, Injective, Kept, Steps, unchanged, then-Kept, same_marking-Kept, kept-Steps, put-Kept,
  Loose-key,
}
use conc_ir.Petri.Safety.Keeping.{
  LooseOut, set_blocked-Kept, completion-Kept, place_if-Kept, disabled_ok, limited_ok, error_ok,
  fires_ok, if_some_ok, move_on_ok, wait_at_ok, ctrl_loose, write_dst-Kept,
}
use conc_ir.Petri.Safety.Sync.{at_place}
use conc_ir.Petri.Safety.Threads.{drop_child-Kept, unbind-Kept, create-Kept, finish-Kept}

module _ (eng : Engine) (inj : Injective eng) where
  push_callee-Kept :
      (tid : ThreadId) (fid : FrameId) (func : FunctionId) (params : List SlotId)
      (values : List Value) (dst : Option SlotRef) (s : NetState)
      → Post (Kept eng s) (push_callee eng tid fid func params values dst s)
  unfolding push_callee Post
  push_callee-Kept tid fid func params values dst s =
      Post-any _ (default_locals eng.program func) _ (λ locals.
        Post-any _ (frame_of s fid) _ (λ caller.
          Post-any _ (unwrap (get tid s.store.threads)) _ (λ t. same_marking-Kept eng s _ refl)))

  bind_handle-Kept :
      (tid : ThreadId) (fid : FrameId) (handle : Str) (child : ThreadId) (s : NetState)
      → Post (Kept eng s) (bind_handle tid fid handle child s)
  unfolding Post
  bind_handle-Kept tid fid handle child s =
      Post-any _ (frame_of s fid) _
        (λ f. Post-any _ (unwrap (get tid s.store.threads)) _ (λ t. same_marking-Kept eng s _ refl))

  members-Kept :
      (scope : ScopeId) (funcs : List FunctionId) (remaining : Map ThreadId (Unit {0}))
      (s : NetState)
      → Post (Opt (λ (m, s'). Kept eng s s')) (create_members eng scope funcs remaining s)
  unfolding create_members Post
  members-Kept scope [] remaining s = unchanged eng s
  members-Kept scope (func ∷ funcs) remaining s =
      Post-bind _ (create_thread eng func (some scope) s) _
        (create-Kept eng inj func (some scope) s)
        (λ o k.
          choose o k (λ child s'. members-Kept scope funcs (note_child child s' remaining) s'))
    where
      later :
          (s' : NetState) (o : Option (Map ThreadId (Unit {0}) × NetState))
          → Kept eng s s'
          → Opt (λ (m, s''). Kept eng s' s'') o
          → Opt (λ (m, s''). Kept eng s s'') o
      later s' none k x = tt
      later s' (some (m, s'')) k x = then-Kept eng k x

      choose :
          (o : Option (ThreadId × NetState))
          → Opt (λ (c, s'). Kept eng s s') o
          → ((child : ThreadId) (s' : NetState)
              → Post
                  (Opt (λ (m, s''). Kept eng s' s''))
                  (create_members eng scope funcs (note_child child s' remaining) s'))
          → Post (Opt (λ (m, s'). Kept eng s s')) (elim o [
            | none ↦ ok none
            | some c ↦ create_members eng scope funcs (note_child (c.0) (c.1) remaining) (c.1)
          ])
      choose none k rest = tt
      choose (some (child, s')) k rest =
          Post-map (create_members eng scope funcs (note_child child s' remaining) s')
            (rest child s') (λ o x. later s' o k x)

  module _ (tid : ThreadId) (out : Option PlaceId) (loose : LooseOut eng out) where
    pub call-Steps :
        (fid : FrameId) (func : FunctionId) (args : List LExpr) (dst : Option SlotRef)
        (s : NetState)
        → Post (Fires (Steps eng tid s)) (fire_call eng out tid fid func args dst s)
    unfolding fire_call
    call-Steps fid func args dst s = Post-any _ (unwrap (get tid s.store.threads)) _ (λ t.
        Post-if _ (leb eng.bounds.max_frames_per_thread (length t.stack)) _ _ (limited_ok eng _ _) (
          Post-any _ (eval_all eng s fid args) _ (λ values.
            Post-any _ (function eng.program func) _ (λ callee.
              let params = modeled_params 0 callee.slots in
              Post-any _ (args_ok callee.slots params values) _ (λ fits.
                Post-if _ fits _ _
                  (Post-bind _ (push_callee eng tid fid func params values dst s) _
                    (push_callee-Kept tid fid func params values dst s)
                    (λ s' k. move_on_ok eng tid out tid _ s s' loose (kept-Steps eng tid k)))
                  (disabled_ok eng _))))))

    spawned_ok :
        (fid : FrameId) (handle : Str) (s : NetState) (o : Option (ThreadId × NetState))
        → Opt (λ (c, s'). Kept eng s s') o
        → Post (Fires (Steps eng tid s)) (spawned eng out tid fid handle o)
    spawned_ok fid handle s none k = limited_ok eng _ _
    spawned_ok fid handle s (some (child, s')) k =
        Post-bind _ (bind_handle tid fid handle child s') _
          (bind_handle-Kept tid fid handle child s')
          (λ s'' k'.
            move_on_ok eng tid out tid fid s s'' loose (kept-Steps eng tid (then-Kept eng k k')))

    pub spawn-Steps :
        (fid : FrameId) (func : FunctionId) (handle : Str) (s : NetState)
        → Post (Fires (Steps eng tid s)) (fire_spawn eng out tid fid func handle s)
    unfolding fire_spawn
    spawn-Steps fid func handle s = Post-any _ (within_bound eng s func) _ (λ fits.
        Post-if _ fits _ _
          (Post-bind _ (create_thread eng func none s) _ (create-Kept eng inj func none s)
            (λ o k. spawned_ok fid handle s o k))
          (disabled_ok eng _))

    opened_ok :
        (fid : FrameId) (scope : ScopeId) (s : NetState)
        (o : Option (Map ThreadId (Unit {0}) × NetState))
        → Opt (λ (m, s'). Kept eng s s') o
        → Post (Fires (Steps eng tid s)) (open_scope eng out tid fid scope o)
    opened_ok fid scope s none k = limited_ok eng _ _
    opened_ok fid scope s (some (remaining, s')) k = Post-any _ (frame_of s' fid) _ (λ f.
        Post-if _ (is_empty remaining) _ _
          (move_on_ok eng tid out tid fid s _ loose
            (kept-Steps eng tid (then-Kept eng k (same_marking-Kept eng s' _ refl))))
          (at_place eng inj _ (place eng (PlaceKey.scope_wait f.function f.pc)) _ (λ sw q.
            fires_ok eng _ _ (
              kept-Steps eng tid (
                then-Kept eng k (
                  then-Kept eng (same_marking-Kept eng s' _ refl) (
                    then-Kept eng
                      (put-Kept eng sw _ _
                        (Loose-key eng inj (PlaceKey.scope_wait f.function f.pc) sw q refl))
                      (set_blocked-Kept eng tid _ _))))))))

    pub scope-Steps :
        (at : Option Location) (fid : FrameId) (funcs : List FunctionId) (s : NetState)
        → Post (Fires (Steps eng tid s)) (fire_scope eng at out tid fid funcs s)
    unfolding fire_scope
    scope-Steps at fid funcs s = Post-if _ (is_empty funcs) _ _ (error_ok eng _ _) (
        Post-any _ (all_within_bound eng s funcs) _ (λ fits.
          let scope = s.store.alloc.next_scope in
          let s' = with_store s (record s.store { alloc = bump_scope s.store.alloc }) in
          Post-if _ fits _ _
            (Post-bind _ (create_members eng scope funcs [] s') _ (members-Kept scope funcs [] s')
              (λ o k. opened_ok fid scope s o (widen s' o (same_marking-Kept eng s s' refl) k)))
            (disabled_ok eng _)))
      where
        widen :
            (s' : NetState) (o : Option (Map ThreadId (Unit {0}) × NetState))
            → Kept eng s s'
            → Opt (λ (m, s''). Kept eng s' s'') o
            → Opt (λ (m, s''). Kept eng s s'') o
        widen s' none k x = tt
        widen s' (some (m, s'')) k x = then-Kept eng k x

    pub join_ready-Steps :
        (at : Option Location) (fid : FrameId) (handle : Str) (s : NetState)
        → Post (Fires (Steps eng tid s)) (fire_join_ready eng at out tid fid handle s)
    unfolding fire_join_ready
    join_ready-Steps at fid handle s = Post-any _ (find_child at tid fid handle s) _ (λ found.
        Post-if _ (is_done s (found.1)) _ _
          (Post-any _ (unwrap (found.1)) _ (λ c.
            let s' = unbind fid handle (get fid s.store.frames) s in
            let s'' = drop_child tid (found.0) (get tid s'.store.threads) s' in
            move_on_ok eng tid out tid fid s _ loose (
              kept-Steps eng tid (
                then-Kept eng (unbind-Kept eng fid handle (get fid s.store.frames) s) (
                  then-Kept eng (drop_child-Kept eng tid (found.0) (get tid s'.store.threads) s')
                    (same_marking-Kept eng s'' _ refl))))))
          (disabled_ok eng _))

    pub join_block-Steps :
        (at : Option Location) (fid : FrameId) (handle : Str) (s : NetState)
        → Post (Fires (Steps eng tid s)) (fire_join_block eng at out tid fid handle s)
    unfolding fire_join_block
    join_block-Steps at fid handle s = Post-any _ (find_child at tid fid handle s) _ (λ found.
        Post-if _ (is_running s (found.1)) _ _
          (Post-any _ (frame_of s fid) _ (λ f. wait_at_ok eng tid out _ tid _ s loose))
          (disabled_ok eng _))

  write_returned-Kept :
      (caller : FrameId) (ret : NetRetAddr) (val : Option Value) (s : NetState)
      → Post (Opt (Kept eng s)) (write_returned eng caller ret val s)
  unfolding Post
  write_returned-Kept caller ret none s = unchanged eng s
  write_returned-Kept caller ret (some v) s = write_dst-Kept eng inj caller ret.dst v s

  resume_caller-Kept :
      (tid : ThreadId) (caller : FrameId) (ret : NetRetAddr) (s : NetState)
      → Post (Kept eng s) (resume_caller eng tid caller ret s)
  unfolding Post
  resume_caller-Kept tid caller ret s = Post-any _ (frame_of s caller) _ (λ f.
      place_if-Kept eng (ctrl eng f.function ret.pc_next) tid caller s
        (ctrl_loose eng inj f.function ret.pc_next))

  return_to-Kept :
      (tid : ThreadId) (caller : FrameId) (ret : Option NetRetAddr) (val : Option Value)
      (s : NetState)
      → Post (Opt (Kept eng s)) (return_to eng tid caller ret val s)
  unfolding Post
  return_to-Kept tid caller none val s = unchanged eng s
  return_to-Kept tid caller (some ret) val s =
      Post-bind _ (write_returned eng caller ret val s) _ (write_returned-Kept caller ret val s)
        (λ o k. choose o k)
    where
      choose :
          (o : Option NetState)
          → Opt (Kept eng s) o
          → Post (Opt (Kept eng s)) (elim o [
            | none ↦ ok none
            | some s' ↦ resume_caller eng tid caller ret s' >>= λ s''. ok (some s'')
          ])
      choose none k = tt
      choose (some s') k =
          Post-bind _ (resume_caller eng tid caller ret s') _ (resume_caller-Kept tid caller ret s')
            (λ s'' k'. then-Kept eng k k')

  pub return_inner-Steps :
      (tid : ThreadId) (fid : FrameId) (value : Option LExpr) (s : NetState)
      → Post (Fires (Steps eng tid s)) (fire_return_inner eng tid fid value s)
  unfolding fire_return_inner
  return_inner-Steps tid fid value s = Post-any _ (unwrap (get tid s.store.threads)) _ (λ t.
      Post-if _ (leb (length t.stack) 1) _ _ (disabled_ok eng _) (
        Post-any _ (eval_returned eng s fid value) _ (λ val.
          Post-any _ (frame_of s fid) _ (λ callee.
            Post-any _ (function eng.program callee.function) _ (λ func.
              let popped = pop_frame tid t fid s in
              Post-if _ (return_type_ok func.returns val) _ _
                (Post-any _ (unwrap (get_last? (drop_last t.stack))) _ (λ caller.
                  Post-bind _ (return_to eng tid caller callee.ret val popped) _
                    (return_to-Kept tid caller callee.ret val popped)
                    (λ o k. if_some_ok eng (Kept eng popped) _ _ o k (λ s' k'. fires_ok eng _ _ (
                      kept-Steps eng tid (
                        then-Kept eng (same_marking-Kept eng s popped refl)
                          (then-Kept eng k' (completion-Kept eng callee.function s'))))))))
                (disabled_ok eng _))))))

  pub return_final-Steps :
      (tid : ThreadId) (fid : FrameId) (value : Option LExpr) (s : NetState)
      → Post (Fires (Steps eng tid s)) (fire_return_final eng tid fid value s)
  unfolding fire_return_final
  return_final-Steps tid fid value s = Post-any _ (unwrap (get tid s.store.threads)) _ (λ t.
      Post-if _ (length t.stack == 1) _ _
        (Post-any _ (eval_returned eng s fid value) _ (λ val. Post-any _ (frame_of s fid) _ (λ f.
          Post-any _ (function eng.program f.function) _ (λ func.
            let popped = pop_frame tid t fid s in
            Post-if _ (return_type_ok func.returns val) _ _
              (Post-bind _ (finish_thread eng tid f.function popped) _
                (finish-Kept eng inj tid f.function popped)
                (λ s' k.
                  fires_ok eng _ _
                    (kept-Steps eng tid (then-Kept eng (same_marking-Kept eng s popped refl) k))))
              (disabled_ok eng _)))))
        (disabled_ok eng _))
