-- ===== src/Petri/Safety/Fire.antt =====
-- src/petri/exec.rs: what a firing does to the places of mutexes, semaphores and channels.
use conc_ir.Prelude.{
  ◌≡◌, refl, Bool, true, false, not, Option, none, some, List, any, if◌then◌else◌,
}
use conc_ir.Prelude.Int.{ℤ, pos, leb_ℤ}
use conc_ir.Prelude.Text.{Str}
use conc_ir.Prelude.Map.{nat_key}
use conc_ir.Sem.Outcome.{ThreadId, FrameId, Location, Result, ok_or, invalid_error, e201}
use conc_ir.Sem.Value.{as_bool}
use conc_ir.Sem.Eval.{LExpr}
use conc_ir.Interp.Ownership.Relation.{Post, Opt, Post-any, Post-map, Post-if, Post-if_known}
use conc_ir.Petri.Net.{PlaceId, PlaceKey, Binding, NetOp, Transition}
use conc_ir.Petri.State.{NetToken, NetFrame, NetState, take_token}
use conc_ir.Petri.Engine.{Engine, Fired, eval_in, located, move_on}
use conc_ir.Petri.Sync.{or_unchanged}
use conc_ir.Petri.Fire.{
  FireBind, control_of, input_place, bound_wait, chosen_wait, take_at, mark_reached, enter,
  location_of, fire_branch, value_matches_label, fire_switch_case, fire_switch_default, controlled,
  waiting, both_tokens, positive, fire_op, fire,
}
use conc_ir.Petri.System.{binding_ids}
use conc_ir.Petri.Safety.Relation.{
  Fires, Injective, Kept, Steps, unchanged, then-Kept, then-Steps, same_marking-Kept, kept-Steps,
  take-Kept,
}
use conc_ir.Petri.Safety.Keeping.{LooseOut, disabled_ok, error_ok, move_on_ok}
use conc_ir.Petri.Safety.Sync.{
  assign_local-Steps, read-Steps, write-Steps, atomic_cas-Steps, lock_grant-Steps, lock_block-Steps,
  unlock-Steps, sem_acquire-Steps, sem_release-Steps,
}
use conc_ir.Petri.Safety.Waits.{
  waiter_of, lock_acquire-Steps, condvar_wait-Steps, notify_hit-Steps, notify_miss-Steps,
  notify_all-Steps, sem_block-Steps, sem_grant-Steps,
}
use conc_ir.Petri.Safety.Channels.{
  send_register-Steps, recv_register-Steps, send_pair-Steps, recv_pair-Steps, send_buf-Steps,
  send_buf_block-Steps, recv_buf-Steps, recv_buf_block-Steps,
}
use conc_ir.Petri.Safety.Buffers.{rendezvous-Steps, buffer_deliver-Steps, buffer_recv_wait-Steps}
use conc_ir.Petri.Safety.Calls.{
  call-Steps, spawn-Steps, scope-Steps, join_ready-Steps, join_block-Steps, return_inner-Steps,
  return_final-Steps,
}

-- The thread for which a binding fires.
unfoldable pub actor : FireBind → ThreadId
unfolding binding_ids
actor bind = (binding_ids bind).0

-- The control token's place of a binding.
unfoldable pub control_place : Binding → Option PlaceId
control_place (Binding.control pid) = some pid
control_place (Binding.control_wait pid w) = some pid
control_place (Binding.control_choose_wait pid w) = some pid
control_place (Binding.wait pid) = none
control_place (Binding.pair a b) = none

-- A transition takes its control token from a place, and leaves it at one, that stands for no
-- mutex, semaphore or channel.
pub record Tame (eng : Engine) (t : Transition) : Type 0 where
  pub from_loose : LooseOut eng (control_place t.binding)
  pub next_loose : LooseOut eng t.next

module _ (eng : Engine) (inj : Injective eng) where
  controlled_ok :
      (bind : FireBind) (s : NetState) (act : ThreadId → FrameId → Result Fired)
      → ((tid : ThreadId) (fid : FrameId) → Post (Fires (Steps eng tid s)) (act tid fid))
      → Post (Fires (Steps eng (actor bind) s)) (controlled (control_of bind) act)
  unfolding actor Post control_of
  controlled_ok (FireBind.control tid fid) s act k = k tid fid
  controlled_ok (FireBind.control_wait tid fid w) s act k = k tid fid
  controlled_ok (FireBind.control_choose_wait tid fid w) s act k = k tid fid
  controlled_ok (FireBind.wait token) s act k = tt
  controlled_ok (FireBind.pair a b) s act k = tt

  waiting_ok :
      (bind : FireBind) (s : NetState) (act : NetToken → Result Fired)
      → ((token : NetToken) → Post (Fires (Steps eng (waiter_of token) s)) (act token))
      → Post (Fires (Steps eng (actor bind) s)) (waiting bind act)
  unfolding actor Post
  waiting_ok (FireBind.control tid fid) s act k = tt
  waiting_ok (FireBind.control_wait tid fid w) s act k = tt
  waiting_ok (FireBind.control_choose_wait tid fid w) s act k = tt
  waiting_ok (FireBind.wait token) s act k = k token
  waiting_ok (FireBind.pair a b) s act k = tt

  positive_ok :
      (at : Option Location) (count : ℤ) (P : NetState → Type 0) (act : Result Fired)
      → (leb_ℤ count (pos 0) ≡ false → Post (Fires P) act)
      → Post (Fires P) (positive at count act)
  positive_ok at count P act k = Post-if_known _ (leb_ℤ count (pos 0)) _ _ (λ h. error_ok eng P _) k

  module _ (tid : ThreadId) (out : Option PlaceId) (loose : LooseOut eng out) where
    on_ok :
        (fid : FrameId) (s : NetState) → Post (Fires (Steps eng tid s)) (move_on eng out tid fid s)
    on_ok fid s = move_on_ok eng tid out tid fid s s loose (kept-Steps eng tid (unchanged eng s))

    branch-Steps :
        (at : Option Location) (fid : FrameId) (wanted : Bool) (cond : LExpr) (s : NetState)
        → Post (Fires (Steps eng tid s)) (fire_branch eng at out tid fid wanted cond s)
    unfolding fire_branch
    branch-Steps at fid wanted cond s = Post-any _ (eval_in eng s fid cond) _ (λ v.
        Post-any _ (ok_or (as_bool v) (located at (invalid_error e201))) _ (λ taken.
          Post-if _ (if wanted then taken else not taken) _ _ (on_ok fid s) (disabled_ok eng _)))

    switch_case-Steps :
        (fid : FrameId) (e : LExpr) (label : Str) (s : NetState)
        → Post (Fires (Steps eng tid s)) (fire_switch_case eng out tid fid e label s)
    unfolding fire_switch_case
    switch_case-Steps fid e label s = Post-any _ (eval_in eng s fid e) _ (λ v.
        Post-if _ (value_matches_label eng.host v label) _ _ (on_ok fid s) (disabled_ok eng _))

    switch_default-Steps :
        (fid : FrameId) (e : LExpr) (labels : List Str) (s : NetState)
        → Post (Fires (Steps eng tid s)) (fire_switch_default eng out tid fid e labels s)
    unfolding fire_switch_default
    switch_default-Steps fid e labels s = Post-any _ (eval_in eng s fid e) _ (λ v.
        Post-if _ (any (λ l. value_matches_label eng.host v l) labels) _ _ (disabled_ok eng _)
          (on_ok fid s))

  op_ok :
      (op : NetOp) (out : Option PlaceId) (bind : FireBind) (at : Option Location) (s : NetState)
      → LooseOut eng out
      → Post (Fires (Steps eng (actor bind) s)) (fire_op eng op out bind at (control_of bind) s)
  unfolding fire_op
  op_ok NetOp.nop out bind at s loose =
      controlled_ok bind s _ (λ tid fid. on_ok tid out loose fid s)
  op_ok (NetOp.assign_local target e) out bind at s loose =
      controlled_ok bind s _ (λ tid fid. assign_local-Steps eng inj tid out loose fid target e s)
  op_ok (NetOp.read_var r dst) out bind at s loose =
      controlled_ok bind s _
        (λ tid fid. read-Steps eng inj tid out loose fid (PlaceKey.var r) dst s)
  op_ok (NetOp.write_var r e) out bind at s loose =
      controlled_ok bind s _
        (λ tid fid. write-Steps eng inj tid out loose fid (PlaceKey.var r) r e s refl)
  op_ok (NetOp.atomic_load r dst) out bind at s loose =
      controlled_ok bind s _
        (λ tid fid. read-Steps eng inj tid out loose fid (PlaceKey.atomic r) (some dst) s)
  op_ok (NetOp.atomic_store r e) out bind at s loose =
      controlled_ok bind s _
        (λ tid fid. write-Steps eng inj tid out loose fid (PlaceKey.atomic r) r e s refl)
  op_ok (NetOp.atomic_cas r expected desired dst) out bind at s loose =
      controlled_ok bind s _
        (λ tid fid. atomic_cas-Steps eng inj tid out loose fid r expected desired dst s)
  op_ok (NetOp.mutex_lock_grant r) out bind at s loose =
      controlled_ok bind s _ (λ tid fid. lock_grant-Steps eng inj tid out loose fid r s)
  op_ok (NetOp.mutex_lock_block r) out bind at s loose =
      controlled_ok bind s _ (λ tid fid. lock_block-Steps eng inj tid out loose fid r s)
  op_ok (NetOp.mutex_unlock r) out bind at s loose =
      controlled_ok bind s _ (λ tid fid. unlock-Steps eng inj tid out loose at fid r s)
  op_ok (NetOp.lock_wait_acquire r) out bind at s loose =
      waiting_ok bind s _ (λ token. lock_acquire-Steps eng inj token r s)
  op_ok (NetOp.condvar_wait cv l) out bind at s loose =
      controlled_ok bind s _ (λ tid fid. condvar_wait-Steps eng inj at tid fid cv l s)
  op_ok (NetOp.condvar_notify_hit cv) out bind at s loose =
      controlled_ok bind s _
        (λ tid fid. notify_hit-Steps eng inj tid out loose fid (chosen_wait bind) cv s)
  op_ok (NetOp.condvar_notify_miss cv) out bind at s loose =
      controlled_ok bind s _ (λ tid fid. notify_miss-Steps eng inj tid out loose fid cv s)
  op_ok (NetOp.condvar_notify_all cv) out bind at s loose =
      controlled_ok bind s _ (λ tid fid. notify_all-Steps eng inj tid out loose fid cv s)
  op_ok (NetOp.sem_acquire r count) out bind at s loose = positive_ok at count _ _ (λ h.
      controlled_ok bind s _ (λ tid fid. sem_acquire-Steps eng inj tid out loose fid r count s))
  op_ok (NetOp.sem_acquire_block r count) out bind at s loose =
      controlled_ok bind s _ (λ tid fid. sem_block-Steps eng inj tid out loose fid r count s)
  op_ok (NetOp.sem_release r count) out bind at s loose = positive_ok at count _ _ (λ h.
      controlled_ok bind s _
        (λ tid fid. sem_release-Steps eng inj tid out loose at fid r count s h))
  op_ok (NetOp.sem_grant r) out bind at s loose =
      waiting_ok bind s _ (λ token. sem_grant-Steps eng inj token r s)
  op_ok (NetOp.send_register ch) out bind at s loose =
      controlled_ok bind s _ (λ tid fid. send_register-Steps eng inj tid out loose fid ch s)
  op_ok (NetOp.recv_register ch) out bind at s loose =
      controlled_ok bind s _ (λ tid fid. recv_register-Steps eng inj tid out loose fid ch s)
  op_ok (NetOp.send_pair ch) out bind at s loose =
      controlled_ok bind s _
        (λ tid fid. send_pair-Steps eng inj tid out loose fid (bound_wait bind) ch s)
  op_ok (NetOp.recv_pair ch) out bind at s loose =
      controlled_ok bind s _
        (λ tid fid. recv_pair-Steps eng inj tid out loose fid (bound_wait bind) ch s)
  op_ok (NetOp.rendezvous ch) out bind at s loose =
      rendezvous-Steps eng inj (actor bind) (both_tokens bind) ch s
  op_ok (NetOp.send_buf ch e) out bind at s loose =
      controlled_ok bind s _ (λ tid fid. send_buf-Steps eng inj tid out loose fid ch e s)
  op_ok (NetOp.send_buf_block ch e) out bind at s loose =
      controlled_ok bind s _ (λ tid fid. send_buf_block-Steps eng inj tid out loose fid ch e s)
  op_ok (NetOp.recv_buf ch dst) out bind at s loose =
      controlled_ok bind s _ (λ tid fid. recv_buf-Steps eng inj tid out loose fid ch dst s)
  op_ok (NetOp.recv_buf_block ch) out bind at s loose =
      controlled_ok bind s _ (λ tid fid. recv_buf_block-Steps eng inj tid out loose fid ch s)
  op_ok (NetOp.buffer_deliver ch) out bind at s loose =
      waiting_ok bind s _ (λ token. buffer_deliver-Steps eng inj token ch s)
  op_ok (NetOp.buffer_recv_wait ch) out bind at s loose =
      waiting_ok bind s _ (λ token. buffer_recv_wait-Steps eng inj token ch s)
  op_ok (NetOp.goto target) out bind at s loose =
      controlled_ok bind s _ (λ tid fid. on_ok tid out loose fid s)
  op_ok (NetOp.branch_then cond target) out bind at s loose =
      controlled_ok bind s _ (λ tid fid. branch-Steps tid out loose at fid true cond s)
  op_ok (NetOp.branch_else cond target) out bind at s loose =
      controlled_ok bind s _ (λ tid fid. branch-Steps tid out loose at fid false cond s)
  op_ok (NetOp.switch_case e label target) out bind at s loose =
      controlled_ok bind s _ (λ tid fid. switch_case-Steps tid out loose fid e label s)
  op_ok (NetOp.switch_default e labels target) out bind at s loose =
      controlled_ok bind s _ (λ tid fid. switch_default-Steps tid out loose fid e labels s)
  op_ok (NetOp.call func args dst) out bind at s loose =
      controlled_ok bind s _ (λ tid fid. call-Steps eng inj tid out loose fid func args dst s)
  op_ok (NetOp.spawn func handle) out bind at s loose =
      controlled_ok bind s _ (λ tid fid. spawn-Steps eng inj tid out loose fid func handle s)
  op_ok (NetOp.scope funcs) out bind at s loose =
      controlled_ok bind s _ (λ tid fid. scope-Steps eng inj tid out loose at fid funcs s)
  op_ok (NetOp.join_ready handle) out bind at s loose =
      controlled_ok bind s _ (λ tid fid. join_ready-Steps eng inj tid out loose at fid handle s)
  op_ok (NetOp.join_block handle) out bind at s loose =
      controlled_ok bind s _ (λ tid fid. join_block-Steps eng inj tid out loose at fid handle s)
  op_ok (NetOp.return_inner value) out bind at s loose =
      controlled_ok bind s _ (λ tid fid. return_inner-Steps eng inj tid fid value s)
  op_ok (NetOp.return_final value) out bind at s loose =
      controlled_ok bind s _ (λ tid fid. return_final-Steps eng inj tid fid value s)

  taken-Kept :
      (out : Option PlaceId) (token : NetToken) (s : NetState)
      → LooseOut eng out
      → Kept eng s (take_at out token s)
  taken-Kept none token s loose = unchanged eng s
  taken-Kept (some pid) token s loose =
      choose (take_token pid token s) (take-Kept eng pid token s loose)
    where
      choose : (o : Option NetState) → Opt (Kept eng s) o → Kept eng s (or_unchanged s o)
      choose none k = unchanged eng s
      choose (some s') k = k

  reached-Kept : (o : Option NetFrame) (s : NetState) → Kept eng s (mark_reached o s)
  reached-Kept none s = unchanged eng s
  reached-Kept (some f) s = same_marking-Kept eng s _ refl

  enter-Kept :
      (out : Option PlaceId) (by : Option (ThreadId × FrameId)) (s : NetState)
      → LooseOut eng out
      → Kept eng s (enter out by s)
  unfolding enter
  enter-Kept out none s loose = unchanged eng s
  enter-Kept out (some (tid, fid)) s loose =
      then-Kept eng (taken-Kept out (NetToken.control tid fid) s loose) (reached-Kept _ _)

  input_loose :
      (b : Binding) (bind : FireBind)
      → LooseOut eng (control_place b)
      → LooseOut eng (input_place b bind)
  unfolding input_place control_place
  input_loose (Binding.control pid) (FireBind.control t f) k = k
  input_loose (Binding.control_wait pid w) (FireBind.control_wait t f x) k = k
  input_loose (Binding.control_choose_wait pid w) (FireBind.control_choose_wait t f x) k = k
  input_loose _ _ k = tt

  -- The firing of a transition changes the places of mutexes, semaphores and channels only as its
  -- thread may.
  pub fire-Steps :
      (t : Transition) (bind : FireBind) (s : NetState)
      → Tame eng t
      → Post (Fires (Steps eng (actor bind) s)) (fire eng s t bind)
  unfolding fire
  fire-Steps t bind s tame =
      let s' = enter (input_place t.binding bind) (control_of bind) s in
      let k =
        enter-Kept (input_place t.binding bind) (control_of bind) s
          (input_loose t.binding bind tame.from_loose) in
      Post-any _ (location_of s' (control_of bind)) _ (λ at.
        Post-map (fire_op eng t.op t.next bind at (control_of bind) s')
          (op_ok t.op t.next bind at s' tame.next_loose)
          (λ fired x. widen (actor bind) s' fired.next k x))
    where
      widen :
          (tid : ThreadId) (s' : NetState) (o : Option NetState)
          → Kept eng s s'
          → Opt (Steps eng tid s') o
          → Opt (Steps eng tid s) o
      widen tid s' none k x = tt
      widen tid s' (some s'') k x = then-Steps eng tid k x
