-- ===== src/Petri/Fire.antt =====
-- src/petri/exec.rs: the firing of a transition under a binding, and the control transitions.
use conc_ir.Prelude.{Bool, true, false, not, Option, none, some, List, any, if◌then◌else◌}
use conc_ir.Prelude.Int.{ℤ, pos, leb_ℤ, eqb_ℤ}
use conc_ir.Prelude.Text.{Str}
use conc_ir.Prelude.Map.{get, insert, nat_key, pair_key}
use conc_ir.Sem.Outcome.{
  ThreadId, FrameId, Location, e201, e904, Result, ok, ◌>>=◌, unwrap, ok_or, invalid_error,
}
use conc_ir.Sem.Value.{Value, int, enum, as_bool, str_eq}
use conc_ir.Sem.Eval.{LExpr, Host}
use conc_ir.Petri.Net.{PlaceId, PlaceKey, Binding, NetOp, Transition}
use conc_ir.Petri.State.{NetToken, NetFrame, NetState, frame_of, take_token}
use conc_ir.Petri.Engine.{Engine, Fired, disabled, fails_at, located, eval_in, move_on}
use conc_ir.Petri.Sync.{
  fire_assign_local, fire_read, fire_write, fire_atomic_cas, fire_lock_grant, fire_lock_block,
  fire_unlock, fire_lock_acquire, fire_condvar_wait, fire_notify_hit, fire_notify_miss,
  fire_notify_all, fire_sem_acquire, fire_sem_block, fire_sem_release, fire_sem_grant, or_unchanged,
}
use conc_ir.Petri.Channels.{
  fire_send_register, fire_recv_register, fire_send_pair, fire_recv_pair, fire_rendezvous,
  fire_send_buf, fire_send_buf_block, fire_recv_buf, fire_recv_buf_block, fire_buffer_deliver,
  fire_buffer_recv_wait,
}
use conc_ir.Petri.Calls.{
  fire_call, fire_spawn, fire_scope, fire_join_ready, fire_join_block, fire_return_inner,
  fire_return_final,
}
use conc_ir.Petri.Threads.{with_store}

-- The tokens that a firing is bound to.
pub data FireBind : Type 0 where
  control : ThreadId → FrameId → FireBind
  control_wait control_choose_wait : ThreadId → FrameId → NetToken → FireBind
  wait : NetToken → FireBind
  pair : NetToken → NetToken → FireBind

unfoldable pub control_of : FireBind → Option (ThreadId × FrameId)
control_of (FireBind.control tid fid) = some (tid, fid)
control_of (FireBind.control_wait tid fid w) = some (tid, fid)
control_of (FireBind.control_choose_wait tid fid w) = some (tid, fid)
control_of (FireBind.wait token) = none
control_of (FireBind.pair a b) = none

-- The place of the control token, where the binding is one that the transition has.
unfoldable pub input_place : Binding → FireBind → Option PlaceId
input_place (Binding.control pid) (FireBind.control tid fid) = some pid
input_place (Binding.control_wait pid w) (FireBind.control_wait tid fid token) = some pid
input_place (Binding.control_choose_wait pid w) (FireBind.control_choose_wait tid fid token) =
    some pid
input_place _ _ = none

unfoldable pub bound_wait : FireBind → Option NetToken
bound_wait (FireBind.control_wait tid fid w) = some w
bound_wait (FireBind.control_choose_wait tid fid w) = some w
bound_wait _ = none

abbrev pub chosen_wait : FireBind → Option NetToken
chosen_wait (FireBind.control_choose_wait tid fid w) = some w
chosen_wait _ = none

abbrev pub take_at : Option PlaceId → NetToken → NetState → NetState
take_at none token s = s
take_at (some pid) token s = or_unchanged s (take_token pid token s)

abbrev pub mark_reached : Option NetFrame → NetState → NetState
mark_reached none s = s
mark_reached (some f) s =
    with_store s (record s.store { reached = insert (f.function, f.pc) tt s.store.reached })

-- The control token is removed, and the statement that it stands at counts as reached.
unfoldable pub enter : Option PlaceId → Option (ThreadId × FrameId) → NetState → NetState
unfolding take_token
enter pid none s = s
enter pid (some (tid, fid)) s =
    let s' = take_at pid (NetToken.control tid fid) s in mark_reached (get fid s'.store.frames) s'

abbrev pub location_of : NetState → Option (ThreadId × FrameId) → Result (Option Location)
location_of s none = ok none
location_of s (some (tid, fid)) = do f ← frame_of s fid; ok (some (f.function, some f.pc))

unfoldable pub fire_branch :
    Engine
    → Option Location
    → Option PlaceId
    → ThreadId
    → FrameId
    → Bool
    → LExpr
    → NetState
    → Result Fired
unfolding eval_in as_bool move_on
fire_branch eng at out tid fid wanted cond s = do
  v ← eval_in eng s fid cond
  taken ← ok_or (as_bool v) (located at (invalid_error e201))
  if (if wanted then taken else not taken) then move_on eng out tid fid s else disabled

abbrev pub is_int : ℤ → Option ℤ → Bool
is_int i none = false
is_int i (some n) = eqb_ℤ n i

unfoldable pub value_matches_label : Host → Value → Str → Bool
value_matches_label host v label = elim v [
  | enum e ↦ str_eq e label
  | int i ↦ is_int i (host.parse_i64 label)
  | _ ↦ false
]

unfoldable pub fire_switch_case :
    Engine → Option PlaceId → ThreadId → FrameId → LExpr → Str → NetState → Result Fired
unfolding eval_in value_matches_label move_on
fire_switch_case eng out tid fid e label s = do
  v ← eval_in eng s fid e
  if value_matches_label eng.host v label then move_on eng out tid fid s else disabled

unfoldable pub fire_switch_default :
    Engine → Option PlaceId → ThreadId → FrameId → LExpr → List Str → NetState → Result Fired
unfolding eval_in value_matches_label move_on
fire_switch_default eng out tid fid e labels s = do
  v ← eval_in eng s fid e
  if any (λ l. value_matches_label eng.host v l) labels then disabled else move_on eng out tid fid s

-- A transition that needs a control token panics without one.
abbrev pub controlled :
    Option (ThreadId × FrameId) → (ThreadId → FrameId → Result Fired) → Result Fired
controlled none act = unwrap none
controlled (some (tid, fid)) act = act tid fid

abbrev pub waiting : FireBind → (NetToken → Result Fired) → Result Fired
waiting (FireBind.wait token) act = act token
waiting _ act = disabled

abbrev pub both_tokens : FireBind → Option (NetToken × NetToken)
both_tokens (FireBind.pair a b) = some (a, b)
both_tokens _ = none

abbrev pub positive : Option Location → ℤ → Result Fired → Result Fired
positive at count act = if leb_ℤ count (pos 0) then fails_at e904 at else act

-- `t.op`, with `t.next` as the place where the control token goes.
unfoldable pub fire_op :
    Engine
    → NetOp
    → Option PlaceId
    → FireBind
    → Option Location
    → Option (ThreadId × FrameId)
    → NetState
    → Result Fired
unfolding fire_assign_local fire_read fire_write fire_atomic_cas fire_lock_grant fire_lock_block
    fire_unlock fire_lock_acquire fire_condvar_wait fire_notify_hit fire_notify_miss fire_notify_all
    fire_sem_acquire fire_sem_block fire_sem_release fire_sem_grant fire_send_register
    fire_recv_register fire_send_pair fire_recv_pair fire_rendezvous fire_send_buf
    fire_send_buf_block fire_recv_buf fire_recv_buf_block fire_buffer_deliver fire_buffer_recv_wait
    fire_call fire_spawn fire_scope fire_join_ready fire_join_block fire_return_inner
    fire_return_final fire_branch fire_switch_case fire_switch_default move_on bound_wait
fire_op eng op out bind at by s = elim op [
  | NetOp.nop ↦ controlled by (λ tid fid. move_on eng out tid fid s)
  | NetOp.assign_local target e ↦
      controlled by (λ tid fid. fire_assign_local eng out tid fid target e s)
  | NetOp.read_var r dst ↦
      controlled by (λ tid fid. fire_read eng out tid fid (PlaceKey.var r) dst s)
  | NetOp.write_var r e ↦
      controlled by (λ tid fid. fire_write eng out tid fid (PlaceKey.var r) r e s)
  | NetOp.atomic_load r dst ↦
      controlled by (λ tid fid. fire_read eng out tid fid (PlaceKey.atomic r) (some dst) s)
  | NetOp.atomic_store r e ↦
      controlled by (λ tid fid. fire_write eng out tid fid (PlaceKey.atomic r) r e s)
  | NetOp.atomic_cas r expected desired dst ↦
      controlled by (λ tid fid. fire_atomic_cas eng out tid fid r expected desired dst s)
  | NetOp.mutex_lock_grant r ↦ controlled by (λ tid fid. fire_lock_grant eng out tid fid r s)
  | NetOp.mutex_lock_block r ↦ controlled by (λ tid fid. fire_lock_block eng out tid fid r s)
  | NetOp.mutex_unlock r ↦ controlled by (λ tid fid. fire_unlock eng at out tid fid r s)
  | NetOp.lock_wait_acquire r ↦ waiting bind (λ token. fire_lock_acquire eng token r s)
  | NetOp.condvar_wait c l ↦ controlled by (λ tid fid. fire_condvar_wait eng at tid fid c l s)
  | NetOp.condvar_notify_hit c ↦
      controlled by (λ tid fid. fire_notify_hit eng out tid fid (chosen_wait bind) c s)
  | NetOp.condvar_notify_miss c ↦ controlled by (λ tid fid. fire_notify_miss eng out tid fid c s)
  | NetOp.condvar_notify_all c ↦ controlled by (λ tid fid. fire_notify_all eng out tid fid c s)
  | NetOp.sem_acquire r count ↦
      positive at count (controlled by (λ tid fid. fire_sem_acquire eng out tid fid r count s))
  | NetOp.sem_acquire_block r count ↦
      controlled by (λ tid fid. fire_sem_block eng out tid fid r count s)
  | NetOp.sem_release r count ↦
      positive at count (controlled by (λ tid fid. fire_sem_release eng at out tid fid r count s))
  | NetOp.sem_grant r ↦ waiting bind (λ token. fire_sem_grant eng token r s)
  | NetOp.send_register c ↦ controlled by (λ tid fid. fire_send_register eng out tid fid c s)
  | NetOp.recv_register c ↦ controlled by (λ tid fid. fire_recv_register eng out tid fid c s)
  | NetOp.send_pair c ↦
      controlled by (λ tid fid. fire_send_pair eng out tid fid (bound_wait bind) c s)
  | NetOp.recv_pair c ↦
      controlled by (λ tid fid. fire_recv_pair eng out tid fid (bound_wait bind) c s)
  | NetOp.rendezvous c ↦ fire_rendezvous eng (both_tokens bind) c s
  | NetOp.send_buf c e ↦ controlled by (λ tid fid. fire_send_buf eng out tid fid c e s)
  | NetOp.send_buf_block c e ↦ controlled by (λ tid fid. fire_send_buf_block eng out tid fid c e s)
  | NetOp.recv_buf c dst ↦ controlled by (λ tid fid. fire_recv_buf eng out tid fid c dst s)
  | NetOp.recv_buf_block c ↦ controlled by (λ tid fid. fire_recv_buf_block eng out tid fid c s)
  | NetOp.buffer_deliver c ↦ waiting bind (λ token. fire_buffer_deliver eng token c s)
  | NetOp.buffer_recv_wait c ↦ waiting bind (λ token. fire_buffer_recv_wait eng token c s)
  | NetOp.goto target ↦ controlled by (λ tid fid. move_on eng out tid fid s)
  | NetOp.branch_then cond target ↦
      controlled by (λ tid fid. fire_branch eng at out tid fid true cond s)
  | NetOp.branch_else cond target ↦
      controlled by (λ tid fid. fire_branch eng at out tid fid false cond s)
  | NetOp.switch_case e label target ↦
      controlled by (λ tid fid. fire_switch_case eng out tid fid e label s)
  | NetOp.switch_default e labels target ↦
      controlled by (λ tid fid. fire_switch_default eng out tid fid e labels s)
  | NetOp.call func args dst ↦ controlled by (λ tid fid. fire_call eng out tid fid func args dst s)
  | NetOp.spawn func handle ↦ controlled by (λ tid fid. fire_spawn eng out tid fid func handle s)
  | NetOp.scope funcs ↦ controlled by (λ tid fid. fire_scope eng at out tid fid funcs s)
  | NetOp.join_ready handle ↦ controlled by (λ tid fid. fire_join_ready eng at out tid fid handle s)
  | NetOp.join_block handle ↦ controlled by (λ tid fid. fire_join_block eng at out tid fid handle s)
  | NetOp.return_inner value ↦ controlled by (λ tid fid. fire_return_inner eng tid fid value s)
  | NetOp.return_final value ↦ controlled by (λ tid fid. fire_return_final eng tid fid value s)
]

unfoldable pub fire : Engine → NetState → Transition → FireBind → Result Fired
unfolding control_of input_place enter frame_of fire_op
fire eng s t bind = do
  let by = control_of bind
  let s' = enter (input_place t.binding bind) by s
  at ← location_of s' by
  fire_op eng t.op t.next bind at by s'
