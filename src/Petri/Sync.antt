-- ===== src/Petri/Sync.antt =====
-- src/petri/exec.rs: firing the transitions on variables, mutexes, condition variables and semaphores.
use conc_ir.Prelude.{
  ℕ, ◌==◌, Bool, true, false, not, Option, none, some, List, [], ◌∷◌, every, get_elem?,
  if◌then◌else◌,
}
use conc_ir.Prelude.Int.{ℤ, pos, ◌+ℤ◌, ◌-ℤ◌, leb_ℤ, ltb_ℤ, fits}
use conc_ir.Prelude.Map.{nat_key}
use conc_ir.Sem.Outcome.{
  ResourceId, ThreadId, FrameId, SlotRef, local, Result, ok, ◌>>=◌, unwrap, ok_or, Location,
  invalid_error, e510, e511, e900, e905,
}
use conc_ir.Sem.Value.{Value, BaseType, int, as_int, within_type, value_eq}
use conc_ir.Sem.Eval.{LExpr}
use conc_ir.Sem.Program.{function, resource}
use conc_ir.Petri.Net.{PlaceId, PlaceKey}
use conc_ir.Petri.State.{
  MutexToken, free, held, NetToken, token_ids, NetState, frame_of, place_tokens, put, take_token,
  read_data, set_data, read_mutex, set_mutex,
}
use conc_ir.Petri.Engine.{
  Engine, Fired, disabled, fires, if_some, fails_at, located, place, eval_in, set_blocked,
  put_control_next, write_local, write_dst, move_on, wait_at,
}

-- The slot that an assignment writes: a target that is not local writes slot 0, unchecked.
abbrev pub target_slot : SlotRef → ℕ
target_slot (local slot) = slot
target_slot _ = 0

abbrev pub target_ok : Engine → NetState → FrameId → SlotRef → Value → Result Bool
target_ok eng s fid (local slot) v = do
  f ← frame_of s fid
  func ← function eng.program f.function
  declared ← unwrap (get_elem? func.slots slot)
  ok (within_type declared.ty v)
target_ok eng s fid target v = ok true

unfoldable pub fire_assign_local :
    Engine → Option PlaceId → ThreadId → FrameId → SlotRef → LExpr → NetState → Result Fired
unfolding eval_in frame_of function write_local move_on
fire_assign_local eng out tid fid target e s = do
  v ← eval_in eng s fid e
  fits ← target_ok eng s fid target v
  if fits
      then (do s' ← write_local fid (target_slot target) v s; move_on eng out tid fid s')
      else disabled

abbrev pub write_opt :
    Engine → FrameId → Option SlotRef → Value → NetState → Result (Option NetState)
write_opt eng fid none v s = ok (some s)
write_opt eng fid (some dst) v s = write_dst eng fid dst v s

-- `ReadVar` and `AtomicLoad`: the value of the place goes to the destination.
unfoldable pub fire_read :
    Engine
    → Option PlaceId
    → ThreadId
    → FrameId
    → PlaceKey
    → Option SlotRef
    → NetState
    → Result Fired
unfolding place read_data write_dst move_on
fire_read eng out tid fid key dst s = do
  pid ← unwrap (place eng key)
  v ← ok_or (read_data pid s) (invalid_error e900)
  s' ← write_opt eng fid dst v s
  if_some (move_on eng out tid fid) s'

abbrev pub domain_of : Engine → ResourceId → Result BaseType
domain_of eng r = do res ← resource eng.program r; unwrap res.ty

-- `WriteVar` and `AtomicStore`.
unfoldable pub fire_write :
    Engine
    → Option PlaceId
    → ThreadId
    → FrameId
    → PlaceKey
    → ResourceId
    → LExpr
    → NetState
    → Result Fired
unfolding eval_in resource place set_data move_on
fire_write eng out tid fid key r e s = do
  v ← eval_in eng s fid e
  ty ← domain_of eng r
  if within_type ty v
      then (do pid ← unwrap (place eng key); move_on eng out tid fid (set_data pid v s))
      else disabled

-- The old value goes to the destination whether or not the exchange takes place.
unfoldable pub fire_atomic_cas :
    Engine
    → Option PlaceId
    → ThreadId
    → FrameId
    → ResourceId
    → LExpr
    → LExpr
    → SlotRef
    → NetState
    → Result Fired
unfolding eval_in resource place read_data write_dst value_eq set_data move_on
fire_atomic_cas eng out tid fid r expected desired dst s = do
  exp ← eval_in eng s fid expected
  des ← eval_in eng s fid desired
  ty ← domain_of eng r
  if within_type ty des
      then (do
        pid ← unwrap (place eng (PlaceKey.atomic r))
        old ← ok_or (read_data pid s) (invalid_error e900)
        s' ← write_dst eng fid dst old s
        if_some
            (λ s'. move_on eng out tid fid (if value_eq old exp then set_data pid des s' else s'))
            s')
      else disabled

abbrev pub is_free : Option MutexToken → Bool
is_free (some free) = true
is_free _ = false

abbrev pub is_held : Option MutexToken → Bool
is_held (some (held h)) = true
is_held _ = false

abbrev pub held_by : ThreadId → Option MutexToken → Bool
held_by tid (some (held h)) = h == tid
held_by tid _ = false

unfoldable pub fire_lock_grant :
    Engine → Option PlaceId → ThreadId → FrameId → ResourceId → NetState → Result Fired
unfolding place read_mutex set_mutex move_on
fire_lock_grant eng out tid fid r s = do
  mtx ← unwrap (place eng (PlaceKey.mutex r))
  if is_free (read_mutex mtx s)
      then move_on eng out tid fid (set_mutex mtx (held tid) s)
      else disabled

unfoldable pub fire_lock_block :
    Engine → Option PlaceId → ThreadId → FrameId → ResourceId → NetState → Result Fired
unfolding place read_mutex wait_at
fire_lock_block eng out tid fid r s = do
  mtx ← unwrap (place eng (PlaceKey.mutex r))
  if is_held (read_mutex mtx s)
      then wait_at out (NetToken.lock_wait tid fid) tid (PlaceKey.lock_wait r) s
      else disabled

unfoldable pub fire_unlock :
    Engine
    → Option Location
    → Option PlaceId
    → ThreadId
    → FrameId
    → ResourceId
    → NetState
    → Result Fired
unfolding place read_mutex set_mutex move_on
fire_unlock eng at out tid fid r s = do
  mtx ← unwrap (place eng (PlaceKey.mutex r))
  if held_by tid (read_mutex mtx s)
      then move_on eng out tid fid (set_mutex mtx free s)
      else fails_at e510 at

-- A waiting thread takes the mutex once it is free.
unfoldable pub fire_lock_acquire : Engine → NetToken → ResourceId → NetState → Result Fired
unfolding token_ids place read_mutex take_token set_mutex put_control_next
fire_lock_acquire eng token r s = do
  (tid, fid) ← unwrap (token_ids token)
  mtx ← unwrap (place eng (PlaceKey.mutex r))
  if is_free (read_mutex mtx s)
      then (do
        lw ← unwrap (place eng (PlaceKey.lock_wait r))
        if_some (λ s'. do s'' ← put_control_next eng token (set_mutex mtx (held tid) s'); fires s'')
            (take_token lw token s))
      else disabled

unfoldable pub fire_condvar_wait :
    Engine
    → Option Location
    → ThreadId
    → FrameId
    → ResourceId
    → ResourceId
    → NetState
    → Result Fired
unfolding place read_mutex set_mutex put set_blocked
fire_condvar_wait eng at tid fid c l s = do
  mtx ← unwrap (place eng (PlaceKey.mutex l))
  if held_by tid (read_mutex mtx s)
      then (do
        cv ← unwrap (place eng (PlaceKey.condvar c))
        fires (
            set_blocked tid (PlaceKey.condvar c)
              (put cv (NetToken.condvar_wait tid fid l) (set_mutex mtx free s))))
      else fails_at e511 at

-- A waiter of a condition variable joins the queue of its lock.
unfoldable pub requeue : Engine → ThreadId → FrameId → ResourceId → NetState → Result NetState
unfolding place put set_blocked
requeue eng wt wf l s = do
  lw ← unwrap (place eng (PlaceKey.lock_wait l))
  ok (set_blocked wt (PlaceKey.lock_wait l) (put lw (NetToken.lock_wait wt wf) s))

abbrev pub as_waiter : Option NetToken → Option (ThreadId × FrameId × ResourceId)
as_waiter (some (NetToken.condvar_wait wt wf l)) = some (wt, wf, l)
as_waiter _ = none

abbrev pub fire_hit :
    Engine
    → Option PlaceId
    → ThreadId
    → FrameId
    → ResourceId
    → Option NetToken
    → Option (ThreadId × FrameId × ResourceId)
    → NetState
    → Result Fired
fire_hit eng out tid fid c wait none s = disabled
fire_hit eng out tid fid c wait (some (wt, wf, l)) s = do
  token ← unwrap wait
  cv ← unwrap (place eng (PlaceKey.condvar c))
  if_some (λ s'. do s'' ← requeue eng wt wf l s'; move_on eng out tid fid s'')
      (take_token cv token s)

-- `wait` is the token of a `ControlChooseWait` binding.
unfoldable pub fire_notify_hit :
    Engine
    → Option PlaceId
    → ThreadId
    → FrameId
    → Option NetToken
    → ResourceId
    → NetState
    → Result Fired
unfolding place take_token requeue move_on
fire_notify_hit eng out tid fid wait c s = fire_hit eng out tid fid c wait (as_waiter wait) s

abbrev pub is_waiter : NetToken → Bool
is_waiter (NetToken.condvar_wait wt wf l) = true
is_waiter _ = false

unfoldable pub fire_notify_miss :
    Engine → Option PlaceId → ThreadId → FrameId → ResourceId → NetState → Result Fired
unfolding place place_tokens move_on
fire_notify_miss eng out tid fid c s = do
  cv ← unwrap (place eng (PlaceKey.condvar c))
  if every (λ t. not (is_waiter t)) (place_tokens cv s) then move_on eng out tid fid s else disabled

-- A token that is not there any more is not taken, and the waiter is queued all the same.
abbrev pub or_unchanged : NetState → Option NetState → NetState
or_unchanged s none = s
or_unchanged s (some s') = s'

unfoldable pub requeue_all : Engine → PlaceId → List NetToken → NetState → Result NetState
unfolding take_token requeue
requeue_all eng cv [] s = ok s
requeue_all eng cv (NetToken.condvar_wait wt wf l ∷ ts) s =
    requeue eng wt wf l (or_unchanged s (take_token cv (NetToken.condvar_wait wt wf l) s)) >>= λ s'.
    requeue_all eng cv ts s'
requeue_all eng cv (t ∷ ts) s = requeue_all eng cv ts s

unfoldable pub fire_notify_all :
    Engine → Option PlaceId → ThreadId → FrameId → ResourceId → NetState → Result Fired
unfolding place place_tokens requeue_all move_on
fire_notify_all eng out tid fid c s = do
  cv ← unwrap (place eng (PlaceKey.condvar c))
  s' ← requeue_all eng cv (place_tokens cv s) s
  move_on eng out tid fid s'

abbrev pub count_of : Option Value → Option ℤ
count_of none = none
count_of (some v) = as_int v

abbrev pub or_zero : Option ℤ → ℤ
or_zero none = pos 0
or_zero (some n) = n

unfoldable pub fire_sem_acquire :
    Engine → Option PlaceId → ThreadId → FrameId → ResourceId → ℤ → NetState → Result Fired
unfolding place read_data set_data move_on as_int
fire_sem_acquire eng out tid fid r count s = do
  sem ← unwrap (place eng (PlaceKey.semaphore r))
  available ← ok_or (count_of (read_data sem s)) (invalid_error e900)
  if ltb_ℤ available count
      then disabled
      else move_on eng out tid fid (set_data sem (int (available -ℤ count)) s)

unfoldable pub fire_sem_block :
    Engine → Option PlaceId → ThreadId → FrameId → ResourceId → ℤ → NetState → Result Fired
unfolding place read_data put set_blocked as_int
fire_sem_block eng out tid fid r count s = do
  sem ← unwrap (place eng (PlaceKey.semaphore r))
  if leb_ℤ count (or_zero (count_of (read_data sem s))) then disabled else (do
    sw ← unwrap (place eng (PlaceKey.sem_wait r))
    fires (set_blocked tid (PlaceKey.sem_wait r) (put sw (NetToken.sem_wait tid fid count) s)))

unfoldable pub fire_sem_release :
    Engine
    → Option Location
    → Option PlaceId
    → ThreadId
    → FrameId
    → ResourceId
    → ℤ
    → NetState
    → Result Fired
unfolding place read_data set_data move_on as_int
fire_sem_release eng at out tid fid r count s = do
  sem ← unwrap (place eng (PlaceKey.semaphore r))
  updated ←
      ok_or (fits (or_zero (count_of (read_data sem s)) +ℤ count)) (located at (invalid_error e905))
  move_on eng out tid fid (set_data sem (int updated) s)

-- A waiting thread takes its permits once there are enough.
unfoldable pub fire_sem_grant : Engine → NetToken → ResourceId → NetState → Result Fired
unfolding place read_data take_token set_data put_control_next as_int
fire_sem_grant eng token r s = elim token [
  | NetToken.sem_wait tid fid need ↦ do
    sem ← unwrap (place eng (PlaceKey.semaphore r))
    let available = or_zero (count_of (read_data sem s))
    if ltb_ℤ available need then disabled else (do
      sw ← unwrap (place eng (PlaceKey.sem_wait r))
      if_some
          (λ s'. do
            s'' ←
                put_control_next eng (NetToken.sem_wait tid fid need)
                  (set_data sem (int (available -ℤ need)) s')
            fires s'')
          (take_token sw (NetToken.sem_wait tid fid need) s))
  | _ ↦ disabled
]
