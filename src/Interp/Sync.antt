-- ===== src/Interp/Sync.antt =====
-- src/interp/exec.rs: the steps on variables, atomics, mutexes, condition variables and semaphores.
-- Each takes the state that already counts the statement as reached.
use conc_ir.Prelude.{
  ◌==◌, Bool, true, false, ◌&&◌, not, Option, none, some, List, [], ◌∷◌, ◌++◌, retain, is_empty,
  get_elem?, if◌then◌else◌,
}
use conc_ir.Prelude.Int.{ℤ, pos, ◌+ℤ◌, ◌-ℤ◌, leb_ℤ, fits}
use conc_ir.Prelude.Map.{get, insert, nat_key}
use conc_ir.Sem.Outcome.{
  ResourceId, ThreadId, FrameId, SlotRef, local, Location, Code, e510, e511, e900, e904, e905,
  error_at, invalid_error, Result, ok, err, ◌>>=◌, unwrap, ok_or,
}
use conc_ir.Sem.Value.{Value, BaseType, within_type, value_eq}
use conc_ir.Sem.Eval.{LExpr}
use conc_ir.Sem.Program.{SemFunction, resource}
use conc_ir.Interp.State.{
  MachineState, MutexState, free, held, CondvarState, lock, condvar, semaphore, read_shared,
  with_store, block, advance, write_dst,
}
use conc_ir.Interp.Access.{
  Interpreter, Fired, disabled, fires, fires_all, if_written, eval_in, try_write_dst, holds_mutex,
  permits_of,
}

-- The statement is done: the thread goes on with the next one.
abbrev pub step_on : ThreadId → MachineState → Result Fired
step_on tid s = advance tid s >>= λ s'. fires s'

abbrev pub fails_at {ℓ} : {A : Type ℓ} → Code → Location → Result A
fails_at c at = err (error_at (invalid_error c) at)

abbrev pub target_ok : SemFunction → SlotRef → Value → Result Bool
target_ok f (local slot) v = do s ← unwrap (get_elem? f.slots slot); ok (within_type s.ty v)
target_ok f _ v = ok true

unfoldable pub step_assign_local :
    Interpreter → ThreadId → FrameId → SemFunction → SlotRef → LExpr → MachineState → Result Fired
unfolding eval_in write_dst advance
step_assign_local it tid fid f target e s = do
  v ← eval_in it s fid e
  fits ← target_ok f target v
  if fits then (do s' ← write_dst fid target v s; step_on tid s') else disabled

abbrev pub write_opt :
    Interpreter → FrameId → Option SlotRef → Value → MachineState → Result (Option MachineState)
write_opt it fid none v s = ok (some s)
write_opt it fid (some dst) v s = try_write_dst it fid dst v s

unfoldable pub step_read_shared :
    Interpreter → ThreadId → FrameId → ResourceId → Option SlotRef → MachineState → Result Fired
unfolding read_shared try_write_dst advance
step_read_shared it tid fid r dst s = do
  v ← ok_or (read_shared s.store r) (invalid_error e900)
  s' ← write_opt it fid dst v s
  if_written (step_on tid) s'

abbrev pub set_var : ResourceId → Value → MachineState → MachineState
set_var r v s = with_store s (record s.store { vars = insert r v s.store.vars })

abbrev pub set_atomic : ResourceId → Value → MachineState → MachineState
set_atomic r v s = with_store s (record s.store { atomics = insert r v s.store.atomics })

abbrev pub domain_of : Interpreter → ResourceId → Result BaseType
domain_of it r = do res ← resource it.program r; unwrap res.ty

unfoldable pub step_write_shared :
    Interpreter → ThreadId → FrameId → ResourceId → LExpr → MachineState → Result Fired
unfolding eval_in resource advance
step_write_shared it tid fid r e s = do
  v ← eval_in it s fid e
  ty ← domain_of it r
  if within_type ty v then step_on tid (set_var r v s) else disabled

unfoldable pub step_atomic_load :
    Interpreter → ThreadId → FrameId → ResourceId → SlotRef → MachineState → Result Fired
unfolding try_write_dst advance
step_atomic_load it tid fid r dst s = do
  v ← ok_or (get r s.store.atomics) (invalid_error e900)
  s' ← try_write_dst it fid dst v s
  if_written (step_on tid) s'

unfoldable pub step_atomic_store :
    Interpreter → ThreadId → FrameId → ResourceId → LExpr → MachineState → Result Fired
unfolding eval_in resource advance
step_atomic_store it tid fid r e s = do
  v ← eval_in it s fid e
  ty ← domain_of it r
  if within_type ty v then step_on tid (set_atomic r v s) else disabled

-- The old value goes to the destination whether or not the exchange takes place.
unfoldable pub step_atomic_cas :
    Interpreter
    → ThreadId
    → FrameId
    → ResourceId
    → LExpr
    → LExpr
    → SlotRef
    → MachineState
    → Result Fired
unfolding eval_in resource try_write_dst value_eq advance
step_atomic_cas it tid fid r expected desired dst s = do
  exp ← eval_in it s fid expected
  des ← eval_in it s fid desired
  ty ← domain_of it r
  if within_type ty des
      then (do
        old ← ok_or (get r s.store.atomics) (invalid_error e900)
        s' ← try_write_dst it fid dst old s
        if_written (λ s'. step_on tid (if value_eq old exp then set_atomic r des s' else s')) s')
      else disabled

abbrev pub set_mutex : ResourceId → MutexState → MachineState → MachineState
set_mutex r m s = with_store s (record s.store { mutexes = insert r m s.store.mutexes })

abbrev pub is_free : Option MutexState → Bool
is_free (some free) = true
is_free _ = false

unfoldable pub step_mutex_lock : ThreadId → ResourceId → MachineState → Result Fired
unfolding block advance
step_mutex_lock tid r s =
    if is_free (get r s.store.mutexes)
    then step_on tid (set_mutex r (held tid) s)
    else fires (block tid (lock r) s)

unfoldable pub step_mutex_unlock : Location → ThreadId → ResourceId → MachineState → Result Fired
unfolding advance error_at
step_mutex_unlock at tid r s =
    if holds_mutex tid (get r s.store.mutexes)
    then step_on tid (set_mutex r free s)
    else fails_at e510 at

abbrev pub set_condvar : ResourceId → CondvarState → MachineState → MachineState
set_condvar c cv s = with_store s (record s.store { condvars = insert c cv s.store.condvars })

unfoldable pub step_condvar_wait :
    Location → ThreadId → ResourceId → ResourceId → MachineState → Result Fired
unfolding block error_at
step_condvar_wait at tid c l s =
    if holds_mutex tid (get l s.store.mutexes)
    then (do
      cv ← unwrap (get c s.store.condvars)
      let s' = set_mutex l free s
      fires (
          block tid (condvar c l)
            (set_condvar c (record { waiters = cv.waiters ++ (tid, l) ∷ [] }) s')))
    else fails_at e511 at

abbrev pub waiters_of : Option CondvarState → List (ThreadId × ResourceId)
waiters_of none = []
waiters_of (some cv) = cv.waiters

abbrev pub is_waiter : ThreadId → ResourceId → ThreadId × ResourceId → Bool
is_waiter w l (w', l') = w' == w && l' == l

abbrev pub drop_waiter : ResourceId → ThreadId → ResourceId → MachineState → MachineState
drop_waiter c w l s = elim (get c s.store.condvars) [
  | none ↦ s
  | some cv ↦ set_condvar c (record { waiters = retain (λ x. not (is_waiter w l x)) cv.waiters }) s
]

-- One successor for each waiter that may be woken.
abbrev pub wake_each :
    ThreadId → ResourceId → List (ThreadId × ResourceId) → MachineState → Result (List MachineState)
wake_each tid c [] s = ok []
wake_each tid c ((w, l) ∷ ws) s = do
  s' ← advance tid (block w (lock l) (drop_waiter c w l s))
  rest ← wake_each tid c ws s
  ok (s' ∷ rest)

unfoldable pub step_notify : ThreadId → ResourceId → MachineState → Result Fired
unfolding block advance
step_notify tid c s =
    let ws = waiters_of (get c s.store.condvars) in
    if is_empty ws then step_on tid s else (wake_each tid c ws s >>= λ ss. fires_all ss)

abbrev pub relock_all : List (ThreadId × ResourceId) → MachineState → MachineState
relock_all [] s = s
relock_all ((w, l) ∷ ws) s = relock_all ws (block w (lock l) s)

unfoldable pub step_notify_all : ThreadId → ResourceId → MachineState → Result Fired
unfolding block advance
step_notify_all tid c s = do
  cv ← unwrap (get c s.store.condvars)
  step_on tid (relock_all cv.waiters (set_condvar c (record { waiters = [] }) s))

abbrev pub set_permits : ResourceId → ℤ → MachineState → MachineState
set_permits r n s = with_store s (record s.store { semaphores = insert r n s.store.semaphores })

abbrev pub queue_of : Option (List (ThreadId × ℤ)) → List (ThreadId × ℤ)
queue_of none = []
queue_of (some q) = q

abbrev pub await_permits : ThreadId → ResourceId → ℤ → MachineState → MachineState
await_permits tid r count s = record s {
  sem_waiters = insert r (queue_of (get r s.sem_waiters) ++ (tid, count) ∷ []) s.sem_waiters;
}

unfoldable pub step_semaphore_acquire :
    Location → ThreadId → ResourceId → ℤ → MachineState → Result Fired
unfolding error_at block advance ◌-ℤ◌
step_semaphore_acquire at tid r count s =
    let available = permits_of (get r s.store.semaphores) in
    if leb_ℤ count (pos 0)
    then fails_at e904 at
    else if leb_ℤ count available
    then step_on tid (set_permits r (available -ℤ count) s)
    else fires (block tid (semaphore r) (await_permits tid r count s))

unfoldable pub step_semaphore_release :
    Location → ThreadId → ResourceId → ℤ → MachineState → Result Fired
unfolding error_at advance ◌+ℤ◌
step_semaphore_release at tid r count s =
    let available = permits_of (get r s.store.semaphores) in
    if leb_ℤ count (pos 0) then fails_at e904 at else (do
      updated ← ok_or (fits (available +ℤ count)) (error_at (invalid_error e905) at)
      step_on tid (set_permits r updated s))
