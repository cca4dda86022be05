-- ===== src/Interp/Ownership/Sync.antt =====
-- src/interp/exec.rs: the steps on variables, mutexes, condition variables and semaphores respect the
-- other threads.
use conc_ir.Prelude.{
  ◌≡◌, refl, ◌≢◌, ==_iff, true, false, not, Option, none, some, List, [], ◌∷◌, is_empty, retain,
  if◌then◌else◌, arith,
}
use conc_ir.Prelude.Int.{ℤ, pos, negsuc, ◌+ℤ◌, ◌-ℤ◌, leb_ℤ, fits}
use conc_ir.Prelude.Map.{get, nat_key}
use conc_ir.Sem.Outcome.{
  ResourceId, ThreadId, FrameId, SlotRef, Location, e900, e905, error_at, invalid_error, ◌>>=◌,
  unwrap, ok_or,
}
use conc_ir.Sem.Value.{Value, within_type, value_eq}
use conc_ir.Sem.Eval.{LExpr}
use conc_ir.Sem.Program.{SemFunction}
use conc_ir.Interp.State.{
  MachineState, MutexState, free, held, CondvarState, BlockReason, lock, condvar, semaphore,
  read_shared, block, advance, write_dst,
}
use conc_ir.Interp.Access.{Interpreter, fires_all, eval_in, try_write_dst, holds_mutex, permits_of}
use conc_ir.Interp.Sync.{
  step_on, target_ok, step_assign_local, write_opt, step_read_shared, set_var, set_atomic,
  domain_of, step_write_shared, step_atomic_load, step_atomic_store, step_atomic_cas, set_mutex,
  is_free, step_mutex_lock, step_mutex_unlock, set_condvar, step_condvar_wait, waiters_of,
  is_waiter, drop_waiter, wake_each, step_notify, relock_all, step_notify_all, set_permits,
  step_semaphore_acquire, step_semaphore_release,
}
use conc_ir.Interp.Ownership.Relation.{
  Post, Every, Opt, Fires, Kept, kept, Kept-if, same, then_same, Post-bind, Post-any, Post-if,
  Post-if_known, Post-ok,
}
use conc_ir.Interp.Ownership.Keeping.{block-Kept, write_dst-Kept, try_write-Kept}
use conc_ir.Interp.Ownership.Respect.{
  NonNegative, Respects, keeps, then-Respects, set_mutex-Respects, set_permits-Respects, fires_ok,
  disabled_ok, error_ok, if_written_ok, advance-Respects, step_on-Respects,
}

module _ (it : Interpreter) (tid : ThreadId) where
  pub assign_local-Respects :
      (fid : FrameId) (f : SemFunction) (target : SlotRef) (e : LExpr) (s : MachineState)
      → Post (Fires (Respects it tid s)) (step_assign_local it tid fid f target e s)
  unfolding step_assign_local
  assign_local-Respects fid f target e s = Post-any _ (eval_in it s fid e) _ (λ v.
      Post-any _ (target_ok f target v) _ (λ fits.
        Post-if _ fits _ _
          (Post-bind _ (write_dst fid target v s) _ (write_dst-Kept fid target v s)
            (λ s' k. step_on-Respects tid s' (keeps k)))
          (disabled_ok _)))

  write_opt-Kept :
      (fid : FrameId) (dst : Option SlotRef) (v : Value) (s : MachineState)
      → Post (Opt (Kept s)) (write_opt it fid dst v s)
  unfolding Post
  write_opt-Kept fid none v s = same s
  write_opt-Kept fid (some dst) v s = try_write-Kept it fid dst v s

  pub read_shared-Respects :
      (fid : FrameId) (r : ResourceId) (dst : Option SlotRef) (s : MachineState)
      → Post (Fires (Respects it tid s)) (step_read_shared it tid fid r dst s)
  unfolding step_read_shared
  read_shared-Respects fid r dst s =
      Post-any _ (ok_or (read_shared s.store r) (invalid_error e900)) _ (λ v.
        Post-bind _ (write_opt it fid dst v s) _ (write_opt-Kept fid dst v s)
          (λ o k. if_written_ok _ (step_on tid) o k (λ s' k'. step_on-Respects tid s' (keeps k'))))

  pub write_shared-Respects :
      (fid : FrameId) (r : ResourceId) (e : LExpr) (s : MachineState)
      → Post (Fires (Respects it tid s)) (step_write_shared it tid fid r e s)
  unfolding step_write_shared
  write_shared-Respects fid r e s = Post-any _ (eval_in it s fid e) _ (λ v.
      Post-any _ (domain_of it r) _ (λ ty.
        Post-if _ (within_type ty v) _ _
          (step_on-Respects tid (set_var r v s) (keeps (kept refl refl refl))) (disabled_ok _)))

  pub atomic_load-Respects :
      (fid : FrameId) (r : ResourceId) (dst : SlotRef) (s : MachineState)
      → Post (Fires (Respects it tid s)) (step_atomic_load it tid fid r dst s)
  unfolding step_atomic_load
  atomic_load-Respects fid r dst s =
      Post-any _ (ok_or (get r s.store.atomics) (invalid_error e900)) _ (λ v.
        Post-bind _ (try_write_dst it fid dst v s) _ (try_write-Kept it fid dst v s)
          (λ o k. if_written_ok _ (step_on tid) o k (λ s' k'. step_on-Respects tid s' (keeps k'))))

  pub atomic_store-Respects :
      (fid : FrameId) (r : ResourceId) (e : LExpr) (s : MachineState)
      → Post (Fires (Respects it tid s)) (step_atomic_store it tid fid r e s)
  unfolding step_atomic_store
  atomic_store-Respects fid r e s = Post-any _ (eval_in it s fid e) _ (λ v.
      Post-any _ (domain_of it r) _ (λ ty.
        Post-if _ (within_type ty v) _ _
          (step_on-Respects tid (set_atomic r v s) (keeps (kept refl refl refl))) (disabled_ok _)))

  pub atomic_cas-Respects :
      (fid : FrameId) (r : ResourceId) (expected desired : LExpr) (dst : SlotRef) (s : MachineState)
      → Post (Fires (Respects it tid s)) (step_atomic_cas it tid fid r expected desired dst s)
  unfolding step_atomic_cas
  atomic_cas-Respects fid r expected desired dst s =
      Post-any _ (eval_in it s fid expected) _ (λ exp.
        Post-any _ (eval_in it s fid desired) _ (λ des. Post-any _ (domain_of it r) _ (λ ty.
          Post-if _ (within_type ty des) _ _
            (Post-any _ (ok_or (get r s.store.atomics) (invalid_error e900)) _ (λ old.
              Post-bind _ (try_write_dst it fid dst old s) _ (try_write-Kept it fid dst old s)
                (λ o k. if_written_ok _ _ o k (λ s' k'.
                  step_on-Respects tid (if value_eq old exp then set_atomic r des s' else s') (
                    keeps (
                      then_same k'
                        (Kept-if (value_eq old exp) _ _ (kept refl refl refl) (same s'))))))))
            (disabled_ok _))))

  -- A free mutex, and one that the thread holds, is held by no other thread.
  not_others_free : (o : Option MutexState) → is_free o ≡ true → (h : ThreadId) → o ≢ some (held h)
  not_others_free none f h e = cc
  not_others_free (some free) f h e = cc
  not_others_free (some (held k)) f h e = cc

  not_others_own :
      (o : Option MutexState)
      → holds_mutex tid o ≡ true
      → (h : ThreadId) → h ≢ tid
      → o ≢ some (held h)
  not_others_own none t h ne e = cc
  not_others_own (some free) t h ne e = cc
  not_others_own (some (held k)) t h ne e = ne (h_is_tid)
    where
      h_is_tid : h ≡ tid
      h_is_tid = let (own, _) = ==_iff k tid in let k_is_tid = own t in cc

  pub take_mutex-Respects :
      (r : ResourceId) (s : MachineState)
      → is_free (get r s.store.mutexes) ≡ true
      → Respects it tid s (set_mutex r (held tid) s)
  take_mutex-Respects r s f =
      set_mutex-Respects r (held tid) s (λ h ne. not_others_free (get r s.store.mutexes) f h)
        (λ h ne e. ne (cc))

  release_mutex-Respects :
      (r : ResourceId) (s : MachineState)
      → holds_mutex tid (get r s.store.mutexes) ≡ true
      → Respects it tid s (set_mutex r free s)
  release_mutex-Respects r s t =
      set_mutex-Respects r free s (λ h ne. not_others_own (get r s.store.mutexes) t h ne)
        (λ h ne e. cc)

  block-Respects :
      (actor : ThreadId) (s s' : MachineState)
      → Respects it tid s s'
      → (reason : BlockReason) → Respects it tid s (block actor reason s')
  block-Respects actor s s' x reason = then-Respects x (keeps (block-Kept actor reason s'))

  pub mutex_lock-Respects :
      (r : ResourceId) (s : MachineState)
      → Post (Fires (Respects it tid s)) (step_mutex_lock tid r s)
  unfolding step_mutex_lock
  mutex_lock-Respects r s =
      Post-if_known _ (is_free (get r s.store.mutexes)) _ _
        (λ t. step_on-Respects tid _ (take_mutex-Respects r s t))
        (λ f. fires_ok _ _ (keeps (block-Kept tid (lock r) s)))

  pub mutex_unlock-Respects :
      (at : Location) (r : ResourceId) (s : MachineState)
      → Post (Fires (Respects it tid s)) (step_mutex_unlock at tid r s)
  unfolding step_mutex_unlock
  mutex_unlock-Respects at r s =
      Post-if_known _ (holds_mutex tid (get r s.store.mutexes)) _ _
        (λ t. step_on-Respects tid _ (release_mutex-Respects r s t)) (λ f. error_ok _ _)

  pub condvar_wait-Respects :
      (at : Location) (c l : ResourceId) (s : MachineState)
      → Post (Fires (Respects it tid s)) (step_condvar_wait at tid c l s)
  unfolding step_condvar_wait
  condvar_wait-Respects at c l s =
      Post-if_known _ (holds_mutex tid (get l s.store.mutexes)) _ _
        (λ t. Post-any _ (unwrap (get c s.store.condvars)) _ (λ cv. fires_ok _ _ (
          block-Respects tid s _
            (then-Respects (release_mutex-Respects l s t) (keeps (kept refl refl refl)))
            (condvar c l))))
        (λ f. error_ok _ _)

  drop_waiter-Respects :
      (c : ResourceId) (w : ThreadId) (l : ResourceId) (s : MachineState)
      → Respects it tid s (drop_waiter c w l s)
  drop_waiter-Respects c w l s = known (get c s.store.condvars)
    where
      known :
          (o : Option CondvarState)
          → Respects it tid s (elim o [
            | none ↦ s
            | some cv ↦
                set_condvar c
                  (record { waiters = retain (λ x. not (is_waiter w l x)) cv.waiters })
                  s
          ])
      known none = keeps (same s)
      known (some cv) = keeps (kept refl refl refl)

  wake_each-Respects :
      (c : ResourceId) (ws : List (ThreadId × ResourceId)) (s : MachineState)
      → Post (Every (Respects it tid s)) (wake_each tid c ws s)
  unfolding Every
  wake_each-Respects c [] s = Post-ok _ _ tt
  wake_each-Respects c ((w, l) ∷ ws) s =
      Post-bind _ (advance tid _) _
        (advance-Respects tid _ (block-Respects w s _ (drop_waiter-Respects c w l s) (lock l)))
        (λ s' x.
          Post-bind _ (wake_each tid c ws s) _ (wake_each-Respects c ws s)
            (λ rest xs. Post-ok _ _ (x, xs)))

  pub notify-Respects :
      (c : ResourceId) (s : MachineState) → Post (Fires (Respects it tid s)) (step_notify tid c s)
  unfolding step_notify
  notify-Respects c s =
      let ws = waiters_of (get c s.store.condvars) in
      Post-if _ (is_empty ws) _ _ (step_on-Respects tid s (keeps (same s))) (
        Post-bind _ (wake_each tid c ws s) (λ ss. fires_all ss) (wake_each-Respects c ws s)
          (λ ss xs. Post-ok _ _ xs))

  relock_all-Respects :
      (ws : List (ThreadId × ResourceId)) (s s' : MachineState)
      → Respects it tid s s'
      → Respects it tid s (relock_all ws s')
  relock_all-Respects [] s s' x = x
  relock_all-Respects ((w, l) ∷ ws) s s' x =
      relock_all-Respects ws s (block w (lock l) s') (block-Respects w s s' x (lock l))

  pub notify_all-Respects :
      (c : ResourceId) (s : MachineState)
      → Post (Fires (Respects it tid s)) (step_notify_all tid c s)
  unfolding step_notify_all
  notify_all-Respects c s = Post-any _ (unwrap (get c s.store.condvars)) _ (λ cv.
      step_on-Respects tid _ (relock_all-Respects cv.waiters s _ (keeps (kept refl refl refl))))

  pub left_over :
      (count available : ℤ)
      → leb_ℤ count available ≡ true
      → leb_ℤ (pos 0) (available -ℤ count) ≡ true
  unfolding ◌-ℤ◌
  left_over (pos a) (pos b) h = ground arith
  left_over (pos a) (negsuc b) h = ground arith
  left_over (negsuc a) (pos b) h = ground arith
  left_over (negsuc a) (negsuc b) h = ground arith

  pub semaphore_acquire-Respects :
      (at : Location) (r : ResourceId) (count : ℤ) (s : MachineState)
      → Post (Fires (Respects it tid s)) (step_semaphore_acquire at tid r count s)
  unfolding step_semaphore_acquire
  semaphore_acquire-Respects at r count s =
      let available = permits_of (get r s.store.semaphores) in
      Post-if _ (leb_ℤ count (pos 0)) _ _ (error_ok _ _) (
        Post-if_known _ (leb_ℤ count available) _ _
          (λ t.
            step_on-Respects tid _ (set_permits-Respects r _ s (λ n. left_over count available t)))
          (λ f. fires_ok _ _ (block-Respects tid s _ (keeps (kept refl refl refl)) (semaphore r))))

  added :
      (available count updated : ℤ)
      → leb_ℤ (pos 0) available ≡ true
      → leb_ℤ count (pos 0) ≡ false
      → fits (available +ℤ count) ≡ some updated
      → leb_ℤ (pos 0) updated ≡ true
  unfolding ◌+ℤ◌
  added (pos a) (pos b) updated h g e = ground arith
  added (pos a) (negsuc b) updated h g e = ground arith
  added (negsuc a) count updated h g e = ground arith

  pub semaphore_release-Respects :
      (at : Location) (r : ResourceId) (count : ℤ) (s : MachineState)
      → Post (Fires (Respects it tid s)) (step_semaphore_release at tid r count s)
  unfolding step_semaphore_release NonNegative
  semaphore_release-Respects at r count s =
      let available = permits_of (get r s.store.semaphores) in
      Post-if_known _ (leb_ℤ count (pos 0)) _ _ (λ t. error_ok _ _)
        (λ f. released (fits (available +ℤ count)) f refl)
    where
      released :
          (o : Option ℤ)
          → leb_ℤ count (pos 0) ≡ false
          → fits (permits_of (get r s.store.semaphores) +ℤ count) ≡ o
          → Post (Fires (Respects it tid s)) (
              ok_or o (error_at (invalid_error e905) at) >>= λ updated.
              step_on tid (set_permits r updated s))
      released none f e = error_ok _ _
      released (some updated) f e = step_on-Respects tid _ (
          set_permits-Respects r updated s
            (λ n. added (permits_of (get r s.store.semaphores)) count updated (n r) f e))
