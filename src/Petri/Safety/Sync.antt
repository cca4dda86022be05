-- ===== src/Petri/Safety/Sync.antt =====
-- src/petri/exec.rs: what firing the transitions on variables, mutexes, condition variables and
-- semaphores does to the places of mutexes, semaphores and channels.
use conc_ir.Prelude.{
  ◌≡◌, refl, ◌∙◌, ap, ==_iff, inl, inr, Bool, true, false, Option, none, some, if◌then◌else◌, arith,
}
use conc_ir.Prelude.Int.{ℤ, pos, ◌+ℤ◌, ◌-ℤ◌, leb_ℤ, ltb_ℤ, fits, in_i64}
use conc_ir.Sem.Outcome.{
  ResourceId, ThreadId, FrameId, SlotRef, Location, Result, ◌>>=◌, unwrap, ok_or, invalid_error,
  e900, e905,
}
use conc_ir.Sem.Value.{Value, int, as_int, within_type, value_eq}
use conc_ir.Sem.Eval.{LExpr}
use conc_ir.Interp.Ownership.Relation.{Post, Opt, Post-bind, Post-any, Post-if, Post-if_known}
use conc_ir.Petri.Net.{PlaceId, PlaceKey}
use conc_ir.Petri.State.{
  MutexToken, free, held, NetState, set_data, set_mutex, single, read_data, read_mutex,
}
use conc_ir.Petri.Engine.{Engine, Fired, place, eval_in, write_local, write_dst, move_on, located}
use conc_ir.Petri.Sync.{
  target_ok, target_slot, fire_assign_local, write_opt, fire_read, domain_of, fire_write,
  fire_atomic_cas, is_free, is_held, held_by, fire_lock_grant, fire_lock_block, fire_unlock,
  count_of, or_zero, fire_sem_acquire, fire_sem_release,
}
use conc_ir.Petri.Safety.Relation.{
  Fires, Injective, is_sync, Change, MutexChange, Kept, Steps, unchanged, then-Kept, kept-Steps,
  set-Kept, set-Steps, Loose-key,
}
use conc_ir.Petri.Safety.Keeping.{
  LooseOut, write_local-Kept, disabled_ok, error_ok, if_some_ok, move_on_ok, wait_at_ok,
  write_dst-Kept,
}

pub free_inv : (m : Option MutexToken) → is_free m ≡ true → m ≡ some free
free_inv none h = cc
free_inv (some free) h = refl
free_inv (some (held t)) h = cc

pub held_by_inv :
    (tid : ThreadId) (m : Option MutexToken) → held_by tid m ≡ true → m ≡ some (held tid)
held_by_inv tid none h = cc
held_by_inv tid (some free) h = cc
held_by_inv tid (some (held t)) h = ap (λ i. some (held i)) ((==_iff t tid).0 h)

pub minus_nonneg : (n c : ℤ) → ltb_ℤ n c ≡ false → leb_ℤ (pos 0) (n -ℤ c) ≡ true
unfolding ◌-ℤ◌
minus_nonneg n c h = ground arith

plus_nonneg :
    (n c : ℤ) → leb_ℤ c (pos 0) ≡ false → leb_ℤ (pos 0) n ≡ true → leb_ℤ (pos 0) (n +ℤ c) ≡ true
unfolding ◌+ℤ◌
plus_nonneg n c h k = ground arith

fits_inv : (a b : ℤ) → fits a ≡ some b → b ≡ a
fits_inv a b h = choose (in_i64 a) h
  where
    choose : (t : Bool) → (if t then some a else none) ≡ some b → b ≡ a
    choose true e = cc
    choose false e = cc

module _ (eng : Engine) (inj : Injective eng) where
  pub mutex_set-Steps :
      (tid : ThreadId) (r : ResourceId) (pid : PlaceId) (m : MutexToken) (s : NetState)
      → place eng (PlaceKey.mutex r) ≡ some pid
      → MutexChange tid (read_mutex pid s) (some m)
      → Steps eng tid s (set_mutex pid m s)
  unfolding set_mutex read_mutex single Change
  mutex_set-Steps tid r pid m s e c = set-Steps eng inj tid (PlaceKey.mutex r) pid _ s e c

  pub sem_set-Steps :
      (tid : ThreadId) (r : ResourceId) (pid : PlaceId) (n : ℤ) (s : NetState)
      → place eng (PlaceKey.semaphore r) ≡ some pid
      → (leb_ℤ (pos 0) (or_zero (count_of (read_data pid s))) ≡ true → leb_ℤ (pos 0) n ≡ true)
      → Steps eng tid s (set_data pid (int n) s)
  unfolding set_data read_data single Change as_int
  sem_set-Steps tid r pid n s e c = set-Steps eng inj tid (PlaceKey.semaphore r) pid _ s e c

  -- The rest of a firing on the place of a key.
  pub at_place :
      (P : NetState → Type 0) (o : Option PlaceId) (rest : PlaceId → Result Fired)
      → ((pid : PlaceId) → o ≡ some pid → Post (Fires P) (rest pid))
      → Post (Fires P) (unwrap o >>= rest)
  unfolding Post
  at_place P none rest k = tt
  at_place P (some pid) rest k = k pid refl

  module _ (tid : ThreadId) (out : Option PlaceId) (loose : LooseOut eng out) where
    pub assign_local-Steps :
        (fid : FrameId) (target : SlotRef) (e : LExpr) (s : NetState)
        → Post (Fires (Steps eng tid s)) (fire_assign_local eng out tid fid target e s)
    unfolding fire_assign_local
    assign_local-Steps fid target e s = Post-any _ (eval_in eng s fid e) _ (λ v.
        Post-any _ (target_ok eng s fid target v) _ (λ fits.
          Post-if _ fits _ _
            (Post-bind _ (write_local fid (target_slot target) v s) _
              (write_local-Kept eng fid _ v s)
              (λ s' k. move_on_ok eng tid out tid fid s s' loose (kept-Steps eng tid k)))
            (disabled_ok eng _)))

    write_opt-Kept :
        (fid : FrameId) (dst : Option SlotRef) (v : Value) (s : NetState)
        → Post (Opt (Kept eng s)) (write_opt eng fid dst v s)
    unfolding Post
    write_opt-Kept fid none v s = unchanged eng s
    write_opt-Kept fid (some dst) v s = write_dst-Kept eng inj fid dst v s

    pub read-Steps :
        (fid : FrameId) (key : PlaceKey) (dst : Option SlotRef) (s : NetState)
        → Post (Fires (Steps eng tid s)) (fire_read eng out tid fid key dst s)
    unfolding fire_read
    read-Steps fid key dst s = Post-any _ (unwrap (place eng key)) _ (λ pid.
        Post-any _ (ok_or (read_data pid s) (invalid_error e900)) _ (λ v.
          Post-bind _ (write_opt eng fid dst v s) _ (write_opt-Kept fid dst v s) (λ o k.
            if_some_ok eng (Kept eng s) _ _ o k
              (λ s' k'. move_on_ok eng tid out tid fid s s' loose (kept-Steps eng tid k')))))

    data-Kept :
        (key : PlaceKey) (pid : PlaceId) (v : Value) (s : NetState)
        → is_sync key ≡ false
        → place eng key ≡ some pid
        → Kept eng s (set_data pid v s)
    unfolding set_data
    data-Kept key pid v s h e = set-Kept eng pid _ s (Loose-key eng inj key pid e h)

    pub write-Steps :
        (fid : FrameId) (key : PlaceKey) (r : ResourceId) (e : LExpr) (s : NetState)
        → is_sync key ≡ false
        → Post (Fires (Steps eng tid s)) (fire_write eng out tid fid key r e s)
    unfolding fire_write
    write-Steps fid key r e s h = Post-any _ (eval_in eng s fid e) _ (λ v.
        Post-any _ (domain_of eng r) _ (λ ty.
          Post-if _ (within_type ty v) _ _
            (at_place _ (place eng key) _ (λ pid p.
              move_on_ok eng tid out tid fid s _ loose
                (kept-Steps eng tid (data-Kept key pid v s h p))))
            (disabled_ok eng _)))

    exchanged-Kept :
        (r : ResourceId) (pid : PlaceId) (v : Value) (b : Bool) (s : NetState)
        → place eng (PlaceKey.atomic r) ≡ some pid
        → Kept eng s (if b then set_data pid v s else s)
    exchanged-Kept r pid v true s e = data-Kept (PlaceKey.atomic r) pid v s refl e
    exchanged-Kept r pid v false s e = unchanged eng s

    pub atomic_cas-Steps :
        (fid : FrameId) (r : ResourceId) (expected desired : LExpr) (dst : SlotRef) (s : NetState)
        → Post (Fires (Steps eng tid s)) (fire_atomic_cas eng out tid fid r expected desired dst s)
    unfolding fire_atomic_cas
    atomic_cas-Steps fid r expected desired dst s =
        Post-any _ (eval_in eng s fid expected) _ (λ exp.
          Post-any _ (eval_in eng s fid desired) _ (λ des. Post-any _ (domain_of eng r) _ (λ ty.
            Post-if _ (within_type ty des) _ _
              (at_place _ (place eng (PlaceKey.atomic r)) _ (λ pid p.
                Post-any _ (ok_or (read_data pid s) (invalid_error e900)) _ (λ old.
                  Post-bind _ (write_dst eng fid dst old s) _ (write_dst-Kept eng inj fid dst old s)
                    (λ o k. if_some_ok eng (Kept eng s) _ _ o k (λ s' k'.
                      move_on_ok eng tid out tid fid s _ loose (
                        kept-Steps eng tid (
                          then-Kept eng k' (exchanged-Kept r pid des (value_eq old exp) s' p))))))))
              (disabled_ok eng _))))

    pub lock_grant-Steps :
        (fid : FrameId) (r : ResourceId) (s : NetState)
        → Post (Fires (Steps eng tid s)) (fire_lock_grant eng out tid fid r s)
    unfolding fire_lock_grant
    lock_grant-Steps fid r s = at_place _ (place eng (PlaceKey.mutex r)) _ (λ pid p.
        Post-if_known _ (is_free (read_mutex pid s)) _ _
          (λ h.
            move_on_ok eng tid out tid fid s _ loose
              (mutex_set-Steps tid r pid _ s p (inr (inl (free_inv _ h, refl)))))
          (λ h. disabled_ok eng _))

    pub lock_block-Steps :
        (fid : FrameId) (r : ResourceId) (s : NetState)
        → Post (Fires (Steps eng tid s)) (fire_lock_block eng out tid fid r s)
    unfolding fire_lock_block
    lock_block-Steps fid r s = Post-any _ (unwrap (place eng (PlaceKey.mutex r))) _ (λ pid.
        Post-if _ (is_held (read_mutex pid s)) _ _ (wait_at_ok eng tid out _ tid _ s loose)
          (disabled_ok eng _))

    pub unlock-Steps :
        (at : Option Location) (fid : FrameId) (r : ResourceId) (s : NetState)
        → Post (Fires (Steps eng tid s)) (fire_unlock eng at out tid fid r s)
    unfolding fire_unlock
    unlock-Steps at fid r s = at_place _ (place eng (PlaceKey.mutex r)) _ (λ pid p.
        Post-if_known _ (held_by tid (read_mutex pid s)) _ _
          (λ h.
            move_on_ok eng tid out tid fid s _ loose
              (mutex_set-Steps tid r pid _ s p (inr (inr (held_by_inv tid _ h, refl)))))
          (λ h. error_ok eng _ _))

    pub sem_acquire-Steps :
        (fid : FrameId) (r : ResourceId) (count : ℤ) (s : NetState)
        → Post (Fires (Steps eng tid s)) (fire_sem_acquire eng out tid fid r count s)
    unfolding fire_sem_acquire
    sem_acquire-Steps fid r count s = at_place _ (place eng (PlaceKey.semaphore r)) _ (λ pid p.
        Post-any _ (ok_or (count_of (read_data pid s)) (invalid_error e900)) _ (λ n.
          Post-if_known _ (ltb_ℤ n count) _ _ (λ h. disabled_ok eng _)
            (λ h.
              move_on_ok eng tid out tid fid s _ loose
                (sem_set-Steps tid r pid _ s p (λ k. minus_nonneg n count h)))))

    released :
        (fid : FrameId) (r : ResourceId) (count : ℤ) (pid : PlaceId) (s : NetState)
        (at : Option Location)
        → leb_ℤ count (pos 0) ≡ false
        → place eng (PlaceKey.semaphore r) ≡ some pid
        → (o : Option ℤ) → fits (or_zero (count_of (read_data pid s)) +ℤ count) ≡ o
        → Post (Fires (Steps eng tid s)) (
            ok_or o (located at (invalid_error e905)) >>= λ updated.
            move_on eng out tid fid (set_data pid (int updated) s))
    unfolding Post
    released fid r count pid s at c p none e = tt
    released fid r count pid s at c p (some n) e = move_on_ok eng tid out tid fid s _ loose (
        sem_set-Steps tid r pid n s p (λ k.
          ap (leb_ℤ (pos 0)) (fits_inv _ n e)
          ∙ plus_nonneg (or_zero (count_of (read_data pid s))) count c k))

    pub sem_release-Steps :
        (at : Option Location) (fid : FrameId) (r : ResourceId) (count : ℤ) (s : NetState)
        → leb_ℤ count (pos 0) ≡ false
        → Post (Fires (Steps eng tid s)) (fire_sem_release eng at out tid fid r count s)
    unfolding fire_sem_release
    sem_release-Steps at fid r count s c =
        at_place _ (place eng (PlaceKey.semaphore r)) _
          (λ pid p. released fid r count pid s at c p _ refl)
