-- ===== src/Petri/Safety/Waits.antt =====
-- src/petri/exec.rs: what firing the transitions on waiting threads does to the places of mutexes,
-- semaphores and channels.
use conc_ir.Prelude.{
  ◌≡◌, refl, ◌∙◌, ap, inl, inr, true, false, not, Option, none, some, List, [], ◌∷◌, every, head?,
  if◌then◌else◌,
}
use conc_ir.Prelude.Int.{ℤ, leb_ℤ, ltb_ℤ}
use conc_ir.Sem.Outcome.{ResourceId, ThreadId, FrameId, Location, ok, ◌>>=◌, unwrap}
use conc_ir.Interp.Ownership.Relation.{
  Post, Opt, Post-bind, Post-any, Post-map, Post-if, Post-if_known, Post-panic,
}
use conc_ir.Petri.Net.{PlaceId, PlaceKey}
use conc_ir.Petri.State.{
  free, held, NetToken, token_ids, NetState, place_tokens, put, take_token, set_mutex, single,
  read_data, read_mutex, as_mutex,
}
use conc_ir.Petri.Engine.{Engine, place, put_control_next, set_blocked, fires, disabled, if_some}
use conc_ir.Petri.Sync.{
  is_free, held_by, fire_lock_acquire, fire_condvar_wait, requeue, as_waiter, fire_hit,
  fire_notify_hit, is_waiter, fire_notify_miss, or_unchanged, requeue_all, fire_notify_all,
  count_of, or_zero, fire_sem_block, fire_sem_grant,
}
use conc_ir.Petri.System.{ids_or_zero}
use conc_ir.Petri.Safety.Relation.{
  Fires, Injective, is_sync, Kept, Steps, unchanged, then-Kept, kept-Steps, Steps-then, then-Steps,
  put-Kept, take-Kept, Loose-key,
}
use conc_ir.Petri.Safety.Keeping.{
  LooseOut, set_blocked-Kept, disabled_ok, error_ok, fires_ok, if_some_ok, move_on_ok,
  put_next-Kept,
}
use conc_ir.Petri.Safety.Sync.{
  free_inv, held_by_inv, minus_nonneg, mutex_set-Steps, sem_set-Steps, at_place,
}

-- The thread of a waiting token.
abbrev pub waiter_of : NetToken → ThreadId
waiter_of token = (ids_or_zero (token_ids token)).0

module _ (eng : Engine) (inj : Injective eng) where
  read_mutex-Kept :
      (r : ResourceId) (pid : PlaceId) {s s' : NetState}
      → place eng (PlaceKey.mutex r) ≡ some pid
      → Kept eng s s'
      → read_mutex pid s' ≡ read_mutex pid s
  unfolding read_mutex single
  read_mutex-Kept r pid e k =
      ap (λ ts. as_mutex (head? ts)) (k.tokens (PlaceKey.mutex r) pid refl e)

  -- A firing that ends with the control token of a waiting thread.
  pub next_ok :
      (tid : ThreadId) (token : NetToken) (s s' : NetState)
      → Steps eng tid s s'
      → Post (Fires (Steps eng tid s)) (put_control_next eng token s' >>= λ s''. fires s'')
  next_ok tid token s s' x =
      Post-bind _ (put_control_next eng token s') _ (put_next-Kept eng inj token s')
        (λ s'' k. fires_ok eng _ s'' (Steps-then eng tid x k))

  pub take_at_ok :
      (key : PlaceKey) (pid : PlaceId) (token : NetToken) (s : NetState)
      → is_sync key ≡ false
      → place eng key ≡ some pid
      → Opt (Kept eng s) (take_token pid token s)
  take_at_ok key pid token s h e = take-Kept eng pid token s (Loose-key eng inj key pid e h)

  pub lock_acquire-Steps :
      (token : NetToken) (r : ResourceId) (s : NetState)
      → Post (Fires (Steps eng (waiter_of token) s)) (fire_lock_acquire eng token r s)
  unfolding fire_lock_acquire
  lock_acquire-Steps token r s = choose (token_ids token)
    where
      taken :
          (tid : ThreadId) (pid : PlaceId) (s' : NetState)
          → place eng (PlaceKey.mutex r) ≡ some pid
          → is_free (read_mutex pid s) ≡ true
          → Kept eng s s'
          → Steps eng tid s (set_mutex pid (held tid) s')
      taken tid pid s' e h k = then-Steps eng tid k (
          mutex_set-Steps eng inj tid r pid _ s' e
            (inr (inl (read_mutex-Kept r pid e k ∙ free_inv _ h, refl))))

      choose :
          (o : Option (ThreadId × FrameId))
          → Post (Fires (Steps eng ((ids_or_zero o).0) s)) (
              unwrap o >>= λ p. unwrap (place eng (PlaceKey.mutex r)) >>= λ mtx.
              if is_free (read_mutex mtx s)
              then (unwrap (place eng (PlaceKey.lock_wait r)) >>= λ lw.
                  if_some
                    (λ s'. put_control_next eng token (set_mutex mtx (held (p.0)) s') >>= λ s''.
                      fires s'')
                    (take_token lw token s))
              else disabled)
      choose none = Post-panic (Fires (Steps eng 0 s))
      choose (some (tid, fid)) = at_place eng inj _ (place eng (PlaceKey.mutex r)) _ (λ mtx e.
          Post-if_known _ (is_free (read_mutex mtx s)) _ _
            (λ h. at_place eng inj _ (place eng (PlaceKey.lock_wait r)) _ (λ lw q.
              if_some_ok eng (Kept eng s) _ _ (take_token lw token s)
                (take_at_ok (PlaceKey.lock_wait r) lw token s refl q)
                (λ s' k. next_ok tid token s _ (taken tid mtx s' e h k))))
            (λ h. disabled_ok eng _))

  pub condvar_wait-Steps :
      (at : Option Location) (tid : ThreadId) (fid : FrameId) (c l : ResourceId) (s : NetState)
      → Post (Fires (Steps eng tid s)) (fire_condvar_wait eng at tid fid c l s)
  unfolding fire_condvar_wait
  condvar_wait-Steps at tid fid c l s =
      at_place eng inj _ (place eng (PlaceKey.mutex l)) _ (λ mtx e.
        Post-if_known _ (held_by tid (read_mutex mtx s)) _ _
          (λ h. at_place eng inj _ (place eng (PlaceKey.condvar c)) _ (λ cv q. fires_ok eng _ _ (
            Steps-then eng tid
              (mutex_set-Steps eng inj tid l mtx free s e (inr (inr (held_by_inv tid _ h, refl))))
              (then-Kept eng
                (put-Kept eng cv _ _ (Loose-key eng inj (PlaceKey.condvar c) cv q refl))
                (set_blocked-Kept eng tid _ _)))))
          (λ h. error_ok eng _ _))

  requeue-Kept :
      (wt : ThreadId) (wf : FrameId) (l : ResourceId) (s : NetState)
      → Post (Kept eng s) (requeue eng wt wf l s)
  unfolding requeue Post
  requeue-Kept wt wf l s = choose (place eng (PlaceKey.lock_wait l)) refl
    where
      choose :
          (o : Option PlaceId)
          → place eng (PlaceKey.lock_wait l) ≡ o
          → Post (Kept eng s) (
              unwrap o >>= λ lw.
              ok (set_blocked wt (PlaceKey.lock_wait l) (put lw (NetToken.lock_wait wt wf) s)))
      choose none e = tt
      choose (some lw) e =
          then-Kept eng (put-Kept eng lw _ _ (Loose-key eng inj (PlaceKey.lock_wait l) lw e refl))
            (set_blocked-Kept eng wt _ _)

  module _ (tid : ThreadId) (out : Option PlaceId) (loose : LooseOut eng out) where
    hit-Steps :
        (fid : FrameId) (c : ResourceId) (wait : Option NetToken)
        (o : Option (ThreadId × FrameId × ResourceId)) (s : NetState)
        → Post (Fires (Steps eng tid s)) (fire_hit eng out tid fid c wait o s)
    hit-Steps fid c wait none s = disabled_ok eng _
    hit-Steps fid c wait (some (wt, wf, l)) s = Post-any _ (unwrap wait) _ (λ token.
        at_place eng inj _ (place eng (PlaceKey.condvar c)) _ (λ cv q.
          if_some_ok eng (Kept eng s) _ _ (take_token cv token s)
            (take_at_ok (PlaceKey.condvar c) cv token s refl q)
            (λ s' k. Post-bind _ (requeue eng wt wf l s') _ (requeue-Kept wt wf l s') (λ s'' k'.
              move_on_ok eng tid out tid fid s s'' loose
                (kept-Steps eng tid (then-Kept eng k k'))))))

    pub notify_hit-Steps :
        (fid : FrameId) (wait : Option NetToken) (c : ResourceId) (s : NetState)
        → Post (Fires (Steps eng tid s)) (fire_notify_hit eng out tid fid wait c s)
    unfolding fire_notify_hit
    notify_hit-Steps fid wait c s = hit-Steps fid c wait (as_waiter wait) s

    pub notify_miss-Steps :
        (fid : FrameId) (c : ResourceId) (s : NetState)
        → Post (Fires (Steps eng tid s)) (fire_notify_miss eng out tid fid c s)
    unfolding fire_notify_miss
    notify_miss-Steps fid c s = Post-any _ (unwrap (place eng (PlaceKey.condvar c))) _ (λ cv.
        Post-if _ (every (λ t. not (is_waiter t)) (place_tokens cv s)) _ _
          (move_on_ok eng tid out tid fid s s loose (kept-Steps eng tid (unchanged eng s)))
          (disabled_ok eng _))

    or_unchanged-Kept :
        (s : NetState) (o : Option NetState) → Opt (Kept eng s) o → Kept eng s (or_unchanged s o)
    or_unchanged-Kept s none k = unchanged eng s
    or_unchanged-Kept s (some s') k = k

    requeue_all-Kept :
        (c : ResourceId) (cv : PlaceId) (ts : List NetToken) (s : NetState)
        → place eng (PlaceKey.condvar c) ≡ some cv
        → Post (Kept eng s) (requeue_all eng cv ts s)
    unfolding requeue_all Post
    requeue_all-Kept c cv [] s e = unchanged eng s
    requeue_all-Kept c cv (NetToken.condvar_wait wt wf l ∷ ts) s e =
        Post-bind _ (requeue eng wt wf l _) _ (requeue-Kept wt wf l _) (λ s' k.
          Post-map (requeue_all eng cv ts s') (requeue_all-Kept c cv ts s' e) (λ s'' k'.
            then-Kept eng
              (or_unchanged-Kept s (take_token cv (NetToken.condvar_wait wt wf l) s)
                (take_at_ok (PlaceKey.condvar c) cv (NetToken.condvar_wait wt wf l) s refl e))
              (then-Kept eng k k')))
    requeue_all-Kept c cv (NetToken.control t f ∷ ts) s e = requeue_all-Kept c cv ts s e
    requeue_all-Kept c cv (NetToken.datum v ∷ ts) s e = requeue_all-Kept c cv ts s e
    requeue_all-Kept c cv (NetToken.mutex m ∷ ts) s e = requeue_all-Kept c cv ts s e
    requeue_all-Kept c cv (NetToken.lock_wait t f ∷ ts) s e = requeue_all-Kept c cv ts s e
    requeue_all-Kept c cv (NetToken.send_wait t f v ∷ ts) s e = requeue_all-Kept c cv ts s e
    requeue_all-Kept c cv (NetToken.recv_wait t f ∷ ts) s e = requeue_all-Kept c cv ts s e
    requeue_all-Kept c cv (NetToken.sem_wait t f n ∷ ts) s e = requeue_all-Kept c cv ts s e
    requeue_all-Kept c cv (NetToken.join_wait t f ∷ ts) s e = requeue_all-Kept c cv ts s e
    requeue_all-Kept c cv (NetToken.scope_wait t f ∷ ts) s e = requeue_all-Kept c cv ts s e

    pub notify_all-Steps :
        (fid : FrameId) (c : ResourceId) (s : NetState)
        → Post (Fires (Steps eng tid s)) (fire_notify_all eng out tid fid c s)
    unfolding fire_notify_all
    notify_all-Steps fid c s = at_place eng inj _ (place eng (PlaceKey.condvar c)) _ (λ cv q.
        Post-bind _ (requeue_all eng cv (place_tokens cv s) s) _
          (requeue_all-Kept c cv (place_tokens cv s) s q)
          (λ s' k. move_on_ok eng tid out tid fid s s' loose (kept-Steps eng tid k)))

    pub sem_block-Steps :
        (fid : FrameId) (r : ResourceId) (count : ℤ) (s : NetState)
        → Post (Fires (Steps eng tid s)) (fire_sem_block eng out tid fid r count s)
    unfolding fire_sem_block
    sem_block-Steps fid r count s = Post-any _ (unwrap (place eng (PlaceKey.semaphore r))) _ (λ pid.
        Post-if _ (leb_ℤ count (or_zero (count_of (read_data pid s)))) _ _ (disabled_ok eng _) (
          at_place eng inj _ (place eng (PlaceKey.sem_wait r)) _ (λ sw q. fires_ok eng _ _ (
            kept-Steps eng tid (
              then-Kept eng
                (put-Kept eng sw _ _ (Loose-key eng inj (PlaceKey.sem_wait r) sw q refl))
                (set_blocked-Kept eng tid _ _))))))

  granted :
      (tid : ThreadId) (fid : FrameId) (need : ℤ) (r : ResourceId) (s : NetState)
      → Post (Fires (Steps eng tid s)) (fire_sem_grant eng (NetToken.sem_wait tid fid need) r s)
  unfolding fire_sem_grant
  granted tid fid need r s = at_place eng inj _ (place eng (PlaceKey.semaphore r)) _ (λ pid e.
      Post-if_known _ (ltb_ℤ (or_zero (count_of (read_data pid s))) need) _ _
        (λ h. disabled_ok eng _)
        (λ h. at_place eng inj _ (place eng (PlaceKey.sem_wait r)) _ (λ sw q.
          if_some_ok eng (Kept eng s) _ _ (take_token sw (NetToken.sem_wait tid fid need) s)
            (take_at_ok (PlaceKey.sem_wait r) sw (NetToken.sem_wait tid fid need) s refl q)
            (λ s' k. next_ok tid (NetToken.sem_wait tid fid need) s _ (
              then-Steps eng tid k (
                sem_set-Steps eng inj tid r pid _ s' e
                  (λ n. minus_nonneg (or_zero (count_of (read_data pid s))) need h)))))))

  pub sem_grant-Steps :
      (token : NetToken) (r : ResourceId) (s : NetState)
      → Post (Fires (Steps eng (waiter_of token) s)) (fire_sem_grant eng token r s)
  unfolding Post fire_sem_grant
  sem_grant-Steps (NetToken.sem_wait tid fid need) r s = granted tid fid need r s
  sem_grant-Steps (NetToken.control t f) r s = tt
  sem_grant-Steps (NetToken.datum v) r s = tt
  sem_grant-Steps (NetToken.mutex m) r s = tt
  sem_grant-Steps (NetToken.lock_wait t f) r s = tt
  sem_grant-Steps (NetToken.condvar_wait t f l) r s = tt
  sem_grant-Steps (NetToken.send_wait t f v) r s = tt
  sem_grant-Steps (NetToken.recv_wait t f) r s = tt
  sem_grant-Steps (NetToken.join_wait t f) r s = tt
  sem_grant-Steps (NetToken.scope_wait t f) r s = tt
