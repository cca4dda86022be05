-- ===== src/Interp/Ownership/Resume.antt =====
-- src/interp/exec.rs: resuming a blocked thread respects the other threads and the capacity.
use conc_ir.Prelude.{◌==◌, ◌≡◌, refl, true, Option, none, some, List, head?, if◌then◌else◌, arith}
use conc_ir.Prelude.Int.{ℤ, leb_ℤ, ◌-ℤ◌}
use conc_ir.Prelude.Map.{get, insert, get-insert_self, nat_key}
use conc_ir.Sem.Outcome.{ResourceId, ThreadId, FrameId, Result, ok, err, panic, ◌>>=◌, unwrap}
use conc_ir.Sem.Value.{Value}
use conc_ir.Sem.Program.{SemResource, resource}
use conc_ir.Interp.State.{
  MachineState, ChannelState, PendingSend, BlockReason, set_runnable, advance,
}
use conc_ir.Interp.Access.{
  Interpreter, disabled, try_write_dst, complete, recv_dst_of, deliver_to_recv, permits_of,
}
use conc_ir.Interp.Sync.{set_permits, is_free, queue_of}
use conc_ir.Interp.Channels.{
  set_channel, with_channel, drop_send, drop_recv, push_buffer, pop_buffer, receivers_of,
  senders_of, has_space, buffer_head, or_discard,
}
use conc_ir.Interp.Resume.{
  wake, resume_lock, needed, drop_permit_waiter, resume_semaphore, pending_of, take_send, pair_send,
  resumed_send, resume_send, pair_recv, take_buffered, resume_recv, resume_op,
}
use conc_ir.Interp.Ownership.Relation.{
  Post, Opt, Fires, Kept, kept, same, Post-bind, Post-any, Post-if, Post-if_known, Post-panic,
}
use conc_ir.Interp.Ownership.Keeping.{
  set_runnable-Kept, complete-Kept, try_write-Kept, deliver_to_recv-Kept,
}
use conc_ir.Interp.Ownership.Respect.{
  Bounded, Respects, keeps, then-Respects, set_channel-Respects, set_permits-Respects, fires_ok,
  disabled_ok, error_ok, if_written_ok, advance-Respects,
}
use conc_ir.Interp.Ownership.Sync.{take_mutex-Respects, left_over}
use conc_ir.Interp.Ownership.Channels.{Shrinks, pop_shrinks, shrunk-Respects, push-Respects}

module _ (it : Interpreter) (tid : ThreadId) where
  wake-Respects :
      (s s' : MachineState) → Respects it tid s s' → Post (Fires (Respects it tid s)) (wake tid s')
  wake-Respects s s' x =
      Post-bind _ (advance tid (set_runnable tid s')) _
        (advance-Respects tid _ (then-Respects x (keeps (set_runnable-Kept tid s'))))
        (λ s'' y. fires_ok _ s'' y)

  resume_lock-Respects :
      (r : ResourceId) (s : MachineState) → Post (Fires (Respects it tid s)) (resume_lock tid r s)
  unfolding resume_lock
  resume_lock-Respects r s =
      Post-if_known _ (is_free (get r s.store.mutexes)) _ _
        (λ t. wake-Respects s _ (take_mutex-Respects it tid r s t)) (λ f. disabled_ok _)

  drop_permit_waiter-Kept :
      (r : ResourceId) (o : Option (List (ThreadId × ℤ))) (s : MachineState)
      → Kept s (drop_permit_waiter tid r o s)
  drop_permit_waiter-Kept r none s = same s
  drop_permit_waiter-Kept r (some q) s = kept refl refl refl

  resume_semaphore-Respects :
      (r : ResourceId) (s : MachineState)
      → Post (Fires (Respects it tid s)) (resume_semaphore tid r s)
  unfolding resume_semaphore
  resume_semaphore-Respects r s = known (needed tid (queue_of (get r s.sem_waiters)))
    where
      known :
          (o : Option ℤ)
          → Post (Fires (Respects it tid s)) (elim o [
            | none ↦ disabled
            | some need ↦
                if leb_ℤ need (permits_of (get r s.store.semaphores))
                then (let s' = set_permits r (permits_of (get r s.store.semaphores) -ℤ need) s in
                    wake tid (drop_permit_waiter tid r (get r s'.sem_waiters) s'))
                else disabled
          ])
      known none = disabled_ok _
      known (some need) =
          Post-if_known _ (leb_ℤ need (permits_of (get r s.store.semaphores))) _ _
            (λ t. wake-Respects s _ (
              then-Respects
                (set_permits-Respects r _ s
                  (λ n. left_over it tid need (permits_of (get r s.store.semaphores)) t))
                (keeps (drop_permit_waiter-Kept r (get r s.sem_waiters) _))))
            (λ f. disabled_ok _)

  pair_send-Respects :
      (recv : ThreadId) (c : ResourceId) (o : Option MachineState) (s : MachineState)
      → Opt (Kept s) o
      → Post (Fires (Respects it tid s)) (pair_send tid recv c o)
  unfolding Shrinks
  pair_send-Respects recv c o s k = if_written_ok _ _ o k (λ s' k'.
      Post-bind _ (with_channel c (take_send tid) s') _
        (shrunk-Respects it tid c (take_send tid) s' (λ ch. omega arith))
        (λ a x.
          Post-bind _ (with_channel c (drop_recv recv) a) _
            (shrunk-Respects it tid c (drop_recv recv) a (λ ch. omega arith))
            (λ b y. Post-bind _ (complete recv b) _ (complete-Kept recv b) (λ d k''.
              wake-Respects s d
                (then-Respects (keeps k') (then-Respects x (then-Respects y (keeps k''))))))))

  -- The value moves from the queue of the senders to the buffer.
  refill-Respects :
      (c : ResourceId) (s : MachineState) (res : SemResource) (v : Value) (o : Option ChannelState)
      → get c s.store.channels ≡ o
      → resource it.program c ≡ ok res
      → has_space res.capacity o ≡ true
      → Post (Fires (Respects it tid s)) (
          (unwrap o >>= λ ch. ok (set_channel c (take_send tid ch) s)) >>= λ s'.
          with_channel c (push_buffer v) s' >>= λ s''. wake tid s'')
  unfolding Bounded
  refill-Respects c s res v none g e t = Post-panic _
  refill-Respects c s res v (some ch) g e t =
      Post-bind _ (with_channel c (push_buffer v) (set_channel c (take_send tid ch) s)) _
        (push-Respects it tid c v res _ e space)
        (λ b y. wake-Respects s b (
          then-Respects
            (set_channel-Respects c (take_send tid ch) s (λ res' b e'. b c ch res' g e')) y))
    where
      space : has_space res.capacity (get c (insert c (take_send tid ch) s.store.channels)) ≡ true
      space = rw (get-insert_self c (take_send tid ch) s.store.channels) t

  resume_send-Respects :
      (c : ResourceId) (s : MachineState)
      → Post (Fires (Respects it tid s)) (resume_send it tid c s)
  unfolding resume_send resumed_send Shrinks
  resume_send-Respects c s = known (resource it.program c) refl
    where
      send_later :
          (recv : ThreadId) (o : Option Value)
          → Post (Fires (Respects it tid s)) (elim o [
            | none ↦ disabled
            | some v ↦ deliver_to_recv it recv v s >>= λ s'. pair_send tid recv c s'
          ])
      send_later recv none = disabled_ok _
      send_later recv (some v) =
          Post-bind _ (deliver_to_recv it recv v s) _ (deliver_to_recv-Kept it recv v s)
            (λ o k. pair_send-Respects recv c o s k)

      meet :
          (o : Option ThreadId)
          → Post (Fires (Respects it tid s)) (elim o [
            | none ↦ disabled
            | some recv ↦ elim (pending_of tid (senders_of (get c s.store.channels))) [
              | none ↦ disabled
              | some v ↦ deliver_to_recv it recv v s >>= λ s'. pair_send tid recv c s'
            ]
          ])
      meet none = disabled_ok _
      meet (some recv) = send_later recv (pending_of tid (senders_of (get c s.store.channels)))

      buffer :
          (res : SemResource) (o : Option Value)
          → resource it.program c ≡ ok res
          → has_space res.capacity (get c s.store.channels) ≡ true
          → Post (Fires (Respects it tid s)) (elim o [
            | none ↦ disabled
            | some v ↦ with_channel c (take_send tid) s >>= λ s'.
                with_channel c (push_buffer v) s' >>= λ s''. wake tid s''
          ])
      buffer res none e t = disabled_ok _
      buffer res (some v) e t = refill-Respects c s res v (get c s.store.channels) refl e t

      known :
          (m : Result SemResource)
          → resource it.program c ≡ m
          → Post (Fires (Respects it tid s)) (m >>= λ res. resumed_send it tid c s res)
      known (err e) h = error_ok _ _
      known panic h = Post-panic _
      known (ok res) h =
          Post-if _ (res.capacity == 0) _ _ (meet (head? (receivers_of (get c s.store.channels)))) (
            Post-if_known _ (has_space res.capacity (get c s.store.channels)) _ _
              (λ t. buffer res (pending_of tid (senders_of (get c s.store.channels))) h t)
              (λ f. disabled_ok _))

  pair_recv-Respects :
      (sender : ThreadId) (c : ResourceId) (o : Option MachineState) (s : MachineState)
      → Opt (Kept s) o
      → Post (Fires (Respects it tid s)) (pair_recv tid sender c o)
  unfolding Shrinks
  pair_recv-Respects sender c o s k = if_written_ok _ _ o k (λ s' k'.
      Post-bind _ (with_channel c (drop_send sender) s') _
        (shrunk-Respects it tid c (drop_send sender) s' (λ ch. omega arith))
        (λ a x.
          Post-bind _ (complete sender a) _ (complete-Kept sender a)
            (λ b k''. wake-Respects s b (then-Respects (keeps k') (then-Respects x (keeps k''))))))

  take_buffered-Respects :
      (c : ResourceId) (o : Option MachineState) (s : MachineState)
      → Opt (Kept s) o
      → Post (Fires (Respects it tid s)) (take_buffered tid c o)
  unfolding Shrinks
  take_buffered-Respects c o s k = if_written_ok _ _ o k (λ s' k'.
      Post-bind _ (with_channel c pop_buffer s') _
        (shrunk-Respects it tid c pop_buffer s' (λ ch. pop_shrinks ch.buffer))
        (λ a x.
          Post-bind _ (with_channel c (drop_recv tid) a) _
            (shrunk-Respects it tid c (drop_recv tid) a (λ ch. omega arith))
            (λ b y. wake-Respects s b (then-Respects (keeps k') (then-Respects x y)))))

  resume_recv-Respects :
      (fid : FrameId) (c : ResourceId) (s : MachineState)
      → Post (Fires (Respects it tid s)) (resume_recv it tid fid c s)
  unfolding resume_recv
  resume_recv-Respects fid c s = Post-any _ (resource it.program c) _ (λ res.
      Post-if _ (res.capacity == 0) _ _ (meet (head? (senders_of (get c s.store.channels))))
        (take (buffer_head (get c s.store.channels))))
    where
      meet :
          (o : Option PendingSend)
          → Post (Fires (Respects it tid s)) (elim o [
            | none ↦ disabled
            | some send ↦ recv_dst_of it s tid >>= λ dst.
                try_write_dst it fid (or_discard dst) send.value s >>= λ s'.
                pair_recv tid send.thread c s'
          ])
      meet none = disabled_ok _
      meet (some send) = Post-any _ (recv_dst_of it s tid) _ (λ dst.
          Post-bind _ (try_write_dst it fid (or_discard dst) send.value s) _
            (try_write-Kept it fid (or_discard dst) send.value s)
            (λ o k. pair_recv-Respects send.thread c o s k))

      take :
          (o : Option Value)
          → Post (Fires (Respects it tid s)) (elim o [
            | none ↦ disabled
            | some v ↦ recv_dst_of it s tid >>= λ dst.
                try_write_dst it fid (or_discard dst) v s >>= λ s'. take_buffered tid c s'
          ])
      take none = disabled_ok _
      take (some v) = Post-any _ (recv_dst_of it s tid) _ (λ dst.
          Post-bind _ (try_write_dst it fid (or_discard dst) v s) _
            (try_write-Kept it fid (or_discard dst) v s) (λ o k. take_buffered-Respects c o s k))

  pub resume_op-Respects :
      (fid : FrameId) (reason : BlockReason) (s : MachineState)
      → Post (Fires (Respects it tid s)) (resume_op it tid fid reason s)
  unfolding resume_op
  resume_op-Respects fid (BlockReason.lock r) s = resume_lock-Respects r s
  resume_op-Respects fid (BlockReason.semaphore r) s = resume_semaphore-Respects r s
  resume_op-Respects fid (BlockReason.channel_send c) s = resume_send-Respects c s
  resume_op-Respects fid (BlockReason.channel_recv c) s = resume_recv-Respects fid c s
  resume_op-Respects fid (BlockReason.condvar c l) s = disabled_ok _
  resume_op-Respects fid (BlockReason.join h) s = disabled_ok _
  resume_op-Respects fid (BlockReason.scope id) s = disabled_ok _
