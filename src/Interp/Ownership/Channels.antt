-- ===== src/Interp/Ownership/Channels.antt =====
-- src/interp/exec.rs: sending and receiving respect the other threads and the capacity.
use conc_ir.Prelude.{
  ℕ, ◌==◌, ◌≡◌, refl, ◌≤◌, ◌<◌, ltb→lt, true, Option, none, some, List, [], ◌∷◌, ◌++◌, is_empty,
  length, length-snoc, tail, arith,
}
use conc_ir.Prelude.Map.{get, nat_key}
use conc_ir.Sem.Outcome.{
  ResourceId, ThreadId, FrameId, SlotRef, Result, ok, err, panic, ◌>>=◌, unwrap,
}
use conc_ir.Sem.Value.{Value}
use conc_ir.Sem.Eval.{LExpr}
use conc_ir.Sem.Program.{SemResource, resource}
use conc_ir.Interp.State.{
  MachineState, ChannelState, PendingSend, channel_send, channel_recv, advance,
}
use conc_ir.Interp.Access.{
  Interpreter, fires_all, eval_in, try_write_dst, complete, recv_dst_of, deliver_to_recv,
  within_option,
}
use conc_ir.Interp.Channels.{
  set_channel, with_channel, add_send, add_recv, drop_send, drop_recv, push_buffer, pop_buffer,
  receivers_of, senders_of, has_space, buffer_head, or_discard, block_send, block_recv,
  meet_receiver, meet_receivers, sent, step_channel_send, meet_sender, meet_senders, recv_buffered,
  step_channel_recv,
}
use conc_ir.Interp.Ownership.Relation.{
  Post, Every, Opt, Fires, Kept, Post-bind, Post-any, Post-if, Post-if_known, Post-ok, Post-panic,
  Every-append,
}
use conc_ir.Interp.Ownership.Keeping.{
  block-Kept, complete-Kept, try_write-Kept, deliver_to_recv-Kept,
}
use conc_ir.Interp.Ownership.Respect.{
  Bounded, error_ok, Respects, keeps, then-Respects, set_channel-Respects, fires_ok, disabled_ok,
  if_written_ok, advance-Respects, step_on-Respects,
}

-- A change of a channel that keeps the length of its buffer, or shortens it.
unfoldable pub Shrinks : (ChannelState → ChannelState) → Type 0
Shrinks f = (ch : ChannelState) → length (f ch).buffer ≤ length ch.buffer

pub pop_shrinks : {A : Type 0} (xs : List A) → length (tail xs) ≤ length xs
pop_shrinks [] = omega arith
pop_shrinks (x ∷ xs) = omega arith

module _ (it : Interpreter) (tid : ThreadId) where
  changed-Respects :
      (c : ResourceId) (f : ChannelState → ChannelState) (s : MachineState)
      → ((ch : ChannelState) (res : SemResource)
          → get c s.store.channels ≡ some ch
          → resource it.program c ≡ ok res
          → length ch.buffer ≤ res.capacity
          → length (f ch).buffer ≤ res.capacity)
      → Post (Respects it tid s) (with_channel c f s)
  unfolding Bounded
  changed-Respects c f s room = known (get c s.store.channels) refl
    where
      known :
          (o : Option ChannelState)
          → get c s.store.channels ≡ o
          → Post (Respects it tid s) (unwrap o >>= λ ch. ok (set_channel c (f ch) s))
      known none g = Post-panic _
      known (some ch) g =
          Post-ok _ _
            (set_channel-Respects c (f ch) s (λ res b e. room ch res g e (b c ch res g e)))

  pub shrunk-Respects :
      (c : ResourceId) (f : ChannelState → ChannelState) (s : MachineState)
      → Shrinks f
      → Post (Respects it tid s) (with_channel c f s)
  unfolding Shrinks
  shrunk-Respects c f s shrinks =
      changed-Respects c f s (λ ch res g e b. let less = shrinks ch in omega arith)

  space_left :
      (limit : ℕ) (o : Option ChannelState) (ch : ChannelState)
      → has_space limit o ≡ true
      → o ≡ some ch
      → length ch.buffer < limit
  space_left limit none ch h e = cc
  space_left limit (some ch') ch h e = rw (same_ch) (ltb→lt (length ch'.buffer) limit h)
    where
      same_ch : ch ≡ ch'
      same_ch = cc

  pub push-Respects :
      (c : ResourceId) (v : Value) (res : SemResource) (s : MachineState)
      → resource it.program c ≡ ok res
      → has_space res.capacity (get c s.store.channels) ≡ true
      → Post (Respects it tid s) (with_channel c (push_buffer v) s)
  push-Respects c v res s e h =
      changed-Respects c (push_buffer v) s (λ ch res' g e' b. room ch res' g e')
    where
      same_resource :
          (a b : SemResource)
          → resource it.program c ≡ ok a
          → resource it.program c ≡ ok b
          → a.capacity ≡ b.capacity
      same_resource a b e e' = cc

      room :
          (ch : ChannelState) (res' : SemResource)
          → get c s.store.channels ≡ some ch
          → resource it.program c ≡ ok res'
          → length (ch.buffer ++ v ∷ []) ≤ res'.capacity
      room ch res' g e' =
          let less = space_left res.capacity (get c s.store.channels) ch h g in
          let longer = length-snoc ch.buffer v in
          let alike = same_resource res res' e e' in omega arith

  block_send-Respects :
      (c : ResourceId) (v : Value) (s : MachineState)
      → Post (Fires (Respects it tid s)) (block_send tid c v s)
  unfolding Shrinks
  block_send-Respects c v s =
      Post-bind _ (with_channel c (add_send tid v) s) _
        (shrunk-Respects c (add_send tid v) s (add_shrinks tid v))
        (λ s' x. fires_ok _ _ (then-Respects x (keeps (block-Kept tid (channel_send c) s'))))
    where
      add_shrinks : (tid : ThreadId) (v : Value) → Shrinks (add_send tid v)
      add_shrinks tid v ch = omega arith

  block_recv-Respects :
      (c : ResourceId) (s : MachineState) → Post (Fires (Respects it tid s)) (block_recv tid c s)
  unfolding Shrinks
  block_recv-Respects c s =
      Post-bind _ (with_channel c (add_recv tid) s) _
        (shrunk-Respects c (add_recv tid) s (λ ch. omega arith))
        (λ s' x. fires_ok _ _ (then-Respects x (keeps (block-Kept tid (channel_recv c) s'))))

  -- The channel changes, the partner completes and the thread goes on.
  met-Respects :
      (c : ResourceId) (f : ChannelState → ChannelState) (partner : ThreadId) (s s' : MachineState)
      → Shrinks f
      → Kept s s'
      → Post (Every (Respects it tid s)) (
          with_channel c f s' >>= λ a.
          complete partner a >>= λ b. advance tid b >>= λ d. ok (d ∷ []))
  unfolding Every
  met-Respects c f partner s s' shrinks k =
      Post-bind _ (with_channel c f s') _ (shrunk-Respects c f s' shrinks) (λ a x.
        Post-bind _ (complete partner a) _ (complete-Kept partner a) (λ b k'.
          Post-bind _ (advance tid b) _
            (advance-Respects tid b (then-Respects (keeps k) (then-Respects x (keeps k'))))
            (λ d y. Post-ok _ _ (y, tt))))

  pub meet_receivers-Respects :
      (c : ResourceId) (v : Value) (rs : List ThreadId) (s : MachineState)
      → Post (Every (Respects it tid s)) (meet_receivers it tid c v rs s)
  unfolding meet_receivers Every Shrinks
  meet_receivers-Respects c v [] s = Post-ok _ _ tt
  meet_receivers-Respects c v (r ∷ rs) s =
      Post-bind _ (deliver_to_recv it r v s) _ (deliver_to_recv-Kept it r v s) (λ o k.
        Post-bind _ (meet_receiver tid c r o) _ (met o k) (λ here x.
          Post-bind _ (meet_receivers it tid c v rs s) _ (meet_receivers-Respects c v rs s)
            (λ rest y. Post-ok _ _ (Every-append _ here rest x y))))
    where
      met :
          (o : Option MachineState)
          → Opt (Kept s) o
          → Post (Every (Respects it tid s)) (meet_receiver tid c r o)
      met none k = Post-ok _ _ tt
      met (some s') k = met-Respects c (drop_recv r) r s s' (λ ch. omega arith) k

  pub channel_send-Respects :
      (fid : FrameId) (c : ResourceId) (e : LExpr) (s : MachineState)
      → Post (Fires (Respects it tid s)) (step_channel_send it tid fid c e s)
  unfolding step_channel_send sent
  channel_send-Respects fid c e s =
      let rs = receivers_of (get c s.store.channels) in
      Post-any _ (eval_in it s fid e) _ (λ v. on_value v (resource it.program c) refl)
    where
      on_value :
          (v : Value) (m : Result SemResource)
          → resource it.program c ≡ m
          → Post (Fires (Respects it tid s)) (m >>= λ res. sent it tid c v s res)
      on_value v (ok res) e =
          Post-if _ (within_option res.ty v) _ _
            (Post-if _ (res.capacity == 0) _ _
              (Post-if _ (is_empty (receivers_of (get c s.store.channels))) _ _
                (block_send-Respects c v s)
                (Post-bind _ (meet_receivers it tid c v (receivers_of (get c s.store.channels)) s)
                  (λ ss. fires_all ss)
                  (meet_receivers-Respects c v (receivers_of (get c s.store.channels)) s)
                  (λ ss xs. Post-ok _ _ xs)))
              (Post-if_known _ (has_space res.capacity (get c s.store.channels)) _ _
                (λ t.
                  Post-bind _ (with_channel c (push_buffer v) s) _ (push-Respects c v res s e t)
                    (λ s' x. step_on-Respects tid s' x))
                (λ f. block_send-Respects c v s)))
            (disabled_ok _)
      on_value v (err x) e = error_ok _ _
      on_value v panic e = Post-panic _

  pub meet_senders-Respects :
      (fid : FrameId) (c : ResourceId) (dst : SlotRef) (ps : List PendingSend) (s : MachineState)
      → Post (Every (Respects it tid s)) (meet_senders it tid fid c dst ps s)
  unfolding meet_senders Every Shrinks
  meet_senders-Respects fid c dst [] s = Post-ok _ _ tt
  meet_senders-Respects fid c dst (p ∷ ps) s =
      Post-bind _ (try_write_dst it fid dst p.value s) _ (try_write-Kept it fid dst p.value s)
        (λ o k. Post-bind _ (meet_sender tid c p.thread o) _ (met o k) (λ here x.
          Post-bind _ (meet_senders it tid fid c dst ps s) _ (meet_senders-Respects fid c dst ps s)
            (λ rest y. Post-ok _ _ (Every-append _ here rest x y))))
    where
      met :
          (o : Option MachineState)
          → Opt (Kept s) o
          → Post (Every (Respects it tid s)) (meet_sender tid c p.thread o)
      met none k = Post-ok _ _ tt
      met (some s') k = met-Respects c (drop_send p.thread) p.thread s s' (λ ch. omega arith) k

  recv_buffered-Respects :
      (fid : FrameId) (c : ResourceId) (o : Option Value) (s : MachineState)
      → Post (Fires (Respects it tid s)) (recv_buffered it tid fid c o s)
  unfolding Shrinks
  recv_buffered-Respects fid c none s = block_recv-Respects c s
  recv_buffered-Respects fid c (some v) s = Post-any _ (recv_dst_of it s tid) _ (λ dst.
      Post-bind _ (try_write_dst it fid (or_discard dst) v s) _
        (try_write-Kept it fid (or_discard dst) v s)
        (λ o k. if_written_ok _ _ o k (λ s' k'.
          Post-bind _ (with_channel c pop_buffer s') _
            (shrunk-Respects c pop_buffer s' (λ ch. pop_shrinks ch.buffer))
            (λ s'' x. step_on-Respects tid s'' (then-Respects (keeps k') x)))))

  pub channel_recv-Respects :
      (fid : FrameId) (c : ResourceId) (s : MachineState)
      → Post (Fires (Respects it tid s)) (step_channel_recv it tid fid c s)
  unfolding step_channel_recv
  channel_recv-Respects fid c s =
      let ps = senders_of (get c s.store.channels) in
      Post-any _ (resource it.program c) _ (λ res.
        Post-if _ (res.capacity == 0) _ _
          (Post-if _ (is_empty ps) _ _ (block_recv-Respects c s) (
            Post-any _ (recv_dst_of it s tid) _ (λ dst.
              Post-bind _ (meet_senders it tid fid c (or_discard dst) ps s) _
                (meet_senders-Respects fid c (or_discard dst) ps s) (λ ss xs. Post-ok _ _ xs))))
          (recv_buffered-Respects fid c (buffer_head (get c s.store.channels)) s))
