-- ===== src/Petri/Safety/Buffers.antt =====
-- src/petri/exec.rs: what firing the transitions on threads that wait at a channel does to the places of
-- mutexes, semaphores and channels.
use conc_ir.Prelude.{refl, Option, none, some, leb}
use conc_ir.Sem.Outcome.{ResourceId, ThreadId, FrameId}
use conc_ir.Sem.Value.{Value}
use conc_ir.Sem.Program.{resource}
use conc_ir.Interp.Ownership.Relation.{Post, Opt, Post-bind, Post-any, Post-if, Post-if_known}
use conc_ir.Petri.Net.{PlaceKey}
use conc_ir.Petri.State.{NetToken, NetState, take_token, read_data}
use conc_ir.Petri.Engine.{Engine, place, put_control_next, payload_ok, deliver_to}
use conc_ir.Petri.Channels.{
  as_receiver, as_sender, both_resume, rendezvous_of, fire_rendezvous, as_buffer, buffered,
  pop_buffer, deliver_from, fire_buffer_deliver, resume_with, hand_over, fire_buffer_recv_wait,
}
use conc_ir.Petri.Safety.Relation.{
  Fires, Injective, Kept, Steps, then-Kept, kept-Steps, Steps-then, then-Steps,
}
use conc_ir.Petri.Safety.Keeping.{disabled_ok, if_some_ok, put_next-Kept, deliver_to-Kept}
use conc_ir.Petri.Safety.Sync.{at_place}
use conc_ir.Petri.Safety.Waits.{waiter_of, next_ok, take_at_ok}
use conc_ir.Petri.Safety.Channels.{push-Steps, pop-Steps, at_resource, buffer-Kept}

module _ (eng : Engine) (inj : Injective eng) where
  both_ok :
      (tid : ThreadId) (a b : NetToken) (s s' : NetState) (o : Option NetState)
      → Kept eng s s'
      → Opt (Kept eng s') o
      → Post (Fires (Steps eng tid s)) (both_resume eng a b o)
  both_ok tid a b s s' none k x = disabled_ok eng _
  both_ok tid a b s s' (some t) k x =
      Post-bind _ (put_control_next eng a t) _ (put_next-Kept eng inj a t) (λ u k'.
        next_ok eng inj tid b s u (kept-Steps eng tid (then-Kept eng k (then-Kept eng x k'))))

  met-Steps :
      (tid : ThreadId) (c : ResourceId) (o : Option (ThreadId × FrameId × Value))
      (o' : Option (ThreadId × FrameId)) (s : NetState)
      → Post (Fires (Steps eng tid s)) (rendezvous_of eng c o o' s)
  met-Steps tid c none o' s = disabled_ok eng _
  met-Steps tid c (some (st, sf, v)) none s = disabled_ok eng _
  met-Steps tid c (some (st, sf, v)) (some (rt, rf)) s = Post-any _ (payload_ok eng c v) _ (λ fits.
      Post-if _ fits _ _
        (at_place eng inj _ (place eng (PlaceKey.channel_send c)) _ (λ send q.
          at_place eng inj _ (place eng (PlaceKey.channel_recv c)) _ (λ recv r.
            if_some_ok eng (Kept eng s) _ _ (take_token send (NetToken.send_wait st sf v) s)
              (take_at_ok eng inj (PlaceKey.channel_send c) send (NetToken.send_wait st sf v) s refl
                q)
              (λ s' k.
                if_some_ok eng (Kept eng s') _ _ (take_token recv (NetToken.recv_wait rt rf) s')
                  (take_at_ok eng inj (PlaceKey.channel_recv c) recv (NetToken.recv_wait rt rf) s'
                    refl r)
                  (λ s'' k'.
                    Post-bind _ (deliver_to eng rf v s'') _ (deliver_to-Kept eng inj rf v s'')
                      (λ o x.
                        both_ok tid (NetToken.send_wait st sf v) (NetToken.recv_wait rt rf) s s'' o
                          (then-Kept eng k k') x))))))
        (disabled_ok eng _))

  pub rendezvous-Steps :
      (tid : ThreadId) (o : Option (NetToken × NetToken)) (c : ResourceId) (s : NetState)
      → Post (Fires (Steps eng tid s)) (fire_rendezvous eng o c s)
  unfolding fire_rendezvous
  rendezvous-Steps tid none c s = disabled_ok eng _
  rendezvous-Steps tid (some (a, b)) c s =
      met-Steps tid c (as_sender (some a)) (as_receiver (some b)) s

  delivered :
      (c : ResourceId) (tid : ThreadId) (fid : FrameId) (v : Value) (s : NetState)
      → Post (Fires (Steps eng tid s)) (deliver_from eng c (some (tid, fid, v)) s)
  delivered c tid fid v s = at_resource eng inj _ (resource eng.program c) _ (λ res r.
      at_place eng inj _ (place eng (PlaceKey.channel c)) _ (λ ch q.
        Post-if_known _ (leb res.capacity (buffered (as_buffer (read_data ch s)))) _ _
          (λ h. disabled_ok eng _)
          (λ h. Post-any _ (payload_ok eng c v) _ (λ fits.
            Post-if _ fits _ _
              (at_place eng inj _ (place eng (PlaceKey.channel_send c)) _ (λ send p.
                if_some_ok eng (Kept eng s) _ _ (take_token send (NetToken.send_wait tid fid v) s)
                  (take_at_ok eng inj (PlaceKey.channel_send c) send (NetToken.send_wait tid fid v)
                    s refl p)
                  (λ s' k. next_ok eng inj tid (NetToken.send_wait tid fid v) s _ (
                    then-Steps eng tid k (
                      push-Steps eng inj tid c ch v res s' q r
                        (buffer-Kept eng inj c ch res q k h))))))
              (disabled_ok eng _)))))

  pub buffer_deliver-Steps :
      (token : NetToken) (c : ResourceId) (s : NetState)
      → Post (Fires (Steps eng (waiter_of token) s)) (fire_buffer_deliver eng token c s)
  unfolding fire_buffer_deliver Post
  buffer_deliver-Steps (NetToken.send_wait tid fid v) c s = delivered c tid fid v s
  buffer_deliver-Steps (NetToken.control t f) c s = tt
  buffer_deliver-Steps (NetToken.datum v) c s = tt
  buffer_deliver-Steps (NetToken.mutex m) c s = tt
  buffer_deliver-Steps (NetToken.lock_wait t f) c s = tt
  buffer_deliver-Steps (NetToken.condvar_wait t f l) c s = tt
  buffer_deliver-Steps (NetToken.recv_wait t f) c s = tt
  buffer_deliver-Steps (NetToken.sem_wait t f n) c s = tt
  buffer_deliver-Steps (NetToken.join_wait t f) c s = tt
  buffer_deliver-Steps (NetToken.scope_wait t f) c s = tt

  resumed_ok :
      (tid : ThreadId) (token : NetToken) (s s' : NetState) (o : Option NetState)
      → Steps eng tid s s'
      → Opt (Kept eng s') o
      → Post (Fires (Steps eng tid s)) (resume_with eng token o)
  resumed_ok tid token s s' none x k = disabled_ok eng _
  resumed_ok tid token s s' (some t) x k = next_ok eng inj tid token s t (Steps-then eng tid x k)

  handed_ok :
      (c : ResourceId) (tid : ThreadId) (fid : FrameId) (s : NetState)
      (o : Option (Value × NetState))
      → Opt (λ (v, s'). Steps eng tid s s') o
      → Post (Fires (Steps eng tid s)) (hand_over eng c tid fid o)
  handed_ok c tid fid s none x = disabled_ok eng _
  handed_ok c tid fid s (some (v, s')) x =
      at_place eng inj _ (place eng (PlaceKey.channel_recv c)) _ (λ recv q.
        if_some_ok eng (Kept eng s') _ _ (take_token recv (NetToken.recv_wait tid fid) s')
          (take_at_ok eng inj (PlaceKey.channel_recv c) recv (NetToken.recv_wait tid fid) s' refl q)
          (λ s'' k.
            Post-bind _ (deliver_to eng fid v s'') _ (deliver_to-Kept eng inj fid v s'') (λ o k'.
              resumed_ok tid (NetToken.recv_wait tid fid) s s'' o (Steps-then eng tid x k) k')))

  pub buffer_recv_wait-Steps :
      (token : NetToken) (c : ResourceId) (s : NetState)
      → Post (Fires (Steps eng (waiter_of token) s)) (fire_buffer_recv_wait eng token c s)
  unfolding fire_buffer_recv_wait Post
  buffer_recv_wait-Steps (NetToken.recv_wait tid fid) c s =
      at_place eng inj _ (place eng (PlaceKey.channel c)) _
        (λ ch q. handed_ok c tid fid s (pop_buffer ch s) (pop-Steps eng inj tid c ch s q))
  buffer_recv_wait-Steps (NetToken.control t f) c s = tt
  buffer_recv_wait-Steps (NetToken.datum v) c s = tt
  buffer_recv_wait-Steps (NetToken.mutex m) c s = tt
  buffer_recv_wait-Steps (NetToken.lock_wait t f) c s = tt
  buffer_recv_wait-Steps (NetToken.condvar_wait t f l) c s = tt
  buffer_recv_wait-Steps (NetToken.send_wait t f v) c s = tt
  buffer_recv_wait-Steps (NetToken.sem_wait t f n) c s = tt
  buffer_recv_wait-Steps (NetToken.join_wait t f) c s = tt
  buffer_recv_wait-Steps (NetToken.scope_wait t f) c s = tt
