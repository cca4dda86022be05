-- ===== src/Petri/Safety/Channels.antt =====
-- src/petri/exec.rs: what firing the transitions on channels does to the places of mutexes, semaphores
-- and channels.
use conc_ir.Prelude.{
  suc, ◌≤◌, ◌≡◌, refl, ◌∙◌, sym, ap, subst, false, Option, none, some, List, [], ◌∷◌, head?,
  is_empty, ltb, leb, arith,
}
use conc_ir.Sem.Outcome.{
  ResourceId, ThreadId, FrameId, SlotRef, Result, ok, err, panic, ◌>>=◌, unwrap,
}
use conc_ir.Sem.Value.{Value, array, Items, no_items, item, items_len}
use conc_ir.Sem.Eval.{LExpr}
use conc_ir.Sem.Program.{SemResource, resource}
use conc_ir.Interp.Ownership.Relation.{Post, Opt, Post-bind, Post-any, Post-if, Post-if_known}
use conc_ir.Petri.Net.{PlaceId, PlaceKey}
use conc_ir.Petri.State.{
  NetToken, NetState, place_tokens, take_token, set_data, single, read_data, as_data,
}
use conc_ir.Petri.Engine.{
  Engine, Fired, place, eval_in, wake_control_next, payload_ok, write_dst, current_stmt, deliver_to,
}
use conc_ir.Petri.Channels.{
  sent_expr, fire_send_register, fire_recv_register, as_receiver, as_sender, paired, send_to,
  fire_send_pair, recv_from, fire_recv_pair, as_buffer, buffered, push_item, push_to, push_buffer,
  fire_send_buf, fire_send_buf_block, pop_from, pop_buffer, receive, fire_recv_buf, buffer_empty,
  fire_recv_buf_block,
}
use conc_ir.Petri.Safety.Relation.{
  Fires, Injective, FitsCapacity, Change, Kept, Steps, unchanged, then-Kept, kept-Steps, Steps-then,
  set-Steps,
}
use conc_ir.Petri.Safety.Keeping.{
  LooseOut, disabled_ok, if_some_ok, move_on_ok, wait_at_ok, wake-Kept, write_dst-Kept,
  deliver_to-Kept,
}
use conc_ir.Petri.Safety.Sync.{at_place}
use conc_ir.Petri.Safety.Waits.{take_at_ok}

items_len-push : (v : Value) (xs : Items) → items_len (push_item v xs) ≡ suc (items_len xs)
unfolding push_item
items_len-push v no_items = refl
items_len-push v (item w xs) = ap suc (items_len-push v xs)

popped_fits :
    (r : Result SemResource) (v : Value) (xs : Items) (t : NetToken)
    → FitsCapacity r (NetToken.datum (array (item v xs)) ∷ [])
    → FitsCapacity r (NetToken.datum (array xs) ∷ [])
popped_fits (ok res) v xs t h = omega arith
popped_fits (err e) v xs t h = tt
popped_fits panic v xs t h = tt

-- What a place's buffer is decides whether the place fits.
fits_buffer :
    (r : Result SemResource) (ts : List NetToken) (xs : Items)
    → as_buffer (as_data (head? ts)) ≡ some xs
    → FitsCapacity r ts
    → FitsCapacity r (NetToken.datum (array xs) ∷ [])
fits_buffer (ok res) ts xs e h = subst (λ b. buffered b ≤ res.capacity) e h
fits_buffer (err e') ts xs e h = tt
fits_buffer panic ts xs e h = tt

module _ (eng : Engine) (inj : Injective eng) where
  channel_set-Steps :
      (tid : ThreadId) (c : ResourceId) (ch : PlaceId) (xs : Items) (s : NetState)
      → place eng (PlaceKey.channel c) ≡ some ch
      → (FitsCapacity (resource eng.program c) (place_tokens ch s)
          → FitsCapacity (resource eng.program c) (NetToken.datum (array xs) ∷ []))
      → Steps eng tid s (set_data ch (array xs) s)
  unfolding set_data Change
  channel_set-Steps tid c ch xs s e h = set-Steps eng inj tid (PlaceKey.channel c) ch _ s e h

  pub push-Steps :
      (tid : ThreadId) (c : ResourceId) (ch : PlaceId) (v : Value) (res : SemResource)
      (s : NetState)
      → place eng (PlaceKey.channel c) ≡ some ch
      → resource eng.program c ≡ ok res
      → leb res.capacity (buffered (as_buffer (read_data ch s))) ≡ false
      → Steps eng tid s (push_buffer ch v s)
  unfolding push_buffer
  push-Steps tid c ch v res s e q full = choose (as_buffer (read_data ch s)) full
    where
      choose :
          (o : Option Items)
          → leb res.capacity (buffered o) ≡ false
          → Steps eng tid s (push_to ch v o s)
      choose none h = kept-Steps eng tid (unchanged eng s)
      choose (some xs) h = channel_set-Steps tid c ch (push_item v xs) s e (λ k.
          subst (λ r. FitsCapacity r (NetToken.datum (array (push_item v xs)) ∷ [])) (sym q)
            (subst (λ n. n ≤ res.capacity) (sym (items_len-push v xs)) (ground arith)))

  pub pop-Steps :
      (tid : ThreadId) (c : ResourceId) (ch : PlaceId) (s : NetState)
      → place eng (PlaceKey.channel c) ≡ some ch
      → Opt (λ (v, s'). Steps eng tid s s') (pop_buffer ch s)
  unfolding pop_buffer read_data single
  pop-Steps tid c ch s e = choose (as_buffer (read_data ch s)) refl
    where
      choose :
          (o : Option Items)
          → as_buffer (read_data ch s) ≡ o
          → Opt (λ (v, s'). Steps eng tid s s') (pop_from ch o s)
      choose none h = tt
      choose (some no_items) h = tt
      choose (some (item v xs)) h = channel_set-Steps tid c ch xs s e (λ k.
          popped_fits (resource eng.program c) v xs (NetToken.datum v)
            (fits_buffer (resource eng.program c) (place_tokens ch s) (item v xs) h k))

  pub buffer-Kept :
      (c : ResourceId) (ch : PlaceId) (res : SemResource) {s s' : NetState}
      → place eng (PlaceKey.channel c) ≡ some ch
      → Kept eng s s'
      → leb res.capacity (buffered (as_buffer (read_data ch s))) ≡ false
      → leb res.capacity (buffered (as_buffer (read_data ch s'))) ≡ false
  unfolding read_data single
  buffer-Kept c ch res e k h =
      ap (λ ts. leb res.capacity (buffered (as_buffer (as_data (head? ts)))))
        (k.tokens (PlaceKey.channel c) ch refl e)
      ∙ h

  -- The capacity that a channel's declaration gives.
  pub at_resource :
      (P : NetState → Type 0) (o : Result SemResource) (rest : SemResource → Result Fired)
      → ((res : SemResource) → o ≡ ok res → Post (Fires P) (rest res))
      → Post (Fires P) (o >>= rest)
  unfolding Post
  at_resource P panic rest k = tt
  at_resource P (err e) rest k = tt
  at_resource P (ok res) rest k = k res refl

  module _ (tid : ThreadId) (out : Option PlaceId) (loose : LooseOut eng out) where
    pub send_register-Steps :
        (fid : FrameId) (c : ResourceId) (s : NetState)
        → Post (Fires (Steps eng tid s)) (fire_send_register eng out tid fid c s)
    unfolding fire_send_register
    send_register-Steps fid c s =
        Post-any _ (unwrap (place eng (PlaceKey.channel_recv c))) _ (λ recv.
          Post-if _ (is_empty (place_tokens recv s)) _ _
            (Post-any _ (current_stmt eng s fid) _ (λ op. Post-any _ (sent_expr op) _ (λ e.
              Post-any _ (eval_in eng s fid e) _ (λ v. Post-any _ (payload_ok eng c v) _ (λ fits.
                Post-if _ fits _ _ (wait_at_ok eng tid out _ tid _ s loose) (disabled_ok eng _))))))
            (disabled_ok eng _))

    pub recv_register-Steps :
        (fid : FrameId) (c : ResourceId) (s : NetState)
        → Post (Fires (Steps eng tid s)) (fire_recv_register eng out tid fid c s)
    unfolding fire_recv_register
    recv_register-Steps fid c s =
        Post-any _ (unwrap (place eng (PlaceKey.channel_send c))) _ (λ send.
          Post-if _ (is_empty (place_tokens send s)) _ _ (wait_at_ok eng tid out _ tid _ s loose)
            (disabled_ok eng _))

    paired_ok :
        (fid : FrameId) (token : NetToken) (s s' : NetState) (o : Option NetState)
        → Kept eng s s'
        → Opt (Kept eng s') o
        → Post (Fires (Steps eng tid s)) (paired eng out tid fid token o)
    paired_ok fid token s s' none k x = disabled_ok eng _
    paired_ok fid token s s' (some a) k x =
        Post-bind _ (wake_control_next eng token a) _ (wake-Kept eng inj token a) (λ b k'.
          move_on_ok eng tid out tid fid s b loose
            (kept-Steps eng tid (then-Kept eng k (then-Kept eng x k'))))

    send_to-Steps :
        (fid : FrameId) (c : ResourceId) (o : Option (ThreadId × FrameId)) (s : NetState)
        → Post (Fires (Steps eng tid s)) (send_to eng out tid fid c o s)
    unfolding send_to
    send_to-Steps fid c none s = disabled_ok eng _
    send_to-Steps fid c (some (rt, rf)) s = Post-any _ (current_stmt eng s fid) _ (λ op.
        Post-any _ (sent_expr op) _ (λ e. Post-any _ (eval_in eng s fid e) _ (λ v.
          Post-any _ (payload_ok eng c v) _ (λ fits.
            Post-if _ fits _ _
              (at_place eng inj _ (place eng (PlaceKey.channel_recv c)) _ (λ recv q.
                if_some_ok eng (Kept eng s) _ _ (take_token recv (NetToken.recv_wait rt rf) s)
                  (take_at_ok eng inj (PlaceKey.channel_recv c) recv (NetToken.recv_wait rt rf) s
                    refl q)
                  (λ s' k.
                    Post-bind _ (deliver_to eng rf v s') _ (deliver_to-Kept eng inj rf v s')
                      (λ o x. paired_ok fid (NetToken.recv_wait rt rf) s s' o k x))))
              (disabled_ok eng _)))))

    pub send_pair-Steps :
        (fid : FrameId) (wait : Option NetToken) (c : ResourceId) (s : NetState)
        → Post (Fires (Steps eng tid s)) (fire_send_pair eng out tid fid wait c s)
    unfolding fire_send_pair
    send_pair-Steps fid wait c s = send_to-Steps fid c (as_receiver wait) s

    recv_from-Steps :
        (fid : FrameId) (c : ResourceId) (o : Option (ThreadId × FrameId × Value)) (s : NetState)
        → Post (Fires (Steps eng tid s)) (recv_from eng out tid fid c o s)
    unfolding recv_from
    recv_from-Steps fid c none s = disabled_ok eng _
    recv_from-Steps fid c (some (st, sf, v)) s = Post-any _ (payload_ok eng c v) _ (λ fits.
        Post-if _ fits _ _
          (at_place eng inj _ (place eng (PlaceKey.channel_send c)) _ (λ send q.
            if_some_ok eng (Kept eng s) _ _ (take_token send (NetToken.send_wait st sf v) s)
              (take_at_ok eng inj (PlaceKey.channel_send c) send (NetToken.send_wait st sf v) s refl
                q)
              (λ s' k.
                Post-bind _ (deliver_to eng fid v s') _ (deliver_to-Kept eng inj fid v s')
                  (λ o x. paired_ok fid (NetToken.send_wait st sf v) s s' o k x))))
          (disabled_ok eng _))

    pub recv_pair-Steps :
        (fid : FrameId) (wait : Option NetToken) (c : ResourceId) (s : NetState)
        → Post (Fires (Steps eng tid s)) (fire_recv_pair eng out tid fid wait c s)
    unfolding fire_recv_pair
    recv_pair-Steps fid wait c s = recv_from-Steps fid c (as_sender wait) s

    pub send_buf-Steps :
        (fid : FrameId) (c : ResourceId) (e : LExpr) (s : NetState)
        → Post (Fires (Steps eng tid s)) (fire_send_buf eng out tid fid c e s)
    unfolding fire_send_buf
    send_buf-Steps fid c e s = at_resource _ (resource eng.program c) _ (λ res r.
        at_place eng inj _ (place eng (PlaceKey.channel c)) _ (λ ch q.
          Post-if_known _ (leb res.capacity (buffered (as_buffer (read_data ch s)))) _ _
            (λ h. disabled_ok eng _)
            (λ h. Post-any _ (eval_in eng s fid e) _ (λ v.
              Post-any _ (payload_ok eng c v) _ (λ fits.
                Post-if _ fits _ _
                  (move_on_ok eng tid out tid fid s _ loose (push-Steps tid c ch v res s q r h))
                  (disabled_ok eng _))))))

    pub send_buf_block-Steps :
        (fid : FrameId) (c : ResourceId) (e : LExpr) (s : NetState)
        → Post (Fires (Steps eng tid s)) (fire_send_buf_block eng out tid fid c e s)
    unfolding fire_send_buf_block
    send_buf_block-Steps fid c e s = Post-any _ (resource eng.program c) _ (λ res.
        Post-any _ (unwrap (place eng (PlaceKey.channel c))) _ (λ ch.
          Post-if _ (ltb (buffered (as_buffer (read_data ch s))) res.capacity) _ _
            (disabled_ok eng _)
            (Post-any _ (eval_in eng s fid e) _ (λ v. Post-any _ (payload_ok eng c v) _ (λ fits.
              Post-if _ fits _ _ (wait_at_ok eng tid out _ tid _ s loose) (disabled_ok eng _))))))

    receive_ok :
        (fid : FrameId) (dst : SlotRef) (s : NetState) (o : Option (Value × NetState))
        → Opt (λ (v, s'). Steps eng tid s s') o
        → Post (Fires (Steps eng tid s)) (receive eng out tid fid dst o)
    receive_ok fid dst s none x = disabled_ok eng _
    receive_ok fid dst s (some (v, s')) x =
        Post-bind _ (write_dst eng fid dst v s') _ (write_dst-Kept eng inj fid dst v s') (λ o k.
          if_some_ok eng (Kept eng s') _ _ o k
            (λ s'' k'. move_on_ok eng tid out tid fid s s'' loose (Steps-then eng tid x k')))

    pub recv_buf-Steps :
        (fid : FrameId) (c : ResourceId) (dst : SlotRef) (s : NetState)
        → Post (Fires (Steps eng tid s)) (fire_recv_buf eng out tid fid c dst s)
    unfolding fire_recv_buf
    recv_buf-Steps fid c dst s =
        at_place eng inj _ (place eng (PlaceKey.channel c)) _
          (λ ch q. receive_ok fid dst s (pop_buffer ch s) (pop-Steps tid c ch s q))

    pub recv_buf_block-Steps :
        (fid : FrameId) (c : ResourceId) (s : NetState)
        → Post (Fires (Steps eng tid s)) (fire_recv_buf_block eng out tid fid c s)
    unfolding fire_recv_buf_block
    recv_buf_block-Steps fid c s = Post-any _ (unwrap (place eng (PlaceKey.channel c))) _ (λ ch.
        Post-if _ (buffer_empty (as_buffer (read_data ch s))) _ _
          (wait_at_ok eng tid out _ tid _ s loose) (disabled_ok eng _))
