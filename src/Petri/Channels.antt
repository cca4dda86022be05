-- ===== src/Petri/Channels.antt =====
-- src/petri/exec.rs: firing the transitions on channels. A channel's place holds one token, the
-- array of the buffered messages.
use conc_ir.Prelude.{ℕ, Bool, true, false, Option, none, some, is_empty, ltb, leb, if◌then◌else◌}
use conc_ir.Sem.Outcome.{
  ResourceId, ThreadId, FrameId, SlotRef, Result, ok, err, ◌>>=◌, unwrap, invalid_error, e999,
}
use conc_ir.Sem.Value.{Value, array, Items, no_items, item, items_len}
use conc_ir.Sem.Eval.{LExpr}
use conc_ir.Sem.Program.{SemOp, resource}
use conc_ir.Petri.Net.{PlaceId, PlaceKey}
use conc_ir.Petri.State.{NetToken, NetState, place_tokens, take_token, read_data, set_data}
use conc_ir.Petri.Engine.{
  Engine, Fired, disabled, fires, if_some, place, eval_in, put_control_next, wake_control_next,
  payload_ok, write_dst, current_stmt, deliver_to, move_on, wait_at,
}

-- The value of the sending statement.
abbrev pub sent_expr : SemOp → Result LExpr
sent_expr op = elim op [ SemOp.channel_send c e ↦ ok e | _ ↦ err (invalid_error e999) ]

unfoldable pub fire_send_register :
    Engine → Option PlaceId → ThreadId → FrameId → ResourceId → NetState → Result Fired
unfolding place place_tokens current_stmt eval_in payload_ok wait_at
fire_send_register eng out tid fid c s = do
  recv ← unwrap (place eng (PlaceKey.channel_recv c))
  if is_empty (place_tokens recv s)
      then (do
        op ← current_stmt eng s fid
        e ← sent_expr op
        v ← eval_in eng s fid e
        fits ← payload_ok eng c v
        if fits
            then wait_at out (NetToken.send_wait tid fid v) tid (PlaceKey.channel_send c) s
            else disabled)
      else disabled

unfoldable pub fire_recv_register :
    Engine → Option PlaceId → ThreadId → FrameId → ResourceId → NetState → Result Fired
unfolding place place_tokens wait_at
fire_recv_register eng out tid fid c s = do
  send ← unwrap (place eng (PlaceKey.channel_send c))
  if is_empty (place_tokens send s)
      then wait_at out (NetToken.recv_wait tid fid) tid (PlaceKey.channel_recv c) s
      else disabled

abbrev pub as_receiver : Option NetToken → Option (ThreadId × FrameId)
as_receiver (some (NetToken.recv_wait t f)) = some (t, f)
as_receiver _ = none

abbrev pub as_sender : Option NetToken → Option (ThreadId × FrameId × Value)
as_sender (some (NetToken.send_wait t f v)) = some (t, f, v)
as_sender _ = none

-- The two sides of a pairing go on: the waiting one behind its statement, the other to `out`.
abbrev pub paired :
    Engine → Option PlaceId → ThreadId → FrameId → NetToken → Option NetState → Result Fired
paired eng out tid fid token none = disabled
paired eng out tid fid token (some s) = do
  s' ← wake_control_next eng token s
  move_on eng out tid fid s'

unfoldable pub send_to :
    Engine
    → Option PlaceId
    → ThreadId
    → FrameId
    → ResourceId
    → Option (ThreadId × FrameId)
    → NetState
    → Result Fired
unfolding place current_stmt eval_in payload_ok take_token deliver_to wake_control_next move_on
send_to eng out tid fid c none s = disabled
send_to eng out tid fid c (some (rt, rf)) s = do
  op ← current_stmt eng s fid
  e ← sent_expr op
  v ← eval_in eng s fid e
  fits ← payload_ok eng c v
  if fits
      then (do
        recv ← unwrap (place eng (PlaceKey.channel_recv c))
        if_some
            (λ s'. do
              s'' ← deliver_to eng rf v s'
              paired eng out tid fid (NetToken.recv_wait rt rf) s'')
            (take_token recv (NetToken.recv_wait rt rf) s))
      else disabled

-- `wait` is the waiting receiver that the binding chose.
unfoldable pub fire_send_pair :
    Engine
    → Option PlaceId
    → ThreadId
    → FrameId
    → Option NetToken
    → ResourceId
    → NetState
    → Result Fired
unfolding send_to
fire_send_pair eng out tid fid wait c s = send_to eng out tid fid c (as_receiver wait) s

unfoldable pub recv_from :
    Engine
    → Option PlaceId
    → ThreadId
    → FrameId
    → ResourceId
    → Option (ThreadId × FrameId × Value)
    → NetState
    → Result Fired
unfolding place payload_ok take_token deliver_to wake_control_next move_on
recv_from eng out tid fid c none s = disabled
recv_from eng out tid fid c (some (st, sf, v)) s = do
  fits ← payload_ok eng c v
  if fits
      then (do
        send ← unwrap (place eng (PlaceKey.channel_send c))
        if_some
            (λ s'. do
              s'' ← deliver_to eng fid v s'
              paired eng out tid fid (NetToken.send_wait st sf v) s'')
            (take_token send (NetToken.send_wait st sf v) s))
      else disabled

unfoldable pub fire_recv_pair :
    Engine
    → Option PlaceId
    → ThreadId
    → FrameId
    → Option NetToken
    → ResourceId
    → NetState
    → Result Fired
unfolding recv_from
fire_recv_pair eng out tid fid wait c s = recv_from eng out tid fid c (as_sender wait) s

abbrev pub both_resume : Engine → NetToken → NetToken → Option NetState → Result Fired
both_resume eng sender receiver none = disabled
both_resume eng sender receiver (some s) = do
  s' ← put_control_next eng sender s
  s'' ← put_control_next eng receiver s'
  fires s''

abbrev pub rendezvous_of :
    Engine
    → ResourceId
    → Option (ThreadId × FrameId × Value)
    → Option (ThreadId × FrameId)
    → NetState
    → Result Fired
rendezvous_of eng c (some (st, sf, v)) (some (rt, rf)) s = do
  fits ← payload_ok eng c v
  if fits
      then (do
        send ← unwrap (place eng (PlaceKey.channel_send c))
        recv ← unwrap (place eng (PlaceKey.channel_recv c))
        if_some
            (λ s'.
              if_some
                (λ s''. do
                  s''' ← deliver_to eng rf v s''
                  both_resume eng (NetToken.send_wait st sf v) (NetToken.recv_wait rt rf) s''')
                (take_token recv (NetToken.recv_wait rt rf) s'))
            (take_token send (NetToken.send_wait st sf v) s))
      else disabled
rendezvous_of eng c _ _ s = disabled

-- A waiting sender meets a waiting receiver.
unfoldable pub fire_rendezvous :
    Engine → Option (NetToken × NetToken) → ResourceId → NetState → Result Fired
unfolding payload_ok place take_token deliver_to put_control_next
fire_rendezvous eng none c s = disabled
fire_rendezvous eng (some (a, b)) c s =
    rendezvous_of eng c (as_sender (some a)) (as_receiver (some b)) s

abbrev pub as_buffer : Option Value → Option Items
as_buffer (some (array xs)) = some xs
as_buffer _ = none

abbrev pub buffered : Option Items → ℕ
buffered none = 0
buffered (some xs) = items_len xs

unfoldable pub push_item : Value → Items → Items
push_item v no_items = item v no_items
push_item v (item w xs) = item w (push_item v xs)

-- A place without a buffer is left alone.
abbrev pub push_to : PlaceId → Value → Option Items → NetState → NetState
push_to ch v none s = s
push_to ch v (some xs) s = set_data ch (array (push_item v xs)) s

unfoldable pub push_buffer : PlaceId → Value → NetState → NetState
unfolding read_data set_data push_item
push_buffer ch v s = push_to ch v (as_buffer (read_data ch s)) s

unfoldable pub fire_send_buf :
    Engine → Option PlaceId → ThreadId → FrameId → ResourceId → LExpr → NetState → Result Fired
unfolding resource place read_data eval_in payload_ok push_buffer move_on
fire_send_buf eng out tid fid c e s = do
  res ← resource eng.program c
  ch ← unwrap (place eng (PlaceKey.channel c))
  if leb res.capacity (buffered (as_buffer (read_data ch s))) then disabled else (do
    v ← eval_in eng s fid e
    fits ← payload_ok eng c v
    if fits then move_on eng out tid fid (push_buffer ch v s) else disabled)

unfoldable pub fire_send_buf_block :
    Engine → Option PlaceId → ThreadId → FrameId → ResourceId → LExpr → NetState → Result Fired
unfolding resource place read_data eval_in payload_ok wait_at
fire_send_buf_block eng out tid fid c e s = do
  res ← resource eng.program c
  ch ← unwrap (place eng (PlaceKey.channel c))
  if ltb (buffered (as_buffer (read_data ch s))) res.capacity then disabled else (do
    v ← eval_in eng s fid e
    fits ← payload_ok eng c v
    if fits
        then wait_at out (NetToken.send_wait tid fid v) tid (PlaceKey.channel_send c) s
        else disabled)

-- The oldest message, and the state without it.
abbrev pub pop_from : PlaceId → Option Items → NetState → Option (Value × NetState)
pop_from ch (some (item v xs)) s = some (v, set_data ch (array xs) s)
pop_from ch _ s = none

unfoldable pub pop_buffer : PlaceId → NetState → Option (Value × NetState)
unfolding read_data set_data
pop_buffer ch s = pop_from ch (as_buffer (read_data ch s)) s

abbrev pub receive :
    Engine
    → Option PlaceId
    → ThreadId
    → FrameId
    → SlotRef
    → Option (Value × NetState)
    → Result Fired
receive eng out tid fid dst none = disabled
receive eng out tid fid dst (some (v, s)) = do
  s' ← write_dst eng fid dst v s
  if_some (move_on eng out tid fid) s'

unfoldable pub fire_recv_buf :
    Engine → Option PlaceId → ThreadId → FrameId → ResourceId → SlotRef → NetState → Result Fired
unfolding place pop_buffer write_dst move_on
fire_recv_buf eng out tid fid c dst s = do
  ch ← unwrap (place eng (PlaceKey.channel c))
  receive eng out tid fid dst (pop_buffer ch s)

abbrev pub buffer_empty : Option Items → Bool
buffer_empty (some (item v xs)) = false
buffer_empty _ = true

unfoldable pub fire_recv_buf_block :
    Engine → Option PlaceId → ThreadId → FrameId → ResourceId → NetState → Result Fired
unfolding place read_data wait_at
fire_recv_buf_block eng out tid fid c s = do
  ch ← unwrap (place eng (PlaceKey.channel c))
  if buffer_empty (as_buffer (read_data ch s))
      then wait_at out (NetToken.recv_wait tid fid) tid (PlaceKey.channel_recv c) s
      else disabled

-- A waiting sender puts its message into the buffer once there is room.
abbrev pub deliver_from :
    Engine → ResourceId → Option (ThreadId × FrameId × Value) → NetState → Result Fired
deliver_from eng c none s = disabled
deliver_from eng c (some (tid, fid, v)) s = do
  res ← resource eng.program c
  ch ← unwrap (place eng (PlaceKey.channel c))
  if leb res.capacity (buffered (as_buffer (read_data ch s))) then disabled else (do
    fits ← payload_ok eng c v
    if fits
        then (do
          send ← unwrap (place eng (PlaceKey.channel_send c))
          if_some
              (λ s'. do
                s'' ← put_control_next eng (NetToken.send_wait tid fid v) (push_buffer ch v s')
                fires s'')
              (take_token send (NetToken.send_wait tid fid v) s))
        else disabled)

unfoldable pub fire_buffer_deliver : Engine → NetToken → ResourceId → NetState → Result Fired
unfolding resource place read_data payload_ok take_token push_buffer put_control_next
fire_buffer_deliver eng token c s = deliver_from eng c (as_sender (some token)) s

abbrev pub resume_with : Engine → NetToken → Option NetState → Result Fired
resume_with eng token none = disabled
resume_with eng token (some s) = do s' ← put_control_next eng token s; fires s'

abbrev pub hand_over :
    Engine → ResourceId → ThreadId → FrameId → Option (Value × NetState) → Result Fired
hand_over eng c tid fid none = disabled
hand_over eng c tid fid (some (v, s)) = do
  recv ← unwrap (place eng (PlaceKey.channel_recv c))
  if_some (λ s'. do s'' ← deliver_to eng fid v s'; resume_with eng (NetToken.recv_wait tid fid) s'')
      (take_token recv (NetToken.recv_wait tid fid) s)

abbrev pub recv_wait_from :
    Engine → ResourceId → Option (ThreadId × FrameId) → NetState → Result Fired
recv_wait_from eng c none s = disabled
recv_wait_from eng c (some (tid, fid)) s = do
  ch ← unwrap (place eng (PlaceKey.channel c))
  hand_over eng c tid fid (pop_buffer ch s)

-- A waiting receiver takes the oldest message of the buffer once there is one.
unfoldable pub fire_buffer_recv_wait : Engine → NetToken → ResourceId → NetState → Result Fired
unfolding place pop_buffer take_token deliver_to put_control_next
fire_buffer_recv_wait eng token c s = recv_wait_from eng c (as_receiver (some token)) s
