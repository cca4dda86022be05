-- ===== src/Interp/Channels.antt =====
-- src/interp/exec.rs: sending on a channel and receiving from it. A channel without capacity is a
-- rendezvous, and each waiting partner is a legal match.
use conc_ir.Prelude.{
  ℕ, ◌==◌, Bool, false, not, Option, none, some, List, [], ◌∷◌, ◌++◌, retain, is_empty, length,
  head?, tail, ltb, if◌then◌else◌,
}
use conc_ir.Prelude.Map.{get, insert, nat_key}
use conc_ir.Sem.Outcome.{ResourceId, ThreadId, FrameId, SlotRef, discard, Result, ok, ◌>>=◌, unwrap}
use conc_ir.Sem.Value.{Value}
use conc_ir.Sem.Eval.{LExpr}
use conc_ir.Sem.Program.{SemResource, resource}
use conc_ir.Interp.State.{
  MachineState, PendingSend, ChannelState, channel_send, channel_recv, with_store, block, advance,
}
use conc_ir.Interp.Access.{
  Interpreter, Fired, disabled, fires, fires_all, if_written, eval_in, try_write_dst, complete,
  recv_dst_of, deliver_to_recv, within_option,
}
use conc_ir.Interp.Sync.{step_on}

abbrev pub set_channel : ResourceId → ChannelState → MachineState → MachineState
set_channel c ch s = with_store s (record s.store { channels = insert c ch s.store.channels })

-- `channels.get_mut(&c).unwrap()`, changed by a function.
abbrev pub with_channel :
    ResourceId → (ChannelState → ChannelState) → MachineState → Result MachineState
with_channel c f s = do ch ← unwrap (get c s.store.channels); ok (set_channel c (f ch) s)

abbrev pub add_send : ThreadId → Value → ChannelState → ChannelState
add_send tid v ch = record ch {
  pending_send = ch.pending_send ++ record { thread = tid; value = v } ∷ [];
}

abbrev pub add_recv : ThreadId → ChannelState → ChannelState
add_recv tid ch = record ch { pending_recv = ch.pending_recv ++ tid ∷ [] }

abbrev pub drop_send : ThreadId → ChannelState → ChannelState
drop_send tid ch = record ch { pending_send = retain (λ p. not (p.thread == tid)) ch.pending_send }

abbrev pub drop_recv : ThreadId → ChannelState → ChannelState
drop_recv tid ch = record ch { pending_recv = retain (λ t. not (t == tid)) ch.pending_recv }

abbrev pub push_buffer : Value → ChannelState → ChannelState
push_buffer v ch = record ch { buffer = ch.buffer ++ v ∷ [] }

abbrev pub pop_buffer : ChannelState → ChannelState
pop_buffer ch = record ch { buffer = tail ch.buffer }

abbrev pub receivers_of : Option ChannelState → List ThreadId
receivers_of none = []
receivers_of (some ch) = ch.pending_recv

abbrev pub senders_of : Option ChannelState → List PendingSend
senders_of none = []
senders_of (some ch) = ch.pending_send

abbrev pub has_space : ℕ → Option ChannelState → Bool
has_space cap none = false
has_space cap (some ch) = ltb (length ch.buffer) cap

abbrev pub buffer_head : Option ChannelState → Option Value
buffer_head none = none
buffer_head (some ch) = head? ch.buffer

abbrev pub or_discard : Option SlotRef → SlotRef
or_discard none = discard
or_discard (some dst) = dst

abbrev pub block_send : ThreadId → ResourceId → Value → MachineState → Result Fired
block_send tid c v s = do
  s' ← with_channel c (add_send tid v) s
  fires (block tid (channel_send c) s')

abbrev pub block_recv : ThreadId → ResourceId → MachineState → Result Fired
block_recv tid c s = do s' ← with_channel c (add_recv tid) s; fires (block tid (channel_recv c) s')

-- The successor in which `r` receives the value: none where its destination rejects it.
abbrev pub meet_receiver :
    ThreadId → ResourceId → ThreadId → Option MachineState → Result (List MachineState)
meet_receiver tid c r none = ok []
meet_receiver tid c r (some s) = do
  s' ← with_channel c (drop_recv r) s
  s'' ← complete r s'
  s''' ← advance tid s''
  ok (s''' ∷ [])

unfoldable pub meet_receivers :
    Interpreter
    → ThreadId
    → ResourceId
    → Value
    → List ThreadId
    → MachineState
    → Result (List MachineState)
unfolding deliver_to_recv complete advance
meet_receivers it tid c v [] s = ok []
meet_receivers it tid c v (r ∷ rs) s = do
  s' ← deliver_to_recv it r v s
  met ← meet_receiver tid c r s'
  rest ← meet_receivers it tid c v rs s
  ok (met ++ rest)

-- The value is sent to the resource, once both are known.
unfoldable pub sent :
    Interpreter → ThreadId → ResourceId → Value → MachineState → SemResource → Result Fired
unfolding meet_receivers block advance
sent it tid c v s res =
    let rs = receivers_of (get c s.store.channels) in
    if within_option res.ty v
    then (if res.capacity == 0
        then (if is_empty rs
            then block_send tid c v s
            else (meet_receivers it tid c v rs s >>= λ ss. fires_all ss))
        else (if has_space res.capacity (get c s.store.channels)
            then (with_channel c (push_buffer v) s >>= λ s'. step_on tid s')
            else block_send tid c v s))
    else disabled

unfoldable pub step_channel_send :
    Interpreter → ThreadId → FrameId → ResourceId → LExpr → MachineState → Result Fired
unfolding eval_in resource sent
step_channel_send it tid fid c e s =
    eval_in it s fid e >>= λ v. resource it.program c >>= λ res. sent it tid c v s res

abbrev pub meet_sender :
    ThreadId → ResourceId → ThreadId → Option MachineState → Result (List MachineState)
meet_sender tid c sender none = ok []
meet_sender tid c sender (some s) = do
  s' ← with_channel c (drop_send sender) s
  s'' ← complete sender s'
  s''' ← advance tid s''
  ok (s''' ∷ [])

unfoldable pub meet_senders :
    Interpreter
    → ThreadId
    → FrameId
    → ResourceId
    → SlotRef
    → List PendingSend
    → MachineState
    → Result (List MachineState)
unfolding try_write_dst complete advance
meet_senders it tid fid c dst [] s = ok []
meet_senders it tid fid c dst (p ∷ ps) s = do
  s' ← try_write_dst it fid dst p.value s
  met ← meet_sender tid c p.thread s'
  rest ← meet_senders it tid fid c dst ps s
  ok (met ++ rest)

abbrev pub take_head : ThreadId → ResourceId → Option MachineState → Result Fired
take_head tid c = if_written (λ s. with_channel c pop_buffer s >>= λ s'. step_on tid s')

abbrev pub recv_buffered :
    Interpreter → ThreadId → FrameId → ResourceId → Option Value → MachineState → Result Fired
recv_buffered it tid fid c none s = block_recv tid c s
recv_buffered it tid fid c (some v) s = do
  dst ← recv_dst_of it s tid
  s' ← try_write_dst it fid (or_discard dst) v s
  take_head tid c s'

unfoldable pub step_channel_recv :
    Interpreter → ThreadId → FrameId → ResourceId → MachineState → Result Fired
unfolding resource recv_dst_of meet_senders try_write_dst block advance
step_channel_recv it tid fid c s = do
  res ← resource it.program c
  let ps = senders_of (get c s.store.channels)
  if res.capacity == 0
      then (if is_empty ps then block_recv tid c s else (do
        dst ← recv_dst_of it s tid
        ss ← meet_senders it tid fid c (or_discard dst) ps s
        fires_all ss))
      else recv_buffered it tid fid c (buffer_head (get c s.store.channels)) s
