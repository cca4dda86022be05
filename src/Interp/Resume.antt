-- ===== src/Interp/Resume.antt =====
-- src/interp/exec.rs: resuming a thread that is blocked on a resource whose condition now holds.
use conc_ir.Prelude.{◌==◌, not, Option, none, some, List, [], ◌∷◌, retain, head?, if◌then◌else◌}
use conc_ir.Prelude.Int.{ℤ, ◌-ℤ◌, leb_ℤ}
use conc_ir.Prelude.Map.{get, insert, nat_key}
use conc_ir.Sem.Outcome.{
  ResourceId, ThreadId, FrameId, e999, invalid_error, Result, ok, ◌>>=◌, ok_or, StepLabel,
}
use conc_ir.Sem.Value.{Value}
use conc_ir.Sem.Program.{SemResource, resource}
use conc_ir.Interp.State.{
  MachineState, held, PendingSend, ChannelState, BlockReason, current_frame_id, frame_of,
  set_runnable, advance,
}
use conc_ir.Interp.Access.{
  Interpreter, Fired, disabled, fires, if_written, try_write_dst, complete, recv_dst_of,
  deliver_to_recv, permits_of, step_label,
}
use conc_ir.Interp.Sync.{set_mutex, set_permits, is_free, queue_of}
use conc_ir.Interp.Channels.{
  with_channel, drop_send, drop_recv, push_buffer, pop_buffer, receivers_of, senders_of, has_space,
  buffer_head, or_discard,
}

-- `set_runnable` and `advance`.
abbrev pub wake : ThreadId → MachineState → Result Fired
wake tid s = advance tid (set_runnable tid s) >>= λ s'. fires s'

unfoldable pub resume_lock : ThreadId → ResourceId → MachineState → Result Fired
unfolding set_runnable advance
resume_lock tid r s =
    if is_free (get r s.store.mutexes) then wake tid (set_mutex r (held tid) s) else disabled

-- The permits that the first entry of the thread waits for.
abbrev pub needed : ThreadId → List (ThreadId × ℤ) → Option ℤ
needed tid [] = none
needed tid ((t, n) ∷ q) = if t == tid then some n else needed tid q

abbrev pub drop_permit_waiter :
    ThreadId → ResourceId → Option (List (ThreadId × ℤ)) → MachineState → MachineState
drop_permit_waiter tid r none s = s
drop_permit_waiter tid r (some q) s = record s {
  sem_waiters = insert r (retain (λ (t, n). not (t == tid)) q) s.sem_waiters;
}

unfoldable pub resume_semaphore : ThreadId → ResourceId → MachineState → Result Fired
unfolding ◌-ℤ◌ set_runnable advance
resume_semaphore tid r s =
    let available = permits_of (get r s.store.semaphores) in
    elim (needed tid (queue_of (get r s.sem_waiters))) [
      | none ↦ disabled
      | some need ↦
          if leb_ℤ need available
          then (let s' = set_permits r (available -ℤ need) s in
              wake tid (drop_permit_waiter tid r (get r s'.sem_waiters) s'))
          else disabled
    ]

-- The first pending send of a thread, and the queue without that entry.
abbrev pub pending_of : ThreadId → List PendingSend → Option Value
pending_of tid [] = none
pending_of tid (p ∷ ps) = if p.thread == tid then some p.value else pending_of tid ps

abbrev pub without_first : ThreadId → List PendingSend → List PendingSend
without_first tid [] = []
without_first tid (p ∷ ps) = if p.thread == tid then ps else p ∷ without_first tid ps

abbrev pub take_send : ThreadId → ChannelState → ChannelState
take_send tid ch = record ch { pending_send = without_first tid ch.pending_send }

abbrev pub pair_send : ThreadId → ThreadId → ResourceId → Option MachineState → Result Fired
pair_send tid recv c = if_written (λ s. do
  s' ← with_channel c (take_send tid) s
  s'' ← with_channel c (drop_recv recv) s'
  s''' ← complete recv s''
  wake tid s''')

-- The pending send of a thread, over the channel's resource.
unfoldable pub resumed_send :
    Interpreter → ThreadId → ResourceId → MachineState → SemResource → Result Fired
unfolding deliver_to_recv complete set_runnable advance
resumed_send it tid c s res =
    let ch = get c s.store.channels in
    if res.capacity == 0
    then elim (head? (receivers_of ch)) [
      | none ↦ disabled
      | some recv ↦ elim (pending_of tid (senders_of ch)) [
        | none ↦ disabled
        | some v ↦ deliver_to_recv it recv v s >>= λ s'. pair_send tid recv c s'
      ]
    ]
    else (if has_space res.capacity ch
        then elim (pending_of tid (senders_of ch)) [
          | none ↦ disabled
          | some v ↦ do
            s' ← with_channel c (take_send tid) s
            s'' ← with_channel c (push_buffer v) s'
            wake tid s''
        ]
        else disabled)

unfoldable pub resume_send : Interpreter → ThreadId → ResourceId → MachineState → Result Fired
unfolding resource resumed_send
resume_send it tid c s = resource it.program c >>= λ res. resumed_send it tid c s res

abbrev pub pair_recv : ThreadId → ThreadId → ResourceId → Option MachineState → Result Fired
pair_recv tid sender c =
    if_written
      (λ s. do s' ← with_channel c (drop_send sender) s; s'' ← complete sender s'; wake tid s'')

abbrev pub take_buffered : ThreadId → ResourceId → Option MachineState → Result Fired
take_buffered tid c = if_written (λ s. do
  s' ← with_channel c pop_buffer s
  s'' ← with_channel c (drop_recv tid) s'
  wake tid s'')

unfoldable pub resume_recv :
    Interpreter → ThreadId → FrameId → ResourceId → MachineState → Result Fired
unfolding resource recv_dst_of try_write_dst complete set_runnable advance
resume_recv it tid fid c s = do
  res ← resource it.program c
  let ch = get c s.store.channels
  if res.capacity == 0
      then elim (head? (senders_of ch)) [
        | none ↦ disabled
        | some send ↦ do
          dst ← recv_dst_of it s tid
          s' ← try_write_dst it fid (or_discard dst) send.value s
          pair_recv tid send.thread c s'
      ]
      else elim (buffer_head ch) [
        | none ↦ disabled
        | some v ↦ do
          dst ← recv_dst_of it s tid
          s' ← try_write_dst it fid (or_discard dst) v s
          take_buffered tid c s'
      ]

-- Notification resumes the waiters of a condition variable, and completion those of a join or a scope.
unfoldable pub resume_op :
    Interpreter → ThreadId → FrameId → BlockReason → MachineState → Result Fired
unfolding resume_lock resume_semaphore resume_send resume_recv
resume_op it tid fid reason s = elim reason [
  | BlockReason.lock r ↦ resume_lock tid r s
  | BlockReason.semaphore r ↦ resume_semaphore tid r s
  | BlockReason.channel_send c ↦ resume_send it tid c s
  | BlockReason.channel_recv c ↦ resume_recv it tid fid c s
  | _ ↦ disabled
]

unfoldable pub resume_thread :
    Interpreter → MachineState → ThreadId → BlockReason → Result (StepLabel × Fired)
unfolding current_frame_id frame_of step_label resume_op
resume_thread it s tid reason = do
  fid ← ok_or (current_frame_id s tid) (invalid_error e999)
  frame ← frame_of s fid
  label ← step_label it frame.function frame.pc tid fid
  fired ← resume_op it tid fid reason s
  ok (label, fired)
