-- ===== src/Interp/Threads.antt =====
-- src/interp/exec.rs: returning from a function, finishing a thread and creating one.
use conc_ir.Prelude.{
  ℕ, suc, ◌+◌, ◌==◌, Bool, true, false, not, Option, none, some, List, [], ◌∷◌, head?, get_last?,
  drop_last, retain, length, is_empty, get_elem?, ltb, leb, if◌then◌else◌,
}
use conc_ir.Prelude.Int.{pos_part}
use conc_ir.Prelude.Text.{Str}
use conc_ir.Prelude.Map.{Map, get, insert, remove, nat_key, list_key, pair_key}
use conc_ir.Sem.Outcome.{FunctionId, ThreadId, FrameId, ScopeId, Result, ok, ◌>>=◌, unwrap}
use conc_ir.Sem.Value.{Value, within_type}
use conc_ir.Sem.Program.{SemSlot, SemStmt, SemFunction, function, is_transparent_nobody}
use conc_ir.Sem.Program
use conc_ir.Interp.State.{
  MachineState, Frame, RetAddr, ThreadState, ThreadStatus, runnable, blocked, finished, join,
  ScopeState, Alloc, current_frame_id, frame_of, write_frame, with_status, set_runnable, advance,
  write_dst, alloc_frame, new_thread,
}
use conc_ir.Interp.Access.{Interpreter, record_completion, dst_type_ok, complete}

abbrev pub is_finished_status : ThreadStatus → Bool
is_finished_status finished = true
is_finished_status _ = false

abbrev pub keys_where : (ThreadState → Bool) → Map ThreadId ThreadState → List ThreadId
keys_where p [] = []
keys_where p ((tid, t) ∷ m) = if p t then tid ∷ keys_where p m else keys_where p m

-- `threads.remove` and `finished.remove` of one thread, and of several.
abbrev pub reclaim : ThreadId → MachineState → MachineState
reclaim tid s = record s { threads = remove tid s.threads; finished = remove tid s.finished }

unfoldable pub reclaim_all : List ThreadId → MachineState → MachineState
reclaim_all [] s = s
reclaim_all (tid ∷ tids) s = reclaim_all tids (reclaim tid s)

abbrev pub in_scope : ScopeId → ThreadState → Bool
in_scope scope t = elim t.parent_scope [ none ↦ false | some p ↦ p == scope ]

-- The owner of a scope goes on, and the members are reclaimed with the scope.
unfoldable pub complete_scope : ScopeId → ScopeState → MachineState → Result MachineState
unfolding frame_of set_runnable advance reclaim_all
complete_scope scope sc s = do
  f ← frame_of s sc.owner_frame
  s' ← advance sc.owner (
      set_runnable sc.owner
        (record s { completed_scopes = insert (f.function, f.pc) tt s.completed_scopes }))
  let s'' = reclaim_all (keys_where (in_scope scope) s'.threads) s'
  ok (record s'' { scopes = remove scope s''.scopes })

abbrev pub leave_scope_of :
    ThreadId → ScopeId → Option ScopeState → MachineState → Result MachineState
leave_scope_of tid scope none s = ok s
leave_scope_of tid scope (some sc) s =
    let remaining = remove tid sc.remaining in
    let sc' = record sc { remaining = remaining } in
    let s' = record s { scopes = insert scope sc' s.scopes } in
    if is_empty remaining then complete_scope scope sc' s' else ok s'

abbrev pub leave_scope : ThreadId → Option ScopeId → MachineState → Result MachineState
leave_scope tid none s = ok s
leave_scope tid (some scope) s = leave_scope_of tid scope (get scope s.scopes) s

abbrev pub is_thread : Option ThreadId → ThreadId → Bool
is_thread none tid = false
is_thread (some c) tid = c == tid

-- Whether a thread is blocked on joining `tid`.
abbrev pub joins : ThreadId → ThreadState → Bool
joins tid t = elim t.status [
  | blocked (join h) ↦ is_thread (get h t.handle_children) tid
  | _ ↦ false
]

abbrev pub drop_child : ThreadId → ThreadId → Option ThreadState → MachineState → MachineState
drop_child tid j none s = s
drop_child tid j (some t) s = record s {
  threads =
      insert j (record t { handle_children = retain (λ (h, c). not (c == tid)) t.handle_children })
        s.threads;
}

abbrev pub joined_handle : Option SemStmt → Option Str
joined_handle none = none
joined_handle (some stmt) = elim stmt.op [ Program.join handle ↦ some handle | _ ↦ none ]

abbrev pub unbind : FrameId → Frame → Option Str → MachineState → MachineState
unbind jf f none s = s
unbind jf f (some handle) s = write_frame jf (record f { handles = remove handle f.handles }) s

abbrev pub unbind_joined : Interpreter → Option FrameId → MachineState → Result MachineState
unbind_joined it none s = ok s
unbind_joined it (some jf) s = do
  f ← frame_of s jf
  func ← function it.program f.function
  ok (unbind jf f (joined_handle (get_elem? func.body f.pc)) s)

unfoldable pub resume_joiner :
    Interpreter → ThreadId → ThreadId → MachineState → Result MachineState
unfolding frame_of write_frame function current_frame_id complete
resume_joiner it tid j s = do
  let s' = drop_child tid j (get j s.threads) s
  s'' ← unbind_joined it (current_frame_id s' j) s'
  complete j s''

unfoldable pub resume_joiners :
    Interpreter → ThreadId → List ThreadId → MachineState → Result MachineState
unfolding resume_joiner
resume_joiners it tid [] s = ok s
resume_joiners it tid (j ∷ js) s = resume_joiner it tid j s >>= λ s'. resume_joiners it tid js s'

unfoldable pub finish_thread :
    Interpreter → ThreadId → FunctionId → MachineState → Result MachineState
unfolding record_completion complete_scope resume_joiners
finish_thread it tid func s = do
  let s' = with_status (get tid s.threads) tid finished s
  let s'' = record_completion it func (record s' { finished = insert tid tt s'.finished })
  t ← unwrap (get tid s''.threads)
  left ← leave_scope tid t.parent_scope s''
  let joiners = keys_where (joins tid) left.threads
  joined ← resume_joiners it tid joiners left
  ok (if is_empty joiners then joined else reclaim tid joined)

abbrev pub return_type_ok : Option SemSlot → Option Value → Bool
return_type_ok (some ret) (some v) = within_type ret.ty v
return_type_ok _ _ = true

abbrev pub ret_dst_ok :
    Interpreter → MachineState → FrameId → Option RetAddr → Option Value → Result Bool
ret_dst_ok it s caller (some ret) (some v) = dst_type_ok it s caller ret.dst v
ret_dst_ok it s caller _ _ = ok true

-- The thread without its top frame.
abbrev pub pop_frame : ThreadId → ThreadState → FrameId → MachineState → MachineState
pop_frame tid t fid s = record s {
  store = record s.store { frames = remove fid s.store.frames };
  threads = insert tid (record t { stack = drop_last t.stack }) s.threads;
}

abbrev pub write_returned : FrameId → RetAddr → Option Value → MachineState → Result MachineState
write_returned caller ret none s = ok s
write_returned caller ret (some v) s = write_dst caller ret.dst v s

abbrev pub return_to : FrameId → Option RetAddr → Option Value → MachineState → Result MachineState
return_to caller none val s = ok s
return_to caller (some ret) val s = do
  s' ← write_returned caller ret val s
  f ← frame_of s' caller
  ok (write_frame caller (record f { pc = ret.pc_next }) s')

unfoldable pub return_to_caller :
    Interpreter
    → ThreadId
    → FrameId
    → FunctionId
    → Option Value
    → ThreadState
    → MachineState
    → Result (Option MachineState)
unfolding frame_of dst_type_ok write_dst write_frame record_completion
return_to_caller it tid fid func val t s = do
  caller ← unwrap (get_last? (drop_last t.stack))
  callee ← frame_of s fid
  fits ← ret_dst_ok it s caller callee.ret val
  if fits
      then (do
        s' ← return_to caller callee.ret val (pop_frame tid t fid s)
        ok (some (record_completion it func s')))
      else ok none

-- `none`: a domain rejects the returned value, and the step is disabled.
unfoldable pub apply_return :
    Interpreter
    → ThreadId
    → FrameId
    → FunctionId
    → SemFunction
    → Option Value
    → MachineState
    → Result (Option MachineState)
unfolding return_to_caller finish_thread
apply_return it tid fid func f val s =
    if return_type_ok f.returns val
    then (do
      t ← unwrap (get tid s.threads)
      if ltb 1 (length t.stack)
          then return_to_caller it tid fid func val t s
          else (do s' ← finish_thread it tid func (pop_frame tid t fid s); ok (some s')))
    else ok none

-- The live threads that began with a call of `func`.
unfoldable pub count_active : FunctionId → MachineState → Map ThreadId ThreadState → Result ℕ
unfolding frame_of
count_active func s [] = ok 0
count_active func s ((tid, t) ∷ m) = do
  n ← count_active func s m
  if is_finished_status t.status then ok n else elim (head? t.stack) [
    | none ↦ ok n
    | some fid ↦ do f ← frame_of s fid; ok (if f.function == func then suc n else n)
  ]

unfoldable pub within_function_bound : Interpreter → MachineState → FunctionId → Result Bool
unfolding function count_active
within_function_bound it s func = do
  f ← function it.program func
  elim f.bound [
    | none ↦ ok true
    | some bound ↦ do active ← count_active func s s.threads; ok (ltb active (pos_part bound))
  ]

abbrev pub live_threads : MachineState → ℕ
live_threads s = length (keys_where (λ t. not (is_finished_status t.status)) s.threads)

abbrev pub bump_thread : Alloc → Alloc
bump_thread a = record a { next_thread = a.next_thread + 1 }

-- `none`: the thread limit is reached.
unfoldable pub create_thread :
    Interpreter
    → FunctionId
    → Option ScopeId
    → MachineState
    → Result (Option (ThreadId × MachineState))
unfolding function is_transparent_nobody record_completion alloc_frame write_frame
create_thread it func parent s = if leb it.bounds.max_threads (live_threads s) then ok none else (do
  let tid = s.alloc.next_thread
  let s' = record s { alloc = bump_thread s.alloc }
  f ← function it.program func
  if is_transparent_nobody f
      then ok (
          some (
            tid,
            record_completion it func (record s' {
              threads = insert tid (new_thread tid finished [] func parent) s'.threads;
              finished = insert tid tt s'.finished;
            }),
          ))
      else (do
        (frame, s'') ← alloc_frame it.program func s'
        let s''' = write_frame frame.id frame s''
        ok (
            some (
              tid,
              record s''' {
                threads =
                    insert tid (new_thread tid runnable (frame.id ∷ []) func parent) s'''.threads;
              },
            ))))
