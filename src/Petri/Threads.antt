-- ===== src/Petri/Threads.antt =====
-- src/petri/exec.rs: creating a thread and finishing one.
use conc_ir.Prelude.{
  ℕ, suc, ◌+◌, ◌==◌, Bool, true, false, ◌&&◌, not, Option, none, some, List, [], ◌∷◌, length,
  is_empty, get_elem?, ltb, leb, if◌then◌else◌,
}
use conc_ir.Prelude.Int.{pos_part}
use conc_ir.Prelude.Text.{Str}
use conc_ir.Prelude.Map.{Map, get, insert, remove, nat_key, list_key, pair_key}
use conc_ir.Sem.Outcome.{
  FunctionId, ThreadId, FrameId, ScopeId, HandleId, invalid_error, e602, Result, ok, ◌>>=◌, unwrap,
  ok_or,
}
use conc_ir.Sem.Program.{SemOp, function, is_transparent_nobody}
use conc_ir.Interp.State.{is_some}
use conc_ir.Petri.Net.{PlaceId, PlaceKey, Place}
use conc_ir.Petri.State.{
  NetToken, NetFrame, NetThread, NetScope, NetAlloc, NetStore, NetState, frame_of, place_tokens,
  take_token, default_locals,
}
use conc_ir.Petri.Engine.{
  Engine, with_threads, with_frames, record_completion, place, ctrl, place_control, place_if,
  clear_blocked,
}

abbrev pub is_finished_in : Map ThreadId (Unit {0}) → ThreadId → Bool
is_finished_in finished tid = is_some (get tid finished)

-- The threads that have not finished and pass a test.
abbrev pub live_where :
    (NetThread → Bool) → Map ThreadId (Unit {0}) → Map ThreadId NetThread → List ThreadId
live_where p finished [] = []
live_where p finished ((tid, t) ∷ m) =
    let rest = live_where p finished m in
    if not (is_finished_in finished tid) && p t then tid ∷ rest else rest

abbrev pub live_threads : NetState → ℕ
live_threads s = length (live_where (λ t. true) s.store.finished s.store.threads)

abbrev pub with_store : NetState → NetStore → NetState
with_store s store = record s { store = store }

abbrev pub new_thread : FunctionId → List FrameId → Option ScopeId → NetThread
new_thread func stack parent = record {
  entry_function = func;
  stack = stack;
  handle_children = [];
  parent_scope = parent;
  blocked_at = none;
}

-- The thread is finished: a function that has no body completes at once.
abbrev pub finished_at_once : Engine → FunctionId → ThreadId → Option ScopeId → NetState → NetState
finished_at_once eng func tid parent s = record_completion eng func (
    with_store s (record s.store {
      threads = insert tid (new_thread func [] parent) s.store.threads;
      finished = insert tid tt s.store.finished;
    }))

abbrev pub bump_frame : NetAlloc → NetAlloc
bump_frame a = record a { next_frame = suc a.next_frame }

-- A frame of its own for the thread, whose control token stands at the entry of the function.
abbrev pub started : Engine → FunctionId → ThreadId → Option ScopeId → NetState → Result NetState
started eng func tid parent s = do
  locals ← default_locals eng.program func
  let fid = s.store.alloc.next_frame
  let s' = with_store s (record s.store {
    threads = insert tid (new_thread func (fid ∷ []) parent) s.store.threads;
    alloc = bump_frame s.store.alloc;
    frames =
        insert fid
          (record { id = fid; function = func; pc = 0; locals = locals; handles = []; ret = none })
          s.store.frames;
  })
  start ← ok_or (ctrl eng func 0) (invalid_error e602)
  ok (place_control eng start tid fid s')

abbrev pub bump_thread : NetAlloc → NetAlloc
bump_thread a = record a { next_thread = suc a.next_thread }

-- `none`: the thread limit is reached.
unfoldable pub create_thread :
    Engine → FunctionId → Option ScopeId → NetState → Result (Option (ThreadId × NetState))
unfolding function is_transparent_nobody record_completion default_locals ctrl place_control
create_thread eng func parent s =
    if leb eng.bounds.max_threads (live_threads s) then ok none else (do
      let tid = s.store.alloc.next_thread
      let s' = with_store s (record s.store { alloc = bump_thread s.store.alloc })
      f ← function eng.program func
      if is_transparent_nobody f
          then ok (some (tid, finished_at_once eng func tid parent s'))
          else (do s'' ← started eng func tid parent s'; ok (some (tid, s''))))

-- Whether one more live thread on the function respects its bound.
unfoldable pub within_bound : Engine → NetState → FunctionId → Result Bool
unfolding function
within_bound eng s func = do
  f ← function eng.program func
  ok (elim f.bound [
    | none ↦ true
    | some bound ↦
        ltb (length (live_where (λ t. t.entry_function == func) s.store.finished s.store.threads))
          (pos_part bound)
  ])

abbrev pub in_scope : ScopeId → NetThread → Bool
in_scope scope t = elim t.parent_scope [ none ↦ false | some p ↦ p == scope ]

abbrev pub keys_where : (NetThread → Bool) → Map ThreadId NetThread → List ThreadId
keys_where p [] = []
keys_where p ((tid, t) ∷ m) = let rest = keys_where p m in if p t then tid ∷ rest else rest

abbrev pub reclaim : ThreadId → NetState → NetState
reclaim tid s = with_store s (record s.store {
  threads = remove tid s.store.threads;
  finished = remove tid s.store.finished;
})

unfoldable pub reclaim_all : List ThreadId → NetState → NetState
reclaim_all [] s = s
reclaim_all (tid ∷ tids) s = reclaim_all tids (reclaim tid s)

-- The owner goes on behind its scope statement, where its token waits.
abbrev pub wake_owner : Engine → FunctionId → NetScope → NetState → Option NetState → NetState
wake_owner eng func sc s none = s
wake_owner eng func sc s (some s') =
    clear_blocked sc.owner
      (place_if eng (ctrl eng func (sc.owner_sid + 1)) sc.owner sc.owner_frame s')

abbrev pub resume_owner : Engine → FunctionId → NetScope → Option PlaceId → NetState → NetState
resume_owner eng func sc none s = s
resume_owner eng func sc (some pid) s =
    wake_owner eng func sc s (take_token pid (NetToken.scope_wait sc.owner sc.owner_frame) s)

unfoldable pub complete_scope : Engine → ScopeId → NetScope → NetState → Result NetState
unfolding frame_of place take_token ctrl place_control clear_blocked reclaim_all
complete_scope eng scope sc s = do
  f ← frame_of s sc.owner_frame
  let s' = with_store s (record s.store {
    completed_scopes = insert (f.function, sc.owner_sid) tt s.store.completed_scopes;
  })
  let s'' =
      resume_owner eng f.function sc (place eng (PlaceKey.scope_wait f.function sc.owner_sid)) s'
  let s''' = reclaim_all (keys_where (in_scope scope) s''.store.threads) s''
  ok (with_store s''' (record s'''.store { scopes = remove scope s'''.store.scopes }))

abbrev pub leave_scope_of :
    Engine → ThreadId → ScopeId → Option NetScope → NetState → Result NetState
leave_scope_of eng tid scope none s = ok s
leave_scope_of eng tid scope (some sc) s =
    let sc' = record sc { remaining = remove tid sc.remaining } in
    let s' = with_store s (record s.store { scopes = insert scope sc' s.store.scopes }) in
    if is_empty sc'.remaining then complete_scope eng scope sc' s' else ok s'

abbrev pub parent_of : Option NetThread → Option ScopeId
parent_of none = none
parent_of (some t) = t.parent_scope

abbrev pub leave_scope : Engine → ThreadId → Option ScopeId → NetState → Result NetState
leave_scope eng tid none s = ok s
leave_scope eng tid (some scope) s = leave_scope_of eng tid scope (get scope s.store.scopes) s

abbrev pub handle_of : Str → Option NetFrame → Option HandleId
handle_of handle none = none
handle_of handle (some f) = get handle f.handles

abbrev pub child_of : Option HandleId → Option NetThread → Option ThreadId
child_of (some h) (some t) = get h t.handle_children
child_of _ _ = none

abbrev pub drop_child : ThreadId → HandleId → Option NetThread → NetState → NetState
drop_child j hid none s = s
drop_child j hid (some t) s =
    with_threads s
      (insert j (record t { handle_children = remove hid t.handle_children }) s.store.threads)

abbrev pub unbind : FrameId → Str → Option NetFrame → NetState → NetState
unbind jf handle none s = s
unbind jf handle (some f) s =
    with_frames s (insert jf (record f { handles = remove handle f.handles }) s.store.frames)

abbrev pub forget_handle : ThreadId → FrameId → Str → Option HandleId → NetState → NetState
forget_handle j jf handle none s = s
forget_handle j jf handle (some hid) s =
    let s' = drop_child j hid (get j s.store.threads) s in
    unbind jf handle (get jf s'.store.frames) s'

abbrev pub or_same : NetState → Option NetState → NetState
or_same s none = s
or_same s (some s') = s'

-- A joiner goes on behind its statement, and the finished child is reclaimed.
unfoldable pub wake_joiner :
    Engine → ThreadId → PlaceId → FunctionId → ℕ → Str → ThreadId → FrameId → NetState → NetState
unfolding take_token ctrl place_control clear_blocked
wake_joiner eng tid pid func sid handle j jf s =
    let s' = clear_blocked j (
      place_if eng (ctrl eng func (sid + 1)) j jf
        (or_same s (take_token pid (NetToken.join_wait j jf) s))) in
    reclaim tid (forget_handle j jf handle (handle_of handle (get jf s'.store.frames)) s')

abbrev pub joined_handle : SemOp → Option Str
joined_handle op = elim op [ SemOp.join handle ↦ some handle | _ ↦ none ]

abbrev pub is_thread : Option ThreadId → ThreadId → Bool
is_thread none tid = false
is_thread (some c) tid = c == tid

abbrev pub wake_if_joins :
    Engine
    → ThreadId
    → PlaceId
    → FunctionId
    → ℕ
    → Option Str
    → ThreadId
    → FrameId
    → NetState
    → NetState
wake_if_joins eng tid pid func sid none j jf s = s
wake_if_joins eng tid pid func sid (some handle) j jf s =
    if is_thread (child_of (handle_of handle (get jf s.store.frames)) (get j s.store.threads)) tid
    then wake_joiner eng tid pid func sid handle j jf s
    else s

-- The tokens that wait at one join, read before the first of them is woken.
unfoldable pub wake_waiting :
    Engine → ThreadId → PlaceId → FunctionId → ℕ → List NetToken → NetState → Result NetState
unfolding function wake_joiner
wake_waiting eng tid pid func sid [] s = ok s
wake_waiting eng tid pid func sid (NetToken.join_wait j jf ∷ ts) s =
    function eng.program func >>= λ f. unwrap (get_elem? f.body sid) >>= λ stmt.
    wake_waiting eng tid pid func sid ts
      (wake_if_joins eng tid pid func sid (joined_handle stmt.op) j jf s)
wake_waiting eng tid pid func sid (t ∷ ts) s = wake_waiting eng tid pid func sid ts s

abbrev pub wake_at :
    Engine → ThreadId → FunctionId → ℕ → Option PlaceId → NetState → Result NetState
wake_at eng tid func sid none s = ok s
wake_at eng tid func sid (some pid) s = wake_waiting eng tid pid func sid (place_tokens pid s) s

abbrev pub wake_place : Engine → ThreadId → PlaceKey → NetState → Result NetState
wake_place eng tid key s = elim key [
  | PlaceKey.join_wait func sid ↦
      wake_at eng tid func sid (place eng (PlaceKey.join_wait func sid)) s
  | _ ↦ ok s
]

unfoldable pub wake_joiners : Engine → ThreadId → List Place → NetState → Result NetState
unfolding place place_tokens wake_waiting
wake_joiners eng tid [] s = ok s
wake_joiners eng tid (p ∷ ps) s = wake_place eng tid p.key s >>= λ s'. wake_joiners eng tid ps s'

unfoldable pub finish_thread : Engine → ThreadId → FunctionId → NetState → Result NetState
unfolding record_completion complete_scope wake_joiners
finish_thread eng tid func s = do
  let s' =
      record_completion eng func
        (with_store s (record s.store { finished = insert tid tt s.store.finished }))
  s'' ← leave_scope eng tid (parent_of (get tid s'.store.threads)) s'
  wake_joiners eng tid eng.net.places s''
