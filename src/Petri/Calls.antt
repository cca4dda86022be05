-- ===== src/Petri/Calls.antt =====
-- src/petri/exec.rs: firing calls, returns, spawned threads, scopes and joins.
use conc_ir.Prelude.{
  suc, ◌+◌, ◌==◌, Bool, true, false, Option, none, some, List, [], ◌∷◌, ◌++◌, length, is_empty,
  get_elem?, get_last?, drop_last, leb, if◌then◌else◌,
}
use conc_ir.Prelude.Text.{Str}
use conc_ir.Prelude.Map.{Map, get, insert, remove, nat_key, list_key, pair_key}
use conc_ir.Sem.Outcome.{
  FunctionId, ThreadId, FrameId, ScopeId, HandleId, SlotId, SlotRef, discard, Location, frame_limit,
  thread_limit, e402, e410, Result, ok, ◌>>=◌, unwrap,
}
use conc_ir.Sem.Value.{Value, within_type}
use conc_ir.Sem.Eval.{LExpr}
use conc_ir.Sem.Program.{SemSlot, function}
use conc_ir.Petri.Net.{PlaceId, PlaceKey}
use conc_ir.Petri.State.{
  NetToken, NetRetAddr, NetThread, NetAlloc, NetState, frame_of, put, default_locals,
  modeled_params,
}
use conc_ir.Petri.Engine.{
  Engine, Fired, disabled, fires, limited, if_some, fails_at, record_completion, place, ctrl,
  eval_in, place_control, place_if, set_blocked, write_dst, move_on, wait_at,
}
use conc_ir.Petri.Threads.{
  is_finished_in, with_store, bump_frame, create_thread, within_bound, reclaim, drop_child, unbind,
  finish_thread,
}

abbrev pub eval_all : Engine → NetState → FrameId → List LExpr → Result (List Value)
eval_all eng s fid [] = ok []
eval_all eng s fid (e ∷ es) = do v ← eval_in eng s fid e; vs ← eval_all eng s fid es; ok (v ∷ vs)

-- Both lists are read together, and the longer one is cut.
abbrev pub args_ok : List SemSlot → List SlotId → List Value → Result Bool
args_ok slots (i ∷ is) (v ∷ vs) = do
  declared ← unwrap (get_elem? slots i)
  rest ← args_ok slots is vs
  ok (if within_type declared.ty v then rest else false)
args_ok slots _ _ = ok true

abbrev pub bind_args : List SlotId → List Value → Map SlotId Value → Map SlotId Value
bind_args (i ∷ is) (v ∷ vs) locals = bind_args is vs (insert i v locals)
bind_args _ _ locals = locals

abbrev pub or_discard : Option SlotRef → SlotRef
or_discard none = discard
or_discard (some dst) = dst

-- The state with the callee's frame on the thread's stack.
unfoldable pub push_callee :
    Engine
    → ThreadId
    → FrameId
    → FunctionId
    → List SlotId
    → List Value
    → Option SlotRef
    → NetState
    → Result NetState
unfolding default_locals frame_of
push_callee eng tid fid func params values dst s = do
  locals ← default_locals eng.program func
  caller ← frame_of s fid
  t ← unwrap (get tid s.store.threads)
  let new_id = s.store.alloc.next_frame
  ok (
      with_store s (record s.store {
        alloc = bump_frame s.store.alloc;
        frames =
            insert new_id
              (record {
                id = new_id;
                function = func;
                pc = 0;
                locals = bind_args params values locals;
                handles = [];
                ret = some (record { pc_next = caller.pc + 1; dst = or_discard dst });
              })
              s.store.frames;
        threads = insert tid (record t { stack = t.stack ++ new_id ∷ [] }) s.store.threads;
      }))

unfoldable pub fire_call :
    Engine
    → Option PlaceId
    → ThreadId
    → FrameId
    → FunctionId
    → List LExpr
    → Option SlotRef
    → NetState
    → Result Fired
unfolding eval_in function push_callee move_on
fire_call eng out tid fid func args dst s = do
  t ← unwrap (get tid s.store.threads)
  if leb eng.bounds.max_frames_per_thread (length t.stack) then limited frame_limit else (do
    values ← eval_all eng s fid args
    callee ← function eng.program func
    let params = modeled_params 0 callee.slots
    fits ← args_ok callee.slots params values
    if fits
        then (do
          s' ← push_callee eng tid fid func params values dst s
          move_on eng out tid s.store.alloc.next_frame s')
        else disabled)

abbrev pub bump_handle : NetAlloc → NetAlloc
bump_handle a = record a { next_handle = suc a.next_handle }

abbrev pub bump_scope : NetAlloc → NetAlloc
bump_scope a = record a { next_scope = suc a.next_scope }

-- The handle is bound in the frame, and its child in the thread.
abbrev pub bind_handle : ThreadId → FrameId → Str → ThreadId → NetState → Result NetState
bind_handle tid fid handle child s = do
  let hid = s.store.alloc.next_handle
  f ← frame_of s fid
  t ← unwrap (get tid s.store.threads)
  ok (
      with_store s (record s.store {
        alloc = bump_handle s.store.alloc;
        frames = insert fid (record f { handles = insert handle hid f.handles }) s.store.frames;
        threads =
            insert tid (record t { handle_children = insert hid child t.handle_children })
              s.store.threads;
      }))

abbrev pub spawned :
    Engine → Option PlaceId → ThreadId → FrameId → Str → Option (ThreadId × NetState) → Result Fired
spawned eng out tid fid handle none = limited thread_limit
spawned eng out tid fid handle (some (child, s)) = do
  s' ← bind_handle tid fid handle child s
  move_on eng out tid fid s'

unfoldable pub fire_spawn :
    Engine → Option PlaceId → ThreadId → FrameId → FunctionId → Str → NetState → Result Fired
unfolding within_bound create_thread frame_of move_on
fire_spawn eng out tid fid func handle s = do
  fits ← within_bound eng s func
  if fits
      then (create_thread eng func none s >>= λ created. spawned eng out tid fid handle created)
      else disabled

abbrev pub all_within_bound : Engine → NetState → List FunctionId → Result Bool
all_within_bound eng s [] = ok true
all_within_bound eng s (func ∷ funcs) = do
  fits ← within_bound eng s func
  if fits then all_within_bound eng s funcs else ok false

abbrev pub note_child : ThreadId → NetState → Map ThreadId (Unit {0}) → Map ThreadId (Unit {0})
note_child child s remaining =
    if is_finished_in s.store.finished child then remaining else insert child tt remaining

-- The members of a scope are created in order. `none`: the thread limit is reached.
unfoldable pub create_members :
    Engine
    → ScopeId
    → List FunctionId
    → Map ThreadId (Unit {0})
    → NetState
    → Result (Option (Map ThreadId (Unit {0}) × NetState))
unfolding create_thread
create_members eng scope [] remaining s = ok (some (remaining, s))
create_members eng scope (func ∷ funcs) remaining s =
    create_thread eng func (some scope) s >>= λ created. elim created [
      | none ↦ ok none
      | some c ↦ create_members eng scope funcs (note_child c.0 c.1 remaining) c.1
    ]

abbrev pub open_scope :
    Engine
    → Option PlaceId
    → ThreadId
    → FrameId
    → ScopeId
    → Option (Map ThreadId (Unit {0}) × NetState)
    → Result Fired
open_scope eng out tid fid scope none = limited thread_limit
open_scope eng out tid fid scope (some (remaining, s)) = do
  f ← frame_of s fid
  if is_empty remaining
      then move_on eng out tid fid (
          with_store s (record s.store {
            completed_scopes = insert (f.function, f.pc) tt s.store.completed_scopes;
          }))
      else (do
        sw ← unwrap (place eng (PlaceKey.scope_wait f.function f.pc))
        fires (
            set_blocked tid (PlaceKey.scope_wait f.function f.pc) (
              put sw (NetToken.scope_wait tid fid) (
                with_store s (record s.store {
                  scopes =
                      insert scope
                        (record {
                          id = scope;
                          owner = tid;
                          owner_frame = fid;
                          owner_sid = f.pc;
                          remaining = remaining;
                        })
                        s.store.scopes;
                })))))

unfoldable pub fire_scope :
    Engine
    → Option Location
    → Option PlaceId
    → ThreadId
    → FrameId
    → List FunctionId
    → NetState
    → Result Fired
unfolding within_bound create_members frame_of place put set_blocked move_on
fire_scope eng at out tid fid funcs s = if is_empty funcs then fails_at e410 at else (do
  fits ← all_within_bound eng s funcs
  if fits
      then (do
        let scope = s.store.alloc.next_scope
        members ←
            create_members eng scope funcs []
              (with_store s (record s.store { alloc = bump_scope s.store.alloc }))
        open_scope eng out tid fid scope members)
      else disabled)

-- The handle that a join names, and its child.
abbrev pub find_child :
    Option Location → ThreadId → FrameId → Str → NetState → Result (HandleId × Option ThreadId)
find_child at tid fid handle s = do
  f ← frame_of s fid
  hid ← elim (get handle f.handles) [ none ↦ fails_at e402 at | some h ↦ ok h ]
  t ← unwrap (get tid s.store.threads)
  ok (hid, get hid t.handle_children)

abbrev pub is_done : NetState → Option ThreadId → Bool
is_done s none = false
is_done s (some c) = is_finished_in s.store.finished c

abbrev pub is_running : NetState → Option ThreadId → Bool
is_running s none = false
is_running s (some c) = if is_finished_in s.store.finished c then false else true

-- The handle binding is consumed, and the finished child reclaimed.
unfoldable pub fire_join_ready :
    Engine → Option Location → Option PlaceId → ThreadId → FrameId → Str → NetState → Result Fired
unfolding frame_of move_on
fire_join_ready eng at out tid fid handle s = do
  (hid, child) ← find_child at tid fid handle s
  if is_done s child
      then (do
        c ← unwrap child
        let s' = unbind fid handle (get fid s.store.frames) s
        let s'' = drop_child tid hid (get tid s'.store.threads) s'
        move_on eng out tid fid (reclaim c s''))
      else disabled

unfoldable pub fire_join_block :
    Engine → Option Location → Option PlaceId → ThreadId → FrameId → Str → NetState → Result Fired
unfolding frame_of wait_at
fire_join_block eng at out tid fid handle s = do
  (hid, child) ← find_child at tid fid handle s
  if is_running s child
      then (do
        f ← frame_of s fid
        wait_at out (NetToken.join_wait tid fid) tid (PlaceKey.join_wait f.function f.pc) s)
      else disabled

abbrev pub eval_returned : Engine → NetState → FrameId → Option LExpr → Result (Option Value)
eval_returned eng s fid none = ok none
eval_returned eng s fid (some e) = do v ← eval_in eng s fid e; ok (some v)

abbrev pub return_type_ok : Option SemSlot → Option Value → Bool
return_type_ok (some ret) (some v) = within_type ret.ty v
return_type_ok _ _ = true

-- The thread without its top frame.
abbrev pub pop_frame : ThreadId → NetThread → FrameId → NetState → NetState
pop_frame tid t fid s = with_store s (record s.store {
  frames = remove fid s.store.frames;
  threads = insert tid (record t { stack = drop_last t.stack }) s.store.threads;
})

abbrev pub write_returned :
    Engine → FrameId → NetRetAddr → Option Value → NetState → Result (Option NetState)
write_returned eng caller ret none s = ok (some s)
write_returned eng caller ret (some v) s = write_dst eng caller ret.dst v s

abbrev pub resume_caller : Engine → ThreadId → FrameId → NetRetAddr → NetState → Result NetState
resume_caller eng tid caller ret s = do
  f ← frame_of s caller
  ok (place_if eng (ctrl eng f.function ret.pc_next) tid caller s)

-- `none`: the destination's domain rejects the value.
abbrev pub return_to :
    Engine
    → ThreadId
    → FrameId
    → Option NetRetAddr
    → Option Value
    → NetState
    → Result (Option NetState)
return_to eng tid caller none val s = ok (some s)
return_to eng tid caller (some ret) val s = do
  written ← write_returned eng caller ret val s
  elim written [
    | none ↦ ok none
    | some s' ↦ do s'' ← resume_caller eng tid caller ret s'; ok (some s'')
  ]

unfoldable pub fire_return_inner :
    Engine → ThreadId → FrameId → Option LExpr → NetState → Result Fired
unfolding eval_in frame_of function write_dst ctrl place_control record_completion
fire_return_inner eng tid fid value s = do
  t ← unwrap (get tid s.store.threads)
  if leb (length t.stack) 1 then disabled else (do
    val ← eval_returned eng s fid value
    callee ← frame_of s fid
    func ← function eng.program callee.function
    if return_type_ok func.returns val
        then (do
          caller ← unwrap (get_last? (drop_last t.stack))
          s' ← return_to eng tid caller callee.ret val (pop_frame tid t fid s)
          if_some (λ s''. fires (record_completion eng callee.function s'')) s')
        else disabled)

unfoldable pub fire_return_final :
    Engine → ThreadId → FrameId → Option LExpr → NetState → Result Fired
unfolding eval_in frame_of function finish_thread
fire_return_final eng tid fid value s = do
  t ← unwrap (get tid s.store.threads)
  if length t.stack == 1
      then (do
        val ← eval_returned eng s fid value
        f ← frame_of s fid
        func ← function eng.program f.function
        if return_type_ok func.returns val
            then (do s' ← finish_thread eng tid f.function (pop_frame tid t fid s); fires s')
            else disabled)
      else disabled
