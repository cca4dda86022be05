-- ===== src/Petri/Build.antt =====
-- src/petri/net.rs: the translation of a program to a net.
use conc_ir.Prelude.{
  ℕ, suc, ◌+◌, ◌==◌, Option, none, some, List, [], ◌∷◌, ◌++◌, length, map, if◌then◌else◌,
}
use conc_ir.Prelude.Text.{Str}
use conc_ir.Prelude.Map.{Map, get, insert}
use conc_ir.Sem.Outcome.{
  FunctionId, ResourceId, SlotRef, Result, ok, ◌>>=◌, TransitionOrigin, Phase, statement, reacquire,
  wake,
}
use conc_ir.Sem.Eval.{LExpr}
use conc_ir.Sem.Program.{
  SemProgram, SemFunction, SemStmt, SemOp, SemResource, ResKind, function, resource,
}
use conc_ir.Petri.Net.{PlaceId, PlaceKey, place_key, Place, Binding, NetOp, Transition, PetriNet}

pub record Builder : Type 0 where
  pub places : List Place
  pub place_of : Map PlaceKey PlaceId
  pub transitions : List Transition

abbrev pub new_place : PlaceKey → Builder → Option PlaceId → PlaceId × Builder
new_place key b (some id) = (id, b)
new_place key b none = (
  length b.places,
  record b {
    places = b.places ++ record { id = length b.places; key = key } ∷ [];
    place_of = insert key (length b.places) b.place_of;
  },
)

-- The place of a key, made where the key is new.
unfoldable pub place : PlaceKey → Builder → PlaceId × Builder
place key b = new_place key b (get key b.place_of)

unfoldable pub add :
    NetOp → Binding → Option PlaceId → List PlaceId → TransitionOrigin → Builder → Builder
add op binding next outputs origin b = record b {
  transitions =
      b.transitions
      ++ record {
        id = length b.transitions;
        op = op;
        binding = binding;
        next = next;
        outputs = outputs;
        origin = origin;
      }
        ∷ [];
}

unfoldable pub ctrl : FunctionId → ℕ → Builder → PlaceId × Builder
unfolding place
ctrl f sid b = place (PlaceKey.control f sid) b

-- A statement that moves on over one more place: a transition from the statement's control place.
-- `outputs` follow the successor place.
unfoldable pub add_step :
    NetOp → PlaceId → PlaceId → List PlaceId → TransitionOrigin → Builder → Builder
unfolding add
add_step op input next outputs origin b =
    add op (Binding.control input) (some next) (next ∷ outputs) origin b

unfoldable pub add_on : PlaceKey → NetOp → PlaceId → PlaceId → TransitionOrigin → Builder → Builder
unfolding place add_step
add_on key op input fall origin b =
    let (pid, b') = place key b in add_step op input fall (pid ∷ []) origin b'

unfoldable pub build_lock : ResourceId → PlaceId → PlaceId → TransitionOrigin → Builder → Builder
unfolding place add_step
build_lock r input fall origin b =
    let (mtx, b1) = place (PlaceKey.mutex r) b in
    let (lw, b2) = place (PlaceKey.lock_wait r) b1 in
    let b3 = add_step (NetOp.mutex_lock_grant r) input fall (mtx ∷ []) origin b2 in
    add_step (NetOp.mutex_lock_block r) input lw (mtx ∷ []) origin b3

-- The transitions of an operation on a channel without a buffer: `own` is the waiting place of the
-- operation, `other` the one of its counterpart.
unfoldable pub build_pairing :
    NetOp → NetOp → PlaceId → PlaceId → PlaceId → PlaceId → TransitionOrigin → Builder → Builder
unfolding add add_step
build_pairing register meet own other input fall origin b =
    let b' = add_step register input own [] origin b in
    add meet (Binding.control_choose_wait input other) (some fall) (fall ∷ own ∷ []) origin b'

-- The transitions of an operation on a channel with a buffer; `key` is its waiting place.
unfoldable pub build_buffered :
    NetOp → NetOp → PlaceKey → PlaceId → PlaceId → TransitionOrigin → Builder → Builder
unfolding place add_step
build_buffered act blocked key input fall origin b =
    let b1 = add_step act input fall [] origin b in
    let (own, b2) = place key b1 in add_step blocked input own [] origin b2

unfoldable pub build_send :
    ℕ → ResourceId → LExpr → PlaceId → PlaceId → TransitionOrigin → Builder → Builder
unfolding place build_pairing build_buffered
build_send cap c e input fall origin b =
    let (ch, b1) = place (PlaceKey.channel c) b in
    let (send, b2) = place (PlaceKey.channel_send c) b1 in
    let (recv, b3) = place (PlaceKey.channel_recv c) b2 in
    if cap == 0
    then build_pairing (NetOp.send_register c) (NetOp.send_pair c) send recv input fall origin b3
    else build_buffered (NetOp.send_buf c e) (NetOp.send_buf_block c e) (PlaceKey.channel_send c)
        input fall origin b1

unfoldable pub build_recv :
    ℕ → ResourceId → SlotRef → PlaceId → PlaceId → TransitionOrigin → Builder → Builder
unfolding place build_pairing build_buffered
build_recv cap c dst input fall origin b =
    let (ch, b1) = place (PlaceKey.channel c) b in
    let (send, b2) = place (PlaceKey.channel_send c) b1 in
    let (recv, b3) = place (PlaceKey.channel_recv c) b2 in
    if cap == 0
    then build_pairing (NetOp.recv_register c) (NetOp.recv_pair c) recv send input fall origin b3
    else build_buffered (NetOp.recv_buf c dst) (NetOp.recv_buf_block c) (PlaceKey.channel_recv c)
        input fall origin b1

unfoldable pub build_condvar_wait :
    ResourceId → ResourceId → PlaceId → TransitionOrigin → Builder → Builder
unfolding place add_step
build_condvar_wait c l input origin b =
    let (cv, b1) = place (PlaceKey.condvar c) b in
    let (mtx, b2) = place (PlaceKey.mutex l) b1 in
    add_step (NetOp.condvar_wait c l) input cv (mtx ∷ []) origin b2

unfoldable pub build_notify : ResourceId → PlaceId → PlaceId → TransitionOrigin → Builder → Builder
unfolding place add add_step
build_notify c input fall origin b =
    let (cv, b1) = place (PlaceKey.condvar c) b in
    let b2 =
      add (NetOp.condvar_notify_hit c) (Binding.control_choose_wait input cv) (some fall)
        (fall ∷ cv ∷ []) origin b1 in
    add_step (NetOp.condvar_notify_miss c) input fall (cv ∷ []) origin b2

unfoldable pub build_acquire :
    ResourceId → NetOp → NetOp → PlaceId → PlaceId → TransitionOrigin → Builder → Builder
unfolding place add_step
build_acquire r acquire blocked input fall origin b =
    let (sem, b1) = place (PlaceKey.semaphore r) b in
    let (sw, b2) = place (PlaceKey.sem_wait r) b1 in
    let b3 = add_step acquire input fall (sem ∷ []) origin b2 in
    add_step blocked input sw (sem ∷ []) origin b3

-- The control places of the entries of several functions.
unfoldable pub entry_places : List FunctionId → Builder → List PlaceId × Builder
unfolding ctrl
entry_places [] b = ([], b)
entry_places (f ∷ fs) b =
    let (pid, b1) = ctrl f 0 b in let (pids, b2) = entry_places fs b1 in (pid ∷ pids, b2)

unfoldable pub build_scope :
    FunctionId → ℕ → List FunctionId → PlaceId → PlaceId → TransitionOrigin → Builder → Builder
unfolding place add entry_places
build_scope fid si funcs input fall origin b =
    let (sw, b1) = place (PlaceKey.scope_wait fid si) b in
    let (pids, b2) = entry_places funcs b1 in
    add (NetOp.scope funcs) (Binding.control input) (some fall) (sw ∷ pids) origin b2

unfoldable pub build_join :
    FunctionId → ℕ → Str → PlaceId → PlaceId → TransitionOrigin → Builder → Builder
unfolding place add_step
build_join fid si handle input fall origin b =
    let (jw, b1) = place (PlaceKey.join_wait fid si) b in
    let b2 = add_step (NetOp.join_ready handle) input fall [] origin b1 in
    add_step (NetOp.join_block handle) input jw [] origin b2

unfoldable pub build_jump : FunctionId → ℕ → NetOp → PlaceId → TransitionOrigin → Builder → Builder
unfolding ctrl add_step
build_jump fid target op input origin b =
    let (out, b1) = ctrl fid target b in add_step op input out [] origin b1

unfoldable pub build_branch :
    FunctionId → LExpr → ℕ → ℕ → PlaceId → TransitionOrigin → Builder → Builder
unfolding ctrl add_step
build_branch fid cond then_target else_target input origin b =
    let (then_p, b1) = ctrl fid then_target b in
    let (else_p, b2) = ctrl fid else_target b1 in
    let b3 = add_step (NetOp.branch_then cond then_target) input then_p [] origin b2 in
    add_step (NetOp.branch_else cond else_target) input else_p [] origin b3

unfoldable pub build_cases :
    FunctionId → LExpr → Map Str ℕ → PlaceId → TransitionOrigin → Builder → Builder
unfolding build_jump
build_cases fid e [] input origin b = b
build_cases fid e ((label, target) ∷ cases) input origin b =
    build_cases fid e cases input origin
      (build_jump fid target (NetOp.switch_case e label target) input origin b)

abbrev pub keys : Map Str ℕ → List Str
keys m = map (λ (k, t). k) m

unfoldable pub build_switch :
    FunctionId → LExpr → Map Str ℕ → ℕ → PlaceId → TransitionOrigin → Builder → Builder
unfolding build_cases build_jump
build_switch fid e cases default input origin b =
    build_jump fid default (NetOp.switch_default e (keys cases) default) input origin
      (build_cases fid e cases input origin b)

unfoldable pub build_return : Option LExpr → PlaceId → TransitionOrigin → Builder → Builder
unfolding add
build_return value input origin b =
    add (NetOp.return_final value) (Binding.control input) none [] origin
      (add (NetOp.return_inner value) (Binding.control input) none [] origin b)

unfoldable pub build_spawn :
    FunctionId → Str → PlaceId → PlaceId → TransitionOrigin → Builder → Builder
unfolding ctrl add_step
build_spawn func handle input fall origin b =
    let (child, b1) = ctrl func 0 b in
    add_step (NetOp.spawn func handle) input fall (child ∷ []) origin b1

abbrev pub origin_of : SemFunction → Option ℕ → Phase → TransitionOrigin
origin_of f sid phase = record {
  module_id = f.module_id;
  function = f.id;
  sid = sid;
  phase = phase;
}

-- `build_stmt`, in the builder where `input` and `fall` are made.
unfoldable pub build_op :
    SemProgram
    → FunctionId
    → ℕ
    → SemOp
    → PlaceId
    → PlaceId
    → TransitionOrigin
    → Builder
    → Result Builder
unfolding add_step add_on build_lock build_send build_recv build_condvar_wait build_notify
    build_acquire build_scope build_join build_jump build_branch build_switch build_return
    build_spawn resource
build_op p fid si op input fall origin b = elim op [
  | SemOp.nop ↦ ok (add_step NetOp.nop input fall [] origin b)
  | SemOp.assign_local target e ↦ ok (add_step (NetOp.assign_local target e) input fall [] origin b)
  | SemOp.read_shared r dst ↦
      ok (add_on (PlaceKey.var r) (NetOp.read_var r dst) input fall origin b)
  | SemOp.write_shared r e ↦ ok (add_on (PlaceKey.var r) (NetOp.write_var r e) input fall origin b)
  | SemOp.atomic_load r dst ↦
      ok (add_on (PlaceKey.atomic r) (NetOp.atomic_load r dst) input fall origin b)
  | SemOp.atomic_store r e ↦
      ok (add_on (PlaceKey.atomic r) (NetOp.atomic_store r e) input fall origin b)
  | SemOp.atomic_cas r expected desired dst ↦
      ok (add_on (PlaceKey.atomic r) (NetOp.atomic_cas r expected desired dst) input fall origin b)
  | SemOp.mutex_lock r ↦ ok (build_lock r input fall origin b)
  | SemOp.mutex_unlock r ↦ ok (add_on (PlaceKey.mutex r) (NetOp.mutex_unlock r) input fall origin b)
  | SemOp.channel_send c e ↦
      resource p c >>= λ res. ok (build_send res.capacity c e input fall origin b)
  | SemOp.channel_recv c dst ↦
      resource p c >>= λ res. ok (build_recv res.capacity c dst input fall origin b)
  | SemOp.condvar_wait c l ↦ ok (build_condvar_wait c l input origin b)
  | SemOp.condvar_notify c ↦ ok (build_notify c input fall origin b)
  | SemOp.condvar_notify_all c ↦
      ok (add_on (PlaceKey.condvar c) (NetOp.condvar_notify_all c) input fall origin b)
  | SemOp.semaphore_acquire r count ↦ ok (
      build_acquire r (NetOp.sem_acquire r count) (NetOp.sem_acquire_block r count) input fall
        origin b)
  | SemOp.semaphore_release r count ↦
      ok (add_on (PlaceKey.semaphore r) (NetOp.sem_release r count) input fall origin b)
  | SemOp.call func args dst ↦ ok (build_jump func 0 (NetOp.call func args dst) input origin b)
  | SemOp.spawn func handle ↦ ok (build_spawn func handle input fall origin b)
  | SemOp.scope funcs ↦ ok (build_scope fid si funcs input fall origin b)
  | SemOp.join handle ↦ ok (build_join fid si handle input fall origin b)
  | SemOp.goto target ↦ ok (build_jump fid target (NetOp.goto target) input origin b)
  | SemOp.branch cond t e ↦ ok (build_branch fid cond t e input origin b)
  | SemOp.switch e cases default ↦ ok (build_switch fid e cases default input origin b)
  | SemOp.return value ↦ ok (build_return value input origin b)
  | SemOp.unsupported_op construct ↦ ok b
]

unfoldable pub build_stmt : SemProgram → SemFunction → ℕ → SemStmt → Builder → Result Builder
unfolding ctrl function build_op
build_stmt p f si stmt b =
    let (input, b1) = ctrl f.id si b in
    let (fall, b2) = ctrl f.id (si + 1) b1 in
    function p f.id >>= λ g.
    build_op p f.id si stmt.op input fall
      (record { module_id = g.module_id; function = f.id; sid = some si; phase = statement }) b2

unfoldable pub build_stmts : SemProgram → SemFunction → ℕ → List SemStmt → Builder → Result Builder
unfolding build_stmt
build_stmts p f si [] b = ok b
build_stmts p f si (stmt ∷ stmts) b =
    build_stmt p f si stmt b >>= λ b'. build_stmts p f (suc si) stmts b'

-- Falling off the end of a body is a return without a value.
unfoldable pub build_functions : SemProgram → List SemFunction → Builder → Result Builder
unfolding build_stmts ctrl build_return
build_functions p [] b = ok b
build_functions p (f ∷ fs) b = build_stmts p f 0 f.body b >>= λ b'.
    let (input, b'') = ctrl f.id (length f.body) b' in
    build_functions p fs (build_return none input (origin_of f none statement) b'')

-- A transition on each token that waits at a place.
unfoldable pub add_wake :
    NetOp → PlaceId → List PlaceId → SemProgram → SemResource → Phase → Builder → Builder
unfolding add
add_wake op pid outputs p res phase b =
    add op (Binding.wait pid) none outputs
      (record { module_id = res.module_id; function = p.entry; sid = none; phase = phase }) b

unfoldable pub build_channel : SemProgram → ResourceId → SemResource → Builder → Builder
unfolding place add_wake
build_channel p rid res b =
    let (ch, b1) = place (PlaceKey.channel rid) b in
    let (send, b2) = place (PlaceKey.channel_send rid) b1 in
    let (recv, b3) = place (PlaceKey.channel_recv rid) b2 in
    if res.capacity == 0
    then b3
    else (let b4 = add_wake (NetOp.buffer_deliver rid) send (ch ∷ send ∷ []) p res wake b3 in
        add_wake (NetOp.buffer_recv_wait rid) recv (ch ∷ recv ∷ []) p res wake b4)

unfoldable pub build_mutex : SemProgram → ResourceId → SemResource → Builder → Builder
unfolding place add_wake
build_mutex p rid res b =
    let (lw, b1) = place (PlaceKey.lock_wait rid) b in
    let (mtx, b2) = place (PlaceKey.mutex rid) b1 in
    add_wake (NetOp.lock_wait_acquire rid) lw (mtx ∷ []) p res reacquire b2

unfoldable pub build_semaphore : SemProgram → ResourceId → SemResource → Builder → Builder
unfolding place add_wake
build_semaphore p rid res b =
    let (sw, b1) = place (PlaceKey.sem_wait rid) b in
    let (sem, b2) = place (PlaceKey.semaphore rid) b1 in
    add_wake (NetOp.sem_grant rid) sw (sem ∷ []) p res reacquire b2

-- `res` is `program.resource(rid)`.
unfoldable pub build_resource : SemProgram → ResourceId → SemResource → Builder → Builder
unfolding place build_channel build_mutex build_semaphore
build_resource p rid res b = elim res.kind [
  | ResKind.var ↦ (place (PlaceKey.var rid) b).1
  | ResKind.atomic ↦ (place (PlaceKey.atomic rid) b).1
  | ResKind.mutex ↦ build_mutex p rid res b
  | ResKind.semaphore ↦ build_semaphore p rid res b
  | ResKind.channel ↦ build_channel p rid res b
  | _ ↦ b
]

unfoldable pub build_resources : SemProgram → List SemResource → Builder → Result Builder
unfolding build_resource resource
build_resources p [] b = ok b
build_resources p (r ∷ rs) b =
    resource p r.id >>= λ res. build_resources p rs (build_resource p r.id res b)

abbrev pub empty_builder : Builder
empty_builder = record { places = []; place_of = []; transitions = [] }

unfoldable pub build : SemProgram → Result PetriNet
unfolding build_functions build_resources
build p = build_functions p p.functions empty_builder >>= λ b.
    build_resources p p.resources b >>= λ b'. ok (record {
      places = b'.places;
      place_of = b'.place_of;
      transitions = b'.transitions;
      entry = p.entry;
    })
