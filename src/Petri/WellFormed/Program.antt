-- ===== src/Petri/WellFormed/Program.antt =====
-- src/petri/net.rs: the net of a program is well formed.
use conc_ir.Prelude.{
  ℕ, suc, ◌+◌, ◌==◌, ◌≡◌, refl, Bool, true, false, none, some, List, [], ◌∷◌, length, if◌then◌else◌,
}
use conc_ir.Prelude.Map.{get}
use conc_ir.Sem.Outcome.{
  FunctionId, ResourceId, TransitionOrigin, Result, ok, Phase, statement, reacquire, wake,
}
use conc_ir.Sem.Program.{
  SemProgram, SemFunction, SemStmt, SemOp, SemResource, ResKind, function, resource,
}
use conc_ir.Interp.Ownership.Relation.{Post, Every, Post-bind, Post-any, Post-map, Post-ok}
use conc_ir.Petri.Net.{PlaceId, PlaceKey, place_key, Binding, NetOp, PetriNet}
use conc_ir.Petri.Build.{
  Builder, build_op, build_stmt, build_stmts, origin_of, build_functions, add_wake, build_channel,
  build_mutex, build_semaphore, build_resource, build_resources, empty_builder, build,
}
use conc_ir.Petri.WellFormed.Builder.{
  Named, NamedLoose, IsWellFormed, IsWellBuilt, Good, Loose-ext, Named-ext, Good-refl, then-Good,
  Made-Good, Good-of, place-Made, ctrl-Made, loose-Made, Named-Made, add-Good, add_step-Good,
  add_on-Good, Named-loose, no_outputs, two_outputs, one_output,
}
use conc_ir.Petri.WellFormed.Statements.{
  one_input, jump-Good, branch-Good, switch-Good, return-Good, condvar_wait-Good, lock-Good,
  acquire-Good, notify-Good, send-Good, recv-Good, spawn-Good, join-Good, scope-Good,
}

-- The net of a builder.
pub record IsWellFormedNet (net : PetriNet) : Type 0 where
  pub formed : IsWellFormed net.places net.place_of net.transitions

later-Good : {a b : Builder} (m : Result Builder) → Good a b → Post (Good b) m → Post (Good a) m
later-Good m x q = Post-map m q (λ r y. then-Good x y)

op-Good :
    (p : SemProgram) (fid : FunctionId) (si : ℕ) (op : SemOp) (input fall : PlaceId)
    (origin : TransitionOrigin) (b : Builder)
    → IsWellBuilt b
    → NamedLoose b.place_of input
    → NamedLoose b.place_of fall
    → Post (Good b) (build_op p fid si op input fall origin b)
unfolding build_op Post
op-Good p fid si SemOp.nop input fall origin b w i f =
    add_step-Good NetOp.nop input fall [] origin b w i f (no_outputs _)
op-Good p fid si (SemOp.assign_local target e) input fall origin b w i f =
    add_step-Good (NetOp.assign_local target e) input fall [] origin b w i f (no_outputs _)
op-Good p fid si (SemOp.read_shared r dst) input fall origin b w i f =
    add_on-Good (PlaceKey.var r) (NetOp.read_var r dst) input fall origin b w i f
op-Good p fid si (SemOp.write_shared r e) input fall origin b w i f =
    add_on-Good (PlaceKey.var r) (NetOp.write_var r e) input fall origin b w i f
op-Good p fid si (SemOp.atomic_load r dst) input fall origin b w i f =
    add_on-Good (PlaceKey.atomic r) (NetOp.atomic_load r dst) input fall origin b w i f
op-Good p fid si (SemOp.atomic_store r e) input fall origin b w i f =
    add_on-Good (PlaceKey.atomic r) (NetOp.atomic_store r e) input fall origin b w i f
op-Good p fid si (SemOp.atomic_cas r expected desired dst) input fall origin b w i f =
    add_on-Good (PlaceKey.atomic r) (NetOp.atomic_cas r expected desired dst) input fall origin b w
      i f
op-Good p fid si (SemOp.mutex_lock r) input fall origin b w i f =
    lock-Good origin input fall r b w i f
op-Good p fid si (SemOp.mutex_unlock r) input fall origin b w i f =
    add_on-Good (PlaceKey.mutex r) (NetOp.mutex_unlock r) input fall origin b w i f
op-Good p fid si (SemOp.channel_send c e) input fall origin b w i f =
    Post-any _ (resource p c) _ (λ res. send-Good origin input fall res.capacity c e b w i f)
op-Good p fid si (SemOp.channel_recv c dst) input fall origin b w i f =
    Post-any _ (resource p c) _ (λ res. recv-Good origin input fall res.capacity c dst b w i f)
op-Good p fid si (SemOp.condvar_wait c l) input fall origin b w i f =
    condvar_wait-Good origin input c l b w i
op-Good p fid si (SemOp.condvar_notify c) input fall origin b w i f =
    notify-Good origin input fall c b w i f
op-Good p fid si (SemOp.condvar_notify_all c) input fall origin b w i f =
    add_on-Good (PlaceKey.condvar c) (NetOp.condvar_notify_all c) input fall origin b w i f
op-Good p fid si (SemOp.semaphore_acquire r count) input fall origin b w i f =
    acquire-Good origin input fall r (NetOp.sem_acquire r count) (NetOp.sem_acquire_block r count) b
      w i f
op-Good p fid si (SemOp.semaphore_release r count) input fall origin b w i f =
    add_on-Good (PlaceKey.semaphore r) (NetOp.sem_release r count) input fall origin b w i f
op-Good p fid si (SemOp.call func args dst) input fall origin b w i f =
    jump-Good origin input func 0 (NetOp.call func args dst) b w i
op-Good p fid si (SemOp.spawn func handle) input fall origin b w i f =
    spawn-Good origin input fall func handle b w i f
op-Good p fid si (SemOp.scope funcs) input fall origin b w i f =
    scope-Good origin input fall fid si funcs b w i f
op-Good p fid si (SemOp.join handle) input fall origin b w i f =
    join-Good origin input fall fid si handle b w i f
op-Good p fid si (SemOp.goto target) input fall origin b w i f =
    jump-Good origin input fid target (NetOp.goto target) b w i
op-Good p fid si (SemOp.branch cond t e) input fall origin b w i f =
    branch-Good origin input fid cond t e b w i
op-Good p fid si (SemOp.switch e cases default) input fall origin b w i f =
    switch-Good origin input fid e cases default b w i
op-Good p fid si (SemOp.return value) input fall origin b w i f =
    return-Good origin input value b w i
op-Good p fid si (SemOp.unsupported_op construct) input fall origin b w i f = Good-refl b w

stmt-Good :
    (p : SemProgram) (f : SemFunction) (si : ℕ) (stmt : SemStmt) (b : Builder)
    → IsWellBuilt b
    → Post (Good b) (build_stmt p f si stmt b)
unfolding build_stmt
stmt-Good p f si stmt b w =
    let x = ctrl-Made f.id si b w in
    let y = ctrl-Made f.id (si + 1) _ x.built in
    Post-any _ (function p f.id) _ (λ g.
      later-Good (build_op p f.id si stmt.op _ _ _ _) (Made-Good x (Good-of y)) (
        op-Good p f.id si stmt.op _ _ _ _ y.built (Loose-ext y.extends _ (loose-Made x refl))
          (loose-Made y refl)))

stmts-Good :
    (p : SemProgram) (f : SemFunction) (si : ℕ) (stmts : List SemStmt) (b : Builder)
    → IsWellBuilt b
    → Post (Good b) (build_stmts p f si stmts b)
unfolding build_stmts Post
stmts-Good p f si [] b w = Good-refl b w
stmts-Good p f si (stmt ∷ stmts) b w =
    Post-bind _ (build_stmt p f si stmt b) _ (stmt-Good p f si stmt b w) (λ b' x.
      later-Good (build_stmts p f (suc si) stmts b') x (stmts-Good p f (suc si) stmts b' x.built))

functions-Good :
    (p : SemProgram) (fs : List SemFunction) (b : Builder)
    → IsWellBuilt b
    → Post (Good b) (build_functions p fs b)
unfolding build_functions Post
functions-Good p [] b w = Good-refl b w
functions-Good p (f ∷ fs) b w =
    Post-bind _ (build_stmts p f 0 f.body b) _ (stmts-Good p f 0 f.body b w) (λ b' x.
      let y = ctrl-Made f.id (length f.body) b' x.built in
      let at = origin_of f none statement in
      let z = return-Good at _ none _ y.built (loose-Made y refl) in
      later-Good (build_functions p fs _) (then-Good x (Made-Good y z))
        (functions-Good p fs _ z.built))

wake-Good :
    (op : NetOp) (pid : PlaceId) (outputs : List PlaceId) (p : SemProgram) (res : SemResource)
    (phase : Phase) (b : Builder)
    → IsWellBuilt b
    → NamedLoose b.place_of pid
    → Every (Named b.place_of) outputs
    → Good b (add_wake op pid outputs p res phase b)
unfolding add_wake
wake-Good op pid outputs p res phase b w i o =
    add-Good op (Binding.wait pid) none outputs _ b w (one_input _ pid i) tt o

channel-Good :
    (p : SemProgram) (rid : ResourceId) (res : SemResource) (b : Builder)
    → IsWellBuilt b
    → Good b (build_channel p rid res b)
unfolding build_channel
channel-Good p rid res b w =
    let x = place-Made (PlaceKey.channel rid) b w in
    let y = place-Made (PlaceKey.channel_send rid) _ x.built in
    let z = place-Made (PlaceKey.channel_recv rid) _ y.built in
    let s = Loose-ext z.extends _ (loose-Made y refl) in
    let ch = Named-ext z.extends _ (Named-ext y.extends _ (Named-Made x)) in
    let u =
      wake-Good (NetOp.buffer_deliver rid) _ _ p res wake _ z.built s
        (two_outputs _ _ _ ch (Named-loose _ _ s)) in
    let v = Loose-ext u.extends _ (loose-Made z refl) in
    Made-Good x (
      Made-Good y (
        Made-Good z (
          choose (res.capacity == 0) _ _ _ (Good-refl _ z.built) (
            then-Good u (
              wake-Good (NetOp.buffer_recv_wait rid) _ _ p res wake _ u.built v
                (two_outputs _ _ _ (Named-ext u.extends _ ch) (Named-loose _ _ v)))))))
  where
    choose : (t : Bool) (a c d : Builder) → Good a c → Good a d → Good a (if t then c else d)
    choose true a c d g h = g
    choose false a c d g h = h

mutex-Good :
    (p : SemProgram) (rid : ResourceId) (res : SemResource) (b : Builder)
    → IsWellBuilt b
    → Good b (build_mutex p rid res b)
unfolding build_mutex
mutex-Good p rid res b w =
    let x = place-Made (PlaceKey.lock_wait rid) b w in
    let y = place-Made (PlaceKey.mutex rid) _ x.built in
    Made-Good x (
      Made-Good y (
        wake-Good (NetOp.lock_wait_acquire rid) _ _ p res reacquire _ y.built
          (Loose-ext y.extends _ (loose-Made x refl)) (one_output _ _ (Named-Made y))))

semaphore-Good :
    (p : SemProgram) (rid : ResourceId) (res : SemResource) (b : Builder)
    → IsWellBuilt b
    → Good b (build_semaphore p rid res b)
unfolding build_semaphore
semaphore-Good p rid res b w =
    let x = place-Made (PlaceKey.sem_wait rid) b w in
    let y = place-Made (PlaceKey.semaphore rid) _ x.built in
    Made-Good x (
      Made-Good y (
        wake-Good (NetOp.sem_grant rid) _ _ p res reacquire _ y.built
          (Loose-ext y.extends _ (loose-Made x refl)) (one_output _ _ (Named-Made y))))

resource-Good :
    (p : SemProgram) (rid : ResourceId) (res : SemResource) (kind : ResKind) (b : Builder)
    → res.kind ≡ kind
    → IsWellBuilt b
    → Good b (build_resource p rid res b)
unfolding build_resource
resource-Good p rid res ResKind.var b e w = rw e (Good-of (place-Made (PlaceKey.var rid) b w))
resource-Good p rid res ResKind.atomic b e w = rw e (Good-of (place-Made (PlaceKey.atomic rid) b w))
resource-Good p rid res ResKind.mutex b e w = rw e (mutex-Good p rid res b w)
resource-Good p rid res ResKind.rw_lock b e w = rw e (Good-refl b w)
resource-Good p rid res ResKind.condvar b e w = rw e (Good-refl b w)
resource-Good p rid res ResKind.semaphore b e w = rw e (semaphore-Good p rid res b w)
resource-Good p rid res ResKind.channel b e w = rw e (channel-Good p rid res b w)

resources-Good :
    (p : SemProgram) (rs : List SemResource) (b : Builder)
    → IsWellBuilt b
    → Post (Good b) (build_resources p rs b)
unfolding build_resources Post
resources-Good p [] b w = Good-refl b w
resources-Good p (r ∷ rs) b w = Post-any _ (resource p r.id) _ (λ res.
    let x = resource-Good p r.id res res.kind b refl w in
    later-Good (build_resources p rs _) x (resources-Good p rs _ x.built))

empty_built : IsWellBuilt empty_builder
unfolding get Every
empty_built = record {
  located = λ k id e. absurd (no_key k id e);
  placed = λ id p e. cc;
  transitions = tt;
}
  where
    no_key : (k : PlaceKey) (id : PlaceId) → get k [] ≡ some id → ⊥
    no_key k id e = cc

-- In the net of a program every place is at the position of its identity, the places and their keys
-- correspond one to one, every place that a transition names exists, and tokens that move through
-- the bindings and the successor places never stand at the place of a mutex, semaphore or channel.
pub build-IsWellFormed : (p : SemProgram) → Post IsWellFormedNet (build p)
unfolding build
build-IsWellFormed p =
    Post-bind _ (build_functions p p.functions empty_builder) _
      (functions-Good p p.functions empty_builder empty_built)
      (λ b x.
        Post-bind _ (build_resources p p.resources b) _ (resources-Good p p.resources b x.built)
          (λ b' y. wrap b' y.built))
  where
    wrap :
        (b : Builder)
        → IsWellBuilt b
        → Post IsWellFormedNet (
            ok (record {
              places = b.places;
              place_of = b.place_of;
              transitions = b.transitions;
              entry = p.entry;
            }))
    wrap b w = Post-ok IsWellFormedNet _ (record { formed = w })
