-- ===== src/Petri/WellFormed/Statements.antt =====
-- src/petri/net.rs: the transitions of a statement keep a net well formed.
use conc_ir.Prelude.{
  ℕ, ◌==◌, ◌≡◌, refl, Bool, true, false, Option, none, some, List, [], ◌∷◌, if◌then◌else◌,
}
use conc_ir.Prelude.Text.{Str}
use conc_ir.Prelude.Map.{Map}
use conc_ir.Sem.Outcome.{FunctionId, ResourceId, SlotRef, TransitionOrigin}
use conc_ir.Sem.Eval.{LExpr}
use conc_ir.Interp.Ownership.Relation.{Every}
use conc_ir.Petri.Net.{PlaceId, PlaceKey, place_key, Binding, NetOp}
use conc_ir.Petri.Build.{
  Builder, build_lock, build_pairing, build_buffered, build_send, build_recv, build_condvar_wait,
  build_notify, build_acquire, entry_places, build_scope, build_join, build_jump, build_branch,
  build_cases, keys, build_switch, build_return, build_spawn,
}
use conc_ir.Petri.Safety.Relation.{is_sync}
use conc_ir.Petri.WellFormed.Builder.{
  Named, NamedLoose, IsWellBuilt, Good, Loose-ext, Named-ext, Good-refl, then-Good, Made-Good,
  place-Made, ctrl-Made, loose-Made, Named-Made, add-Good, Named-loose, add_step-Good, no_outputs,
  one_output, two_outputs,
}

-- A control place and one more, of which a transition takes its tokens.
two_inputs :
    (m : Map PlaceKey PlaceId) (a b : PlaceId)
    → NamedLoose m a
    → NamedLoose m b
    → Every (NamedLoose m) (a ∷ b ∷ [])
unfolding Every
two_inputs m a b x y = (x, (y, tt))

pub one_input :
    (m : Map PlaceKey PlaceId) (a : PlaceId) → NamedLoose m a → Every (NamedLoose m) (a ∷ [])
unfolding Every
one_input m a x = (x, tt)

more_outputs :
    (m : Map PlaceKey PlaceId) (a : PlaceId) (pids : List PlaceId)
    → Named m a
    → Every (Named m) pids
    → Every (Named m) (a ∷ pids)
unfolding Every
more_outputs m a pids x y = (x, y)

entries-Good :
    (funcs : List FunctionId) (b : Builder)
    → IsWellBuilt b
    → Good b (entry_places funcs b).1
      × Every (Named (entry_places funcs b).1.place_of) (entry_places funcs b).0
unfolding entry_places
entries-Good [] b w = (Good-refl b w, no_outputs _)
entries-Good (f ∷ fs) b w =
    let x = ctrl-Made f 0 b w in
    let y = entries-Good fs _ x.built in
    (Made-Good x y.0, more_outputs _ _ _ (Named-ext y.0.extends _ (Named-Made x)) y.1)

module _ (origin : TransitionOrigin) (input : PlaceId) where
  pub jump-Good :
      (fid : FunctionId) (target : ℕ) (op : NetOp) (b : Builder)
      → IsWellBuilt b
      → NamedLoose b.place_of input
      → Good b (build_jump fid target op input origin b)
  unfolding build_jump
  jump-Good fid target op b w i =
      let x = ctrl-Made fid target b w in
      Made-Good x (
        add_step-Good op input _ [] origin _ x.built (Loose-ext x.extends input i)
          (loose-Made x refl) (no_outputs _))

  pub branch-Good :
      (fid : FunctionId) (cond : LExpr) (t e : ℕ) (b : Builder)
      → IsWellBuilt b
      → NamedLoose b.place_of input
      → Good b (build_branch fid cond t e input origin b)
  unfolding build_branch
  branch-Good fid cond t e b w i =
      let x = ctrl-Made fid t b w in
      let y = ctrl-Made fid e _ x.built in
      let i' = Loose-ext y.extends input (Loose-ext x.extends input i) in
      let z =
        add_step-Good (NetOp.branch_then cond t) input _ [] origin _ y.built i'
          (Loose-ext y.extends _ (loose-Made x refl)) (no_outputs _) in
      Made-Good x (
        Made-Good y (
          then-Good z (
            add_step-Good (NetOp.branch_else cond e) input _ [] origin _ z.built
              (Loose-ext z.extends input i') (Loose-ext z.extends _ (loose-Made y refl))
              (no_outputs _))))

  cases-Good :
      (fid : FunctionId) (e : LExpr) (cases : Map Str ℕ) (b : Builder)
      → IsWellBuilt b
      → NamedLoose b.place_of input
      → Good b (build_cases fid e cases input origin b)
  unfolding build_cases
  cases-Good fid e [] b w i = Good-refl b w
  cases-Good fid e ((label, target) ∷ cases) b w i =
      let x = jump-Good fid target (NetOp.switch_case e label target) b w i in
      then-Good x (cases-Good fid e cases _ x.built (Loose-ext x.extends input i))

  pub switch-Good :
      (fid : FunctionId) (e : LExpr) (cases : Map Str ℕ) (default : ℕ) (b : Builder)
      → IsWellBuilt b
      → NamedLoose b.place_of input
      → Good b (build_switch fid e cases default input origin b)
  unfolding build_switch
  switch-Good fid e cases default b w i =
      let x = cases-Good fid e cases b w i in
      then-Good x (
        jump-Good fid default (NetOp.switch_default e (keys cases) default) _ x.built
          (Loose-ext x.extends input i))

  pub return-Good :
      (value : Option LExpr) (b : Builder)
      → IsWellBuilt b
      → NamedLoose b.place_of input
      → Good b (build_return value input origin b)
  unfolding build_return
  return-Good value b w i =
      let x =
        add-Good (NetOp.return_inner value) (Binding.control input) none [] origin b w
          (one_input _ input i) tt (no_outputs _) in
      then-Good x (
        add-Good (NetOp.return_final value) (Binding.control input) none [] origin _ x.built
          (one_input _ input (Loose-ext x.extends input i)) tt (no_outputs _))

  pub condvar_wait-Good :
      (c l : ResourceId) (b : Builder)
      → IsWellBuilt b
      → NamedLoose b.place_of input
      → Good b (build_condvar_wait c l input origin b)
  unfolding build_condvar_wait
  condvar_wait-Good c l b w i =
      let x = place-Made (PlaceKey.condvar c) b w in
      let y = place-Made (PlaceKey.mutex l) _ x.built in
      Made-Good x (
        Made-Good y (
          add_step-Good (NetOp.condvar_wait c l) input _ _ origin _ y.built
            (Loose-ext y.extends input (Loose-ext x.extends input i))
            (Loose-ext y.extends _ (loose-Made x refl)) (one_output _ _ (Named-Made y))))

  module _ (fall : PlaceId) where
    pub lock-Good :
        (r : ResourceId) (b : Builder)
        → IsWellBuilt b
        → NamedLoose b.place_of input
        → NamedLoose b.place_of fall
        → Good b (build_lock r input fall origin b)
    unfolding build_lock
    lock-Good r b w i f =
        let x = place-Made (PlaceKey.mutex r) b w in
        let y = place-Made (PlaceKey.lock_wait r) _ x.built in
        let i' = Loose-ext y.extends input (Loose-ext x.extends input i) in
        let f' = Loose-ext y.extends fall (Loose-ext x.extends fall f) in
        let mtx = Named-ext y.extends _ (Named-Made x) in
        let z =
          add_step-Good (NetOp.mutex_lock_grant r) input fall _ origin _ y.built i' f'
            (one_output _ _ mtx) in
        Made-Good x (
          Made-Good y (
            then-Good z (
              add_step-Good (NetOp.mutex_lock_block r) input _ _ origin _ z.built
                (Loose-ext z.extends input i') (Loose-ext z.extends _ (loose-Made y refl))
                (one_output _ _ (Named-ext z.extends _ mtx)))))

    pub acquire-Good :
        (r : ResourceId) (acquire blocked : NetOp) (b : Builder)
        → IsWellBuilt b
        → NamedLoose b.place_of input
        → NamedLoose b.place_of fall
        → Good b (build_acquire r acquire blocked input fall origin b)
    unfolding build_acquire
    acquire-Good r acquire blocked b w i f =
        let x = place-Made (PlaceKey.semaphore r) b w in
        let y = place-Made (PlaceKey.sem_wait r) _ x.built in
        let i' = Loose-ext y.extends input (Loose-ext x.extends input i) in
        let f' = Loose-ext y.extends fall (Loose-ext x.extends fall f) in
        let sem = Named-ext y.extends _ (Named-Made x) in
        let z = add_step-Good acquire input fall _ origin _ y.built i' f' (one_output _ _ sem) in
        Made-Good x (
          Made-Good y (
            then-Good z (
              add_step-Good blocked input _ _ origin _ z.built (Loose-ext z.extends input i')
                (Loose-ext z.extends _ (loose-Made y refl))
                (one_output _ _ (Named-ext z.extends _ sem)))))

    pub notify-Good :
        (c : ResourceId) (b : Builder)
        → IsWellBuilt b
        → NamedLoose b.place_of input
        → NamedLoose b.place_of fall
        → Good b (build_notify c input fall origin b)
    unfolding build_notify
    notify-Good c b w i f =
        let x = place-Made (PlaceKey.condvar c) b w in
        let i' = Loose-ext x.extends input i in
        let f' = Loose-ext x.extends fall f in
        let y =
          add-Good (NetOp.condvar_notify_hit c) (Binding.control_choose_wait input _) (some fall) _
            origin _ x.built (two_inputs _ input _ i' (loose-Made x refl)) f'
            (two_outputs _ fall _ (Named-loose _ fall f') (Named-Made x)) in
        Made-Good x (
          then-Good y (
            add_step-Good (NetOp.condvar_notify_miss c) input fall _ origin _ y.built
              (Loose-ext y.extends input i') (Loose-ext y.extends fall f')
              (one_output _ _ (Named-ext y.extends _ (Named-Made x)))))

    pairing-Good :
        (register meet : NetOp) (own other : PlaceId) (b : Builder)
        → IsWellBuilt b
        → NamedLoose b.place_of own
        → NamedLoose b.place_of other
        → NamedLoose b.place_of input
        → NamedLoose b.place_of fall
        → Good b (build_pairing register meet own other input fall origin b)
    unfolding build_pairing
    pairing-Good register meet own other b w o p i f =
        let z = add_step-Good register input own [] origin b w i o (no_outputs _) in
        let f' = Loose-ext z.extends fall f in
        then-Good z (
          add-Good meet (Binding.control_choose_wait input other) (some fall) _ origin _ z.built
            (two_inputs _ input other (Loose-ext z.extends input i) (Loose-ext z.extends other p))
            f'
            (two_outputs _ fall own (Named-loose _ fall f')
              (Named-loose _ own (Loose-ext z.extends own o))))

    buffered-Good :
        (act blocked : NetOp) (key : PlaceKey) (b : Builder)
        → is_sync key ≡ false
        → IsWellBuilt b
        → NamedLoose b.place_of input
        → NamedLoose b.place_of fall
        → Good b (build_buffered act blocked key input fall origin b)
    unfolding build_buffered
    buffered-Good act blocked key b h w i f =
        let x = add_step-Good act input fall [] origin b w i f (no_outputs _) in
        let y = place-Made key _ x.built in
        then-Good x (
          Made-Good y (
            add_step-Good blocked input _ [] origin _ y.built
              (Loose-ext y.extends input (Loose-ext x.extends input i)) (loose-Made y h)
              (no_outputs _)))

    Good-if : (t : Bool) (b x y : Builder) → Good b x → Good b y → Good b (if t then x else y)
    Good-if true b x y p q = p
    Good-if false b x y p q = q

    pub send-Good :
        (cap : ℕ) (c : ResourceId) (e : LExpr) (b : Builder)
        → IsWellBuilt b
        → NamedLoose b.place_of input
        → NamedLoose b.place_of fall
        → Good b (build_send cap c e input fall origin b)
    unfolding build_send
    send-Good cap c e b w i f =
        let x = place-Made (PlaceKey.channel c) b w in
        let y = place-Made (PlaceKey.channel_send c) _ x.built in
        let z = place-Made (PlaceKey.channel_recv c) _ y.built in
        let i' = Loose-ext x.extends input i in
        let f' = Loose-ext x.extends fall f in
        Made-Good x (
          Good-if (cap == 0) _ _ _
            (Made-Good y (
              Made-Good z (
                pairing-Good (NetOp.send_register c) (NetOp.send_pair c) _ _ _ z.built
                  (Loose-ext z.extends _ (loose-Made y refl)) (loose-Made z refl)
                  (Loose-ext z.extends input (Loose-ext y.extends input i'))
                  (Loose-ext z.extends fall (Loose-ext y.extends fall f')))))
            (buffered-Good (NetOp.send_buf c e) (NetOp.send_buf_block c e) (PlaceKey.channel_send c)
              _ refl x.built i' f'))

    pub recv-Good :
        (cap : ℕ) (c : ResourceId) (dst : SlotRef) (b : Builder)
        → IsWellBuilt b
        → NamedLoose b.place_of input
        → NamedLoose b.place_of fall
        → Good b (build_recv cap c dst input fall origin b)
    unfolding build_recv
    recv-Good cap c dst b w i f =
        let x = place-Made (PlaceKey.channel c) b w in
        let y = place-Made (PlaceKey.channel_send c) _ x.built in
        let z = place-Made (PlaceKey.channel_recv c) _ y.built in
        let i' = Loose-ext x.extends input i in
        let f' = Loose-ext x.extends fall f in
        Made-Good x (
          Good-if (cap == 0) _ _ _
            (Made-Good y (
              Made-Good z (
                pairing-Good (NetOp.recv_register c) (NetOp.recv_pair c) _ _ _ z.built
                  (loose-Made z refl) (Loose-ext z.extends _ (loose-Made y refl))
                  (Loose-ext z.extends input (Loose-ext y.extends input i'))
                  (Loose-ext z.extends fall (Loose-ext y.extends fall f')))))
            (buffered-Good (NetOp.recv_buf c dst) (NetOp.recv_buf_block c) (PlaceKey.channel_recv c)
              _ refl x.built i' f'))

    pub spawn-Good :
        (func : FunctionId) (handle : Str) (b : Builder)
        → IsWellBuilt b
        → NamedLoose b.place_of input
        → NamedLoose b.place_of fall
        → Good b (build_spawn func handle input fall origin b)
    unfolding build_spawn
    spawn-Good func handle b w i f =
        let x = ctrl-Made func 0 b w in
        Made-Good x (
          add_step-Good (NetOp.spawn func handle) input fall _ origin _ x.built
            (Loose-ext x.extends input i) (Loose-ext x.extends fall f)
            (one_output _ _ (Named-Made x)))

    pub join-Good :
        (fid : FunctionId) (si : ℕ) (handle : Str) (b : Builder)
        → IsWellBuilt b
        → NamedLoose b.place_of input
        → NamedLoose b.place_of fall
        → Good b (build_join fid si handle input fall origin b)
    unfolding build_join
    join-Good fid si handle b w i f =
        let x = place-Made (PlaceKey.join_wait fid si) b w in
        let i' = Loose-ext x.extends input i in
        let y =
          add_step-Good (NetOp.join_ready handle) input fall [] origin _ x.built i'
            (Loose-ext x.extends fall f) (no_outputs _) in
        Made-Good x (
          then-Good y (
            add_step-Good (NetOp.join_block handle) input _ [] origin _ y.built
              (Loose-ext y.extends input i') (Loose-ext y.extends _ (loose-Made x refl))
              (no_outputs _)))

    pub scope-Good :
        (fid : FunctionId) (si : ℕ) (funcs : List FunctionId) (b : Builder)
        → IsWellBuilt b
        → NamedLoose b.place_of input
        → NamedLoose b.place_of fall
        → Good b (build_scope fid si funcs input fall origin b)
    unfolding build_scope
    scope-Good fid si funcs b w i f =
        let x = place-Made (PlaceKey.scope_wait fid si) b w in
        let y = entries-Good funcs _ x.built in
        Made-Good x (
          then-Good y.0 (
            add-Good (NetOp.scope funcs) (Binding.control input) (some fall) _ origin _ y.0.built
              (one_input _ input (Loose-ext y.0.extends input (Loose-ext x.extends input i)))
              (Loose-ext y.0.extends fall (Loose-ext x.extends fall f))
              (more_outputs _ _ _ (Named-ext y.0.extends _ (Named-Made x)) y.1)))
