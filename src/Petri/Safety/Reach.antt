-- ===== src/Petri/Safety/Reach.antt =====
-- src/petri/exec.rs: every step of the net of a program fires a transition for the thread of its label.
use conc_ir.Prelude.{
  ◌≡◌, refl, sym, ◌∙◌, subst, false, Option, none, some, List, [], ◌∷◌, In, inl, inr,
}
use conc_ir.Prelude.Map.{nat_key}
use conc_ir.Sem.Outcome.{ThreadId, AnalysisBounds, Result, ok, err, panic, ◌>>=◌}
use conc_ir.Sem.Eval.{Host}
use conc_ir.Sem.Program.{SemProgram}
use conc_ir.Sem.Monitor.{MonitorConfig}
use conc_ir.Sem.System.{Step, Enabled}
use conc_ir.Interp.Ownership.Relation.{Post, Every, Opt, Every-append, Post-bind}
use conc_ir.Petri.Net.{PlaceId, place_key, Place, Binding, Transition, PetriNet}
use conc_ir.Petri.State.{NetState}
use conc_ir.Petri.Build.{build}
use conc_ir.Petri.Engine.{Engine, place}
use conc_ir.Petri.Fire.{FireBind, fire}
use conc_ir.Petri.System.{new_engine, bindings, steps_of, fire_all, fire_transitions, successors}
use conc_ir.Petri.Safety.Relation.{Injective, Steps, Loose, is_sync}
use conc_ir.Petri.Safety.Keeping.{LooseOut}
use conc_ir.Petri.Safety.Fire.{actor, control_place, Tame, fire-Steps}
use conc_ir.Petri.WellFormed.Builder.{NamedLoose, binding_places, IsWellPlaced}
use conc_ir.Petri.WellFormed.Program.{IsWellFormedNet, build-IsWellFormed}

pub built_of :
    (p : SemProgram) (bounds : AnalysisBounds) (monitor : MonitorConfig) (host : Host)
    (eng : Engine)
    → new_engine p bounds monitor host ≡ ok eng
    → IsWellFormedNet eng.net
unfolding new_engine Post
built_of p bounds monitor host eng e = choose (build p) (build-IsWellFormed p) e
  where
    choose :
        (r : Result PetriNet)
        → Post IsWellFormedNet r
        → (r >>= λ net.
            ok (record { program = p; net = net; bounds = bounds; monitor = monitor; host = host }))
          ≡ ok eng
        → IsWellFormedNet eng.net
    choose panic w h = cc
    choose (err x) w h = cc
    choose (ok net) w h = subst IsWellFormedNet (net_of h) w
      where
        net_of :
            ◌≡◌ {A = Result Engine}
              (ok (record {
                program = p;
                net = net;
                bounds = bounds;
                monitor = monitor;
                host = host;
              }))
              (ok eng)
            → net ≡ eng.net
        net_of q = cc

pub program_of :
    (p : SemProgram) (bounds : AnalysisBounds) (monitor : MonitorConfig) (host : Host)
    (eng : Engine)
    → new_engine p bounds monitor host ≡ ok eng
    → p ≡ eng.program
unfolding new_engine
program_of p bounds monitor host eng e = choose (build p) e
  where
    choose :
        (r : Result PetriNet)
        → (r >>= λ net.
            ok (record { program = p; net = net; bounds = bounds; monitor = monitor; host = host }))
          ≡ ok eng
        → p ≡ eng.program
    choose panic h = cc
    choose (err x) h = cc
    choose (ok net) h = cc

module _ (eng : Engine) (w : IsWellFormedNet eng.net) where
  pub injective : Injective eng
  unfolding place
  injective k j pid a b = same_place (sym (w.formed.located k pid a) ∙ w.formed.located j pid b)
    where
      same_place :
          ◌≡◌ {A = Option Place}
            (some (record { id = pid; key = k }))
            (some (record { id = pid; key = j }))
          → k ≡ j
      same_place q = cc

  loose : (pid : PlaceId) → NamedLoose eng.net.place_of pid → Loose eng pid
  unfolding place
  loose pid (key, e, h) = λ j f. subst (λ k. is_sync k ≡ false) (injective key j pid e f) h

  first_of :
      (pid : PlaceId) (pids : List PlaceId)
      → Every (NamedLoose eng.net.place_of) (pid ∷ pids)
      → NamedLoose eng.net.place_of pid
  unfolding Every
  first_of pid pids h = h.0

  Tame-placed : (t : Transition) → IsWellPlaced eng.net.place_of t → Tame eng t
  unfolding control_place
  Tame-placed t x = record { from_loose = from t.binding x.inputs; next_loose = next t.next x.next }
    where
      from :
          (b : Binding)
          → Every (NamedLoose eng.net.place_of) (binding_places b)
          → LooseOut eng (control_place b)
      from (Binding.control pid) i = loose pid (first_of pid [] i)
      from (Binding.wait pid) i = tt
      from (Binding.pair a b) i = tt
      from (Binding.control_wait a b) i = loose a (first_of a (b ∷ []) i)
      from (Binding.control_choose_wait a b) i = loose a (first_of a (b ∷ []) i)

      next : (o : Option PlaceId) → Opt (NamedLoose eng.net.place_of) o → LooseOut eng o
      next none n = tt
      next (some pid) n = loose pid n

  -- A step that fires for the thread that its label names.
  abbrev pub Labelled : NetState → Step NetState → Type 0
  Labelled s st = (tid : ThreadId) × (st.label.thread ≡ some tid) × Steps eng tid s st.state

  AllLabelled : NetState → Enabled NetState → Type 0
  AllLabelled s en = Every (Labelled s) en.steps

  steps_of-Labelled :
      (s : NetState) (t : Transition) (bind : FireBind) (o : Option NetState)
      → Opt (Steps eng (actor bind) s) o
      → Every (Labelled s) (steps_of t bind o)
  unfolding Every actor
  steps_of-Labelled s t bind none x = tt
  steps_of-Labelled s t bind (some s') x = ((actor bind, refl, x), tt)

  fire_all-Labelled :
      (s : NetState) (t : Transition) (binds : List FireBind)
      → Tame eng t
      → Post (AllLabelled s) (fire_all eng s t binds)
  unfolding fire_all Post AllLabelled Every
  fire_all-Labelled s t [] tame = tt
  fire_all-Labelled s t (bind ∷ binds) tame =
      Post-bind _ (fire eng s t bind) _ (fire-Steps eng injective t bind s tame) (λ fired x.
        Post-bind _ (fire_all eng s t binds) _ (fire_all-Labelled s t binds tame) (λ rest y.
          Every-append (Labelled s) (steps_of t bind fired.next) rest.steps
            (steps_of-Labelled s t bind fired.next x) y))

  transitions-Labelled :
      (s : NetState) (ts : List Transition)
      → Every (IsWellPlaced eng.net.place_of) ts
      → Post (AllLabelled s) (fire_transitions eng s ts)
  unfolding fire_transitions Post AllLabelled Every
  transitions-Labelled s [] h = tt
  transitions-Labelled s (t ∷ ts) (h, hs) =
      Post-bind _ (fire_all eng s t (bindings t.binding s)) _
        (fire_all-Labelled s t (bindings t.binding s) (Tame-placed t h))
        (λ here x.
          Post-bind _ (fire_transitions eng s ts) _ (transitions-Labelled s ts hs)
            (λ rest y. Every-append (Labelled s) here.steps rest.steps x y))

  of_Every :
      (s : NetState) (sts : List (Step NetState)) (st : Step NetState)
      → Every (Labelled s) sts
      → In st sts
      → Labelled s st
  unfolding Every
  of_Every s [] st h i = absurd i
  of_Every s (x ∷ sts) st h (inl e) = subst (Labelled s) e (h.0)
  of_Every s (x ∷ sts) st h (inr i) = of_Every s sts st (h.1) i

  pub step-Steps :
      (s : NetState) (en : Enabled NetState) (st : Step NetState)
      → successors eng s ≡ ok en
      → In st en.steps
      → Labelled s st
  unfolding successors Post AllLabelled
  step-Steps s en st e i =
      of_Every s en.steps st
        (subst (Post (AllLabelled s)) e
          (transitions-Labelled s eng.net.transitions w.formed.transitions))
        i
