-- ===== src/Examples/Engine.antt =====
-- The explorer on the interpreter and the program of Examples.Machine, which takes a mutex, sends a
-- message and returns.
use conc_ir.Prelude.{
  ◌≡◌, ◌≢◌, refl, sym, ap, subst, ◌∙◌, ◌⊎◌, inl, inr, true, [], ◌∷◌, map, In, ◌==◌, if◌then◌else◌,
}
use conc_ir.Prelude.Text.{Str}
use conc_ir.Prelude.Map.{get, insert, remove, nat_key, pair_key, list_key}
use conc_ir.Sem.Outcome.{ok, panic, Outcome, default_bounds}
use conc_ir.Sem.Results.{ok-inj}
use conc_ir.Sem.System.{Step, Enabled, TransitionSystem, mutex_held, mutex_free, statement_reached}
use conc_ir.Interp.State.{MachineState}
use conc_ir.Interp.Machine.{initial, successors, is_finished, satisfied, transition_system}
use conc_ir.Explore.Reach.{Reach, initially, later, Next, KeyLaws}
use conc_ir.Explore.Judgement.{answers}
use conc_ir.Explore.Invariant.Flags.{IsTotal}
use conc_ir.Explore.Search.{finished, turn}
use conc_ir.Explore.Contract.{
  deadlock_free, always_reachable, reachable, VerificationContract, PropertySpecResolved,
}
use conc_ir.Explore.Check.{VerificationReport, verify}
use conc_ir.Explore.Verdict.Failures.{FailDecides}
use conc_ir.Explore.Verdict.Report.{Fulfils, verify_pass}
use conc_ir.Explore.Verdict.Refuted.{Refutation, verify_fail}
use conc_ir.Examples.Machine.{the_interpreter}

-- Texts that tell the reachable states of this program apart: the statement of each frame.
abbrev progress : MachineState → Str
progress s = map (λ (id, f). f.pc) s.store.frames

abbrev engine : TransitionSystem MachineState
engine = transition_system the_interpreter progress

starting : (s : MachineState) × (initial the_interpreter ≡ ok s)
unfolding initial
starting = (_, refl)

-- The only step of a state.
record Only (s : MachineState) : Type 0 where
  enabled : Enabled MachineState
  step : Step MachineState
  allowed : successors the_interpreter s ≡ ok enabled
  alone : enabled.steps ≡ step ∷ []

locking : Only starting.0
unfolding successors starting get insert
locking = record { enabled = _; step = _; allowed = refl; alone = refl }

sending : Only locking.step.state
unfolding successors locking get insert
sending = record { enabled = _; step = _; allowed = refl; alone = refl }

returning : Only sending.step.state
unfolding successors sending get insert remove
returning = record { enabled = _; step = _; allowed = refl; alone = refl }

record Last (s : MachineState) : Type 0 where
  enabled : Enabled MachineState
  allowed : successors the_interpreter s ≡ ok enabled
  none_left : enabled.steps ≡ []

returned : Last returning.step.state
unfolding successors returning get insert
returned = record { enabled = _; allowed = refl; none_left = refl }

first_key : progress starting.0 ≡ 0 ∷ []
unfolding starting get insert
first_key = refl

locked_key : progress locking.step.state ≡ 1 ∷ []
unfolding locking
locked_key = refl

sent_key : progress sending.step.state ≡ 2 ∷ []
unfolding sending
sent_key = refl

last_key : progress returning.step.state ≡ []
unfolding returning
last_key = refl

-- The reachable states.
abbrev Known : MachineState → Type 0
Known s =
    (s ≡ starting.0)
    ⊎ ((s ≡ locking.step.state) ⊎ ((s ≡ sending.step.state) ⊎ (s ≡ returning.step.state)))

reached_alone : {s s' t : MachineState} (o : Only s') → s ≡ s' → Next engine s t → t ≡ o.step.state
reached_alone {s = s} {s' = s'} o e n =
    n.reached ∙ taken (subst (In n.taken) (same ∙ o.alone) n.chosen)
  where
    same : n.enabled.steps ≡ o.enabled.steps
    same =
        ap (λ (x : Enabled MachineState). x.steps)
          (ok-inj (sym n.allowed ∙ ap (successors the_interpreter) e ∙ o.allowed))

    taken : In n.taken (o.step ∷ []) → n.taken.state ≡ o.step.state
    taken (inl h) = ap (λ (x : Step MachineState). x.state) (sym h)
    taken (inr m) = absurd m

nothing_after : {s s' t : MachineState} (l : Last s') → s ≡ s' → Next engine s t → ⊥
nothing_after l e n = subst (In n.taken) (same ∙ l.none_left) n.chosen
  where
    same : n.enabled.steps ≡ l.enabled.steps
    same =
        ap (λ (x : Enabled MachineState). x.steps)
          (ok-inj (sym n.allowed ∙ ap (successors the_interpreter) e ∙ l.allowed))

Reach-Known : (s : MachineState) → Reach engine s → Known s
Reach-Known s (initially e) = inl (ok-inj (sym e ∙ starting.1))
Reach-Known t (later {s = s} r n) = elim (Reach-Known s r) [
  | inl e ↦ inr (inl (reached_alone locking e n))
  | inr (inl e) ↦ inr (inr (inl (reached_alone sending e n)))
  | inr (inr (inl e)) ↦ inr (inr (inr (reached_alone returning e n)))
  | inr (inr (inr e)) ↦ absurd (nothing_after returned e n)
]

-- The state of each text.
abbrev state_of : Str → MachineState
state_of [] = returning.step.state
state_of (n ∷ rest) =
    if n == 0 then starting.0 else if n == 1 then locking.step.state else sending.step.state

Known-state_of : (s : MachineState) → Known s → s ≡ state_of (progress s)
Known-state_of s (inl e) = e ∙ sym (ap state_of (ap progress e ∙ first_key))
Known-state_of s (inr (inl e)) = e ∙ sym (ap state_of (ap progress e ∙ locked_key))
Known-state_of s (inr (inr (inl e))) = e ∙ sym (ap state_of (ap progress e ∙ sent_key))
Known-state_of s (inr (inr (inr e))) = e ∙ sym (ap state_of (ap progress e ∙ last_key))

same_state :
    (s t : MachineState) → Reach engine s → Reach engine t → progress s ≡ progress t → s ≡ t
same_state s t r q e =
    Known-state_of s (Reach-Known s r) ∙ ap state_of e ∙ sym (Known-state_of t (Reach-Known t q))

engine-KeyLaws : KeyLaws engine
engine-KeyLaws = record {
  same_truth = λ s t p r q e. ap (λ x. answers engine x p) (same_state s t r q e);
  same_finished = λ s t r q e. ap is_finished (same_state s t r q e);
  same_steps = λ s t u r q e n. (u, subst (λ x. Next engine x u) (same_state s t r q e) n, refl);
}

no_panic :
    {s s' : MachineState} {en : Enabled MachineState}
    → s ≡ s'
    → successors the_interpreter s' ≡ ok en
    → successors the_interpreter s ≢ panic
no_panic e a h = clash (sym (ap (successors the_interpreter) e ∙ a) ∙ h)
  where
    clash : {x : Enabled MachineState} → ok x ≡ panic → ⊥
    clash h = cc

engine-IsTotal : IsTotal engine
engine-IsTotal s r = elim (Reach-Known s r) [
  | inl e ↦ no_panic e locking.allowed
  | inr (inl e) ↦ no_panic e sending.allowed
  | inr (inr (inl e)) ↦ no_panic e returning.allowed
  | inr (inr (inr e)) ↦ no_panic e returned.allowed
]

-- No deadlock, and the send stays reachable until it was done; the mutex is taken at some time.
abbrev good_contract : VerificationContract
good_contract = record {
  properties =
      record { id = []; property = deadlock_free }
      ∷ record { id = []; property = always_reachable (statement_reached 0 1) }
      ∷ [];
  preserved = record { description = []; behavior = reachable (mutex_held 0) } ∷ [];
  bounds = default_bounds;
}

-- The mutex is taken and not given back, so that it does not stay possible that it is free.
abbrev bad_contract : VerificationContract
bad_contract = record {
  properties =
      record { id = []; property = deadlock_free }
      ∷ record { id = []; property = always_reachable (mutex_free 0) }
      ∷ [];
  preserved = record { description = []; behavior = reachable (mutex_held 0) } ∷ [];
  bounds = default_bounds;
}

good_run :
    (r : VerificationReport) × (verify engine good_contract ≡ finished r)
    × (r.outcome ≡ Outcome.pass)
unfolding verify turn get insert remove initial successors is_finished satisfied
good_run = (_, refl, refl)

bad_run :
    (r : VerificationReport) × (verify engine bad_contract ≡ finished r)
    × (r.outcome ≡ Outcome.fail)
    × (r.complete ≡ true)
unfolding verify turn get insert remove initial successors is_finished satisfied
bad_run = (_, refl, refl, refl)

verify_pass_example : Fulfils engine good_contract
verify_pass_example =
    verify_pass engine good_contract starting.0 good_run.0 engine-IsTotal engine-KeyLaws starting.1
      good_run.1 good_run.2

bad_decides :
    (p : PropertySpecResolved)
    → In p bad_contract.properties
    → FailDecides bad_run.0.complete p.property
bad_decides p (inl e) =
    subst (λ (q : PropertySpecResolved). FailDecides bad_run.0.complete q.property) e tt
bad_decides p (inr (inl e)) =
    subst (λ (q : PropertySpecResolved). FailDecides bad_run.0.complete q.property) e bad_run.3
bad_decides p (inr (inr e)) = absurd e

verify_fail_example : Refutation engine bad_contract
verify_fail_example =
    verify_fail engine bad_contract starting.0 bad_run.0 engine-IsTotal engine-KeyLaws starting.1
      bad_decides bad_run.1 bad_run.2
