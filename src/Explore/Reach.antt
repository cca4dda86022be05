-- ===== src/Explore/Reach.antt =====
-- What the explorer is to decide: reachability by the enabled steps of a transition system, and the
-- meaning of the properties of a contract.
use conc_ir.Prelude.{◌≡◌, Bool, true, false, In}
use conc_ir.Sem.Outcome.{ok}
use conc_ir.Sem.System.{Predicate, Step, Enabled, TransitionSystem}
use conc_ir.Explore.Judgement.{answers}
use conc_ir.Explore.Contract.{
  Property, safety, unreachable, deadlock_free, reachability, always_reachable, Preserved,
  reachable, always, PropertySpecResolved, PreservedBehavior, VerificationContract,
}

module _ {S : Type 0} (sys : TransitionSystem S) where
  -- `t` is one enabled step after `s`.
  pub record Next (s t : S) : Type 0 where
    pub enabled : Enabled S
    pub taken : Step S
    pub allowed : sys.successors s ≡ ok enabled
    pub chosen : In taken enabled.steps
    pub reached : t ≡ taken.state

  pub data Reach : S → Type 0 where
    initially : {s : S} → sys.initial ≡ ok s → Reach s
    later : {s t : S} → Reach s → Next s t → Reach t

  -- `t` can be reached from `s`.
  pub data Leads : S → S → Type 0 where
    here : {s : S} → Leads s s
    via : {s t u : S} → Next s t → Leads t u → Leads s u

  pub Leads-snoc : {s t u : S} → Leads s t → Next t u → Leads s u
  Leads-snoc here n = via n here
  Leads-snoc (via m l) n = via m (Leads-snoc l n)

  pub Reach-Leads : {s t : S} → Reach s → Leads s t → Reach t
  Reach-Leads r here = r
  Reach-Leads r (via n l) = Reach-Leads (later r n) l

  -- The trait's demand on `state_key`: reachable states with equal keys satisfy the same predicates and have
  -- the same steps, up to equal keys.
  pub record KeyLaws : Type 0 where
    pub same_truth :
        (s t : S) (p : Predicate)
        → Reach s
        → Reach t
        → sys.state_key s ≡ sys.state_key t
        → answers sys s p ≡ answers sys t p
    pub same_finished :
        (s t : S)
        → Reach s
        → Reach t
        → sys.state_key s ≡ sys.state_key t
        → sys.is_finished s ≡ sys.is_finished t
    pub same_steps :
        (s t u : S)
        → Reach s
        → Reach t
        → sys.state_key s ≡ sys.state_key t
        → Next s u
        → (v : S) × Next t v × (sys.state_key u ≡ sys.state_key v)

  -- No unfinished state without a step.
  abbrev pub CanStep : S → Type 0
  CanStep s = (sys.is_finished s ≡ false) → (t : S) × Next s t

  abbrev pub Satisfies : S → Predicate → Type 0
  Satisfies s p = answers sys s p ≡ true

  -- What each property of a contract asks of the reachable states.
  abbrev pub Holds : Property → Type 0
  Holds (safety invariant) = (s : S) → Reach s → Satisfies s invariant
  Holds (unreachable bad) = (s : S) → Reach s → answers sys s bad ≡ false
  Holds deadlock_free = (s : S) → Reach s → CanStep s
  Holds (reachability goal) = (s : S) × Reach s × Satisfies s goal
  Holds (always_reachable goal) = (s : S) → Reach s → (t : S) × Leads s t × Satisfies t goal

  abbrev pub Preserves : Preserved → Type 0
  Preserves (reachable goal) = Holds (reachability goal)
  Preserves (always invariant) = Holds (safety invariant)

  -- A predicate that does not panic on reachable states, and so for all predicates that a contract
  -- asks.
  abbrev pub Evaluates : Predicate → Type 0
  Evaluates p = (s : S) → Reach s → (b : Bool) × (sys.satisfied s p ≡ ok b)

  abbrev pub PropertyEvaluates : Property → Type 0
  PropertyEvaluates (safety invariant) = Evaluates invariant
  PropertyEvaluates (unreachable bad) = Evaluates bad
  PropertyEvaluates deadlock_free = Unit {0}
  PropertyEvaluates (reachability goal) = Evaluates goal
  PropertyEvaluates (always_reachable goal) = Evaluates goal

  abbrev pub PreservedEvaluates : Preserved → Type 0
  PreservedEvaluates (reachable goal) = Evaluates goal
  PreservedEvaluates (always invariant) = Evaluates invariant

  pub record ContractEvaluates (c : VerificationContract) : Type 0 where
    pub properties : (p : PropertySpecResolved) → In p c.properties → PropertyEvaluates p.property
    pub preserved : (p : PreservedBehavior) → In p c.preserved → PreservedEvaluates p.behavior
