-- ===== src/Explore/Verdict/Report.antt =====
-- The report of `verify` as a whole.
use conc_ir.Prelude.{
  ℕ, ◌≡◌, refl, sym, ap, subst, ◌∙◌, ◌⊎◌, inl, inr, Bool, true, false, not, ◌||◌, List, [], ◌∷◌,
  ◌++◌, In, any, arith, is_empty, Option,
}
use conc_ir.Sem.Outcome.{Result, ok, err, panic, Outcome}
use conc_ir.Sem.System.{TransitionSystem}
use conc_ir.Explore.Search.{Search, complete, finished}
use conc_ir.Explore.Contract.{
  PropertySpecResolved, PreservedBehavior, VerificationContract, Property, safety, unreachable,
  deadlock_free, reachability, always_reachable, Preserved, reachable, always,
}
use conc_ir.Explore.Check.{
  PropertyResult, VerificationReport, is_fail, is_unknown, overall, verify, verify_exit,
  verify_from, absent, present, report_of, unless_panic,
}
use conc_ir.Explore.Judgement.{
  all_from, judge, judge_preserved, judge_always, judged_results, judged_preserved, judged_of,
  judged_report, answers,
}
use conc_ir.Explore.Judgement.Verdicts.{judged_report-agrees}
use conc_ir.Explore.Reach.{KeyLaws, Holds, Preserves}
use conc_ir.Explore.Invariant.Flags.{IsTotal, Final}
use conc_ir.Explore.Invariant.Loop.{explore-Ends}
use conc_ir.Explore.Verdict.Properties.{property_pass, preserved_pass}

-- An overall Pass: no result failed or is unknown, and the search was complete.
overall-pass :
    (results : List PropertyResult) (i u done : Bool)
    → overall results i u done ≡ Outcome.pass
    → (any is_fail results ≡ false) × (any is_unknown results ≡ false) × (done ≡ true)
unfolding overall
overall-pass results i u done h = ground arith

-- The outcomes that a check of a property can have.
abbrev Verdictive : Outcome → Type 0
Verdictive o = (o ≡ Outcome.pass) ⊎ ((o ≡ Outcome.fail) ⊎ (o ≡ Outcome.unknown))

absent-Verdictive : (done : Bool) (o : Option ℕ) → Verdictive (absent done o)
absent-Verdictive done o = ground arith

present-Verdictive : (done : Bool) (o : Option ℕ) → Verdictive (present done o)
present-Verdictive done o = ground arith

-- Neither failed nor unknown.
clean :
    (r : PropertyResult)
    → Verdictive r.outcome
    → is_fail r ≡ false
    → is_unknown r ≡ false
    → r.outcome ≡ Outcome.pass
clean r v f u = ground arith

or_false : (a b : Bool) → (a || b) ≡ false → (a ≡ false) × (b ≡ false)
or_false a b h = ground arith

any_append_false :
    (p : PropertyResult → Bool) (xs ys : List PropertyResult)
    → any p (xs ++ ys) ≡ false
    → (any p xs ≡ false) × (any p ys ≡ false)
any_append_false p [] ys h = (refl, h)
any_append_false p (x ∷ xs) ys h =
    let (a, b) = or_false (p x) (any p (xs ++ ys)) h in
    let (c, d) = any_append_false p xs ys b in (rw (a, c), d)

module _ {S : Type 0} (sys : TransitionSystem S) (st : Search S) where
  property-Verdictive : (prop : Property) → Verdictive (judge sys st.graph prop (complete st))
  unfolding judge
  property-Verdictive (safety p) = absent-Verdictive (complete st) _
  property-Verdictive (unreachable p) = absent-Verdictive (complete st) _
  property-Verdictive deadlock_free = absent-Verdictive (complete st) _
  property-Verdictive (reachability p) = present-Verdictive (complete st) _
  property-Verdictive (always_reachable p) =
      split (all_from (λ s. answers sys s p) 0 st.graph.states)
    where
      split : (roots : List ℕ) → Verdictive (judge_always sys st.graph roots (complete st))
      split [] = inr (inl refl)
      split (r ∷ roots) = absent-Verdictive (complete st) _

  preserved-Verdictive : (b : Preserved) → Verdictive (judge_preserved sys st.graph b (complete st))
  unfolding judge_preserved
  preserved-Verdictive (reachable p) = present-Verdictive (complete st) _
  preserved-Verdictive (always p) = absent-Verdictive (complete st) _

  properties_clean :
      (ps : List PropertySpecResolved) (p : PropertySpecResolved)
      → any is_fail (judged_results sys st.graph (complete st) ps) ≡ false
      → any is_unknown (judged_results sys st.graph (complete st) ps) ≡ false
      → In p ps
      → judge sys st.graph p.property (complete st) ≡ Outcome.pass
  unfolding judged_results
  properties_clean [] p f u m = absurd m
  properties_clean (q ∷ ps) p f u m =
      let (f₁, f₂) = or_false _ (any is_fail (judged_results sys st.graph (complete st) ps)) f in
      let (u₁, u₂) = or_false _ (any is_unknown (judged_results sys st.graph (complete st) ps)) u in
      elim m [
        | inl e ↦
            subst
              (λ (p : PropertySpecResolved).
                judge sys st.graph p.property (complete st) ≡ Outcome.pass)
              e
              (clean (record { id = []; outcome = judge sys st.graph q.property (complete st) })
                (property-Verdictive q.property) f₁ u₁)
        | inr n ↦ properties_clean ps p f₂ u₂ n
      ]

  preserved_clean :
      (ps : List PreservedBehavior) (p : PreservedBehavior)
      → any is_fail (judged_preserved sys st.graph (complete st) ps) ≡ false
      → any is_unknown (judged_preserved sys st.graph (complete st) ps) ≡ false
      → In p ps
      → judge_preserved sys st.graph p.behavior (complete st) ≡ Outcome.pass
  unfolding judged_preserved
  preserved_clean [] p f u m = absurd m
  preserved_clean (q ∷ ps) p f u m =
      let (f₁, f₂) = or_false _ (any is_fail (judged_preserved sys st.graph (complete st) ps)) f in
      let (u₁, u₂) =
        or_false _ (any is_unknown (judged_preserved sys st.graph (complete st) ps)) u in
      elim m [
        | inl e ↦
            subst
              (λ (p : PreservedBehavior).
                judge_preserved sys st.graph p.behavior (complete st) ≡ Outcome.pass)
              e
              (clean
                (record {
                  id = [];
                  outcome = judge_preserved sys st.graph q.behavior (complete st);
                })
                (preserved-Verdictive q.behavior) f₁ u₁)
        | inr n ↦ preserved_clean ps p f₂ u₂ n
      ]

-- All that a contract asks.
pub record Fulfils {S : Type 0} (sys : TransitionSystem S) (c : VerificationContract) : Type 0 where
  pub properties : (p : PropertySpecResolved) → In p c.properties → Holds sys p.property
  pub preserved : (p : PreservedBehavior) → In p c.preserved → Preserves sys p.behavior

report-Fulfils :
    {S : Type 0} (sys : TransitionSystem S) (c : VerificationContract) (st : Search S)
    → KeyLaws sys
    → Final sys st
    → (judged_report sys c st).outcome ≡ Outcome.pass
    → Fulfils sys c
unfolding judged_report judged_of
report-Fulfils sys c st laws fin h =
    let (f, u, done) =
      overall-pass (judged_of sys c st) (not (is_empty st.invalid)) (not (is_empty st.unsupported))
        (complete st) h in
    let (f₁, f₂) =
      any_append_false is_fail (judged_results sys st.graph (complete st) c.properties)
        (judged_preserved sys st.graph (complete st) c.preserved) f in
    let (u₁, u₂) =
      any_append_false is_unknown (judged_results sys st.graph (complete st) c.properties)
        (judged_preserved sys st.graph (complete st) c.preserved) u in
    record {
      properties = λ p m.
          property_pass sys st fin laws p.property (properties_clean sys st c.properties p f₁ u₁ m);
      preserved = λ p m.
          preserved_pass sys st fin laws p.behavior (preserved_clean sys st c.preserved p f₂ u₂ m);
    }

pub verify_exit_finished :
    {S : Type 0} (sys : TransitionSystem S) (c : VerificationContract) (init : S)
    → IsTotal sys
    → sys.initial ≡ ok init
    → (st : Search S) × (verify sys c ≡ unless_panic (report_of sys c st)) × Final sys st
unfolding verify
verify_exit_finished sys c init total a =
    let (st, e, fin) = explore-Ends sys c.bounds init total a in
    (st, ap (verify_from sys c) a ∙ ap (verify_exit sys c) e, fin)

pub finished-ok :
    (m : Result VerificationReport) (r : VerificationReport)
    → unless_panic m ≡ finished r
    → m ≡ ok r
finished-ok (ok x) r h = cc
finished-ok (err e) r h = cc
finished-ok panic r h = cc

-- A run of `verify` that ends has a final search, and its report is the judgement on it.
pub run_of :
    {S : Type 0} (sys : TransitionSystem S) (c : VerificationContract) (init : S)
    (r : VerificationReport)
    → IsTotal sys
    → sys.initial ≡ ok init
    → verify sys c ≡ finished r
    → (st : Search S) × (judged_report sys c st ≡ r) × Final sys st
run_of sys c init r total a v =
    let (st, e, fin) = verify_exit_finished sys c init total a in
    (st, judged_report-agrees sys c st r (finished-ok (report_of sys c st) r (sym e ∙ v)), fin)

-- On a system that starts, whose successors never panic on reachable states and where equal keys of
-- reachable states mean equal behaviour: where `verify` answers Pass, every property of the contract holds of all reachable states, and
-- every behaviour to be preserved is there.
pub verify_pass :
    {S : Type 0} (sys : TransitionSystem S) (c : VerificationContract) (init : S)
    (r : VerificationReport)
    → IsTotal sys
    → KeyLaws sys
    → sys.initial ≡ ok init
    → verify sys c ≡ finished r
    → r.outcome ≡ Outcome.pass
    → Fulfils sys c
verify_pass sys c init r total laws a v h =
    let (st, e, fin) = run_of sys c init r total a v in
    report-Fulfils sys c st laws fin
      (subst (λ (r : VerificationReport). r.outcome ≡ Outcome.pass) (sym e) h)
