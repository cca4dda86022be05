-- ===== src/Explore/Verdict/Refuted.antt =====
-- A report of `verify` whose outcome is Fail.
use conc_ir.Prelude.{
  ◌≡◌, refl, sym, subst, ◌⊎◌, inl, inr, Bool, true, not, ◌||◌, List, [], ◌∷◌, ◌++◌, In, any, arith,
  is_empty,
}
use conc_ir.Sem.Outcome.{ok, Outcome}
use conc_ir.Sem.System.{TransitionSystem}
use conc_ir.Explore.Search.{Search, complete, finished}
use conc_ir.Explore.Contract.{PropertySpecResolved, PreservedBehavior, VerificationContract}
use conc_ir.Explore.Check.{PropertyResult, VerificationReport, is_fail, overall, verify}
use conc_ir.Explore.Judgement.{
  judge, judge_preserved, judged_results, judged_preserved, judged_of, judged_report,
}
use conc_ir.Explore.Reach.{initially, KeyLaws, Holds, Preserves}
use conc_ir.Explore.Invariant.Flags.{IsTotal, Final}
use conc_ir.Explore.Verdict.Failures.{FailDecides, property_fail, preserved_fail}
use conc_ir.Explore.Verdict.Report.{run_of}

overall-fail :
    (results : List PropertyResult) (i u done : Bool)
    → overall results i u done ≡ Outcome.fail
    → any is_fail results ≡ true
unfolding overall
overall-fail results i u done h = ground arith

or_true : (a b : Bool) → (a || b) ≡ true → (a ≡ true) ⊎ (b ≡ true)
or_true a b h = ground arith

any_append_true :
    (p : PropertyResult → Bool) (xs ys : List PropertyResult)
    → any p (xs ++ ys) ≡ true
    → (any p xs ≡ true) ⊎ (any p ys ≡ true)
any_append_true p [] ys h = inr h
any_append_true p (x ∷ xs) ys h = elim (or_true (p x) (any p (xs ++ ys)) h) [
  | inl a ↦ inl (rw a refl)
  | inr b ↦ elim (any_append_true p xs ys b) [ inl c ↦ inl (or_later (p x) c) | inr d ↦ inr d ]
]
  where
    or_later : (a : Bool) {b : Bool} → b ≡ true → (a || b) ≡ true
    or_later a h = ground (arith, h)

failing :
    (r : PropertyResult) (b : Bool)
    → (is_fail r || b) ≡ true
    → (r.outcome ≡ Outcome.fail) ⊎ (b ≡ true)
failing r b h = ground arith

-- The first property whose result is Fail.
failed_property :
    {S : Type 0} (sys : TransitionSystem S) (st : Search S) (ps : List PropertySpecResolved)
    → any is_fail (judged_results sys st.graph (complete st) ps) ≡ true
    → (p : PropertySpecResolved) × In p ps
      × (judge sys st.graph p.property (complete st) ≡ Outcome.fail)
unfolding judged_results
failed_property sys st [] h = cc
failed_property sys st (p ∷ ps) h =
    elim (failing (record { id = p.id; outcome = judge sys st.graph p.property (complete st) }) _
      h) [
        | inl e ↦ (p, inl refl, e)
        | inr g ↦ let (q, m, e) = failed_property sys st ps g in (q, inr m, e)
      ]

failed_preserved :
    {S : Type 0} (sys : TransitionSystem S) (st : Search S) (bs : List PreservedBehavior)
    → any is_fail (judged_preserved sys st.graph (complete st) bs) ≡ true
    → (b : PreservedBehavior) × In b bs
      × (judge_preserved sys st.graph b.behavior (complete st) ≡ Outcome.fail)
unfolding judged_preserved
failed_preserved sys st [] h = cc
failed_preserved sys st (b ∷ bs) h =
    elim (failing
      (record { id = []; outcome = judge_preserved sys st.graph b.behavior (complete st) }) _ h) [
        | inl e ↦ (b, inl refl, e)
        | inr g ↦ let (q, m, e) = failed_preserved sys st bs g in (q, inr m, e)
      ]

-- A property of the contract that does not hold, or a behaviour that is not preserved.
abbrev pub Refutation : {S : Type 0} → TransitionSystem S → VerificationContract → Type 0
Refutation sys c =
    ((p : PropertySpecResolved) × In p c.properties × (¬ Holds sys p.property))
    ⊎ ((b : PreservedBehavior) × In b c.preserved × (¬ Preserves sys b.behavior))

report-Refutation :
    {S : Type 0} (sys : TransitionSystem S) (c : VerificationContract) (init : S) (st : Search S)
    → KeyLaws sys
    → Final sys st
    → sys.initial ≡ ok init
    → ((p : PropertySpecResolved) → In p c.properties → FailDecides (complete st) p.property)
    → (judged_report sys c st).outcome ≡ Outcome.fail
    → Refutation sys c
unfolding judged_report judged_of
report-Refutation sys c init st laws fin a decides h =
    elim (any_append_true is_fail (judged_results sys st.graph (complete st) c.properties)
      (judged_preserved sys st.graph (complete st) c.preserved)
      (overall-fail (judged_of sys c st) (not (is_empty st.invalid)) (not (is_empty st.unsupported))
        (complete st) h)) [
          | inl g ↦
              let (p, m, e) = failed_property sys st c.properties g in
              inl
                (p, m, property_fail sys st fin laws init (initially a) p.property (decides p m) e)
          | inr g ↦
              let (b, m, e) = failed_preserved sys st c.preserved g in
              inr (b, m, preserved_fail sys st fin laws init (initially a) b.behavior e)
        ]

-- On a system that starts, whose successors never panic on reachable states and where equal keys of
-- reachable states mean equal behaviour: where `verify` answers Fail to a contract, and its search was complete if the contract has AG EF
-- properties, a property of the contract does not hold of the reachable states or a behaviour to be
-- preserved is not there.
pub verify_fail :
    {S : Type 0} (sys : TransitionSystem S) (c : VerificationContract) (init : S)
    (r : VerificationReport)
    → IsTotal sys
    → KeyLaws sys
    → sys.initial ≡ ok init
    → ((p : PropertySpecResolved) → In p c.properties → FailDecides r.complete p.property)
    → verify sys c ≡ finished r
    → r.outcome ≡ Outcome.fail
    → Refutation sys c
unfolding judged_report
verify_fail sys c init r total laws a decides v h =
    let (st, e, fin) = run_of sys c init r total a v in
    report-Refutation sys c init st laws fin a
      (subst
        (λ (r : VerificationReport).
          (p : PropertySpecResolved) → In p c.properties → FailDecides r.complete p.property)
        (sym e) decides)
      (subst (λ (r : VerificationReport). r.outcome ≡ Outcome.fail) (sym e) h)
