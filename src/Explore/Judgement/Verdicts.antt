-- ===== src/Explore/Judgement/Verdicts.antt =====
-- The outcome of each property and the report, where no check panics.
use conc_ir.Prelude.{ℕ, ◌≡◌, Bool, not, List, [], ◌∷◌}
use conc_ir.Sem.Outcome.{Result, ok, Outcome}
use conc_ir.Sem.Results.{bind-ok, ok-inj}
use conc_ir.Sem.System.{TransitionSystem}
use conc_ir.Explore.Search.{Graph, Search, complete}
use conc_ir.Explore.Contract.{
  Property, safety, unreachable, deadlock_free, reachability, always_reachable, Preserved,
  reachable, always, PropertySpecResolved, PreservedBehavior, VerificationContract,
}
use conc_ir.Explore.Check.{
  PropertyResult, VerificationReport, contains, absent, present, negated, position_from,
  indices_from, reverse_reachable, is_deadlock, absent_where, present_where, always_outcome,
  check_property, check_preserved, property_results, preserved_results, results_of, report_of,
  report_with,
}
use conc_ir.Explore.Judgement.{
  first_from, is_stuck, judge_always, judge, judge_preserved, judged_results, judged_preserved,
  judged_of, judged_report, answers,
}
use conc_ir.Explore.Judgement.Agree.{
  first_agrees, all_agrees, deadlock_agrees, yes_ok, no_ok, collected-agrees,
}

module _ {S : Type 0} (sys : TransitionSystem S) (g : Graph S) where
  absent-agrees :
      (test : ℕ → S → Result Bool) (plain : ℕ → S → Bool) (done : Bool) (o : Outcome)
      → ((i : ℕ) (s : S) (b : Bool) → test i s ≡ ok b → plain i s ≡ b)
      → absent_where g test done ≡ ok o
      → absent done (first_from plain 0 g.states) ≡ o
  absent-agrees test plain done o same h =
      let (found, a, b) =
        bind-ok (position_from test 0 g.states) (λ found. ok (absent done found)) o h in
      rw (first_agrees test plain same 0 g.states found a) (ok-inj b)

  present-agrees :
      (test : ℕ → S → Result Bool) (plain : ℕ → S → Bool) (done : Bool) (o : Outcome)
      → ((i : ℕ) (s : S) (b : Bool) → test i s ≡ ok b → plain i s ≡ b)
      → present_where g test done ≡ ok o
      → present done (first_from plain 0 g.states) ≡ o
  present-agrees test plain done o same h =
      let (found, a, b) =
        bind-ok (position_from test 0 g.states) (λ found. ok (present done found)) o h in
      rw (first_agrees test plain same 0 g.states found a) (ok-inj b)

  always-agrees :
      (roots : List ℕ) (done : Bool) (o : Outcome)
      → always_outcome sys g roots done ≡ ok o
      → judge_always sys g roots done ≡ o
  always-agrees [] done o h = ok-inj h
  always-agrees (r ∷ roots) done o h =
      let (res, a, b) =
        bind-ok (reverse_reachable g (r ∷ roots))
          (λ res. absent_where g (λ i s. ok (not (contains res i))) done) o h in
      rw (collected-agrees g (r ∷ roots) res a) (
        absent-agrees (λ i s. ok (not (contains res i))) (λ i s. not (contains res i)) done o
          (λ i s b e. ok-inj e) b)

  judge-agrees :
      (prop : Property) (done : Bool) (o : Outcome)
      → check_property sys g prop done ≡ ok o
      → judge sys g prop done ≡ o
  unfolding check_property judge
  judge-agrees (safety p) done o h =
      absent-agrees (λ i s. negated (sys.satisfied s p)) (λ i s. not (answers sys s p)) done o
        (λ i s b e. no_ok (sys.satisfied s p) b e) h
  judge-agrees (unreachable p) done o h =
      absent-agrees (λ i s. sys.satisfied s p) (λ i s. answers sys s p) done o
        (λ i s b e. yes_ok (sys.satisfied s p) b e) h
  judge-agrees deadlock_free done o h =
      absent-agrees (is_deadlock sys g) (is_stuck sys g) done o (deadlock_agrees sys g) h
  judge-agrees (reachability p) done o h =
      present-agrees (λ i s. sys.satisfied s p) (λ i s. answers sys s p) done o
        (λ i s b e. yes_ok (sys.satisfied s p) b e) h
  judge-agrees (always_reachable p) done o h =
      let (roots, a, b) =
        bind-ok (indices_from (λ s. sys.satisfied s p) 0 g.states)
          (λ roots. always_outcome sys g roots done) o h in
      rw (all_agrees (λ s. sys.satisfied s p) 0 g.states roots a) (always-agrees roots done o b)

  judge_preserved-agrees :
      (prop : Preserved) (done : Bool) (o : Outcome)
      → check_preserved sys g prop done ≡ ok o
      → judge_preserved sys g prop done ≡ o
  unfolding check_preserved judge_preserved
  judge_preserved-agrees (reachable p) done o h =
      present-agrees (λ i s. sys.satisfied s p) (λ i s. answers sys s p) done o
        (λ i s b e. yes_ok (sys.satisfied s p) b e) h
  judge_preserved-agrees (always p) done o h =
      absent-agrees (λ i s. negated (sys.satisfied s p)) (λ i s. not (answers sys s p)) done o
        (λ i s b e. no_ok (sys.satisfied s p) b e) h

  judged_results-agrees :
      (done : Bool) (ps : List PropertySpecResolved) (rs : List PropertyResult)
      → property_results sys g done ps ≡ ok rs
      → judged_results sys g done ps ≡ rs
  unfolding property_results judged_results
  judged_results-agrees done [] rs h = ok-inj h
  judged_results-agrees done (p ∷ ps) rs h =
      let (o, a, b) = bind-ok (check_property sys g p.property done) _ rs h in
      let (rest, c, d) = bind-ok (property_results sys g done ps) _ rs b in
      rw (judge-agrees p.property done o a, judged_results-agrees done ps rest c) (ok-inj d)

  judged_preserved-agrees :
      (done : Bool) (ps : List PreservedBehavior) (rs : List PropertyResult)
      → preserved_results sys g done ps ≡ ok rs
      → judged_preserved sys g done ps ≡ rs
  unfolding preserved_results judged_preserved
  judged_preserved-agrees done [] rs h = ok-inj h
  judged_preserved-agrees done (p ∷ ps) rs h =
      let (o, a, b) = bind-ok (check_preserved sys g p.behavior done) _ rs h in
      let (rest, c, d) = bind-ok (preserved_results sys g done ps) _ rs b in
      rw (judge_preserved-agrees p.behavior done o a, judged_preserved-agrees done ps rest c)
        (ok-inj d)

pub judged_report-agrees :
    {S : Type 0} (sys : TransitionSystem S) (c : VerificationContract) (st : Search S)
    (r : VerificationReport)
    → report_of sys c st ≡ ok r
    → judged_report sys c st ≡ r
unfolding report_of results_of judged_report judged_of
judged_report-agrees sys c st r h =
    let (rs, a, b) = bind-ok (results_of sys c st) (λ rs. ok (report_with c st rs)) r h in
    let (ps, d, e) = bind-ok (property_results sys st.graph (complete st) c.properties) _ rs a in
    let (qs, f, k) = bind-ok (preserved_results sys st.graph (complete st) c.preserved) _ rs e in
    rw
      (
        judged_results-agrees sys st.graph (complete st) c.properties ps d,
        judged_preserved-agrees sys st.graph (complete st) c.preserved qs f,
        ok-inj k,
      )
      (ok-inj b)
