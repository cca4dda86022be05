-- ===== src/Explore/Verdict/Failures.antt =====
-- The judgement Fail of src/explore/mod.rs, and AG EF on a search that was cut off.
use conc_ir.Prelude.{
  ℕ, ◌<◌, ◌≤◌, ◌≡◌, refl, subst, ◌∙◌, ◌⊎◌, inl, inr, Bool, true, false, not, some, List, [], ◌∷◌,
  is_empty, get_elem?, In, arith, get_elem?-lt,
}
use conc_ir.Prelude.Map.{list_key, nat_key}
use conc_ir.Sem.Outcome.{ok, StepLabel, Outcome, AnalysisBounds}
use conc_ir.Sem.System.{Step, Enabled, TransitionSystem, Predicate}
use conc_ir.Explore.Search.{Search, complete, finished, turn}
use conc_ir.Explore.Contract.{
  Property, safety, unreachable, deadlock_free, reachability, always_reachable, Preserved,
  reachable, always, VerificationContract,
}
use conc_ir.Explore.Check.{check_property, VerificationReport, verify}
use conc_ir.Explore.Judgement.{flag, row_of, judge, judge_preserved, is_stuck, answers}
use conc_ir.Explore.Reach.{Reach, Next, KeyLaws, Holds, Preserves}
use conc_ir.Explore.Invariant.{Row, Settled, expanded, spoiled}
use conc_ir.Explore.Invariant.Flags.{Final}
use conc_ir.Explore.Positions.{flag-elem, row_of-elem, absent-fail, present-fail}
use conc_ir.Explore.Verdict.Graph.{Reach-Represented}
use conc_ir.Explore.Verdict.Doomed.{always_reachable-fail}
use conc_ir.Explore.Verdict.Properties.{not-true, true-false}

-- A complete search decides each property, and any search decides all but AG EF.
abbrev pub FailDecides : Bool → Property → Type 0
FailDecides done (always_reachable goal) = done ≡ true
FailDecides done _ = Unit {0}

module _ {S : Type 0} (sys : TransitionSystem S) (st : Search S) (fin : Final sys st) where
  -- What the test for a deadlock says.
  deadlock_facts :
      (i : ℕ) (s : S)
      → is_stuck sys st.graph i s ≡ true
      → (flag st.graph.processed i ≡ true)
        × (flag st.graph.had_boundary i ≡ false)
        × (is_empty (row_of st.graph.edges i) ≡ true)
        × (sys.is_finished s ≡ false)
  unfolding is_stuck
  deadlock_facts i s h = ground arith

  no_step :
      (i : ℕ) (s : S)
      → get_elem? st.graph.states i ≡ some s
      → is_stuck sys st.graph i s ≡ true
      → (t : S) → Next sys s t
      → ⊥
  no_step i s h d t n = position (below_or_not i fin.popped)
    where
      facts :
          (flag st.graph.processed i ≡ true)
          × (flag st.graph.had_boundary i ≡ false)
          × (is_empty (row_of st.graph.edges i) ≡ true)
          × (sys.is_finished s ≡ false)
      facts = deadlock_facts i s d

      below_or_not : (i p : ℕ) → (i < p) ⊎ (p ≤ i)
      below_or_not i p = omega arith

      no_entry :
          (xs : List (Step S)) (row : List (ℕ × StepLabel))
          → Row sys st.graph.index xs row
          → is_empty row ≡ true
          → In n.taken xs
          → ⊥
      no_entry [] row r e m = m
      no_entry (x ∷ xs) [] r e m = r
      no_entry (x ∷ xs) (y ∷ row) r e m = true-false e refl

      settled : Settled sys st i s → ⊥
      settled (expanded e row a b c hb pr) =
          no_entry e.steps row c
            (subst (λ r. is_empty r ≡ true) (row_of-elem st.graph.edges i row b) facts.2)
            (subst (In n.taken) (same e a) n.chosen)
        where
          same : (e : Enabled S) → sys.successors s ≡ ok e → n.enabled.steps ≡ e.steps
          same e a = cc (n.allowed, a)
      settled (spoiled hb c) = true-false (flag-elem st.graph.had_boundary i true hb) facts.1

      position : (i < fin.popped) ⊎ (fin.popped ≤ i) → ⊥
      position (inl lt) = settled (fin.core.settled i s lt h)
      position (inr le) =
          let f = fin.core.fresh i le (get_elem?-lt st.graph.states i s h) in
          true-false facts.0 (flag-elem st.graph.processed i false f.processed)

  -- A property that fails does not hold of the system.
  pub property_fail :
      KeyLaws sys
      → (start : S) → Reach sys start
      → (prop : Property) → FailDecides (complete st) prop
      → judge sys st.graph prop (complete st) ≡ Outcome.fail
      → ¬ Holds sys prop
  unfolding judge
  property_fail laws start r (safety invariant) _ h holds =
      let (i, s, e, p) =
        absent-fail (λ i s. not (answers sys s invariant)) (complete st) st.graph.states h in
      true-false (holds s (fin.core.reach i s e)) (not-true _ p)
  property_fail laws start r (unreachable bad) _ h holds =
      let (i, s, e, p) = absent-fail (λ i s. answers sys s bad) (complete st) st.graph.states h in
      true-false p (holds s (fin.core.reach i s e))
  property_fail laws start r deadlock_free _ h holds =
      let (i, s, e, p) = absent-fail (is_stuck sys st.graph) (complete st) st.graph.states h in
      let (t, n) = holds s (fin.core.reach i s e) ((deadlock_facts i s p).3) in no_step i s e p t n
  property_fail laws start r (reachability goal) _ h holds =
      let (done, all) = present-fail (λ i s. answers sys s goal) (complete st) st.graph.states h in
      let rep = Reach-Represented sys laws st fin done holds.0 holds.1 in
      true-false holds.2 (
        laws.same_truth holds.0 rep.by goal holds.1 (fin.core.reach rep.at rep.by rep.found)
          rep.same_key
        ∙ all rep.at rep.by rep.found)
  property_fail laws start r (always_reachable goal) decides h holds =
      always_reachable-fail sys laws st fin decides start r goal (unfold judge in h) holds

  -- A behaviour whose preservation fails is not preserved.
  pub preserved_fail :
      KeyLaws sys
      → (start : S) → Reach sys start
      → (b : Preserved) → judge_preserved sys st.graph b (complete st) ≡ Outcome.fail
      → ¬ Preserves sys b
  unfolding judge_preserved
  preserved_fail laws start r (reachable goal) h =
      property_fail laws start r (reachability goal) tt (unfold judge in h)
  preserved_fail laws start r (always invariant) h =
      property_fail laws start r (safety invariant) tt (unfold judge in h)

-- The contract that asks for AG EF of one goal.
abbrev pub asks_always : Predicate → AnalysisBounds → VerificationContract
asks_always goal bounds = record {
  properties = record { id = []; property = always_reachable goal } ∷ [];
  preserved = [];
  bounds = bounds;
}

-- Whatever the system can reach: where the initial state does not satisfy the goal and the bounds
-- allow one state, AG EF is reported as failed, on a search that is not complete.
pub always_reachable-cut_off :
    {S : Type 0} (sys : TransitionSystem S) (init : S) (goal : Predicate) (bounds : AnalysisBounds)
    → sys.initial ≡ ok init
    → sys.satisfied init goal ≡ ok false
    → bounds.max_states ≡ 1
    → (r : VerificationReport) × (verify sys (asks_always goal bounds) ≡ finished r)
      × (r.outcome ≡ Outcome.fail)
      × (r.complete ≡ false)
unfolding verify turn complete check_property
always_reachable-cut_off sys init goal bounds a g m = rw (a, m, g) (_, refl, refl, refl)
