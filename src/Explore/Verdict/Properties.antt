-- ===== src/Explore/Verdict/Properties.antt =====
-- Pass and Fail of one property, against its meaning for the reachable states.
use conc_ir.Prelude.{
  ℕ, ◌≡◌, refl, sym, subst, ◌∙◌, inl, Bool, true, false, not, some, List, [], ◌∷◌, is_empty,
  get_elem?, In, arith,
}
use conc_ir.Prelude.Map.{list_key, nat_key}
use conc_ir.Sem.Outcome.{ok, StepLabel, Outcome}
use conc_ir.Sem.System.{Step, Enabled, TransitionSystem, Predicate}
use conc_ir.Explore.Search.{Search, complete}
use conc_ir.Explore.Contract.{
  Property, safety, unreachable, deadlock_free, reachability, always_reachable, Preserved,
  reachable, always,
}
use conc_ir.Explore.Check.{contains}
use conc_ir.Explore.Judgement.{
  all_from, judge, judge_preserved, is_stuck, judge_always, collected, answers,
}
use conc_ir.Explore.Reach.{
  Reach, Next, Leads, Reach-Leads, KeyLaws, CanStep, Satisfies, Holds, Preserves,
}
use conc_ir.Explore.Invariant.{Row}
use conc_ir.Explore.Invariant.Flags.{Final}
use conc_ir.Explore.Positions.{flag-elem, row_of-elem, absent-pass, present-pass, indices_sound}
use conc_ir.Explore.Backward.{collected_sound, contains_In}
use conc_ir.Explore.Verdict.Graph.{expanded_all, Reach-Represented, Leads-lift, ToRoot-Leads}

not-false : (b : Bool) → not b ≡ false → b ≡ true
not-false b h = ground arith

pub not-true : (b : Bool) → not b ≡ true → b ≡ false
not-true b h = ground arith

pub true-false : {b : Bool} → b ≡ true → b ≡ false → ⊥
true-false h g = cc

module _ {S : Type 0} (sys : TransitionSystem S) (st : Search S) (fin : Final sys st) where
  Reach-found : (i : ℕ) (s : S) → get_elem? st.graph.states i ≡ some s → Reach sys s
  Reach-found i s h = fin.core.reach i s h

  -- Every found state has passed a test that respects keys: so has every reachable one.
  pass_all :
      KeyLaws sys
      → complete st ≡ true
      → (goal : Predicate) (b : Bool)
      → ((i : ℕ) (s : S) → get_elem? st.graph.states i ≡ some s → answers sys s goal ≡ b)
      → (s : S) → Reach sys s
      → answers sys s goal ≡ b
  pass_all laws done goal b h s r =
      let rep = Reach-Represented sys laws st fin done s r in
      laws.same_truth s rep.by goal r (Reach-found rep.at rep.by rep.found) rep.same_key
      ∙ h rep.at rep.by rep.found

  can_step :
      (i : ℕ) (s : S) (e : Enabled S) (row : List (ℕ × StepLabel))
      → is_stuck sys st.graph i s ≡ false
      → sys.is_finished s ≡ false
      → sys.successors s ≡ ok e
      → get_elem? st.graph.edges i ≡ some row
      → Row sys st.graph.index e.steps row
      → get_elem? st.graph.had_boundary i ≡ some false
      → get_elem? st.graph.processed i ≡ some true
      → (t : S) × Next sys s t
  unfolding is_stuck
  can_step i s e row d f a b c hb pr = first e.steps row refl c nonempty
    where
      nonempty : is_empty row ≡ false
      nonempty = ground (
        arith,
        d,
        f,
        flag-elem st.graph.processed i true pr,
        flag-elem st.graph.had_boundary i false hb,
        row_of-elem st.graph.edges i row b,
      )

      first :
          (xs : List (Step S)) (row : List (ℕ × StepLabel))
          → e.steps ≡ xs
          → Row sys st.graph.index xs row
          → is_empty row ≡ false
          → (t : S) × Next sys s t
      first [] [] q r n = absurd (true-false refl n)
      first [] (y ∷ row) q r n = absurd r
      first (x ∷ xs) row q r n = (
        x.state,
        record {
          enabled = e;
          taken = x;
          allowed = a;
          chosen = subst (In x) (sym q) (inl refl);
          reached = refl;
        },
      )

  deadlock_free-pass :
      KeyLaws sys
      → complete st ≡ true
      → ((i : ℕ) (s : S) → get_elem? st.graph.states i ≡ some s → is_stuck sys st.graph i s ≡ false)
      → (s : S) → Reach sys s
      → CanStep sys s
  deadlock_free-pass laws done h s r unfinished =
      let rep = Reach-Represented sys laws st fin done s r in
      let (e, row, a, b, c, hb, pr) = expanded_all sys st fin done rep.at rep.by rep.found in
      let (t, n) =
        can_step rep.at rep.by e row (h rep.at rep.by rep.found)
          (sym (laws.same_finished s rep.by r (Reach-found rep.at rep.by rep.found) rep.same_key)
            ∙ unfinished)
          a b c hb pr in
      let (v, m, _) =
        laws.same_steps rep.by s t (Reach-found rep.at rep.by rep.found) r (sym rep.same_key) n in
      (v, m)

  always_reachable-pass :
      KeyLaws sys
      → complete st ≡ true
      → (goal : Predicate) (roots : List ℕ)
      → ((i : ℕ) → In i roots → In i (all_from (λ s. answers sys s goal) 0 st.graph.states))
      → ((i : ℕ) (s : S)
          → get_elem? st.graph.states i ≡ some s
          → not (contains (collected st.graph roots) i) ≡ false)
      → (s : S) → Reach sys s
      → (t : S) × Leads sys s t × Satisfies sys t goal
  always_reachable-pass laws done goal roots sub h s r =
      let rep = Reach-Represented sys laws st fin done s r in
      let back =
        collected_sound st.graph roots rep.at (
          contains_In (collected st.graph roots) rep.at
            (not-false _ (h rep.at rep.by rep.found))) in
      let (t, l, p) =
        ToRoot-Leads sys laws st fin done roots (λ u. Satisfies sys u goal) respects is_goal rep.at
          rep.by rep.found back in
      let (t', l', k) =
        Leads-lift sys laws rep.by s t (Reach-found rep.at rep.by rep.found) r (sym rep.same_key)
          l in
      (
        t',
        l',
        respects t t' (Reach-Leads sys (Reach-found rep.at rep.by rep.found) l)
            (Reach-Leads sys r l') k p,
      )
    where
      respects :
          (u v : S)
          → Reach sys u
          → Reach sys v
          → sys.state_key u ≡ sys.state_key v
          → Satisfies sys u goal
          → Satisfies sys v goal
      respects u v a b k p = sym (laws.same_truth u v goal a b k) ∙ p

      is_goal :
          (i : ℕ) (u : S) → In i roots → get_elem? st.graph.states i ≡ some u → Satisfies sys u goal
      is_goal i u m e =
          let (w, f, p) = indices_sound (λ s. answers sys s goal) st.graph.states i (sub i m) in
          cc (e, f, p)

  -- A property that passes holds of the system.
  pub property_pass :
      KeyLaws sys
      → (prop : Property) → judge sys st.graph prop (complete st) ≡ Outcome.pass
      → Holds sys prop
  unfolding judge
  property_pass laws (safety invariant) h =
      let (done, all) =
        absent-pass (λ i s. not (answers sys s invariant)) (complete st) st.graph.states h in
      pass_all laws done invariant true (λ i s e. not-false _ (all i s e))
  property_pass laws (unreachable bad) h =
      let (done, all) = absent-pass (λ i s. answers sys s bad) (complete st) st.graph.states h in
      pass_all laws done bad false all
  property_pass laws deadlock_free h =
      let (done, all) = absent-pass (is_stuck sys st.graph) (complete st) st.graph.states h in
      deadlock_free-pass laws done all
  property_pass laws (reachability goal) h =
      let (i, s, e, p) = present-pass (λ i s. answers sys s goal) (complete st) st.graph.states h in
      (s, Reach-found i s e, p)
  property_pass laws (always_reachable goal) h =
      split (all_from (λ s. answers sys s goal) 0 st.graph.states) (λ i m. m) h
    where
      split :
          (roots : List ℕ)
          → ((i : ℕ) → In i roots → In i (all_from (λ s. answers sys s goal) 0 st.graph.states))
          → judge_always sys st.graph roots (complete st) ≡ Outcome.pass
          → Holds sys (always_reachable goal)
      split [] sub g = absurd (fail_pass g)
        where
          fail_pass : Outcome.fail ≡ Outcome.pass → ⊥
          fail_pass g = cc
      split (r ∷ roots) sub g =
          let (done, all) =
            absent-pass (λ i s. not (contains (collected st.graph (r ∷ roots)) i)) (complete st)
              st.graph.states g in
          always_reachable-pass laws done goal (r ∷ roots) sub all

  pub preserved_pass :
      KeyLaws sys
      → (b : Preserved) → judge_preserved sys st.graph b (complete st) ≡ Outcome.pass
      → Preserves sys b
  unfolding judge_preserved
  preserved_pass laws (reachable goal) h =
      property_pass laws (reachability goal) (unfold judge in h)
  preserved_pass laws (always invariant) h =
      property_pass laws (safety invariant) (unfold judge in h)
