-- ===== src/Explore/Verdict/Doomed.antt =====
-- Fail of an AG EF property of src/explore/mod.rs on a complete search.
use conc_ir.Prelude.{
  ℕ, zero, suc, ◌+◌, ◌<◌, ◌≡◌, refl, sym, subst, ◌∙◌, inl, inr, Bool, true, not, some, List, [],
  ◌∷◌, get_elem?, length, In, arith, Bool-cases, get_elem?-lt,
}
use conc_ir.Prelude.Map.{list_key, nat_key}
use conc_ir.Sem.Outcome.{Outcome}
use conc_ir.Sem.System.{TransitionSystem, Predicate}
use conc_ir.Explore.Search.{Search, complete}
use conc_ir.Explore.Contract.{always_reachable}
use conc_ir.Explore.Check.{contains}
use conc_ir.Explore.Judgement.{all_from, judge, judge_always, collected, answers}
use conc_ir.Explore.Reach.{Reach, later, Leads, here, via, Reach-Leads, KeyLaws, Satisfies, Holds}
use conc_ir.Explore.Invariant.Flags.{Final}
use conc_ir.Explore.Positions.{absent-fail, indices_from_sound, indices_sound}
use conc_ir.Explore.Backward.{ToRoot, root, edge}
use conc_ir.Explore.Backward.Pushes.{Distinct, In-contains}
use conc_ir.Explore.Backward.Complete.{collected_complete}
use conc_ir.Explore.Verdict.Graph.{Next-edge, Reach-Represented}
use conc_ir.Explore.Verdict.Properties.{not-true, true-false}

module _ {S : Type 0} (test : S → Bool) where
  indices_complete :
      (k : ℕ) (ss : List S) (i j : ℕ) (s : S)
      → j ≡ k + i
      → get_elem? ss i ≡ some s
      → test s ≡ true
      → In j (all_from test k ss)
  indices_complete k [] i j s q e h = cc
  indices_complete k (x ∷ ss) zero j s q e h =
      rw (subst (λ z. test z ≡ true) (head e) h) (inl (omega (arith, q)))
    where
      head : some x ≡ some s → s ≡ x
      head e = cc
  indices_complete k (x ∷ ss) (suc i) j s q e h =
      let later_one = indices_complete (suc k) ss i j s (omega (arith, q)) e h in
      elim (Bool-cases (test x)) [ inl hit ↦ rw hit (inr later_one) | inr miss ↦ rw miss later_one ]

  indices-Distinct : (k : ℕ) (ss : List S) → Distinct (all_from test k ss)
  indices-Distinct k [] = tt
  indices-Distinct k (x ∷ ss) = elim (Bool-cases (test x)) [
    | inl hit ↦ rw hit (above, indices-Distinct (suc k) ss)
    | inr miss ↦ rw miss (indices-Distinct (suc k) ss)
  ]
    where
      above : In k (all_from test (suc k) ss) → ⊥
      above m = let (i, s, a, _, _) = indices_from_sound test (suc k) ss k m in omega (arith, a)

module _ {S : Type 0} (sys : TransitionSystem S) (laws : KeyLaws sys) (st : Search S)
    (fin : Final sys st) (done : complete st ≡ true) where
  -- A path of the system to a state of the goal is a path of edges to a root.
  Leads-ToRoot :
      (goal : Predicate) (roots : List ℕ)
      → ((i : ℕ) (s : S) → get_elem? st.graph.states i ≡ some s → Satisfies sys s goal → In i roots)
      → (i : ℕ) (s s' t : S) → get_elem? st.graph.states i ≡ some s
      → Reach sys s'
      → sys.state_key s' ≡ sys.state_key s
      → Leads sys s' t
      → Satisfies sys t goal
      → ToRoot st.graph.edges roots i
  Leads-ToRoot goal roots all i s s' t h r k here p =
      root i (all i s h (sym (laws.same_truth s' s goal r (fin.core.reach i s h) k) ∙ p))
  Leads-ToRoot goal roots all i s s' t h r k (via {t = u} n l) p =
      let (v, m, k') = laws.same_steps s' s u r (fin.core.reach i s h) k n in
      let (rep, row, label, b, c) = Next-edge sys st fin done i s v h m in
      edge i rep.at label row b c (
        Leads-ToRoot goal roots all rep.at rep.by u t rep.found (later r n) (k' ∙ rep.same_key) l p)

  -- Where AG EF fails on a complete search, AG EF of the goal does not hold.
  pub always_reachable-fail :
      (start : S)
      → Reach sys start
      → (goal : Predicate) → judge sys st.graph (always_reachable goal) (complete st) ≡ Outcome.fail
      → ¬ Holds sys (always_reachable goal)
  unfolding judge
  always_reachable-fail start r goal h holds =
      split goal_states
        (λ i s e p. indices_complete is_goal 0 st.graph.states i i s (omega arith) e p)
        (indices-Distinct is_goal 0 st.graph.states) known h
    where
      is_goal : S → Bool
      is_goal s = answers sys s goal

      goal_states : List ℕ
      goal_states = all_from is_goal 0 st.graph.states

      known : (i : ℕ) → In i goal_states → i < length st.graph.states
      known i m =
          let (s, e, _) = indices_sound is_goal st.graph.states i m in
          get_elem?-lt st.graph.states i s e

      split :
          (roots : List ℕ)
          → ((i : ℕ) (s : S)
              → get_elem? st.graph.states i ≡ some s
              → Satisfies sys s goal
              → In i roots)
          → Distinct roots
          → ((i : ℕ) → In i roots → i < length st.graph.states)
          → judge_always sys st.graph roots (complete st) ≡ Outcome.fail
          → ⊥
      split [] all d k g =
          let (t, l, p) = holds start r in
          let rep = Reach-Represented sys laws st fin done t (Reach-Leads sys r l) in
          all rep.at rep.by rep.found (
            sym (
              laws.same_truth t rep.by goal (Reach-Leads sys r l)
                (fin.core.reach rep.at rep.by rep.found) rep.same_key)
            ∙ p)
      split (x ∷ roots) all d k g =
          let (i, s, e, p) =
            absent-fail (λ i s. not (contains (collected st.graph (x ∷ roots)) i)) (complete st)
              st.graph.states g in
          let (t, l, q) = holds s (fin.core.reach i s e) in
          true-false
            (In-contains (collected st.graph (x ∷ roots)) i (
              collected_complete st.graph (x ∷ roots) d k (omega (arith, fin.core.shape.edges))
                fin.core.targets i
                (Leads-ToRoot goal (x ∷ roots) all i s s t e (fin.core.reach i s e) refl l q)))
            (not-true _ p)
