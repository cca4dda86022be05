-- ===== src/Examples/Explorer.antt =====
-- The explorer of src/explore/mod.rs on a system of two states, of which the second is final.
use conc_ir.Prelude.{
  ℕ, zero, suc, ◌==◌, ◌<◌, ◌≡◌, refl, ap, subst, ◌↔◌, Bool, true, false, none, some, List, [], ◌∷◌,
  In, get_elem?, arith, inl, inr,
}
use conc_ir.Prelude.Int.{pos}
use conc_ir.Prelude.Map.{list_key, nat_key}
use conc_ir.Sem.Outcome.{ok, Outcome, AnalysisBounds, default_bounds, StepLabel, statement}
use conc_ir.Sem.Value.{Value, int, array, item, no_items, value_eq}
use conc_ir.Sem.Value.Equality.{value_eq_iff}
use conc_ir.Sem.System.{Predicate, truth, function_completed, Step, TransitionSystem}
use conc_ir.Explore.Search.{Graph, finished}
use conc_ir.Explore.Check.{VerificationReport, verify, reverse_reachable}
use conc_ir.Explore.Backward.{ToRoot, reverse_reachable_sound}
use conc_ir.Explore.Backward.Complete.{reverse_reachable_complete}
use conc_ir.Explore.Verdict.Failures.{asks_always, always_reachable-cut_off}

abbrev the_step : StepLabel
the_step = record {
  origin = record { module_id = 0; function = 0; sid = some 0; phase = statement };
  thread = some 0;
  frame = some 0;
}

abbrev steps_of : ℕ → List (Step ℕ)
steps_of zero = record { label = the_step; state = 1 } ∷ []
steps_of (suc n) = []

abbrev satisfies : ℕ → Predicate → Bool
satisfies s truth = true
satisfies s (function_completed f) = s == f
satisfies s _ = false

abbrev two_states : TransitionSystem ℕ
two_states = record {
  initial = ok 0;
  successors = λ s. ok (record { steps = steps_of s; boundary = [] });
  is_finished = λ s. s == 1;
  satisfied = λ s p. ok (satisfies s p);
  state_key = λ s. s ∷ [];
}

abbrev one_state : AnalysisBounds
one_state = record default_bounds { max_states = 1 }

always_reachable-cut_off_example :
    (r : VerificationReport) × (verify two_states (asks_always (function_completed 1) one_state)
      ≡ finished r)
    × (r.outcome ≡ Outcome.fail)
    × (r.complete ≡ false)
always_reachable-cut_off_example =
    always_reachable-cut_off two_states 0 (function_completed 1) one_state refl refl refl

abbrev two_nodes : Graph ℕ
two_nodes = record {
  states = 0 ∷ 1 ∷ [];
  index = [];
  edges = ((1, the_step) ∷ []) ∷ [] ∷ [];
  pred = none ∷ some (0, the_step) ∷ [];
  had_boundary = false ∷ false ∷ [];
  depth = 0 ∷ 1 ∷ [];
  processed = true ∷ true ∷ [];
}

collected_states :
    (can_reach : List ℕ) × (reverse_reachable two_nodes (1 ∷ []) ≡ ok can_reach) × In 0 can_reach
unfolding reverse_reachable
collected_states = (_, refl, inl refl)

reverse_reachable_sound_example : ToRoot two_nodes.edges (1 ∷ []) 0
reverse_reachable_sound_example =
    reverse_reachable_sound two_nodes (1 ∷ []) collected_states.0 0 collected_states.1
      collected_states.2

two_nodes-targets :
    (i t : ℕ) (l : StepLabel) (row : List (ℕ × StepLabel))
    → get_elem? two_nodes.edges i ≡ some row
    → In (t, l) row
    → t < 2
two_nodes-targets zero t l row e m = elim (subst (In (t, l)) (same e) m) [
  | inl q ↦ omega (arith, ap (λ z. z.0) q)
  | inr n ↦ absurd n
]
  where
    same : some ((1, the_step) ∷ []) ≡ some row → row ≡ (1, the_step) ∷ []
    same e = cc
two_nodes-targets (suc zero) t l row e m = absurd (subst (In (t, l)) (same e) m)
  where
    same : some [] ≡ some row → row ≡ []
    same e = cc
two_nodes-targets (suc (suc i)) t l row e m = cc

one_known : (i : ℕ) → In i (1 ∷ []) → i < 2
one_known i (inl e) = omega (arith, e)
one_known i (inr m) = absurd m

reverse_reachable_complete_example :
    (can_reach : List ℕ) × (reverse_reachable two_nodes (1 ∷ []) ≡ ok can_reach)
    × ((p : ℕ) → ToRoot two_nodes.edges (1 ∷ []) p → In p can_reach)
reverse_reachable_complete_example =
    reverse_reachable_complete two_nodes (1 ∷ []) ((λ m. m), tt) one_known (omega arith)
      two_nodes-targets

abbrev a_value : Value
a_value = array (item (int (pos 3)) no_items)

value_eq_iff_example : (value_eq a_value a_value ≡ true) ↔ (a_value ≡ a_value)
value_eq_iff_example = value_eq_iff a_value a_value
