-- ===== src/Explore/Invariant/Loop.antt =====
-- The search loop ends on its fuel, without a panic, in a state that the invariant describes.
use conc_ir.Prelude.{
  ℕ, zero, suc, ◌+◌, ◌<◌, ◌≤◌, ◌≡◌, refl, sym, ap, subst, inl, inr, some, List, [], ◌∷◌, length,
  get_elem?, In, arith,
}
use conc_ir.Prelude.Text.{Str}
use conc_ir.Prelude.Map.{
  Map, get, insert, list_key, nat_key, get-insert_self, get-insert_inv, get-empty,
}
use conc_ir.Sem.Outcome.{ok, StepLabel, AnalysisBounds}
use conc_ir.Sem.System.{TransitionSystem}
use conc_ir.Explore.Search.{
  Search, Turn, continue, stop, crash, Exit, finished, turn, after_turn, search_loop, enough, start,
  explore, complete,
}
use conc_ir.Explore.Reach.{Reach, initially}
use conc_ir.Explore.Invariant.{Upto, Fresh, Core, Settled-mono}
use conc_ir.Explore.Invariant.Flags.{IsTotal, Inv, Final, Good, Popped}
use conc_ir.Explore.Invariant.Turn.{turn-Good}

Upto-le : (p n : ℕ) (q : List ℕ) → Upto p n q → p ≤ n
Upto-le p n [] h = omega arith
Upto-le p n (i ∷ q) h = omega (arith, Upto-le (suc p) n q h.1)

module _ {S : Type 0} (sys : TransitionSystem S) where
  requeue :
      (p : ℕ) (st : Search S) (q : List ℕ)
      → Core sys p p st
      → Core sys p p (record st { queue = q })
  unfolding complete
  requeue p st q c = record {
    shape = c.shape;
    reach = c.reach;
    root = c.root;
    indexed = c.indexed;
    sound = c.sound;
    targets = c.targets;
    settled = λ i s lt e.
        Settled-mono sys st _ i s refl refl refl (λ k j g. g) (λ g. g) (c.settled i s lt e);
    fresh = c.fresh;
  }

  -- The loop returned, and its invariant holds at the end.
  abbrev pub Ends : Exit (Search S) → Type 0
  Ends exit = (st : Search S) × (exit ≡ finished st) × Final sys st

  after-Ends :
      (bounds : AnalysisBounds) (p : ℕ) (rest : Search S → Exit (Search S)) (t : Turn S)
      → ((st : Search S) → Inv sys (suc p) st → p < bounds.max_states → Ends (rest st))
      → Good sys bounds p t
      → Ends (after_turn rest t)
  after-Ends bounds p rest (continue st) ih g = ih st g.0 g.1
  after-Ends bounds p rest (stop st) ih g = (st, refl, g)
  after-Ends bounds p rest crash ih g = absurd g

  loop-Ends :
      (bounds : AnalysisBounds)
      → IsTotal sys
      → (f p : ℕ) (queue : List ℕ) (st : Search S) → st.queue ≡ queue
      → Inv sys p st
      → p ≤ bounds.max_states
      → bounds.max_states < p + f
      → Ends (search_loop f sys bounds queue st)
  unfolding search_loop
  loop-Ends bounds total zero p queue st e v h g = absurd (omega arith)
  loop-Ends bounds total (suc f) p [] st e v h g = (
    st,
    refl,
    record {
      popped = p;
      core = v.core;
      all_popped = λ _. subst (Upto p (length st.graph.states)) e v.queue;
    },
  )
  loop-Ends bounds total (suc f) p (idx ∷ queue) st e v h g =
      let q = subst (Upto p (length st.graph.states)) e v.queue in
      after-Ends bounds p (λ next. search_loop f sys bounds next.queue next)
        (turn sys bounds idx (record st { queue = queue }))
        (λ next w lt. loop-Ends bounds total f (suc p) next.queue next refl w lt (omega arith))
        (subst (λ i. Good sys bounds p (turn sys bounds i (record st { queue = queue }))) (sym q.0)
          (turn-Good sys p bounds (record st { queue = queue }) (popped q.1) total))
    where
      popped :
          Upto (suc p) (length st.graph.states) queue → Popped sys p (record st { queue = queue })
      popped q = record {
        core = requeue p st queue v.core;
        queue = q;
        bounded = Upto-le (suc p) (length st.graph.states) queue q;
      }

  start-Inv : (init : S) → sys.initial ≡ ok init → Inv sys 0 (start sys init)
  unfolding start
  start-Inv init a = record {
    core = record {
      shape = record { edges = refl; had_boundary = refl; depth = refl; processed = refl };
      root = λ s e. ap some (same_init s e);
      reach = λ i s e. subst (Reach sys) (first i s e) (initially a);
      indexed = λ i s e. (
        0,
        subst (λ t. get (sys.state_key t) index ≡ some 0) (first i s e)
            (get-insert_self (sys.state_key init) 0 []),
      );
      sound = λ k j e. elim (get-insert_inv (sys.state_key init) k 0 j [] e) [
        | inl h ↦ (init, subst (λ i. get_elem? (init ∷ []) i ≡ some init) h.1 refl, h.0)
        | inr h ↦ cc (get-empty {V = ℕ} k)
      ];
      targets = λ i t l row e m. absurd (subst (In (t, l)) (no_edges i row e) m);
      settled = λ i s lt e. absurd (omega arith);
      fresh = λ i le lt.
          subst (Fresh (start sys init).graph) (zero_only i lt)
            (record { edges = refl; had_boundary = refl; processed = refl });
    };
    queue = (refl, refl);
  }
    where
      index : Map Str ℕ
      index = insert (sys.state_key init) 0 []

      same_init : (s : S) → sys.initial ≡ ok s → init ≡ s
      same_init s e = cc (a, e)

      first : (i : ℕ) (s : S) → get_elem? (init ∷ []) i ≡ some s → init ≡ s
      first zero s e = cc
      first (suc i) s e = cc

      no_edges : (i : ℕ) (row : List (ℕ × StepLabel)) → get_elem? ([] ∷ []) i ≡ some row → row ≡ []
      no_edges zero row e = cc
      no_edges (suc i) row e = cc

      zero_only : (i : ℕ) → i < 1 → zero ≡ i
      zero_only i h = omega arith

  -- Where `successors` never panics, the search ends, and its invariant describes the result.
  pub explore-Ends :
      (bounds : AnalysisBounds) (init : S)
      → IsTotal sys
      → sys.initial ≡ ok init
      → Ends (explore sys bounds init)
  unfolding explore start
  explore-Ends bounds init total a =
      loop-Ends bounds total (enough bounds) 0 (0 ∷ []) (start sys init) refl (start-Inv init a)
        (omega arith) (omega arith)
