-- ===== src/Explore/Verdict/Graph.antt =====
-- The finished graph against the system: sound always, complete where the search was.
use conc_ir.Prelude.{
  ℕ, ◌<◌, ◌≡◌, refl, sym, ap, subst, ◌∙◌, inl, inr, true, false, some, List, [], ◌∷◌, get_elem?, In,
  arith, get_elem?-lt,
}
use conc_ir.Prelude.Text.{Str}
use conc_ir.Prelude.Map.{Map, get, list_key, nat_key}
use conc_ir.Sem.Outcome.{ok, StepLabel}
use conc_ir.Sem.System.{Step, Enabled, TransitionSystem}
use conc_ir.Explore.Search.{Search, complete}
use conc_ir.Explore.Reach.{Reach, initially, later, Next, Leads, here, via, Reach-Leads, KeyLaws}
use conc_ir.Explore.Invariant.{Row, Settled, expanded, spoiled}
use conc_ir.Explore.Invariant.Flags.{Final}
use conc_ir.Explore.Backward.{ToRoot, root, edge}

module _ {S : Type 0} (sys : TransitionSystem S) where
  pub Row-step :
      (index : Map Str ℕ) (xs : List (Step S)) (row : List (ℕ × StepLabel)) (x : Step S)
      → Row sys index xs row
      → In x xs
      → (j : ℕ) × (l : StepLabel) × In (j, l) row × (get (sys.state_key x.state) index ≡ some j)
  Row-step index [] row x r m = absurd m
  Row-step index (y ∷ xs) [] x r m = absurd r
  Row-step index (y ∷ xs) ((t, l) ∷ row) x r (inl e) =
      (t, l, inl refl, subst (λ (z : Step S). get (sys.state_key z.state) index ≡ some t) e r.0)
  Row-step index (y ∷ xs) ((t, l) ∷ row) x r (inr m) =
      let (j, l', a, b) = Row-step index xs row x r.2 m in (j, l', inr a, b)

  pub Row-edge :
      (index : Map Str ℕ) (xs : List (Step S)) (row : List (ℕ × StepLabel)) (t : ℕ)
      (label : StepLabel)
      → Row sys index xs row
      → In (t, label) row
      → (x : Step S) × In x xs × (get (sys.state_key x.state) index ≡ some t)
  Row-edge index [] [] t label r m = absurd m
  Row-edge index [] (e ∷ row) t label r m = absurd r
  Row-edge index (y ∷ xs) [] t label r m = absurd r
  Row-edge index (y ∷ xs) ((u, l) ∷ row) t label r (inl e) = (y, inl refl, r.0 ∙ cc e)
  Row-edge index (y ∷ xs) ((u, l) ∷ row) t label r (inr m) =
      let (x, a, b) = Row-edge index xs row t label r.2 m in (x, inr a, b)

  -- A complete search has expanded every state that it found.
  pub expanded_all :
      (st : Search S) (fin : Final sys st)
      → complete st ≡ true
      → (i : ℕ) (s : S) → get_elem? st.graph.states i ≡ some s
      → (e : Enabled S) × (row : List (ℕ × StepLabel)) × (sys.successors s ≡ ok e)
        × (get_elem? st.graph.edges i ≡ some row)
        × Row sys st.graph.index e.steps row
        × (get_elem? st.graph.had_boundary i ≡ some false)
        × (get_elem? st.graph.processed i ≡ some true)
  expanded_all st fin done i s h = split (fin.core.settled i s below h)
    where
      below : i < fin.popped
      below = let e = fin.all_popped done in omega (arith, get_elem?-lt st.graph.states i s h)

      split :
          Settled sys st i s
          → (e : Enabled S) × (row : List (ℕ × StepLabel)) × (sys.successors s ≡ ok e)
            × (get_elem? st.graph.edges i ≡ some row)
            × Row sys st.graph.index e.steps row
            × (get_elem? st.graph.had_boundary i ≡ some false)
            × (get_elem? st.graph.processed i ≡ some true)
      split (expanded e row a b c d f) = (e, row, a, b, c, d, f)
      split (spoiled a b) = absurd (clash (sym done ∙ b))
        where
          clash : true ≡ false → ⊥
          clash e = cc

  -- A state that stands for `s` in the graph.
  pub record Represented (st : Search S) (s : S) : Type 0 where
    pub at : ℕ
    pub by : S
    pub found : get_elem? st.graph.states at ≡ some by
    pub same_key : sys.state_key s ≡ sys.state_key by

  -- A step from a found state is an edge to a found state.
  pub Next-edge :
      (st : Search S) (fin : Final sys st)
      → complete st ≡ true
      → (i : ℕ) (s t : S) → get_elem? st.graph.states i ≡ some s
      → Next sys s t
      → (rep : Represented st t) × (row : List (ℕ × StepLabel)) × (l : StepLabel) × (get_elem?
            st.graph.edges i
          ≡ some row)
        × In (rep.at, l) row
  Next-edge st fin done i s t h n =
      let (e, row, a, b, c, _, _) = expanded_all st fin done i s h in
      let (j, l, m, g) =
        Row-step st.graph.index e.steps row n.taken c (subst (In n.taken) (same e a) n.chosen) in
      let (w, f, k) = fin.core.sound (sys.state_key n.taken.state) j g in
      (
        record { at = j; by = w; found = f; same_key = ap sys.state_key n.reached ∙ sym k },
        row,
        l,
        b,
        m,
      )
    where
      same : (e : Enabled S) → sys.successors s ≡ ok e → n.enabled.steps ≡ e.steps
      same e a = cc (n.allowed, a)

  -- A complete search represents every reachable state.
  pub Reach-Represented :
      KeyLaws sys
      → (st : Search S) (fin : Final sys st) → complete st ≡ true
      → (s : S) → Reach sys s
      → Represented st s
  Reach-Represented laws st fin done s (initially e) = record {
    at = 0;
    by = s;
    found = fin.core.root s e;
    same_key = refl;
  }
  Reach-Represented laws st fin done t (later {s = s} r n) =
      let rep = Reach-Represented laws st fin done s r in
      let (v, m, k) =
        laws.same_steps s rep.by t r (fin.core.reach rep.at rep.by rep.found) rep.same_key n in
      let next = (Next-edge st fin done rep.at rep.by v rep.found m).0 in
      record { at = next.at; by = next.by; found = next.found; same_key = k ∙ next.same_key }

  -- Paths of one system lift along equal keys.
  pub Leads-lift :
      KeyLaws sys
      → (s s' t : S) → Reach sys s
      → Reach sys s'
      → sys.state_key s ≡ sys.state_key s'
      → Leads sys s t
      → (t' : S) × Leads sys s' t' × (sys.state_key t ≡ sys.state_key t')
  Leads-lift laws s s' t r r' k here = (s', here, k)
  Leads-lift laws s s' t r r' k (via {t = u} n l) =
      let (u', n', k') = laws.same_steps s s' u r r' k n in
      let (t', l', k'') = Leads-lift laws u u' t (later r n) (later r' n') k' l in
      (t', via n' l', k'')

  -- A path of edges to a root is a path of the system to a state with the root's key.
  pub ToRoot-Leads :
      KeyLaws sys
      → (st : Search S) (fin : Final sys st) → complete st ≡ true
      → (roots : List ℕ) (P : S → Type 0)
      → ((s t : S) → Reach sys s → Reach sys t → sys.state_key s ≡ sys.state_key t → P s → P t)
      → ((i : ℕ) (s : S) → In i roots → get_elem? st.graph.states i ≡ some s → P s)
      → (i : ℕ) (s : S) → get_elem? st.graph.states i ≡ some s
      → ToRoot st.graph.edges roots i
      → (t : S) × Leads sys s t × P t
  ToRoot-Leads laws st fin done roots P respects goal i s h (root _ m) = (s, here, goal i s m h)
  ToRoot-Leads laws st fin done roots P respects goal i s h (edge _ j label row' b' m r) =
      let (e, row, a, b, c, _, _) = expanded_all st fin done i s h in
      let (x, u, g) =
        Row-edge st.graph.index e.steps row j label c (subst (In (j, label)) (same row b) m) in
      let (w, f, k) = fin.core.sound (sys.state_key x.state) j g in
      let (t, l, pt) = ToRoot-Leads laws st fin done roots P respects goal j w f r in
      let step : Next sys s x.state = record {
        enabled = e;
        taken = x;
        allowed = a;
        chosen = u;
        reached = refl;
      } in
      let r_w = fin.core.reach j w f in
      let r_x = later (fin.core.reach i s h) step in
      let (t', l', k') = Leads-lift laws w x.state t r_w r_x k l in
      (t', via step l', respects t t' (Reach-Leads sys r_w l) (Reach-Leads sys r_x l') k' pt)
    where
      same : (row : List (ℕ × StepLabel)) → get_elem? st.graph.edges i ≡ some row → row' ≡ row
      same row b = cc (b, b')
