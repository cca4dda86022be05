-- ===== src/Explore/Invariant/Grow.antt =====
-- The search after one more successor of the state that is being expanded: it keeps the invariant.
use conc_ir.Prelude.{
  ℕ, suc, ◌+◌, ◌<◌, ◌≤◌, ◌≡◌, ◌≢◌, refl, sym, ap, ◌∙◌, subst, ◌⊎◌, inl, inr, Bool, false, Option,
  none, some, List, [], ◌∷◌, ◌++◌, length, get_elem?, modify, In, arith, length-snoc, length-modify,
  get_elem?-modify_ne, get_elem?-modify_self, get_elem?-snoc, get_elem?-snoc_at, get_elem?-snoc_inv,
  get_elem?-lt,
}
use conc_ir.Prelude.Text.{Str}
use conc_ir.Prelude.Map.{
  Map, get, insert, list_key, nat_key, get-insert_self, get-insert_inv, get-insert_fresh,
}
use conc_ir.Sem.Outcome.{StepLabel}
use conc_ir.Sem.System.{Step, TransitionSystem}
use conc_ir.Explore.Search.{Search, complete}
use conc_ir.Explore.Reach.{Reach}
use conc_ir.Explore.Invariant.{Upto, Fresh, Settled, Visiting, Row-mono, Row-snoc, Settled-mono}

Upto-snoc : (p n : ℕ) (q : List ℕ) → Upto p n q → Upto p (suc n) (q ++ n ∷ [])
Upto-snoc p n [] h = (sym h, ap suc h)
Upto-snoc p n (i ∷ q) h = (h.0, Upto-snoc (suc p) n q h.1)

In-snoc_cases : {A : Type 0} (xs : List A) (y a : A) → In a (xs ++ y ∷ []) → In a xs ⊎ (y ≡ a)
In-snoc_cases [] y a (inl e) = inr e
In-snoc_cases [] y a (inr m) = absurd m
In-snoc_cases (x ∷ xs) y a (inl e) = inl (inl e)
In-snoc_cases (x ∷ xs) y a (inr m) = elim (In-snoc_cases xs y a m) [
  | inl h ↦ inl (inr h)
  | inr e ↦ inr e
]

some-inj : {A : Type 0} {a b : A} → some a ≡ some b → a ≡ b
some-inj q = cc

eq_cases : (i j : ℕ) → (i ≡ j) ⊎ (i ≢ j)
eq_cases i j = omega arith

le_cases : (i n : ℕ) → i < suc n → (i < n) ⊎ (i ≡ n)
le_cases i n h = omega arith

-- The search after one more step, where nothing panics.
abbrev pub grown : {S : Type 0} → Option ℕ → Str → ℕ → ℕ → Step S → Search S → Search S
grown (some target) key idx depth step st = record st {
  graph = record st.graph {
    edges = modify st.graph.edges idx (λ row. row ++ (target, step.label) ∷ []);
  };
  transitions_explored = st.transitions_explored + 1;
}
grown none key idx depth step st =
    let g = st.graph in
    record st {
      graph = record g {
        states = g.states ++ step.state ∷ [];
        index = insert key (length g.states) g.index;
        edges = modify (g.edges ++ [] ∷ []) idx (λ row. row ++ (length g.states, step.label) ∷ []);
        pred = g.pred ++ some (idx, step.label) ∷ [];
        had_boundary = g.had_boundary ++ false ∷ [];
        depth = g.depth ++ (depth + 1) ∷ [];
        processed = g.processed ++ false ∷ [];
      };
      queue = st.queue ++ length g.states ∷ [];
      transitions_explored = st.transitions_explored + 1;
    }

module _ {S : Type 0} (sys : TransitionSystem S) (p depth : ℕ) (s : S) (mark : Bool)
    (done : List (Step S)) (x : Step S) (st : Search S) (v : Visiting sys p s mark done st) where
  abbrev pub row_with : ℕ → List (ℕ × StepLabel) → List (ℕ × StepLabel)
  row_with t row = row ++ (t, x.label) ∷ []

  abbrev key : Str
  key = sys.state_key x.state

  below_ne : (i : ℕ) → i < p → p ≢ i
  below_ne i h = omega arith

  above_ne : (i : ℕ) → suc p ≤ i → p ≢ i
  above_ne i h = omega arith

  -- The targets in a vector of rows, after a push of `t` at the row of `p`.
  pushed_targets :
      (rows : List (List (ℕ × StepLabel))) (t m : ℕ)
      → get_elem? rows p ≡ some v.row
      → t < m
      → ((i u : ℕ) (l : StepLabel) (row : List (ℕ × StepLabel))
          → get_elem? rows i ≡ some row
          → In (u, l) row
          → u < m)
      → (i u : ℕ) (l : StepLabel) (row : List (ℕ × StepLabel))
      → get_elem? (modify rows p (row_with t)) i ≡ some row
      → In (u, l) row
      → u < m
  pushed_targets rows t m at lt all i u l row e h = elim (eq_cases p i) [
    | inl here ↦ elim (In-snoc_cases v.row (t, x.label) (u, l) (subst (In (u, l)) (same here) h)) [
      | inl old ↦ all p u l v.row at old
      | inr new ↦ subst (λ z. z < m) (ap (λ z. z.0) new) lt
    ]
    | inr other ↦ all i u l row (sym (get_elem?-modify_ne rows p i (row_with t) other) ∙ e) h
  ]
    where
      same : p ≡ i → row ≡ row_with t v.row
      same here = some-inj (
          sym e
          ∙ ap (λ j. get_elem? (modify rows p (row_with t)) j) (sym here)
          ∙ get_elem?-modify_self rows p (row_with t) v.row at)

  pub visit_found :
      (t : ℕ)
      → get key st.graph.index ≡ some t
      → Visiting sys p s mark (done ++ x ∷ []) (grown (some t) key p depth x st)
  unfolding complete
  visit_found t h = record {
    core = record {
      shape = record {
        edges = length-modify st.graph.edges p (row_with t) ∙ v.core.shape.edges;
        had_boundary = v.core.shape.had_boundary;
        depth = v.core.shape.depth;
        processed = v.core.shape.processed;
      };
      reach = v.core.reach;
      root = v.core.root;
      indexed = v.core.indexed;
      sound = v.core.sound;
      targets =
          pushed_targets st.graph.edges t (length st.graph.states) v.row_eq
            (let (w, a, b) = v.core.sound key t h in get_elem?-lt st.graph.states t w a)
            v.core.targets;
      settled = λ i s lt e.
          Settled-mono sys st _ i s
            (get_elem?-modify_ne st.graph.edges p i (row_with t) (below_ne i lt)) refl refl
            (λ k j g. g) (λ c. c) (v.core.settled i s lt e);
      fresh = λ i le lt.
          let f = v.core.fresh i le lt in
          record {
            edges = get_elem?-modify_ne st.graph.edges p i (row_with t) (above_ne i le) ∙ f.edges;
            had_boundary = f.had_boundary;
            processed = f.processed;
          };
    };
    queue = v.queue;
    state = v.state;
    row = row_with t v.row;
    row_eq = get_elem?-modify_self st.graph.edges p (row_with t) v.row v.row_eq;
    matches = Row-snoc sys st.graph.index done v.row x t v.matches h;
    boundary = v.boundary;
    dirty = v.dirty;
    processed = v.processed;
    bounded = v.bounded;
  }

  same_length :
      {A : Type 0} (xs : List A) (a : A)
      → length xs ≡ length st.graph.states
      → length (xs ++ a ∷ []) ≡ length (st.graph.states ++ x.state ∷ [])
  same_length xs a e = length-snoc xs a ∙ ap suc e ∙ sym (length-snoc st.graph.states x.state)

  abbrev n : ℕ
  n = length st.graph.states

  -- An old entry of a vector that was pushed to.
  old :
      {A : Type 0} (xs : List A) (a : A) (i : ℕ)
      → length xs ≡ n
      → i < n
      → get_elem? (xs ++ a ∷ []) i ≡ get_elem? xs i
  old xs a i e lt = get_elem?-snoc xs a i (omega arith)

  newest :
      {A : Type 0} (xs : List A) (a : A) (i : ℕ)
      → length xs ≡ n
      → i ≡ n
      → get_elem? (xs ++ a ∷ []) i ≡ some a
  newest xs a i e h = get_elem?-snoc_at xs a i (h ∙ sym e)

  abbrev states' : List S
  states' = st.graph.states ++ x.state ∷ []

  abbrev index' : Map Str ℕ
  index' = insert key n st.graph.index

  abbrev edges' : List (List (ℕ × StepLabel))
  edges' = modify (st.graph.edges ++ [] ∷ []) p (row_with n)

  new_state :
      {Q : ℕ → S → Type 0}
      → ((i : ℕ) (s : S) → get_elem? st.graph.states i ≡ some s → Q i s)
      → ((i : ℕ) → i ≡ n → Q i x.state)
      → (i : ℕ) (s : S) → get_elem? states' i ≡ some s
      → Q i s
  new_state {Q} f g i s e = elim (get_elem?-snoc_inv st.graph.states x.state i s e) [
    | inl h ↦ f i s h
    | inr h ↦ subst (Q i) h.1 (g i h.0)
  ]

  old_edges : (i : ℕ) → p ≢ i → i < n → get_elem? edges' i ≡ get_elem? st.graph.edges i
  old_edges i ne lt =
      get_elem?-modify_ne (st.graph.edges ++ [] ∷ []) p i (row_with n) ne
      ∙ old st.graph.edges [] i v.core.shape.edges lt

  abbrev new_search : Search S
  new_search = grown none key p depth x st

  module _ (unseen : get key st.graph.index ≡ none) where
    new_Extends : (k : Str) (j : ℕ) → get k st.graph.index ≡ some j → get k index' ≡ some j
    new_Extends k j = get-insert_fresh key k n j st.graph.index unseen

    new_sound :
        (k : Str) (j : ℕ)
        → get k index' ≡ some j
        → (s : S) × (get_elem? states' j ≡ some s) × (sys.state_key s ≡ k)
    new_sound k j e = elim (get-insert_inv key k n j st.graph.index e) [
      | inl h ↦ (x.state, newest st.graph.states x.state j refl (sym h.1), h.0)
      | inr h ↦
          let (s, a, b) = v.core.sound k j h in
          (s, old st.graph.states x.state j refl (get_elem?-lt st.graph.states j s a) ∙ a, b)
    ]

    new-Settled :
        (i : ℕ) (s : S) → i < p → get_elem? states' i ≡ some s → Settled sys new_search i s
    unfolding complete
    new-Settled i s lt e =
        let below : i < n = omega (arith, v.bounded) in
        Settled-mono sys st new_search i s (old_edges i (below_ne i lt) below)
          (old st.graph.had_boundary false i v.core.shape.had_boundary below)
          (old st.graph.processed false i v.core.shape.processed below) new_Extends (λ c. c)
          (v.core.settled i s lt (sym (old st.graph.states x.state i refl below) ∙ e))

    new-Fresh : (i : ℕ) → suc p ≤ i → i < suc n → Fresh new_search.graph i
    new-Fresh i le lt = elim (le_cases i n lt) [
      | inl below ↦
          let f = v.core.fresh i le below in
          record {
            edges = old_edges i (above_ne i le) below ∙ f.edges;
            had_boundary =
                old st.graph.had_boundary false i v.core.shape.had_boundary below ∙ f.had_boundary;
            processed = old st.graph.processed false i v.core.shape.processed below ∙ f.processed;
          }
      | inr at ↦ record {
        edges =
            get_elem?-modify_ne (st.graph.edges ++ [] ∷ []) p i (row_with n) (above_ne i le)
            ∙ newest st.graph.edges [] i v.core.shape.edges at;
        had_boundary = newest st.graph.had_boundary false i v.core.shape.had_boundary at;
        processed = newest st.graph.processed false i v.core.shape.processed at;
      }
    ]

    more_targets :
        (i u : ℕ) (l : StepLabel) (row : List (ℕ × StepLabel))
        → get_elem? (st.graph.edges ++ [] ∷ []) i ≡ some row
        → In (u, l) row
        → u < suc n
    more_targets i u l row e m = elim (get_elem?-snoc_inv st.graph.edges [] i row e) [
      | inl h ↦ omega (arith, v.core.targets i u l row h m)
      | inr h ↦ absurd (subst (In (u, l)) (sym h.1) m)
    ]

    pub visit_new : Reach sys x.state → Visiting sys p s mark (done ++ x ∷ []) new_search
    unfolding complete
    visit_new r = record {
      core = record {
        shape = record {
          edges =
              length-modify (st.graph.edges ++ [] ∷ []) p (row_with n)
              ∙ same_length st.graph.edges [] v.core.shape.edges;
          had_boundary = same_length st.graph.had_boundary false v.core.shape.had_boundary;
          depth = same_length st.graph.depth (depth + 1) v.core.shape.depth;
          processed = same_length st.graph.processed false v.core.shape.processed;
        };
        root =
            λ s e. old st.graph.states x.state 0 refl (omega (arith, v.bounded)) ∙ v.core.root s e;
        reach = new_state {Q = λ i s. Reach sys s} v.core.reach (λ i e. r);
        indexed =
            new_state {Q = λ i s. (j : ℕ) × (get (sys.state_key s) index' ≡ some j)}
              (λ i s e. let (j, h) = v.core.indexed i s e in (j, new_Extends (sys.state_key s) j h))
              (λ i e. (n, get-insert_self key n st.graph.index));
        sound = new_sound;
        targets = rw (length-snoc st.graph.states x.state) (
            pushed_targets (st.graph.edges ++ [] ∷ []) n (suc n)
              (old st.graph.edges [] p v.core.shape.edges v.bounded ∙ v.row_eq) (omega arith)
              more_targets);
        settled = new-Settled;
        fresh = λ i le lt. new-Fresh i le (rw (length-snoc st.graph.states x.state) at lt);
      };
      queue = rw (length-snoc st.graph.states x.state) (Upto-snoc (suc p) n st.queue v.queue);
      state = old st.graph.states x.state p refl v.bounded ∙ v.state;
      row = row_with n v.row;
      row_eq =
          get_elem?-modify_self (st.graph.edges ++ [] ∷ []) p (row_with n) v.row
            (old st.graph.edges [] p v.core.shape.edges v.bounded ∙ v.row_eq);
      matches =
          Row-snoc sys index' done v.row x n
            (Row-mono sys st.graph.index index' done v.row new_Extends v.matches)
            (get-insert_self key n st.graph.index);
      boundary = old st.graph.had_boundary false p v.core.shape.had_boundary v.bounded ∙ v.boundary;
      dirty = v.dirty;
      processed = old st.graph.processed false p v.core.shape.processed v.bounded ∙ v.processed;
      bounded = rw (length-snoc st.graph.states x.state) (omega (arith, v.bounded));
    }
