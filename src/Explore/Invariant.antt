-- ===== src/Explore/Invariant.antt =====
-- The invariant of the search loop: what the parallel vectors of the graph say of the system.
pub mod Grow
pub mod Visit
pub mod Flags
pub mod Turn
pub mod Loop
use conc_ir.Prelude.{
  ℕ, suc, ◌<◌, ◌≤◌, ◌≡◌, refl, ◌⊎◌, Bool, true, false, Option, none, some, List, [], ◌∷◌, ◌++◌,
  length, get_elem?, In, ◌∙◌,
}
use conc_ir.Prelude.Text.{Str}
use conc_ir.Prelude.Map.{Map, get, list_key, nat_key}
use conc_ir.Sem.Outcome.{ok, StepLabel}
use conc_ir.Sem.System.{Step, Enabled, TransitionSystem}
use conc_ir.Explore.Search.{Graph, Search, complete}
use conc_ir.Explore.Reach.{Reach}

-- The queue is the run of indices from `p` up to `n`.
abbrev pub Upto : ℕ → ℕ → List ℕ → Type 0
Upto p n [] = p ≡ n
Upto p n (i ∷ q) = (i ≡ p) × Upto (suc p) n q

pub record Shape {S : Type 0} (g : Graph S) : Type 0 where
  pub edges : length g.edges ≡ length g.states
  pub had_boundary : length g.had_boundary ≡ length g.states
  pub depth : length g.depth ≡ length g.states
  pub processed : length g.processed ≡ length g.states

-- A state that was found and not popped yet.
pub record Fresh {S : Type 0} (g : Graph S) (i : ℕ) : Type 0 where
  pub edges : get_elem? g.edges i ≡ some []
  pub had_boundary : get_elem? g.had_boundary i ≡ some false
  pub processed : get_elem? g.processed i ≡ some false

module _ {S : Type 0} (sys : TransitionSystem S) where
  -- A row of edges has one entry for each step, with the index of the step's key.
  abbrev pub Row : Map Str ℕ → List (Step S) → List (ℕ × StepLabel) → Type 0
  Row index [] [] = Unit {0}
  Row index [] (e ∷ es) = ⊥
  Row index (x ∷ xs) [] = ⊥
  Row index (x ∷ xs) ((target, label) ∷ es) =
      (get (sys.state_key x.state) index ≡ some target) × (label ≡ x.label) × Row index xs es

  -- A popped state: its row is complete, or the search says that it is not.
  pub data Settled (st : Search S) (i : ℕ) (s : S) : Type 0 where
    expanded :
        (e : Enabled S) (row : List (ℕ × StepLabel))
        → sys.successors s ≡ ok e
        → get_elem? st.graph.edges i ≡ some row
        → Row st.graph.index e.steps row
        → get_elem? st.graph.had_boundary i ≡ some false
        → get_elem? st.graph.processed i ≡ some true
        → Settled st i s
    spoiled : get_elem? st.graph.had_boundary i ≡ some true → complete st ≡ false → Settled st i s

  -- Indices below `p` are settled, and those from `lo` on are fresh.
  pub record Core (p lo : ℕ) (st : Search S) : Type 0 where
    pub shape : Shape st.graph
    pub reach : (i : ℕ) (s : S) → get_elem? st.graph.states i ≡ some s → Reach sys s
    pub root : (s : S) → sys.initial ≡ ok s → get_elem? st.graph.states 0 ≡ some s
    pub indexed :
        (i : ℕ) (s : S)
        → get_elem? st.graph.states i ≡ some s
        → (j : ℕ) × (get (sys.state_key s) st.graph.index ≡ some j)
    pub sound :
        (k : Str) (j : ℕ)
        → get k st.graph.index ≡ some j
        → (s : S) × (get_elem? st.graph.states j ≡ some s) × (sys.state_key s ≡ k)
    pub targets :
        (i t : ℕ) (l : StepLabel) (row : List (ℕ × StepLabel))
        → get_elem? st.graph.edges i ≡ some row
        → In (t, l) row
        → t < length st.graph.states
    pub settled : (i : ℕ) (s : S) → i < p → get_elem? st.graph.states i ≡ some s → Settled st i s
    pub fresh : (i : ℕ) → lo ≤ i → i < length st.graph.states → Fresh st.graph i

  -- While the state `s`, of index `p`, is expanded: `done` are the steps seen so far.
  pub record Visiting (p : ℕ) (s : S) (mark : Bool) (done : List (Step S)) (st : Search S)
      : Type 0 where
    pub core : Core p (suc p) st
    pub queue : Upto (suc p) (length st.graph.states) st.queue
    pub state : get_elem? st.graph.states p ≡ some s
    pub row : List (ℕ × StepLabel)
    pub row_eq : get_elem? st.graph.edges p ≡ some row
    pub matches : Row st.graph.index done row
    pub boundary : get_elem? st.graph.had_boundary p ≡ some mark
    pub dirty : mark ≡ true → complete st ≡ false
    pub processed : get_elem? st.graph.processed p ≡ some true
    pub bounded : p < length st.graph.states

  -- An index that knows all that another one knows.
  abbrev pub Extends : Map Str ℕ → Map Str ℕ → Type 0
  Extends m m' = (k : Str) (j : ℕ) → get k m ≡ some j → get k m' ≡ some j

  pub Row-mono :
      (m m' : Map Str ℕ) (xs : List (Step S)) (es : List (ℕ × StepLabel))
      → Extends m m'
      → Row m xs es
      → Row m' xs es
  Row-mono m m' [] [] h r = tt
  Row-mono m m' [] (e ∷ es) h r = absurd r
  Row-mono m m' (x ∷ xs) [] h r = absurd r
  Row-mono m m' (x ∷ xs) ((t, l) ∷ es) h r =
      (h (sys.state_key x.state) t r.0, r.1, Row-mono m m' xs es h r.2)

  pub Row-snoc :
      (m : Map Str ℕ) (xs : List (Step S)) (es : List (ℕ × StepLabel)) (x : Step S) (t : ℕ)
      → Row m xs es
      → get (sys.state_key x.state) m ≡ some t
      → Row m (xs ++ x ∷ []) (es ++ (t, x.label) ∷ [])
  Row-snoc m [] [] x t r h = (h, refl, tt)
  Row-snoc m [] (e ∷ es) x t r h = absurd r
  Row-snoc m (y ∷ xs) [] x t r h = absurd r
  Row-snoc m (y ∷ xs) ((u, l) ∷ es) x t r h = (r.0, r.1, Row-snoc m xs es x t r.2 h)

  -- A settled state stays settled while its entries and the flags stay and the index grows.
  pub Settled-mono :
      (st st' : Search S) (i : ℕ) (s : S)
      → get_elem? st'.graph.edges i ≡ get_elem? st.graph.edges i
      → get_elem? st'.graph.had_boundary i ≡ get_elem? st.graph.had_boundary i
      → get_elem? st'.graph.processed i ≡ get_elem? st.graph.processed i
      → Extends st.graph.index st'.graph.index
      → (complete st ≡ false → complete st' ≡ false)
      → Settled st i s
      → Settled st' i s
  Settled-mono st st' i s he hb hp hx hc (expanded e row a b c d f) =
      expanded e row a (he ∙ b) (Row-mono st.graph.index st'.graph.index e.steps row hx c) (hb ∙ d)
        (hp ∙ f)
  Settled-mono st st' i s he hb hp hx hc (spoiled a b) = spoiled (hb ∙ a) (hc b)
