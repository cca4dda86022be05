-- ===== src/Explore/Judgement/Agree.antt =====
-- A check of Explore.Check that does not panic answers what Explore.Judgement says.
use mathlib.Core.List.{reverse}
use conc_ir.Prelude.{
  ℕ, zero, suc, ◌≡◌, refl, ap, ◌∙◌, Bool, true, false, not, ◌&&◌, Option, some, List, [], ◌∷◌, ◌++◌,
  length, is_empty, modify, if◌then◌else◌,
}
use conc_ir.Sem.Outcome.{Result, ok, err, panic, ◌>>=◌, read_at, modify_at, StepLabel}
use conc_ir.Sem.Results.{bind-ok, ok-inj}
use conc_ir.Sem.System.{TransitionSystem}
use conc_ir.Explore.Search.{Graph}
use conc_ir.Explore.Check.{
  empty_rows, push_unseen, negated, and_then, position_from, indices_from, reverse_row,
  reverse_edges, reverse_loop, reverse_reachable, is_deadlock,
}
use conc_ir.Explore.Judgement.{
  flag, row_of, first_from, all_from, turned_row, turned_edges, collect_loop, collected, is_stuck,
  is_yes,
}

read_at-flag : (bs : List Bool) (i : ℕ) (b : Bool) → read_at bs i ≡ ok b → flag bs i ≡ b
read_at-flag [] i b h = cc
read_at-flag (x ∷ bs) zero b h = cc
read_at-flag (x ∷ bs) (suc i) b h = read_at-flag bs i b h

pub read_at-row :
    {A : Type 0} (rows : List (List A)) (i : ℕ) (r : List A)
    → read_at rows i ≡ ok r
    → row_of rows i ≡ r
read_at-row [] i r h = cc
read_at-row (x ∷ rows) zero r h = cc
read_at-row (x ∷ rows) (suc i) r h = read_at-row rows i r h

modify_at-modify :
    {A : Type 0} (xs ys : List A) (i : ℕ) (f : A → A)
    → modify_at xs i f ≡ ok ys
    → modify xs i f ≡ ys
modify_at-modify [] ys i f h = cc
modify_at-modify (x ∷ xs) ys zero f h = ok-inj h
modify_at-modify (x ∷ xs) ys (suc i) f h =
    let (zs, a, b) = bind-ok (modify_at xs i f) (λ rest. ok (x ∷ rest)) ys h in
    ap (λ zs. x ∷ zs) (modify_at-modify xs zs i f a) ∙ ok-inj b

module _ {S : Type 0} where
  pub first_agrees :
      (test : ℕ → S → Result Bool) (plain : ℕ → S → Bool)
      → ((i : ℕ) (s : S) (b : Bool) → test i s ≡ ok b → plain i s ≡ b)
      → (k : ℕ) (ss : List S) (o : Option ℕ) → position_from test k ss ≡ ok o
      → first_from plain k ss ≡ o
  first_agrees test plain same k [] o h = ok-inj h
  first_agrees test plain same k (x ∷ ss) o h =
      let (b, a, g) =
        bind-ok (test k x) (λ hit. if hit then ok (some k) else position_from test (suc k) ss) o
          h in
      rw (same k x b a) (branch b (first_agrees test plain same (suc k) ss o) g)
    where
      branch :
          (b : Bool)
          → (position_from test (suc k) ss ≡ ok o → first_from plain (suc k) ss ≡ o)
          → (if b then ok (some k) else position_from test (suc k) ss) ≡ ok o
          → (if b then some k else first_from plain (suc k) ss) ≡ o
      branch true later g = ok-inj g
      branch false later g = later g

  pub all_agrees :
      (test : S → Result Bool) (k : ℕ) (ss : List S) (is : List ℕ)
      → indices_from test k ss ≡ ok is
      → all_from (λ s. is_yes (test s)) k ss ≡ is
  all_agrees test k [] is h = ok-inj h
  all_agrees test k (x ∷ ss) is h =
      let (b, a, g) =
        bind-ok (test x)
          (λ hit. indices_from test (suc k) ss >>= λ rest. ok (if hit then k ∷ rest else rest)) is
          h in
      let (rest, c, d) =
        bind-ok (indices_from test (suc k) ss) (λ rest. ok (if b then k ∷ rest else rest)) is g in
      rw (a, all_agrees test (suc k) ss rest c) (ok-inj d)

pub yes_ok : (r : Result Bool) (b : Bool) → r ≡ ok b → is_yes r ≡ b
yes_ok (ok x) b h = ok-inj h
yes_ok (err e) b h = cc
yes_ok panic b h = cc

pub no_ok : (r : Result Bool) (b : Bool) → negated r ≡ ok b → not (is_yes r) ≡ b
no_ok (ok x) b h = ok-inj h
no_ok (err e) b h = cc
no_ok panic b h = cc

-- A conjunction that is evaluated from the left.
and_agrees :
    (a b : Result Bool) (p q : Bool)
    → ((x : Bool) → a ≡ ok x → p ≡ x)
    → ((x : Bool) → b ≡ ok x → q ≡ x)
    → (x : Bool) → and_then a b ≡ ok x
    → (p && q) ≡ x
and_agrees (ok true) b p q f g x h = rw (f true refl) (g x h)
and_agrees (ok false) b p q f g x h = rw (f false refl) (ok-inj h)
and_agrees (err e) b p q f g x h = cc
and_agrees panic b p q f g x h = cc

module _ {S : Type 0} (sys : TransitionSystem S) (g : Graph S) where
  pub deadlock_agrees :
      (i : ℕ) (s : S) (b : Bool) → is_deadlock sys g i s ≡ ok b → is_stuck sys g i s ≡ b
  unfolding is_deadlock is_stuck
  deadlock_agrees i s b h =
      and_agrees (read_at g.processed i) _ (flag g.processed i) _
        (λ x e. read_at-flag g.processed i x e)
        (and_agrees (negated (read_at g.had_boundary i)) _ (not (flag g.had_boundary i)) _
          (negated_flag (read_at g.had_boundary i) (read_at-flag g.had_boundary i))
          (and_agrees (read_at g.edges i >>= λ row. ok (is_empty row)) _
            (is_empty (row_of g.edges i)) _ empty_row (λ x e. ok-inj e)))
        b h
    where
      negated_flag :
          {p : Bool} (r : Result Bool)
          → ((b : Bool) → r ≡ ok b → p ≡ b)
          → (x : Bool) → negated r ≡ ok x
          → not p ≡ x
      negated_flag (ok b) f x e = ap not (f b refl) ∙ ok-inj e
      negated_flag (err z) f x e = cc
      negated_flag panic f x e = cc

      empty_row :
          (x : Bool)
          → (read_at g.edges i >>= λ row. ok (is_empty row)) ≡ ok x
          → is_empty (row_of g.edges i) ≡ x
      empty_row x e =
          let (row, a, b) = bind-ok (read_at g.edges i) (λ row. ok (is_empty row)) x e in
          ap (λ (r : List (ℕ × StepLabel)). is_empty r) (read_at-row g.edges i row a) ∙ ok-inj b

turned_row-agrees :
    (i : ℕ) (es : List (ℕ × StepLabel)) (rev res : List (List ℕ))
    → reverse_row i es rev ≡ ok res
    → turned_row i es rev ≡ res
turned_row-agrees i [] rev res h = ok-inj h
turned_row-agrees i ((target, label) ∷ es) rev res h =
    let (next, a, b) =
      bind-ok (modify_at rev target (λ ps. ps ++ i ∷ [])) (λ next. reverse_row i es next) res h in
    rw (modify_at-modify rev next target (λ ps. ps ++ i ∷ []) a) (turned_row-agrees i es next res b)

turned_edges-agrees :
    (k : ℕ) (rows : List (List (ℕ × StepLabel))) (rev res : List (List ℕ))
    → reverse_edges k rows rev ≡ ok res
    → turned_edges k rows rev ≡ res
turned_edges-agrees k [] rev res h = ok-inj h
turned_edges-agrees k (row ∷ rows) rev res h =
    let (next, a, b) =
      bind-ok (reverse_row k row rev) (λ next. reverse_edges (suc k) rows next) res h in
    rw (turned_row-agrees k row rev next a) (turned_edges-agrees (suc k) rows next res b)

collect_loop-agrees :
    (f : ℕ) (rev : List (List ℕ)) (seen stack res : List ℕ)
    → reverse_loop f rev seen stack ≡ ok res
    → collect_loop f rev seen stack ≡ res
unfolding reverse_loop collect_loop
collect_loop-agrees zero rev seen stack res h = ok-inj h
collect_loop-agrees (suc f) rev seen [] res h = ok-inj h
collect_loop-agrees (suc f) rev seen (i ∷ stack) res h =
    let (row, a, b) =
      bind-ok (read_at rev i)
        (λ row. reverse_loop f rev (push_unseen row seen stack).0 (push_unseen row seen stack).1)
        res h in
    rw (read_at-row rev i row a) (
      collect_loop-agrees f rev (push_unseen row seen stack).0 (push_unseen row seen stack).1 res b)

pub collected-agrees :
    {S : Type 0} (g : Graph S) (roots res : List ℕ)
    → reverse_reachable g roots ≡ ok res
    → collected g roots ≡ res
unfolding reverse_reachable collected
collected-agrees g roots res h =
    let (rev, a, b) =
      bind-ok (reverse_edges 0 g.edges (empty_rows g.states))
        (λ rev. reverse_loop (suc (length g.states)) rev roots (reverse roots)) res h in
    rw (turned_edges-agrees 0 g.edges (empty_rows g.states) rev a)
      (collect_loop-agrees (suc (length g.states)) rev roots (reverse roots) res b)
