-- ===== src/Sem/Monitor/Saturation.antt =====
-- src/sem/monitor.rs: the counts that the predicates of a contract can tell apart are kept.
use conc_ir.Prelude.{
  ℕ, ◌≤◌, ◌≡◌, sym, ◌⊎◌, inl, inr, true, false, Bool-cases, List, [], ◌∷◌, In, subst, arith,
}
use Prim.Native.Nat.{max}
use conc_ir.Prelude.Map.{Map, get, insert, get-insert, same, same_self, same_sound, nat_key}
use conc_ir.Sem.Outcome.{FunctionId}
use conc_ir.Sem.System.{
  Predicate, truth, falsity, var_eq, var_cmp, function_completed, function_completed_at_least,
  scope_completed, statement_reached, mutex_free, mutex_held, holds_all, mutex_exclusive,
  never_holds_all, channel_empty, channel_at_least, negation, conjunction, disjunction, Predicates,
  no_predicates, predicate,
}
use conc_ir.Sem.Monitor.{
  get_or, max_for, raise_to, collect, collect_all, collect_list, from_predicates,
}

-- The predicate asks whether the function completed `n` times.
unfoldable mutual
  pub Asks : FunctionId → ℕ → Predicate → Type 0
  Asks f n (function_completed g) = (g ≡ f) × (n ≡ 1)
  Asks f n (function_completed_at_least g k) = (g ≡ f) × (n ≡ k)
  Asks f n (negation p) = Asks f n p
  Asks f n (conjunction ps) = AsksSome f n ps
  Asks f n (disjunction ps) = AsksSome f n ps
  Asks f n _ = ⊥

  pub AsksSome : FunctionId → ℕ → Predicates → Type 0
  AsksSome f n no_predicates = ⊥
  AsksSome f n (predicate p ps) = Asks f n p ⊎ AsksSome f n ps

abbrev counted_to : FunctionId → Map FunctionId ℕ → ℕ
counted_to f out = get_or (get f out) 0

raise_grows :
    (g n f : ℕ) (out : Map FunctionId ℕ) → counted_to f out ≤ counted_to f (raise_to g n out)
unfolding raise_to
raise_grows g n f out = elim (Bool-cases (same g f)) [ inl t ↦ at_same t | inr e ↦ at_other e ]
  where
    at_same :
        same g f ≡ true → counted_to f out ≤ counted_to f (insert g (max (counted_to g out) n) out)
    at_same t =
        rw (get-insert g f (max (counted_to g out) n) out, t, same_sound g f t) (omega arith)

    at_other :
        same g f ≡ false → counted_to f out ≤ counted_to f (insert g (max (counted_to g out) n) out)
    at_other e = rw (get-insert g f (max (counted_to g out) n) out, e) (omega arith)

raise_reaches : (g n : ℕ) (out : Map FunctionId ℕ) → n ≤ counted_to g (raise_to g n out)
unfolding raise_to
raise_reaches g n out =
    rw (get-insert g g (max (counted_to g out) n) out, same_self g) (omega arith)

mutual
  unfolding collect

  collect_grows :
      (p : Predicate) (f : ℕ) (out : Map FunctionId ℕ)
      → counted_to f out ≤ counted_to f (collect p out)
  collect_grows (function_completed g) f out = raise_grows g 1 f out
  collect_grows (function_completed_at_least g n) f out = raise_grows g n f out
  collect_grows (negation p) f out = collect_grows p f out
  collect_grows (conjunction ps) f out = collect_all_grows ps f out
  collect_grows (disjunction ps) f out = collect_all_grows ps f out
  collect_grows truth f out = omega arith
  collect_grows falsity f out = omega arith
  collect_grows (var_eq r v) f out = omega arith
  collect_grows (var_cmp r o v) f out = omega arith
  collect_grows (scope_completed g n) f out = omega arith
  collect_grows (statement_reached g n) f out = omega arith
  collect_grows (mutex_free r) f out = omega arith
  collect_grows (mutex_held r) f out = omega arith
  collect_grows (holds_all g rs) f out = omega arith
  collect_grows (mutex_exclusive r) f out = omega arith
  collect_grows (never_holds_all g rs) f out = omega arith
  collect_grows (channel_empty r) f out = omega arith
  collect_grows (channel_at_least r n) f out = omega arith

  collect_all_grows :
      (ps : Predicates) (f : ℕ) (out : Map FunctionId ℕ)
      → counted_to f out ≤ counted_to f (collect_all ps out)
  collect_all_grows no_predicates f out = omega arith
  collect_all_grows (predicate p ps) f out =
      let a = collect_grows p f out in let b = collect_all_grows ps f (collect p out) in omega arith

mutual
  unfolding collect Asks

  collect_reaches :
      (p : Predicate) (f n : ℕ) (out : Map FunctionId ℕ)
      → Asks f n p
      → n ≤ counted_to f (collect p out)
  collect_reaches (function_completed g) f n out (e, k) =
      subst (λ x. n ≤ counted_to x (raise_to g 1 out)) e (rw (k) (raise_reaches g 1 out))
  collect_reaches (function_completed_at_least g m) f n out (e, k) =
      subst (λ x. n ≤ counted_to x (raise_to g m out)) e (rw (k) (raise_reaches g m out))
  collect_reaches (negation p) f n out a = collect_reaches p f n out a
  collect_reaches (conjunction ps) f n out a = collect_all_reaches ps f n out a
  collect_reaches (disjunction ps) f n out a = collect_all_reaches ps f n out a
  collect_reaches truth f n out a = absurd a
  collect_reaches falsity f n out a = absurd a
  collect_reaches (var_eq r v) f n out a = absurd a
  collect_reaches (var_cmp r o v) f n out a = absurd a
  collect_reaches (scope_completed g m) f n out a = absurd a
  collect_reaches (statement_reached g m) f n out a = absurd a
  collect_reaches (mutex_free r) f n out a = absurd a
  collect_reaches (mutex_held r) f n out a = absurd a
  collect_reaches (holds_all g rs) f n out a = absurd a
  collect_reaches (mutex_exclusive r) f n out a = absurd a
  collect_reaches (never_holds_all g rs) f n out a = absurd a
  collect_reaches (channel_empty r) f n out a = absurd a
  collect_reaches (channel_at_least r m) f n out a = absurd a

  collect_all_reaches :
      (ps : Predicates) (f n : ℕ) (out : Map FunctionId ℕ)
      → AsksSome f n ps
      → n ≤ counted_to f (collect_all ps out)
  collect_all_reaches no_predicates f n out a = absurd a
  collect_all_reaches (predicate p ps) f n out (inl a) =
      let x = collect_reaches p f n out a in
      let y = collect_all_grows ps f (collect p out) in omega arith
  collect_all_reaches (predicate p ps) f n out (inr a) =
      collect_all_reaches ps f n (collect p out) a

list_grows :
    (ps : List Predicate) (f : ℕ) (out : Map FunctionId ℕ)
    → counted_to f out ≤ counted_to f (collect_list ps out)
unfolding collect_list
list_grows [] f out = omega arith
list_grows (p ∷ ps) f out =
    let a = collect_grows p f out in let b = list_grows ps f (collect p out) in omega arith

list_reaches :
    (ps : List Predicate) (p : Predicate) (f n : ℕ) (out : Map FunctionId ℕ)
    → In p ps
    → Asks f n p
    → n ≤ counted_to f (collect_list ps out)
unfolding collect_list
list_reaches [] p f n out i a = absurd i
list_reaches (q ∷ ps) p f n out (inl e) a =
    let x = collect_reaches q f n out (subst (Asks f n) (sym e) a) in
    let y = list_grows ps f (collect q out) in omega arith
list_reaches (q ∷ ps) p f n out (inr i) a = list_reaches ps p f n (collect q out) i a

-- Completions of a function are counted at least up to each number that a predicate asks for.
pub max_for-from_predicates :
    (ps : List Predicate) (p : Predicate) (f n : ℕ)
    → In p ps
    → Asks f n p
    → n ≤ max_for (from_predicates ps) f
unfolding max_for from_predicates
max_for-from_predicates ps p f n i a = list_reaches ps p f n [] i a
