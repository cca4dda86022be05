-- ===== src/Interp/Completions.antt =====
-- src/interp/exec.rs: what the saturating count of completions tells a predicate.
use conc_ir.Prelude.{
  ℕ, zero, suc, ◌+◌, ◌==◌, ◌≤◌, ◌≡◌, refl, ap, ◌∙◌, ltb, leb, Bool, true, false, List, In,
  if◌then◌else◌, arith,
}
use Prim.Native.Nat.{min}
use conc_ir.Prelude.Map.{get, insert, get-insert_self, nat_key}
use conc_ir.Sem.Outcome.{FunctionId, ok}
use conc_ir.Sem.Monitor.{get_or, max_for, from_predicates}
use conc_ir.Sem.Monitor.Saturation.{Asks, max_for-from_predicates}
use conc_ir.Sem.System.{Predicate, function_completed_at_least}
use conc_ir.Interp.State.{MachineState}
use conc_ir.Interp.Access.{Interpreter, record_completion}
use conc_ir.Interp.Machine.{satisfied}

-- The state after `k` completions of a function.
unfoldable pub completions : Interpreter → FunctionId → ℕ → MachineState → MachineState
completions it f zero s = s
completions it f (suc k) s = record_completion it f (completions it f k s)

abbrev pub count_of : FunctionId → MachineState → ℕ
count_of f s = get_or (get f s.completed_functions) 0

record_counts :
    (it : Interpreter) (f : FunctionId) (s : MachineState) (k : ℕ)
    → count_of f s ≡ min k (max_for it.monitor f)
    → count_of f (record_completion it f s) ≡ min (suc k) (max_for it.monitor f)
unfolding record_completion
record_counts it f s k h = known (max_for it.monitor f == 0) refl
  where
    next : (c most : ℕ) → c ≡ min k most → (if ltb c most then c + 1 else c) ≡ min (suc k) most
    next c most e = ground arith

    nothing : (c most : ℕ) → (most == 0) ≡ true → c ≡ min k most → c ≡ min (suc k) most
    nothing c most z e = ground arith

    known :
        (b : Bool)
        → (max_for it.monitor f == 0) ≡ b
        → count_of f (
            if b then s else record s {
              completed_functions =
                  insert f
                    (if ltb (count_of f s) (max_for it.monitor f)
                      then count_of f s + 1
                      else count_of f s)
                    s.completed_functions;
            })
          ≡ min (suc k) (max_for it.monitor f)
    known true z = nothing (count_of f s) (max_for it.monitor f) z h
    known false z =
        ap (λ o. get_or o 0)
          (get-insert_self f
            (if ltb (count_of f s) (max_for it.monitor f) then count_of f s + 1 else count_of f s)
            s.completed_functions)
        ∙ next (count_of f s) (max_for it.monitor f) h

count_completions :
    (it : Interpreter) (f : FunctionId) (k : ℕ) (s : MachineState)
    → count_of f s ≡ 0
    → count_of f (completions it f k s) ≡ min k (max_for it.monitor f)
unfolding completions
count_completions it f zero s h = rw (h) (omega arith)
count_completions it f (suc k) s h =
    record_counts it f (completions it f k s) k (count_completions it f k s h)

-- Where the monitor is made from the predicates of a contract, and one of them asks whether a
-- function completed `n` times, that is answered by the saturated count as by the number of
-- completions: after `k` of them, from none, it holds exactly when `n ≤ k`.
pub satisfied-completions :
    (it : Interpreter) (ps : List Predicate) (p : Predicate) (f n k : ℕ) (s : MachineState)
    → it.monitor ≡ from_predicates ps
    → In p ps
    → Asks f n p
    → count_of f s ≡ 0
    → satisfied it (completions it f k s) (function_completed_at_least f n) ≡ ok (leb n k)
unfolding satisfied
satisfied-completions it ps p f n k s m i a h =
    rw (count_completions it f k s h) (ap (λ b. ok b) (decided (max_for it.monitor f) far))
  where
    far : n ≤ max_for it.monitor f
    far = rw (m) (max_for-from_predicates ps p f n i a)

    decided : (max : ℕ) → n ≤ max → leb n (min k max) ≡ leb n k
    decided max le = ground arith
