-- ===== src/Sem/Monitor.antt =====
-- src/sem/monitor.rs: how far completions of a function are counted.
pub mod Saturation
use conc_ir.Prelude.{ℕ, ◌-◌, ◌^◌, Option, none, some, List, [], ◌∷◌}
use Prim.Native.Nat.{max}
use conc_ir.Prelude.Map.{Map, get, insert, nat_key}
use conc_ir.Sem.Outcome.{FunctionId}
use conc_ir.Sem.System.{
  Predicate, function_completed, function_completed_at_least, negation, conjunction, disjunction,
  Predicates, no_predicates, predicate,
}

pub record MonitorConfig : Type 0 where
  pub default_max : ℕ
  pub saturate : Map FunctionId ℕ

-- `usize::MAX` of a 64-bit host.
abbrev pub usize_max : ℕ
usize_max = 2 ^ 64 - 1

unfoldable pub unbounded : MonitorConfig
unbounded = record { default_max = usize_max; saturate = [] }

unfoldable pub finite : Map FunctionId ℕ → MonitorConfig
finite per_function = record { default_max = 0; saturate = per_function }

abbrev pub get_or : Option ℕ → ℕ → ℕ
get_or none d = d
get_or (some n) d = n

unfoldable pub max_for : MonitorConfig → FunctionId → ℕ
max_for c f = get_or (get f c.saturate) c.default_max

-- `*out.entry(f).or_insert(0) = max(…, n)`.
unfoldable pub raise_to : FunctionId → ℕ → Map FunctionId ℕ → Map FunctionId ℕ
raise_to f n out = insert f (max (get_or (get f out) 0) n) out

unfoldable mutual
  unfolding raise_to

  pub collect : Predicate → Map FunctionId ℕ → Map FunctionId ℕ
  collect (function_completed f) out = raise_to f 1 out
  collect (function_completed_at_least f n) out = raise_to f n out
  collect (negation p) out = collect p out
  collect (conjunction ps) out = collect_all ps out
  collect (disjunction ps) out = collect_all ps out
  collect _ out = out

  pub collect_all : Predicates → Map FunctionId ℕ → Map FunctionId ℕ
  collect_all no_predicates out = out
  collect_all (predicate p ps) out = collect_all ps (collect p out)

unfoldable pub collect_list : List Predicate → Map FunctionId ℕ → Map FunctionId ℕ
unfolding collect
collect_list [] out = out
collect_list (p ∷ ps) out = collect_list ps (collect p out)

unfoldable pub from_predicates : List Predicate → MonitorConfig
unfolding collect_list finite
from_predicates ps = finite (collect_list ps [])
