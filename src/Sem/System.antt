-- ===== src/Sem/System.antt =====
-- src/sem/system.rs: the predicates of properties, and the interface of a transition system.
use conc_ir.Prelude.{ℕ, Bool, true, false, not, Option, none, some, List, Ordering}
use conc_ir.Prelude.Int.{cmp_ℤ}
use conc_ir.Prelude.Text.{Str}
use conc_ir.Prelude.Map.{nat_key, list_key}
use conc_ir.Sem.Outcome.{FunctionId, ResourceId, BoundaryEvent, StepLabel, Result}
use conc_ir.Sem.Value.{Value, bool, int, float, str, enum, value_eq}
use conc_ir.Sem.Eval.{CmpOp, eq, ne, Host, cmp_result}

mutual
  pub data Predicate : Type 0 where
    truth : Predicate
    falsity : Predicate
    var_eq : ResourceId → Value → Predicate
    var_cmp : ResourceId → CmpOp → Value → Predicate
    function_completed : FunctionId → Predicate
    function_completed_at_least : FunctionId → ℕ → Predicate
    scope_completed : FunctionId → ℕ → Predicate
    statement_reached : FunctionId → ℕ → Predicate
    mutex_free : ResourceId → Predicate
    mutex_held : ResourceId → Predicate
    holds_all : FunctionId → List ResourceId → Predicate
    mutex_exclusive : ResourceId → Predicate
    never_holds_all : FunctionId → List ResourceId → Predicate
    channel_empty : ResourceId → Predicate
    channel_at_least : ResourceId → ℕ → Predicate
    negation : Predicate → Predicate
    conjunction : Predicates → Predicate
    disjunction : Predicates → Predicate

  pub data Predicates : Type 0 where
    no_predicates : Predicates
    predicate : Predicate → Predicates → Predicates

pub record Step (S : Type 0) : Type 0 where
  pub label : StepLabel
  pub state : S

pub record Enabled (S : Type 0) : Type 0 where
  pub steps : List (Step S)
  pub boundary : List BoundaryEvent

-- `trait TransitionSystem`, without the renderings and the records for diagnostics.
pub record TransitionSystem (S : Type 0) : Type 0 where
  pub initial : Result S
  pub successors : S → Result (Enabled S)
  pub is_finished : S → Bool
  pub satisfied : S → Predicate → Result Bool
  pub state_key : S → Str

abbrev pub cmp_bool : Bool → Bool → Ordering
cmp_bool false false = Ordering.eq
cmp_bool false true = Ordering.lt
cmp_bool true false = Ordering.gt
cmp_bool true true = Ordering.eq

abbrev pub incomparable : CmpOp → Value → Value → Option Bool
incomparable eq l r = some (value_eq l r)
incomparable ne l r = some (not (value_eq l r))
incomparable op l r = none

abbrev pub decide_cmp : CmpOp → Option Ordering → Option Bool
decide_cmp op none = none
decide_cmp op (some o) = some (cmp_result op o)

unfoldable pub compare_values : Host → CmpOp → Value → Value → Option Bool
unfolding cmp_result
compare_values host op (int a) (int b) = decide_cmp op (some (cmp_ℤ a b))
compare_values host op (float a) (float b) = decide_cmp op (host.float_cmp a b)
compare_values host op (str a) (str b) = decide_cmp op (some (list_key.cmp a b))
compare_values host op (enum a) (enum b) = decide_cmp op (some (list_key.cmp a b))
compare_values host op (bool a) (bool b) = decide_cmp op (some (cmp_bool a b))
compare_values host op l r = incomparable op l r
