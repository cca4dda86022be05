-- ===== src/Explore/Contract.antt =====
-- The resolved contract of src/explore/contract.rs: properties and preserved behaviour. The name, the
-- assumptions, the patch scope and the symbolic source of a contract play no part in a search.
use conc_ir.Prelude.{List}
use conc_ir.Prelude.Text.{Str}
use conc_ir.Sem.Outcome.{AnalysisBounds}
use conc_ir.Sem.System.{Predicate}

pub data Property : Type 0 where
  safety : Predicate → Property
  unreachable : Predicate → Property
  deadlock_free : Property
  reachability : Predicate → Property
  always_reachable : Predicate → Property

pub data Preserved : Type 0 where
  reachable : Predicate → Preserved
  always : Predicate → Preserved

pub record PropertySpecResolved : Type 0 where
  pub id : Str
  pub property : Property

pub record PreservedBehavior : Type 0 where
  pub description : Str
  pub behavior : Preserved

pub record VerificationContract : Type 0 where
  pub properties : List PropertySpecResolved
  pub preserved : List PreservedBehavior
  pub bounds : AnalysisBounds
