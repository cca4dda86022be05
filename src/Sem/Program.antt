-- ===== src/Sem/Program.antt =====
-- src/sem/program.rs: the resolved program, whose names are typed identifiers. Lowering from the
-- syntax tree is not modelled: a `SemProgram` is the input of the backend.
use conc_ir.Prelude.{ℕ, Bool, true, false, ◌&&◌, not, Option, none, some, List, get_elem?}
use conc_ir.Prelude.Int.{ℤ}
use conc_ir.Prelude.Text.{Str}
use conc_ir.Prelude.Map.{Map, get, nat_key}
use conc_ir.Sem.Outcome.{
  FunctionId, ModuleId, ResourceId, SlotRef, Unsupported, Result, ok, ◌>>=◌, unwrap,
}
use conc_ir.Sem.Value.{Value, BaseType}
use conc_ir.Sem.Eval.{LExpr}

pub data ResKind : Type 0 where
  var atomic mutex rw_lock condvar semaphore channel : ResKind

pub record SemResource : Type 0 where
  pub id : ResourceId
  pub module_id : ModuleId
  pub name : Str
  pub kind : ResKind
  pub ty : Option BaseType
  pub capacity : ℕ
  pub permits : ℤ
  pub init : Option Value
  pub mode : Option Str

pub data SlotClass : Type 0 where
  param local return : SlotClass

pub record SemSlot : Type 0 where
  pub name : Str
  pub ty : BaseType
  pub modeled : Bool
  pub class : SlotClass
  pub init : Option Value

pub data SemOp : Type 0 where
  nop : SemOp
  assign_local : SlotRef → LExpr → SemOp
  read_shared : ResourceId → Option SlotRef → SemOp
  write_shared : ResourceId → LExpr → SemOp
  atomic_load : ResourceId → SlotRef → SemOp
  atomic_store : ResourceId → LExpr → SemOp
  atomic_cas : ResourceId → LExpr → LExpr → SlotRef → SemOp
  mutex_lock : ResourceId → SemOp
  mutex_unlock : ResourceId → SemOp
  channel_send : ResourceId → LExpr → SemOp
  channel_recv : ResourceId → SlotRef → SemOp
  condvar_wait : ResourceId → ResourceId → SemOp
  condvar_notify : ResourceId → SemOp
  condvar_notify_all : ResourceId → SemOp
  semaphore_acquire : ResourceId → ℤ → SemOp
  semaphore_release : ResourceId → ℤ → SemOp
  call : FunctionId → List LExpr → Option SlotRef → SemOp
  spawn : FunctionId → Str → SemOp
  scope : List FunctionId → SemOp
  join : Str → SemOp
  goto : ℕ → SemOp
  branch : LExpr → ℕ → ℕ → SemOp
  switch : LExpr → Map Str ℕ → ℕ → SemOp
  return : Option LExpr → SemOp
  unsupported_op : Str → SemOp

pub record SemStmt : Type 0 where
  pub id : ℕ
  pub sid : Str
  pub op : SemOp

pub record SemFunction : Type 0 where
  pub id : FunctionId
  pub module_id : ModuleId
  pub name : Str
  pub kind : Str
  pub is_nobody : Bool
  pub effects_empty : Bool
  pub may_block : Option Bool
  pub params : List SemSlot
  pub returns : Option SemSlot
  pub slots : List SemSlot
  pub body : List SemStmt
  pub sid_to_idx : Map Str ℕ
  pub requires_held : List ResourceId
  pub num_modeled_params : ℕ
  pub bound : Option ℤ

abbrev pub is_some_true : Option Bool → Bool
is_some_true (some true) = true
is_some_true _ = false

abbrev pub is_none {ℓ} : {A : Type ℓ} → Option A → Bool
is_none none = true
is_none (some a) = false

unfoldable pub is_transparent_nobody : SemFunction → Bool
is_transparent_nobody f =
    f.is_nobody && (f.effects_empty && (is_none f.returns && not (is_some_true f.may_block)))

pub record SemProgram : Type 0 where
  pub module_names : List Str
  pub functions : List SemFunction
  pub resources : List SemResource
  pub protection : Map ResourceId ResourceId
  pub entry : FunctionId
  pub unsupported : List Unsupported

-- Indexing panics out of range.
unfoldable pub function : SemProgram → FunctionId → Result SemFunction
function p f = unwrap (get_elem? p.functions f)

unfoldable pub resource : SemProgram → ResourceId → Result SemResource
resource p r = unwrap (get_elem? p.resources r)

unfoldable pub entry_module : SemProgram → Result ModuleId
unfolding function
entry_module p = do f ← function p p.entry; ok f.module_id

unfoldable pub protection_lock : SemProgram → ResourceId → Option ResourceId
protection_lock p v = get v p.protection
