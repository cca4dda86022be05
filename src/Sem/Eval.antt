-- ===== src/Sem/Eval.antt =====
-- src/sem/eval.rs: lowered expressions and their evaluation, with the operators of src/expr.rs.
-- Arithmetic on floats and the parser of decimal numbers belong to the host, and are its parameters.
use conc_ir.Prelude.{ℕ, Bool, true, false, not, Option, none, some, Ordering, if◌then◌else◌}
use conc_ir.Prelude.Int.{ℤ, pos, ◌+ℤ◌, ◌-ℤ◌, ◌*ℤ◌, quot, rem, in_i64, fits, cmp_ℤ, eqb_ℤ}
use conc_ir.Prelude.Text.{Str}
use conc_ir.Sem.Outcome.{
  SlotId, ResourceId, SlotRef, local, shared, discard, Result, ok, err, ◌>>=◌, ok_or, invalid_error,
  e900, e901, e902, e931, e932, e933,
}
use conc_ir.Sem.Value.{Value, Fields, no_fields, value_eq, field_get, field_insert}

pub data BinOp : Type 0 where
  add sub mul div modulo : BinOp

pub data CmpOp : Type 0 where
  eq ne lt le gt ge : CmpOp

pub data Lit : Type 0 where
  bool : Bool → Lit
  int : ℤ → Lit
  float : ℕ → Lit
  string : Str → Lit
  enum : Str → Lit

mutual
  pub data LExpr : Type 0 where
    lit : Lit → LExpr
    slot : SlotRef → LExpr
    field_of : LExpr → Str → LExpr
    neg : LExpr → LExpr
    bin : BinOp → LExpr → LExpr → LExpr
    cmp : CmpOp → LExpr → LExpr → LExpr
    struct_of : LFields → LExpr

  pub data LFields : Type 0 where
    no_exprs : LFields
    expr : Str → LExpr → LFields → LFields

-- What the language and the standard library compute: f64 operations on bit patterns, and
-- `str::parse::<i64>`.
pub record Host : Type 0 where
  pub float_neg : ℕ → ℕ
  pub float_bin : BinOp → ℕ → ℕ → ℕ
  pub float_cmp : ℕ → ℕ → Option Ordering
  pub parse_i64 : Str → Option ℤ

-- `trait ValueStore`.
pub record ValueStore : Type 0 where
  pub get_slot : SlotId → Option Value
  pub get_shared : ResourceId → Option Value

unfoldable pub lit_value : Lit → Value
lit_value (Lit.bool b) = Value.bool b
lit_value (Lit.int i) = Value.int i
lit_value (Lit.float f) = Value.float f
lit_value (Lit.string s) = Value.str s
lit_value (Lit.enum e) = Value.enum e

-- `checked_div` and `checked_rem` of a divisor other than 0: the quotient may not fit.
unfoldable pub checked : BinOp → ℤ → ℤ → Option ℤ
checked add a b = fits (a +ℤ b)
checked sub a b = fits (a -ℤ b)
checked mul a b = fits (a *ℤ b)
checked div a b = fits (quot a b)
checked modulo a b = if in_i64 (quot a b) then some (rem a b) else none

abbrev pub divides : BinOp → Bool
divides div = true
divides modulo = true
divides _ = false

abbrev pub checked_value : Option ℤ → Result Value
checked_value none = err (invalid_error e901)
checked_value (some i) = ok (Value.int i)

unfoldable pub int_bin : BinOp → ℤ → ℤ → Result Value
int_bin op a b =
    if divides op
    then (if eqb_ℤ b (pos 0) then err (invalid_error e902) else checked_value (checked op a b))
    else checked_value (checked op a b)

unfoldable pub eval_bin : Host → BinOp → Value → Value → Result Value
unfolding int_bin
eval_bin host op (Value.int a) (Value.int b) = int_bin op a b
eval_bin host op (Value.float a) (Value.float b) = ok (Value.float (host.float_bin op a b))
eval_bin host op l r = err (invalid_error e932)

abbrev pub is_eq : Ordering → Bool
is_eq Ordering.eq = true
is_eq _ = false

abbrev pub is_lt : Ordering → Bool
is_lt Ordering.lt = true
is_lt _ = false

abbrev pub is_gt : Ordering → Bool
is_gt Ordering.gt = true
is_gt _ = false

unfoldable pub cmp_result : CmpOp → Ordering → Bool
cmp_result eq o = is_eq o
cmp_result ne o = not (is_eq o)
cmp_result lt o = is_lt o
cmp_result le o = not (is_gt o)
cmp_result gt o = is_gt o
cmp_result ge o = not (is_lt o)

-- Floats that do not compare make every comparison false.
unfoldable pub ordered : CmpOp → Option Ordering → Bool
unfolding cmp_result
ordered op none = false
ordered op (some o) = cmp_result op o

unfoldable pub unordered : CmpOp → Value → Value → Result Value
unordered eq l r = ok (Value.bool (value_eq l r))
unordered ne l r = ok (Value.bool (not (value_eq l r)))
unordered op l r = err (invalid_error e932)

unfoldable pub eval_cmp : Host → CmpOp → Value → Value → Result Value
unfolding ordered unordered
eval_cmp host op (Value.int a) (Value.int b) = ok (Value.bool (ordered op (some (cmp_ℤ a b))))
eval_cmp host op (Value.float a) (Value.float b) = ok (Value.bool (ordered op (host.float_cmp a b)))
eval_cmp host op l r = unordered op l r

unfoldable pub project : Str → Value → Result Value
project name (Value.struct fs) = ok_or (field_get name fs) (invalid_error e933)
project name v = err (invalid_error e933)

unfoldable pub eval_neg : Host → Value → Result Value
eval_neg host (Value.int i) = checked_value (fits (pos 0 -ℤ i))
eval_neg host (Value.float f) = ok (Value.float (host.float_neg f))
eval_neg host v = err (invalid_error e932)

unfoldable pub eval_slot : ValueStore → SlotRef → Result Value
eval_slot store discard = err (invalid_error e931)
eval_slot store (local s) = ok_or (store.get_slot s) (invalid_error e900)
eval_slot store (shared r) = ok_or (store.get_shared r) (invalid_error e900)

-- `out` is the struct value built so far.
unfoldable mutual
  unfolding lit_value eval_slot project eval_neg eval_bin eval_cmp field_insert

  pub eval : LExpr → Host → ValueStore → Result Value
  eval (lit l) host store = ok (lit_value l)
  eval (slot s) host store = eval_slot store s
  eval (field_of base name) host store = eval base host store >>= project name
  eval (neg e) host store = eval e host store >>= eval_neg host
  eval (bin op lhs rhs) host store =
      eval lhs host store >>= λ l. eval rhs host store >>= λ r. eval_bin host op l r
  eval (cmp op lhs rhs) host store =
      eval lhs host store >>= λ l. eval rhs host store >>= λ r. eval_cmp host op l r
  eval (struct_of fs) host store = eval_fields fs no_fields host store >>= λ m. ok (Value.struct m)

  pub eval_fields : LFields → Fields → Host → ValueStore → Result Fields
  eval_fields no_exprs out host store = ok out
  eval_fields (expr k e es) out host store =
      eval e host store >>= λ v. eval_fields es (field_insert k v out) host store
