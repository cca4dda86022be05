-- ===== src/Sem/Value.antt =====
-- src/sem/value.rs: runtime values, their equality, the declared domains and the default values.
-- A float is its IEEE bit pattern, as the program compares and hashes it.
pub mod Equality
use conc_ir.Prelude.{
  ℕ, zero, suc, ◌==◌, ◌≡◌, refl, Bool, true, false, ◌&&◌, ◌||◌, Option, none, some, List, [], ◌∷◌,
  any, length, Ordering, if◌then◌else◌,
}
use conc_ir.Prelude.Int.{ℤ, pos, pos_part, eqb_ℤ, leb_ℤ, ltb_ℤ}
use conc_ir.Prelude.Text.{Str, ascii}
use conc_ir.Prelude.Map.{Key, same, list_key, nat_key}
use conc_ir.Sem.Outcome.{Result, ok, err, panic, ◌>>=◌}

-- A struct's fields stand in the order of their names, as in a `BTreeMap`.
mutual
  pub data Value : Type 0 where
    bool : Bool → Value
    int : ℤ → Value
    float : ℕ → Value
    str : Str → Value
    enum : Str → Value
    struct : Fields → Value
    array : Items → Value

  pub data Fields : Type 0 where
    no_fields : Fields
    field : Str → Value → Fields → Fields

  pub data Items : Type 0 where
    no_items : Items
    item : Value → Items → Items

-- `BaseType` of src/ast.rs.
mutual
  pub data BaseType : Type 0 where
    primitive : Str → BaseType
    bounded_int : ℤ → ℤ → BaseType
    enum_type : List Str → BaseType
    struct_type : FieldTypes → BaseType
    array_type : BaseType → ℤ → BaseType

  pub data FieldTypes : Type 0 where
    no_types : FieldTypes
    field_type : Str → BaseType → FieldTypes → FieldTypes

abbrev pub str_eq : Str → Str → Bool
str_eq a b = same a b

abbrev pub bool_eq : Bool → Bool → Bool
bool_eq true b = b
bool_eq false true = false
bool_eq false false = true

-- `PartialEq for Value`.
unfoldable mutual
  pub value_eq : Value → Value → Bool
  value_eq (bool a) (bool b) = bool_eq a b
  value_eq (int a) (int b) = eqb_ℤ a b
  value_eq (float a) (float b) = a == b
  value_eq (str a) (str b) = str_eq a b
  value_eq (enum a) (enum b) = str_eq a b
  value_eq (struct a) (struct b) = fields_eq a b
  value_eq (array a) (array b) = items_eq a b
  value_eq _ _ = false

  pub fields_eq : Fields → Fields → Bool
  fields_eq no_fields no_fields = true
  fields_eq (field k v fs) (field j w gs) = str_eq k j && (value_eq v w && fields_eq fs gs)
  fields_eq _ _ = false

  pub items_eq : Items → Items → Bool
  items_eq no_items no_items = true
  items_eq (item v xs) (item w ys) = value_eq v w && items_eq xs ys
  items_eq _ _ = false

unfoldable pub as_bool : Value → Option Bool
as_bool (bool b) = some b
as_bool _ = none

unfoldable pub as_int : Value → Option ℤ
as_int (int i) = some i
as_int _ = none

abbrev pub field_get : Str → Fields → Option Value
field_get k no_fields = none
field_get k (field j v fs) = if str_eq j k then some v else field_get k fs

-- `BTreeMap::insert`.
unfoldable pub field_insert : Str → Value → Fields → Fields
field_insert k v no_fields = field k v no_fields
field_insert k v (field j w fs) =
    let rest = field_insert k v fs in
    elim (list_key.cmp k j) [
      | Ordering.lt ↦ field k v (field j w fs)
      | Ordering.eq ↦ field k v fs
      | Ordering.gt ↦ field j w rest
    ]

abbrev pub fields_len : Fields → ℕ
fields_len no_fields = 0
fields_len (field k v fs) = suc (fields_len fs)

abbrev pub types_len : FieldTypes → ℕ
types_len no_types = 0
types_len (field_type k t ts) = suc (types_len ts)

abbrev pub items_len : Items → ℕ
items_len no_items = 0
items_len (item v xs) = suc (items_len xs)

abbrev pub every_item : (Value → Bool) → Items → Bool
every_item p no_items = true
every_item p (item v xs) = p v && every_item p xs

abbrev pub passes : (Value → Bool) → Option Value → Bool
passes p none = false
passes p (some v) = p v

abbrev pub is_bool : Value → Bool
is_bool (bool b) = true
is_bool _ = false

abbrev pub is_int : Value → Bool
is_int (int i) = true
is_int _ = false

abbrev pub is_float : Value → Bool
is_float (float f) = true
is_float _ = false

abbrev pub is_str : Value → Bool
is_str (str s) = true
is_str _ = false

unfoldable pub within_primitive : Str → Value → Bool
within_primitive p v =
    if str_eq p (ascii "Bool")
    then is_bool v
    else if str_eq p (ascii "Int")
    then is_int v
    else if str_eq p (ascii "Float")
    then is_float v
    else if str_eq p (ascii "String")
    then is_str v
    else true

abbrev pub within_bounds : ℤ → ℤ → Value → Bool
within_bounds lo hi (int i) = leb_ℤ lo i && leb_ℤ i hi
within_bounds lo hi _ = false

abbrev pub within_enum : List Str → Value → Bool
within_enum variants (enum e) = any (λ x. str_eq x e) variants
within_enum variants _ = false

-- The fields of a struct value; the items of an array value.
abbrev pub as_struct : Value → Option Fields
as_struct (struct m) = some m
as_struct _ = none

abbrev pub as_array : Value → Option Items
as_array (array xs) = some xs
as_array _ = none

abbrev pub passes_fields : (Fields → Bool) → Option Fields → Bool
passes_fields p none = false
passes_fields p (some m) = p m

abbrev pub passes_items : (Items → Bool) → Option Items → Bool
passes_items p none = false
passes_items p (some xs) = p xs

-- `within_type`, with the type first: the recursion is on it.
unfoldable mutual
  unfolding within_primitive

  pub within_type : BaseType → Value → Bool
  within_type (primitive p) v = within_primitive p v
  within_type (bounded_int lo hi) v = within_bounds lo hi v
  within_type (enum_type variants) v = within_enum variants v
  within_type (struct_type ts) v =
      passes_fields (λ m. (fields_len m == types_len ts) && within_fields ts m) (as_struct v)
  within_type (array_type elem len) v =
      passes_items (λ xs. (items_len xs == pos_part len) && every_item (within_type elem) xs)
        (as_array v)

  pub within_fields : FieldTypes → Fields → Bool
  within_fields no_types m = true
  within_fields (field_type k t ts) m = passes (within_type t) (field_get k m) && within_fields ts m

unfoldable pub default_primitive : Str → Value
default_primitive p =
    if str_eq p (ascii "Bool")
    then bool false
    else if str_eq p (ascii "Int")
    then int (pos 0)
    else if str_eq p (ascii "Float")
    then float 0
    else if str_eq p (ascii "String")
    then str []
    else int (pos 0)

abbrev pub first_or_empty : List Str → Str
first_or_empty [] = []
first_or_empty (v ∷ vs) = v

-- `0i64.clamp(lo, hi)`, which panics unless lo ≤ hi.
unfoldable pub clamp_zero : ℤ → ℤ → Result ℤ
clamp_zero lo hi =
    if ltb_ℤ hi lo
    then panic
    else ok (if ltb_ℤ (pos 0) lo then lo else if ltb_ℤ hi (pos 0) then hi else pos 0)

abbrev pub replicate_items : ℕ → Value → Items
replicate_items zero v = no_items
replicate_items (suc n) v = item v (replicate_items n v)

-- An array of no elements does not compute the default of its element type.
abbrev pub default_items : ℕ → Result Value → Result Items
default_items zero d = ok no_items
default_items (suc n) d = d >>= λ v. ok (replicate_items (suc n) v)

unfoldable mutual
  unfolding default_primitive clamp_zero

  pub default_value : BaseType → Result Value
  default_value (primitive p) = ok (default_primitive p)
  default_value (bounded_int lo hi) = clamp_zero lo hi >>= λ i. ok (int i)
  default_value (enum_type variants) = ok (enum (first_or_empty variants))
  default_value (struct_type ts) = default_fields ts >>= λ fs. ok (struct fs)
  default_value (array_type elem len) =
      default_items (pos_part len) (default_value elem) >>= λ xs. ok (array xs)

  pub default_fields : FieldTypes → Result Fields
  default_fields no_types = ok no_fields
  default_fields (field_type k t ts) =
      default_value t >>= λ v. default_fields ts >>= λ fs. ok (field k v fs)

in_domain :
    within_type
      (array_type (bounded_int (pos 1) (pos 3)) (pos 2))
      (array (item (int (pos 3)) (item (int (pos 1)) no_items)))
    ≡ true
unfolding within_type
in_domain = refl

default_array :
    default_value (array_type (bounded_int (pos 1) (pos 3)) (pos 2))
    ≡ ok (array (item (int (pos 1)) (item (int (pos 1)) no_items)))
unfolding default_value
default_array = refl
