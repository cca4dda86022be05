-- ===== src/Sem/Value/Equality.antt =====
-- `PartialEq for Value` decides equality.
use conc_ir.Prelude.{◌≡◌, refl, ◌↔◌, Bool, true, ◌&&◌, arith, ==_iff, ap}
use conc_ir.Prelude.Int.{eqb_ℤ_iff}
use conc_ir.Prelude.Map.{nat_key, list_key, same_sound, same_self}
use conc_ir.Sem.Value.{
  Value, bool, int, float, str, enum, struct, array, Fields, no_fields, field, Items, no_items,
  item, bool_eq, str_eq, value_eq, fields_eq, items_eq,
}

bool_eq_sound : (a b : Bool) → bool_eq a b ≡ true → a ≡ b
bool_eq_sound a b h = ground arith

bool_eq_refl : (a : Bool) → bool_eq a a ≡ true
bool_eq_refl a = ground arith

both : (a b : Bool) → (a && b) ≡ true → (a ≡ true) × (b ≡ true)
both a b h = ground arith

mutual
  unfolding value_eq

  sound : (v w : Value) → value_eq v w ≡ true → v ≡ w
  sound (bool a) (bool b) h = ap bool (bool_eq_sound a b h)
  sound (int a) (int b) h = ap int ((eqb_ℤ_iff a b).0 h)
  sound (float a) (float b) h = ap float ((==_iff a b).0 h)
  sound (str a) (str b) h = ap str (same_sound a b h)
  sound (enum a) (enum b) h = ap enum (same_sound a b h)
  sound (struct a) (struct b) h = ap struct (sound_fields a b h)
  sound (array a) (array b) h = ap array (sound_items a b h)
  sound _ _ h = cc

  sound_fields : (v w : Fields) → fields_eq v w ≡ true → v ≡ w
  sound_fields no_fields no_fields h = refl
  sound_fields (field k v fs) (field j w gs) h =
      let (p, q) = both (str_eq k j) (value_eq v w && fields_eq fs gs) h in
      let (r, s) = both (value_eq v w) (fields_eq fs gs) q in
      cc (same_sound k j p, sound v w r, sound_fields fs gs s)
  sound_fields _ _ h = cc

  sound_items : (v w : Items) → items_eq v w ≡ true → v ≡ w
  sound_items no_items no_items h = refl
  sound_items (item v xs) (item w ys) h =
      let (r, s) = both (value_eq v w) (items_eq xs ys) h in cc (sound v w r, sound_items xs ys s)
  sound_items _ _ h = cc

mutual
  unfolding value_eq

  reflexive : (v : Value) → value_eq v v ≡ true
  reflexive (bool a) = bool_eq_refl a
  reflexive (int a) = (eqb_ℤ_iff a a).1 refl
  reflexive (float a) = (==_iff a a).1 refl
  reflexive (str a) = same_self a
  reflexive (enum a) = same_self a
  reflexive (struct a) = reflexive_fields a
  reflexive (array a) = reflexive_items a

  reflexive_fields : (v : Fields) → fields_eq v v ≡ true
  reflexive_fields no_fields = refl
  reflexive_fields (field k v fs) = cc (same_self k, reflexive v, reflexive_fields fs)

  reflexive_items : (v : Items) → items_eq v v ≡ true
  reflexive_items no_items = refl
  reflexive_items (item v xs) = cc (reflexive v, reflexive_items xs)

-- The comparison of two values answers true exactly when they are equal, at every depth.
pub value_eq_iff : (v w : Value) → (value_eq v w ≡ true) ↔ (v ≡ w)
value_eq_iff v w = (sound v w, λ e. rw (← e) (reflexive v))
