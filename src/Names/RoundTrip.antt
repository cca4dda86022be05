-- ===== src/Names/RoundTrip.antt =====
-- src/fqn.rs: joining names and splitting them are inverse to each other.
use conc_ir.Prelude.{
  ℕ, ◌==◌, ==_iff, ◌≡◌, refl, ap, ◌∙◌, Bool, true, false, ◌&&◌, ◌||◌, not, Option, none, some, [],
  ◌∷◌, ◌++◌, every, is_empty, if◌then◌else◌, arith,
}
use conc_ir.Prelude.Text.{Str}
use conc_ir.Interp.State.{is_some}
use conc_ir.Names.{
  is_alpha, is_digit, is_word, is_ident, fqn, strip_sep, cons_first, split_here, split_once,
  checked_parts, split_fqn, is_fqn, location, last_dot, rsplit_once, with_sid, split_before,
  split_location, qualify,
}

ident_word : (s : Str) → is_ident s ≡ true → every is_word s ≡ true
unfolding is_ident is_word
ident_word [] h = cc
ident_word (c ∷ s) h = ground arith

word_no_colon : (c : ℕ) → is_word c ≡ true → (c == b':') ≡ false
unfolding is_word is_alpha is_digit
word_no_colon c h = ground arith

strip_word : (c : ℕ) (s : Str) → is_word c ≡ true → strip_sep c s ≡ none
strip_word c [] h = refl
strip_word c (d ∷ s) h = ground (arith, word_no_colon c h)

split_word : (c : ℕ) (s : Str) → is_word c ≡ true → split_once (c ∷ s) ≡ cons_first c (split_once s)
unfolding split_once
split_word c s h = rw (strip_word c s h) refl

-- A word has no separator, and the separator behind a word is the first one.
split_once-word : (s : Str) → every is_word s ≡ true → split_once s ≡ none
unfolding split_once
split_once-word [] h = refl
split_once-word (c ∷ s) h =
    split_word c s (ground arith) ∙ ap (cons_first c) (split_once-word s (ground arith))

split_once-fqn :
    (m e : Str) → every is_word m ≡ true → split_once (m ++ b':' ∷ b':' ∷ e) ≡ some (m, e)
unfolding split_once
split_once-fqn [] e h = refl
split_once-fqn (c ∷ m) e h =
    split_word c (m ++ b':' ∷ b':' ∷ e) (ground arith)
    ∙ ap (cons_first c) (split_once-fqn m e (ground arith))

-- A module identifier and an entity identifier are what splitting their qualified name gives.
pub split_fqn-fqn :
    (m e : Str) → is_ident m ≡ true → is_ident e ≡ true → split_fqn (fqn m e) ≡ some (m, e)
unfolding split_fqn fqn
split_fqn-fqn m e hm he =
    ap checked_parts (split_once-fqn m e (ident_word m hm))
    ∙ rw (split_once-word e (ident_word e he), hm, he) refl

split_once_sound : (s a b : Str) → split_once s ≡ some (a, b) → s ≡ a ++ b':' ∷ b':' ∷ b
unfolding split_once
split_once_sound [] a b h = cc
split_once_sound (c ∷ []) a b h = cc
split_once_sound (c ∷ d ∷ s) a b h =
    choose ((c == b':') && (d == b':')) refl (split_once (d ∷ s)) refl
      (λ x y p. split_once_sound (d ∷ s) x y p) h
  where
    choose :
        (t : Bool)
        → ((c == b':') && (d == b':')) ≡ t
        → (o : Option (Str × Str)) → split_once (d ∷ s) ≡ o
        → ((x y : Str) → split_once (d ∷ s) ≡ some (x, y) → d ∷ s ≡ x ++ b':' ∷ b':' ∷ y)
        → split_here c (if t then some s else none) o ≡ some (a, b)
        → c ∷ d ∷ s ≡ a ++ b':' ∷ b':' ∷ b
    choose true q o p ih e = ground (arith, ==_iff c b':', ==_iff d b':')
    choose false q none p ih e = cc
    choose false q (some (x, y)) p ih e = ground (arith, ih x y p)

checked_inv :
    (s : Str) (o : Option (Str × Str)) (m e : Str)
    → split_once s ≡ o
    → checked_parts o ≡ some (m, e)
    → (s ≡ fqn m e) × (is_ident m ≡ true) × (is_ident e ≡ true)
unfolding fqn
checked_inv s none m e p h = cc
checked_inv s (some (a, b)) m e p h =
    choose (is_some (split_once b)) (is_ident a) refl (is_ident b) refl h
  where
    choose :
        (t x : Bool)
        → is_ident a ≡ x
        → (y : Bool) → is_ident b ≡ y
        → if◌then◌else◌ {A = Option (Str × Str)} (t || (not x || not y)) none (some (a, b))
          ≡ some (m, e)
        → (s ≡ m ++ b':' ∷ b':' ∷ e) × (is_ident m ≡ true) × (is_ident e ≡ true)
    choose true x hx y hy q = cc
    choose false false hx y hy q = cc
    choose false true hx false hy q = cc
    choose false true hx true hy q = (split_once_sound s a b p ∙ cc, cc, cc)

-- A text splits only as the qualified name of two identifiers.
pub split_fqn_sound :
    (s m e : Str)
    → split_fqn s ≡ some (m, e)
    → (s ≡ fqn m e) × (is_ident m ≡ true) × (is_ident e ≡ true)
unfolding split_fqn
split_fqn_sound s m e h = checked_inv s (split_once s) m e refl h

rsplit_once-last :
    (x sid : Str) → rsplit_once sid ≡ none → rsplit_once (x ++ b'.' ∷ sid) ≡ some (x, sid)
unfolding rsplit_once
rsplit_once-last [] sid h = rw h refl
rsplit_once-last (c ∷ x) sid h = ap (last_dot c (x ++ b'.' ∷ sid)) (rsplit_once-last x sid h)

-- The location of a statement splits into the module, the function and the statement's name, where
-- the module and the function are identifiers, and the statement's name is not empty and has no dot.
pub split_location-location :
    (m f sid : Str)
    → is_ident m ≡ true
    → is_ident f ≡ true
    → is_empty sid ≡ false
    → rsplit_once sid ≡ none
    → split_location (location m f sid) ≡ some (m, f, sid)
unfolding split_location location
split_location-location m f sid hm hf he hd =
    ap split_before (rsplit_once-last (fqn m f) sid hd)
    ∙ (ap (with_sid sid) (split_fqn-fqn m f hm hf) ∙ rw he refl)

-- Qualifying an identifier in a module gives a qualified name, which stays as it is when it is
-- qualified again in any module.
pub qualify-qualify :
    (m m' name : Str)
    → is_ident m ≡ true
    → is_ident name ≡ true
    → (qualify m name ≡ fqn m name) × (qualify m' (qualify m name) ≡ qualify m name)
unfolding qualify is_fqn split_fqn
qualify-qualify m m' name hm hn =
    let short = split_once-word name (ident_word name hn) in
    let full = split_fqn-fqn m name hm hn in (rw short refl, rw short (rw full refl))
