-- ===== src/Names.antt =====
-- src/fqn.rs: identifiers, qualified names `module::entity` and control locations
-- `module::function.sid`, as lists of bytes. A byte of a character that is not ASCII is 128 or more,
-- so the tests on characters are tests on bytes.
pub mod RoundTrip
use conc_ir.Prelude.{
  ℕ, ◌==◌, Bool, true, false, ◌&&◌, ◌||◌, not, Option, none, some, List, [], ◌∷◌, ◌++◌, every,
  is_empty, leb, if◌then◌else◌,
}
use conc_ir.Prelude.Text.{Str}
use conc_ir.Interp.State.{is_some}

unfoldable pub is_alpha : ℕ → Bool
is_alpha c = (leb b'A' c && leb c b'Z') || (leb b'a' c && leb c b'z')

unfoldable pub is_digit : ℕ → Bool
is_digit c = leb b'0' c && leb c b'9'

unfoldable pub is_word : ℕ → Bool
unfolding is_alpha is_digit
is_word c = is_alpha c || (is_digit c || (c == b'_'))

unfoldable pub is_ident : Str → Bool
unfolding is_alpha is_word
is_ident [] = false
is_ident (c ∷ s) = (is_alpha c || (c == b'_')) && every is_word s

unfoldable pub fqn : Str → Str → Str
fqn m e = m ++ b':' ∷ b':' ∷ e

-- The text behind a separator that starts with the byte `c`.
abbrev pub strip_sep : ℕ → Str → Option Str
strip_sep c [] = none
strip_sep c (d ∷ s) = if (c == b':') && (d == b':') then some s else none

abbrev pub cons_first : ℕ → Option (Str × Str) → Option (Str × Str)
cons_first c none = none
cons_first c (some (a, b)) = some (c ∷ a, b)

abbrev pub split_here : ℕ → Option Str → Option (Str × Str) → Option (Str × Str)
split_here c none rest = cons_first c rest
split_here c (some s) rest = some ([], s)

-- `split_once("::")`.
unfoldable pub split_once : Str → Option (Str × Str)
split_once [] = none
split_once (c ∷ s) = split_here c (strip_sep c s) (split_once s)

abbrev pub checked_parts : Option (Str × Str) → Option (Str × Str)
checked_parts none = none
checked_parts (some (m, e)) =
    if is_some (split_once e) || (not (is_ident m) || not (is_ident e)) then none else some (m, e)

unfoldable pub split_fqn : Str → Option (Str × Str)
unfolding split_once is_ident
split_fqn s = checked_parts (split_once s)

unfoldable pub is_fqn : Str → Bool
unfolding split_fqn
is_fqn s = is_some (split_fqn s)

unfoldable pub location : Str → Str → Str → Str
unfolding fqn
location m f sid = fqn m f ++ b'.' ∷ sid

abbrev pub last_dot : ℕ → Str → Option (Str × Str) → Option (Str × Str)
last_dot c s none = if c == b'.' then some ([], s) else none
last_dot c s (some (a, b)) = some (c ∷ a, b)

-- `rsplit_once('.')`.
unfoldable pub rsplit_once : Str → Option (Str × Str)
rsplit_once [] = none
rsplit_once (c ∷ s) = last_dot c s (rsplit_once s)

abbrev pub with_sid : Str → Option (Str × Str) → Option (Str × Str × Str)
with_sid sid none = none
with_sid sid (some (m, f)) = if is_empty sid then none else some (m, f, sid)

abbrev pub split_before : Option (Str × Str) → Option (Str × Str × Str)
split_before none = none
split_before (some (mod_fn, sid)) = with_sid sid (split_fqn mod_fn)

unfoldable pub split_location : Str → Option (Str × Str × Str)
unfolding rsplit_once split_fqn
split_location s = split_before (rsplit_once s)

-- A short name belongs to the module; a qualified one stays.
unfoldable pub qualify : Str → Str → Str
unfolding is_fqn fqn
qualify from name = if is_fqn name then name else fqn from name
