-- ===== src/Prelude/Text.antt =====
-- Rust strings as the list of their UTF-8 bytes: equality, order and length are those of the bytes.
use Prim.Native.Char.{code}
use Prim.Native.String.{String}
use Prim.Native.Nat.{ℕ}
use mathlib.Core.List.{List, [], ◌∷◌}

abbrev pub Str : Type 0
Str = List ℕ

-- An ASCII literal as its bytes.
abbrev pub ascii : String → Str
ascii String.[] = []
ascii (String.◌∷◌ c s) = code c ∷ ascii s
