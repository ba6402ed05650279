-- ===== src/Prelude/Text.antt =====
-- str::trim and str::is_empty, as `key.trim().is_empty()` uses them: every character has the Unicode
-- property White_Space.
use Prim.Native.Nat.{ℕ}
use Prim.Native.Char.{code}
use Prim.Native.String.{String, [], ◌∷◌}
use mathlib.Core.Bool.{Bool, true, ◌&&◌, ◌||◌}
use capivara_rs.Prelude.Tests.{leb, ◌==◌}

unfoldable pub is_whitespace : ℕ → Bool
is_whitespace c =
    leb 0x09 c && leb c 0x0d
    || c == 0x20
    || c == 0x85
    || c == 0xa0
    || c == 0x1680
    || leb 0x2000 c && leb c 0x200a
    || c == 0x2028
    || c == 0x2029
    || c == 0x202f
    || c == 0x205f
    || c == 0x3000

unfoldable pub trim_is_empty : String → Bool
unfolding is_whitespace
trim_is_empty [] = true
trim_is_empty (c ∷ s) = is_whitespace (code c) && trim_is_empty s
