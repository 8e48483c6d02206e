-- ===== src/Common/Spaces.antt =====
-- `str::trim` on texts as UTF-8 bytes: white space is what Unicode calls so.
use mathlib.Core.Bool.{Bool, ◌&&◌, ◌||◌}
use mathlib.Core.List.{[], ◌∷◌}
use Prim.Native.Nat.{ℕ, zero, suc}
use mehoy_malloy_ai_runtime.Common.Tests.{leb, ◌==◌, if◌then◌else◌}
use mehoy_malloy_ai_runtime.Common.Lists.{length, drop, is_empty}
use mehoy_malloy_ai_runtime.Common.Text.{Text}

abbrev three_bytes : ℕ → ℕ → ℕ → Bool
three_bytes a b c =
    (a == 0xe1 && b == 0x9a && c == 0x80)
    || (a == 0xe2
        && b == 0x80
        && ((leb 0x80 c && leb c 0x8a) || c == 0xa8 || c == 0xa9 || c == 0xaf))
    || (a == 0xe2 && b == 0x81 && c == 0x9f)
    || (a == 0xe3 && b == 0x80 && c == 0x80)

abbrev one_byte : ℕ → Bool
one_byte a = (leb 9 a && leb a 13) || a == 32

abbrev two_bytes : ℕ → ℕ → Bool
two_bytes a b = a == 0xc2 && (b == 0x85 || b == 0xa0)

-- How many bytes the white-space character has that the text begins with, none if it begins with
-- another.
abbrev pub space_width : Text → ℕ
space_width [] = 0
space_width (a ∷ []) = if one_byte a then 1 else 0
space_width (a ∷ b ∷ []) = if one_byte a then 1 else if two_bytes a b then 2 else 0
space_width (a ∷ b ∷ c ∷ rest) =
    if one_byte a then 1 else if two_bytes a b then 2 else if three_bytes a b c then 3 else 0

-- A round takes a byte at least, so as much fuel as bytes is enough.
unfoldable pub skip_spaces : ℕ → Text → Text
skip_spaces zero t = t
skip_spaces (suc fuel) t = elim (space_width t) [
  | zero ↦ t
  | suc width ↦ skip_spaces fuel (drop (suc width) t)
]

unfoldable pub trim_start : Text → Text
unfolding skip_spaces
trim_start t = skip_spaces (length t) t

-- White space to the end is cut off where it begins.
unfoldable pub trim_end : Text → Text
unfolding trim_start
trim_end [] = []
trim_end (b ∷ bs) =
    let rest = trim_end bs in if is_empty (trim_start (b ∷ bs)) then [] else b ∷ rest

unfoldable pub trim : Text → Text
unfolding trim_start trim_end
trim t = trim_end (trim_start t)
