-- ===== src/Inference/Float.antt =====
-- `f32` as its bit pattern, a number below 2 ^ 32: the sign, eight bits of exponent, 23 of mantissa.
use mehoy_malloy_ai_runtime.Common.{ℕ, Bool, not, ◌&&◌, leb, ◌==◌}
use Prim.Native.Nat.{◌/◌, ◌%◌}

-- Neither infinite nor not a number.
unfoldable pub is_finite : ℕ → Bool
is_finite bits = not (bits / 0x80_0000 % 256 == 255)

-- `value < 0.0` for a finite value: the sign is set, and it is not a zero.
unfoldable pub is_negative : ℕ → Bool
is_negative bits = leb 0x8000_0000 bits && not (bits % 0x8000_0000 == 0)
