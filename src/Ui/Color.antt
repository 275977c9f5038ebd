-- ===== src/Ui/Color.antt =====
-- `Color` (src/ui/charbuff.rs).
use wrb.Common.{true, ℕ, ◌+◌, ◌*◌, ◌/◌, ◌%◌, ◌^◌, ◌<◌, ◌≡◌, arith, Bool, ◌==◌, ◌&&◌}

-- three bytes
pub record Color : Type 0 where
  pub r : ℕ
  pub g : ℕ
  pub b : ℕ

-- `(c & 0x00ff0000) >> 16`, `(c & 0x0000ff00) >> 8` and `c & 0x000000ff`.
unfoldable pub from_u32 : ℕ → Color
from_u32 c = record { r = c / 2 ^ 16 % 2 ^ 8; g = c / 2 ^ 8 % 2 ^ 8; b = c % 2 ^ 8 }

-- The number of the Clarity `uint`: the bytes do not overlap, so `|` is a sum.
unfoldable pub to_clarity_value : Color → ℕ
to_clarity_value c = c.r * 2 ^ 16 + c.g * 2 ^ 8 + c.b

-- `==` of two colors
abbrev pub color_eq : Color → Color → Bool
color_eq c d = c.r == d.r && (c.g == d.g && c.b == d.b)

pub record IsColor (c : Color) : Type 0 where
  pub r_byte : c.r < 2 ^ 8
  pub g_byte : c.g < 2 ^ 8
  pub b_byte : c.b < 2 ^ 8

from_parts : (c d : Color) → c.r ≡ d.r → c.g ≡ d.g → c.b ≡ d.b → c ≡ d
from_parts c d p q s = λ i. record { r = p i; g = q i; b = s i }

pub color_eq_sound : (c d : Color) → color_eq c d ≡ true → c ≡ d
color_eq_sound c d h = from_parts c d (ground (arith, h)) (ground (arith, h)) (ground (arith, h))

-- A color comes back from its Clarity value, and a value below 2 ^ 24 from its color.
pub color_round_trip :
    (c : Color) (v : ℕ)
    → IsColor c
    → v < 2 ^ 24
    → (from_u32 (to_clarity_value c) ≡ c) × (to_clarity_value (from_u32 v) ≡ v)
unfolding from_u32 to_clarity_value
color_round_trip c v ok h = (
  from_parts _ c (omega (arith, ok.r_byte, ok.g_byte, ok.b_byte))
      (omega (arith, ok.r_byte, ok.g_byte, ok.b_byte))
      (omega (arith, ok.r_byte, ok.g_byte, ok.b_byte)),
  omega arith,
)
