-- ===== src/Common/Strings.antt =====
-- Equality of texts.
use Prim.Native.String.{String}
use mathlib.Core.Path.{◌≡◌}
use mathlib.Core.Bool.{true, false}
use native.Mathlib.Omega.{arith}
use text.Mathlib.Text.{◌==◌ as str_eq}
use text.Mathlib.TextEquality.{eq_iff}

pub str_eq_comm : (x y : String) → str_eq x y ≡ str_eq y x
str_eq_comm x y = ground (arith, eq_iff x y, eq_iff y x)

-- A text that equals one text equals no other.
pub str_eq-other : (a y x : String) → str_eq a y ≡ true → str_eq y x ≡ false → str_eq a x ≡ false
str_eq-other a y x same differs = ground (arith, eq_iff a y, eq_iff a x, eq_iff y x)
