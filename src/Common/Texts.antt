-- ===== src/Common/Texts.antt =====
-- Texts of the language.
use Prim.Native.Char.{Char}
use Prim.Native.String.{String}
use Prim.Native.Nat.{ℕ}
use mathlib.Core.Path.{◌≡◌, ap}
use mathlib.Core.Logic.{inl, inr}
use mathlib.Core.Bool.{false}
use native.Mathlib.Omega.{arith}
use text.Mathlib.Text.{◌==◌ as str_eq}
use text.Mathlib.TextEquality.{eq_iff}
use urlfy_cc.Common.Tests.{Bool-cases}

first_size : String → ℕ
first_size String.[] = 0
first_size (String.◌∷◌ c s) = 1

pub cons-ne_empty : (c : Char) (s : String) → str_eq (String.◌∷◌ c s) "" ≡ false
unfolding first_size
cons-ne_empty c s = elim (Bool-cases (str_eq (String.◌∷◌ c s) "")) [
  | inl same ↦
      let empty : 1 ≡ 0 = ap first_size ((eq_iff (String.◌∷◌ c s) "").0 same) in
      absurd (omega (arith, empty))
  | inr other ↦ other
]
