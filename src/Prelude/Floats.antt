-- ===== src/Prelude/Floats.antt =====
-- Go's float64: the type and the operations that the program applies to it are a parameter.
use mathlib.Core.Bool.{Bool}
use Prim.Native.Nat.{ℕ, ◌/◌, ◌^◌}
use xk6_sip_media.Prelude.Int.{ℤ, pos, pos_part, ltb_ℤ, quot, ◌+ℤ◌, ◌-ℤ◌, ◌*ℤ◌}

-- `decimal a k` is the literal a / 10 ^ k.
pub record Floats : Type 1 where
  pub F : Type 0
  pub decimal : ℕ → ℕ → F
  pub of_int : ℤ → F
  pub add_f : F → F → F
  pub sub_f : F → F → F
  pub mul_f : F → F → F
  pub div_f : F → F → F
  pub lt_f : F → F → Bool

-- The whole numbers meet the interface; the concrete runs use them.
abbrev pub whole_floats : Floats
whole_floats = record {
  F = ℤ;
  decimal = λ a k. pos (a / 10 ^ k);
  of_int = λ z. z;
  add_f = λ a b. a +ℤ b;
  sub_f = λ a b. a -ℤ b;
  mul_f = λ a b. a *ℤ b;
  div_f = λ a b. quot a (pos_part b);
  lt_f = λ a b. ltb_ℤ a b;
}
