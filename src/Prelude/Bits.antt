-- ===== src/Prelude/Bits.antt =====
-- Bit operations on numbers of any width, from the recursion on binary digits they stand for.
use Prim.Native.Nat.{digits, bit_or-bitwise, bit_xor-bitwise, bit_and, bit_or, bit_xor, differ, max}
use mathlib.Core.Path.{◌≡◌, refl, ap}
use native.Mathlib.Nat.{pow-suc}
use native.Mathlib.Omega.{arith}
use Prim.Native.Nat.{ℕ, zero, suc, ◌+◌, ◌*◌, ◌/◌, ◌%◌, ◌^◌, ◌≤◌, ◌<◌}
use mathlib.Core.Bool.{Bool, true, ◌&&◌}
use xk6_sip_media.Prelude.Tests.{◌==◌, ==_iff}

module _ (z : ℕ → ℕ) (f : ℕ → ℕ → ℕ) where
  -- The recursion stops at 0, so all fuel from the left operand on gives the same digits.
  same_digits : (a b n m : ℕ) → a ≤ n → a ≤ m → digits z f n a b ≡ digits z f m a b
  same_digits a b zero zero p q = refl
  same_digits zero b (suc n) zero p q = refl
  same_digits zero b zero (suc m) p q = refl
  same_digits zero b (suc n) (suc m) p q = refl
  same_digits (suc a) b zero (suc m) p q = absurd (omega arith)
  same_digits (suc a) b (suc n) zero p q = absurd (omega arith)
  same_digits (suc a) b (suc n) (suc m) p q =
      let h = same_digits (suc a / 2) (b / 2) n m (omega arith) (omega arith) in rw h

-- The digits after the first one, with the fuel that the operand itself gives.
later_digits :
    (f : ℕ → ℕ → ℕ) (a b : ℕ)
    → digits (λ y. y) f a (suc a / 2) b ≡ digits (λ y. y) f (suc a / 2) (suc a / 2) b
later_digits f a b = same_digits (λ y. y) f (suc a / 2) b a (suc a / 2) (omega arith) (omega arith)

differ-parity : (x y : ℕ) → x < 2 → y < 2 → differ x y ≡ (x + y) % 2
differ-parity zero y p q = omega arith
differ-parity (suc zero) zero p q = refl
differ-parity (suc zero) (suc zero) p q = refl
differ-parity (suc zero) (suc (suc y)) p q = absurd (omega arith)
differ-parity (suc (suc x)) y p q = absurd (omega arith)

pub bit_xor_step : (a b : ℕ) → bit_xor a b ≡ bit_xor (a / 2) (b / 2) * 2 + (a % 2 + b % 2) % 2
bit_xor_step zero b = simp bit_xor-bitwise (omega arith)
bit_xor_step (suc a) b =
    let low = differ-parity (suc a % 2) (b % 2) (omega arith) (omega arith) in
    simp bit_xor-bitwise (omega (arith, later_digits differ a (b / 2), low))

pub bit_or_step : (c d : ℕ) → bit_or c d ≡ bit_or (c / 2) (d / 2) * 2 + max (c % 2) (d % 2)
bit_or_step (suc c) d =
    let later = later_digits max c (d / 2) in simp bit_or-bitwise (omega (arith, later))
bit_or_step zero d = simp bit_or-bitwise (omega arith)

bit_xor_cancel_fuel : (n a b : ℕ) → a ≤ n → b ≤ n → bit_xor (bit_xor a b) b ≡ a
bit_xor_cancel_fuel zero zero zero p q = refl
bit_xor_cancel_fuel zero zero (suc b) p q = absurd (omega arith)
bit_xor_cancel_fuel zero (suc a) b p q = absurd (omega arith)
bit_xor_cancel_fuel (suc n) a b p q =
    rw (bit_xor_step (bit_xor a b) b, halved)
      (omega (
        arith,
        bit_xor_step a b,
        bit_xor_cancel_fuel n (a / 2) (b / 2) (omega arith) (omega arith),
      ))
  where
    halved : bit_xor a b / 2 ≡ bit_xor (a / 2) (b / 2)
    halved = omega (arith, bit_xor_step a b)

-- Exclusive or with the same value twice gives back the first operand.
pub bit_xor_cancel : (a b : ℕ) → bit_xor (bit_xor a b) b ≡ a
bit_xor_cancel a b = bit_xor_cancel_fuel (a + b) a b (omega arith) (omega arith)

pub bit_xor-lt_pow : (k a b : ℕ) → a < 2 ^ k → b < 2 ^ k → bit_xor a b < 2 ^ k
bit_xor-lt_pow zero a b p q =
    let za : a ≡ 0 = omega arith in let zb : b ≡ 0 = omega arith in rw (za, zb) (omega arith)
bit_xor-lt_pow (suc k) a b p q = omega (
  arith,
  bit_xor_step a b,
  pow-suc 2 k,
  bit_xor-lt_pow k (a / 2) (b / 2) (omega (arith, pow-suc 2 k)) (omega (arith, pow-suc 2 k)),
)

or-zero_fuel : (n a : ℕ) → a ≤ n → bit_or a 0 ≡ a
or-zero_fuel n zero h = refl
or-zero_fuel zero (suc a) h = absurd (omega arith)
or-zero_fuel (suc n) (suc a) h =
    omega (arith, bit_or_step (suc a) 0, or-zero_fuel n (suc a / 2) (omega arith))

-- `(q << k) | r` is a sum where `r` fits k bits.
pub bit_or_shifted : (k q r : ℕ) → r < 2 ^ k → bit_or (q * 2 ^ k) r ≡ q * 2 ^ k + r
bit_or_shifted zero q r h =
    let zr : r ≡ 0 = omega arith in
    rw zr (omega (arith, or-zero_fuel (q * 1) (q * 1) (omega arith)))
bit_or_shifted (suc k) q r h =
    let double : q * 2 ^ suc k ≡ 2 * (q * 2 ^ k) =
      omega (arith, ap (λ (t : ℕ). q * t) (pow-suc 2 k)) in
    rw (bit_or_step (q * 2 ^ suc k) r, half double)
      (omega (arith, double, bit_or_shifted k q (r / 2) (omega (arith, pow-suc 2 k))))
  where
    half : q * 2 ^ suc k ≡ 2 * (q * 2 ^ k) → q * 2 ^ suc k / 2 ≡ q * 2 ^ k
    half e = omega arith

-- Over a small range a law is checked by evaluation.
unfoldable pub all_below : ℕ → (ℕ → Bool) → Bool
all_below zero law = true
all_below (suc n) law = let smaller = all_below n law in smaller && law n

pub law_below : (law : ℕ → Bool) (n x : ℕ) → x < n → all_below n law ≡ true → law x ≡ true
unfolding all_below
law_below law zero x lt h = absurd (omega arith)
law_below law (suc n) x lt h = ground (arith, law_below law n x)

-- The masks that the program applies to one byte, as arithmetic.
low_six_table : all_below 256 (λ x. bit_and x 0x3f == x % 64) ≡ true
unfolding all_below
low_six_table = refl

pub bit_and_low_six : (x : ℕ) → x < 256 → bit_and x 0x3f ≡ x % 64
bit_and_low_six x h = (==_iff _ (x % 64)).0 (law_below _ 256 x h low_six_table)

top_bit_table : all_below 256 (λ x. bit_and x 0x80 == x / 128 * 128) ≡ true
unfolding all_below
top_bit_table = refl

pub bit_and_top_bit : (x : ℕ) → x < 256 → bit_and x 0x80 ≡ x / 128 * 128
bit_and_top_bit x h = (==_iff _ (x / 128 * 128)).0 (law_below _ 256 x h top_bit_table)

low_nibble_table : all_below 256 (λ x. bit_and x 0x0f == x % 16) ≡ true
unfolding all_below
low_nibble_table = refl

pub bit_and_low_nibble : (x : ℕ) → x < 256 → bit_and x 0x0f ≡ x % 16
bit_and_low_nibble x h = (==_iff _ (x % 16)).0 (law_below _ 256 x h low_nibble_table)

set_top_bit_table : all_below 128 (λ x. bit_or x 0x80 == x + 128) ≡ true
unfolding all_below
set_top_bit_table = refl

pub bit_or_top_bit : (x : ℕ) → x < 128 → bit_or x 0x80 ≡ x + 128
bit_or_top_bit x h = (==_iff _ (x + 128)).0 (law_below _ 128 x h set_top_bit_table)

low_two_table : all_below 4 (λ x. bit_and x 0x03 == x) ≡ true
unfolding all_below
low_two_table = refl

pub bit_and_low_two : (x : ℕ) → x < 4 → bit_and x 0x03 ≡ x
bit_and_low_two x h = (==_iff _ x).0 (law_below _ 4 x h low_two_table)
