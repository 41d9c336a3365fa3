-- ===== src/Prelude/Text/Numbers.antt =====
-- Decimal numbers: what is printed is read back.
use xk6_sip_media.Prelude.{
  ℕ, zero, suc, ◌+◌, ◌-◌, ◌*◌, ◌/◌, ◌%◌, ◌^◌, ◌<◌, ◌≤◌, ◌≡◌, refl, ap, sym, ◌∙◌, some, [], ◌∷◌,
  ◌++◌, arith, ltb, Bool-cases, ltb→lt, lt→ltb, inl, inr,
}
use xk6_sip_media.Prelude.Int.{pos}
use mathlib.Core.List.{append-nil, append_assoc}
use mathlib.Core.Path.{subst}
use xk6_sip_media.Prelude.Text.Words.{IsWord}
use xk6_sip_media.Prelude.Text.{Str, is_space, digits, itoa, value_from, value, positive, atoi}

abbrev pub IsDigits : Str → Type 0
IsDigits [] = Unit
IsDigits (c ∷ cs) = (b'0' ≤ c) × (c ≤ b'9') × IsDigits cs

IsDigits-append : (xs ys : Str) → IsDigits xs → IsDigits ys → IsDigits (xs ++ ys)
IsDigits-append [] ys p q = q
IsDigits-append (x ∷ xs) ys p q = (p.0, p.1, IsDigits-append xs ys p.2 q)

digits-IsDigits : (fuel n : ℕ) → IsDigits (digits fuel n)
unfolding digits
digits-IsDigits zero n = tt
digits-IsDigits (suc fuel) n = elim (Bool-cases (ltb n 10)) [
  | inl small ↦ rw small (omega (arith, ltb→lt n 10 small), omega (arith, ltb→lt n 10 small), tt)
  | inr big ↦ rw big (
      IsDigits-append (digits fuel (n / 10)) ((b'0' + n % 10) ∷ []) (digits-IsDigits fuel (n / 10))
        (omega arith, omega arith, tt))
]

one_digit :
    (acc d n : ℕ) (rest : Str)
    → d < 10
    → acc * 10 + d ≡ n
    → value_from acc ((b'0' + d) ∷ rest) ≡ value_from n rest
unfolding value_from
one_digit acc d n rest small e =
    let q : acc * 10 + (b'0' + d - b'0') ≡ n = omega (arith, e) in ground (arith, small, q)

value_from-digits :
    (fuel n : ℕ) (rest : Str) → n < fuel → value_from 0 (digits fuel n ++ rest) ≡ value_from n rest
unfolding digits value_from
value_from-digits zero n rest h = absurd (omega (arith, h))
value_from-digits (suc fuel) n rest h = elim (Bool-cases (ltb n 10)) [
  | inl small ↦ rw small (one_digit 0 n n rest (ltb→lt n 10 small) (omega arith))
  | inr big ↦
      let shorter = digits fuel (n / 10) in
      let m : 10 ≤ n = ground (arith, big) in
      rw (big, append_assoc shorter ((b'0' + n % 10) ∷ []) rest)
        (value_from-digits fuel (n / 10) ((b'0' + n % 10) ∷ rest) (omega (arith, m, h))
          ∙ one_digit (n / 10) (n % 10) n rest (omega arith) (omega arith))
]

digits-nonempty : (fuel n : ℕ) → (c : ℕ) × (cs : Str) × (digits (suc fuel) n ≡ c ∷ cs)
unfolding digits
digits-nonempty fuel n = elim (Bool-cases (ltb n 10)) [
  | inl small ↦ rw small (b'0' + n, [], refl)
  | inr big ↦ rw big (last_of (digits fuel (n / 10)))
]
  where
    last_of : (xs : Str) → (c : ℕ) × (cs : Str) × (xs ++ (b'0' + n % 10) ∷ [] ≡ c ∷ cs)
    last_of [] = (b'0' + n % 10, [], refl)
    last_of (x ∷ xs) = (x, xs ++ (b'0' + n % 10) ∷ [], refl)

IsDigits-IsWord : (s : Str) → IsDigits s → IsWord s
unfolding is_space
IsDigits-IsWord [] h = tt
IsDigits-IsWord (c ∷ s) h = (ground (arith, h.0, h.1), IsDigits-IsWord s h.2)

pub itoa-IsWord : (n : ℕ) → IsWord (itoa n)
unfolding itoa
itoa-IsWord n = IsDigits-IsWord (digits (suc n) n) (digits-IsDigits (suc n) n)

pub itoa-nonempty : (n : ℕ) → (c : ℕ) × (cs : Str) × (itoa n ≡ c ∷ cs)
unfolding itoa
itoa-nonempty n = digits-nonempty n n

unsigned :
    (c : ℕ) (cs : Str) (n : ℕ)
    → IsDigits (c ∷ cs)
    → value_from 0 (c ∷ cs) ≡ some n
    → n < 2 ^ 63
    → atoi (c ∷ cs) ≡ some (pos n)
unfolding atoi value positive
unsigned c cs n d v h =
    let (lo, hi, later) = d in let small = lt→ltb n (2 ^ 63) h in ground (arith, lo, hi, v, small)

-- The text of a number below 2 ^ 63 is read as that number.
pub atoi-itoa : (n : ℕ) → n < 2 ^ 63 → atoi (itoa n) ≡ some (pos n)
unfolding itoa value_from
atoi-itoa n h =
    let (c, cs, e) = digits-nonempty n n in
    let ds = digits-IsDigits (suc n) n in
    let v : value_from 0 (digits (suc n) n) ≡ some n =
      ap (value_from 0) (sym (append-nil (digits (suc n) n)))
      ∙ value_from-digits (suc n) n [] (omega arith) in
    subst (λ t. atoi t ≡ some (pos n)) (sym e)
      (unsigned c cs n (subst IsDigits e ds) (subst (λ t. value_from 0 t ≡ some n) e v) h)
