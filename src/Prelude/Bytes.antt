-- ===== src/Prelude/Bytes.antt =====
-- Byte strings: fixed-width big-endian fields of a buffer, and the wrap-around of Go's integers.
use Prim.Native.Nat.{ℕ, suc, ◌+◌, ◌-◌, ◌*◌, ◌/◌, ◌%◌, ◌^◌, ◌<◌}
use mathlib.Core.List.{List, [], ◌∷◌}
use mathlib.Core.Option.{Option, none, some}
use xk6_sip_media.Prelude.Tests.{leb, if◌then◌else◌}
use mathlib.Core.Path.{◌≡◌, refl, sym}
use native.Mathlib.Omega.{arith}
use Prim.Native.Nat.{◌≤◌, zero}
use mathlib.Core.List.{◌++◌}
use xk6_sip_media.Prelude.Lists.{take-length_append, drop-length_append, length, get_or, take, drop}

-- Conversions and arithmetic of Go's unsigned integers wrap.
abbrev pub u8 : ℕ → ℕ
u8 n = n % 2 ^ 8

abbrev pub u16 : ℕ → ℕ
u16 n = n % 2 ^ 16

abbrev pub u32 : ℕ → ℕ
u32 n = n % 2 ^ 32

abbrev pub u64 : ℕ → ℕ
u64 n = n % 2 ^ 64

abbrev pub IsByte : ℕ → Type 0
IsByte b = b < 256

-- `b[i]` where the code has checked that `i` is in range.
abbrev pub byte_at : List ℕ → ℕ → ℕ
byte_at b i = get_or b i 0

-- binary.BigEndian.Uint16(b[i:]) and Uint32(b[i:]).
abbrev pub be16_at : List ℕ → ℕ → ℕ
be16_at b i = byte_at b i * 256 + byte_at b (suc i)

abbrev pub be32_at : List ℕ → ℕ → ℕ
be32_at b i = be16_at b i * 65536 + be16_at b (suc (suc i))

-- binary.BigEndian.PutUint16 and PutUint32: the bytes that they write.
abbrev pub be16 : ℕ → List ℕ
be16 v = u8 (v / 2 ^ 8) ∷ u8 v ∷ []

abbrev pub be32 : ℕ → List ℕ
be32 v = u8 (v / 2 ^ 24) ∷ u8 (v / 2 ^ 16) ∷ u8 (v / 2 ^ 8) ∷ u8 v ∷ []

-- `b[lo:hi]`; `none` is the panic of a slice that is out of range.
abbrev pub slice : List ℕ → ℕ → ℕ → Option (List ℕ)
slice b lo hi =
    if leb lo hi
    then (if leb hi (length b) then some (take (hi - lo) (drop lo b)) else none)
    else none

-- `b[lo:]`.
abbrev pub slice_from : List ℕ → ℕ → Option (List ℕ)
slice_from b lo = if leb lo (length b) then some (drop lo b) else none

pub take_exact : (n : ℕ) (xs ys : List ℕ) → length xs ≡ n → take n (xs ++ ys) ≡ xs
take_exact n xs ys h = rw (sym h, take-length_append xs ys)

pub drop_exact : (n : ℕ) (xs ys : List ℕ) → length xs ≡ n → drop n (xs ++ ys) ≡ ys
drop_exact n xs ys h = rw (sym h, drop-length_append xs ys)

pub get_or-append :
    (xs ys : List ℕ) (i d : ℕ) → i < length xs → get_or (xs ++ ys) i d ≡ get_or xs i d
get_or-append [] ys i d h = absurd (omega arith)
get_or-append (x ∷ xs) ys zero d h = refl
get_or-append (x ∷ xs) ys (suc i) d h = get_or-append xs ys i d (omega arith)

-- Two datagrams with the same first twelve bytes carry the same sequence number.
pub be16_at-append : (xs ys : List ℕ) → 4 ≤ length xs → be16_at (xs ++ ys) 2 ≡ be16_at xs 2
be16_at-append xs ys h =
    rw (get_or-append xs ys 2 0 (omega arith), get_or-append xs ys 3 0 (omega arith))
