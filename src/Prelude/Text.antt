-- ===== src/Prelude/Text.antt =====
-- Strings as lists of code points, with what the code uses of Go's packages strings, unicode and
-- strconv.
pub mod Words
pub mod Numbers
use Prim.Native.Char.{code}
use Prim.Native.String.{String}
use Prim.Native.Nat.{ℕ, zero, suc, ◌+◌, ◌-◌, ◌*◌, ◌/◌, ◌%◌, ◌^◌}
use mathlib.Core.Bool.{Bool, true, false, not, ◌&&◌, ◌||◌}
use mathlib.Core.Option.{Option, none, some}
use mathlib.Core.List.{List, [], ◌∷◌, ◌++◌, map}
use xk6_sip_media.Prelude.Tests.{ltb, leb, ◌==◌, if◌then◌else◌}
use xk6_sip_media.Prelude.Int.{ℤ, pos, negsuc}

abbrev pub Str : Type 0
Str = List ℕ

abbrev pub codes : String → Str
codes String.[] = []
codes (String.◌∷◌ c s) = code c ∷ codes s

-- The pieces of a text, one after another.
abbrev pub glue : List Str → Str
glue [] = []
glue (x ∷ []) = x
glue (x ∷ y ∷ ys) = x ++ glue (y ∷ ys)

unfoldable pub same : Str → Str → Bool
same [] [] = true
same [] (y ∷ ys) = false
same (x ∷ xs) [] = false
same (x ∷ xs) (y ∷ ys) = x == y && same xs ys

-- unicode.IsSpace.
unfoldable pub is_space : ℕ → Bool
is_space c =
    (leb 9 c && leb c 13)
    || c == 32
    || c == 0x85
    || c == 0xA0
    || c == 0x1680
    || (leb 0x2000 c && leb c 0x200A)
    || c == 0x2028
    || c == 0x2029
    || c == 0x202F
    || c == 0x205F
    || c == 0x3000

-- strings.TrimSpace.
unfoldable pub trim_left : Str → Str
trim_left [] = []
trim_left (c ∷ cs) = let rest = trim_left cs in if is_space c then rest else c ∷ cs

-- A space is kept where something is left after it.
unfoldable pub keep_before : ℕ → Str → Str
keep_before c [] = if is_space c then [] else c ∷ []
keep_before c (d ∷ ds) = c ∷ d ∷ ds

unfoldable pub trim_right : Str → Str
trim_right [] = []
trim_right (c ∷ cs) = keep_before c (trim_right cs)

unfoldable pub trim_space : Str → Str
trim_space s = trim_right (trim_left s)

-- strings.ToUpper on the code points whose upper case is in ASCII. The others are left as they are.
unfoldable pub upper : ℕ → ℕ
upper c =
    if leb b'a' c && leb c b'z'
    then c - 32
    else if c == 0x131
    then b'I'
    else if c == 0x17F
    then b'S'
    else c

-- strings.HasPrefix and strings.Contains.
unfoldable pub has_prefix : Str → Str → Bool
has_prefix [] s = true
has_prefix (p ∷ ps) [] = false
has_prefix (p ∷ ps) (c ∷ cs) = p == c && has_prefix ps cs

unfoldable pub contains : Str → Str → Bool
contains p [] = has_prefix p []
contains p (c ∷ cs) = has_prefix p (c ∷ cs) || contains p cs

-- strings.Split: the field before the first separator, and the others.
unfoldable pub split_at : ℕ → Str → Str × List Str
split_at sep [] = ([], [])
split_at sep (c ∷ cs) =
    let (field, fields) = split_at sep cs in
    if c == sep then ([], field ∷ fields) else (c ∷ field, fields)

unfoldable pub split : ℕ → Str → List Str
split sep s = let (field, fields) = split_at sep s in field ∷ fields

-- strings.SplitN with 2 parts at most: the second is `none` where there is no separator.
unfoldable pub cut : ℕ → Str → Str × Option Str
cut sep [] = ([], none)
cut sep (c ∷ cs) =
    let (before, after) = cut sep cs in if c == sep then ([], some cs) else (c ∷ before, after)

-- strings.ReplaceAll of "\r\n" by "\n".
unfoldable pub unix_lines : Str → Str
unix_lines [] = []
unix_lines (c ∷ cs) =
    let rest = unix_lines cs in if c == b'\r' && has_prefix (b'\n' ∷ []) cs then rest else c ∷ rest

-- strings.Fields: the word that the text begins with, if any, and the others.
unfoldable pub add_word : Str → List Str → List Str
add_word [] ws = ws
add_word (c ∷ cs) ws = (c ∷ cs) ∷ ws

unfoldable pub words : Str → Str × List Str
words [] = ([], [])
words (c ∷ cs) = let (w, ws) = words cs in if is_space c then ([], add_word w ws) else (c ∷ w, ws)

unfoldable pub fields : Str → List Str
fields s = let (w, ws) = words s in add_word w ws

-- The decimal digits of a number; it has fewer than its successor.
unfoldable pub digits : ℕ → ℕ → Str
digits zero n = []
digits (suc fuel) n =
    let shorter = digits fuel (n / 10) in
    if ltb n 10 then (b'0' + n) ∷ [] else shorter ++ (b'0' + n % 10) ∷ []

unfoldable pub itoa : ℕ → Str
itoa n = digits (suc n) n

-- strconv.Atoi: an optional sign and digits, at least one, of a value that an int64 holds.
unfoldable pub value_from : ℕ → Str → Option ℕ
value_from acc [] = some acc
value_from acc (c ∷ cs) =
    let rest = value_from (acc * 10 + (c - b'0')) cs in
    if leb b'0' c && leb c b'9' then rest else none

unfoldable pub value : Str → Option ℕ
value [] = none
value (c ∷ cs) = value_from 0 (c ∷ cs)

unfoldable pub positive : Option ℕ → Option ℤ
positive none = none
positive (some n) = if ltb n (2 ^ 63) then some (pos n) else none

unfoldable pub negative : Option ℕ → Option ℤ
negative none = none
negative (some zero) = some (pos 0)
negative (some (suc n)) = if ltb n (2 ^ 63) then some (negsuc n) else none

unfoldable pub atoi : Str → Option ℤ
atoi [] = none
atoi (c ∷ cs) =
    if c == b'-'
    then negative (value cs)
    else if c == b'+'
    then positive (value cs)
    else positive (value (c ∷ cs))
