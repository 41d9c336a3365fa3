-- ===== src/Prelude/Text/Words.antt =====
-- Words, which have no space, and how texts are trimmed, split and cut at them.
use xk6_sip_media.Prelude.{
  ℕ, ◌≡◌, refl, ap, Bool, true, false, not, ◌&&◌, some, List, [], ◌∷◌, ◌++◌, arith, ◌==◌,
}
use xk6_sip_media.Prelude.Text.{
  Str, is_space, trim_left, trim_right, keep_before, trim_space, has_prefix, contains, split_at,
  split, cut, unix_lines, words,
}

abbrev pub IsWord : Str → Type 0
IsWord [] = Unit
IsWord (c ∷ cs) = (is_space c ≡ false) × IsWord cs

pub IsWord-append : (xs ys : Str) → IsWord xs → IsWord ys → IsWord (xs ++ ys)
IsWord-append [] ys p q = q
IsWord-append (x ∷ xs) ys p q = (p.0, IsWord-append xs ys p.1 q)

pub trim_right-IsWord : (w : Str) → IsWord w → trim_right w ≡ w
unfolding trim_right keep_before
trim_right-IsWord [] h = refl
trim_right-IsWord (c ∷ []) h = ground (arith, h.0)
trim_right-IsWord (c ∷ d ∷ w) h = rw (trim_right-IsWord (d ∷ w) h.1)

-- A text that is not empty and has no space at its end.
pub record Ends (s : Str) : Type 0 where
  pub first : ℕ
  pub others : Str
  pub nonempty : s ≡ first ∷ others
  pub kept : trim_right s ≡ s

pub word-Ends : (c : ℕ) (w : Str) → IsWord (c ∷ w) → Ends (c ∷ w)
word-Ends c w h = record {
  first = c;
  others = w;
  nonempty = refl;
  kept = trim_right-IsWord (c ∷ w) h;
}

cons-kept : (c : ℕ) (s : Str) → Ends s → trim_right (c ∷ s) ≡ c ∷ s
unfolding trim_right keep_before
cons-kept c s e = let n = e.nonempty in rw (e.kept, n)

pub append-Ends : (xs s : Str) → Ends s → Ends (xs ++ s)
append-Ends [] s e = e
append-Ends (x ∷ xs) s e = record {
  first = x;
  others = xs ++ s;
  nonempty = refl;
  kept = cons-kept x (xs ++ s) (append-Ends xs s e);
}

-- Such a text is left as it is by TrimSpace after a first character that is no space.
pub trim_space-Ends : (c : ℕ) (s : Str) → is_space c ≡ false → Ends s → trim_space (c ∷ s) ≡ c ∷ s
unfolding trim_space trim_left
trim_space-Ends c s f e = rw f (cons-kept c s e)

-- Tests that compute on a given text.
unfoldable pub is_word : Str → Bool
is_word [] = true
is_word (c ∷ cs) = not (is_space c) && is_word cs

pub is_word-IsWord : (s : Str) → is_word s ≡ true → IsWord s
unfolding is_word
is_word-IsWord [] h = tt
is_word-IsWord (c ∷ s) h = (ground (arith, h), is_word-IsWord s (ground (arith, h)))

pub words-append :
    (w rest : Str) → IsWord w → words (w ++ rest) ≡ (w ++ (words rest).0, (words rest).1)
unfolding words
words-append [] rest h = refl
words-append (c ∷ w) rest h = rw (words-append w rest h.1, h.0)

-- The lines of a text without a carriage return or a line feed of its own.
abbrev pub IsLine : Str → Type 0
IsLine [] = Unit
IsLine (c ∷ cs) = ((c == b'\r') ≡ false) × ((c == b'\n') ≡ false) × IsLine cs

pub IsLine-append : (xs ys : Str) → IsLine xs → IsLine ys → IsLine (xs ++ ys)
IsLine-append [] ys p q = q
IsLine-append (x ∷ xs) ys p q = (p.0, p.1, IsLine-append xs ys p.2 q)

pub IsWord-IsLine : (w : Str) → IsWord w → IsLine w
unfolding is_space
IsWord-IsLine [] h = tt
IsWord-IsLine (c ∷ w) h = (ground (arith, h.0), ground (arith, h.0), IsWord-IsLine w h.1)

unfoldable pub is_line : Str → Bool
is_line [] = true
is_line (c ∷ cs) = not (c == b'\r') && not (c == b'\n') && is_line cs

pub is_line-IsLine : (s : Str) → is_line s ≡ true → IsLine s
unfolding is_line
is_line-IsLine [] h = tt
is_line-IsLine (c ∷ s) h =
    (ground (arith, h), ground (arith, h), is_line-IsLine s (ground (arith, h)))

-- Lines that end with "\r\n" each.
abbrev pub crlf : List Str → Str
crlf [] = []
crlf (l ∷ ls) = l ++ b'\r' ∷ b'\n' ∷ crlf ls

abbrev pub EachLine : List Str → Type 0
EachLine [] = Unit
EachLine (l ∷ ls) = IsLine l × EachLine ls

unix_lines-line :
    (l rest : Str)
    → IsLine l
    → unix_lines (l ++ b'\r' ∷ b'\n' ∷ rest) ≡ l ++ b'\n' ∷ unix_lines rest
unfolding unix_lines has_prefix
unix_lines-line [] rest h = refl
unix_lines-line (c ∷ l) rest h = rw (unix_lines-line l rest h.2, h.0)

split_at-line :
    (l rest : Str)
    → IsLine l
    → split_at b'\n' (l ++ b'\n' ∷ rest) ≡ (l, (split_at b'\n' rest).0 ∷ (split_at b'\n' rest).1)
unfolding split_at
split_at-line [] rest h = refl
split_at-line (c ∷ l) rest h = rw (split_at-line l rest h.2, h.1)

pub split-crlf : (ls : List Str) → EachLine ls → split b'\n' (unix_lines (crlf ls)) ≡ ls ++ [] ∷ []
unfolding split split_at unix_lines
split-crlf [] h = refl
split-crlf (l ∷ ls) h =
    rw (unix_lines-line l (crlf ls) h.0, split_at-line l (unix_lines (crlf ls)) h.0)
      (ap (λ later. l ∷ later) (split-crlf ls h.1))

-- The first separator stands after a word that does not have it.
abbrev pub Without : ℕ → Str → Type 0
Without sep [] = Unit
Without sep (c ∷ cs) = ((c == sep) ≡ false) × Without sep cs

unfoldable pub lacks : ℕ → Str → Bool
lacks sep [] = true
lacks sep (c ∷ cs) = not (c == sep) && lacks sep cs

pub lacks-Without : (sep : ℕ) (s : Str) → lacks sep s ≡ true → Without sep s
unfolding lacks
lacks-Without sep [] h = tt
lacks-Without sep (c ∷ s) h = (ground (arith, h), lacks-Without sep s (ground (arith, h)))

pub IsWord-Without_space : (w : Str) → IsWord w → Without b' ' w
unfolding is_space
IsWord-Without_space [] h = tt
IsWord-Without_space (c ∷ w) h = (ground (arith, h.0), IsWord-Without_space w h.1)

pub cut-append :
    (sep : ℕ) (w rest : Str) → Without sep w → cut sep (w ++ sep ∷ rest) ≡ (w, some rest)
unfolding cut
cut-append sep [] rest h = ground arith
cut-append sep (c ∷ w) rest h = rw (cut-append sep w rest h.1, h.0)

has_prefix-stays : (p s r : Str) → has_prefix p s ≡ true → has_prefix p (s ++ r) ≡ true
unfolding has_prefix
has_prefix-stays [] s r h = refl
has_prefix-stays (p ∷ ps) [] r h = cc
has_prefix-stays (p ∷ ps) (c ∷ s) r h =
    let later = has_prefix-stays ps s r in ground (arith, h, later)

pub contains-prefix : (p s : Str) → has_prefix p s ≡ true → contains p s ≡ true
unfolding contains
contains-prefix p [] h = h
contains-prefix p (c ∷ s) h = ground (arith, h)

-- A text contains what its parts contain.
pub contains-right : (p s r : Str) → contains p r ≡ true → contains p (s ++ r) ≡ true
unfolding contains
contains-right p [] r h = h
contains-right p (c ∷ s) r h = let later = contains-right p s r h in ground (arith, later)

pub contains-left : (p s r : Str) → contains p s ≡ true → contains p (s ++ r) ≡ true
unfolding contains
contains-left p [] r h = contains-prefix p r (has_prefix-stays p [] r h)
contains-left p (c ∷ s) r h =
    let later = contains-left p s r in
    let first = has_prefix-stays p (c ∷ s) r in ground (arith, h, later, first)
