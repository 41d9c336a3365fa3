-- ===== src/Sip/Sdp/Offer.antt =====
-- The lines of the description that BuildSDPWithSRTP writes, and the search for the first that fits.
use xk6_sip_media.Prelude.{ℕ, ◌≡◌, refl, ap, ◌∙◌, Option, none, some, List, [], ◌∷◌, ◌++◌, arith}
use xk6_sip_media.Prelude.{if_both}
use xk6_sip_media.Prelude.Text.{
  Str, glue, codes, is_space, trim_left, trim_right, keep_before, trim_space, has_prefix, itoa,
}
use xk6_sip_media.Prelude.Text.Words.{
  IsWord, is_word, is_word-IsWord, IsLine, IsLine-append, is_line, is_line-IsLine, word-Ends,
  append-Ends, trim_space-Ends,
}
use xk6_sip_media.Sip.Call.{Direction, sendrecv, sendonly, recvonly, inactive}
use xk6_sip_media.Sip.Sdp.{crypto_line, first_line}
use xk6_sip_media.Sip.Sdp.Build.{direction_text, payload_type_name, payload_type_clock_rate}
use xk6_sip_media.Sip.Sdp.Lines.{itoa-Ends}
use xk6_sip_media.Sip.Sdp.RoundTrip.{itoa-IsLine}

-- The first of the lines that gives something, or that none does.
pub data Finds {ℓ} {A : Type ℓ} (f : Str → Option A) : List Str → Option A → Type ℓ where
  nowhere : Finds f [] none
  here : {l : Str} {ls : List Str} {a : A} → f (trim_space l) ≡ some a → Finds f (l ∷ ls) (some a)
  later :
      {l : Str} {ls : List Str} {o : Option A}
      → f (trim_space l) ≡ none
      → Finds f ls o
      → Finds f (l ∷ ls) o

abbrev pub or_default {ℓ} : {A : Type ℓ} → Option A → A → A
or_default none d = d
or_default (some a) d = a

pub first_line-Finds {ℓ} :
    {A : Type ℓ} (f : Str → Option A) (d : A) {ls : List Str} {o : Option A}
    → Finds f ls o
    → first_line f d ls ≡ or_default o d
unfolding first_line or_default
first_line-Finds f d nowhere = refl
first_line-Finds f d (here e) = ground (arith, e)
first_line-Finds f d (later e rest) = let r = first_line-Finds f d rest in ground (arith, e, r)

-- A line that is left as it is and in which nothing is found.
pub skips {ℓ} :
    {A : Type ℓ} (f : Str → Option A) (l : Str)
    → trim_space l ≡ l
    → f l ≡ none
    → f (trim_space l) ≡ none
skips f l t e = ap f t ∙ e

pub plain_trim :
    (trim_space (codes "v=0") ≡ codes "v=0")
    × (trim_space (codes "s=xk6-sip-media load test") ≡ codes "s=xk6-sip-media load test")
    × (trim_space (codes "t=0 0") ≡ codes "t=0 0")
    × (trim_space (codes "a=ptime:20") ≡ codes "a=ptime:20")
    × (trim_space [] ≡ [])
unfolding trim_space trim_left trim_right keep_before is_space
plain_trim = (refl, refl, refl, refl, refl)

pub direction-trim :
    (d : Direction)
    → trim_space (glue (codes "a=" ∷ direction_text d ∷ []))
      ≡ glue (codes "a=" ∷ direction_text d ∷ [])
unfolding trim_space trim_left trim_right keep_before is_space direction_text
direction-trim sendrecv = refl
direction-trim sendonly = refl
direction-trim recvonly = refl
direction-trim inactive = refl

pub crypto_direction :
    (d : Direction) → crypto_line (glue (codes "a=" ∷ direction_text d ∷ [])) ≡ none
unfolding crypto_line has_prefix direction_text
crypto_direction sendrecv = refl
crypto_direction sendonly = refl
crypto_direction recvonly = refl
crypto_direction inactive = refl

module _ (c : ℕ) (cs : Str) (h : IsWord (c ∷ cs)) where
  pub address-trim :
      (trim_space (glue (codes "o=k6load 0 0 IN IP4 " ∷ (c ∷ cs) ∷ []))
        ≡ glue (codes "o=k6load 0 0 IN IP4 " ∷ (c ∷ cs) ∷ []))
      × (trim_space (glue (codes "c=IN IP4 " ∷ (c ∷ cs) ∷ []))
          ≡ glue (codes "c=IN IP4 " ∷ (c ∷ cs) ∷ []))
  unfolding is_space
  address-trim = (
    trim_space-Ends b'o' _ refl
        (append-Ends (codes "=k6load 0 0 IN IP4 ") (c ∷ cs) (word-Ends c cs h)),
    trim_space-Ends b'c' _ refl (append-Ends (codes "=IN IP4 ") (c ∷ cs) (word-Ends c cs h)),
  )

pub type_names :
    (P : Str → Type 0) (pt : ℕ)
    → P (codes "PCMU")
    → P (codes "PCMA")
    → P (codes "G722")
    → P (codes "unknown" ++ itoa pt)
    → P (payload_type_name pt)
unfolding payload_type_name
type_names P pt a b c d = if_both P _ _ _ a (if_both P _ _ _ b (if_both P _ _ _ c d))

pub type_name-IsLine : (pt : ℕ) → IsLine (payload_type_name pt)
unfolding is_line
type_name-IsLine pt =
    type_names IsLine pt (is_line-IsLine (codes "PCMU") refl) (is_line-IsLine (codes "PCMA") refl)
      (is_line-IsLine (codes "G722") refl)
      (IsLine-append (codes "unknown") (itoa pt) (is_line-IsLine (codes "unknown") refl)
        (itoa-IsLine pt))

abbrev pub media : ℕ → ℕ → Str
media port pt = glue (codes "m=audio " ∷ itoa port ∷ codes " RTP/SAVP " ∷ itoa pt ∷ [])

pub media-trim : (port pt : ℕ) → trim_space (media port pt) ≡ media port pt
unfolding is_space
media-trim port pt = trim_space-Ends b'm' _ refl (
    append-Ends (codes "=audio ") _
      (append-Ends (itoa port) _ (append-Ends (codes " RTP/SAVP ") (itoa pt) (itoa-Ends pt))))

abbrev pub rtpmap : ℕ → Str
rtpmap pt = glue (
    codes "a=rtpmap:"
    ∷ itoa pt
    ∷ codes " "
    ∷ payload_type_name pt
    ∷ codes "/"
    ∷ payload_type_clock_rate pt
    ∷ [])

pub rtpmap-trim : (pt : ℕ) → trim_space (rtpmap pt) ≡ rtpmap pt
unfolding is_space is_word payload_type_clock_rate
rtpmap-trim pt = trim_space-Ends b'a' _ refl (
    append-Ends (codes "=rtpmap:") _ (
      append-Ends (itoa pt) _ (
        append-Ends (codes " ") _ (
          append-Ends (payload_type_name pt) _ (
            append-Ends (codes "/") (codes "8000")
              (word-Ends b'8' (codes "000") (is_word-IsWord (codes "8000") refl)))))))
