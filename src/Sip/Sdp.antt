-- ===== src/Sip/Sdp.antt =====
-- sip/sdp.go and sip/sdp_srtp.go: building and parsing session descriptions. `wide` is the upper
-- case of the code points beyond ASCII, from the tables of Go's package unicode.
pub mod Build
pub mod Lines
pub mod RoundTrip
pub mod Offer
pub mod Crypto
mod Runs
use xk6_sip_media.Prelude.{
  ℕ, zero, suc, ◌+◌, ◌-◌, ◌%◌, Bool, true, false, not, ◌&&◌, ◌||◌, Option, none, some, List, [],
  ◌∷◌, ◌++◌, map,
}
use xk6_sip_media.Prelude.{ltb, leb, ◌==◌, if◌then◌else◌, length, get_elem?, drop, ◌>>=◌}
use xk6_sip_media.Prelude.NatMap.{lookup, insert}
use xk6_sip_media.Prelude.Int.{ℤ, pos, negsuc}
use xk6_sip_media.Prelude.Text.{
  Str, codes, trim_space, has_prefix, contains, split, cut, unix_lines, fields, atoi, upper,
}

-- The results of ParseSDP.
pub record Sdp : Type 0 where
  pub ip : Str
  pub port : ℤ
  pub pt_map : List (ℕ × Str)

-- The conversion of an int to a uint8.
unfoldable pub byte_of : ℤ → ℕ
byte_of (pos n) = n % 256
byte_of (negsuc n) = 255 - n % 256

abbrev pub lines_of : Str → List Str
lines_of body = split b'\n' (unix_lines body)

unfoldable pub connection_line : Str → Sdp → Sdp
connection_line line s =
    if has_prefix (codes "c=IN IP4 ") line
    then elim (get_elem? (fields line) 2) [ none ↦ s | some ip ↦ record s { ip = ip } ]
    else s

unfoldable pub port_of : Str → Option ℤ
port_of line = get_elem? (fields line) 1 >>= atoi

unfoldable pub media_line : Str → Sdp → Sdp
media_line line s =
    if has_prefix (codes "m=audio ") line
    then elim (port_of line) [ none ↦ s | some p ↦ record s { port = p } ]
    else s

-- The static payload types are added where the description does not name them.
unfoldable pub with_default : ℕ → Str → List (ℕ × Str) → List (ℕ × Str)
with_default pt name m = elim (lookup pt m) [ none ↦ insert pt name m | some other ↦ m ]

unfoldable pub with_defaults : Sdp → Sdp
with_defaults s = record s {
  pt_map = with_default 8 (codes "PCMA") (with_default 0 (codes "PCMU") s.pt_map);
}

module _ (wide : ℕ → ℕ) where
  unfoldable pub to_upper : Str → Str
  to_upper s = map (λ c. if ltb c 128 then upper c else wide c) s

  -- The payload type before the first space, and the name up to the first slash after it.
  unfoldable pub add_codec : Option ℤ → Str → Sdp → Sdp
  add_codec none codec s = s
  add_codec (some pt) codec s = record s {
    pt_map = insert (byte_of pt) (to_upper (cut b'/' codec).0) s.pt_map;
  }

  unfoldable pub rtpmap_line : Str → Sdp → Sdp
  rtpmap_line line s =
      if has_prefix (codes "a=rtpmap:") line
      then (let (pt, codec) = cut b' ' (drop 9 line) in
          elim codec [ none ↦ s | some codec ↦ add_codec (atoi pt) codec s ])
      else s

  unfoldable pub parse_line : Str → Sdp → Sdp
  parse_line line s = rtpmap_line line (media_line line (connection_line line s))

  unfoldable pub parse_lines : List Str → Sdp → Sdp
  parse_lines [] s = s
  parse_lines (line ∷ lines) s = parse_lines lines (parse_line (trim_space line) s)

  unfoldable pub parse_sdp : Str → Sdp
  parse_sdp body =
      with_defaults (parse_lines (lines_of body) (record { ip = []; port = pos 0; pt_map = [] }))

-- The first line with a crypto attribute and an inline key.
unfoldable pub crypto_line : Str → Option Str
crypto_line line =
    if not (has_prefix (codes "a=crypto:") line) then none else elim (get_elem? (fields line) 3) [
      | none ↦ none
      | some key ↦ if has_prefix (codes "inline:") key then some key else none
    ]

unfoldable pub profile_line : Str → Option Str
profile_line line = if has_prefix (codes "a=crypto:") line then get_elem? (fields line) 2 else none

unfoldable pub media_port_line : Str → Option ℤ
media_port_line line =
    if has_prefix (codes "m=audio ") line || has_prefix (codes "m=") line
    then port_of line
    else none

unfoldable pub first_line {ℓ} : {A : Type ℓ} → (Str → Option A) → A → List Str → A
first_line f otherwise [] = otherwise
first_line f otherwise (line ∷ lines) =
    let later = first_line f otherwise lines in
    elim (f (trim_space line)) [ none ↦ later | some a ↦ a ]

unfoldable pub parse_sdp_crypto : Str → Str
parse_sdp_crypto body = first_line crypto_line [] (lines_of body)

unfoldable pub parse_sdp_srtp_profile : Str → Str
parse_sdp_srtp_profile body = first_line profile_line [] (lines_of body)

unfoldable pub parse_sdp_media_port : Str → ℤ
parse_sdp_media_port body = first_line media_port_line (pos 0) (lines_of body)

unfoldable pub is_srtp_offer : Str → Bool
is_srtp_offer body = contains (codes "RTP/SAVP") body
