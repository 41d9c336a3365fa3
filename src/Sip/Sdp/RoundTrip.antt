-- ===== src/Sip/Sdp/RoundTrip.antt =====
-- What BuildSDP writes, ParseSDP reads back.
use xk6_sip_media.Prelude.{ℕ, ◌^◌, ◌<◌, ◌≡◌, refl, ap, ◌∙◌, List, [], ◌∷◌, ◌++◌, map}
use xk6_sip_media.Prelude.{◌==◌, Bool-cases, inl, inr}
use xk6_sip_media.Prelude.NatMap.{insert}
use xk6_sip_media.Prelude.Int.{pos}
use xk6_sip_media.Prelude.Text.{
  Str, codes, is_space, trim_left, trim_right, keep_before, trim_space, has_prefix, itoa, upper,
}
use xk6_sip_media.Prelude.Text.Words.{
  IsWord, IsWord-IsLine, IsLine, IsLine-append, is_line, is_line-IsLine, EachLine, split-crlf,
}
use xk6_sip_media.Prelude.Text.Numbers.{itoa-IsWord}
use xk6_sip_media.Sip.Call.{Direction, sendrecv, sendonly, recvonly, inactive}
use xk6_sip_media.Sip.Sdp.{
  Sdp, connection_line, media_line, rtpmap_line, parse_line, parse_lines, with_defaults, parse_sdp,
}
use xk6_sip_media.Sip.Sdp.Build.{
  direction_text, codec_name, clock_rate, channels, sdp_lines, build_sdp,
}
use xk6_sip_media.Sip.Sdp.Lines.{
  origin_line, address_line, audio_line, codec_line, direction_line, codec_names,
}

rate-IsLine : (pt : ℕ) → IsLine (clock_rate pt ++ channels pt)
unfolding clock_rate channels is_line
rate-IsLine pt = elim (Bool-cases (pt == 111)) [
  | inl opus ↦ rw opus (is_line-IsLine (codes "48000/2") refl)
  | inr other ↦ rw other (is_line-IsLine (codes "8000") refl)
]

name-IsLine : (pt : ℕ) → IsLine (codec_name pt)
unfolding is_line
name-IsLine pt =
    codec_names IsLine (is_line-IsLine (codes "PCMA") refl) (is_line-IsLine (codes "G722") refl)
      (is_line-IsLine (codes "G729") refl) (is_line-IsLine (codes "opus") refl)
      (is_line-IsLine (codes "PCMU") refl) pt

pub direction-IsLine : (d : Direction) → IsLine (codes "a=" ++ direction_text d)
unfolding direction_text is_line
direction-IsLine sendrecv = is_line-IsLine (codes "a=sendrecv") refl
direction-IsLine sendonly = is_line-IsLine (codes "a=sendonly") refl
direction-IsLine recvonly = is_line-IsLine (codes "a=recvonly") refl
direction-IsLine inactive = is_line-IsLine (codes "a=inactive") refl

pub itoa-IsLine : (n : ℕ) → IsLine (itoa n)
itoa-IsLine n = IsWord-IsLine (itoa n) (itoa-IsWord n)

sdp_lines-EachLine :
    (ip : Str) (port pt : ℕ) (d : Direction) (version : ℕ)
    → IsWord ip
    → EachLine (sdp_lines ip port pt d version)
unfolding is_line
sdp_lines-EachLine ip port pt d version h =
    let address = IsWord-IsLine ip h in
    (
      is_line-IsLine (codes "v=0") refl,
      (
        IsLine-append (codes "o=k6load 0 ") _ (is_line-IsLine (codes "o=k6load 0 ") refl) (
            IsLine-append (itoa version) _ (itoa-IsLine version) (
              IsLine-append (codes " IN IP4 ") ip (is_line-IsLine (codes " IN IP4 ") refl)
                address)),
        (
          is_line-IsLine (codes "s=xk6-sip-media load test") refl,
          (
            IsLine-append (codes "c=IN IP4 ") ip (is_line-IsLine (codes "c=IN IP4 ") refl) address,
            (
              is_line-IsLine (codes "t=0 0") refl,
              (
                IsLine-append (codes "m=audio ") _ (is_line-IsLine (codes "m=audio ") refl) (
                    IsLine-append (itoa port) _ (itoa-IsLine port) (
                      IsLine-append (codes " RTP/AVP ") (itoa pt)
                        (is_line-IsLine (codes " RTP/AVP ") refl) (itoa-IsLine pt))),
                (
                  IsLine-append (codes "a=rtpmap:") _ (is_line-IsLine (codes "a=rtpmap:") refl) (
                      IsLine-append (itoa pt) _ (itoa-IsLine pt) (
                        IsLine-append (codes " ") _ (is_line-IsLine (codes " ") refl) (
                          IsLine-append (codec_name pt) _ (name-IsLine pt) (
                            IsLine-append (codes "/") _ (is_line-IsLine (codes "/") refl)
                              (rate-IsLine pt))))),
                  (is_line-IsLine (codes "a=ptime:20") refl, (direction-IsLine d, tt)),
                ),
              ),
            ),
          ),
        ),
      ),
    )

module _ (wide : ℕ → ℕ) where
  -- The lines take the parser from one state to another.
  pub data Reads : List Str → Sdp → Sdp → Type 0 where
    no_line : {s : Sdp} → Reads [] s s
    line :
        {l : Str} {ls : List Str} {s r t : Sdp}
        → parse_line wide (trim_space l) s ≡ r
        → Reads ls r t
        → Reads (l ∷ ls) s t

  pub parse_lines-Reads : {ls : List Str} {s t : Sdp} → Reads ls s t → parse_lines wide ls s ≡ t
  unfolding parse_lines
  parse_lines-Reads no_line = refl
  parse_lines-Reads (line {ls = ls} e rest) = ap (parse_lines wide ls) e ∙ parse_lines-Reads rest

  pub plain_line :
      (s : Sdp)
      → (parse_line wide (trim_space (codes "v=0")) s ≡ s)
        × (parse_line wide (trim_space (codes "s=xk6-sip-media load test")) s ≡ s)
        × (parse_line wide (trim_space (codes "t=0 0")) s ≡ s)
        × (parse_line wide (trim_space (codes "a=ptime:20")) s ≡ s)
        × (parse_line wide (trim_space []) s ≡ s)
  unfolding parse_line connection_line media_line rtpmap_line has_prefix trim_space trim_left
      trim_right keep_before is_space
  plain_line s = (refl, refl, refl, refl, refl)

  abbrev empty : Sdp
  empty = record { ip = []; port = pos 0; pt_map = [] }

  read_lines :
      (c : ℕ) (cs : Str) (port pt : ℕ) (d : Direction) (version : ℕ)
      → IsWord (c ∷ cs)
      → port < 2 ^ 63
      → pt < 256
      → parse_lines wide (sdp_lines (c ∷ cs) port pt d version ++ [] ∷ []) empty
        ≡ record { ip = c ∷ cs; port = pos port; pt_map = (pt, map upper (codec_name pt)) ∷ [] }
  unfolding insert
  read_lines c cs port pt d version h b b' =
      let s1 : Sdp = record { ip = c ∷ cs; port = pos 0; pt_map = [] } in
      let s2 : Sdp = record s1 { port = pos port } in
      let s3 : Sdp = record s2 { pt_map = (pt, map upper (codec_name pt)) ∷ [] } in
      let (v, name, time, p, nothing) = plain_line empty in
      parse_lines-Reads (
        line v (
          line (origin_line wide c cs h version empty) (
            line name (
              line (address_line wide c cs h empty) (
                line (plain_line s1).2 (
                  line (audio_line wide port pt s1 b) (
                    line (codec_line wide pt s2 b') (
                      line (plain_line s3).3
                        (line (direction_line wide d s3) (line (plain_line s3).4 no_line))))))))))

  -- From the description that buildSDP makes of an address without spaces, a port below 2 ^ 63, a
  -- payload type and a direction, ParseSDP gets back the address, the port and a codec table with
  -- the upper-case name of that payload type and the static types 0 and 8, whatever the version.
  pub parse_sdp-build_sdp :
      (c : ℕ) (cs : Str) (port pt : ℕ) (d : Direction) (version : ℕ)
      → IsWord (c ∷ cs)
      → port < 2 ^ 63
      → pt < 256
      → parse_sdp wide (build_sdp (c ∷ cs) port pt d version)
        ≡ with_defaults
            (record { ip = c ∷ cs; port = pos port; pt_map = (pt, map upper (codec_name pt)) ∷ [] })
  unfolding parse_sdp build_sdp
  parse_sdp-build_sdp c cs port pt d version h b b' =
      ap (λ ls. with_defaults (parse_lines wide ls empty))
        (split-crlf (sdp_lines (c ∷ cs) port pt d version)
          (sdp_lines-EachLine (c ∷ cs) port pt d version h))
      ∙ ap with_defaults (read_lines c cs port pt d version h b b')
