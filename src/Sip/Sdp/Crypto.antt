-- ===== src/Sip/Sdp/Crypto.antt =====
-- What the SRTP readers make of the description that BuildSDPWithSRTP writes.
use xk6_sip_media.Prelude.{
  ℕ, ◌^◌, ◌<◌, ◌≡◌, refl, sym, ap, ◌∙◌, true, Option, none, some, List, [], ◌∷◌, ◌++◌, arith, take,
  drop,
}
use xk6_sip_media.Prelude.{if◌then◌else◌, length-drop, take-all_le, length, get_elem?}
use xk6_sip_media.Prelude.Int.{pos}
use xk6_sip_media.Prelude.Text.{
  Str, glue, codes, is_space, trim_space, has_prefix, contains, words, add_word, fields, itoa,
}
use xk6_sip_media.Prelude.Text.Words.{
  IsWord, IsWord-IsLine, IsLine, IsLine-append, is_line, is_line-IsLine, word-Ends, append-Ends,
  trim_space-Ends, crlf, EachLine, split-crlf, contains-left, contains-right, contains-prefix,
}
use xk6_sip_media.Rtp.Srtp.{Ciphers, SrtpConfig, ok, before_pipe, parse_srtp_config}
use xk6_sip_media.Sip.Call.{Direction}
use xk6_sip_media.Sip.Sdp.{
  lines_of, crypto_line, profile_line, media_port_line, first_line, parse_sdp_crypto,
  parse_sdp_srtp_profile, parse_sdp_media_port, is_srtp_offer,
}
use xk6_sip_media.Sip.Sdp.Build.{
  payload_type_name, payload_type_clock_rate, srtp_profile, srtp_lines, build_sdp_with_srtp,
}
use xk6_sip_media.Sip.Sdp.Lines.{words-IsWord, port_of_media}
use xk6_sip_media.Sip.Sdp.RoundTrip.{direction-IsLine, itoa-IsLine}
use xk6_sip_media.Sip.Sdp.Offer.{
  Finds, first_line-Finds, skips, plain_trim, direction-trim, crypto_direction, address-trim,
  type_name-IsLine, media, media-trim, rtpmap-trim, nowhere, here, later,
}

module _ (k : ℕ) (ks : Str) (h : IsWord (k ∷ ks)) where
  abbrev pub inline : Str
  inline = codes "inline:" ++ k ∷ ks

  abbrev crypto : Str
  crypto = glue (codes "a=crypto:1 " ∷ srtp_profile ∷ codes " " ∷ codes "inline:" ∷ (k ∷ ks) ∷ [])

  crypto-trim : trim_space crypto ≡ crypto
  unfolding is_space
  crypto-trim =
      trim_space-Ends b'a' _ refl (
        append-Ends (codes "=crypto:1 AES_CM_128_HMAC_SHA1_80 inline:") (k ∷ ks) (word-Ends k ks h))

  crypto-fields : fields crypto ≡ codes "a=crypto:1" ∷ srtp_profile ∷ inline ∷ []
  unfolding fields words is_space add_word
  crypto-fields =
      ap (λ t. codes "a=crypto:1" ∷ srtp_profile ∷ (codes "inline:" ++ t.0) ∷ t.1)
        (words-IsWord (k ∷ ks) h)

  -- The key is the third of the fields, the fourth is looked for.
  crypto-none : crypto_line (trim_space crypto) ≡ none
  unfolding crypto_line has_prefix
  crypto-none = ap crypto_line crypto-trim ∙ ap key_of crypto-fields
    where
      key_of : List Str → Option Str
      key_of fs = elim (get_elem? fs 3) [
        | none ↦ none
        | some key ↦ if has_prefix (codes "inline:") key then some key else none
      ]

  crypto-profile : profile_line (trim_space crypto) ≡ some inline
  unfolding profile_line has_prefix
  crypto-profile = ap profile_line crypto-trim ∙ ap (λ fs. get_elem? fs 2) crypto-fields

  module _ (c : ℕ) (cs : Str) (address : IsWord (c ∷ cs)) (port pt : ℕ) (d : Direction) where
    abbrev lines : List Str
    lines = srtp_lines (λ bytes. k ∷ ks) (c ∷ cs) port pt d []

    no_key : Finds crypto_line (lines ++ [] ∷ []) none
    unfolding crypto_line has_prefix
    no_key =
        let (version, name, time, p, empty) = plain_trim in
        let (origin, connection) = address-trim c cs address in
        later (skips crypto_line _ version refl) (
          later (skips crypto_line _ origin refl) (
            later (skips crypto_line _ name refl) (
              later (skips crypto_line _ connection refl) (
                later (skips crypto_line _ time refl) (
                  later (skips crypto_line _ (media-trim port pt) refl) (
                    later crypto-none (
                      later (skips crypto_line _ (rtpmap-trim pt) refl) (
                        later (skips crypto_line _ p refl) (
                          later (skips crypto_line _ (direction-trim d) (crypto_direction d))
                            (later (skips crypto_line [] empty refl) nowhere))))))))))

    a_profile : Finds profile_line (lines ++ [] ∷ []) (some inline)
    unfolding profile_line has_prefix
    a_profile =
        let (version, name, time, p, empty) = plain_trim in
        let (origin, connection) = address-trim c cs address in
        later (skips profile_line _ version refl) (
          later (skips profile_line _ origin refl) (
            later (skips profile_line _ name refl) (
              later (skips profile_line _ connection refl) (
                later (skips profile_line _ time refl)
                  (later (skips profile_line _ (media-trim port pt) refl) (here crypto-profile))))))

    a_port : port < 2 ^ 63 → Finds media_port_line (lines ++ [] ∷ []) (some (pos port))
    unfolding media_port_line has_prefix
    a_port b =
        let (version, name, time, p, empty) = plain_trim in
        let (origin, connection) = address-trim c cs address in
        later (skips media_port_line _ version refl) (
          later (skips media_port_line _ origin refl) (
            later (skips media_port_line _ name refl) (
              later (skips media_port_line _ connection refl) (
                later (skips media_port_line _ time refl) (
                  here (
                    ap media_port_line (media-trim port pt)
                    ∙ port_of_media port (codes "RTP/SAVP " ++ itoa pt) b))))))

    lines-EachLine : EachLine lines
    unfolding is_line payload_type_clock_rate
    lines-EachLine =
        let there = IsWord-IsLine (c ∷ cs) address in
        let this : (s : Str) → is_line s ≡ true → IsLine s = is_line-IsLine in
        (
          this (codes "v=0") refl,
          (
            IsLine-append (codes "o=k6load 0 0 IN IP4 ") (c ∷ cs)
                (this (codes "o=k6load 0 0 IN IP4 ") refl) there,
            (
              this (codes "s=xk6-sip-media load test") refl,
              (
                IsLine-append (codes "c=IN IP4 ") (c ∷ cs) (this (codes "c=IN IP4 ") refl) there,
                (
                  this (codes "t=0 0") refl,
                  (
                    IsLine-append (codes "m=audio ") _ (this (codes "m=audio ") refl) (
                        IsLine-append (itoa port) _ (itoa-IsLine port) (
                          IsLine-append (codes " RTP/SAVP ") (itoa pt)
                            (this (codes " RTP/SAVP ") refl) (itoa-IsLine pt))),
                    (
                      IsLine-append (codes "a=crypto:1 AES_CM_128_HMAC_SHA1_80 inline:") (k ∷ ks)
                          (this (codes "a=crypto:1 AES_CM_128_HMAC_SHA1_80 inline:") refl)
                          (IsWord-IsLine (k ∷ ks) h),
                      (
                        IsLine-append (codes "a=rtpmap:") _ (this (codes "a=rtpmap:") refl) (
                            IsLine-append (itoa pt) _ (itoa-IsLine pt) (
                              IsLine-append (codes " ") _ (this (codes " ") refl) (
                                IsLine-append (payload_type_name pt) _ (type_name-IsLine pt)
                                  (this (codes "/8000") refl)))),
                        (this (codes "a=ptime:20") refl, (direction-IsLine d, tt)),
                      ),
                    ),
                  ),
                ),
              ),
            ),
          ),
        )

    same_lines : lines_of (crlf lines) ≡ lines ++ [] ∷ []
    same_lines = split-crlf lines lines-EachLine

config_of :
    (cr : Ciphers) (key : List ℕ) (text : Str)
    → length key ≡ 30
    → before_pipe text ≡ text
    → cr.decode_base64 text ≡ some key
    → parse_srtp_config cr (codes "inline:" ++ text)
      ≡ ok (record { master_key = take 16 key; master_salt = drop 16 key })
unfolding parse_srtp_config
config_of cr key text n pipe decoded =
    let salt : take 14 (drop 16 key) ≡ drop 16 key =
      take-all_le 14 (drop 16 key) (omega (arith, length-drop 16 key, n)) in
    let raw : cr.decode_base64 (before_pipe text) ≡ some key =
      ap (λ t. cr.decode_base64 t) pipe ∙ decoded in
    ground (arith, n, raw, salt)

in_later :
    (p l : Str) (ls : List Str) → contains p (crlf ls) ≡ true → contains p (crlf (l ∷ ls)) ≡ true
in_later p l ls h = contains-right p l _ (contains-right p (b'\r' ∷ b'\n' ∷ []) (crlf ls) h)

savp_offer :
    (ip : Str) (port pt : ℕ) (d : Direction) (text : Str)
    → contains (codes "RTP/SAVP") (crlf (srtp_lines (λ bytes. text) ip port pt d [])) ≡ true
unfolding has_prefix
savp_offer ip port pt d text =
    let p = codes "RTP/SAVP" in
    let line : contains p (media port pt) ≡ true = contains-right p (codes "m=audio ") _ (
      contains-right p (itoa port) _
        (contains-right p (codes " ") _ (contains-prefix p (codes "RTP/SAVP " ++ itoa pt) refl))) in
    let ls = srtp_lines (λ bytes. text) ip port pt d [] in
    in_later p (codes "v=0") (drop 1 ls) (
      in_later p (glue (codes "o=k6load 0 0 IN IP4 " ∷ ip ∷ [])) (drop 2 ls) (
        in_later p (codes "s=xk6-sip-media load test") (drop 3 ls) (
          in_later p (glue (codes "c=IN IP4 " ∷ ip ∷ [])) (drop 4 ls) (
            in_later p (codes "t=0 0") (drop 5 ls)
              (contains-left p (media port pt) (b'\r' ∷ b'\n' ∷ crlf (drop 6 ls)) line)))))

-- BuildSDPWithSRTP writes a key from which ParseSRTPConfig makes its own configuration again, and
-- a port that ParseSDPMediaPort finds, in a description that is recognised as an SRTP offer. But
-- ParseSDPCrypto does not find the key in it, and ParseSDPSRTPProfile gives the key for the profile.
pub crypto_not_found :
    (cr : Ciphers) (encode_base64 : List ℕ → Str) (c : ℕ) (cs : Str) (port pt : ℕ) (d : Direction)
    (key : List ℕ) (k : ℕ) (ks : Str)
    → IsWord (c ∷ cs)
    → port < 2 ^ 63
    → length key ≡ 30
    → encode_base64 key ≡ k ∷ ks
    → IsWord (k ∷ ks)
    → before_pipe (k ∷ ks) ≡ k ∷ ks
    → cr.decode_base64 (k ∷ ks) ≡ some key
    → (body : Str) × (cfg : SrtpConfig) × (build_sdp_with_srtp encode_base64
          (c ∷ cs)
          port
          pt
          d
          (some key)
        ≡ some (body, cfg))
      × (parse_srtp_config cr (codes "inline:" ++ encode_base64 key) ≡ ok cfg)
      × (parse_sdp_media_port body ≡ pos port)
      × (is_srtp_offer body ≡ true)
      × (parse_sdp_crypto body ≡ [])
      × (parse_sdp_srtp_profile body ≡ codes "inline:" ++ encode_base64 key)
unfolding build_sdp_with_srtp parse_sdp_media_port parse_sdp_crypto parse_sdp_srtp_profile
    is_srtp_offer
crypto_not_found cr encode_base64 c cs port pt d key k ks address b n encoded word pipe decoded =
    let body = crlf (srtp_lines (λ bytes. k ∷ ks) (c ∷ cs) port pt d []) in
    let split = same_lines k ks word c cs address port pt d in
    (
      body,
      record { master_key = take 16 key; master_salt = drop 16 key },
      ap
          (λ e. some (
            crlf (srtp_lines (λ bytes. e) (c ∷ cs) port pt d []),
            record { master_key = take 16 key; master_salt = drop 16 key },
          ))
          encoded,
      ap (λ e. parse_srtp_config cr (codes "inline:" ++ e)) encoded
          ∙ config_of cr key (k ∷ ks) n pipe decoded,
      ap (first_line media_port_line (pos 0)) split
          ∙ first_line-Finds media_port_line (pos 0) (a_port k ks word c cs address port pt d b),
      savp_offer (c ∷ cs) port pt d (k ∷ ks),
      ap (first_line crypto_line []) split
          ∙ first_line-Finds crypto_line [] (no_key k ks word c cs address port pt d),
      ap (first_line profile_line []) split
          ∙ first_line-Finds profile_line [] (a_profile k ks word c cs address port pt d)
          ∙ ap (λ e. codes "inline:" ++ e) (sym encoded),
    )
