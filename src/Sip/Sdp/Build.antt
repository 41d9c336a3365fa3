-- ===== src/Sip/Sdp/Build.antt =====
-- sip/sdp.go and sip/sdp_srtp.go: the offers that the code builds.
use xk6_sip_media.Prelude.{ℕ, Option, none, some, List, [], ◌∷◌, ◌++◌, take, drop}
use xk6_sip_media.Prelude.{◌==◌, if◌then◌else◌}
use xk6_sip_media.Prelude.Text.{Str, glue, codes, itoa}
use xk6_sip_media.Prelude.Text.Words.{crlf}
use xk6_sip_media.Rtp.Srtp.{SrtpConfig}
use xk6_sip_media.Sip.Call.{Direction, sendrecv, sendonly, recvonly, inactive}

unfoldable pub direction_text : Direction → Str
direction_text sendrecv = codes "sendrecv"
direction_text sendonly = codes "sendonly"
direction_text recvonly = codes "recvonly"
direction_text inactive = codes "inactive"

unfoldable pub codec_name : ℕ → Str
codec_name pt =
    if pt == 8
    then codes "PCMA"
    else if pt == 9
    then codes "G722"
    else if pt == 18
    then codes "G729"
    else if pt == 111
    then codes "opus"
    else codes "PCMU"

unfoldable pub clock_rate : ℕ → Str
clock_rate pt = if pt == 111 then codes "48000" else codes "8000"

unfoldable pub channels : ℕ → Str
channels pt = if pt == 111 then codes "/2" else []

-- The lines of buildSDP, each of which ends with "\r\n".
abbrev pub sdp_lines : Str → ℕ → ℕ → Direction → ℕ → List Str
sdp_lines ip port pt direction version =
    codes "v=0"
    ∷ (glue ((codes "o=k6load 0 ") ∷ (itoa version) ∷ (codes " IN IP4 ") ∷ ip ∷ []))
    ∷ codes "s=xk6-sip-media load test"
    ∷ (glue ((codes "c=IN IP4 ") ∷ ip ∷ []))
    ∷ codes "t=0 0"
    ∷ (glue ((codes "m=audio ") ∷ (itoa port) ∷ (codes " RTP/AVP ") ∷ (itoa pt) ∷ []))
    ∷ (glue (
        (codes "a=rtpmap:")
        ∷ (itoa pt)
        ∷ (codes " ")
        ∷ (codec_name pt)
        ∷ (codes "/")
        ∷ (clock_rate pt)
        ∷ (channels pt)
        ∷ []))
    ∷ codes "a=ptime:20"
    ∷ (glue ((codes "a=") ∷ (direction_text direction) ∷ []))
    ∷ []

unfoldable pub build_sdp : Str → ℕ → ℕ → Direction → ℕ → Str
build_sdp ip port pt direction version = crlf (sdp_lines ip port pt direction version)

unfoldable pub payload_type_name : ℕ → Str
payload_type_name pt =
    if pt == 0
    then codes "PCMU"
    else if pt == 8
    then codes "PCMA"
    else if pt == 9
    then codes "G722"
    else codes "unknown" ++ itoa pt

unfoldable pub payload_type_clock_rate : ℕ → Str
payload_type_clock_rate pt = codes "8000"

abbrev pub srtp_profile : Str
srtp_profile = codes "AES_CM_128_HMAC_SHA1_80"

module _ (encode_base64 : List ℕ → Str) where
  abbrev pub srtp_lines : Str → ℕ → ℕ → Direction → List ℕ → List Str
  srtp_lines ip port pt direction key_bytes =
      codes "v=0"
      ∷ (glue ((codes "o=k6load 0 0 IN IP4 ") ∷ ip ∷ []))
      ∷ codes "s=xk6-sip-media load test"
      ∷ (glue ((codes "c=IN IP4 ") ∷ ip ∷ []))
      ∷ codes "t=0 0"
      ∷ (glue ((codes "m=audio ") ∷ (itoa port) ∷ (codes " RTP/SAVP ") ∷ (itoa pt) ∷ []))
      ∷ (glue (
          (codes "a=crypto:1 ")
          ∷ srtp_profile
          ∷ (codes " ")
          ∷ (codes "inline:")
          ∷ (encode_base64 key_bytes)
          ∷ []))
      ∷ (glue (
          (codes "a=rtpmap:")
          ∷ (itoa pt)
          ∷ (codes " ")
          ∷ (payload_type_name pt)
          ∷ (codes "/")
          ∷ (payload_type_clock_rate pt)
          ∷ []))
      ∷ codes "a=ptime:20"
      ∷ (glue ((codes "a=") ∷ (direction_text direction) ∷ []))
      ∷ []

  -- BuildSDPWithSRTP. `random` is what the random generator fills the 30 bytes with; `none` is its
  -- error.
  unfoldable pub build_sdp_with_srtp :
      Str → ℕ → ℕ → Direction → Option (List ℕ) → Option (Str × SrtpConfig)
  build_sdp_with_srtp ip port pt direction none = none
  build_sdp_with_srtp ip port pt direction (some key_bytes) = some (
    crlf (srtp_lines ip port pt direction key_bytes),
    record { master_key = take 16 key_bytes; master_salt = drop 16 key_bytes },
  )
