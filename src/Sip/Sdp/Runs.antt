-- ===== src/Sip/Sdp/Runs.antt =====
-- Runs of the session descriptions.
use xk6_sip_media.Prelude.{ℕ, ◌≡◌, refl, true, some, List, [], ◌∷◌, ◌++◌, arith, replicate}
use xk6_sip_media.Prelude.Int.{pos}
use xk6_sip_media.Prelude.Text.{Str, codes, is_space, upper}
use xk6_sip_media.Prelude.Text.Words.{IsWord, is_word, is_word-IsWord}
use xk6_sip_media.Rtp.Srtp.{SrtpConfig, ok, before_pipe, parse_srtp_config}
use xk6_sip_media.Rtp.Srtp.Toy.{toy_ciphers}
use xk6_sip_media.Sip.Call.{sendrecv, inactive}
use xk6_sip_media.Sip.Sdp.{
  parse_sdp, with_defaults, parse_sdp_crypto, parse_sdp_srtp_profile, parse_sdp_media_port,
  is_srtp_offer,
}
use xk6_sip_media.Sip.Sdp.Build.{build_sdp, codec_name, build_sdp_with_srtp}
use xk6_sip_media.Sip.Sdp.RoundTrip.{parse_sdp-build_sdp}
use xk6_sip_media.Sip.Sdp.Crypto.{crypto_not_found}

abbrev address : Str
address = codes "192.0.2.1"

address-IsWord : IsWord address
unfolding is_word is_space
address-IsWord = is_word-IsWord address refl

parse_sdp-build_sdp_example :
    parse_sdp (λ c. c) (build_sdp address 5004 111 inactive 3)
    ≡ with_defaults (record { ip = address; port = pos 5004; pt_map = (111, codes "OPUS") ∷ [] })
unfolding upper codec_name
parse_sdp-build_sdp_example =
    parse_sdp-build_sdp (λ c. c) b'1' (codes "92.0.2.1") 5004 111 inactive 3 address-IsWord
      (omega arith) (omega arith)

abbrev key : List ℕ
key = replicate 30 b'A'

key-IsWord : IsWord key
unfolding is_word is_space
key-IsWord = is_word-IsWord key refl

crypto_not_found_example :
    (body : Str) × (cfg : SrtpConfig) × (build_sdp_with_srtp
        (λ bytes. bytes)
        address
        5004
        0
        sendrecv
        (some key)
      ≡ some (body, cfg))
    × (parse_srtp_config toy_ciphers (codes "inline:" ++ key) ≡ ok cfg)
    × (parse_sdp_media_port body ≡ pos 5004)
    × (is_srtp_offer body ≡ true)
    × (parse_sdp_crypto body ≡ [])
    × (parse_sdp_srtp_profile body ≡ codes "inline:" ++ key)
unfolding before_pipe
crypto_not_found_example =
    crypto_not_found toy_ciphers (λ bytes. bytes) b'1' (codes "92.0.2.1") 5004 0 sendrecv key b'A'
      (replicate 29 b'A') address-IsWord (omega arith) refl refl key-IsWord refl refl
