-- ===== src/Rtp/Dtmf/Runs.antt =====
-- Concrete runs of the DTMF code, and the theorems at concrete inputs.
use xk6_sip_media.Prelude.{ℕ, ◌≡◌, refl, true, inr, List, [], ◌∷◌, arith}
use xk6_sip_media.Rtp.Session.{Session}
use xk6_sip_media.Rtp.Dtmf.{DtmfCollector, build_dtmf_payload}
use xk6_sip_media.Rtp.Dtmf.{digit_code}
use xk6_sip_media.Rtp.Dtmf.Collect.{Known, InStep, collect_all, send_digits, collect-send_digits}

payload_bytes : build_dtmf_payload 11 10 800 true ≡ 11 ∷ 138 ∷ 3 ∷ 32 ∷ []
unfolding build_dtmf_payload
payload_bytes = refl

abbrev sess : Session
sess = record { ssrc = 7; seq = 3; ts = 480 }

-- The digit 1 was received at the session's timestamp.
abbrev collector : DtmfCollector
collector = record {
  digits = (b'1' ∷ []) ∷ [];
  pt = 101;
  last_ts = 480;
  last_evt = 1;
  seeded = true;
}

abbrev one_one_pound : List (List ℕ)
one_one_pound = (b'1' ∷ []) ∷ (b'1' ∷ []) ∷ (b'#' ∷ []) ∷ []

one_one_pound-Known : Known one_one_pound
unfolding digit_code
one_one_pound-Known = (1, refl, (1, refl, (11, refl, tt)))

collector-InStep : InStep sess collector
collector-InStep = (omega arith, refl, inr refl)

collect-send_digits_example :
    (collect_all (send_digits one_one_pound sess).0 collector).digits
    ≡ (b'1' ∷ []) ∷ (b'1' ∷ []) ∷ (b'1' ∷ []) ∷ (b'#' ∷ []) ∷ []
collect-send_digits_example =
    collect-send_digits one_one_pound sess collector one_one_pound-Known collector-InStep
