-- ===== src/Rtp/SrtpStream/Runs.antt =====
-- An encrypted stream of three payloads.
use xk6_sip_media.Prelude.{
  ℕ, suc, ◌/◌, ◌%◌, ◌≡◌, refl, true, false, some, List, [], ◌∷◌, length, map, replicate, arith,
  if◌then◌else◌,
}
use xk6_sip_media.Rtp.Packet.{Packet}
use xk6_sip_media.Rtp.Session
use xk6_sip_media.Rtp.Sender.{SendStats}
use xk6_sip_media.Rtp.Sender.Stream.{packets_of}
use xk6_sip_media.Rtp.Srtp.{SrtpConfig, SrtpSession, ok, new_session}
use xk6_sip_media.Rtp.Srtp.Toy.{toy_ciphers}
use xk6_sip_media.Rtp.SrtpStream.{SrtpTick, new_srtp_stream, run}
use xk6_sip_media.Rtp.SrtpStream.Secured.{IsEncoding, decrypt_all, srtp_stream_opens}

-- A header of twelve bytes with the fields that the example looks at, then the payload.
abbrev plain_encoding : Packet → List ℕ
plain_encoding pkt =
    0x80
    ∷ pkt.payload_type
    ∷ pkt.sequence_number / 256
    ∷ pkt.sequence_number % 256
    ∷ 0
    ∷ 0
    ∷ 0
    ∷ 0
    ∷ 0
    ∷ 0
    ∷ 0
    ∷ pkt.ssrc
    ∷ pkt.payload

plain-IsEncoding : IsEncoding (λ pkt. some (plain_encoding pkt)) plain_encoding
plain-IsEncoding = record {
  marshals = λ pkt. refl;
  has_header = λ pkt. omega arith;
  has_seq = λ pkt h. omega arith;
}

abbrev config : SrtpConfig
config = record { master_key = replicate 16 11; master_salt = replicate 14 22 }

abbrev payloads : List (List ℕ)
payloads = (1 ∷ 2 ∷ []) ∷ (3 ∷ 4 ∷ []) ∷ (5 ∷ 6 ∷ []) ∷ []

abbrev no_stats : SendStats
no_stats = record { packets_sent = 0; octets_sent = 0; bytes_sent = 0 }

srtp_stream_opens_example :
    (s : SrtpSession) × (r : SrtpSession) × (t : SrtpTick) × (new_session toy_ciphers config 77 true
      ≡ ok s)
    × (new_session toy_ciphers config 77 false ≡ ok r)
    × (run toy_ciphers
          (λ pkt. some (plain_encoding pkt))
          (suc (length payloads))
          (new_srtp_stream (Session.new_session 77) s payloads 0 160 no_stats true)
        ≡ some t)
    × (t.kept ≡ false)
    × (t.done_calls ≡ (if true then 1 else 0))
    × (decrypt_all toy_ciphers t.sent r
        ≡ map ok (map plain_encoding (packets_of 0 77 160 0 0 payloads)))
srtp_stream_opens_example =
    srtp_stream_opens toy_ciphers (λ pkt. some (plain_encoding pkt)) plain_encoding plain-IsEncoding
      config 77 payloads 0 160 no_stats true (ground arith) (ground arith) (ground arith)
