-- ===== src/Rtp/Srtp/Runs.antt =====
-- SRTP runs at concrete inputs, with ciphers that are simple functions.
use xk6_sip_media.Prelude.{
  ℕ, ◌/◌, ◌%◌, ◌≡◌, Bool, true, false, List, [], ◌∷◌, ◌++◌, map, replicate, refl, arith,
}
use xk6_sip_media.Prelude.Bytes.{u16}
use xk6_sip_media.Rtp.Srtp.Toy.{toy_ciphers}
use xk6_sip_media.Rtp.Srtp.{
  SrtpConfig, SrtpSession, ok, err, auth_mismatch, new_session, same_bytes, estimate_index,
  decrypt_packet,
}
use xk6_sip_media.Rtp.Srtp.Relay.{delivered, Numbered, relay, relay_new_sessions}
use xk6_sip_media.Rtp.Srtp.Forged.{forged_moves_index}

abbrev config : SrtpConfig
config = record { master_key = replicate 16 11; master_salt = replicate 14 22 }

-- A packet with this sequence number and one byte of payload.
abbrev packet_at : ℕ → ℕ → List ℕ
packet_at q b = 0x80 ∷ 0 ∷ u16 q / 256 ∷ u16 q % 256 ∷ 0 ∷ 0 ∷ 0 ∷ 0 ∷ 0 ∷ 0 ∷ 0 ∷ 9 ∷ b ∷ []

-- Four packets over a wrap of the sequence number, the second one lost.
abbrev four : List (List ℕ × Bool)
four =
    (packet_at 30000 1, true)
    ∷ (packet_at 50000 2, false)
    ∷ (packet_at 60000 3, true)
    ∷ (packet_at 70000 4, true)
    ∷ []

four-Numbered : Numbered 0 0 four
unfolding Numbered
four-Numbered = (
  30000,
  ground arith,
  refl,
  (ground arith, ground arith, ground arith),
  (ground arith, ground arith, ground arith),
  (
    50000,
    ground arith,
    refl,
    (ground arith, ground arith, ground arith),
    (ground arith, ground arith, ground arith),
    (
      60000,
      ground arith,
      refl,
      (ground arith, ground arith, ground arith),
      (ground arith, ground arith, ground arith),
      (
        70000,
        ground arith,
        refl,
        (ground arith, ground arith, ground arith),
        (ground arith, ground arith, ground arith),
        tt,
      ),
    ),
  ),
)

relay_new_sessions_example :
    (s : SrtpSession) × (r : SrtpSession) × (new_session toy_ciphers config 77 true ≡ ok s)
    × (new_session toy_ciphers config 77 false ≡ ok r)
    × (relay toy_ciphers four s r ≡ map ok (delivered four))
relay_new_sessions_example =
    relay_new_sessions toy_ciphers config 77 four (ground arith) (ground arith) four-Numbered

four-delivered : delivered four ≡ packet_at 30000 1 ∷ packet_at 60000 3 ∷ packet_at 70000 4 ∷ []
unfolding delivered
four-delivered = refl

-- A receiver at position 40000.
abbrev receiver : SrtpSession
receiver = record {
  cfg = config;
  ssrc = 77;
  index = 40000;
  last_seq = 40000;
  encrypt = false;
  enc_key = replicate 16 1;
  salt_key = replicate 14 2;
  author_key = replicate 20 3;
}

abbrev forged : List ℕ
forged = replicate 22 0

forged_rejected : (decrypt_packet toy_ciphers forged receiver).0 ≡ err auth_mismatch
unfolding decrypt_packet same_bytes estimate_index
forged_rejected = refl

forged_moves_index_example :
    (decrypt_packet toy_ciphers
      (packet_at 40001 5 ++ replicate 10 0)
      (decrypt_packet toy_ciphers forged receiver).1).1.index
    ≡ 105537
forged_moves_index_example =
    forged_moves_index toy_ciphers receiver 40000 40001 forged (packet_at 40001 5 ++ replicate 10 0)
      (record { index_is = refl; seq_is = refl }) (ground arith) (ground arith) (ground arith)
      (ground arith) (ground arith) refl forged_rejected (ground arith) refl
