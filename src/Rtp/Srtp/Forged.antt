-- ===== src/Rtp/Srtp/Forged.antt =====
-- What a datagram with a wrong tag does to the session that rejects it.
use xk6_sip_media.Prelude.{ℕ, ◌+◌, ◌/◌, ◌%◌, ◌^◌, ◌<◌, ◌≤◌, ◌≡◌, List, length, arith}
use xk6_sip_media.Prelude.Bits.{bit_or_shifted}
use xk6_sip_media.Prelude.Bytes.{u16, be16_at}
use xk6_sip_media.Rtp.Srtp.{
  Ciphers, SrtpSession, err, auth_mismatch, estimate_index, decrypt_packet,
}
use xk6_sip_media.Rtp.Srtp.Index.{At}

-- A sequence number of 0 in the upper half of a cycle starts the next cycle, whoever sent it.
estimate_index-zero :
    (s : SrtpSession) (p q : ℕ)
    → At s p
    → 32768 < p % 65536
    → p < q
    → q / 65536 ≡ p / 65536
    → q + 65536 < 2 ^ 48
    → (estimate_index (u16 q) (estimate_index 0 s)).index ≡ q + 65536
unfolding estimate_index
estimate_index-zero s p q h a b c d =
    ground
      (arith, h, bit_or_shifted 16 (p / 65536 + 1) 0, bit_or_shifted 16 (p / 65536 + 1) (u16 q))

module _ (cr : Ciphers) where
  decrypt_packet-session :
      (srtp : List ℕ) (s : SrtpSession)
      → 22 ≤ length srtp
      → (decrypt_packet cr srtp s).1 ≡ estimate_index (be16_at srtp 2) s
  unfolding decrypt_packet
  decrypt_packet-session srtp s h = ground arith

  -- A receiver that stands at position p, in the upper half of a cycle, rejects a datagram with a
  -- wrong tag and the sequence number 0, but has moved to the next cycle: a datagram of a later
  -- position q of the same cycle is then read at the index q + 65536 instead of q.
  pub forged_moves_index :
      (r : SrtpSession) (p q : ℕ) (forged srtp : List ℕ)
      → At r p
      → 32768 < p % 65536
      → p < q
      → q / 65536 ≡ p / 65536
      → q + 65536 < 2 ^ 48
      → 22 ≤ length forged
      → be16_at forged 2 ≡ 0
      → (decrypt_packet cr forged r).0 ≡ err auth_mismatch
      → 22 ≤ length srtp
      → be16_at srtp 2 ≡ u16 q
      → (decrypt_packet cr srtp (decrypt_packet cr forged r).1).1.index ≡ q + 65536
  forged_moves_index r p q forged srtp h a b c d long zero_seq rejected long' seq = rw (
    decrypt_packet-session forged r long,
    decrypt_packet-session srtp (estimate_index (be16_at forged 2) r) long',
    zero_seq,
    seq,
    estimate_index-zero r p q h a b c d,
  )
