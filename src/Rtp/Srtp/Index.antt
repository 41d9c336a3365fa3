-- ===== src/Rtp/Srtp/Index.antt =====
-- The packet index that is rebuilt from 16-bit sequence numbers.
use xk6_sip_media.Prelude.{ℕ, ◌+◌, ◌/◌, ◌^◌, ◌<◌, ◌≤◌, ◌≡◌, arith}
use xk6_sip_media.Prelude.Bits.{bit_or_shifted}
use xk6_sip_media.Prelude.Bytes.{u16}
use xk6_sip_media.Rtp.Srtp.{SrtpSession, estimate_index}

-- The session stands at position `p` of the stream.
pub record At (s : SrtpSession) (p : ℕ) : Type 0 where
  pub index_is : s.index ≡ p
  pub seq_is : s.last_seq ≡ u16 p

-- The position is the same or ahead by less than half the range of a sequence number, and fits the
-- index.
abbrev pub Ahead : ℕ → ℕ → Type 0
Ahead p q = (p ≤ q) × (q < p + 32768) × (q < 2 ^ 48)

-- A session that stands at a position and sees the sequence number of one that is less than 32768
-- ahead and below 2 ^ 48, stands at that position: the rollover is found exactly where it happened.
pub estimate_index-At :
    (s : SrtpSession) (p q : ℕ) → At s p → Ahead p q → At (estimate_index (u16 q) s) q
unfolding estimate_index
estimate_index-At s p q h a =
    ground (arith, h, bit_or_shifted 16 (q / 65536) (u16 q), bit_or_shifted 16 (p / 65536) (u16 q))
