-- ===== src/Rtp/Stats/Late.antt =====
-- What the counters say of a packet that arrives behind the last one (reordered or duplicated).
use xk6_sip_media.Prelude.{ℕ, ◌+◌, ◌-◌, ◌/◌, ◌%◌, ◌^◌, ◌≤◌, ◌<◌, ◌≡◌, true, arith}
use xk6_sip_media.Prelude.Bytes.{u16}
use xk6_sip_media.Prelude.Floats.{Floats}
use xk6_sip_media.Rtp.Stats.{lost_in_gap, next_rollover, extend, RtpStats, update}
use xk6_sip_media.Rtp.Stats.Track.{Tracks, extend_position}

lost_in_gap_behind :
    (last d : ℕ)
    → last < 65536
    → 1 ≤ d
    → d < 65536
    → lost_in_gap (u16 (last + 65536 - d)) last ≡ 65535 - d
unfolding lost_in_gap
lost_in_gap_behind last d h a b = ground arith

next_rollover_behind :
    (last d r : ℕ) → last < 65536 → d ≤ 32768 → next_rollover (u16 (last + 65536 - d)) last r ≡ r
unfolding next_rollover
next_rollover_behind last d r h a = ground arith

module _ (fl : Floats) where
  -- A packet that arrives `d` places behind the last one, 1 ≤ d < 65536, adds 65535 - d to the
  -- packets lost: a single swap of two neighbours is counted as 65534 lost packets.
  pub update_behind_lost :
      (s : RtpStats fl) (d t : ℕ)
      → s.initialized ≡ true
      → s.last_seq < 65536
      → 1 ≤ d
      → d < 65536
      → (update fl s (u16 (s.last_seq + 65536 - d)) t).packets_lost ≡ s.packets_lost + (65535 - d)
  unfolding update
  update_behind_lost s d t i h a b = ground (arith, lost_in_gap_behind s.last_seq d)

  -- On counters that stand at position `p`, with room for one more cycle below 2 ^ 32, a packet
  -- that is late by d ≤ 32768 places and lies before the last 16-bit wrap (p % 65536 < d) moves
  -- the extended highest sequence number forward, to p + 65536 - d.
  pub update_behind_wrap :
      (s : RtpStats fl) (first p n d t : ℕ)
      → Tracks fl s first p n
      → d ≤ 32768
      → p % 65536 < d
      → p + 65536 < 2 ^ 32
      → (update fl s (u16 (u16 p + 65536 - d)) t).highest_seq_extended ≡ p + 65536 - d
  unfolding update
  update_behind_wrap s first p n d t h a b c =
      ground (arith, next_rollover_behind (u16 p) d (p / 65536), same_position)
    where
      same_position : extend (p / 65536) (u16 (u16 p + 65536 - d)) ≡ p + 65536 - d
      same_position =
          let cycle : p / 65536 ≡ (p + 65536 - d) / 65536 = omega arith in
          let low : u16 (u16 p + 65536 - d) ≡ u16 (p + 65536 - d) = omega arith in
          rw (cycle, low) (extend_position (p + 65536 - d) (omega arith))
