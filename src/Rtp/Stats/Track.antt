-- ===== src/Rtp/Stats/Track.antt =====
-- What the counters say of a stream whose packets arrive in order, with gaps below half the range.
use xk6_sip_media.Prelude.{ℕ, suc, ◌+◌, ◌-◌, ◌*◌, ◌/◌, ◌^◌, ◌≤◌, ◌<◌, ◌≡◌, true}
use xk6_sip_media.Prelude.{List, [], ◌∷◌, length, arith}
use xk6_sip_media.Prelude.Bits.{bit_or_shifted}
use xk6_sip_media.Prelude.Bytes.{u16, u32}
use xk6_sip_media.Prelude.Floats.{Floats}
use xk6_sip_media.Rtp.Stats.{lost_in_gap, next_rollover, extend, RtpStats, fresh_stats, update}

lost_in_gap_forward : (p q : ℕ) → p < q → q < p + 32768 → lost_in_gap (u16 q) (u16 p) ≡ q - p - 1
unfolding lost_in_gap
lost_in_gap_forward p q h k = ground arith

next_rollover_forward :
    (p q : ℕ)
    → p < q
    → q < p + 32768
    → q < 2 ^ 32
    → next_rollover (u16 q) (u16 p) (p / 65536) ≡ q / 65536
unfolding next_rollover
next_rollover_forward p q h k l = ground arith

pub extend_position : (q : ℕ) → q < 2 ^ 32 → extend (q / 65536) (u16 q) ≡ q
unfolding extend
extend_position q h =
    let fits : u32 (q / 65536 * 2 ^ 16) ≡ q / 65536 * 2 ^ 16 = omega arith in
    rw fits (omega (arith, bit_or_shifted 16 (q / 65536) (u16 q) (omega arith)))

-- The positions of a stream, each with its arrival time: from `p` on they grow, by steps of
-- less than half the range of a sequence number, and fit 32 bits.
abbrev pub Ascends : ℕ → List (ℕ × ℕ) → Type 0
Ascends p [] = Unit
Ascends p ((q, t) ∷ rest) = (p < q) × (q < p + 32768) × (q < 2 ^ 32) × Ascends q rest

abbrev pub last_position : ℕ → List (ℕ × ℕ) → ℕ
last_position p [] = p
last_position p ((q, t) ∷ rest) = last_position q rest

last_position-le : (p : ℕ) (ps : List (ℕ × ℕ)) → Ascends p ps → p ≤ last_position p ps
last_position-le p [] a = omega arith
last_position-le p ((q, t) ∷ rest) a = omega (arith, last_position-le q rest a.3)

module _ (fl : Floats) where
  -- The stream's packets carry the low 16 bits of their position.
  abbrev pub feed : RtpStats fl → List (ℕ × ℕ) → RtpStats fl
  feed s [] = s
  feed s ((q, t) ∷ rest) = feed (update fl s (u16 q) t) rest

  -- The counters stand at position `p` after `n` packets, the first of which was at `first`.
  pub record Tracks (s : RtpStats fl) (first p n : ℕ) : Type 0 where
    pub started : s.initialized ≡ true
    pub seq_is : s.last_seq ≡ u16 p
    pub rollover_is : s.rollover ≡ p / 65536
    pub highest_is : s.highest_seq_extended ≡ p
    pub received_is : s.packets_received ≡ n
    pub accounted : s.packets_lost + n + first ≡ p + 1

  update-Tracks :
      (s : RtpStats fl) (first p n q t : ℕ)
      → Tracks s first p n
      → p < q
      → q < p + 32768
      → q < 2 ^ 32
      → Tracks (update fl s (u16 q) t) first q (suc n)
  unfolding update
  update-Tracks s first p n q t h a b c =
      ground
        (arith, lost_in_gap_forward p q a b, next_rollover_forward p q a b c, extend_position q c)

  feed-Tracks :
      (s : RtpStats fl) (first p n : ℕ) (ps : List (ℕ × ℕ))
      → Tracks s first p n
      → Ascends p ps
      → Tracks (feed s ps) first (last_position p ps) (length ps + n)
  feed-Tracks s first p n [] h a = let e : n ≡ 0 + n = omega arith in rw e at h
  feed-Tracks s first p n ((q, t) ∷ rest) h (a, b, c, d) =
      let e : length rest + suc n ≡ suc (length rest) + n = omega arith in
      rw e at (
        feed-Tracks (update fl s (u16 q) t) first q (suc n) rest
          (update-Tracks s first p n q t h a b c) d)

  fresh-Tracks : (p t : ℕ) → p < 65536 → Tracks (update fl (fresh_stats fl) (u16 p) t) p p 1
  unfolding update fresh_stats
  fresh-Tracks p t h = ground arith

  -- On fresh counters, a stream that begins at a sequence number `p` and grows by steps of 1 to
  -- 32767, across any number of 16-bit wraps while its position fits 32 bits: the packets received
  -- are counted one by one, the extended highest sequence number is the last position, and
  -- received and lost together are the number of positions from the first to the last.
  pub feed_in_order :
      (p t : ℕ) (ps : List (ℕ × ℕ))
      → p < 65536
      → Ascends p ps
      → let s = feed (fresh_stats fl) ((p, t) ∷ ps) in
        (s.packets_received ≡ length ps + 1)
        × (s.highest_seq_extended ≡ last_position p ps)
        × (s.packets_received + s.packets_lost ≡ last_position p ps - p + 1)
  feed_in_order p t ps h a =
      let k = feed-Tracks (update fl (fresh_stats fl) (u16 p) t) p p 1 ps (fresh-Tracks p t h) a in
      (k.received_is, k.highest_is, omega (arith, k, last_position-le p ps a))
