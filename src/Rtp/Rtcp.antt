-- ===== src/Rtp/Rtcp.antt =====
-- core/rtp/rtcp.go: sender and receiver reports. A time is the number of nanoseconds since 1970,
-- and the zero time is `none`. What is written to the socket is a result of the step. Go's
-- conversions between float64 and integers, math.Floor, math.Round and Duration.Seconds are
-- parameters. One call of parseRTCP reads the clock once.
pub mod Reports
pub mod Compound
mod Runs
use Prim.Native.Nat.{bit_and, bit_or}
use xk6_sip_media.Prelude.{ℕ, zero, suc, ◌+◌, ◌-◌, ◌*◌, ◌/◌, ◌%◌, ◌^◌, Bool, Option, none, some}
use xk6_sip_media.Prelude.{List, [], ◌∷◌, ◌++◌, ltb, ◌==◌, if◌then◌else◌, length, take, drop}
use xk6_sip_media.Prelude.Int.{pos}
use xk6_sip_media.Prelude.Bytes.{u8, u32, byte_at, be16_at, be32_at, be16, be32}
use xk6_sip_media.Prelude.Floats.{Floats}
use xk6_sip_media.Rtp.Stats.{RtpStats, snapshot}
use xk6_sip_media.Rtp.Sender.{SendStats}

pub record Conversions (fl : Floats) : Type 0 where
  pub to_uint_32 : fl.F → ℕ
  pub floor : fl.F → fl.F
  pub round : fl.F → fl.F
  pub seconds : ℕ → fl.F

module _ (fl : Floats) (cv : Conversions fl) where
  open fl use {F, decimal, of_int, mul_f, div_f, lt_f}

  pub record RtcpStats : Type 0 where
    pub packets_sent_total : ℕ
    pub octets_sent_total : ℕ
    pub send_ssrc : ℕ
    pub last_sr_ntp_compact : ℕ
    pub last_sr_received : Option ℕ
    pub fraction_lost : ℕ
    pub cumulative_lost : ℕ
    pub highest_seq_recv : ℕ
    pub jitter : F
    pub rtt_ms : F

  -- `rtp_stats` is `none` where the pointer is nil.
  pub record RtcpSession : Type 0 where
    pub ssrc : ℕ
    pub sample_rate : ℕ
    pub stats : RtcpStats
    pub rtp_stats : Option (RtpStats fl)
    pub send_stats : SendStats

  -- Seconds and fraction of a second since 1900.
  unfoldable pub ntp_sec : ℕ → ℕ
  ntp_sec now = u32 (now / 10 ^ 9 + 2208988800)

  unfoldable pub ntp_frac : ℕ → ℕ
  ntp_frac now = u32 (
      cv.to_uint_32
        (div_f (mul_f (of_int (pos (now % 10 ^ 9))) (decimal (2 ^ 32) 0)) (decimal (10 ^ 9) 0)))

  -- The middle 32 bits of the NTP time.
  unfoldable pub compact : ℕ → ℕ
  compact now = bit_or (u32 (ntp_sec now * 2 ^ 16)) (ntp_frac now / 2 ^ 16)

  unfoldable pub build_sr : ℕ → RtcpSession → List ℕ × RtcpSession
  build_sr now s = (
    0x80
        ∷ 200
        ∷ (be16 6
            ++ be32 s.ssrc
            ++ be32 (ntp_sec now)
            ++ be32 (ntp_frac now)
            ++ be32 (u32 (now / 125000))
            ++ be32 (u32 s.send_stats.packets_sent)
            ++ be32 (u32 s.send_stats.octets_sent)),
    record s {
      stats = record s.stats { last_sr_ntp_compact = compact now; last_sr_received = some now };
    },
  )

  unfoldable pub fraction_byte : F → ℕ
  fraction_byte loss_pct =
      let fraction_lost = div_f (mul_f loss_pct (decimal 256 0)) (decimal 100 0) in
      let clamped = if lt_f fraction_lost (decimal 0 0) then decimal 0 0 else fraction_lost in
      let frac = cv.to_uint_32 (cv.floor clamped) in u8 (if ltb 255 frac then 255 else frac)

  unfoldable pub jitter_ts : F → ℕ → ℕ
  jitter_ts jitter sample_rate =
      u32 (
        cv.to_uint_32 (cv.round (div_f (mul_f jitter (of_int (pos sample_rate))) (decimal 1000 0))))

  -- The delay since the last sender report, in units of 1/65536 s.
  unfoldable pub delay_since : ℕ → Option ℕ → ℕ
  delay_since now none = 0
  delay_since now (some received) =
      u32 (cv.to_uint_32 (mul_f (cv.seconds (now - received)) (decimal 65536 0)))

  unfoldable pub build_rr : ℕ → RtcpSession → Option (List ℕ)
  build_rr now s = elim s.rtp_stats [
    | none ↦ none
    | some rtp_stats ↦
        (let snap = snapshot fl rtp_stats in
          some (
            0x81
            ∷ 201
            ∷ (be16 7
                ++ be32 s.ssrc
                ++ be32 s.stats.send_ssrc
                ++ fraction_byte snap.packet_loss_pct
                  ∷ u8 (snap.packets_lost / 2 ^ 16)
                  ∷ u8 (snap.packets_lost / 2 ^ 8)
                  ∷ u8 snap.packets_lost
                  ∷ (be32 snap.highest_seq_extended
                      ++ be32 (jitter_ts snap.jitter s.sample_rate)
                      ++ be32 s.stats.last_sr_ntp_compact
                      ++ be32 (delay_since now s.stats.last_sr_received)))))
  ]

  -- The report that is sent in answer is the second component.
  unfoldable pub parse_sr : ℕ → List ℕ → RtcpSession → RtcpSession × Option (List ℕ)
  parse_sr now bytes s =
      if ltb (length bytes) 28
      then (s, none)
      else (let s' = record s {
        stats = record s.stats {
          last_sr_ntp_compact = be32_at bytes 10;
          last_sr_received = some now;
        };
      } in
          (s', build_rr now s'))

  unfoldable pub parse_rr : ℕ → List ℕ → RtcpSession → RtcpSession
  parse_rr now bytes s =
      if ltb (length bytes) 32
      then s
      else (let lsr = be32_at bytes 20 in
          let dlsr = be32_at bytes 24 in
          let now_compact =
            bit_or (u32 (bit_and (ntp_sec now) 0xffff * 2 ^ 16)) (ntp_frac now / 2 ^ 16) in
          let rtt_units = u32 (u32 (now_compact + 2 ^ 32 - lsr) + 2 ^ 32 - dlsr) in
          if lsr == 0 then s else record s {
            stats = record s.stats { rtt_ms = div_f (of_int (pos rtt_units)) (decimal 65536 3) };
          })

  -- One packet of a compound, by its type.
  unfoldable pub handle_packet : ℕ → List ℕ → RtcpSession → RtcpSession × List (List ℕ)
  handle_packet now bytes s =
      if byte_at bytes 1 == 200
      then (let t = parse_sr now bytes s in (t.0, elim t.1 [ none ↦ [] | some rr ↦ rr ∷ [] ]))
      else (if byte_at bytes 1 == 201 then (parse_rr now bytes s, []) else (s, []))

  -- The loop; every turn takes at least four bytes, so the length of the bytes is enough fuel.
  unfoldable pub parse_loop : ℕ → ℕ → List ℕ → RtcpSession → RtcpSession × List (List ℕ)
  parse_loop zero now bytes s = (s, [])
  parse_loop (suc fuel) now bytes s =
      let size = be16_at bytes 2 * 4 + 4 in
      let t = handle_packet now (take size bytes) s in
      let rest = parse_loop fuel now (drop size bytes) t.0 in
      if ltb (length bytes) 4
      then (s, [])
      else (if ltb (length bytes) size then (s, []) else (rest.0, t.1 ++ rest.1))

  unfoldable pub parse_rtcp : ℕ → List ℕ → RtcpSession → RtcpSession × List (List ℕ)
  parse_rtcp now bytes s = parse_loop (length bytes) now bytes s
