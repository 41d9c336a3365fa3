-- ===== src/Rtp/Rtcp/Reports.antt =====
-- What a report says to the end that reads it.
use xk6_sip_media.Prelude.{ℕ, ◌+◌, ◌*◌, ◌/◌, ◌%◌, ◌^◌, ◌<◌, ◌≡◌, some, List, refl, arith}
use xk6_sip_media.Prelude.Bits.{bit_or_shifted}
use xk6_sip_media.Prelude.Floats.{Floats}
use xk6_sip_media.Rtp.Stats.{RtpStats, snapshot}
use xk6_sip_media.Rtp.Rtcp.{
  Conversions, RtcpSession, ntp_sec, ntp_frac, compact, jitter_ts, build_sr, build_rr, parse_sr,
  parse_rr,
}

module _ (fl : Floats) (cv : Conversions fl) where
  ntp_frac-lt : (now : ℕ) → ntp_frac fl cv now < 2 ^ 32
  unfolding ntp_frac
  ntp_frac-lt now = omega arith

  compact_parts :
      (now : ℕ) → compact fl cv now ≡ ntp_sec fl cv now % 65536 * 65536 + ntp_frac fl cv now / 65536
  unfolding compact
  compact_parts now =
      let h = ntp_frac-lt now in
      ground (arith, bit_or_shifted 16 (ntp_sec fl cv now % 65536) (ntp_frac fl cv now / 65536))

  -- The end that reads a sender report keeps the compact NTP time that the sender kept when it
  -- built the report, and the time of arrival, and answers exactly if it has receive statistics.
  pub parse_sr-build_sr :
      (now later : ℕ) (s peer : RtcpSession fl cv)
      → let sent = build_sr fl cv now s in
        let t = parse_sr fl cv later sent.0 peer in
        (t.0.stats.last_sr_ntp_compact ≡ sent.1.stats.last_sr_ntp_compact)
        × (t.0.stats.last_sr_received ≡ some later)
        × (t.1 ≡ build_rr fl cv later t.0)
  unfolding parse_sr build_sr
  parse_sr-build_sr now later s peer =
      let h = compact_parts now in let k = ntp_frac-lt now in (omega arith, refl, refl)

  -- The peer of a session that has a jitter below one timestamp unit ignores its receiver reports,
  -- whatever last sender report they name: the field read as LSR is the jitter.
  pub parse_rr_no_jitter :
      (now later : ℕ) (s peer : RtcpSession fl cv) (rtp_stats : RtpStats fl) (rr : List ℕ)
      → s.rtp_stats ≡ some rtp_stats
      → jitter_ts fl cv (snapshot fl rtp_stats).jitter s.sample_rate ≡ 0
      → build_rr fl cv now s ≡ some rr
      → parse_rr fl cv later rr peer ≡ peer
  unfolding parse_rr build_rr
  parse_rr_no_jitter now later s peer rtp_stats rr e j b = ground (arith, e, j, b)
