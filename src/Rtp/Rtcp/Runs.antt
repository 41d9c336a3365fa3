-- ===== src/Rtp/Rtcp/Runs.antt =====
-- RTCP runs at concrete reports, over the whole numbers.
use xk6_sip_media.Prelude.{ℕ, ◌/◌, ◌^◌, ◌≡◌, true, some, none, List, [], ◌∷◌, refl, arith}
use xk6_sip_media.Prelude.Int.{pos, pos_part, quot, ◌*ℤ◌}
use xk6_sip_media.Prelude.Floats.{whole_floats}
use xk6_sip_media.Rtp.Stats.{RtpStats, snapshot, loss_percent}
use xk6_sip_media.Rtp.Rtcp.{
  Conversions, RtcpSession, jitter_ts, fraction_byte, delay_since, build_sr, build_rr, parse_sr,
  parse_rtcp,
}
use xk6_sip_media.Rtp.Rtcp.Reports.{parse_sr-build_sr}
use xk6_sip_media.Rtp.Rtcp.Compound.{compound, handle_all, parse_rtcp-compound}

abbrev whole : Conversions whole_floats
whole = record {
  to_uint_32 = λ f. pos_part f;
  floor = λ f. f;
  round = λ f. f;
  seconds = λ t. pos (t / 10 ^ 9);
}

abbrev received : RtpStats whole_floats
received = record {
  packets_received = 90;
  packets_lost = 10;
  jitter = pos 0;
  bytes_received = 15480;
  last_seq = 99;
  last_arrival = none;
  initialized = true;
  rollover = 0;
  highest_seq_extended = 99;
  recv_errors = 0;
}

abbrev session : RtcpSession whole_floats whole
session = record {
  ssrc = 77;
  sample_rate = 8000;
  stats = record {
    packets_sent_total = 0;
    octets_sent_total = 0;
    send_ssrc = 77;
    last_sr_ntp_compact = 123456;
    last_sr_received = some 5;
    fraction_lost = 0;
    cumulative_lost = 0;
    highest_seq_recv = 0;
    jitter = pos 0;
    rtt_ms = pos 0;
  };
  rtp_stats = some received;
  send_stats = record { packets_sent = 100; octets_sent = 16000; bytes_sent = 17200 };
}

parse_sr-build_sr_example :
    let sent = build_sr whole_floats whole 1_700_000_000_500_000_000 session in
    let t = parse_sr whole_floats whole 1_700_000_000_600_000_000 sent.0 session in
    (t.0.stats.last_sr_ntp_compact ≡ sent.1.stats.last_sr_ntp_compact)
    × (t.0.stats.last_sr_received ≡ some 1_700_000_000_600_000_000)
    × (t.1 ≡ build_rr whole_floats whole 1_700_000_000_600_000_000 t.0)
parse_sr-build_sr_example =
    parse_sr-build_sr whole_floats whole 1_700_000_000_500_000_000 1_700_000_000_600_000_000 session
      session

-- A report that says: 10 % lost, jitter 0, last sender report 123456, delay 2 s.
abbrev report : List ℕ
report =
    129 ∷ 201 ∷ 0 ∷ 7 ∷ 0 ∷ 0 ∷ 0 ∷ 77 ∷ 0 ∷ 0 ∷ 0 ∷ 77 ∷ 25 ∷ 0 ∷ 0 ∷ 10 ∷ 0 ∷ 0 ∷ 0 ∷ 99 ∷ 0 ∷ 0
    ∷ 0 ∷ 0 ∷ 0 ∷ 1 ∷ 226 ∷ 64 ∷ 0 ∷ 2 ∷ 0 ∷ 0 ∷ []

report_built : build_rr whole_floats whole 2_000_000_005 session ≡ some report
unfolding build_rr fraction_byte snapshot jitter_ts delay_since quot ◌*ℤ◌ loss_percent
report_built = refl

no_jitter : jitter_ts whole_floats whole (snapshot whole_floats received).jitter 8000 ≡ 0
unfolding jitter_ts snapshot quot ◌*ℤ◌
no_jitter = refl

abbrev unknown : List ℕ
unknown = 128 ∷ 203 ∷ 0 ∷ 1 ∷ 0 ∷ 0 ∷ 0 ∷ 77 ∷ []

parse_rtcp-compound_example :
    parse_rtcp whole_floats whole 7 (compound (report ∷ unknown ∷ []) (1 ∷ 2 ∷ [])) session
    ≡ handle_all whole_floats whole 7 (report ∷ unknown ∷ []) session
parse_rtcp-compound_example =
    parse_rtcp-compound whole_floats whole 7 (report ∷ unknown ∷ []) (1 ∷ 2 ∷ []) session
      ((ground arith, refl), ((ground arith, refl), tt)) (ground arith)
