-- ===== src/Rtp/Stats/Runs.antt =====
-- Concrete runs of the receive counters, and the theorems at concrete inputs.
use xk6_sip_media.Prelude.{◌+◌, ◌≡◌, true, some, [], ◌∷◌, arith}
use xk6_sip_media.Prelude.Int.{pos}
use xk6_sip_media.Prelude.Floats.{whole_floats}
use xk6_sip_media.Rtp.Stats.{RtpStats, fresh_stats}
use xk6_sip_media.Rtp.Stats.Track.{feed, feed_in_order, Tracks}

-- Four packets, of which one is lost and the last two lie behind the wrap.
feed_in_order_example :
    let s =
      feed whole_floats
        (fresh_stats whole_floats)
        ((65534, 0) ∷ (65535, 20) ∷ (65537, 60) ∷ (65538, 80) ∷ []) in
    (s.packets_received ≡ 4)
    × (s.highest_seq_extended ≡ 65538)
    × (s.packets_received + s.packets_lost ≡ 5)
feed_in_order_example =
    feed_in_order whole_floats 65534 0 ((65535, 20) ∷ (65537, 60) ∷ (65538, 80) ∷ []) (omega arith)
      (omega arith)

abbrev at_six : RtpStats whole_floats
at_six = record {
  packets_received = 1;
  packets_lost = 0;
  jitter = pos 0;
  bytes_received = 172;
  last_seq = 6;
  last_arrival = some 1000;
  initialized = true;
  rollover = 0;
  highest_seq_extended = 6;
  recv_errors = 0;
}

abbrev past_wrap : RtpStats whole_floats
past_wrap = record at_six {
  packets_received = 2;
  last_seq = 0;
  rollover = 1;
  highest_seq_extended = 65536;
}

past_wrap-Tracks : Tracks whole_floats past_wrap 65535 65536 2
past_wrap-Tracks = ground arith
