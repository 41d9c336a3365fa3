-- ===== src/Rtp/Receive/Runs.antt =====
-- The receive loop on a concrete call.
use xk6_sip_media.Prelude.{ℕ, ◌≡◌, refl, false, some, none, List, [], ◌∷◌, length}
use mathlib.Core.Option.{Option}
use xk6_sip_media.Prelude.Floats.{whole_floats}
use xk6_sip_media.Rtp.Packet.{Packet}
use xk6_sip_media.Rtp.Stats.{fresh_stats, update}
use xk6_sip_media.Rtp.Recorder.{new_recorder}
use xk6_sip_media.Rtp.Jitter.{JitterBuffer, new_jitter_buffer, push, track_first, is_late}
use xk6_sip_media.Prelude.{arith, true}
use xk6_sip_media.Prelude.NatMap.{lookup, insert}
use xk6_sip_media.Rtp.Receive.Alias.{held_overwritten}
use xk6_sip_media.Rtp.Dtmf.{new_dtmf_collector}
use xk6_sip_media.Rtp.Receive.{
  Read, timeout, failed, datagram, Receiver, run, receive, receive_bytes, fill_frame, refresh_jb,
  refresh_all, reread, receive_packet, is_event, push_audio,
}
use xk6_sip_media.Rtp.Receive.Counts.{
  Counted, Live, total, parsed, parsed_bytes, errors, run-Counted,
}

-- A parser that knows two kinds of packets.
abbrev toy_unmarshal : List ℕ → Option Packet
toy_unmarshal [] = none
toy_unmarshal (pt ∷ payload) = some (record {
  marker = false;
  payload_type = pt;
  sequence_number = length payload;
  timestamp = 0;
  ssrc = 7;
  payload = payload;
})

abbrev toy_header_size : Packet → ℕ
toy_header_size pkt = 1

abbrev fresh : Receiver whole_floats toy_unmarshal toy_header_size
fresh = record {
  frame = [];
  stats = fresh_stats whole_floats;
  dtmf = some (new_dtmf_collector 0);
  jb = some (new_jitter_buffer (new_recorder false) 40_000_000 160);
}

abbrev reads : List Read
reads =
    datagram 10 (0 ∷ 1 ∷ 2 ∷ [])
    ∷ timeout
    ∷ datagram 20 (101 ∷ 5 ∷ 138 ∷ 3 ∷ 32 ∷ [])
    ∷ failed
    ∷ datagram 30 []
    ∷ datagram 40 (0 ∷ 3 ∷ 4 ∷ 5 ∷ [])
    ∷ []

fresh-Live : Live fresh.jb
unfolding new_jitter_buffer
fresh-Live = ([], refl)

run-Counted_example :
    (r : Receiver whole_floats toy_unmarshal toy_header_size) × (run whole_floats toy_unmarshal
        toy_header_size reads fresh
      ≡ some r)
    × Counted whole_floats toy_unmarshal toy_header_size fresh r
        (total whole_floats toy_unmarshal toy_header_size
          (parsed whole_floats toy_unmarshal toy_header_size)
          reads)
        (total whole_floats toy_unmarshal toy_header_size
          (parsed_bytes whole_floats toy_unmarshal toy_header_size)
          reads)
        (total whole_floats toy_unmarshal toy_header_size
          (errors whole_floats toy_unmarshal toy_header_size)
          reads)
    × Live r.jb
run-Counted_example = run-Counted whole_floats toy_unmarshal toy_header_size reads fresh fresh-Live

-- A second of two packets of one length comes in while the first waits.
abbrev first_read : List ℕ
first_read = 0 ∷ 1 ∷ 2 ∷ []

abbrev second_read : List ℕ
second_read = 8 ∷ 5 ∷ 6 ∷ []

abbrev packet_of : ℕ → List ℕ → Packet
packet_of seq payload = record {
  marker = false;
  payload_type = 0;
  sequence_number = seq;
  timestamp = 0;
  ssrc = 7;
  payload = payload;
}

-- The first byte is the sequence number here.
abbrev seq_unmarshal : List ℕ → Option Packet
seq_unmarshal [] = none
seq_unmarshal (seq ∷ payload) = some (packet_of seq payload)

abbrev waiting_jb : List (ℕ × Packet) → JitterBuffer
waiting_jb m = record (new_jitter_buffer (new_recorder false) 40_000_000 160) {
  packets = some m;
  next_seq = 0;
  started = true;
  first_pkt_time = 10;
}

abbrev waiting : JitterBuffer
waiting = waiting_jb ((0, packet_of 0 (1 ∷ 2 ∷ [])) ∷ [])

abbrev overwritten : List (ℕ × Packet)
overwritten = (0, packet_of 0 (5 ∷ 6 ∷ [])) ∷ (8, packet_of 8 (5 ∷ 6 ∷ [])) ∷ []

abbrev with_waiting : Receiver whole_floats seq_unmarshal toy_header_size
with_waiting = record {
  frame = first_read;
  stats = fresh_stats whole_floats;
  dtmf = none;
  jb = some waiting;
}

abbrev after_second : Receiver whole_floats seq_unmarshal toy_header_size
after_second = record {
  frame = second_read;
  stats = (record (update whole_floats (fresh_stats whole_floats) 8 20) { bytes_received = 3 });
  dtmf = none;
  jb = some (waiting_jb overwritten);
}

second_received :
    receive whole_floats seq_unmarshal toy_header_size (datagram 20 second_read) with_waiting
    ≡ some after_second
unfolding receive receive_bytes fill_frame refresh_jb refresh_all reread receive_packet is_event
    push_audio push track_first is_late update fresh_stats new_jitter_buffer insert
second_received = refl

held_found : lookup 0 overwritten ≡ some (packet_of 0 (5 ∷ 6 ∷ []))
unfolding lookup
held_found = refl

waiting_packets : waiting.packets ≡ some ((0, packet_of 0 (1 ∷ 2 ∷ [])) ∷ [])
unfolding new_jitter_buffer
waiting_packets = refl

overwritten_packets : (waiting_jb overwritten).packets ≡ some overwritten
unfolding new_jitter_buffer
overwritten_packets = refl

held_overwritten_example : (packet_of 0 (5 ∷ 6 ∷ [])).payload ≡ 5 ∷ 6 ∷ []
held_overwritten_example =
    held_overwritten whole_floats seq_unmarshal toy_header_size 20 0 second_read
      (packet_of 8 (5 ∷ 6 ∷ [])) (packet_of 0 (5 ∷ 6 ∷ [])) with_waiting after_second waiting
      (waiting_jb overwritten) ((0, packet_of 0 (1 ∷ 2 ∷ [])) ∷ []) overwritten (λ p x. refl) refl
      (omega arith) refl refl waiting_packets second_received refl overwritten_packets held_found
      refl refl
