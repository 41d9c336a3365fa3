-- ===== src/Rtp/Jitter/Runs.antt =====
-- Concrete runs of the jitter buffer, and the theorems at concrete inputs.
use xk6_sip_media.Prelude.{ℕ, ◌*◌, ◌≡◌, ◌≢◌, refl, true, false, none, some, arith}
use xk6_sip_media.Prelude.{List, [], ◌∷◌, ◌++◌, ◌>>=◌}
use xk6_sip_media.Prelude.NatMap
use xk6_sip_media.Rtp.Packet.{Packet}
use xk6_sip_media.Rtp.Recorder.{AudioRecorder}
use xk6_sip_media.Rtp.Jitter.{JitterBuffer, tick}
use xk6_sip_media.Rtp.Jitter.Playout.{Playing, played, ticks, ticks-played}
use xk6_sip_media.Rtp.Jitter.Reorder.{Reordered, push_all, Reordered-same_recording}
use xk6_sip_media.Rtp.Jitter.Flush.{InOrder, payloads, flush-InOrder}
use mathlib.Core.List.{Perm}

abbrev packet : ℕ → List ℕ → Packet
packet seq payload = record {
  marker = false;
  payload_type = 0;
  sequence_number = seq;
  timestamp = 160 * seq;
  ssrc = 7;
  payload = payload;
}

abbrev memory : AudioRecorder
memory = record {
  has_file = false;
  closed = false;
  buf = [];
  write_ch = [];
  file = [];
  dropped_frames = 0;
}

abbrev at_100 : JitterBuffer
at_100 = record {
  packets = some [];
  next_seq = 100;
  started = true;
  playout_delay = 0;
  recorder = memory;
  silence_size = 2;
  first_pkt_time = 0;
  delay_expired = true;
  stopped = false;
}

abbrev at_wrap : JitterBuffer
at_wrap = record at_100 { next_seq = 65535 }

at_100-Playing : Playing at_100 []
at_100-Playing = record {
  is_started = refl;
  not_stopped = refl;
  past_delay = refl;
  table = refl;
  recording = refl;
  head = omega arith;
}

abbrev stored_two : List (ℕ × Packet)
stored_two = (102, packet 102 (5 ∷ [])) ∷ (100, packet 100 (4 ∷ [])) ∷ []

abbrev holding_two : JitterBuffer
holding_two = record at_100 { packets = some stored_two }

holding_two-Playing : Playing holding_two stored_two
holding_two-Playing = record {
  is_started = refl;
  not_stopped = refl;
  past_delay = refl;
  table = refl;
  recording = refl;
  head = omega arith;
}

-- The reference at this input: packet 100, two bytes of silence for 101, packet 102.
played_two : played 3 100 stored_two 2 ≡ 4 ∷ 0 ∷ 0 ∷ 5 ∷ []
unfolding played NatMap.lookup
played_two = refl

ticks-played_example :
    (jb' : JitterBuffer) × (ticks (0 ∷ 20 ∷ 40 ∷ []) holding_two ≡ some jb')
    × (jb'.recorder.buf ≡ [] ++ played 3 100 stored_two 2)
    × (jb'.next_seq ≡ 103)
ticks-played_example =
    ticks-played (0 ∷ 20 ∷ 40 ∷ []) holding_two stored_two holding_two-Playing (omega arith)

abbrev in_order : List Packet
in_order = packet 100 (4 ∷ []) ∷ packet 101 (5 ∷ []) ∷ []

abbrev swapped : List Packet
swapped = packet 101 (5 ∷ []) ∷ packet 100 (4 ∷ []) ∷ []

Reordered-same_recording_example :
    (a b : JitterBuffer) × ((push_all 0 in_order at_100 >>= ticks (0 ∷ 20 ∷ [])) ≡ some a)
    × ((push_all 0 swapped at_100 >>= ticks (0 ∷ 20 ∷ [])) ≡ some b)
    × (a.recorder.buf ≡ b.recorder.buf)
Reordered-same_recording_example =
    Reordered-same_recording 0 (0 ∷ 20 ∷ []) in_order swapped at_100 [] at_100-Playing
      (Reordered.swap (omega arith)) (omega arith)

abbrev stopped_two : JitterBuffer
stopped_two = record holding_two { stopped = true }

flush-InOrder_example :
    (order : List ℕ) × (jb' : JitterBuffer) × Perm order (NatMap.keys stored_two)
    × InOrder 100 order
    × (tick 0 stopped_two ≡ some (jb', false))
    × (jb'.recorder.buf ≡ [] ++ payloads order stored_two)
    × (jb'.packets ≡ none)
flush-InOrder_example = flush-InOrder 0 stopped_two stored_two refl refl refl

abbrev closed_file : AudioRecorder
closed_file = record memory { has_file = true; closed = true }

abbrev one_left : JitterBuffer
one_left = record stopped_two {
  packets = some ((102, packet 102 (5 ∷ [])) ∷ []);
  recorder = closed_file;
}

one_left_full :
    (j : ℕ) (q : Packet)
    → NatMap.lookup j ((102, packet 102 (5 ∷ [])) ∷ []) ≡ some q
    → q.payload ≢ []
unfolding NatMap.lookup
one_left_full j q e n = ground arith
