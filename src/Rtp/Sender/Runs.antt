-- ===== src/Rtp/Sender/Runs.antt =====
-- Concrete runs of the audio sender, and the theorems at concrete inputs.
use xk6_sip_media.Prelude.{
  ℕ, ◌≡◌, refl, Bool, true, false, Option, some, List, [], ◌∷◌, map, replicate,
}
use xk6_sip_media.Rtp.Packet.{Packet}
use xk6_sip_media.Rtp.Session.{Session}
use xk6_sip_media.Rtp.Sender.{StreamPlayer, SendStats, new_stream, run}
use xk6_sip_media.Rtp.Sender.Done.{Accounts, run-Accounts}
use xk6_sip_media.Rtp.Sender.Stream.{packets_of, stream_sends_all}

-- A stand-in for Marshal: the payload type in front of the payload.
abbrev encoding : Packet → List ℕ
encoding pkt = pkt.payload_type ∷ pkt.sequence_number ∷ pkt.payload

abbrev marshal : Packet → Option (List ℕ)
marshal pkt = some (encoding pkt)

abbrev last_numbers : Session
last_numbers = record { ssrc = 7; seq = 65535; ts = 0 }

abbrev no_stats : SendStats
no_stats = record { packets_sent = 0; octets_sent = 0; bytes_sent = 0 }

abbrev two_frames : List (List ℕ)
two_frames = (1 ∷ 2 ∷ []) ∷ (3 ∷ 4 ∷ []) ∷ []

abbrev player : StreamPlayer
player = record {
  sess = last_numbers;
  payloads = two_frames;
  pt = 8;
  stats = no_stats;
  idx = 0;
  on_done = true;
  ts_increment = 160;
}

-- The socket refuses the first datagram, and the stream is stopped after the second.
abbrev disturbed : List (Bool × Bool)
disturbed = (false, false) ∷ (false, true) ∷ (true, true) ∷ (false, true) ∷ []

run-Accounts_example : Accounts player (run marshal disturbed player)
run-Accounts_example = run-Accounts marshal disturbed player

stream_sends_all_example :
    let t =
      run marshal
        (replicate 3 (false, true))
        (new_stream last_numbers two_frames 8 160 no_stats true) in
    (t.sent ≡ map encoding (packets_of 8 7 160 65535 0 two_frames))
    × (t.kept ≡ false)
    × (t.done_calls ≡ 1)
stream_sends_all_example =
    stream_sends_all marshal encoding (λ pkt. refl) last_numbers two_frames 8 160 no_stats true

-- The second packet has sequence number 0.
two_frames_sent :
    map encoding (packets_of 8 7 160 65535 0 two_frames)
    ≡ (8 ∷ 65535 ∷ 1 ∷ 2 ∷ []) ∷ (8 ∷ 0 ∷ 3 ∷ 4 ∷ []) ∷ []
unfolding packets_of xk6_sip_media.Rtp.Sender.audio_packet
two_frames_sent = refl
