-- ===== src/Audio/Pcap/Runs.antt =====
-- Runs of the capture reader.
use xk6_sip_media.Prelude.{
  ℕ, zero, suc, ◌≡◌, inl, refl, true, some, List, [], ◌∷◌, ◌++◌, arith, replicate,
}
use xk6_sip_media.Prelude.NatMap.{lookup, insert}
use xk6_sip_media.Audio.Pcap.{
  frame_of, udp_payload, ip_after, ip_start, ip_from, rtp_of_ethernet, without_first,
  without_extension, nonempty, rtp_payload, add_frame, load_pcap,
}
use xk6_sip_media.Audio.Pcap.Unwrap.{extension, tagged, udp_packet, frame_of-written}
use xk6_sip_media.Audio.Pcap.Records.{Packet, found_in}
use xk6_sip_media.Audio.Pcap.Counts.{Yields, now}
use xk6_sip_media.Audio.Pcap.Load.{Loaded, write_file, load_pcap-written}

abbrev macs : List ℕ
macs = replicate 12 7

-- An IPv4 header with one word of options.
abbrev ip_header : List ℕ
ip_header = 0x46 ∷ 0 ∷ 0 ∷ 0 ∷ 0 ∷ 0 ∷ 0 ∷ 0 ∷ 64 ∷ 17 ∷ replicate 14 0

abbrev rtp : List ℕ
rtp = (0x91 ∷ 0x80 ∷ replicate 14 1) ++ ((0 ∷ 0 ∷ 0 ∷ 1 ∷ 5 ∷ 5 ∷ 5 ∷ 5 ∷ []) ++ (42 ∷ 43 ∷ []))

abbrev ethernet : List ℕ
ethernet =
    macs
    ++ ((0x81 ∷ 0x00 ∷ 0 ∷ 9 ∷ 0x08 ∷ 0x00 ∷ [])
        ++ (ip_header ++ (udp_packet 5004 80 0 0 rtp ++ (0 ∷ 0 ∷ []))))

frame_of-written_example : frame_of ethernet ≡ some (some (0, 42 ∷ 43 ∷ []))
frame_of-written_example =
    frame_of-written macs (0x81 ∷ 0x00 ∷ 0 ∷ 9 ∷ 0x08 ∷ 0x00 ∷ []) ip_header 5004 80 0 0 0x91 0x80
      (replicate 14 1) (0 ∷ 0 ∷ 0 ∷ 1 ∷ 5 ∷ 5 ∷ 5 ∷ 5 ∷ []) (42 ∷ 43 ∷ []) (0 ∷ 0 ∷ []) refl
      (tagged 0 9) (refl, refl, omega arith, refl) (omega arith) (omega arith) (inl (omega arith))
      refl refl (extension 0 0 1 (5 ∷ 5 ∷ 5 ∷ 5 ∷ []) refl (omega arith) refl) (omega arith)
      (omega arith)

abbrev packets : List Packet
packets =
    record { seconds = 10; micros = 20; original = 0; bytes = ethernet }
    ∷ record { seconds = 10; micros = 30; original = 0; bytes = 1 ∷ 2 ∷ [] }
    ∷ []

one_count : (pt n : ℕ) → lookup pt ((0, 1) ∷ []) ≡ some n → Yields pt ((0, 1) ∷ [])
unfolding lookup
one_count zero n h = now 1 []
one_count (suc pt) n h = absurd (ground (arith, h))

load_pcap-written_example :
    Loaded
      (λ fs. fs)
      (found_in packets)
      (load_pcap (λ fs. fs) (λ counts. counts) (write_file true (replicate 20 0) packets (9 ∷ [])))
unfolding frame_of udp_payload ip_after ip_start ip_from rtp_of_ethernet without_first
    without_extension nonempty rtp_payload add_frame lookup insert
load_pcap-written_example =
    load_pcap-written (λ fs. fs) (λ counts. counts) true (replicate 20 0) packets (9 ∷ []) refl
      ((omega arith, omega arith, omega arith), ((omega arith, omega arith, omega arith), tt))
      (omega arith) (refl, tt) one_count
