-- ===== src/Audio/Pcap/Total.antt =====
-- No record makes the reader go out of range.
use xk6_sip_media.Prelude.{ℕ, ◌+◌, ◌*◌, ◌%◌, ◌≤◌, ◌≡◌, ◌≢◌, none, some, List, arith}
use xk6_sip_media.Prelude.{length, drop, length-drop, Option-cases, inl, inr}
use xk6_sip_media.Prelude.Bytes.{byte_at, be16_at}
use xk6_sip_media.Audio.Pcap.{
  udp_payload, ip_after, ip_start, ip_from, rtp_of_ethernet, without_first, without_extension,
  rtp_payload, frame_of,
}

udp_payload-returns : (ip : List ℕ) → udp_payload ip ≢ none
unfolding udp_payload
udp_payload-returns ip = let n = length-drop (byte_at ip 0 % 16 * 4) ip in ground (arith, n)

ip_after-within :
    (t : ℕ) (b : List ℕ) (start : ℕ)
    → 14 ≤ length b
    → ip_after t b ≡ some (some start)
    → start ≤ length b
unfolding ip_after
ip_after-within t b start h e = ground arith

ip_after-returns : (t : ℕ) (b : List ℕ) → 14 ≤ length b → ip_after t b ≢ none
unfolding ip_after
ip_after-returns t b h = ground arith

rtp_of_ethernet-returns : (b : List ℕ) → rtp_of_ethernet b ≢ none
unfolding rtp_of_ethernet ip_start ip_from
rtp_of_ethernet-returns b = elim (Option-cases (ip_after (be16_at b 12) b)) [
  | inl e ↦ let no = ip_after-returns (be16_at b 12) b in ground (arith, e, no)
  | inr (none, e) ↦ ground (arith, e)
  | inr (some start, e) ↦
      let no = udp_payload-returns (drop start b) in
      let within = ip_after-within (be16_at b 12) b start in ground (arith, e, no, within)
]

without_extension-returns : (first : ℕ) (b : List ℕ) → without_extension first b ≢ none
unfolding without_extension without_first
without_extension-returns first b = ground arith

rtp_payload-returns : (b : List ℕ) → rtp_payload b ≢ none
unfolding rtp_payload
rtp_payload-returns b =
    let no = without_extension-returns (byte_at b 0) (drop (12 + byte_at b 0 % 16 * 4) b) in
    ground (arith, no)

pub frame_of-returns : (b : List ℕ) → frame_of b ≢ none
unfolding frame_of
frame_of-returns b = elim (Option-cases (rtp_of_ethernet b)) [
  | inl e ↦ absurd (rtp_of_ethernet-returns b e)
  | inr (none, e) ↦ ground (arith, e)
  | inr (some rtp, e) ↦ let no = rtp_payload-returns rtp in ground (arith, e, no)
]
