-- ===== src/Audio/Pcap/Unwrap.antt =====
-- A frame as the layers write it, and what the reader takes out of it.
use xk6_sip_media.Prelude.{
  ℕ, zero, suc, ◌+◌, ◌*◌, ◌/◌, ◌%◌, ◌^◌, ◌≤◌, ◌<◌, ◌≡◌, ◌⊎◌, ap, ◌∙◌, Option, none, some, List, [],
  ◌∷◌, ◌++◌, arith,
}
use xk6_sip_media.Prelude.{◌>>=◌, length, drop, length-append, take-length_append, get_or}
use xk6_sip_media.Prelude.Bytes.{byte_at, be16, drop_exact, get_or-append}
use xk6_sip_media.Audio.Pcap.{
  udp_payload, ip_after, ip_start, ip_from, rtp_of_ethernet, without_first, without_extension,
  nonempty, rtp_payload, frame_of,
}

-- The header extension of an RTP packet whose first byte is `first`.
pub data Extension (first : ℕ) : List ℕ → Type 0 where
  no_extension : first / 16 % 2 ≡ 0 → Extension first []
  extension :
      (p q n : ℕ) (words : List ℕ)
      → first / 16 % 2 ≡ 1
      → n < 2 ^ 16
      → length words ≡ n * 4
      → Extension first (p ∷ q ∷ n / 256 ∷ n % 256 ∷ words)

-- The type field of an Ethernet header for IPv4, with a VLAN tag or without.
pub data TypeField : List ℕ → Type 0 where
  untagged : TypeField (0x08 ∷ 0x00 ∷ [])
  tagged : (t u : ℕ) → TypeField (0x81 ∷ 0x00 ∷ t ∷ u ∷ 0x08 ∷ 0x00 ∷ [])

-- The header of an IPv4 packet that carries UDP, with its options.
abbrev pub IsIpHeader : List ℕ → Type 0
IsIpHeader h =
    (byte_at h 0 / 16 ≡ 4)
    × (byte_at h 9 ≡ 17)
    × (20 ≤ length h)
    × (length h ≡ byte_at h 0 % 16 * 4)

abbrev pub udp_packet : ℕ → ℕ → ℕ → ℕ → List ℕ → List ℕ
udp_packet source target c d rtp =
    be16 source ++ be16 target ++ be16 (8 + length rtp) ++ c ∷ d ∷ rtp

kept_payload :
    (first : ℕ) (ext payload : List ℕ)
    → Extension first ext
    → without_extension first (ext ++ payload) ≡ some (some payload)
unfolding without_extension without_first
kept_payload first _ payload (no_extension e) = ground (arith, e)
kept_payload first _ payload (extension p q n words e b l) =
    let d = drop_exact (n * 4) words payload l in
    let s = length-append words payload in ground (arith, e, b, l, d, s)

rtp-written :
    (first second : ℕ) (header ext payload : List ℕ)
    → first / 64 ≡ 2
    → length header ≡ 10 + first % 16 * 4
    → Extension first ext
    → 0 < length payload
    → rtp_payload ((first ∷ second ∷ header) ++ (ext ++ payload))
      ≡ some (some (second % 128, payload))
unfolding rtp_payload nonempty
rtp-written first second header ext payload v l x some_payload =
    let d =
      drop_exact (12 + first % 16 * 4) (first ∷ second ∷ header) (ext ++ payload)
        (omega (arith, l)) in
    let s = length-append header (ext ++ payload) in
    let e = kept_payload first ext payload x in ground (arith, v, l, d, s, e, some_payload)

module _ (source target c d : ℕ) (rtp padding : List ℕ) (source_fits : source < 2 ^ 16)
    (target_fits : target < 2 ^ 16) (unprivileged : (1024 ≤ source) ⊎ (1024 ≤ target))
    (fits : 8 + length rtp < 2 ^ 16) where
  abbrev udp : List ℕ
  udp = udp_packet source target c d rtp ++ padding

  udp-written : (h : List ℕ) → IsIpHeader h → udp_payload (h ++ udp) ≡ some (some rtp)
  unfolding udp_payload
  udp-written h (version, protocol, long, words) =
      let dropped = drop_exact (byte_at h 0 % 16 * 4) h udp words in
      let n = length-append h udp in
      let m = length-append rtp padding in
      let t = take-length_append rtp padding in
      let b0 = get_or-append h udp 0 0 in
      let b9 = get_or-append h udp 9 0 in
      ground (
        arith, dropped, n, m, t, b0, b9, version, protocol, long, words, source_fits, target_fits,
        unprivileged, fits,
      )

get_or-after :
    (xs ys : List ℕ) (n i : ℕ) → length xs ≡ n → get_or (xs ++ ys) (n + i) 0 ≡ get_or ys i 0
get_or-after [] ys n i h = ap (λ k. get_or ys k 0) (omega (arith, h))
get_or-after (x ∷ xs) ys zero i h = absurd (omega arith)
get_or-after (x ∷ xs) ys (suc n) i h =
    let e : suc n + i ≡ suc (n + i) = omega arith in
    ap (λ k. get_or (x ∷ (xs ++ ys)) k 0) e ∙ get_or-after xs ys n i (omega arith)

drop-after : (xs ys : List ℕ) (n i : ℕ) → length xs ≡ n → drop (n + i) (xs ++ ys) ≡ drop i ys
drop-after [] ys n i h = ap (λ k. drop k ys) (omega (arith, h))
drop-after (x ∷ xs) ys zero i h = absurd (omega arith)
drop-after (x ∷ xs) ys (suc n) i h =
    let e : suc n + i ≡ suc (n + i) = omega arith in
    ap (λ k. drop k (x ∷ (xs ++ ys))) e ∙ drop-after xs ys n i (omega arith)

ethernet-written :
    (macs t ip : List ℕ)
    → length macs ≡ 12
    → TypeField t
    → 1 ≤ length ip
    → rtp_of_ethernet (macs ++ (t ++ ip)) ≡ udp_payload ip
unfolding rtp_of_ethernet ip_start ip_after ip_from
ethernet-written macs _ ip h untagged some_ip =
    let at = get_or-after macs (0x08 ∷ 0x00 ∷ ip) 12 in
    let a = at 0 h in
    let b = at 1 h in
    let n = length-append macs (0x08 ∷ 0x00 ∷ ip) in
    let e = drop-after macs (0x08 ∷ 0x00 ∷ ip) 12 2 h in ground (arith, a, b, n, e, h, some_ip)
ethernet-written macs _ ip h (tagged x y) some_ip =
    let at = get_or-after macs (0x81 ∷ 0x00 ∷ x ∷ y ∷ 0x08 ∷ 0x00 ∷ ip) 12 in
    let a = at 0 h in
    let b = at 1 h in
    let f = at 4 h in
    let g = at 5 h in
    let n = length-append macs (0x81 ∷ 0x00 ∷ x ∷ y ∷ 0x08 ∷ 0x00 ∷ ip) in
    let e = drop-after macs (0x81 ∷ 0x00 ∷ x ∷ y ∷ 0x08 ∷ 0x00 ∷ ip) 12 6 h in
    ground (arith, a, b, f, g, n, e, h, some_ip)

-- Ethernet with a VLAN tag or without, IPv4 with options, UDP with a port that is not privileged,
-- RTP of version 2 with contributing sources and a header extension, around a payload that is not
-- empty, and with padding behind: the reader finds exactly the payload type and the payload.
pub frame_of-written :
    (macs t h : List ℕ) (source target c d first second : ℕ) (header ext payload padding : List ℕ)
    → length macs ≡ 12
    → TypeField t
    → IsIpHeader h
    → source < 2 ^ 16
    → target < 2 ^ 16
    → (1024 ≤ source) ⊎ (1024 ≤ target)
    → first / 64 ≡ 2
    → length header ≡ 10 + first % 16 * 4
    → Extension first ext
    → 0 < length payload
    → 20 + length header + length ext + length payload < 2 ^ 16
    → frame_of (
        macs
        ++ (t
            ++ (h
                ++ (udp_packet source target c d ((first ∷ second ∷ header) ++ (ext ++ payload))
                    ++ padding))))
      ≡ some (some (second % 128, payload))
unfolding frame_of
frame_of-written macs t h source target c d first second header ext payload padding m type ip s g u
      v l x some_payload fits =
    let rtp = (first ∷ second ∷ header) ++ (ext ++ payload) in
    let udp = udp_packet source target c d rtp ++ padding in
    let long = length-append h udp in
    let e = length-append header (ext ++ payload) in
    let f = length-append ext payload in
    ap read (ethernet-written macs t (h ++ udp) m type (omega (arith, long, ip)))
    ∙ ap read (udp-written source target c d rtp padding s g u (omega (arith, e, f, fits)) h ip)
    ∙ rtp-written first second header ext payload v l x some_payload
  where
    read : Option (Option (List ℕ)) → Option (Option (ℕ × List ℕ))
    read found = do rtp ← found; elim rtp [ none ↦ some none | some bytes ↦ rtp_payload bytes ]
