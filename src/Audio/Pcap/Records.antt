-- ===== src/Audio/Pcap/Records.antt =====
-- A capture file as it is written, and the records that the reader takes out of it.
use xk6_sip_media.Prelude.{
  ℕ, zero, suc, ◌+◌, ◌*◌, ◌/◌, ◌^◌, ◌≤◌, ◌<◌, ◌≡◌, inl, inr, refl, Bool, true, false, Option, none,
  some, List, [], ◌∷◌, ◌++◌, arith,
}
use xk6_sip_media.Prelude.{
  if◌then◌else◌, length, length-append, take-length_append, drop-length_append, Option-cases,
}
use xk6_sip_media.Prelude.Bytes.{u8, be32, be32_at}
use xk6_sip_media.Audio.Pcap.{Capture, le32_at, frame_of, add_frame, next_record, read_records}
use xk6_sip_media.Audio.Pcap.Total.{frame_of-returns}

pub record Packet : Type 0 where
  pub seconds : ℕ
  pub micros : ℕ
  pub original : ℕ
  pub bytes : List ℕ

abbrev pub time : Packet → ℕ
time p = p.seconds * 1000000 + p.micros

abbrev pub le32 : ℕ → List ℕ
le32 v = u8 v ∷ u8 (v / 2 ^ 8) ∷ u8 (v / 2 ^ 16) ∷ u8 (v / 2 ^ 24) ∷ []

abbrev pub put_uint32 : Bool → ℕ → List ℕ
put_uint32 big v = if big then be32 v else le32 v

abbrev pub Fits : Packet → Type 0
Fits p = (p.seconds < 2 ^ 32) × (p.micros < 2 ^ 32) × (length p.bytes < 2 ^ 32)

abbrev pub AllFit : List Packet → Type 0
AllFit [] = Unit
AllFit (p ∷ ps) = Fits p × AllFit ps

abbrev pub write_packets : Bool → List Packet → List ℕ → List ℕ
write_packets big [] tail = tail
write_packets big (p ∷ ps) tail =
    put_uint32 big p.seconds
    ++ put_uint32 big p.micros
    ++ put_uint32 big (length p.bytes)
    ++ put_uint32 big p.original
    ++ (p.bytes ++ write_packets big ps tail)

le32_at-le32 : (v : ℕ) → v < 2 ^ 32 → le32_at (le32 v) 0 ≡ v
le32_at-le32 v h = omega (arith, h)

be32_at-be32 : (v : ℕ) → v < 2 ^ 32 → be32_at (be32 v) 0 ≡ v
be32_at-be32 v h = omega (arith, h)

next_record-written :
    (big : Bool) (p : Packet) (ps : List Packet) (tail : List ℕ)
    → Fits p
    → next_record big (write_packets big (p ∷ ps) tail)
      ≡ some (time p, p.bytes, write_packets big ps tail)
unfolding next_record
next_record-written true p ps tail (s, m, l) =
    let rest = write_packets true ps tail in
    let a = be32_at-be32 p.seconds s in
    let b = be32_at-be32 p.micros m in
    let c = be32_at-be32 (length p.bytes) l in
    let t = take-length_append p.bytes rest in
    let d = drop-length_append p.bytes rest in
    let n = length-append p.bytes rest in ground (arith, a, b, c, t, d, n)
next_record-written false p ps tail (s, m, l) =
    let rest = write_packets false ps tail in
    let a = le32_at-le32 p.seconds s in
    let b = le32_at-le32 p.micros m in
    let c = le32_at-le32 (length p.bytes) l in
    let t = take-length_append p.bytes rest in
    let d = drop-length_append p.bytes rest in
    let n = length-append p.bytes rest in ground (arith, a, b, c, t, d, n)

next_record-truncated :
    (big : Bool) (tail : List ℕ) → length tail < 16 → next_record big tail ≡ none
unfolding next_record
next_record-truncated big tail h = ground (arith, h)

-- The packets that carry RTP: their time, their payload type and their payload.
abbrev pub rtp_found : Option (Option (ℕ × List ℕ)) → Option (ℕ × List ℕ)
rtp_found none = none
rtp_found (some found) = found

abbrev pub keep : ℕ → Option (ℕ × List ℕ) → List (ℕ × ℕ × List ℕ) → List (ℕ × ℕ × List ℕ)
keep now none fs = fs
keep now (some (pt, payload)) fs = (now, pt, payload) ∷ fs

abbrev pub found_in : List Packet → List (ℕ × ℕ × List ℕ)
found_in [] = []
found_in (p ∷ ps) = keep (time p) (rtp_found (frame_of p.bytes)) (found_in ps)

abbrev pub add_all : List (ℕ × ℕ × List ℕ) → Capture → Capture
add_all [] c = c
add_all ((now, pt, payload) ∷ fs) c = add_all fs (add_frame now (some (pt, payload)) c)

pub read_records-written :
    (big : Bool) (ps : List Packet) (tail : List ℕ) (fuel : ℕ) (c : Capture)
    → AllFit ps
    → length tail < 16
    → length ps ≤ fuel
    → read_records fuel big (write_packets big ps tail) c ≡ some (add_all (found_in ps) c)
unfolding read_records add_frame
read_records-written big [] tail zero c h t n = refl
read_records-written big [] tail (suc fuel) c h t n =
    let e = next_record-truncated big tail t in ground (arith, e)
read_records-written big (p ∷ ps) tail zero c h t n = absurd (omega (arith, n))
read_records-written big (p ∷ ps) tail (suc fuel) c (h, hs) t n =
    let e = next_record-written big p ps tail h in
    let later = λ (c : Capture). read_records-written big ps tail fuel c hs t (omega (arith, n)) in
    elim (Option-cases (frame_of p.bytes)) [
      | inl f ↦ absurd (frame_of-returns p.bytes f)
      | inr (none, f) ↦ let l = later c in ground (arith, e, f, l)
      | inr (some (pt, payload), f) ↦
          let l = later (add_frame (time p) (some (pt, payload)) c) in ground (arith, e, f, l)
    ]

pub length-write_packets :
    (big : Bool) (ps : List Packet) (tail : List ℕ) → length ps ≤ length (write_packets big ps tail)
length-write_packets big [] tail = omega arith
length-write_packets true (p ∷ ps) tail =
    omega
      (arith, length-append p.bytes (write_packets true ps tail), length-write_packets true ps tail)
length-write_packets false (p ∷ ps) tail =
    omega (
      arith,
      length-append p.bytes (write_packets false ps tail),
      length-write_packets false ps tail,
    )
