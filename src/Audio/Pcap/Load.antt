-- ===== src/Audio/Pcap/Load.antt =====
-- The whole of LoadPCAP on a capture file.
use xk6_sip_media.Prelude.{
  ℕ, ◌+◌, ◌≤◌, ◌<◌, ◌≡◌, ◌⊎◌, inl, inr, refl, sym, ap, Bool, true, false, Option, some, List, [],
  ◌∷◌, ◌++◌, arith,
}
use xk6_sip_media.Prelude.{length, length-append, Option-cases}
use xk6_sip_media.Prelude.Bytes.{drop_exact}
use xk6_sip_media.Prelude.Int.{sub_ℕ}
use mathlib.Core.Path.{subst}
use xk6_sip_media.Prelude.NatMap.{lookup}
use xk6_sip_media.Audio.Pcap.{
  PcapFrame, Capture, new_capture, count_of, global_header, order_of, add_frame, dominant,
  PcapError, no_frames, finish, load_pcap,
}
use xk6_sip_media.Audio.Pcap.Records.{
  Packet, AllFit, put_uint32, write_packets, found_in, add_all, read_records-written,
  length-write_packets,
}
use xk6_sip_media.Audio.Pcap.Counts.{
  frames_from, occurrences, frames-add_all, count-add_all, AllFrom, Yields, dominant-greatest,
}

-- The content of a file: the magic number, the rest of the header, the packets and a tail.
abbrev pub write_file : Bool → List ℕ → List Packet → List ℕ → List ℕ
write_file big header ps tail = put_uint32 big 0xa1b2c3d4 ++ (header ++ write_packets big ps tail)

-- What a file with these RTP packets gives.
abbrev pub Loaded :
    (List PcapFrame → List PcapFrame)
    → List (ℕ × ℕ × List ℕ)
    → Option (PcapError ⊎ (List PcapFrame × ℕ))
    → Type 0
Loaded by_offset [] result = result ≡ some (inl no_frames)
Loaded by_offset ((start, pt, payload) ∷ fs) result =
    let found = (start, pt, payload) ∷ fs in
    (best : ℕ) × (result ≡ some (inr (by_offset (frames_from start found), best)))
    × ((t : ℕ) → occurrences t found ≤ occurrences best found)

global_header-written :
    (big : Bool) (header rest : List ℕ)
    → length header ≡ 20
    → global_header (put_uint32 big 0xa1b2c3d4 ++ (header ++ rest)) ≡ some (big, rest)
unfolding global_header order_of
global_header-written true header rest h =
    let d = drop_exact 20 header rest h in
    let n = length-append header rest in ground (arith, d, n, h)
global_header-written false header rest h =
    let d = drop_exact 20 header rest h in
    let n = length-append header rest in ground (arith, d, n, h)

finish-frames :
    (by_offset : List PcapFrame → List PcapFrame) (o : List (ℕ × ℕ)) (c : Capture) (f : PcapFrame)
    (fs : List PcapFrame)
    → c.frames ≡ f ∷ fs
    → finish by_offset o c ≡ inr (by_offset (f ∷ fs), dominant c.pt_count o 0)
unfolding finish
finish-frames by_offset o c f fs e = ground (arith, e)

module _ (by_offset : List PcapFrame → List PcapFrame) (order : List (ℕ × ℕ) → List (ℕ × ℕ)) where
  best-greatest :
      (counts : List (ℕ × ℕ)) (pt : ℕ)
      → AllFrom counts (order counts)
      → ((pt n : ℕ) → lookup pt counts ≡ some n → Yields pt (order counts))
      → count_of pt counts ≤ count_of (dominant counts (order counts) 0) counts
  best-greatest counts pt sound complete = elim (Option-cases (lookup pt counts)) [
    | inl e ↦ ground (arith, e)
    | inr (n, e) ↦ dominant-greatest counts pt (order counts) 0 (complete pt n e) sound
  ]

  finish-Loaded :
      (fs : List (ℕ × ℕ × List ℕ))
      → let c = add_all fs new_capture in
        AllFrom c.pt_count (order c.pt_count)
        → ((pt n : ℕ) → lookup pt c.pt_count ≡ some n → Yields pt (order c.pt_count))
        → Loaded by_offset fs (some (finish by_offset (order c.pt_count) c))
  unfolding add_frame finish lookup
  finish-Loaded [] sound complete = refl
  finish-Loaded ((start, pt, payload) ∷ fs) sound complete =
      let found = (start, pt, payload) ∷ fs in
      let c = add_all found new_capture in
      let first = add_frame start (some (pt, payload)) new_capture in
      let f : PcapFrame = record {
        payload = payload;
        offset_micro = sub_ℕ start start;
        payload_type = pt;
      } in
      let best = dominant c.pt_count (order c.pt_count) 0 in
      let frames : c.frames ≡ f ∷ frames_from start fs = frames-add_all fs first start refl in
      let counts : (t : ℕ) → count_of t c.pt_count ≡ occurrences t found + 0 =
        λ t. count-add_all found new_capture t in
      (
        best,
        ap (λ e. some e)
            (finish-frames by_offset (order c.pt_count) c f (frames_from start fs) frames),
        λ t. omega (arith, best-greatest c.pt_count t sound complete, counts t, counts best),
      )

  -- A capture file of either byte order, with any records of fewer than 2 ^ 32 bytes and a tail that
  -- is no record: the reader does not panic, and gives the frame of every record that carries RTP,
  -- of whatever UDP flow, in their order before the sort, with their offset from the first; and a payload type that none
  -- occurs more often than, whatever the order in which the map of the counts is iterated. Without
  -- such a record it returns the error that there are no frames.
  pub load_pcap-written :
      (big : Bool) (header : List ℕ) (ps : List Packet) (tail : List ℕ)
      → length header ≡ 20
      → AllFit ps
      → length tail < 16
      → let counts = (add_all (found_in ps) new_capture).pt_count in
        AllFrom counts (order counts)
        → ((pt n : ℕ) → lookup pt counts ≡ some n → Yields pt (order counts))
        → Loaded by_offset (found_in ps) (load_pcap by_offset order (write_file big header ps tail))
  unfolding load_pcap
  load_pcap-written big header ps tail h fit t sound complete =
      let file = write_file big header ps tail in
      let packets = write_packets big ps tail in
      let fuel : length ps ≤ length file = omega (
        arith,
        length-write_packets big ps tail,
        length-append header packets,
        length-append (put_uint32 big 0xa1b2c3d4) (header ++ packets),
      ) in
      let g = global_header-written big header packets h in
      let r = read_records-written big ps tail (length file) new_capture fit t fuel in
      let c = add_all (found_in ps) new_capture in
      let e : load_pcap by_offset order file ≡ some (finish by_offset (order c.pt_count) c) =
        ground (arith, g, r) in
      subst (Loaded by_offset (found_in ps)) (sym e) (finish-Loaded (found_in ps) sound complete)
