-- ===== src/Audio/Pcap.antt =====
-- core/audio/pcap_reader.go: the RTP frames of a capture file. A read out of range is `none`.
pub mod Total
pub mod Unwrap
pub mod Records
pub mod Counts
pub mod Load
mod Runs
use xk6_sip_media.Prelude.{
  ℕ, zero, suc, ◌+◌, ◌-◌, ◌*◌, ◌/◌, ◌%◌, Bool, true, false, not, ◌&&◌, ◌||◌, Option, none, some,
  List, [], ◌∷◌, ◌++◌, map,
}
use xk6_sip_media.Prelude.{ltb, leb, ◌==◌, if◌then◌else◌, ◌>>=◌, length, take, drop}
use xk6_sip_media.Prelude.{◌^◌, ◌⊎◌, inl, inr}
use xk6_sip_media.Prelude.Bytes.{byte_at, be16_at, be32_at, slice, slice_from}
use xk6_sip_media.Prelude.Int.{ℤ, sub_ℕ}
use xk6_sip_media.Prelude.NatMap.{lookup, insert}

-- `b[i]`, binary.BigEndian.Uint16(b[i:i+2]) and binary.LittleEndian.Uint32(b[i:i+4]).
abbrev pub index : List ℕ → ℕ → Option ℕ
index b i = if ltb i (length b) then some (byte_at b i) else none

abbrev pub uint16 : List ℕ → ℕ → Option ℕ
uint16 b i = if ltb (i + 1) (length b) then some (be16_at b i) else none

abbrev pub le32_at : List ℕ → ℕ → ℕ
le32_at b i =
    byte_at b i
    + byte_at b (i + 1) * 2 ^ 8
    + byte_at b (i + 2) * 2 ^ 16
    + byte_at b (i + 3) * 2 ^ 24

-- The inner option is the code's own answer, that this is no RTP.
unfoldable pub udp_payload : List ℕ → Option (Option (List ℕ))
udp_payload ip = if ltb (length ip) 20 then some none else do
  first ← index ip 0
  protocol ← index ip 9
  if not (first / 16 == 4) || not (protocol == 17)
      then some none
      else (let ihl = first % 16 * 4 in
          if ltb (length ip) (ihl + 8) then some none else do
            udp ← slice_from ip ihl
            size ← uint16 udp 4
            source ← uint16 udp 0
            target ← uint16 udp 2
            payload ←
                if ltb size 8 || ltb (length udp) size
                then some none
                else (if ltb source 1024 && ltb target 1024
                    then some none
                    else (do p ← slice udp 8 size; some (some p)))
            some payload)

unfoldable pub ip_after : ℕ → List ℕ → Option (Option ℕ)
ip_after ether_type frame =
    if ether_type == 0x0800
    then some (some 14)
    else if ether_type == 0x8100
    then (if ltb (length frame) 18
        then some none
        else do inner ← uint16 frame 16; some (if inner == 0x0800 then some 18 else none))
    else do first ← index frame 0; some (if first / 16 == 4 then some 0 else none)

-- Where the IP header begins: after the Ethernet header, with a VLAN tag or without, or at once.
unfoldable pub ip_start : List ℕ → Option (Option ℕ)
ip_start frame = do ether_type ← uint16 frame 12; ip_after ether_type frame

unfoldable pub ip_from : List ℕ → Option ℕ → Option (Option (List ℕ))
ip_from frame none = some none
ip_from frame (some start) = do ip ← slice_from frame start; udp_payload ip

unfoldable pub rtp_of_ethernet : List ℕ → Option (Option (List ℕ))
rtp_of_ethernet frame =
    if ltb (length frame) 14 then some none else do start ← ip_start frame; ip_from frame start

unfoldable pub without_first : ℕ → List ℕ → Option (Option (List ℕ))
without_first size payload =
    if ltb (length payload) size
    then some none
    else do rest ← slice_from payload size; some (some rest)

-- The payload after the CSRC list, without the extension header if there is one.
unfoldable pub without_extension : ℕ → List ℕ → Option (Option (List ℕ))
without_extension first payload =
    if first / 16 % 2 == 1 && leb 4 (length payload)
    then (do words ← uint16 payload 2; without_first (words * 4 + 4) payload)
    else some (some payload)

unfoldable pub nonempty : ℕ → Option (List ℕ) → Option (ℕ × List ℕ)
nonempty pt none = none
nonempty pt (some payload) = if length payload == 0 then none else some (pt, payload)

-- The payload type and the payload of an RTP packet; `pt > 127` of the code cannot hold.
unfoldable pub rtp_payload : List ℕ → Option (Option (ℕ × List ℕ))
rtp_payload rtp = if ltb (length rtp) 12 then some none else do
  first ← index rtp 0
  second ← index rtp 1
  if not (first / 64 == 2)
      then some none
      else (let csrc = first % 16 in
          if ltb (length rtp) (12 + csrc * 4) then some none else do
            payload ← slice_from rtp (12 + csrc * 4)
            kept ← without_extension first payload
            some (nonempty (second % 128) kept))

unfoldable pub frame_of : List ℕ → Option (Option (ℕ × List ℕ))
frame_of frame = do
  rtp ← rtp_of_ethernet frame
  elim rtp [ none ↦ some none | some bytes ↦ rtp_payload bytes ]

pub record PcapFrame : Type 0 where
  pub payload : List ℕ
  pub offset_micro : ℤ
  pub payload_type : ℕ

-- What the loop of LoadPCAP has gathered; `start_micro` is none as long as the code has it at -1.
pub record Capture : Type 0 where
  pub frames : List PcapFrame
  pub start_micro : Option ℕ
  pub pt_count : List (ℕ × ℕ)

abbrev pub new_capture : Capture
new_capture = record { frames = []; start_micro = none; pt_count = [] }

abbrev pub count_of : ℕ → List (ℕ × ℕ) → ℕ
count_of pt counts = elim (lookup pt counts) [ none ↦ 0 | some n ↦ n ]

abbrev pub start_of : Option ℕ → ℕ → ℕ
start_of none now = now
start_of (some start) now = start

unfoldable pub add_frame : ℕ → Option (ℕ × List ℕ) → Capture → Capture
add_frame now none c = c
add_frame now (some (pt, payload)) c = record {
  frames =
      c.frames
      ++ record {
        payload = payload;
        offset_micro = sub_ℕ now (start_of c.start_micro now);
        payload_type = pt;
      }
        ∷ [];
  start_micro = some (start_of c.start_micro now);
  pt_count = insert pt (count_of pt c.pt_count + 1) c.pt_count;
}

-- binary.ByteOrder's Uint32: `true` is the big-endian order.
abbrev pub uint32 : Bool → List ℕ → ℕ → ℕ
uint32 big b i = if big then be32_at b i else le32_at b i

-- io.ReadFull of `n` bytes: what it reads and what is left, or its error.
abbrev pub read_full : ℕ → List ℕ → Option (List ℕ × List ℕ)
read_full n file = if ltb (length file) n then none else some (take n file, drop n file)

unfoldable pub order_of : ℕ → Option Bool
order_of magic =
    if magic == 0xa1b2c3d4 then some false else if magic == 0xd4c3b2a1 then some true else none

-- parsePCAPGlobalHeader: the byte order, `true` for big-endian, and the rest of the file.
unfoldable pub global_header : List ℕ → Option (Bool × List ℕ)
global_header file = do
  (header, rest) ← read_full 24 file
  big ← order_of (le32_at header 0)
  some (big, rest)

-- One turn of the loop up to the record's bytes: its time, its bytes and the rest of the file.
unfoldable pub next_record : Bool → List ℕ → Option (ℕ × List ℕ × List ℕ)
next_record big file = do
  (header, rest) ← read_full 16 file
  (frame, rest) ← read_full (uint32 big header 8) rest
  some (uint32 big header 0 * 1000000 + uint32 big header 4, frame, rest)

-- The inner `none` is a break or the end of the file.
unfoldable pub read_records : ℕ → Bool → List ℕ → Capture → Option Capture
read_records zero big file c = some c
read_records (suc fuel) big file c = elim (next_record big file) [
  | none ↦ some c
  | some (now, frame, rest) ↦ do
    found ← frame_of frame
    read_records fuel big rest (add_frame now found c)
]

-- The most frequent payload type, over the counts in the order in which the map yields them.
unfoldable pub dominant : List (ℕ × ℕ) → List (ℕ × ℕ) → ℕ → ℕ
dominant counts [] best = best
dominant counts ((pt, n) ∷ later) best =
    dominant counts later (if ltb (count_of best counts) n then pt else best)

pub data PcapError : Type 0 where
  bad_header no_frames : PcapError

unfoldable pub finish :
    (List PcapFrame → List PcapFrame) → List (ℕ × ℕ) → Capture → PcapError ⊎ (List PcapFrame × ℕ)
finish by_offset order c = elim c.frames [
  | [] ↦ inl no_frames
  | f ∷ fs ↦ inr (by_offset (f ∷ fs), dominant c.pt_count order 0)
]

-- LoadPCAP of a file's content. `by_offset` is sort.Slice, `order` how the map is iterated; each
-- record takes 16 bytes at least, so the length of the file is enough fuel.
unfoldable pub load_pcap :
    (List PcapFrame → List PcapFrame)
    → (List (ℕ × ℕ) → List (ℕ × ℕ))
    → List ℕ
    → Option (PcapError ⊎ (List PcapFrame × ℕ))
load_pcap by_offset order file = elim (global_header file) [
  | none ↦ some (inl bad_header)
  | some (big, rest) ↦ do
    c ← read_records (length file) big rest new_capture
    some (finish by_offset (order c.pt_count) c)
]

unfoldable pub pcap_payloads : List PcapFrame → List (List ℕ)
pcap_payloads [] = []
pcap_payloads (f ∷ fs) = f.payload ∷ pcap_payloads fs
