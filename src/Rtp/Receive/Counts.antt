-- ===== src/Rtp/Receive/Counts.antt =====
-- The receive loop goes on over every sequence of reads, and what its counters count.
use xk6_sip_media.Prelude.{
  ℕ, ◌+◌, ◌≡◌, refl, ap, ◌++◌, drop, Option, none, some, List, [], ◌∷◌, inl, inr, ◌&&◌,
}
use xk6_sip_media.Rtp.Dtmf.{collect}
use xk6_sip_media.Prelude.{ltb, length, arith, Bool-cases, Option-cases}
use mathlib.Core.Option
use xk6_sip_media.Prelude.NatMap
use xk6_sip_media.Prelude.Floats.{Floats}
use xk6_sip_media.Rtp.Packet.{Packet}
use xk6_sip_media.Rtp.Stats.{RtpStats, update}
use xk6_sip_media.Rtp.Jitter.{JitterBuffer, push, track_first, is_late}
use xk6_sip_media.Rtp.Receive.{
  Read, timeout, failed, datagram, Receiver, is_event, push_audio, receive_packet, receive_bytes,
  receive, run, count_error, fill_frame, refresh_jb, refresh_all,
}

-- There is no buffer, or its map is there: it has not been flushed.
abbrev pub Live : Option JitterBuffer → Type 0
Live none = Unit {0}
Live (some jb) = (m : List (ℕ × Packet)) × (jb.packets ≡ some m)

push-Live :
    (now : ℕ) (pkt : Packet) (jb : JitterBuffer)
    → Live (some jb)
    → (jb' : JitterBuffer) × (push now pkt jb ≡ some jb') × Live (some jb')
unfolding push track_first
push-Live now pkt jb (m, e) =
    let jb' = track_first now pkt jb in
    let same : jb'.packets ≡ some m = ground (arith, e) in
    elim (Bool-cases (jb'.started && is_late pkt.sequence_number jb'.next_seq)) [
      | inl late ↦ (jb', rw late refl, (m, same))
      | inr new ↦ (
        record jb' { packets = some (NatMap.insert pkt.sequence_number pkt m) },
        ground (arith, new, same),
        (NatMap.insert pkt.sequence_number pkt m, refl),
      )
    ]

module _ (fl : Floats) (unmarshal : List ℕ → Option Packet) (header_size : Packet → ℕ) where
  push_audio-Live :
      (now : ℕ) (pkt : Packet) (jb : Option JitterBuffer)
      → Live jb
      → (jb' : Option JitterBuffer) × (push_audio fl unmarshal header_size now pkt jb ≡ some jb')
        × Live jb'
  unfolding push_audio
  push_audio-Live now pkt none h = (none, refl, tt)
  push_audio-Live now pkt (some jb) h =
      let (jb', e, k) = push-Live now pkt jb h in
      elim (Bool-cases (ltb 0 (length pkt.payload))) [
        | inl full ↦ (some jb', rw (full, e) refl, k)
        | inr empty ↦ (some jb, rw empty refl, h)
      ]

  refresh_jb-Live :
      (frame : List ℕ) (jb : Option JitterBuffer)
      → Live jb
      → Live (Option.map (refresh_jb fl unmarshal header_size frame) jb)
  unfolding refresh_jb
  refresh_jb-Live frame none h = tt
  refresh_jb-Live frame (some jb) (m, e) = (
    refresh_all fl unmarshal header_size frame m,
    ap (Option.map (refresh_all fl unmarshal header_size frame)) e,
  )

  -- What one read adds: packets parsed, bytes of those, and errors.
  unfoldable pub parsed : Read → ℕ
  parsed timeout = 0
  parsed failed = 0
  parsed (datagram now bytes) = elim (unmarshal bytes) [ none ↦ 0 | some pkt ↦ 1 ]

  unfoldable pub parsed_bytes : Read → ℕ
  parsed_bytes timeout = 0
  parsed_bytes failed = 0
  parsed_bytes (datagram now bytes) = elim (unmarshal bytes) [ none ↦ 0 | some pkt ↦ length bytes ]

  unfoldable pub errors : Read → ℕ
  errors timeout = 0
  errors failed = 1
  errors (datagram now bytes) = 0

  unfoldable pub total : (Read → ℕ) → List Read → ℕ
  total f [] = 0
  total f (e ∷ es) = f e + total f es

  pub record Counted (r r' : Receiver fl unmarshal header_size) (packets bytes errs : ℕ)
      : Type 0 where
    pub packets_are : r'.stats.packets_received ≡ r.stats.packets_received + packets
    pub bytes_are : r'.stats.bytes_received ≡ r.stats.bytes_received + bytes
    pub errors_are : r'.stats.recv_errors ≡ r.stats.recv_errors + errs

  update-counts :
      (s : RtpStats fl) (seq now : ℕ)
      → ((update fl s seq now).packets_received ≡ s.packets_received + 1)
        × ((update fl s seq now).bytes_received ≡ s.bytes_received)
        × ((update fl s seq now).recv_errors ≡ s.recv_errors)
  unfolding update
  update-counts s seq now = ground arith

  receive_packet-Counted :
      (now size : ℕ) (pkt : Packet) (r : Receiver fl unmarshal header_size)
      → Live r.jb
      → (r' : Receiver fl unmarshal header_size) × (receive_packet fl unmarshal header_size now size
            pkt r
          ≡ some r')
        × Counted r r' 1 size 0
        × Live r'.jb
  unfolding receive_packet
  receive_packet-Counted now size pkt r h =
      let updated = update fl r.stats pkt.sequence_number now in
      let stats = record updated { bytes_received = updated.bytes_received + size } in
      let (a, b, c) = update-counts r.stats pkt.sequence_number now in
      let (jb', e, k) = push_audio-Live now pkt r.jb h in
      elim (Bool-cases (is_event fl unmarshal header_size pkt r.dtmf)) [
        | inl event ↦ (
          record r { stats = stats; dtmf = Option.map (collect pkt) r.dtmf },
          rw event refl,
          omega (arith, a, b, c),
          h,
        )
        | inr audio ↦
            (record r { stats = stats; jb = jb' }, rw (audio, e) refl, omega (arith, a, b, c), k)
      ]

  fill_frame-Live :
      (bytes : List ℕ) (r : Receiver fl unmarshal header_size)
      → Live r.jb
      → Live (fill_frame fl unmarshal header_size bytes r).jb
  unfolding fill_frame
  fill_frame-Live bytes r h = refresh_jb-Live (bytes ++ drop (length bytes) r.frame) r.jb h

  receive-Counted :
      (e : Read) (r : Receiver fl unmarshal header_size)
      → Live r.jb
      → (r' : Receiver fl unmarshal header_size) × (receive fl unmarshal header_size e r ≡ some r')
        × Counted r r' (parsed e) (parsed_bytes e) (errors e)
        × Live r'.jb
  unfolding receive receive_bytes fill_frame parsed parsed_bytes errors count_error
  receive-Counted timeout r h = (r, refl, omega arith, h)
  receive-Counted failed r h = (count_error fl unmarshal header_size r, refl, omega arith, h)
  receive-Counted (datagram now bytes) r h =
      let filled = fill_frame fl unmarshal header_size bytes r in
      let live = fill_frame-Live bytes r h in
      elim (Option-cases (unmarshal bytes)) [
        | inl e ↦ (filled, ground (arith, e), ground (arith, e), live)
        | inr (pkt, e) ↦
            let (r', f, c, k) = receive_packet-Counted now (length bytes) pkt filled live in
            (r', ground (arith, e, f), ground (arith, e, c), k)
      ]

  -- The loop never panics on a buffer that has not been flushed, whatever the socket yields, and
  -- its counters grow by the number of datagrams parsed, by their bytes, and by the number of
  -- reads that failed otherwise than by the deadline.
  pub run-Counted :
      (es : List Read) (r : Receiver fl unmarshal header_size)
      → Live r.jb
      → (r' : Receiver fl unmarshal header_size) × (run fl unmarshal header_size es r ≡ some r')
        × Counted r r' (total parsed es) (total parsed_bytes es) (total errors es)
        × Live r'.jb
  unfolding run total
  run-Counted [] r h = (r, refl, omega arith, h)
  run-Counted (e ∷ es) r h =
      let (r', a, c, k) = receive-Counted e r h in
      let (r'', b, d, l) = run-Counted es r' k in (r'', rw a b, ground (arith, c, d), l)
