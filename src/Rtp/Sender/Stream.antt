-- ===== src/Rtp/Sender/Stream.antt =====
-- What an undisturbed stream sends.
use xk6_sip_media.Prelude.{ℕ, suc, ◌+◌, ◌≡◌, refl, Bool, true, false}
use xk6_sip_media.Prelude.{Option, some, List, [], ◌∷◌, map, arith, length, drop, replicate}
use xk6_sip_media.Prelude.{if◌then◌else◌, drop-cons, drop-nil}
use xk6_sip_media.Prelude.Bytes.{u16, u32}
use xk6_sip_media.Rtp.Packet.{Packet}
use xk6_sip_media.Rtp.Session.{Session, next_seq_ts}
use xk6_sip_media.Rtp.Sender.{StreamPlayer, SendStats, new_stream, tick, run, finish, emit}
use xk6_sip_media.Rtp.Sender.{audio_packet, count_sent}

-- One packet for each payload, in order: the sequence number grows by 1 and the timestamp by the
-- frame's duration, both round their width.
unfoldable pub packets_of : ℕ → ℕ → ℕ → ℕ → ℕ → List (List ℕ) → List Packet
packets_of pt ssrc ts_increment seq ts [] = []
packets_of pt ssrc ts_increment seq ts (payload ∷ rest) =
    audio_packet pt seq ts ssrc payload
    ∷ packets_of pt ssrc ts_increment (u16 (seq + 1)) (u32 (ts + ts_increment)) rest

module _ (marshal : Packet → Option (List ℕ)) (encoding : Packet → List ℕ)
    (marshals : (pkt : Packet) → marshal pkt ≡ some (encoding pkt)) where
  tick_frame :
      (p : StreamPlayer) (payload : List ℕ) (rest : List (List ℕ))
      → drop p.idx p.payloads ≡ payload ∷ rest
      → let t = tick marshal false true p in
        (t.kept ≡ true)
        × (t.done_calls ≡ 0)
        × (t.sent ≡ encoding (audio_packet p.pt p.sess.seq p.sess.ts p.sess.ssrc payload) ∷ [])
        × (t.player.sess.seq ≡ u16 (p.sess.seq + 1))
        × (t.player.sess.ts ≡ u32 (p.sess.ts + p.ts_increment))
        × (t.player.sess.ssrc ≡ p.sess.ssrc)
        × (t.player.pt ≡ p.pt)
        × (t.player.ts_increment ≡ p.ts_increment)
        × (t.player.on_done ≡ p.on_done)
        × (drop t.player.idx t.player.payloads ≡ rest)
  unfolding tick emit next_seq_ts count_sent
  tick_frame p payload rest e = ground (
    arith,
    drop-cons p.payloads p.idx payload [] rest e,
    marshals (audio_packet p.pt p.sess.seq p.sess.ts p.sess.ssrc payload),
  )

  tick_end : (p : StreamPlayer) → drop p.idx p.payloads ≡ [] → tick marshal false true p ≡ finish p
  unfolding tick
  tick_end p e = ground (arith, drop-nil p.payloads p.idx e)

  run_rest :
      (rest : List (List ℕ)) (p : StreamPlayer)
      → drop p.idx p.payloads ≡ rest
      → let t = run marshal (replicate (suc (length rest)) (false, true)) p in
        (t.sent
          ≡ map encoding (packets_of p.pt p.sess.ssrc p.ts_increment p.sess.seq p.sess.ts rest))
        × (t.kept ≡ false)
        × (t.done_calls ≡ (if p.on_done then 1 else 0))
  unfolding run packets_of
  run_rest [] p e = rw (tick_end p e) (unfold finish in (refl, refl, refl))
  run_rest (payload ∷ rest) p e =
      let t = tick marshal false true p in
      let f = tick_frame p payload rest e in ground (arith, f, run_rest rest t.player f.9)

  -- If every packet can be marshalled, the socket takes every datagram and nobody stops the
  -- stream, then a new stream of n payloads is dropped after n + 1 ticks: it has sent the encodings
  -- of exactly one packet for each payload, in order, with consecutive sequence numbers and
  -- timestamps from the session's on, and has called `onDone` once if it was given.
  pub stream_sends_all :
      (sess : Session) (payloads : List (List ℕ)) (pt ts_increment : ℕ) (stats : SendStats)
      (on_done : Bool)
      → let t =
          run marshal
            (replicate (suc (length payloads)) (false, true))
            (new_stream sess payloads pt ts_increment stats on_done) in
        (t.sent ≡ map encoding (packets_of pt sess.ssrc ts_increment sess.seq sess.ts payloads))
        × (t.kept ≡ false)
        × (t.done_calls ≡ (if on_done then 1 else 0))
  unfolding new_stream
  stream_sends_all sess payloads pt ts_increment stats on_done =
      run_rest payloads (new_stream sess payloads pt ts_increment stats on_done) refl
