-- ===== src/Rtp/SrtpStream/Secured.antt =====
-- A whole encrypted stream, from the player to the session that opens its datagrams.
use xk6_sip_media.Prelude.{
  ℕ, suc, ◌+◌, ◌<◌, ◌≤◌, ◌≡◌, refl, Bool, true, false, Option, some, List, [], ◌∷◌, map,
}
use xk6_sip_media.Prelude.{
  arith, length, drop, drop-cons, drop-nil, if◌then◌else◌, ◌∙◌, ◌^◌, ap, sym,
}
use xk6_sip_media.Prelude.Bytes.{u16, u32, be16_at}
use xk6_sip_media.Rtp.Packet.{Packet}
use xk6_sip_media.Rtp.Session
use xk6_sip_media.Rtp.Session.{next_seq_ts}
use xk6_sip_media.Rtp.Sender.{StreamPlayer, SendStats, finish, emit, audio_packet, count_sent}
use xk6_sip_media.Rtp.Sender.Stream.{packets_of}
use xk6_sip_media.Rtp.Srtp.{
  Ciphers, SrtpConfig, SrtpSession, Result, ok, estimate_index, new_session, decrypt_packet,
}
use xk6_sip_media.Rtp.Srtp.Index.{At, Ahead, estimate_index-At}
use xk6_sip_media.Rtp.Srtp.RoundTrip.{
  SameKeys, keys-estimate_index, protected, encrypt_packet-long, decrypt-encrypt,
}
use xk6_sip_media.Rtp.Srtp.Relay.{
  fresh_session, new_session-fresh_session, fresh_session-At, fresh_session-SameKeys,
}
use xk6_sip_media.Rtp.SrtpStream.{
  StreamSrtpPlayer, SrtpTick, new_srtp_stream, with_session, emit_secured, tick, run, followed_by,
}

-- What an end makes of the datagrams that it gets.
unfoldable pub decrypt_all : Ciphers → List (List ℕ) → SrtpSession → List (Result (List ℕ))
decrypt_all cr [] r = []
decrypt_all cr (d ∷ ds) r = let t = decrypt_packet cr d r in t.0 ∷ decrypt_all cr ds t.1

-- What the stream relies on in pion's Marshal: it succeeds, the header has twelve bytes at least,
-- and the sequence number stands at its place.
pub record IsEncoding (marshal : Packet → Option (List ℕ)) (encoding : Packet → List ℕ)
    : Type 0 where
  pub marshals : (pkt : Packet) → marshal pkt ≡ some (encoding pkt)
  pub has_header : (pkt : Packet) → 12 ≤ length (encoding pkt)
  pub has_seq :
      (pkt : Packet) → pkt.sequence_number < 65536 → be16_at (encoding pkt) 2 ≡ pkt.sequence_number

module _ (cr : Ciphers) (marshal : Packet → Option (List ℕ)) (encoding : Packet → List ℕ)
    (enc : IsEncoding marshal encoding) where
  -- The packet that a tick takes.
  abbrev next_packet : StreamPlayer → List ℕ → Packet
  next_packet base payload = audio_packet base.pt base.sess.seq base.sess.ts base.sess.ssrc payload

  place :
      (base : StreamPlayer) (payload : List ℕ) (q : ℕ)
      → base.sess.seq ≡ u16 q
      → be16_at (encoding (next_packet base payload)) 2 ≡ u16 q
  unfolding audio_packet
  place base payload q e = enc.has_seq (next_packet base payload) (omega (arith, e)) ∙ e

  tick_frame :
      (p : StreamSrtpPlayer) (payload : List ℕ) (rest : List (List ℕ)) (q : ℕ)
      → drop p.base.idx p.base.payloads ≡ payload ∷ rest
      → p.base.sess.seq ≡ u16 q
      → let s' = estimate_index (u16 q) p.srtp in
        let raw = encoding (next_packet p.base payload) in
        (t : SrtpTick) × (tick cr marshal false true p ≡ some t)
        × (t.kept ≡ true)
        × (t.done_calls ≡ 0)
        × (t.sent ≡ protected cr s' raw ∷ [])
        × (t.player.srtp ≡ s')
        × (t.player.base.sess.seq ≡ u16 (q + 1))
        × (t.player.base.sess.ts ≡ u32 (p.base.sess.ts + p.base.ts_increment))
        × (t.player.base.sess.ssrc ≡ p.base.sess.ssrc)
        × (t.player.base.pt ≡ p.base.pt)
        × (t.player.base.ts_increment ≡ p.base.ts_increment)
        × (t.player.base.on_done ≡ p.base.on_done)
        × (drop t.player.base.idx t.player.base.payloads ≡ rest)
  unfolding tick emit_secured emit next_seq_ts count_sent audio_packet
  tick_frame p payload rest q e seq =
      let pkt = next_packet p.base payload in
      let raw = encoding pkt in
      let s' = estimate_index (u16 q) p.srtp in
      let base' = record p.base {
        sess = (next_seq_ts p.base.ts_increment p.base.sess).2;
        idx = p.base.idx + 1;
      } in
      let sent =
        encrypt_packet-long cr raw p.srtp q (enc.has_header pkt) (place p.base payload q seq) in
      let (inside, payload_is, tail) = drop-cons p.base.payloads p.base.idx payload [] rest e in
      (
        with_session s' (emit (some (protected cr s' raw)) true payload base'),
        ground (arith, inside, payload_is, sent, enc.marshals pkt),
        refl,
        refl,
        refl,
        refl,
        omega (arith, seq),
        refl,
        refl,
        refl,
        refl,
        refl,
        tail,
      )

  tick_end :
      (p : StreamSrtpPlayer)
      → drop p.base.idx p.base.payloads ≡ []
      → tick cr marshal false true p ≡ some (with_session p.srtp (finish p.base))
  unfolding tick
  tick_end p e = ground (arith, drop-nil p.base.payloads p.base.idx e)

  run-suc :
      (n : ℕ) (p : StreamSrtpPlayer) (t u : SrtpTick)
      → tick cr marshal false true p ≡ some t
      → t.kept ≡ true
      → run cr marshal n t.player ≡ some u
      → run cr marshal (suc n) p ≡ some (followed_by t u)
  unfolding run
  run-suc n p t u ran kept ran' = ground (arith, ran, kept, ran')

  followed_by-opens :
      (t u : SrtpTick) (d plain : List ℕ) (plains plains' : List (List ℕ)) (r r' : SrtpSession)
      → t.sent ≡ d ∷ []
      → decrypt_packet cr d r ≡ (ok plain, r')
      → decrypt_all cr u.sent r' ≡ map ok plains
      → plains ≡ plains'
      → decrypt_all cr (followed_by t u).sent r ≡ map ok (plain ∷ plains')
  unfolding decrypt_all
  followed_by-opens t u d plain plains plains' r r' sent here opened e =
      rw (sent, here, opened, e) refl

  same_packets :
      (rest : List (List ℕ)) {pt pt' ssrc ssrc' step step' seq seq' ts ts' : ℕ}
      → pt ≡ pt'
      → ssrc ≡ ssrc'
      → step ≡ step'
      → seq ≡ seq'
      → ts ≡ ts'
      → map encoding (packets_of pt ssrc step seq ts rest)
        ≡ map encoding (packets_of pt' ssrc' step' seq' ts' rest)
  same_packets rest a b c d e = cc

  run_rest :
      (rest : List (List ℕ)) (p : StreamSrtpPlayer) (r : SrtpSession) (a b q : ℕ)
      → drop p.base.idx p.base.payloads ≡ rest
      → p.base.sess.seq ≡ u16 q
      → SameKeys p.srtp r
      → At p.srtp a
      → Ahead a q
      → At r b
      → Ahead b q
      → q + length rest < 2 ^ 48
      → (t : SrtpTick) × (run cr marshal (suc (length rest)) p ≡ some t)
        × (t.kept ≡ false)
        × (t.done_calls ≡ (if p.base.on_done then 1 else 0))
        × (decrypt_all cr t.sent r
            ≡ map ok (
                map encoding (
                  packets_of p.base.pt p.base.sess.ssrc p.base.ts_increment p.base.sess.seq
                    p.base.sess.ts rest)))
  unfolding run packets_of decrypt_all
  run_rest [] p r a b q e seq keys at_s ahead_s at_r ahead_r small =
      unfold finish in
      (with_session p.srtp (finish p.base), ground (arith, tick_end p e), refl, refl, refl)
  run_rest (payload ∷ rest) p r a b q e seq keys at_s ahead_s at_r ahead_r small =
      let pkt = next_packet p.base payload in
      let raw = encoding pkt in
      let s' = estimate_index (u16 q) p.srtp in
      let r' = estimate_index (u16 q) r in
      let (t, ran, kept, calls, sent, srtp, seq', ts', ssrc', pt', step', on_done', rest') =
        tick_frame p payload rest q e seq in
      let keys' : SameKeys t.player.srtp r' =
        rw srtp (keys-estimate_index (u16 q) (u16 q) p.srtp r keys) in
      let at_s' : At t.player.srtp q = rw srtp (estimate_index-At p.srtp a q at_s ahead_s) in
      let at_r' = estimate_index-At r b q at_r ahead_r in
      let (u, ran', kept', calls', opened) =
        run_rest rest t.player r' q q (q + 1) rest' seq' keys' at_s' (omega arith) at_r'
          (omega arith) (omega arith) in
      let here =
        decrypt-encrypt cr raw p.srtp r a b q (enc.has_header pkt) (place p.base payload q seq) keys
          at_s ahead_s at_r ahead_r in
      let next_seq : u16 (p.base.sess.seq + 1) ≡ u16 (q + 1) = omega (arith, seq) in
      (
        followed_by t u,
        run-suc (suc (length rest)) p t u ran kept ran',
        kept',
        omega (arith, calls, calls', ap {B = ℕ} (λ d. if d then 1 else 0) on_done'),
        followed_by-opens t u (protected cr s' raw) raw _ _ r r' sent here opened
            (same_packets rest pt' ssrc' step' (seq' ∙ sym next_seq) ts'),
      )

  -- From one configuration, a sender and a receiver session can be made; a stream of fewer than
  -- 2 ^ 48 payloads that nobody stops, over a socket that takes every datagram, ends after one tick
  -- more than it has payloads and calls `onDone` once if it was given; and the receiver session
  -- opens each of its datagrams, in order, as the marshalled packet of one payload, with
  -- consecutive sequence numbers and timestamps from 0 on.
  pub srtp_stream_opens :
      (cfg : SrtpConfig) (ssrc : ℕ) (payloads : List (List ℕ)) (pt ts_increment : ℕ)
      (stats : SendStats) (on_done : Bool)
      → length cfg.master_key ≡ 16
      → length cfg.master_salt ≡ 14
      → length payloads < 2 ^ 48
      → (s : SrtpSession) × (r : SrtpSession) × (t : SrtpTick) × (new_session cr cfg ssrc true
          ≡ ok s)
        × (new_session cr cfg ssrc false ≡ ok r)
        × (run cr marshal
              (suc (length payloads))
              (new_srtp_stream (Session.new_session ssrc) s payloads pt ts_increment stats on_done)
            ≡ some t)
        × (t.kept ≡ false)
        × (t.done_calls ≡ (if on_done then 1 else 0))
        × (decrypt_all cr t.sent r
            ≡ map ok (map encoding (packets_of pt ssrc ts_increment 0 0 payloads)))
  unfolding new_srtp_stream Session.new_session
  srtp_stream_opens cfg ssrc payloads pt ts_increment stats on_done k l small =
      let s = fresh_session cr cfg ssrc true in
      let r = fresh_session cr cfg ssrc false in
      let p = new_srtp_stream (Session.new_session ssrc) s payloads pt ts_increment stats on_done in
      let (t, ran, kept, calls, opened) =
        run_rest payloads p r 0 0 0 refl refl (fresh_session-SameKeys cr cfg ssrc)
          (fresh_session-At cr cfg ssrc true) (omega arith) (fresh_session-At cr cfg ssrc false)
          (omega arith) (omega arith) in
      (
        s,
        r,
        t,
        new_session-fresh_session cr cfg ssrc true k l,
        new_session-fresh_session cr cfg ssrc false k l,
        ran,
        kept,
        calls,
        opened,
      )
