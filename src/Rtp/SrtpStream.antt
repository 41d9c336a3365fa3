-- ===== src/Rtp/SrtpStream.antt =====
-- core/rtp/srtp.go: StreamSRTP and the player that it registers with the reactor. It is the player
-- of Rtp/Sender with an SRTP session: the datagram is the encryption of the marshalled packet.
pub mod Secured
mod Runs
use mathlib.Core.Option
use xk6_sip_media.Prelude.{
  ℕ, zero, suc, ◌+◌, Bool, true, false, Option, none, some, List, [], ◌∷◌, ◌++◌,
}
use xk6_sip_media.Prelude.{leb, if◌then◌else◌, length, get_or}
use xk6_sip_media.Rtp.Packet.{Packet}
use xk6_sip_media.Rtp.Session.{Session, next_seq_ts}
use xk6_sip_media.Rtp.Sender.{
  StreamPlayer, SendStats, new_stream, TickResult, finish, emit, audio_packet,
}
use xk6_sip_media.Rtp.Srtp.{Ciphers, SrtpSession, encrypt_packet}

-- `base` has the fields that the two players share.
pub record StreamSrtpPlayer : Type 0 where
  pub base : StreamPlayer
  pub srtp : SrtpSession

pub record SrtpTick : Type 0 where
  pub player : StreamSrtpPlayer
  pub sent : List (List ℕ)
  pub done_calls : ℕ
  pub kept : Bool

unfoldable pub new_srtp_stream :
    Session → SrtpSession → List (List ℕ) → ℕ → ℕ → SendStats → Bool → StreamSrtpPlayer
unfolding new_stream
new_srtp_stream sess srtp payloads pt ts_increment stats on_done = record {
  base = new_stream sess payloads pt ts_increment stats on_done;
  srtp = srtp;
}

abbrev pub with_session : SrtpSession → TickResult → SrtpTick
with_session srtp t = record {
  player = record { base = t.player; srtp = srtp };
  sent = t.sent;
  done_calls = t.done_calls;
  kept = t.kept;
}

abbrev pub followed_by : SrtpTick → SrtpTick → SrtpTick
followed_by t r = record r { sent = t.sent ++ r.sent; done_calls = t.done_calls + r.done_calls }

module _ (cr : Ciphers) (marshal : Packet → Option (List ℕ)) where
  -- A packet that cannot be marshalled leaves the SRTP session as it is. A raw packet without a
  -- complete header makes EncryptPacket panic, which is `none`.
  unfoldable pub emit_secured : Option (List ℕ) → Bool → List ℕ → StreamSrtpPlayer → Option SrtpTick
  emit_secured none send_ok payload p =
      some (with_session p.srtp (emit none send_ok payload p.base))
  emit_secured (some raw) send_ok payload p =
      let t = encrypt_packet cr raw p.srtp in
      elim t.0 [
        | none ↦ none
        | some encrypted ↦ some (with_session t.1 (emit (some encrypted) send_ok payload p.base))
      ]

  unfoldable pub tick : Bool → Bool → StreamSrtpPlayer → Option SrtpTick
  tick stop send_ok p =
      let base = p.base in
      if stop
      then some (with_session p.srtp (finish base))
      else (if leb (length base.payloads) base.idx
          then some (with_session p.srtp (finish base))
          else (let payload = get_or base.payloads base.idx [] in
              let (seq, ts, sess') = next_seq_ts base.ts_increment base.sess in
              emit_secured (marshal (audio_packet base.pt seq ts base.sess.ssrc payload)) send_ok
                payload (record p { base = record base { sess = sess'; idx = base.idx + 1 } })))

  -- The reactor's calls of a stream that nobody stops, over a socket that takes every datagram.
  unfoldable pub run : ℕ → StreamSrtpPlayer → Option SrtpTick
  run zero p = some (record { player = p; sent = []; done_calls = 0; kept = true })
  run (suc n) p = elim (tick false true p) [
    | none ↦ none
    | some t ↦
        (let rest = Option.map (followed_by t) (run n t.player) in if t.kept then rest else some t)
  ]
