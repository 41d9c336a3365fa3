-- ===== src/Rtp/Receive.antt =====
-- core/rtp/receiver.go, core/rtp/echo.go and the receive loop of core/rtp/srtp.go: one turn of each
-- loop. The datagrams that the socket yields are events, and `unmarshal` is pion's Unmarshal. The
-- payload it makes is a part of the bytes it is given, from `header_size` on, pion's MarshalSize of
-- the header. One turn reads the clock once.
pub mod Counts
pub mod Alias
mod Runs
use xk6_sip_media.Prelude.{ℕ, ◌+◌, Bool, true, false, Option, none, some, ◌>>=◌, List, [], ◌∷◌}
use xk6_sip_media.Prelude.{ltb, ◌==◌, if◌then◌else◌, length, ◌++◌, take, drop}
use mathlib.Core.Option
use xk6_sip_media.Prelude.Floats.{Floats}
use xk6_sip_media.Rtp.Packet.{Packet}
use xk6_sip_media.Rtp.Stats.{RtpStats, update}
use xk6_sip_media.Rtp.Dtmf.{DtmfCollector, collect}
use xk6_sip_media.Rtp.Jitter.{JitterBuffer, push}
use xk6_sip_media.Rtp.Srtp.{Ciphers, SrtpSession, Result, ok, err, decrypt_packet}

-- What a read of the socket comes back with: nothing within the second, another error, or a
-- datagram at a time.
pub data Read : Type 0 where
  timeout failed : Read
  datagram : ℕ → List ℕ → Read

module _ (fl : Floats) (unmarshal : List ℕ → Option Packet) (header_size : Packet → ℕ) where
  -- `frame` is the loop's `buf`. `dtmf` is `none` for a nil collector, `jb` for a call without a
  -- recorder.
  pub record Receiver : Type 0 where
    pub frame : List ℕ
    pub stats : RtpStats fl
    pub dtmf : Option DtmfCollector
    pub jb : Option JitterBuffer

  unfoldable pub is_event : Packet → Option DtmfCollector → Bool
  is_event pkt none = false
  is_event pkt (some c) = pkt.payload_type == c.pt

  -- Audio goes into the jitter buffer, if there is one and the packet has a payload.
  unfoldable pub push_audio : ℕ → Packet → Option JitterBuffer → Option (Option JitterBuffer)
  push_audio now pkt none = some none
  push_audio now pkt (some jb) =
      if ltb 0 (length pkt.payload)
      then Option.map (λ jb'. some jb') (push now pkt jb)
      else some (some jb)

  -- A read puts the datagram at the front of the one buffer of the loop. The packets that wait in the
  -- jitter buffer keep their payloads there, so they show what stands there now.
  unfoldable pub reread : List ℕ → Packet → Packet
  reread frame pkt = record pkt {
    payload = take (length pkt.payload) (drop (header_size pkt) frame);
  }

  unfoldable pub refresh_all : List ℕ → List (ℕ × Packet) → List (ℕ × Packet)
  refresh_all frame [] = []
  refresh_all frame ((seq, pkt) ∷ m) = (seq, reread frame pkt) ∷ refresh_all frame m

  unfoldable pub refresh_jb : List ℕ → JitterBuffer → JitterBuffer
  refresh_jb frame jb = record jb { packets = Option.map (refresh_all frame) jb.packets }

  unfoldable pub fill_frame : List ℕ → Receiver → Receiver
  fill_frame bytes r =
      let frame = bytes ++ drop (length bytes) r.frame in
      record r { frame = frame; jb = Option.map (refresh_jb frame) r.jb }

  -- A packet of `size` bytes on the wire; `none` is the panic of a push into a closed buffer.
  unfoldable pub receive_packet : ℕ → ℕ → Packet → Receiver → Option Receiver
  receive_packet now size pkt r =
      let updated = update fl r.stats pkt.sequence_number now in
      let stats = record updated { bytes_received = updated.bytes_received + size } in
      if is_event pkt r.dtmf
      then some (record r { stats = stats; dtmf = Option.map (collect pkt) r.dtmf })
      else Option.map (λ jb. record r { stats = stats; jb = jb }) (push_audio now pkt r.jb)

  unfoldable pub receive_bytes : ℕ → ℕ → List ℕ → Receiver → Option Receiver
  receive_bytes now size bytes r = elim (unmarshal bytes) [
    | none ↦ some r
    | some pkt ↦ receive_packet now size pkt r
  ]

  unfoldable pub count_error : Receiver → Receiver
  count_error r = record r { stats = record r.stats { recv_errors = r.stats.recv_errors + 1 } }

  unfoldable pub receive : Read → Receiver → Option Receiver
  receive timeout r = some r
  receive failed r = some (count_error r)
  receive (datagram now bytes) r = receive_bytes now (length bytes) bytes (fill_frame bytes r)

  -- The loop, up to the turn that finds `stop` closed.
  unfoldable pub run : List Read → Receiver → Option Receiver
  run [] r = some r
  run (e ∷ es) r = do r' ← receive e r; run es r'

  module _ (cr : Ciphers) where
    -- ReceiveSRTP: a datagram that is not authentic is dropped. The others are decrypted into bytes
    -- of their own, so no payload stands in the loop's buffer.
    unfoldable pub receive_srtp : Read → SrtpSession → Receiver → Option (SrtpSession × Receiver)
    receive_srtp timeout s r = some (s, r)
    receive_srtp failed s r = some (s, count_error r)
    receive_srtp (datagram now bytes) s r =
        let t = decrypt_packet cr bytes s in
        elim t.0 [
          | err e ↦ some (t.1, r)
          | ok plain ↦ Option.map (λ r'. (t.1, r')) (receive_bytes now (length bytes) plain r)
        ]

  -- Echo: the statistics after a turn, and the datagram that goes back to where it came from.
  unfoldable pub echo : Read → RtpStats fl → RtpStats fl × List (List ℕ)
  echo timeout stats = (stats, [])
  echo failed stats = (stats, [])
  echo (datagram now bytes) stats = elim (unmarshal bytes) [
    | none ↦ (stats, [])
    | some pkt ↦ (update fl stats pkt.sequence_number now, bytes ∷ [])
  ]
