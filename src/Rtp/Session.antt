-- ===== src/Rtp/Session.antt =====
-- core/rtp/session.go: the counters that the audio and the DTMF sender share. The socket and the
-- remote address are left out: what is sent is a result of the sender's step.
use xk6_sip_media.Prelude.{ℕ, ◌+◌}
use xk6_sip_media.Prelude.Bytes.{u16, u32}

pub record Session : Type 0 where
  pub ssrc : ℕ
  pub seq : ℕ
  pub ts : ℕ

unfoldable pub new_session : ℕ → Session
new_session ssrc = record { ssrc = ssrc; seq = 0; ts = 0 }

-- NextSeqTS: the sequence number, the timestamp, and the session after it.
unfoldable pub next_seq_ts : ℕ → Session → ℕ × ℕ × Session
next_seq_ts ts_increment s =
    (s.seq, s.ts, record s { seq = u16 (s.seq + 1); ts = u32 (s.ts + ts_increment) })
