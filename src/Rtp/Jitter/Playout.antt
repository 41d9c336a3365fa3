-- ===== src/Rtp/Jitter/Playout.antt =====
-- Playout against a reference: what a run of ticks writes, whatever the order of arrival.
use xk6_sip_media.Prelude.{ℕ, zero, suc, ◌+◌, ◌<◌, ◌≤◌, ◌≡◌, refl, ap, ◌∙◌}
use xk6_sip_media.Prelude.{true, false, Option, none, some, List, [], ◌∷◌, ◌++◌, length, arith}
use xk6_sip_media.Prelude.{ltb, if◌then◌else◌, ◌>>=◌, replicate}
use xk6_sip_media.Prelude.Bytes.{u16}
use xk6_sip_media.Prelude.NatMap
use xk6_sip_media.Prelude.NatMap.{lookup-erase_ne, lookup-insert}
use xk6_sip_media.Rtp.Packet.{Packet}
use xk6_sip_media.Rtp.Recorder.{AudioRecorder}
use xk6_sip_media.Rtp.Recorder.Open.{IsOpen, write-IsOpen}
use xk6_sip_media.Rtp.Jitter.{JitterBuffer, write_frame, play, tick, holds}
use mathlib.Core.List.{append-nil, append_assoc}

-- The bytes of one 20 ms step.
abbrev pub frame : Option Packet → ℕ → List ℕ
frame (some pkt) silence_size = pkt.payload
frame none silence_size = replicate silence_size 0

-- The reference: `k` consecutive sequence numbers from `seq` on, each as its packet's payload or as
-- silence.
unfoldable pub played : ℕ → ℕ → List (ℕ × Packet) → ℕ → List ℕ
played zero seq m silence_size = []
played (suc k) seq m silence_size =
    frame (NatMap.lookup seq m) silence_size ++ played k (u16 (seq + 1)) m silence_size

-- Playing a number leaves the next 65535 numbers in the map.
played-erase :
    (k n j silence_size : ℕ) (m : List (ℕ × Packet))
    → n < 65536
    → 0 < j
    → j + k ≤ 65536
    → played k (u16 (n + j)) (NatMap.erase n m) silence_size ≡ played k (u16 (n + j)) m silence_size
unfolding played
played-erase zero n j z m a b c = refl
played-erase (suc k) n j z m a b c =
    let next : u16 (u16 (n + j) + 1) ≡ u16 (n + (j + 1)) = omega arith in
    rw (next, lookup-erase_ne n (u16 (n + j)) m (λ e. omega arith))
      (ap (λ t. frame (NatMap.lookup (u16 (n + j)) m) z ++ t)
        (played-erase k n (j + 1) z m a (omega arith) (omega arith)))

write_frame-IsOpen :
    (o : Option Packet) (z : ℕ) (r : AudioRecorder)
    → IsOpen r
    → (r' : AudioRecorder) × (write_frame o z r ≡ some r')
      × (r'.buf ≡ r.buf ++ frame o z)
      × IsOpen r'
unfolding write_frame
write_frame-IsOpen (some pkt) z r h = write-IsOpen pkt.payload r h
write_frame-IsOpen none zero r h = (r, refl, rw append-nil, h)
write_frame-IsOpen none (suc z) r h =
    let positive : ltb 0 (suc z) ≡ true = ground arith in
    rw positive (write-IsOpen (replicate (suc z) 0) r h)

-- A buffer that plays: it is started, not stopped, and its delay has passed.
pub record Playing (jb : JitterBuffer) (m : List (ℕ × Packet)) : Type 0 where
  pub is_started : jb.started ≡ true
  pub not_stopped : jb.stopped ≡ false
  pub past_delay : jb.delay_expired ≡ true
  pub table : jb.packets ≡ some m
  pub recording : IsOpen jb.recorder
  pub head : jb.next_seq < 65536

tick-play :
    (now : ℕ) (jb : JitterBuffer) (m : List (ℕ × Packet))
    → Playing jb m
    → tick now jb ≡ play (record jb { delay_expired = true })
unfolding tick holds
tick-play now jb m p = ground arith

play_frame :
    (jb : JitterBuffer) (m : List (ℕ × Packet))
    → Playing jb m
    → (r : AudioRecorder)
    → write_frame (NatMap.lookup jb.next_seq m) jb.silence_size jb.recorder ≡ some r
    → play (record jb { delay_expired = true })
      ≡ some (
        record jb {
          delay_expired = true;
          recorder = r;
          packets = some (NatMap.erase jb.next_seq m);
          next_seq = u16 (jb.next_seq + 1);
        },
        true,
      )
unfolding play
play_frame jb m p r e = ground arith

tick-Playing :
    (now : ℕ) (jb : JitterBuffer) (m : List (ℕ × Packet))
    → Playing jb m
    → (jb' : JitterBuffer) × (tick now jb ≡ some (jb', true))
      × Playing jb' (NatMap.erase jb.next_seq m)
      × (jb'.recorder.buf ≡ jb.recorder.buf ++ frame (NatMap.lookup jb.next_seq m) jb.silence_size)
      × (jb'.next_seq ≡ u16 (jb.next_seq + 1))
      × (jb'.silence_size ≡ jb.silence_size)
tick-Playing now jb m p =
    let o = NatMap.lookup jb.next_seq m in
    let (r, e, b, k) = write_frame-IsOpen o jb.silence_size jb.recorder p.recording in
    (
      record jb {
        delay_expired = true;
        recorder = r;
        packets = some (NatMap.erase jb.next_seq m);
        next_seq = u16 (jb.next_seq + 1);
      },
      tick-play now jb m p ∙ play_frame jb m p r e,
      record {
        is_started = p.is_started;
        not_stopped = p.not_stopped;
        past_delay = refl;
        table = refl;
        recording = k;
        head = omega arith;
      },
      b,
      refl,
      refl,
    )

-- The reactor's calls, one every 20 ms, while the buffer stays registered.
unfoldable pub ticks : List ℕ → JitterBuffer → Option JitterBuffer
ticks [] jb = some jb
ticks (now ∷ times) jb = do (jb', keep) ← tick now jb; if keep then ticks times jb' else some jb'

-- On a playing buffer whose recorder is open, up to 65536 ticks append to the recording exactly
-- the payloads of the stored packets in the order of their sequence numbers from the playout head
-- on, round the circle, with one frame of silence for each that is missing, and move the head on
-- by the number of ticks.
pub ticks-played :
    (times : List ℕ) (jb : JitterBuffer) (m : List (ℕ × Packet))
    → Playing jb m
    → length times ≤ 65536
    → (jb' : JitterBuffer) × (ticks times jb ≡ some jb')
      × (jb'.recorder.buf ≡ jb.recorder.buf ++ played (length times) jb.next_seq m jb.silence_size)
      × (jb'.next_seq ≡ u16 (jb.next_seq + length times))
unfolding ticks played
ticks-played [] jb m p h = (jb, refl, rw append-nil, omega (arith, p))
ticks-played (now ∷ times) jb m p h =
    let (jb', e, p', b, n, z) = tick-Playing now jb m p in
    let (jb'', e', b', n') = ticks-played times jb' (NatMap.erase jb.next_seq m) p' (omega arith) in
    let rest = played (length times) (u16 (jb.next_seq + 1)) m jb.silence_size in
    let same : played (length times) jb'.next_seq (NatMap.erase jb.next_seq m) jb'.silence_size
        ≡ rest =
      rw (n, z)
        (played-erase (length times) jb.next_seq 1 jb.silence_size m p.head (omega arith)
          (omega arith)) in
    (
      jb'',
      rw e e',
      b'
          ∙ ap (λ t. jb'.recorder.buf ++ t) same
          ∙ ap (λ t. t ++ rest) b
          ∙ append_assoc jb.recorder.buf (frame (NatMap.lookup jb.next_seq m) jb.silence_size) rest,
      omega (arith, n, n'),
    )
