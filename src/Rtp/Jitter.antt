-- ===== src/Rtp/Jitter.antt =====
-- core/rtp/jitter.go: the de-jittering queue between the receiver and the recorder. A time is a
-- number of nanoseconds of the monotonic clock. A result of `none` is a panic: a write to the nil
-- map that a flush leaves behind, or a write to a recorder whose channel is closed. The recorder
-- is shared by pointer, and `recorder` is its state at the call.
pub mod Late
pub mod Playout
pub mod Reorder
pub mod Flush
mod Runs
use xk6_sip_media.Prelude.{
  ℕ, suc, ◌+◌, ◌-◌, ◌^◌, Bool, true, false, not, ◌&&◌, ◌||◌, Option, none, some,
}
use xk6_sip_media.Prelude.{List, [], ◌∷◌, ltb, leb, ◌==◌, if◌then◌else◌, ◌>>=◌, replicate}
use xk6_sip_media.Prelude.Int.{pos, negsuc, sub_ℕ, ltb_ℤ}
use xk6_sip_media.Prelude.Bytes.{u16}
use xk6_sip_media.Prelude.NatMap
use xk6_sip_media.Rtp.Packet.{Packet}
use xk6_sip_media.Rtp.Recorder.{AudioRecorder, write}
use mathlib.Core.Option

-- `packets` is `none` for the nil map; `stopped` says that the channel `stop` is closed.
pub record JitterBuffer : Type 0 where
  pub packets : Option (List (ℕ × Packet))
  pub next_seq : ℕ
  pub started : Bool
  pub playout_delay : ℕ
  pub recorder : AudioRecorder
  pub silence_size : ℕ
  pub first_pkt_time : ℕ
  pub delay_expired : Bool
  pub stopped : Bool

unfoldable pub new_jitter_buffer : AudioRecorder → ℕ → ℕ → JitterBuffer
new_jitter_buffer recorder delay silence_size = record {
  packets = some [];
  next_seq = 0;
  started = false;
  playout_delay = delay;
  recorder = recorder;
  silence_size = silence_size;
  first_pkt_time = 0;
  delay_expired = false;
  stopped = false;
}

-- The first packet sets the playout head and the clock of the delay.
unfoldable pub track_first : ℕ → Packet → JitterBuffer → JitterBuffer
track_first now pkt jb =
    if not jb.started
    then record jb {
      next_seq = pkt.sequence_number;
      started = true;
      first_pkt_time = now;
      delay_expired = jb.playout_delay == 0;
    }
    else jb

-- The test on `delta` by which a packet counts as already played.
unfoldable pub is_late : ℕ → ℕ → Bool
is_late seq next_seq =
    let delta = sub_ℕ seq next_seq in
    ltb_ℤ delta (negsuc 255) || (ltb_ℤ delta (pos 0) && ltb_ℤ (negsuc 32767) delta)

store : Packet → JitterBuffer → Option JitterBuffer
store pkt jb = elim jb.packets [
  | none ↦ none
  | some m ↦ some (record jb { packets = some (NatMap.insert pkt.sequence_number pkt m) })
]

unfoldable pub push : ℕ → Packet → JitterBuffer → Option JitterBuffer
unfolding track_first store
push now pkt jb =
    let jb' = track_first now pkt jb in
    if jb'.started && is_late pkt.sequence_number jb'.next_seq then some jb' else store pkt jb'

found : JitterBuffer → Option Packet
found jb = elim jb.packets [ none ↦ none | some m ↦ NatMap.lookup jb.next_seq m ]

-- What one playout step writes: the expected packet, or silence for a codec that has it.
unfoldable pub write_frame : Option Packet → ℕ → AudioRecorder → Option AudioRecorder
write_frame (some pkt) silence_size r = write pkt.payload r
write_frame none silence_size r =
    if ltb 0 silence_size then write (replicate silence_size 0) r else some r

unfoldable pub play : JitterBuffer → Option (JitterBuffer × Bool)
unfolding found
play jb = do
  r ← write_frame (found jb) jb.silence_size jb.recorder
  some (
    record jb {
      recorder = r;
      packets = Option.map (NatMap.erase jb.next_seq) jb.packets;
      next_seq = u16 (jb.next_seq + 1);
    },
    true,
  )

-- Distance ahead of the playout head, round the circle of 2 ^ 16 sequence numbers.
abbrev pub distance : ℕ → ℕ → ℕ
distance next_seq seq = u16 (seq + 2 ^ 16 - next_seq)

-- sort.Slice by that distance.
unfoldable pub insert_by_distance : ℕ → ℕ → List ℕ → List ℕ
insert_by_distance next_seq s [] = s ∷ []
insert_by_distance next_seq s (t ∷ rest) =
    if leb (distance next_seq s) (distance next_seq t)
    then s ∷ t ∷ rest
    else t ∷ insert_by_distance next_seq s rest

unfoldable pub sort_by_distance : ℕ → List ℕ → List ℕ
unfolding insert_by_distance
sort_by_distance next_seq [] = []
sort_by_distance next_seq (s ∷ rest) =
    insert_by_distance next_seq s (sort_by_distance next_seq rest)

unfoldable pub write_seqs : List ℕ → List (ℕ × Packet) → AudioRecorder → Option AudioRecorder
write_seqs [] m r = some r
write_seqs (s ∷ rest) m r = do
  pkt ← NatMap.lookup s m
  r' ← write pkt.payload r
  write_seqs rest m r'

table_of : Option (List (ℕ × Packet)) → List (ℕ × Packet)
table_of none = []
table_of (some m) = m

unfoldable pub flush : JitterBuffer → Option (JitterBuffer × Bool)
unfolding table_of
flush jb = do
  let m = table_of jb.packets
  r ← write_seqs (sort_by_distance jb.next_seq (NatMap.keys m)) m jb.recorder
  some (record jb { recorder = r; packets = none }, false)

-- The playout delay has not passed yet.
unfoldable pub holds : ℕ → JitterBuffer → Bool
holds now jb = not jb.delay_expired && ltb (now - jb.first_pkt_time) jb.playout_delay

-- The second component is Tick's result: `false` asks the reactor to drop the buffer.
unfoldable pub tick : ℕ → JitterBuffer → Option (JitterBuffer × Bool)
tick now jb =
    if jb.stopped
    then flush jb
    else (if not jb.started
        then some (jb, true)
        else (if holds now jb then some (jb, true) else play (record jb { delay_expired = true })))

unfoldable pub close : JitterBuffer → JitterBuffer
close jb = record jb { stopped = true }
