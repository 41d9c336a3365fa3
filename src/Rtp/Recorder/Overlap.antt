-- ===== src/Rtp/Recorder/Overlap.antt =====
-- Writes of several goroutines, each of which may stand between its two segments.
use xk6_sip_media.Prelude.{ℕ, ◌≤◌, ◌≡◌, true, false}
use xk6_sip_media.Prelude.{Option, none, some, List, [], ◌∷◌, ◌++◌, length}
use xk6_sip_media.Prelude.{◌>>=◌}
use xk6_sip_media.Prelude.Pull.{pull}
use xk6_sip_media.Rtp.Recorder.{
  AudioRecorder, new_recorder, append_buf, enqueue, file_writer_round, concat, write_ch_capacity,
}
use mathlib.Core.List.{Perm}
use mathlib.Core.List.Perm

-- The recorder, and the payloads of the Writes that have appended and not sent yet.
pub record Writers : Type 0 where
  pub recorder : AudioRecorder
  pub pending : List (List ℕ)

-- A Write appends, the Write of some pending payload sends it, or the goroutine of the file has a
-- turn. A send that no Write stands before changes nothing.
pub data Act : Type 0 where
  append : List ℕ → Act
  send : ℕ → Act
  drain : Act

abbrev pub sent_from : Option (List ℕ × List (List ℕ)) → Writers → Option Writers
sent_from none w = some w
sent_from (some (payload, rest)) w =
    enqueue payload w.recorder >>= λ r. some (record { recorder = r; pending = rest })

unfoldable pub act : Act → Writers → Option Writers
act (append []) w = some w
act (append (b ∷ bs)) w =
    some (record { recorder = append_buf (b ∷ bs) w.recorder; pending = (b ∷ bs) ∷ w.pending })
act (send i) w = sent_from (pull i w.pending) w
act drain w = some (record w { recorder = file_writer_round w.recorder })

unfoldable pub run : List Act → Writers → Option Writers
run [] w = some w
run (a ∷ rest) w = act a w >>= run rest

-- `begun` has the payloads in the order of the buffer, `sent` in that of the file.
pub record Permuted (w : Writers) : Type 0 where
  pub with_file : w.recorder.has_file ≡ true
  pub open_channel : w.recorder.closed ≡ false
  pub bounded : length w.recorder.write_ch ≤ write_ch_capacity
  pub begun : List (List ℕ)
  pub sent : List (List ℕ)
  pub in_memory : w.recorder.buf ≡ concat begun
  pub on_file : w.recorder.file ++ concat w.recorder.write_ch ≡ concat sent
  pub same_payloads : w.recorder.dropped_frames ≡ 0 → Perm (w.pending ++ sent) begun

abbrev pub opened : Writers
opened = record { recorder = new_recorder true; pending = [] }
