-- ===== src/Rtp/Recorder.antt =====
-- core/rtp/recorder.go: the recorder keeps all audio in memory and hands copies to a goroutine that
-- writes the file. The channel is a queue, and one round of that goroutine is `file_writer_round`.
-- A Write appends to the memory under the mutex and sends to the channel after it: other Writes may
-- come between (Overlap).
pub mod Conserve
pub mod Overlap
pub mod Open
mod Runs
use xk6_sip_media.Prelude.{
  ℕ, ◌+◌, Bool, true, false, Option, none, some, List, [], ◌∷◌, ◌++◌, length,
}
use xk6_sip_media.Prelude.{ltb, if◌then◌else◌}

abbrev pub write_ch_capacity : ℕ
write_ch_capacity = 4096

-- `has_file` stands for the open file, the channel and its goroutine, which exist together.
-- `file` is what has been written to the file, and `closed` says that the channel is closed.
pub record AudioRecorder : Type 0 where
  pub has_file : Bool
  pub closed : Bool
  pub buf : List ℕ
  pub write_ch : List (List ℕ)
  pub file : List ℕ
  pub dropped_frames : ℕ

unfoldable pub new_recorder : Bool → AudioRecorder
new_recorder has_file = record {
  has_file = has_file;
  closed = false;
  buf = [];
  write_ch = [];
  file = [];
  dropped_frames = 0;
}

-- The non-blocking send on the channel, which panics once the channel is closed.
unfoldable pub enqueue : List ℕ → AudioRecorder → Option AudioRecorder
enqueue payload r =
    if r.closed
    then none
    else (if ltb (length r.write_ch) write_ch_capacity
        then some (record r { write_ch = r.write_ch ++ (payload ∷ []) })
        else some (record r { dropped_frames = r.dropped_frames + 1 }))

-- Write's segment under the mutex.
unfoldable pub append_buf : List ℕ → AudioRecorder → AudioRecorder
append_buf payload r = record r { buf = r.buf ++ payload }

-- Write, when no other Write comes between its segments: an empty payload is ignored.
unfoldable pub write : List ℕ → AudioRecorder → Option AudioRecorder
unfolding append_buf enqueue
write [] r = some r
write (b ∷ bs) r =
    let r' = append_buf (b ∷ bs) r in if r.has_file then enqueue (b ∷ bs) r' else some r'

-- Append all chunks of a list.
abbrev pub concat : List (List ℕ) → List ℕ
concat [] = []
concat (x ∷ xs) = x ++ concat xs

take_chunk : List (List ℕ) → AudioRecorder → AudioRecorder
take_chunk [] r = r
take_chunk (chunk ∷ rest) r = record r { write_ch = rest; file = r.file ++ chunk }

-- One round of the goroutine: it takes the next chunk, if there is one, and writes it.
unfoldable pub file_writer_round : AudioRecorder → AudioRecorder
unfolding take_chunk
file_writer_round r = take_chunk r.write_ch r

-- Close ends the channel and waits until the goroutine has written what is left; closing the
-- channel a second time panics.
unfoldable pub close : AudioRecorder → Option AudioRecorder
close r =
    if r.has_file
    then (if r.closed
        then none
        else some (record r { write_ch = []; file = r.file ++ concat r.write_ch; closed = true }))
    else some r
