-- ===== src/Rtp/Recorder/Runs.antt =====
-- Concrete runs of the recorder, and the theorem at a concrete input.
use xk6_sip_media.Prelude.{◌≡◌, refl, true, some, false, List, [], ◌∷◌}
use xk6_sip_media.Prelude.Pull.{pull}
use xk6_sip_media.Rtp.Recorder.{new_recorder, append_buf, enqueue, file_writer_round}
use xk6_sip_media.Rtp.Recorder.Overlap.{Act, append, send, drain, act, run, opened}

-- Two Writes overlap, and the later one sends first.
abbrev crossed : List Act
crossed = append (1 ∷ 2 ∷ []) ∷ append [] ∷ append (3 ∷ []) ∷ send 0 ∷ drain ∷ send 0 ∷ drain ∷ []

-- The memory and the file after it.
after_crossed :
    run crossed opened
    ≡ some (record {
      recorder = record {
        has_file = true;
        closed = false;
        buf = 1 ∷ 2 ∷ 3 ∷ [];
        write_ch = [];
        file = 3 ∷ 1 ∷ 2 ∷ [];
        dropped_frames = 0;
      };
      pending = [];
    })
unfolding run act pull append_buf enqueue file_writer_round new_recorder
after_crossed = refl
