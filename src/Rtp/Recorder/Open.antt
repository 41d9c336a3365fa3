-- ===== src/Rtp/Recorder/Open.antt =====
-- `write` on a recorder that is not closed, and on one that is.
use xk6_sip_media.Prelude.{◌+◌, ◌≡◌, refl, true, false, ◌&&◌, none, some}
use xk6_sip_media.Prelude.{ℕ, List, [], ◌∷◌, ◌++◌, arith, inl, inr, Bool-cases, ltb, length}
use xk6_sip_media.Rtp.Recorder.{AudioRecorder, write, write_ch_capacity}
use mathlib.Core.List.{append-nil}

-- A buffer-only recorder, or one whose channel is still open.
abbrev pub IsOpen : AudioRecorder → Type 0
IsOpen r = (r.has_file && r.closed) ≡ false

pub write-IsOpen :
    (payload : List ℕ) (r : AudioRecorder)
    → IsOpen r
    → (r' : AudioRecorder) × (write payload r ≡ some r') × (r'.buf ≡ r.buf ++ payload) × IsOpen r'
unfolding write
write-IsOpen [] r h = (r, refl, rw append-nil, h)
write-IsOpen (b ∷ bs) r h = elim (Bool-cases r.has_file) [
  | inl file ↦ elim (Bool-cases (ltb (length r.write_ch) write_ch_capacity)) [
    | inl room ↦ (
      record r { buf = r.buf ++ (b ∷ bs); write_ch = r.write_ch ++ ((b ∷ bs) ∷ []) },
      ground arith,
      refl,
      h,
    )
    | inr full ↦ (
      record r { buf = r.buf ++ (b ∷ bs); dropped_frames = r.dropped_frames + 1 },
      ground arith,
      refl,
      h,
    )
  ]
  | inr memory ↦ (record r { buf = r.buf ++ (b ∷ bs) }, ground arith, refl, h)
]

-- The channel of a recorder with a file that was closed takes no payload: the send panics.
pub write_closed :
    (b : ℕ) (bs : List ℕ) (r : AudioRecorder)
    → r.has_file ≡ true
    → r.closed ≡ true
    → write (b ∷ bs) r ≡ none
unfolding write
write_closed b bs r f c = ground arith
