-- ===== src/Rtp/Recorder/Conserve.antt =====
-- The file against the memory buffer, with Writes one after another and writer rounds at any time.
use xk6_sip_media.Prelude.{ℕ, ◌+◌, ◌≤◌, ◌≡◌, refl, sym, ap, ◌∙◌, true, false}
use xk6_sip_media.Prelude.{
  Option, some, inl, inr, List, [], ◌∷◌, ◌++◌, length, length-append, arith,
}
use xk6_sip_media.Prelude.{ltb, ◌>>=◌, Bool-cases}
use xk6_sip_media.Rtp.Recorder.{AudioRecorder, new_recorder, write, file_writer_round}
use xk6_sip_media.Rtp.Recorder.{close, concat, take_chunk, write_ch_capacity}
use mathlib.Core.List.{append-nil, append_assoc}

-- What can happen to an open recorder: a payload is written, or the goroutine has a turn.
pub data Act : Type 0 where
  put : List ℕ → Act
  drain : Act

unfoldable pub act : Act → AudioRecorder → Option AudioRecorder
act (put payload) r = write payload r
act drain r = some (file_writer_round r)

unfoldable pub run : List Act → AudioRecorder → Option AudioRecorder
run [] r = some r
run (a ∷ rest) r = act a r >>= run rest

-- While no frame was dropped, the file and the queue together hold what the buffer holds.
pub record Conserves (r : AudioRecorder) : Type 0 where
  pub with_file : r.has_file ≡ true
  pub open_channel : r.closed ≡ false
  pub bounded : length r.write_ch ≤ write_ch_capacity
  pub same_bytes : r.dropped_frames ≡ 0 → r.file ++ concat r.write_ch ≡ r.buf

pub concat-append_one : (xs : List (List ℕ)) (y : List ℕ) → concat (xs ++ (y ∷ [])) ≡ concat xs ++ y
concat-append_one [] y = append-nil y
concat-append_one (x ∷ xs) y =
    ap (λ t. x ++ t) (concat-append_one xs y) ∙ sym (append_assoc x (concat xs) y)

write-Conserves :
    (payload : List ℕ) (r : AudioRecorder)
    → Conserves r
    → (r' : AudioRecorder) × (write payload r ≡ some r') × Conserves r'
unfolding write
write-Conserves [] r h = (r, refl, h)
write-Conserves (b ∷ bs) r h = elim (Bool-cases (ltb (length r.write_ch) write_ch_capacity)) [
  | inl room ↦ (
    record r { buf = r.buf ++ (b ∷ bs); write_ch = r.write_ch ++ ((b ∷ bs) ∷ []) },
    ground arith,
    record {
      with_file = h.with_file;
      open_channel = h.open_channel;
      bounded = ground (arith, length-append r.write_ch ((b ∷ bs) ∷ []));
      same_bytes = λ z.
          ap (λ t. r.file ++ t) (concat-append_one r.write_ch (b ∷ bs))
          ∙ sym (append_assoc r.file (concat r.write_ch) (b ∷ bs))
          ∙ ap (λ t. t ++ (b ∷ bs)) (h.same_bytes z);
    },
  )
  | inr full ↦ (
    record r { buf = r.buf ++ (b ∷ bs); dropped_frames = r.dropped_frames + 1 },
    ground arith,
    record {
      with_file = h.with_file;
      open_channel = h.open_channel;
      bounded = h.bounded;
      same_bytes = λ z. absurd (omega arith);
    },
  )
]

take_chunk-Conserves :
    (q : List (List ℕ)) (r : AudioRecorder)
    → r.write_ch ≡ q
    → Conserves r
    → Conserves (take_chunk q r)
unfolding take_chunk
take_chunk-Conserves [] r e h = h
take_chunk-Conserves (chunk ∷ rest) r e h = record {
  with_file = h.with_file;
  open_channel = h.open_channel;
  bounded = omega (arith, ap (λ q. length q) e, h.bounded);
  same_bytes = λ z.
      append_assoc r.file chunk (concat rest)
      ∙ ap (λ q. r.file ++ concat q) (sym e)
      ∙ h.same_bytes z;
}

act-Conserves :
    (a : Act) (r : AudioRecorder)
    → Conserves r
    → (r' : AudioRecorder) × (act a r ≡ some r') × Conserves r'
unfolding act file_writer_round
act-Conserves (put payload) r h = write-Conserves payload r h
act-Conserves drain r h = (file_writer_round r, refl, take_chunk-Conserves r.write_ch r refl h)

run-Conserves :
    (acts : List Act) (r : AudioRecorder)
    → Conserves r
    → (r' : AudioRecorder) × (run acts r ≡ some r') × Conserves r'
unfolding run
run-Conserves [] r h = (r, refl, h)
run-Conserves (a ∷ rest) r h =
    let (r', e, h') = act-Conserves a r h in
    let (t, e', k) = run-Conserves rest r' h' in (t, rw e e', k)

-- A recorder that was opened with a file survives Writes that do not overlap, with rounds of the
-- writer at any time, and a Close after them succeeds; if no frame was dropped, the file then holds
-- exactly the bytes that the buffer holds. The channel never holds more than its capacity.
pub run-close_conserves :
    (acts : List Act)
    → (r r' : AudioRecorder) × (run acts (new_recorder true) ≡ some r)
      × (close r ≡ some r')
      × (length r.write_ch ≤ write_ch_capacity)
      × (r.dropped_frames ≡ 0 → r'.file ≡ r'.buf)
unfolding new_recorder close
run-close_conserves acts =
    let (r, e, h) = run-Conserves acts (new_recorder true) start in
    (
      r,
      record r { write_ch = []; file = r.file ++ concat r.write_ch; closed = true },
      e,
      ground arith,
      h.bounded,
      h.same_bytes,
    )
  where
    start : Conserves (new_recorder true)
    start = ground arith
