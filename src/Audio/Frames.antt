-- ===== src/Audio/Frames.antt =====
-- core/audio/frame.go, core/audio/pcm.go and core/audio/loader.go, core/audio/codec_loader.go:
-- samples to the frames of a codec. A division by zero and a slice out of range are `none`.
pub mod Split
mod Runs
use xk6_sip_media.Prelude.{
  ℕ, zero, suc, ◌+◌, ◌-◌, ◌*◌, ◌/◌, ◌%◌, ◌≤◌, ◌<◌, Bool, true, false, not, ◌&&◌, ◌||◌, Option, none,
  some, List, [], ◌∷◌, ◌++◌, map,
}
use xk6_sip_media.Prelude.{ltb, leb, ◌==◌, if◌then◌else◌, ◌>>=◌, length, take, drop}
use xk6_sip_media.Prelude.Bytes.{byte_at}
use xk6_sip_media.Prelude.Int.{ℤ, pos, negsuc, ltb_ℤ}
use xk6_sip_media.Prelude.Text.{Str, same, codes, has_prefix, upper}

module _ {ℓ} {A : Type ℓ} where
  abbrev pub slice_of : List A → ℕ → ℕ → Option (List A)
  slice_of xs lo hi =
      if leb lo hi && leb hi (length xs) then some (take (hi - lo) (drop lo xs)) else none

  -- The frames from `i` on, `count` of them.
  unfoldable pub frames_at : ℕ → ℕ → ℕ → List A → Option (List (List A))
  frames_at zero i size samples = some []
  frames_at (suc count) i size samples = do
    frame ← slice_of samples (i * size) (i * size + size)
    frames ← frames_at count (i + 1) size samples
    some (frame ∷ frames)

  unfoldable pub split_frames : List A → ℕ → Option (List (List A))
  split_frames samples zero = none
  split_frames samples (suc size) = frames_at (length samples / suc size) 0 (suc size) samples

unfoldable pub clamp_int16 : ℤ → ℤ
clamp_int16 v =
    if ltb_ℤ (pos 32767) v then pos 32767 else if ltb_ℤ v (negsuc 32767) then negsuc 32767 else v

unfoldable pub int_to_int16 : List ℤ → List ℤ
int_to_int16 [] = []
int_to_int16 (v ∷ vs) = clamp_int16 v ∷ int_to_int16 vs

-- strings.ToUpper of a codec's name; the names beyond ASCII are those of no codec.
unfoldable pub rate_and_frame_for_codec : Str → ℕ × ℕ
rate_and_frame_for_codec name =
    let name = map upper name in
    if same name (codes "G722")
    then (16000, 320)
    else if same name (codes "OPUS")
    then (48000, 960)
    else (8000, 160)
