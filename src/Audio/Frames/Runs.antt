-- ===== src/Audio/Frames/Runs.antt =====
-- Runs of the splitting.
use xk6_sip_media.Prelude.{ℕ, ◌≡◌, refl, some, List, [], ◌∷◌, ◌++◌, arith}
use xk6_sip_media.Prelude.{length}
use xk6_sip_media.Audio.Frames.{split_frames, clamp_int16, int_to_int16, rate_and_frame_for_codec}
use xk6_sip_media.Audio.Frames.Split.{AllOf, joined, split_frames-cut}
use xk6_sip_media.Prelude.Int.{pos, negsuc}
use xk6_sip_media.Prelude.Text.{codes, same, upper}

split_frames-cut_example :
    (frames : List (List ℕ)) × (split_frames (1 ∷ 2 ∷ 3 ∷ 4 ∷ 5 ∷ []) 2 ≡ some frames)
    × (length frames ≡ 2)
    × AllOf 2 frames
    × (joined frames ++ 5 ∷ [] ≡ 1 ∷ 2 ∷ 3 ∷ 4 ∷ 5 ∷ [])
split_frames-cut_example = split_frames-cut (1 ∷ 2 ∷ 3 ∷ 4 ∷ 5 ∷ []) 2 (omega arith)

clamps :
    int_to_int16 (pos 40000 ∷ negsuc 40000 ∷ pos 7 ∷ []) ≡ pos 32767 ∷ negsuc 32767 ∷ pos 7 ∷ []
unfolding int_to_int16 clamp_int16
clamps = refl

opus_rate : rate_and_frame_for_codec (codes "opus") ≡ (48000, 960)
unfolding rate_and_frame_for_codec same upper
opus_rate = refl
