-- ===== src/Audio/Frames/Split.antt =====
-- The frames are the samples, cut into equal pieces.
use xk6_sip_media.Prelude.{
  ℕ, zero, suc, ◌+◌, ◌-◌, ◌*◌, ◌/◌, ◌≤◌, ◌<◌, ◌≡◌, refl, sym, ap, ◌∙◌, some, List, [], ◌∷◌, ◌++◌,
  arith,
}
use xk6_sip_media.Prelude.{
  length, take, drop, length-take, length-drop, take-append-drop, drop-all_le,
}
use mathlib.Core.List.{append_assoc}
use native.Mathlib.Nat.{div-add-mod}
use xk6_sip_media.Audio.Frames.{frames_at, split_frames}

module _ {A : Type 0} where
  abbrev pub AllOf : ℕ → List (List A) → Type 0
  AllOf size [] = Unit
  AllOf size (f ∷ fs) = (length f ≡ size) × AllOf size fs

  abbrev pub joined : List (List A) → List A
  joined [] = []
  joined (f ∷ fs) = f ++ joined fs

  drop-drop : (m n : ℕ) (xs : List A) → drop n (drop m xs) ≡ drop (m + n) xs
  drop-drop zero n xs = ap (λ k. drop k xs) (omega arith)
  drop-drop (suc m) n [] =
      drop-all_le n [] (omega arith) ∙ sym (drop-all_le (suc m + n) [] (omega arith))
  drop-drop (suc m) n (x ∷ xs) =
      let e : suc (m + n) ≡ suc m + n = omega arith in
      drop-drop m n xs ∙ ap (λ k. drop k (x ∷ xs)) e

  frames_at-cut :
      (count i size : ℕ) (xs : List A)
      → i * size + count * size ≤ length xs
      → (fs : List (List A)) × (frames_at count i size xs ≡ some fs)
        × (length fs ≡ count)
        × AllOf size fs
        × (joined fs ++ drop (i * size + count * size) xs ≡ drop (i * size) xs)
  unfolding frames_at
  frames_at-cut zero i size xs h = ([], refl, omega arith, tt, ap (λ k. drop k xs) (omega arith))
  frames_at-cut (suc count) i size xs h =
      let a : (i + 1) * size ≡ i * size + size = grind arith in
      let b : suc count * size ≡ size + count * size = grind arith in
      let (fs, e, n, all, j) = frames_at-cut count (i + 1) size xs (omega (arith, a, b, h)) in
      let here = drop (i * size) xs in
      let width : i * size + size - i * size ≡ size = omega arith in
      let rest = drop (i * size + suc count * size) xs in
      (
        take size here ∷ fs,
        ground (arith, a, b, e, h, width),
        omega (arith, n),
        (omega (arith, length-take size here, length-drop (i * size) xs, b, h), all),
        append_assoc (take size here) (joined fs) rest
            ∙ ap (λ k. take size here ++ (joined fs ++ drop k xs)) (omega (arith, a, b))
            ∙ ap (λ l. take size here ++ l)
                (j ∙ ap (λ k. drop k xs) a ∙ sym (drop-drop (i * size) size xs))
            ∙ take-append-drop size here,
      )

  -- For a frame size above 0, SplitFrames returns as many frames as there are whole ones, each of
  -- that size; one after another they are the samples, up to the rest that fills no frame.
  pub split_frames-cut :
      (samples : List A) (size : ℕ)
      → 0 < size
      → (frames : List (List A)) × (split_frames samples size ≡ some frames)
        × (length frames ≡ length samples / size)
        × AllOf size frames
        × (joined frames ++ drop (length samples / size * size) samples ≡ samples)
  unfolding split_frames
  split_frames-cut samples zero h = absurd (omega arith)
  split_frames-cut samples (suc size) h =
      let k = length samples / suc size in
      let d = div-add-mod (length samples) (suc size) in
      let z : 0 * suc size ≡ 0 = grind arith in
      let m : suc size * k ≡ k * suc size = grind arith in
      let (fs, e, n, all, j) = frames_at-cut k 0 (suc size) samples (omega (arith, d, z, m)) in
      (
        fs,
        e,
        n,
        all,
        ap (λ t. joined fs ++ drop t samples) (omega (arith, z)) ∙ j ∙ ap (λ t. drop t samples) z,
      )
