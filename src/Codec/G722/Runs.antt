-- ===== src/Codec/G722/Runs.antt =====
-- Runs of the codec at concrete samples.
use xk6_sip_media.Prelude.{ℕ, ◌*◌, ◌≡◌, List, [], ◌∷◌, length, All, refl, arith}
use xk6_sip_media.Prelude.Int.{ℤ, pos, negsuc}
use xk6_sip_media.Codec.G722.{new_state, encode, decode}
use xk6_sip_media.Codec.G722.Sync.{Synced, reconstruction, decode-encode}
use xk6_sip_media.Codec.G722.Bounds.{InInt16, Ranged, decode-Ranged}

abbrev speech : List ℤ
speech = pos 1000 ∷ pos 900 ∷ negsuc 499 ∷ pos 20 ∷ negsuc 32767 ∷ []

decode-encode_example :
    ((decode new_state (encode new_state speech).0).0 ≡ reconstruction new_state speech)
    × Synced (encode new_state speech).1 (decode new_state (encode new_state speech).0).1
decode-encode_example =
    decode-encode speech new_state new_state
      (record { sl_is = refl; su_is = refl; det_low_is = refl; det_high_is = refl })

abbrev frame : List ℕ
frame = 0 ∷ 255 ∷ 31 ∷ 97 ∷ []

decode-Ranged_example :
    (length (decode new_state frame).0 ≡ 2 * length frame)
    × All InInt16 (decode new_state frame).0
    × Ranged (decode new_state frame).1
decode-Ranged_example = decode-Ranged frame new_state (record {
  sl_in = ground arith;
  su_in = ground arith;
  det_low_in = ground arith;
  det_high_in = ground arith;
})
