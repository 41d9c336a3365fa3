-- ===== src/Codec/G722/Bounds.antt =====
-- The ranges of the codec's state and of its samples.
use xk6_sip_media.Prelude.{ℕ, ◌*◌, ◌≡◌, List, [], ◌∷◌, length, All, refl, arith}
use xk6_sip_media.Prelude.Int.{ℤ, pos, negsuc, ◌≤ℤ◌, ◌+ℤ◌, ◌-ℤ◌}
use xk6_sip_media.Codec.G722.{G722State, saturate, wrap_32, adapt_predict, update_step}
use xk6_sip_media.Codec.G722.{adpcm_decode_low, adpcm_decode_high, decode_byte, decode}

abbrev pub InInt16 : ℤ → Type 0
InInt16 v = (negsuc 32767 ≤ℤ v) × (v ≤ℤ pos 32767)

abbrev IsStep : ℤ → Type 0
IsStep det = (pos 0 ≤ℤ det) × (det ≤ℤ pos 32767)

-- The predictors are samples and the steps are in range.
pub record Ranged (s : G722State) : Type 0 where
  pub sl_in : InInt16 s.sl
  pub su_in : InInt16 s.su
  pub det_low_in : IsStep s.det_low
  pub det_high_in : IsStep s.det_high

saturate-InInt16 : (v : ℤ) → InInt16 (saturate v)
unfolding saturate
saturate-InInt16 v = ground arith

adapt_predict-InInt16 : (s d : ℤ) → InInt16 (adapt_predict s d)
unfolding adapt_predict
adapt_predict-InInt16 s d = saturate-InInt16 (wrap_32 (s +ℤ d))

update_step-IsStep : (det : ℤ) (q : ℕ) → IsStep (update_step det q)
unfolding update_step
update_step-IsStep det q = ground arith

decode_byte-Ranged : (s : G722State) (b : ℕ) → Ranged s → Ranged (decode_byte s b)
unfolding decode_byte adpcm_decode_low adpcm_decode_high
decode_byte-Ranged s b h = record {
  sl_in = adapt_predict-InInt16 _ _;
  su_in = adapt_predict-InInt16 _ _;
  det_low_in = update_step-IsStep _ _;
  det_high_in = update_step-IsStep _ _;
}

-- From a state in range, the decoder of any bytes puts out two samples for each byte, all of them
-- 16-bit values, and its state stays in range: the predictors are 16-bit values and the steps lie
-- from 0 to 32767.
pub decode-Ranged :
    (frame : List ℕ) (s : G722State)
    → Ranged s
    → (length (decode s frame).0 ≡ 2 * length frame)
      × All InInt16 (decode s frame).0
      × Ranged (decode s frame).1
unfolding decode
decode-Ranged [] s h = (refl, tt, h)
decode-Ranged (b ∷ bs) s h =
    let s' = decode_byte s b in
    let (size, samples, after) = decode-Ranged bs s' (decode_byte-Ranged s b h) in
    let first = saturate-InInt16 (wrap_32 (s'.sl +ℤ s'.su)) in
    let second = saturate-InInt16 (wrap_32 (s'.sl -ℤ s'.su)) in
    (omega (arith, size), (first, (second, samples)), after)
