-- ===== src/Codec/G722/Sync.antt =====
-- The decoder follows the encoder: from the codewords alone it rebuilds the encoder's predictors.
use xk6_sip_media.Prelude.{ℕ, ◌+◌, ◌*◌, ◌/◌, ◌^◌, ◌<◌, ◌≡◌, List, [], ◌∷◌, ◌++◌, refl, arith}
use xk6_sip_media.Prelude.Int.{ℤ, pos, asr, ◌+ℤ◌, ◌-ℤ◌}
use xk6_sip_media.Prelude.Bits.{bit_or_shifted, bit_and_low_six, bit_and_low_two}
use Prim.Native.Nat.{bit_and, bit_or}
use xk6_sip_media.Prelude.Bytes.{u8}
use xk6_sip_media.Codec.G722.{
  G722State, clamp, steps, quantize_low, quantize_high, encode_pair, encode, decode_byte, decode,
}
use xk6_sip_media.Codec.G722.{
  synthesis, at_least_eight, adpcm_encode_low, adpcm_encode_high, adpcm_decode_low,
  adpcm_decode_high, wrap_32,
}

-- The two ends agree on what the codewords determine.
pub record Synced (e d : G722State) : Type 0 where
  pub sl_is : d.sl ≡ e.sl
  pub su_is : d.su ≡ e.su
  pub det_low_is : d.det_low ≡ e.det_low
  pub det_high_is : d.det_high ≡ e.det_high

steps-lt : (v step : ℤ) (hi : ℕ) → steps v step (pos hi) < hi + 1
unfolding clamp
steps-lt v step hi = ground arith

quantize_low-lt : (el step : ℤ) → quantize_low el step < 64
unfolding quantize_low
quantize_low-lt el step =
    ground (arith, steps-lt el step 31, steps-lt (wrap_32 (pos 0 -ℤ el)) step 31)

quantize_high-lt : (el step : ℤ) → quantize_high el step < 4
unfolding quantize_high
quantize_high-lt el step =
    ground (arith, steps-lt el step 1, steps-lt (wrap_32 (pos 0 -ℤ el)) step 1)

-- Both codewords can be read off the byte that holds them.
packed_codes :
    (low high : ℕ)
    → low < 64
    → high < 4
    → let b = u8 (bit_or (high * 2 ^ 6) (bit_and low 0x3f)) in
      (bit_and b 0x3f ≡ low) × (bit_and (b / 2 ^ 6) 0x03 ≡ high)
packed_codes low high l h = ground (
  arith,
  bit_and_low_six low,
  bit_or_shifted 6 high low,
  bit_and_low_six (high * 64 + low),
  bit_and_low_two high,
)

adpcm_low-Synced :
    (e d : G722State) (x : ℤ)
    → Synced e d
    → let t = adpcm_encode_low e x in Synced t.1 (adpcm_decode_low d t.0) × (t.0 < 64)
unfolding adpcm_encode_low adpcm_decode_low
adpcm_low-Synced e d x h =
    ground (arith, h, quantize_low-lt (wrap_32 (x -ℤ e.sl)) (at_least_eight e.det_low))

adpcm_high-Synced :
    (e d : G722State) (x : ℤ)
    → Synced e d
    → let t = adpcm_encode_high e x in Synced t.1 (adpcm_decode_high d t.0) × (t.0 < 4)
unfolding adpcm_encode_high adpcm_decode_high
adpcm_high-Synced e d x h =
    ground (arith, h, quantize_high-lt (wrap_32 (x -ℤ e.su)) (at_least_eight e.det_high))

decode_byte-encode_pair :
    (e d : G722State) (x0 x1 : ℤ)
    → Synced e d
    → Synced (encode_pair e x0 x1).1 (decode_byte d (encode_pair e x0 x1).0)
unfolding encode_pair decode_byte
decode_byte-encode_pair e d x0 x1 h =
    let low = adpcm_encode_low e (asr (wrap_32 (x0 +ℤ x1)) 1) in
    let high = adpcm_encode_high low.1 (asr (wrap_32 (x0 -ℤ x1)) 1) in
    let (k, l) = adpcm_low-Synced e d (asr (wrap_32 (x0 +ℤ x1)) 1) h in
    let (k', l') =
      adpcm_high-Synced low.1 (adpcm_decode_low d low.0) (asr (wrap_32 (x0 -ℤ x1)) 1) k in
    let (a, b) = packed_codes low.0 high.0 l l' in rw (a, b) k'

-- What the encoder itself takes the signal to be after each pair of samples.
unfoldable pub reconstruction : G722State → List ℤ → List ℤ
reconstruction s [] = []
reconstruction s (x0 ∷ []) = synthesis (encode_pair s x0 (pos 0)).1
reconstruction s (x0 ∷ x1 ∷ xs) =
    let s' = (encode_pair s x0 x1).1 in synthesis s' ++ reconstruction s' xs

synthesis-Synced : (e d : G722State) → Synced e d → synthesis d ≡ synthesis e
synthesis-Synced e d h = rw (h.sl_is, h.su_is)

-- From states that agree, the decoder of any encoded samples puts out the signal that the encoder
-- rebuilt while it coded them, and the states agree afterwards.
pub decode-encode :
    (samples : List ℤ) (e d : G722State)
    → Synced e d
    → ((decode d (encode e samples).0).0 ≡ reconstruction e samples)
      × Synced (encode e samples).1 (decode d (encode e samples).0).1
unfolding encode decode reconstruction
decode-encode [] e d h = (refl, h)
decode-encode (x0 ∷ []) e d h =
    let k = decode_byte-encode_pair e d x0 (pos 0) h in (synthesis-Synced _ _ k, k)
decode-encode (x0 ∷ x1 ∷ xs) e d h =
    let one = encode_pair e x0 x1 in
    let k = decode_byte-encode_pair e d x0 x1 h in
    let (out, after) = decode-encode xs one.1 (decode_byte d one.0) k in
    (rw (out, k.sl_is, k.su_is), after)
