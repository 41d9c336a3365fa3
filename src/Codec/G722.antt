-- ===== src/Codec/G722.antt =====
-- core/codec/g722.go: the two-band ADPCM codec. Samples and predictors are integers, `wrap_32`
-- is the wrap-around of Go's int32. A codeword is a natural number: `clamp` keeps it from 0 on.
pub mod Sync
pub mod Bounds
mod Runs
use Prim.Native.Nat.{bit_and, bit_or}
use xk6_sip_media.Prelude.{
  ℕ, ◌+◌, ◌-◌, ◌*◌, ◌/◌, ◌%◌, ◌^◌, Bool, true, false, List, [], ◌∷◌, ltb, leb, ◌==◌, if◌then◌else◌,
}
use xk6_sip_media.Prelude.Int.{
  ℤ, pos, negsuc, pos_part, neg_part, sub_ℕ, ltb_ℤ, ◌+ℤ◌, ◌-ℤ◌, ◌*ℤ◌, asr, quot,
}
use xk6_sip_media.Prelude.Bytes.{u8}

unfoldable pub wrap_32 : ℤ → ℤ
wrap_32 v =
    let m = (pos_part v % 2 ^ 32 + 2 ^ 32 - neg_part v % 2 ^ 32) % 2 ^ 32 in
    if ltb m (2 ^ 31) then pos m else sub_ℕ m (2 ^ 32)

-- `det` in two fields: `det_low` for the lower band and `det_high` for the upper one.
pub record G722State : Type 0 where
  pub sl : ℤ
  pub dl : ℤ
  pub el : ℤ
  pub det_low : ℤ
  pub det_high : ℤ
  pub su : ℤ
  pub du : ℤ

abbrev pub new_state : G722State
new_state = record {
  sl = pos 0;
  dl = pos 0;
  el = pos 0;
  det_low = pos 0;
  det_high = pos 0;
  su = pos 0;
  du = pos 0;
}

unfoldable pub clamp : ℤ → ℤ → ℤ → ℤ
clamp v lo hi = if ltb_ℤ v lo then lo else if ltb_ℤ hi v then hi else v

-- Both saturations have the same bounds.
unfoldable pub saturate : ℤ → ℤ
saturate v =
    if ltb_ℤ (pos 32767) v then pos 32767 else if ltb_ℤ v (negsuc 32767) then negsuc 32767 else v

-- The step that is used: never below 8.
abbrev pub at_least_eight : ℤ → ℤ
at_least_eight det = if ltb_ℤ det (pos 8) then pos 8 else det

-- How many whole steps fit into the magnitude `v`, up to `hi`.
abbrev pub steps : ℤ → ℤ → ℤ → ℕ
steps v step hi = pos_part (clamp (quot v (pos_part step)) (pos 0) hi)

unfoldable pub dequant_low : ℕ → ℤ → ℤ
dequant_low q step =
    if leb 32 q
    then wrap_32 (wrap_32 (negsuc 0 *ℤ pos (q - 32)) *ℤ step)
    else wrap_32 (wrap_32 (pos 1 *ℤ pos q) *ℤ step)

unfoldable pub dequant_high : ℕ → ℤ → ℤ
dequant_high q step =
    if leb 2 q then wrap_32 ((pos 0 -ℤ pos (q - 2 + 1)) *ℤ step) else wrap_32 (pos (q + 1) *ℤ step)

unfoldable pub adapt_predict : ℤ → ℤ → ℤ
adapt_predict s d = saturate (wrap_32 (s +ℤ d))

unfoldable pub update_step : ℤ → ℕ → ℤ
update_step det q =
    let next = if q == 0 then asr (wrap_32 (det *ℤ pos 7)) 3 else asr (wrap_32 (det *ℤ pos 9)) 3 in
    if ltb_ℤ next (pos 8) then pos 8 else if ltb_ℤ (pos 32767) next then pos 32767 else next

-- The codeword for the lower band and the difference that it codes.
unfoldable pub quantize_low : ℤ → ℤ → ℕ
quantize_low el step =
    if ltb_ℤ el (pos 0)
    then 32 + steps (wrap_32 (pos 0 -ℤ el)) step (pos 31)
    else steps el step (pos 31)

unfoldable pub quantize_high : ℤ → ℤ → ℕ
quantize_high el step =
    if ltb_ℤ el (pos 0)
    then 2 + steps (wrap_32 (pos 0 -ℤ el)) step (pos 1)
    else steps el step (pos 1)

unfoldable pub adpcm_decode_low : G722State → ℕ → G722State
adpcm_decode_low s q =
    let step = at_least_eight s.det_low in
    let dl = dequant_low q step in
    record s { dl = dl; sl = adapt_predict s.sl dl; det_low = update_step s.det_low q }

unfoldable pub adpcm_decode_high : G722State → ℕ → G722State
adpcm_decode_high s q =
    let step = at_least_eight s.det_high in
    let du = dequant_high q step in
    record s { du = du; su = adapt_predict s.su du; det_high = update_step s.det_high q }

unfoldable pub adpcm_encode_low : G722State → ℤ → ℕ × G722State
adpcm_encode_low s x =
    let el = wrap_32 (x -ℤ s.sl) in
    let step = at_least_eight s.det_low in
    let q = quantize_low el step in
    let dl = dequant_low q step in
    (
      q,
      record s { el = el; dl = dl; sl = adapt_predict s.sl dl; det_low = update_step s.det_low q },
    )

unfoldable pub adpcm_encode_high : G722State → ℤ → ℕ × G722State
adpcm_encode_high s x =
    let el = wrap_32 (x -ℤ s.su) in
    let step = at_least_eight s.det_high in
    let q = quantize_high el step in
    let du = dequant_high q step in
    (q, record s { du = du; su = adapt_predict s.su du; det_high = update_step s.det_high q })

-- One turn of the encoder's loop, on two samples.
unfoldable pub encode_pair : G722State → ℤ → ℤ → ℕ × G722State
encode_pair s x0 x1 =
    let low = adpcm_encode_low s (asr (wrap_32 (x0 +ℤ x1)) 1) in
    let high = adpcm_encode_high low.1 (asr (wrap_32 (x0 -ℤ x1)) 1) in
    (u8 (bit_or (high.0 * 2 ^ 6) (bit_and low.0 0x3f)), high.1)

-- An odd number of samples is filled up with a 0.
unfoldable pub encode : G722State → List ℤ → List ℕ × G722State
encode s [] = ([], s)
encode s (x0 ∷ []) = let one = encode_pair s x0 (pos 0) in (one.0 ∷ [], one.1)
encode s (x0 ∷ x1 ∷ xs) =
    let one = encode_pair s x0 x1 in let rest = encode one.1 xs in (one.0 ∷ rest.0, rest.1)

-- One turn of the decoder's loop: the state after both bands.
unfoldable pub decode_byte : G722State → ℕ → G722State
decode_byte s b =
    let low = adpcm_decode_low s (bit_and b 0x3f) in
    adpcm_decode_high low (bit_and (b / 2 ^ 6) 0x03)

-- The two samples that a state stands for.
abbrev pub synthesis : G722State → List ℤ
synthesis s = saturate (wrap_32 (s.sl +ℤ s.su)) ∷ saturate (wrap_32 (s.sl -ℤ s.su)) ∷ []

unfoldable pub decode : G722State → List ℕ → List ℤ × G722State
decode s [] = ([], s)
decode s (b ∷ bs) =
    let s' = decode_byte s b in
    let rest = decode s' bs in
    (saturate (wrap_32 (s'.sl +ℤ s'.su)) ∷ saturate (wrap_32 (s'.sl -ℤ s'.su)) ∷ rest.0, rest.1)

unfoldable pub g722_frame : List ℤ → List ℕ
unfolding encode
g722_frame samples = (encode new_state samples).0

unfoldable pub g722_decode : List ℕ → List ℤ
unfolding decode
g722_decode frame = (decode new_state frame).0
