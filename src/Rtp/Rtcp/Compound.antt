-- ===== src/Rtp/Rtcp/Compound.antt =====
-- A compound of reports is handled one by one.
use xk6_sip_media.Prelude.{
  ℕ, zero, suc, ◌+◌, ◌*◌, ◌<◌, ◌≤◌, ◌≡◌, List, [], ◌∷◌, ◌++◌, ltb, false, All, length,
  length-append, refl, arith,
}
use xk6_sip_media.Prelude.Bytes.{be16_at, take_exact, drop_exact, be16_at-append}
use xk6_sip_media.Prelude.Floats.{Floats}
use xk6_sip_media.Rtp.Rtcp.{Conversions, RtcpSession, handle_packet, parse_loop, parse_rtcp}

-- The length field of the packet says how long it is.
abbrev pub IsReport : List ℕ → Type 0
IsReport p = (4 ≤ length p) × (length p ≡ be16_at p 2 * 4 + 4)

abbrev pub compound : List (List ℕ) → List ℕ → List ℕ
compound [] rest = rest
compound (p ∷ ps) rest = p ++ compound ps rest

module _ (fl : Floats) (cv : Conversions fl) where
  -- The packets handled in order: the session after them and all the answers.
  unfoldable pub handle_all :
      ℕ → List (List ℕ) → RtcpSession fl cv → RtcpSession fl cv × List (List ℕ)
  handle_all now [] s = (s, [])
  handle_all now (p ∷ ps) s =
      let t = handle_packet fl cv now p s in
      let rest = handle_all now ps t.0 in (rest.0, t.1 ++ rest.1)

  parse_loop-compound :
      (fuel now : ℕ) (ps : List (List ℕ)) (rest : List ℕ) (s : RtcpSession fl cv)
      → All IsReport ps
      → length rest < 4
      → length (compound ps rest) ≤ fuel
      → parse_loop fl cv fuel now (compound ps rest) s ≡ handle_all now ps s
  unfolding parse_loop handle_all
  parse_loop-compound zero now [] rest s h short f = refl
  parse_loop-compound (suc fuel) now [] rest s h short f = ground arith
  parse_loop-compound zero now (p ∷ ps) rest s ((four, size), h) short f =
      absurd (omega (arith, length-append p (compound ps rest)))
  parse_loop-compound (suc fuel) now (p ∷ ps) rest s ((four, size), h) short f =
      let after = compound ps rest in
      let all = length-append p after in
      let later =
        parse_loop-compound fuel now ps rest (handle_packet fl cv now p s).0 h short
          (omega arith) in
      let field = be16_at-append p after four in
      let field' : be16_at (p ++ after) 2 * 4 + 4 ≡ length p = omega arith in
      let front = take_exact (length p) p after refl in
      let back = drop_exact (length p) p after refl in
      let enough : ltb (length (p ++ after)) 4 ≡ false = ground arith in
      let whole : ltb (length (p ++ after)) (length p) ≡ false = ground arith in
      rw (field', front, back, enough, whole, later)

  -- For any packets whose length fields are right, followed by less than four bytes, parseRTCP
  -- handles every packet exactly once and in order.
  pub parse_rtcp-compound :
      (now : ℕ) (ps : List (List ℕ)) (rest : List ℕ) (s : RtcpSession fl cv)
      → All IsReport ps
      → length rest < 4
      → parse_rtcp fl cv now (compound ps rest) s ≡ handle_all now ps s
  unfolding parse_rtcp
  parse_rtcp-compound now ps rest s h short =
      parse_loop-compound (length (compound ps rest)) now ps rest s h short (omega arith)
