-- ===== src/Sip/Loop/Runs.antt =====
-- Runs of the repetition.
use xk6_sip_media.Prelude.{ℕ, ◌%◌, ◌<◌, ◌≡◌, some, List, [], ◌∷◌, arith}
use xk6_sip_media.Prelude.{length, get_elem?}
use xk6_sip_media.Prelude.Int.{pos}
use xk6_sip_media.Sip.Loop.{loop_payloads}
use xk6_sip_media.Sip.Loop.Repeat.{loop_payloads-cycle}

loop_payloads-cycle_example :
    (out : List ℕ) × (loop_payloads (5 ∷ 6 ∷ 7 ∷ []) (pos 100000000) ≡ some out)
    × (length out ≡ 15)
    × ((i : ℕ) → i < length out → get_elem? out i ≡ get_elem? (5 ∷ 6 ∷ 7 ∷ []) (i % 3))
loop_payloads-cycle_example =
    loop_payloads-cycle (5 ∷ 6 ∷ 7 ∷ []) 100000000 (omega arith) (omega arith)
