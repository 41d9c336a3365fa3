-- ===== src/Sip/Loop.antt =====
-- sip/call.go and sip/vars.go: the payloads of a call repeated to its duration, and the size of the
-- payload that stands for a lost one.
pub mod Repeat
mod Runs
use xk6_sip_media.Prelude.{ℕ, zero, suc, Bool, Option, none, some, List, [], ◌∷◌, ◌++◌}
use xk6_sip_media.Prelude.{leb, ◌==◌, if◌then◌else◌, length, take}
use xk6_sip_media.Prelude.Int.{ℤ, pos, negsuc, quot, ◌+ℤ◌}
use xk6_sip_media.Prelude.Text.{Str, same, codes}

module _ {ℓ} {A : Type ℓ} where
  -- The loop of loopPayloads: each turn appends all payloads, so `needed` turns are enough fuel.
  unfoldable pub append_until : ℕ → ℕ → List A → List A → List A
  append_until zero needed payloads out = out
  append_until (suc fuel) needed payloads out =
      let more = append_until fuel needed payloads (out ++ payloads) in
      if leb needed (length out) then out else more

  -- A slice up to a negative bound panics.
  unfoldable pub up_to : ℤ → List A → Option (List A)
  up_to (negsuc n) payloads = none
  up_to (pos needed) payloads =
      if leb needed (length payloads)
      then some (take needed payloads)
      else some (take needed (append_until needed needed payloads []))

  -- The duration is in nanoseconds; frames last 20 ms.
  unfoldable pub loop_payloads : List A → ℤ → Option (List A)
  loop_payloads payloads (pos zero) = some payloads
  loop_payloads payloads dur =
      if length payloads == 0 then some [] else up_to (quot dur 20000000 +ℤ pos 10) payloads

unfoldable pub plc_payload_size : Str → ℕ
plc_payload_size name =
    if same name (codes "G729") then 20 else if same name (codes "OPUS") then 0 else 160
