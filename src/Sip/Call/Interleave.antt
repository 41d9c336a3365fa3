-- ===== src/Sip/Call/Interleave.antt =====
-- The steps of all goroutines that use a handle.
use xk6_sip_media.Prelude.{
  ◌+◌, ◌-◌, Bool, true, false, not, ◌&&◌, Option, none, some, List, [], ◌∷◌, ◌>>=◌,
}
use xk6_sip_media.Prelude.Pull.{pull}
use xk6_sip_media.Prelude.{ℕ, ltb, ◌==◌, if◌then◌else◌}
use xk6_sip_media.Sip.Call.{
  sendrecv, inactive, Reply, CallHandle, Check, stops, passes, check_hold, check_unhold,
}
use xk6_sip_media.Sip.Call.{
  take_version, transmit, reinvite_error, finish_hold, refer_error, finish_transfer, deactivate,
  close_stop, finalize,
}

-- A segment of a method, or of a goroutine of the call. Of the goroutines that have a version to
-- send, `send_hold` and `send_unhold` name one.
pub data Action : Type 0 where
  begin_hold number_hold begin_unhold number_unhold begin_transfer begin_hangup end_hangup : Action
  worker_ends finalizes : Action
  send_hold send_unhold : ℕ → Action
  end_hold end_unhold : Reply → Bool → Action
  end_transfer : Reply → Action

-- Done when at least one goroutine stands there.
abbrev pub when : Bool → CallHandle → Option CallHandle
when b h = if b then some h else none

abbrev pub passes_to : Check → CallHandle → CallHandle → CallHandle
passes_to c h h' = elim c [ stops e ↦ h | passes ↦ h' ]

abbrev pub send_from : Option (ℕ × List ℕ) → (ℕ → List ℕ → CallHandle) → Option CallHandle
send_from none send = none
send_from (some (ver, rest)) send = some (send ver rest)

-- `none` means that no goroutine can take this step now. The finalizer runs once, when the
-- receiver, which looks at `stop`, and all workers have ended.
unfoldable pub act : Action → CallHandle → Option CallHandle
act begin_hold h = some (passes_to (check_hold h) h (record h { hold_passed = h.hold_passed + 1 }))
act number_hold h = when (ltb 0 h.hold_passed) (
    let h' = take_version (record h { hold_passed = h.hold_passed - 1 }) in
    record h' { hold_ready = h'.sdp_ver ∷ h'.hold_ready })
act (send_hold i) h = send_from (pull i h.hold_ready) (λ ver rest.
    transmit inactive ver (record h { hold_ready = rest; hold_waits = h.hold_waits + 1 }))
act (end_hold reply ack_ok) h =
    when (ltb 0 h.hold_waits)
      (finish_hold true (reinvite_error reply ack_ok) (record h { hold_waits = h.hold_waits - 1 }))
act begin_unhold h =
    some (passes_to (check_unhold h) h (record h { unhold_passed = h.unhold_passed + 1 }))
act number_unhold h = when (ltb 0 h.unhold_passed) (
    let h' = take_version (record h { unhold_passed = h.unhold_passed - 1 }) in
    record h' { unhold_ready = h'.sdp_ver ∷ h'.unhold_ready })
act (send_unhold i) h = send_from (pull i h.unhold_ready) (λ ver rest.
    transmit sendrecv ver (record h { unhold_ready = rest; unhold_waits = h.unhold_waits + 1 }))
act (end_unhold reply ack_ok) h = when (ltb 0 h.unhold_waits) (
    finish_hold false (reinvite_error reply ack_ok)
      (record h { unhold_waits = h.unhold_waits - 1 }))
act begin_transfer h = some (
    if h.active
    then record h { transfer_waits = h.transfer_waits + 1; requests = h.requests + 1 }
    else h)
act (end_transfer reply) h =
    when (ltb 0 h.transfer_waits)
      (finish_transfer (refer_error reply) (record h { transfer_waits = h.transfer_waits - 1 }))
act begin_hangup h =
    some (if h.active then deactivate (record h { hanging = h.hanging + 1 }) else h)
act end_hangup h = when (ltb 0 h.hanging) (close_stop (record h { hanging = h.hanging - 1 }))
act worker_ends h = when (ltb 0 h.workers) (record h { workers = h.workers - 1 })
act finalizes h = when (h.stop_closed && h.workers == 0 && not h.done) (finalize h)

unfoldable pub run : List Action → CallHandle → Option CallHandle
run [] h = some h
run (a ∷ rest) h = do h' ← act a h; run rest h'
