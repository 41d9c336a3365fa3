-- ===== src/Sip/Call/Methods.antt =====
-- Whole methods, and how they are made of steps.
use xk6_sip_media.Prelude.{◌+◌, ◌≡◌, Bool, true, false, none, some, [], ◌∷◌, arith}
use xk6_sip_media.Prelude.Pull.{pull}
use xk6_sip_media.Prelude.Bytes.{u64}
use xk6_sip_media.Sip.Call.{sendrecv, inactive, CallError, Reply, status, CallHandle, passes}
use xk6_sip_media.Sip.Call.{
  check_hold, check_unhold, hold, unhold, send_reinvite, take_version, transmit, reinvite_error,
  finish_hold,
}
use xk6_sip_media.Sip.Call.Interleave.{act, run, begin_hold, number_hold, send_hold, end_hold}

-- With no other goroutine in between, the steps of Hold lead to the state that Hold returns.
pub hold-run :
    (reply : Reply) (ack_ok : Bool) (h : CallHandle)
    → check_hold h ≡ passes
    → run (begin_hold ∷ number_hold ∷ send_hold 0 ∷ end_hold reply ack_ok ∷ []) h
      ≡ some (hold reply ack_ok h).0
unfolding run act hold send_reinvite take_version transmit pull
hold-run reply ack_ok h e = ground (arith, e)

-- On an active call that is not on hold, a Hold and an Unhold that the remote party accepts send
-- one re-INVITE each, inactive and then sendrecv, with the next two session versions, and change
-- nothing else of the handle; while held, a second Hold sends nothing. During the hold `stop` stays
-- as it was and no goroutine of the call has ended: the sender goes on.
pub unhold-hold :
    (h : CallHandle)
    → h.active ≡ true
    → h.on_hold ≡ false
    → let held = hold (status 200) true h in
      let v = u64 (h.sdp_ver + 1) in
      let w = u64 (v + 1) in
      (held.1 ≡ none)
      × (held.0.on_hold ≡ true)
      × (held.0.stop_closed ≡ h.stop_closed)
      × (held.0.workers ≡ h.workers)
      × (hold (status 200) true held.0 ≡ (held.0, none))
      × (unhold (status 200) true held.0 ≡ (
        record h { sdp_ver = w; reinvites = (sendrecv, w) ∷ (inactive, v) ∷ h.reinvites },
        none,
      ))
unfolding hold unhold check_hold check_unhold send_reinvite take_version transmit reinvite_error
    finish_hold
unhold-hold h a n = ground arith

-- A Hold that fails, by an error, another status than 200 or an ACK that cannot be written, leaves
-- the call off hold; the version is used up all the same.
pub hold_failed :
    (reply : Reply) (ack_ok : Bool) (h : CallHandle) (e : CallError)
    → h.active ≡ true
    → h.on_hold ≡ false
    → (hold reply ack_ok h).1 ≡ some e
    → (hold reply ack_ok h).0 ≡ send_reinvite inactive h
unfolding hold check_hold finish_hold
hold_failed reply ack_ok h e a n f = ground (arith, a, n, f)
