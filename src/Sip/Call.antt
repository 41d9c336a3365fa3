-- ===== src/Sip/Call.antt =====
-- sip/handle.go, sip/hold.go, sip/transfer.go and sip/info.go: the handle of a call. A method is a
-- chain of segments, each atomic under the handle's mutex or an atomic counter; between them other
-- goroutines run. What the remote party answers is a parameter of the segment that follows it.
pub mod Interleave
pub mod Methods
pub mod Ends
mod Runs
use xk6_sip_media.Prelude.{
  ℕ, zero, suc, ◌+◌, ◌-◌, Bool, true, false, not, ◌&&◌, ◌||◌, Option, none, some, List, [], ◌∷◌,
}
use xk6_sip_media.Prelude.{ltb, ◌==◌, if◌then◌else◌}
use xk6_sip_media.Prelude.Bytes.{u64}

pub data Direction : Type 0 where
  sendrecv sendonly recvonly inactive : Direction

pub data CallError : Type 0 where
  not_active dialog_failed ack_failed : CallError
  unexpected_status : ℕ → CallError

-- How `dialog.Do` ends: an error, or the final response's status.
pub data Reply : Type 0 where
  failed : Reply
  status : ℕ → Reply

-- `reinvites` has the direction and the session version of each re-INVITE, the latest first, and
-- `requests` counts the other in-dialog requests. `workers` is the counter of the wait group,
-- without the receiver, which runs until `stop` is closed. The last fields count the goroutines
-- that stand between two segments of a method; those that have taken a version and not sent it yet
-- are listed by it.
pub record CallHandle : Type 0 where
  pub active : Bool
  pub on_hold : Bool
  pub stop_closed : Bool
  pub done : Bool
  pub transfer_ok : Bool
  pub sdp_ver : ℕ
  pub reinvites : List (Direction × ℕ)
  pub requests : ℕ
  pub byes : ℕ
  pub workers : ℕ
  pub hold_passed : ℕ
  pub hold_ready : List ℕ
  pub hold_waits : ℕ
  pub unhold_passed : ℕ
  pub unhold_ready : List ℕ
  pub unhold_waits : ℕ
  pub transfer_waits : ℕ
  pub hanging : ℕ

-- The handle as Dial returns it, with the number of goroutines beside the receiver.
unfoldable pub new_handle : ℕ → CallHandle
new_handle workers = record {
  active = true;
  on_hold = false;
  stop_closed = false;
  done = false;
  transfer_ok = false;
  sdp_ver = 0;
  reinvites = [];
  requests = 0;
  byes = 0;
  workers = workers;
  hold_passed = 0;
  hold_ready = [];
  hold_waits = 0;
  unhold_passed = 0;
  unhold_ready = [];
  unhold_waits = 0;
  transfer_waits = 0;
  hanging = 0;
}

-- Hold's first check: an error, an early return, or on with the re-INVITE.
pub data Check : Type 0 where
  stops : Option CallError → Check
  passes : Check

unfoldable pub check_hold : CallHandle → Check
check_hold h =
    if not h.active then stops (some not_active) else if h.on_hold then stops none else passes

unfoldable pub check_unhold : CallHandle → Check
check_unhold h =
    if not h.active then stops (some not_active) else if h.on_hold then passes else stops none

-- sendReINVITE up to the request: the version is taken by one atomic increment, and the request that
-- carries it is sent later.
unfoldable pub take_version : CallHandle → CallHandle
take_version h = record h { sdp_ver = u64 (h.sdp_ver + 1) }

unfoldable pub transmit : Direction → ℕ → CallHandle → CallHandle
transmit dir ver h = record h { reinvites = (dir, ver) ∷ h.reinvites }

-- Both, when no other goroutine comes between.
unfoldable pub send_reinvite : Direction → CallHandle → CallHandle
unfolding take_version transmit
send_reinvite dir h = let h' = take_version h in transmit dir h'.sdp_ver h'

-- The rest of sendReINVITE: the response, and whether the ACK can be written.
unfoldable pub reinvite_error : Reply → Bool → Option CallError
reinvite_error failed ack_ok = some dialog_failed
reinvite_error (status code) ack_ok =
    if not (code == 200)
    then some (unexpected_status code)
    else if ack_ok
    then none
    else some ack_failed

unfoldable pub finish_hold : Bool → Option CallError → CallHandle → CallHandle
finish_hold on (some e) h = h
finish_hold on none h = record h { on_hold = on }

-- Hold and Unhold, when no other goroutine comes between.
unfoldable pub hold : Reply → Bool → CallHandle → CallHandle × Option CallError
hold reply ack_ok h = elim (check_hold h) [
  | stops e ↦ (h, e)
  | passes ↦
      let e = reinvite_error reply ack_ok in (finish_hold true e (send_reinvite inactive h), e)
]

unfoldable pub unhold : Reply → Bool → CallHandle → CallHandle × Option CallError
unhold reply ack_ok h = elim (check_unhold h) [
  | stops e ↦ (h, e)
  | passes ↦
      let e = reinvite_error reply ack_ok in (finish_hold false e (send_reinvite sendrecv h), e)
]

-- sendREFER's test of the answer.
unfoldable pub refer_error : Reply → Option CallError
refer_error failed = some dialog_failed
refer_error (status code) =
    if not (code == 202) && not (code == 200) then some (unexpected_status code) else none

unfoldable pub finish_transfer : Option CallError → CallHandle → CallHandle
finish_transfer (some e) h = h
finish_transfer none h = record h { transfer_ok = true }

unfoldable pub blind_transfer : Reply → CallHandle → CallHandle × Option CallError
blind_transfer reply h =
    if not h.active
    then (h, some not_active)
    else (let e = refer_error reply in
        (finish_transfer e (record h { requests = h.requests + 1 }), e))

-- SendInfo.
unfoldable pub send_info : Reply → CallHandle → CallHandle × Option CallError
send_info reply h = if not h.active then (h, some not_active) else (
  record h { requests = h.requests + 1 },
  elim reply [
    | failed ↦ some dialog_failed
    | status code ↦ if code == 200 then none else some (unexpected_status code)
  ],
)

-- Hangup's two segments: only the caller that finds the call active goes on to the second.
unfoldable pub deactivate : CallHandle → CallHandle
deactivate h = record h { active = false }

unfoldable pub close_stop : CallHandle → CallHandle
close_stop h = record h { stop_closed = true; byes = h.byes + 1 }

-- startFinalize's goroutine, after the wait: it replaces the result.
unfoldable pub finalize : CallHandle → CallHandle
finalize h = record h { transfer_ok = false; done = true }
