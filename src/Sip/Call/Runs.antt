-- ===== src/Sip/Call/Runs.antt =====
-- Runs of the call handle.
use xk6_sip_media.Prelude.{◌≡◌, refl, true, false, none, some, List, [], ◌∷◌}
use xk6_sip_media.Prelude.Pull.{pull}
use xk6_sip_media.Prelude.Bytes.{u64}
use xk6_sip_media.Sip.Call.{sendrecv, inactive, status, CallHandle}
use xk6_sip_media.Sip.Call.{
  new_handle, check_hold, take_version, transmit, hold, unhold, refer_error, finish_transfer,
  deactivate, close_stop, finalize,
}
use xk6_sip_media.Sip.Call.Interleave.{
  Action, act, run, begin_hold, number_hold, send_hold, begin_transfer, end_transfer, begin_hangup,
  end_hangup, worker_ends, finalizes,
}
use xk6_sip_media.Sip.Call.Methods.{unhold-hold}
use xk6_sip_media.Sip.Call.Ends.{
  IsConsistent, run-new_handle, new_handle-IsConsistent, call_can_end, transfer_forgotten,
}

abbrev fresh : CallHandle
fresh = new_handle 1

unhold-hold_example :
    let held = hold (status 200) true fresh in
    (held.1 ≡ none)
    × (held.0.on_hold ≡ true)
    × (held.0.stop_closed ≡ false)
    × (held.0.workers ≡ 1)
    × (hold (status 200) true held.0 ≡ (held.0, none))
    × (unhold (status 200) true held.0
        ≡ (record fresh { sdp_ver = 2; reinvites = (sendrecv, 2) ∷ (inactive, 1) ∷ [] }, none))
unfolding new_handle u64
unhold-hold_example = unhold-hold fresh refl refl

-- A Hold that has passed its check sends its re-INVITE after the Hangup of another goroutine.
abbrev late_hold : List Action
late_hold =
    begin_hold
    ∷ begin_hangup
    ∷ end_hangup
    ∷ number_hold
    ∷ send_hold 0
    ∷ worker_ends
    ∷ finalizes
    ∷ []

abbrev late_held : CallHandle
late_held = record fresh {
  active = false;
  stop_closed = true;
  byes = 1;
  done = true;
  workers = 0;
  sdp_ver = 1;
  reinvites = (inactive, 1) ∷ [];
  hold_waits = 1;
}

run-new_handle_example : IsConsistent late_held
unfolding new_handle run act check_hold take_version transmit pull deactivate close_stop finalize
    u64
run-new_handle_example = run-new_handle 1 late_hold late_held refl

-- Two Holds at a time: the second of their versions can be sent first.
abbrev two_holds : List Action
two_holds = begin_hold ∷ begin_hold ∷ number_hold ∷ number_hold ∷ send_hold 0 ∷ send_hold 0 ∷ []

out_of_order :
    run two_holds fresh
    ≡ some (record fresh {
      sdp_ver = 2;
      reinvites = (inactive, 1) ∷ (inactive, 2) ∷ [];
      hold_waits = 2;
    })
unfolding new_handle run act check_hold take_version transmit pull u64
out_of_order = refl

call_can_end_example :
    (acts : List Action) × (h' : CallHandle) × (run acts fresh ≡ some h') × (h'.done ≡ true)
call_can_end_example = call_can_end fresh (new_handle-IsConsistent 1)

-- The transfer has succeeded, the call has been hung up and its worker has ended.
abbrev transferred : CallHandle
transferred = record fresh {
  active = false;
  stop_closed = true;
  byes = 1;
  workers = 0;
  transfer_ok = true;
  requests = 1;
}

abbrev transfer : List Action
transfer = begin_transfer ∷ end_transfer (status 202) ∷ begin_hangup ∷ end_hangup ∷ worker_ends ∷ []

transferred-IsConsistent : IsConsistent transferred
unfolding new_handle run act refer_error finish_transfer deactivate close_stop
transferred-IsConsistent = run-new_handle 1 transfer transferred refl

transfer_forgotten_example : (finalize transferred).transfer_ok ≡ false
unfolding new_handle act run
transfer_forgotten_example =
    transfer_forgotten [] transferred (finalize transferred) (finalize transferred)
      transferred-IsConsistent refl refl refl
