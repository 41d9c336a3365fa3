-- ===== src/Sip/Uas/Runs.antt =====
-- Runs of the answering user agent.
use xk6_sip_media.Prelude.{ℕ, ◌≡◌, refl, true, false, none, some, List, [], ◌∷◌}
use xk6_sip_media.Prelude.{get_elem?}
use xk6_sip_media.Prelude.NatMap.{insert, erase, lookup}
use xk6_sip_media.Sip.Uas.{
  RegisteredUasConfig, RegisteredUas, Invite, Leg, up, ending, gone, new_registered_uas,
}
use xk6_sip_media.Sip.Uas.{
  admit, prepare, answer, wake, report, forget, release, advance_leg, advance, signal, handle_bye,
  Event, arrives, advances, bye, step, run,
}
use xk6_sip_media.Sip.Uas.Invariant.{IsCapped}
use xk6_sip_media.Sip.Uas.Capped.{run-new_registered_uas}
use xk6_sip_media.Sip.Uas.{leaving}
use xk6_sip_media.Prelude.{arith}
use xk6_sip_media.Sip.Uas.Bye.{bye_lost}
use xk6_sip_media.Sip.Uas.Drain.{Ends, leg-Ends}

abbrev one_call : RegisteredUasConfig
one_call = record { call_duration = 0; max_concurrent = 1 }

abbrev good : Invite
good = record { call_id = 7; codec_ok = true; sdp_ok = true; bind_ok = true; respond_ok = true }

-- The first INVITE is answered, the second is too many, and a BYE ends the first call.
abbrev busy_then_bye : List Event
busy_then_bye =
    arrives good
    ∷ arrives good
    ∷ advances 0
    ∷ advances 1
    ∷ advances 0
    ∷ advances 0
    ∷ bye 7
    ∷ advances 0
    ∷ advances 0
    ∷ advances 0
    ∷ advances 0
    ∷ []

abbrev leg_at_end : Leg
leg_at_end = record { invite = good; stage = gone; signalled = true; responses = 200 ∷ 100 ∷ [] }

abbrev leg_refused : Leg
leg_refused = record { invite = good; stage = gone; signalled = false; responses = 486 ∷ [] }

abbrev after_call : RegisteredUas
after_call = record {
  cfg = one_call;
  active = 0;
  stop_map = [];
  legs = leg_at_end ∷ leg_refused ∷ [];
  results = 1;
  cancelled = false;
}

run-new_registered_uas_example : IsCapped after_call
unfolding run step new_registered_uas admit prepare answer wake report forget release advance_leg
    advance signal handle_bye insert erase lookup
run-new_registered_uas_example = run-new_registered_uas one_call busy_then_bye after_call refl

abbrev leg_up : Leg
leg_up = record leg_refused { stage = up; responses = 200 ∷ 100 ∷ [] }

abbrev leg_ending : Leg
leg_ending = record leg_up { stage = ending; signalled = true }

-- A re-INVITE has been answered within the call.
abbrev with_reinvite : RegisteredUas
with_reinvite = record after_call {
  cfg = record { call_duration = 0; max_concurrent = 0 };
  stop_map = (7, 1) ∷ [];
  legs = leg_up ∷ leg_ending ∷ [];
}

-- The re-INVITE is over.
abbrev after_reinvite : RegisteredUas
after_reinvite = record with_reinvite {
  stop_map = [];
  legs = leg_up ∷ record leg_ending { stage = leaving } ∷ [];
}

-- A BYE, and the end of the re-INVITE's handler.
abbrev after_bye : RegisteredUas
after_bye = record after_reinvite { legs = leg_up ∷ record leg_ending { stage = gone } ∷ [] }

own_entry : (k : ℕ) → lookup k with_reinvite.stop_map ≡ some 0 → k ≡ 7
unfolding lookup
own_entry k h = ground (arith, h)

bye_lost_example :
    (lookup 7 after_reinvite.stop_map ≡ none)
    × (handle_bye 7 after_reinvite ≡ after_reinvite)
    × (get_elem? after_bye.legs 0 ≡ some leg_up)
    × (advance 0 after_bye ≡ none)
unfolding run step advance advance_leg forget release erase lookup handle_bye
bye_lost_example =
    bye_lost 0 1 leg_up leg_ending with_reinvite after_reinvite after_bye (bye 7 ∷ advances 1 ∷ [])
      refl refl refl refl refl refl refl refl own_entry refl tt refl

abbrev stopped : RegisteredUas
stopped = record with_reinvite { cancelled = true }

leg-Ends_example : Ends 0 stopped
leg-Ends_example = leg-Ends 0 leg_up stopped refl refl
