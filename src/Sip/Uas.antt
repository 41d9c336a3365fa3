-- ===== src/Sip/Uas.antt =====
-- sip/registered_uas.go and sip/server.go: the user agents that answer INVITEs. Every INVITE runs
-- in a goroutine of its own, a leg, whose handler is cut into the segments between which other
-- goroutines may run. A Call-ID stands for a number, the empty one for 0.
pub mod Legs
pub mod Invariant
pub mod Segments
pub mod Capped
pub mod Bye
pub mod Drain
mod Runs
use xk6_sip_media.Prelude.{
  ℕ, zero, suc, ◌+◌, ◌-◌, Bool, true, false, not, ◌&&◌, ◌||◌, Option, none, some, List, [], ◌∷◌,
  ◌++◌, ◌>>=◌,
}
use xk6_sip_media.Prelude.{ltb, leb, ◌==◌, if◌then◌else◌, length, get_elem?, set}
use xk6_sip_media.Prelude.NatMap.{lookup, insert, erase}

-- A duration is a number of nanoseconds. Negative settings are left out: they act as 0.
pub record RegisteredUasConfig : Type 0 where
  pub call_duration : ℕ
  pub max_concurrent : ℕ

-- An INVITE, and how the calls of its handler end: whether there is the codec, the offer has an
-- address and a port, a socket can be bound, and the transport takes the 200.
pub record Invite : Type 0 where
  pub call_id : ℕ
  pub codec_ok : Bool
  pub sdp_ok : Bool
  pub bind_ok : Bool
  pub respond_ok : Bool

-- Where a handler stands: before the cap, before the checks, with its stop signal in the map,
-- in the wait, after it, and in the deferred calls.
pub data Stage : Type 0 where
  arrived admitted offering up stopping ending leaving gone : Stage

-- `responses` has the statuses sent, the latest first; `signalled` is the leg's callStop.
pub record Leg : Type 0 where
  pub invite : Invite
  pub stage : Stage
  pub signalled : Bool
  pub responses : List ℕ

-- A stop signal in the map is named by the index of its leg. `results` counts the results.
pub record RegisteredUas : Type 0 where
  pub cfg : RegisteredUasConfig
  pub active : ℕ
  pub stop_map : List (ℕ × ℕ)
  pub legs : List Leg
  pub results : ℕ
  pub cancelled : Bool

unfoldable pub new_registered_uas : RegisteredUasConfig → RegisteredUas
new_registered_uas cfg = record {
  cfg = cfg;
  active = 0;
  stop_map = [];
  legs = [];
  results = 0;
  cancelled = false;
}

abbrev pub new_leg : Invite → Leg
new_leg invite = record { invite = invite; stage = arrived; signalled = false; responses = [] }

abbrev pub move : Stage → Leg → Leg
move s leg = record leg { stage = s }

-- A response, and on to the next segment.
abbrev pub respond : ℕ → Stage → Leg → Leg
respond code s leg = record leg { stage = s; responses = code ∷ leg.responses }

abbrev pub put : ℕ → Leg → RegisteredUas → RegisteredUas
put i leg u = record u { legs = set u.legs i leg }

-- The cap on concurrent calls.
unfoldable pub admit : ℕ → Leg → RegisteredUas → RegisteredUas
admit i leg u =
    if ltb 0 u.cfg.max_concurrent
    then (if leb u.cfg.max_concurrent u.active
        then put i (respond 486 gone leg) u
        else record (put i (move admitted leg) u) { active = u.active + 1 })
    else put i (move admitted leg) u

-- From the codec to the entry in the stop map; every early return goes to the deferred calls.
unfoldable pub prepare : ℕ → Leg → RegisteredUas → RegisteredUas
prepare i leg u =
    let invite = leg.invite in
    let trying = respond 100 leaving leg in
    if not invite.codec_ok
    then put i (respond 415 leaving leg) u
    else if not invite.sdp_ok
    then put i (respond 400 leaving leg) u
    else if not invite.bind_ok
    then put i (respond 500 leaving trying) u
    else if invite.call_id == 0
    then put i (respond 400 leaving trying) u
    else record (put i (move offering trying) u) { stop_map = insert invite.call_id i u.stop_map }

unfoldable pub answer : ℕ → Leg → RegisteredUas → RegisteredUas
answer i leg u = put i (respond 200 (if leg.invite.respond_ok then up else ending) leg) u

-- The wait ends by a BYE, by the cap on the duration, which may pass at any time, or by Stop; then
-- the receiver is signalled.
unfoldable pub wake : ℕ → Leg → RegisteredUas → Option RegisteredUas
wake i leg u =
    if leg.signalled || ltb 0 u.cfg.call_duration || u.cancelled
    then some (put i (record leg { stage = stopping; signalled = true }) u)
    else none

unfoldable pub report : ℕ → Leg → RegisteredUas → RegisteredUas
report i leg u = record (put i (move ending leg) u) { results = u.results + 1 }

-- The deferred calls: the entry of the stop map, and the count.
unfoldable pub forget : ℕ → Leg → RegisteredUas → RegisteredUas
forget i leg u = record (put i (move leaving leg) u) {
  stop_map = erase leg.invite.call_id u.stop_map;
}

unfoldable pub release : ℕ → Leg → RegisteredUas → RegisteredUas
release i leg u =
    let left = put i (move gone leg) u in
    if ltb 0 u.cfg.max_concurrent then record left { active = u.active - 1 } else left

-- The next segment of leg `i`; `none` where it waits or has ended.
unfoldable pub advance_leg : Stage → ℕ → Leg → RegisteredUas → Option RegisteredUas
advance_leg arrived i leg u = some (admit i leg u)
advance_leg admitted i leg u = some (prepare i leg u)
advance_leg offering i leg u = some (answer i leg u)
advance_leg up i leg u = wake i leg u
advance_leg stopping i leg u = some (report i leg u)
advance_leg ending i leg u = some (forget i leg u)
advance_leg leaving i leg u = some (release i leg u)
advance_leg gone i leg u = none

unfoldable pub advance : ℕ → RegisteredUas → Option RegisteredUas
advance i u = elim (get_elem? u.legs i) [ none ↦ none | some leg ↦ advance_leg leg.stage i leg u ]

-- handleBye: the signal is idempotent.
unfoldable pub signal : ℕ → RegisteredUas → RegisteredUas
signal i u = elim (get_elem? u.legs i) [
  | none ↦ u
  | some leg ↦ put i (record leg { signalled = true }) u
]

unfoldable pub handle_bye : ℕ → RegisteredUas → RegisteredUas
handle_bye call_id u = elim (lookup call_id u.stop_map) [ none ↦ u | some i ↦ signal i u ]

pub data Event : Type 0 where
  arrives : Invite → Event
  advances : ℕ → Event
  bye : ℕ → Event
  cancel : Event

unfoldable pub step : Event → RegisteredUas → Option RegisteredUas
step (arrives invite) u = some (record u { legs = u.legs ++ (new_leg invite ∷ []) })
step (advances i) u = advance i u
step (bye call_id) u = some (handle_bye call_id u)
step cancel u = some (record u { cancelled = true })

unfoldable pub run : List Event → RegisteredUas → Option RegisteredUas
run [] u = some u
run (e ∷ rest) u = do u' ← step e u; run rest u'
