-- ===== src/Sip/Server.antt =====
-- sip/server.go: the handlers of INVITEs. A handler runs from its place under the cap to its answer
-- and then waits for the end of the call; handlers of other INVITEs run between these segments.
pub mod Cap
mod Runs
use xk6_sip_media.Prelude.{
  ℕ, zero, suc, ◌+◌, ◌-◌, Bool, true, false, not, ◌&&◌, ◌||◌, Option, none, some, List, [], ◌∷◌,
}
use xk6_sip_media.Prelude.{ltb, leb, ◌==◌, if◌then◌else◌, length}
use xk6_sip_media.Prelude.Int.{ℤ, pos, negsuc}
use xk6_sip_media.Prelude.Text.{Str}
use xk6_sip_media.Sip.Call.{sendrecv}
use xk6_sip_media.Sip.Sdp.{parse_sdp}
use xk6_sip_media.Sip.Sdp.Build.{build_sdp}

-- The settings that a handler reads. `codec` is the payload type of the codec, if codec.New knows it.
-- No cap and no duration are 0.
pub record ServerConfig : Type 0 where
  pub local_ip : Str
  pub codec : Option ℕ
  pub max_concurrent : ℕ
  pub call_duration : ℕ

-- The final responses, the latest first, the answers sent, and how many handlers stand between the
-- cap and the answer and how many wait for the end of their call.
pub record Server : Type 0 where
  pub active : ℕ
  pub results : ℕ
  pub responses : List ℕ
  pub answers : List Str
  pub started : ℕ
  pub waiting : ℕ

abbrev pub new_server : Server
new_server = record {
  active = 0;
  results = 0;
  responses = [];
  answers = [];
  started = 0;
  waiting = 0;
}

-- The cap: busy, or a place.
unfoldable pub take_place : ServerConfig → Server → Server
take_place cfg s =
    if ltb 0 cfg.max_concurrent
    then (if leb cfg.max_concurrent s.active
        then record s { responses = 486 ∷ s.responses }
        else record s { active = s.active + 1; started = s.started + 1 })
    else record s { started = s.started + 1 }

-- The deferred end of a handler.
unfoldable pub give_back : ServerConfig → Server → Server
give_back cfg s = if ltb 0 cfg.max_concurrent then record s { active = s.active - 1 } else s

abbrev pub respond : ℕ → Server → Server
respond status s = record s { responses = status ∷ s.responses }

abbrev pub is_zero : ℤ → Bool
is_zero (pos zero) = true
is_zero other = false

-- What the handler makes of the offer: a status, or its answer for an RTP port.
unfoldable pub refusal : ServerConfig → (ℕ → ℕ) → Str → Option ℕ
refusal cfg wide body = elim cfg.codec [
  | none ↦ some 415
  | some pt ↦
      let offer = parse_sdp wide body in
      if length offer.ip == 0 || is_zero offer.port then some 400 else none
]

unfoldable pub answer_for : ServerConfig → ℕ → Str
answer_for cfg rtp_port = elim cfg.codec [
  | none ↦ []
  | some pt ↦ build_sdp cfg.local_ip rtp_port pt sendrecv 0
]

-- `sent` says whether the 200 can be sent, `bound` whether the port is free after it.
unfoldable pub proceed : ServerConfig → (ℕ → ℕ) → Str → ℕ → Bool → Bool → Server → Server
proceed cfg wide body rtp_port sent bound s =
    let s = record s { started = s.started - 1 } in
    elim (refusal cfg wide body) [
      | some status ↦ give_back cfg (respond status s)
      | none ↦
          if not sent
          then give_back cfg s
          else (let s = record (respond 200 s) { answers = answer_for cfg rtp_port ∷ s.answers } in
              if bound then record s { waiting = s.waiting + 1 } else give_back cfg s)
    ]

-- After the sleep; without a duration the handler waits on a channel that only it closes.
unfoldable pub finish : ServerConfig → Server → Server
finish cfg s = give_back cfg (record s { waiting = s.waiting - 1; results = s.results + 1 })

pub data Event : Type 0 where
  arrives : Event
  proceeds : (body : Str) (rtp_port : ℕ) (sent bound : Bool) → Event
  sleeps_out : Event

-- A segment that no handler stands before changes nothing.
unfoldable pub advance : ServerConfig → (ℕ → ℕ) → Event → Server → Server
advance cfg wide arrives s = take_place cfg s
advance cfg wide (proceeds body rtp_port sent bound) s =
    if ltb 0 s.started then proceed cfg wide body rtp_port sent bound s else s
advance cfg wide sleeps_out s =
    if ltb 0 s.waiting && ltb 0 cfg.call_duration then finish cfg s else s

unfoldable pub run : ServerConfig → (ℕ → ℕ) → List Event → Server → Server
run cfg wide [] s = s
run cfg wide (e ∷ events) s = run cfg wide events (advance cfg wide e s)
