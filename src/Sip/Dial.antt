-- ===== src/Sip/Dial.antt =====
-- sip/dial.go: Dial, as a chain of steps that open and close what a call needs. The codec
-- registry, the files, the sockets, the SIP client and the remote party are what `Outside` says.
pub mod Chain
pub mod Leftovers
pub mod Offered
pub mod Unheard
mod Runs
use xk6_sip_media.Prelude.{
  ℕ, zero, suc, ◌+◌, ◌*◌, ◌/◌, ◌%◌, ◌⊎◌, inl, inr, Bool, true, false, not, ◌&&◌, ◌||◌, Option, none,
  some, List, [], ◌∷◌, ◌++◌,
}
use xk6_sip_media.Prelude.{ltb, leb, ◌==◌, if◌then◌else◌, length, take, ◌>>=◌}
use xk6_sip_media.Prelude.Int.{ℤ, pos, negsuc, quot, ◌+ℤ◌}
use xk6_sip_media.Prelude.Text.{Str, same, codes}
use xk6_sip_media.Rtp.Srtp.{
  Ciphers, SrtpConfig, SrtpSession, Result, ok, err, parse_srtp_config, new_session,
}
use xk6_sip_media.Sip.Call.{Direction}
use xk6_sip_media.Sip.Sdp.{parse_sdp_crypto}
use xk6_sip_media.Sip.Sdp.Build.{build_sdp, build_sdp_with_srtp}

pub data AudioMode : Type 0 where
  file echo pcap silent : AudioMode

abbrev pub is_pcap : AudioMode → Bool
is_pcap pcap = true
is_pcap other = false

-- The settings that the steps below read. `direction` is "sendrecv" where the configuration names
-- none; `cancel_after` says whether a duration is given.
pub record CallConfig : Type 0 where
  pub local_ip : Str
  pub rtp_port : ℕ
  pub audio_mode : AudioMode
  pub has_pcap_file : Bool
  pub has_audio_file : Bool
  pub direction : Direction
  pub srtp : Bool
  pub rtcp : Bool
  pub cancel_after : Bool
  pub ivr_expect : Bool
  pub duration : ℤ

pub record Codec : Type 0 where
  pub name : Str
  pub payload_type : ℕ
  pub sample_rate : ℕ

-- What SendINVITE returns: the answer's address, its codecs in the order of the map, its body if
-- there is a response, and the address of the early media if it has one.
pub record Answer : Type 0 where
  pub remote_ip : Str
  pub remote_port : ℤ
  pub pt_map : List (ℕ × Str)
  pub body : Option Str
  pub early : Option (Str × ℤ)

-- SendINVITE's error, or its result. Before the 200 an error leaves no dialog; after it, an ACK that
-- cannot be sent and a body without an address are errors as well, and leave the dialog up.
-- `expired` says whether the context had ended.
pub data Invite : Type 0 where
  refused : (expired : Bool) → Invite
  abandoned : (expired : Bool) → Invite
  answered : Answer → Invite

-- `bind` says for an attempt and a port what port the system assigns, if it does.
pub record Outside : Type 0 where
  pub pcmu : Codec
  pub new_codec : Option Codec
  pub capture : Option (List (List ℕ) × ℕ)
  pub audio : Option (List (List ℕ))
  pub new_client : Bool
  pub random_port : ℕ → ℕ
  pub bind : ℕ → ℕ → Option ℕ
  pub random_key : Option (List ℕ)
  pub target_parses : Bool
  pub invite : Str → Invite
  pub ssrc : ℕ
  pub new_rtcp : Bool

pub record Resources : Type 0 where
  pub codec_open : Bool
  pub client_open : Bool
  pub conn_open : Bool
  pub dialog_up : Bool

abbrev pub nothing : Resources
nothing = record { codec_open = false; client_open = false; conn_open = false; dialog_up = false }

-- `invite_abandoned` is the error for the INVITE where the dialog is up.
pub data DialError : Type 0 where
  unknown_codec no_pcap_file bad_pcap bad_audio no_client no_port no_key bad_target : DialError
  invite_failed invite_abandoned bad_remote_key srtp_sender srtp_receiver : DialError

-- The handle, as far as the media are concerned. `workers` is the counter of its wait group.
pub record Live : Type 0 where
  pub rtp_port : ℕ
  pub offer : Str
  pub remote : Str × ℤ
  pub send_pt : ℕ
  pub ts_increment : ℕ
  pub sender : Option SrtpSession
  pub receiver : Option SrtpSession
  pub events : Option ℕ
  pub workers : ℕ

pub data Outcome : Type 0 where
  failed : DialError → Resources → Outcome
  cancelled : (in_dialog : Bool) → Resources → Outcome
  connected : Live → Resources → Outcome

unfoldable pub choose_codec : CallConfig → Outside → Option Codec
choose_codec c w = if is_pcap c.audio_mode then some w.pcmu else w.new_codec

-- The payloads, and the payload type of a capture, 0 without one.
unfoldable pub load_media : CallConfig → Outside → DialError ⊎ (List (List ℕ) × ℕ)
load_media c w = elim c.audio_mode [
  | pcap ↦
      if not c.has_pcap_file
      then inl no_pcap_file
      else elim w.capture [ none ↦ inl bad_pcap | some found ↦ inr found ]
  | file ↦
      if not c.has_audio_file
      then inr ([], 0)
      else elim w.audio [ none ↦ inl bad_audio | some ps ↦ inr (ps, 0) ]
  | echo ↦ inr ([], 0)
  | silent ↦ inr ([], 0)
]

-- The attempts that are left, the number of the next one and its port.
unfoldable pub bind_rtp : Outside → ℕ → ℕ → ℕ → Option ℕ
bind_rtp w zero attempt port = none
bind_rtp w (suc left) attempt port = elim (w.bind attempt port) [
  | some assigned ↦ some assigned
  | none ↦ bind_rtp w left (attempt + 1) (20000 + w.random_port (attempt + 1) % 20000)
]

unfoldable pub first_port : CallConfig → Outside → ℕ
first_port c w = if c.rtp_port == 0 then 20000 + w.random_port 0 % 20000 else c.rtp_port

unfoldable pub sdp_pt : CallConfig → Codec → ℕ → ℕ
sdp_pt c cod pcap_pt = if is_pcap c.audio_mode && ltb 0 pcap_pt then pcap_pt else cod.payload_type

-- The payload type of the first entry of the answer's map with this name.
unfoldable pub pt_of_name : Str → List (ℕ × Str) → ℕ → ℕ
pt_of_name name [] otherwise = otherwise
pt_of_name name ((pt, codec) ∷ m) otherwise =
    let later = pt_of_name name m otherwise in if same codec name then pt else later

unfoldable pub send_pt : CallConfig → Codec → ℕ → Answer → ℕ
send_pt c cod pcap_pt a =
    if is_pcap c.audio_mode && ltb 0 pcap_pt
    then pcap_pt
    else pt_of_name cod.name a.pt_map cod.payload_type

unfoldable pub remote_of : Answer → Str × ℤ
remote_of a = elim a.early [
  | none ↦ (a.remote_ip, a.remote_port)
  | some (ip, port) ↦ if length ip == 0 then (a.remote_ip, a.remote_port) else (ip, port)
]

unfoldable pub event_pt : CallConfig → Answer → Option ℕ
event_pt c a =
    if c.ivr_expect then some (pt_of_name (codes "TELEPHONE-EVENT") a.pt_map 101) else none

-- The receive loop, the sender or the echo, and RTCP if its socket can be bound.
unfoldable pub start_workers : CallConfig → Outside → ℕ
start_workers c w = 2 + (if c.rtcp && w.new_rtcp then 1 else 0)
