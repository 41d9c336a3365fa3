-- ===== src/Sip/Dial/Runs.antt =====
-- Runs of Dial against a world in which everything succeeds.
use xk6_sip_media.Prelude.{
  ℕ, zero, suc, ◌+◌, ◌<◌, ◌≡◌, refl, sym, ap, none_differs, true, false, Bool, Option, none, some,
  List, [], ◌∷◌, ◌^◌, arith, replicate,
}
use xk6_sip_media.Prelude.Int.{pos}
use xk6_sip_media.Prelude.Text.{
  Str, same, codes, is_space, split, has_prefix, trim_space, trim_right, trim_left, split_at,
  unix_lines, keep_before, itoa, digits, fields, add_word, words,
}
use xk6_sip_media.Prelude.Text.Words.{IsWord, crlf, is_word, is_word-IsWord}
use xk6_sip_media.Rtp.Srtp.{
  Result, ok, err, SrtpConfig, SrtpSession, before_pipe, validate_config, derive_segments,
  derive_key, new_session,
}
use xk6_sip_media.Rtp.Srtp.Toy.{toy_ciphers}
use xk6_sip_media.Sip.Call.{sendrecv}
use xk6_sip_media.Sip.Sdp.{parse_sdp, parse_sdp_crypto, first_line, crypto_line}
use xk6_sip_media.Sip.Sdp.Build.{
  channels, clock_rate, codec_name, direction_text, payload_type_clock_rate, payload_type_name,
  build_sdp, build_sdp_with_srtp, srtp_lines,
}
use xk6_sip_media.Sip.Dial.{
  CallConfig, echo, Codec, Answer, Outside, Live, answered, refused, abandoned, Invite, Resources,
  connected, choose_codec, load_media, bind_rtp, first_port, sdp_pt, send_pt, pt_of_name, remote_of,
  event_pt, start_workers,
}
use xk6_sip_media.Sip.Dial.Chain.{
  dial, with_codec, with_client, with_port, build_offer, send_invite, connect, remote_key,
  session_for,
}
use xk6_sip_media.Sip.Dial.Leftovers.{left_open, expected, dial-left_open}
use xk6_sip_media.Sip.Dial.Offered.{offer_is_bound}
use xk6_sip_media.Sip.Dial.Unheard.{srtp_unheard}

abbrev address : Str
address = codes "192.0.2.1"

address-IsWord : IsWord address
unfolding is_word is_space
address-IsWord = is_word-IsWord address refl

abbrev key : List ℕ
key = replicate 30 65

abbrev body : Str
body = crlf (srtp_lines (λ t. t) address 6000 0 sendrecv key)

abbrev config : Bool → CallConfig
config srtp = record {
  local_ip = address;
  rtp_port = 0;
  audio_mode = echo;
  has_pcap_file = false;
  has_audio_file = false;
  direction = sendrecv;
  srtp = srtp;
  rtcp = true;
  cancel_after = false;
  ivr_expect = true;
  duration = pos 0;
}

abbrev pcmu : Codec
pcmu = record { name = codes "PCMU"; payload_type = 0; sample_rate = 8000 }

-- The first port is taken.
abbrev take_second : ℕ → ℕ → Option ℕ
take_second zero port = none
take_second (suc i) port = some 20017

abbrev good_answer : Answer
good_answer = record {
  remote_ip = address;
  remote_port = pos 6000;
  pt_map = (0, codes "PCMU") ∷ [];
  body = some body;
  early = none;
}

abbrev world : Bool → Outside
world target = record {
  pcmu = pcmu;
  new_codec = some pcmu;
  capture = none;
  audio = none;
  new_client = true;
  random_port = λ i. i + 17;
  bind = take_second;
  random_key = some key;
  target_parses = target;
  invite = λ offer. answered good_answer;
  ssrc = 7;
  new_rtcp = true;
}

dial-left_open_example :
    left_open (dial toy_ciphers (λ t. t) (config true) (world false))
    ≡ expected (dial toy_ciphers (λ t. t) (config true) (world false))
dial-left_open_example = dial-left_open toy_ciphers (λ t. t) (config true) (world false)

small_port : (i port assigned : ℕ) → take_second i port ≡ some assigned → assigned < 2 ^ 16
small_port i port assigned h = ground (arith, h)

abbrev body_of : Invite → Option Str
body_of (refused expired) = none
body_of (abandoned expired) = none
body_of (answered a) = a.body

same_answer : (a : Answer) → answered good_answer ≡ answered a → a.body ≡ some body
same_answer a h = sym (ap body_of h)

abbrev sessions : Result (Option SrtpSession) → Option SrtpSession
sessions (ok s) = s
sessions (err e) = none

abbrev call : Str → Option SrtpSession → Live
call offer sender = record {
  rtp_port = 20017;
  offer = offer;
  remote = (address, pos 6000);
  send_pt = 0;
  ts_increment = 160;
  sender = sender;
  receiver = none;
  events = some 101;
  workers = 3;
}

abbrev all_open : Resources
all_open = record { codec_open = true; client_open = true; conn_open = true; dialog_up = true }

abbrev plain_call : Live
plain_call = call (build_sdp address 20017 0 sendrecv 0) none

plain_connects :
    dial toy_ciphers (λ t. t) (config false) (world true) ≡ connected plain_call all_open
unfolding dial with_codec choose_codec load_media with_client bind_rtp first_port with_port
    build_offer sdp_pt send_invite connect remote_key session_for send_pt pt_of_name remote_of
    event_pt start_workers same
plain_connects = refl

pcmu_fits : (cod : Codec) → some pcmu ≡ some cod → cod.payload_type < 256
pcmu_fits cod h =
    let e : pcmu ≡ cod = cc in
    let f : 0 ≡ cod.payload_type = ap (λ c. c.payload_type) e in omega (arith, f)

no_capture :
    (payloads : List (List ℕ)) (pt : ℕ) → (world true).capture ≡ some (payloads, pt) → pt < 256
no_capture payloads pt h = absurd (none_differs h)

offer_is_bound_example :
    (i : ℕ) × (port : ℕ) × (i < 5)
    × (take_second i port ≡ some 20017)
    × ((parse_sdp (λ c. c) (build_sdp address 20017 0 sendrecv 0)).ip ≡ address)
    × ((parse_sdp (λ c. c) (build_sdp address 20017 0 sendrecv 0)).port ≡ pos 20017)
offer_is_bound_example =
    offer_is_bound (λ c. c) toy_ciphers (λ t. t) (config false) (world true) plain_call all_open
      b'1' (codes "92.0.2.1") refl refl address-IsWord small_port (omega arith) pcmu_fits no_capture
      plain_connects

abbrev key_config : SrtpConfig
key_config = record { master_key = replicate 16 65; master_salt = replicate 14 65 }

abbrev secured_call : Live
secured_call =
    call (crlf (srtp_lines (λ t. t) address 20017 0 sendrecv key))
      (sessions (session_for toy_ciphers (λ t. t) (some key_config) 7 true))

key-IsWord : IsWord key
unfolding is_word is_space
key-IsWord = is_word-IsWord key refl

secured_connects :
    dial toy_ciphers (λ t. t) (config true) (world true) ≡ connected secured_call all_open
unfolding dial with_codec choose_codec load_media with_client bind_rtp first_port with_port
    build_offer build_sdp_with_srtp sdp_pt send_invite connect remote_key session_for new_session
    validate_config derive_key derive_segments send_pt pt_of_name remote_of event_pt start_workers
    same parse_sdp_crypto first_line split crypto_line has_prefix trim_space trim_right trim_left
    split_at unix_lines is_space keep_before itoa digits fields add_word words channels clock_rate
    codec_name direction_text payload_type_clock_rate payload_type_name
secured_connects = refl

srtp_unheard_example :
    (session : SrtpSession) × (secured_call.sender ≡ some session) × (secured_call.receiver ≡ none)
unfolding before_pipe build_sdp_with_srtp
srtp_unheard_example =
    srtp_unheard toy_ciphers (λ t. t) (config true) (world true) secured_call all_open (λ t. t) b'1'
      (codes "92.0.2.1") 6000 0 sendrecv key b'A' (replicate 29 b'A') body key_config refl
      (λ offer a h. same_answer a h) refl address-IsWord (omega arith) refl refl key-IsWord refl
      refl secured_connects
