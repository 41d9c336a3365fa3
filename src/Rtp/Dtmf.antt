-- ===== src/Rtp/Dtmf.antt =====
-- core/rtp/dtmf.go: RFC 2833 telephone events. A digit is the byte string that the program uses for
-- it, such as "5" or "#".
pub mod Collect
pub mod Expect
mod Runs
use Prim.Native.Nat.{bit_and, bit_or}
use xk6_sip_media.Prelude.{ℕ, zero, suc, ◌+◌, ◌*◌, ◌/◌, ◌%◌, ◌^◌, ◌<◌, Bool, true, false, not}
use xk6_sip_media.Prelude.{Option, none, some, List, [], ◌∷◌, ◌++◌, ◌&&◌, ◌||◌}
use xk6_sip_media.Prelude.{ltb, leb, ◌==◌, if◌then◌else◌, length, get_or}
use xk6_sip_media.Prelude.Bytes.{u8, u16, byte_at}
use xk6_sip_media.Rtp.Packet.{Packet}
use xk6_sip_media.Rtp.Session.{Session, next_seq_ts}

abbrev pub dtmf_payload_type : ℕ
dtmf_payload_type = 101

-- Equality of strings.
unfoldable pub same_string : List ℕ → List ℕ → Bool
same_string [] [] = true
same_string [] (d ∷ ds) = false
same_string (c ∷ cs) [] = false
same_string (c ∷ cs) (d ∷ ds) = c == d && same_string cs ds

-- The entries of `digitCode`, by code.
abbrev pub digit_table : List (List ℕ)
digit_table =
    (b'0' ∷ [])
    ∷ (b'1' ∷ [])
    ∷ (b'2' ∷ [])
    ∷ (b'3' ∷ [])
    ∷ (b'4' ∷ [])
    ∷ (b'5' ∷ [])
    ∷ (b'6' ∷ [])
    ∷ (b'7' ∷ [])
    ∷ (b'8' ∷ [])
    ∷ (b'9' ∷ [])
    ∷ (b'*' ∷ [])
    ∷ (b'#' ∷ [])
    ∷ (b'A' ∷ [])
    ∷ (b'B' ∷ [])
    ∷ (b'C' ∷ [])
    ∷ (b'D' ∷ [])
    ∷ []

unfoldable pub index_of : List ℕ → ℕ → List (List ℕ) → Option ℕ
unfolding same_string
index_of digit code [] = none
index_of digit code (d ∷ rest) =
    if same_string d digit then some code else index_of digit (code + 1) rest

-- `digitCode[digit]`.
unfoldable pub digit_code : List ℕ → Option ℕ
unfolding index_of
digit_code digit = index_of digit 0 digit_table

-- `codeDigit[code]`, the array that `init` fills.
abbrev pub code_digit : ℕ → List ℕ
code_digit code = get_or digit_table code []

unfoldable pub decode_dtmf_event : List ℕ → Option (List ℕ × Bool)
unfolding same_string
decode_dtmf_event payload =
    if ltb (length payload) 4
    then none
    else (let code = byte_at payload 0 in
        if leb (length digit_table) code || same_string (code_digit code) []
        then none
        else some (code_digit code, not (bit_and (byte_at payload 1) 0x80 == 0)))

pub record DtmfCollector : Type 0 where
  pub digits : List (List ℕ)
  pub pt : ℕ
  pub last_ts : ℕ
  pub last_evt : ℕ
  pub seeded : Bool

unfoldable pub new_dtmf_collector : ℕ → DtmfCollector
new_dtmf_collector tel_pt = record {
  digits = [];
  pt = if tel_pt == 0 then dtmf_payload_type else tel_pt;
  last_ts = 0;
  last_evt = 0;
  seeded = false;
}

unfoldable pub accept : ℕ → ℕ → List ℕ → DtmfCollector → DtmfCollector
accept ts event_code digit c =
    if c.seeded && c.last_ts == ts && c.last_evt == event_code then c else record c {
      last_ts = ts;
      last_evt = event_code;
      seeded = true;
      digits = c.digits ++ (digit ∷ []);
    }

-- What the receive loop does with the telephone events of a call that collects them.
unfoldable pub collect : Packet → DtmfCollector → DtmfCollector
collect pkt c =
    if pkt.payload_type == c.pt
    then elim (decode_dtmf_event pkt.payload) [
      | some (digit, end) ↦ if end then accept pkt.timestamp (byte_at pkt.payload 0) digit c else c
      | none ↦ c
    ]
    else c

-- MatchesExpected walks over the digits received with an index into the digits expected.
unfoldable pub match_from : List (List ℕ) → ℕ → List (List ℕ) → Bool
match_from expected ei [] = false
match_from expected ei (d ∷ got) = elim (same_string d (get_or expected ei [])) [
  | true ↦ if ei + 1 == length expected then true else match_from expected (ei + 1) got
  | false ↦ match_from expected ei got
]

unfoldable pub matches_expected : List (List ℕ) → DtmfCollector → Bool
unfolding match_from
matches_expected expected c = if length expected == 0 then true else match_from expected 0 c.digits

unfoldable pub build_dtmf_payload : ℕ → ℕ → ℕ → Bool → List ℕ
build_dtmf_payload code volume duration end =
    let flags = bit_and volume 0x3f in
    code ∷ (if end then bit_or flags 0x80 else flags) ∷ u8 (duration / 2 ^ 8) ∷ u8 duration ∷ []

unfoldable pub build_dtmf_packet : Session → ℕ → ℕ → List ℕ → Bool → Packet
build_dtmf_packet sess seq ts payload marker = record {
  marker = marker;
  payload_type = dtmf_payload_type;
  sequence_number = seq;
  timestamp = ts;
  ssrc = sess.ssrc;
  payload = payload;
}

-- The loop over the five intermediate packets, from round `i` on; `rounds` are left.
unfoldable pub send_updates : ℕ → ℕ → ℕ → Session → List Packet × Session
send_updates zero i code sess = ([], sess)
send_updates (suc rounds) i code sess =
    let (seq, ts, sess') = next_seq_ts 160 sess in
    let payload = build_dtmf_payload code 10 (u16 ((i + 1) * 160)) false in
    let (later, last) = send_updates rounds (i + 1) code sess' in
    (build_dtmf_packet sess seq ts payload (i == 0) ∷ later, last)

-- SendDTMF: the packets that it sends, in order, and the session after it.
unfoldable pub send_dtmf : List ℕ → Session → List Packet × Session
send_dtmf digit sess = elim (digit_code digit) [
  | none ↦ ([], sess)
  | some code ↦
      let (updates, sess') = send_updates 5 0 code sess in
      let (seq, ts, sess'') = next_seq_ts 0 sess' in
      let payload = build_dtmf_payload code 10 (5 * 160) true in
      (updates ++ (build_dtmf_packet sess seq ts payload false ∷ []), sess'')
]
