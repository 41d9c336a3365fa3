-- ===== src/Rtp/Dtmf/Collect.antt =====
-- Digits that SendDTMF sends, as the collector of the other side sees them.
use xk6_sip_media.Prelude.{ℕ, zero, suc, ◌+◌, ◌*◌, ◌^◌, ◌<◌, ◌≡◌, refl, ap, ◌∙◌}
use xk6_sip_media.Prelude.{Bool, true, false, not, some, List, [], ◌∷◌, ◌++◌, arith}
use xk6_sip_media.Prelude.{◌⊎◌, inl, inr, ◌==◌, if◌then◌else◌, length, get_or, Bool-cases}
use xk6_sip_media.Prelude.Bytes.{byte_at, u16, u32}
use xk6_sip_media.Prelude.Bits.{
  all_below, law_below, bit_and_low_six, bit_and_top_bit, bit_or_top_bit,
}
use xk6_sip_media.Rtp.Packet.{Packet}
use xk6_sip_media.Rtp.Session.{Session, next_seq_ts}
use xk6_sip_media.Rtp.Dtmf.{same_string, digit_table, digit_code, code_digit, index_of}
use xk6_sip_media.Rtp.Dtmf.{decode_dtmf_event, build_dtmf_payload, build_dtmf_packet}
use xk6_sip_media.Rtp.Dtmf.{
  DtmfCollector, dtmf_payload_type, accept, collect, send_dtmf, send_updates,
}
use xk6_sip_media.Rtp.Dtmf.Expect.{same_string_iff}
use mathlib.Core.List.{append_assoc, append-nil}

digits_table : all_below 16 (λ c. not (same_string (code_digit c) [])) ≡ true
unfolding all_below same_string
digits_table = refl

code_digit_ne_nil : (code : ℕ) → code < 16 → same_string (code_digit code) [] ≡ false
code_digit_ne_nil code h =
    ground (arith, law_below (λ c. not (same_string (code_digit c) [])) 16 code h digits_table)

-- For every event code of the table, every 6-bit volume, every duration and either value of the end
-- bit, the payload that is built is decoded as the digit of that code with that end bit.
pub decode-build :
    (code volume duration : ℕ) (end : Bool)
    → code < 16
    → volume < 64
    → decode_dtmf_event (build_dtmf_payload code volume duration end) ≡ some (code_digit code, end)
unfolding decode_dtmf_event build_dtmf_payload
decode-build code volume duration end h v = ground (
  arith,
  bit_and_low_six volume,
  bit_and_top_bit volume,
  bit_or_top_bit volume,
  bit_and_top_bit (volume + 128),
  code_digit_ne_nil code h,
)

index_of-get :
    (digit : List ℕ) (from code : ℕ) (table : List (List ℕ))
    → index_of digit from table ≡ some code
    → (k : ℕ) × (code ≡ from + k) × (k < length table) × (get_or table k [] ≡ digit)
unfolding index_of
index_of-get digit from code [] e = cc
index_of-get digit from code (d ∷ rest) e = elim (Bool-cases (same_string d digit)) [
  | inl y ↦ (0, ground arith, omega arith, (same_string_iff d digit).0 y)
  | inr n ↦
      let (k, a, b, c) = index_of-get digit (from + 1) code rest (rw n at e) in
      (suc k, omega arith, omega arith, c)
]

-- `codeDigit` is the inverse of `digitCode`.
digit_code-code_digit :
    (digit : List ℕ) (code : ℕ)
    → digit_code digit ≡ some code
    → (code < 16) × (code_digit code ≡ digit)
unfolding digit_code
digit_code-code_digit digit code e =
    let (k, a, b, c) = index_of-get digit 0 code digit_table e in
    let same : code ≡ k = omega arith in rw same (b, c)

-- All packets that arrive at a collector.
unfoldable pub collect_all : List Packet → DtmfCollector → DtmfCollector
collect_all [] c = c
collect_all (p ∷ ps) c = collect_all ps (collect p c)

-- The packets of all digits, sent one after the other.
unfoldable pub send_digits : List (List ℕ) → Session → List Packet × Session
send_digits [] sess = ([], sess)
send_digits (d ∷ ds) sess =
    let (now, sess') = send_dtmf d sess in
    let (later, last) = send_digits ds sess' in (now ++ later, last)

-- Every digit is one that has an event code.
abbrev pub Known : List (List ℕ) → Type 0
Known [] = Unit
Known (d ∷ ds) = (code : ℕ) × (digit_code d ≡ some code) × Known ds

-- The last event accepted, if any, was the end of the last digit of this session.
abbrev pub InStep : Session → DtmfCollector → Type 0
InStep sess c =
    (sess.ts < 2 ^ 32) × (c.pt ≡ dtmf_payload_type) × ((c.seeded ≡ false) ⊎ (c.last_ts ≡ sess.ts))

first_byte :
    (code volume duration : ℕ) (end : Bool)
    → byte_at (build_dtmf_payload code volume duration end) 0 ≡ code
unfolding build_dtmf_payload
first_byte code volume duration end = refl

-- An event of the call's payload type counts only with its end bit.
collect_event :
    (sess : Session) (code seq ts duration : ℕ) (end marker : Bool) (c : DtmfCollector)
    → code < 16
    → c.pt ≡ dtmf_payload_type
    → collect (build_dtmf_packet sess seq ts (build_dtmf_payload code 10 duration end) marker) c
      ≡ (if end then accept ts code (code_digit code) c else c)
unfolding collect build_dtmf_packet
collect_event sess code seq ts duration end marker c h p =
    ground
      (arith, decode-build code 10 duration end h (omega arith), first_byte code 10 duration end)

updates_ignored :
    (rounds i code : ℕ) (sess : Session) (more : List Packet) (c : DtmfCollector)
    → code < 16
    → c.pt ≡ dtmf_payload_type
    → collect_all ((send_updates rounds i code sess).0 ++ more) c ≡ collect_all more c
unfolding collect_all send_updates
updates_ignored zero i code sess more c h p = refl
updates_ignored (suc rounds) i code sess more c h p =
    let (seq, ts, sess') = next_seq_ts 160 sess in
    ap (collect_all ((send_updates rounds (i + 1) code sess').0 ++ more))
      (collect_event sess code seq ts (u16 ((i + 1) * 160)) false (i == 0) c h p)
    ∙ updates_ignored rounds (i + 1) code sess' more c h p

updates_ts :
    (rounds i code : ℕ) (sess : Session)
    → sess.ts < 2 ^ 32
    → (send_updates rounds i code sess).1.ts ≡ u32 (sess.ts + rounds * 160)
unfolding send_updates next_seq_ts
updates_ts zero i code sess h = omega arith
updates_ts (suc rounds) i code sess h =
    omega (arith, updates_ts rounds (i + 1) code (next_seq_ts 160 sess).2 (omega arith))

-- The session after the five updates, and the end packet that follows them.
abbrev updated : ℕ → Session → Session
updated code sess = (send_updates 5 0 code sess).1

abbrev end_packet : ℕ → Session → Packet
end_packet code sess =
    build_dtmf_packet sess (updated code sess).seq (updated code sess).ts
      (build_dtmf_payload code 10 (5 * 160) true) false

send_dtmf_known :
    (digit : List ℕ) (code : ℕ) (sess : Session)
    → digit_code digit ≡ some code
    → send_dtmf digit sess ≡ (
      (send_updates 5 0 code sess).0 ++ (end_packet code sess ∷ []),
      (next_seq_ts 0 (updated code sess)).2,
    )
unfolding send_dtmf next_seq_ts
send_dtmf_known digit code sess e = rw (e, send_dtmf)

collect_all_known :
    (digit : List ℕ) (code : ℕ) (sess : Session) (c : DtmfCollector)
    → digit_code digit ≡ some code
    → c.pt ≡ dtmf_payload_type
    → collect_all (send_dtmf digit sess).0 c ≡ accept (updated code sess).ts code digit c
collect_all_known digit code sess c e p =
    let (fits, name) = digit_code-code_digit digit code e in
    ap (λ t. collect_all t.0 c) (send_dtmf_known digit code sess e)
    ∙ updates_ignored 5 0 code sess (end_packet code sess ∷ []) c fits p
    ∙ unfold collect_all in
      collect_event sess code (updated code sess).seq (updated code sess).ts 800 true false c fits p
      ∙ ap (λ d. accept (updated code sess).ts code d c) name

collect_one :
    (digit : List ℕ) (code : ℕ) (sess : Session) (c : DtmfCollector)
    → digit_code digit ≡ some code
    → InStep sess c
    → ((collect_all (send_dtmf digit sess).0 c).digits ≡ c.digits ++ (digit ∷ []))
      × InStep (send_dtmf digit sess).1 (collect_all (send_dtmf digit sess).0 c)
unfolding accept next_seq_ts
collect_one digit code sess c e h =
    rw (collect_all_known digit code sess c e h.1, send_dtmf_known digit code sess e)
      (ground (arith, updates_ts 5 0 code sess h.0))

collect_all-append :
    (ps qs : List Packet) (c : DtmfCollector)
    → collect_all (ps ++ qs) c ≡ collect_all qs (collect_all ps c)
unfolding collect_all
collect_all-append [] qs c = refl
collect_all-append (p ∷ ps) qs c = collect_all-append ps qs (collect p c)

-- A collector for payload type 101 that has accepted no event yet, or last the end of the last
-- digit of this session, records exactly the digits that SendDTMF is then called with, each once
-- and in order, from the packets of all the calls: the updates are ignored and no end packet is
-- taken for a retransmission of the digit before it, the same digit twice included. Every digit
-- has to be one with an event code.
pub collect-send_digits :
    (digits : List (List ℕ)) (sess : Session) (c : DtmfCollector)
    → Known digits
    → InStep sess c
    → (collect_all (send_digits digits sess).0 c).digits ≡ c.digits ++ digits
unfolding send_digits
collect-send_digits [] sess c k h = unfold collect_all in rw append-nil
collect-send_digits (d ∷ ds) sess c (code, e, k) h =
    let (one, step) = collect_one d code sess c e h in
    let sess' = (send_dtmf d sess).1 in
    let c' = collect_all (send_dtmf d sess).0 c in
    ap (λ t. t.digits) (collect_all-append (send_dtmf d sess).0 (send_digits ds sess').0 c)
    ∙ collect-send_digits ds sess' c' k step
    ∙ ap (λ t. t ++ ds) one
    ∙ append_assoc c.digits (d ∷ []) ds
