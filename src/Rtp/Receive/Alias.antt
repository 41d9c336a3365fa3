-- ===== src/Rtp/Receive/Alias.antt =====
-- What becomes of the payloads that wait in the jitter buffer when the next datagram is read.
use xk6_sip_media.Prelude.{
  ℕ, zero, suc, ◌+◌, ◌≤◌, ◌≡◌, refl, sym, ap, ◌∙◌, ◌&&◌, Option, none, some, List, [], ◌∷◌, ◌++◌,
  ◌⊎◌, inl, inr, arith,
}
use xk6_sip_media.Prelude.{
  ltb, ◌==◌, length, take, drop, Bool-cases, Option-cases, none_differs, subst_some,
}
use xk6_sip_media.Prelude.NatMap.{lookup, insert, lookup-insert}
use xk6_sip_media.Prelude.Floats.{Floats}
use mathlib.Core.Option
use mathlib.Core.Path.{subst}
use xk6_sip_media.Rtp.Packet.{Packet}
use xk6_sip_media.Rtp.Jitter.{JitterBuffer, push, track_first, is_late}
use xk6_sip_media.Rtp.Receive.{
  datagram, Receiver, is_event, push_audio, receive_packet, receive_bytes, receive, fill_frame,
  reread, refresh_all, refresh_jb,
}

take_own_length : (n : ℕ) (xs : List ℕ) → take n xs ≡ take (length (take n xs)) xs
take_own_length zero xs = refl
take_own_length (suc n) [] = refl
take_own_length (suc n) (x ∷ xs) = ap (λ t. x ∷ t) (take_own_length n xs)

-- Bytes within the front part.
take-drop_front :
    (n h : ℕ) (xs ys : List ℕ) → h + n ≤ length xs → take n (drop h (xs ++ ys)) ≡ take n (drop h xs)
take-drop_front zero h xs ys b = refl
take-drop_front (suc n) zero [] ys b = absurd (omega (arith, b))
take-drop_front (suc n) zero (x ∷ xs) ys b =
    ap (λ t. x ∷ t) (take-drop_front n zero xs ys (omega (arith, b)))
take-drop_front (suc n) (suc h) [] ys b = absurd (omega (arith, b))
take-drop_front (suc n) (suc h) (x ∷ xs) ys b = take-drop_front (suc n) h xs ys (omega (arith, b))

module _ (fl : Floats) (unmarshal : List ℕ → Option Packet) (header_size : Packet → ℕ) where
  lookup-refresh_all :
      (frame : List ℕ) (k : ℕ) (m : List (ℕ × Packet)) (shown : Packet)
      → lookup k (refresh_all fl unmarshal header_size frame m) ≡ some shown
      → (held : Packet) × (shown ≡ reread fl unmarshal header_size frame held)
  unfolding lookup refresh_all
  lookup-refresh_all frame k [] shown h = absurd (none_differs h)
  lookup-refresh_all frame k ((seq, pkt) ∷ m) shown h = elim (Bool-cases (seq == k)) [
    | inl e ↦ (pkt, ground (arith, e, h))
    | inr e ↦ lookup-refresh_all frame k m shown (ground (arith, e, h))
  ]

-- What waits after a push waited before, or is the packet that was pushed.
lookup-push :
    (now k : ℕ) (pkt shown : Packet) (jb jb' : JitterBuffer) (m m' : List (ℕ × Packet))
    → jb.packets ≡ some m
    → push now pkt jb ≡ some jb'
    → jb'.packets ≡ some m'
    → lookup k m' ≡ some shown
    → (shown ≡ pkt) ⊎ (lookup k m ≡ some shown)
unfolding push track_first
lookup-push now k pkt shown jb jb' m m' hm hp hm' hs =
    let tracked = track_first now pkt jb in
    let same : tracked.packets ≡ some m = ground (arith, hm) in
    let looked = lookup-insert pkt.sequence_number k pkt m in
    elim (Bool-cases (tracked.started && is_late pkt.sequence_number tracked.next_seq)) [
      | inl late ↦ inr (cc (late, same, hp, hm', hs))
      | inr new ↦
          let stored : push now pkt jb
              ≡ some (record tracked { packets = some (insert pkt.sequence_number pkt m) }) =
            ground (arith, new, same) in
          let held : lookup k (insert pkt.sequence_number pkt m) ≡ some shown =
            subst_some (λ (x : List (ℕ × Packet)). lookup k x ≡ some shown) hs
              (sym hm'
                ∙ subst_some
                    (λ (b : JitterBuffer). b.packets ≡ some (insert pkt.sequence_number pkt m)) refl
                    (sym stored ∙ hp)) in
          elim (Bool-cases (pkt.sequence_number == k)) [
            | inl here ↦ inl (cc (here, looked, held))
            | inr elsewhere ↦ inr (cc (elsewhere, looked, held))
          ]
    ]

module _ (fl : Floats) (unmarshal : List ℕ → Option Packet) (header_size : Packet → ℕ) where
  receive_packet_jb :
      (now size : ℕ) (pkt : Packet) (r r' : Receiver fl unmarshal header_size)
      → receive_packet fl unmarshal header_size now size pkt r ≡ some r'
      → (r'.jb ≡ r.jb) ⊎ (push_audio fl unmarshal header_size now pkt r.jb ≡ some r'.jb)
  unfolding receive_packet
  receive_packet_jb now size pkt r r' h =
      elim (Bool-cases (is_event fl unmarshal header_size pkt r.dtmf)) [
        | inl e ↦ inl (ground (arith, e, h))
        | inr a ↦ elim (Option-cases (push_audio fl unmarshal header_size now pkt r.jb)) [
          | inl none_left ↦ absurd (ground (arith, a, h, none_left))
          | inr (jb, pushed) ↦ inr (ground (arith, a, h, pushed))
        ]
      ]

  push_audio_jb :
      (now : ℕ) (pkt : Packet) (jb : JitterBuffer) (out : Option JitterBuffer)
      → push_audio fl unmarshal header_size now pkt (some jb) ≡ some out
      → (out ≡ some jb) ⊎ ((jb' : JitterBuffer) × (push now pkt jb ≡ some jb') × (out ≡ some jb'))
  unfolding push_audio
  push_audio_jb now pkt jb out h = elim (Bool-cases (ltb 0 (length pkt.payload))) [
    | inl full ↦ elim (Option-cases (push now pkt jb)) [
      | inl panic ↦ absurd (ground (arith, full, h, panic))
      | inr (jb', pushed) ↦ inr (jb', pushed, ground (arith, full, h, pushed))
    ]
    | inr empty ↦ inl (ground (arith, empty, h))
  ]

  receive_parsed :
      (now : ℕ) (bytes : List ℕ) (pkt : Packet) (r : Receiver fl unmarshal header_size)
      → unmarshal bytes ≡ some pkt
      → receive fl unmarshal header_size (datagram now bytes) r
        ≡ receive_packet fl unmarshal header_size now
            (length bytes)
            pkt
            (fill_frame fl unmarshal header_size bytes r)
  unfolding receive receive_bytes
  receive_parsed now bytes pkt r parses =
      ap
        (λ (o : Option Packet). elim o [
          | none ↦ some (fill_frame fl unmarshal header_size bytes r)
          | some p ↦
              receive_packet fl unmarshal header_size now (length bytes) p
                (fill_frame fl unmarshal header_size bytes r)
        ])
        parses

  -- What waits after a datagram is its packet, or shows what the loop's buffer holds now.
  waits_or_shown :
      (now k : ℕ) (bytes : List ℕ) (pkt held : Packet) (r r' : Receiver fl unmarshal header_size)
      (jb jb' : JitterBuffer) (m m' : List (ℕ × Packet))
      → unmarshal bytes ≡ some pkt
      → r.jb ≡ some jb
      → jb.packets ≡ some m
      → receive fl unmarshal header_size (datagram now bytes) r ≡ some r'
      → r'.jb ≡ some jb'
      → jb'.packets ≡ some m'
      → lookup k m' ≡ some held
      → (held ≡ pkt)
        ⊎ ((p : Packet) × (held
              ≡ reread fl unmarshal header_size (bytes ++ drop (length bytes) r.frame) p))
  unfolding receive receive_bytes fill_frame refresh_jb
  waits_or_shown now k bytes pkt held r r' jb jb' m m' parses has_jb has_map runs has_jb' has_map'
        looks =
      let frame = bytes ++ drop (length bytes) r.frame in
      let filled = fill_frame fl unmarshal header_size bytes r in
      let fresh = refresh_jb fl unmarshal header_size frame jb in
      let has_fresh : filled.jb ≡ some fresh =
        ap (Option.map (refresh_jb fl unmarshal header_size frame)) has_jb in
      let fresh_map : fresh.packets ≡ some (refresh_all fl unmarshal header_size frame m) =
        ap (Option.map (refresh_all fl unmarshal header_size frame)) has_map in
      let turn : receive_packet fl unmarshal header_size now (length bytes) pkt filled ≡ some r' =
        sym (receive_parsed now bytes pkt r parses) ∙ runs in
      let waited : lookup k (refresh_all fl unmarshal header_size frame m) ≡ some held
          → (p : Packet) × (held ≡ reread fl unmarshal header_size frame p) =
        lookup-refresh_all fl unmarshal header_size frame k m held in
      let kept : some jb' ≡ some fresh
          → lookup k (refresh_all fl unmarshal header_size frame m) ≡ some held =
        λ e.
          let same : jb' ≡ fresh = cc (e) in
          let map : m' ≡ refresh_all fl unmarshal header_size frame m =
            cc (same, fresh_map, has_map') in
          subst (λ (x : List (ℕ × Packet)). lookup k x ≡ some held) map looks in
      elim (receive_packet_jb now (length bytes) pkt filled r' turn) [
        | inl event ↦ inr (waited (kept (sym has_jb' ∙ event ∙ has_fresh)))
        | inr pushed ↦
            elim (push_audio_jb now pkt fresh r'.jb (
              subst
                (λ (o : Option JitterBuffer).
                  push_audio fl unmarshal header_size now pkt o ≡ some r'.jb)
                has_fresh pushed)) [
                  | inl same ↦ inr (waited (kept (sym has_jb' ∙ same)))
                  | inr (jb1, e, f) ↦
                      elim (lookup-push now k pkt held fresh jb1
                        (refresh_all fl unmarshal header_size frame m) m' fresh_map e
                        (let same : some jb' ≡ some jb1 = sym has_jb' ∙ f in
                          subst_some (λ (b : JitterBuffer). b.packets ≡ some m') has_map' same)
                        looks) [ inl is_pkt ↦ inl is_pkt | inr older ↦ inr (waited older) ]
                ]
      ]

  -- Where the parser makes the payload of a datagram from its bytes after the header, whose size does
  -- not depend on the payload: once the datagram has been read, every packet that waits in the jitter
  -- buffer with a header and a payload as long as its own has its payload, whatever it held before.
  pub held_overwritten :
      (now k : ℕ) (bytes : List ℕ) (pkt held : Packet) (r r' : Receiver fl unmarshal header_size)
      (jb jb' : JitterBuffer) (m m' : List (ℕ × Packet))
      → ((p : Packet) (x : List ℕ) → header_size (record p { payload = x }) ≡ header_size p)
      → unmarshal bytes ≡ some pkt
      → header_size pkt + length pkt.payload ≤ length bytes
      → take (length pkt.payload) (drop (header_size pkt) bytes) ≡ pkt.payload
      → r.jb ≡ some jb
      → jb.packets ≡ some m
      → receive fl unmarshal header_size (datagram now bytes) r ≡ some r'
      → r'.jb ≡ some jb'
      → jb'.packets ≡ some m'
      → lookup k m' ≡ some held
      → header_size held ≡ header_size pkt
      → length held.payload ≡ length pkt.payload
      → held.payload ≡ pkt.payload
  unfolding reread
  held_overwritten now k bytes pkt held r r' jb jb' m m' law parses fits stands has_jb has_map runs
        has_jb' has_map' looks same_header same_length =
      elim (waits_or_shown now k bytes pkt held r r' jb jb' m m' parses has_jb has_map runs has_jb'
        has_map' looks) [
          | inl is_pkt ↦ ap (λ (p : Packet). p.payload) is_pkt
          | inr (p, shown) ↦
              let rest = drop (length bytes) r.frame in
              let frame = bytes ++ rest in
              let payload : held.payload ≡ take (length p.payload) (drop (header_size p) frame) =
                ap (λ (q : Packet). q.payload) shown in
              let header : header_size p ≡ header_size pkt =
                sym (law p (take (length p.payload) (drop (header_size p) frame)))
                ∙ sym (ap header_size shown)
                ∙ same_header in
              let own = take_own_length (length p.payload) (drop (header_size p) frame) in
              let size : length (take (length p.payload) (drop (header_size p) frame))
                  ≡ length pkt.payload =
                sym (ap length payload) ∙ same_length in
              payload
              ∙ own
              ∙ ap (λ n. take n (drop (header_size p) frame)) size
              ∙ ap (λ h. take (length pkt.payload) (drop h frame)) header
              ∙ take-drop_front (length pkt.payload) (header_size pkt) bytes rest fits
              ∙ stands
        ]
