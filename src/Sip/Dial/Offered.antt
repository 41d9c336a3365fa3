-- ===== src/Sip/Dial/Offered.antt =====
-- How a call came about that Dial returns: its socket, its offer and the answer.
use xk6_sip_media.Prelude.{
  ℕ, zero, suc, ◌+◌, ◌%◌, ◌<◌, ◌^◌, ◌≡◌, sym, ap, ◌∙◌, true, false, Option, some, inl, inr, arith,
  List, ◌∷◌, Option-cases,
}
use xk6_sip_media.Prelude.Int.{pos}
use xk6_sip_media.Prelude.Text.{Str}
use xk6_sip_media.Prelude.Text.Words.{IsWord}
use xk6_sip_media.Rtp.Srtp.{Ciphers, SrtpConfig}
use xk6_sip_media.Sip.Sdp.{parse_sdp, with_defaults}
use xk6_sip_media.Sip.Sdp.Build.{build_sdp}
use xk6_sip_media.Sip.Sdp.RoundTrip.{parse_sdp-build_sdp}
use xk6_sip_media.Sip.Dial.{
  CallConfig, Codec, Answer, answered, choose_codec, bind_rtp, first_port, sdp_pt, Outside,
  Resources, nothing, connected, load_media, Live,
}
use xk6_sip_media.Sip.Dial.Chain.{
  build_offer, connect, send_invite, with_port, with_client, with_codec, dial,
}
use xk6_sip_media.Sip.Dial.Leftovers.{Invite-cases, sum_cases}

-- The steps behind a call that is up.
pub record Steps (cr : Ciphers) (encode_base64 : List ℕ → Str) (c : CallConfig) (w : Outside)
    (l : Live) (r : Resources) : Type 0 where
  pub cod : Codec
  pub pcap_pt : ℕ
  pub port : ℕ
  pub offer : Str
  pub key : Option SrtpConfig
  pub the_answer : Answer
  pub before : Resources
  pub payloads : List (List ℕ)
  pub chosen : choose_codec c w ≡ some cod
  pub loaded : load_media c w ≡ inr (payloads, pcap_pt)
  pub bound : bind_rtp w 5 0 (first_port c w) ≡ some port
  pub built : build_offer cr encode_base64 c w port (sdp_pt c cod pcap_pt) ≡ some (offer, key)
  pub was_accepted : w.invite offer ≡ answered the_answer
  pub finished :
      connect cr encode_base64 c w cod pcap_pt port offer key the_answer before ≡ connected l r

module _ (cr : Ciphers) (encode_base64 : List ℕ → Str) (c : CallConfig) (w : Outside) (l : Live)
    (r : Resources) where
  with_port-Steps :
      (cod : Codec) (payloads : List (List ℕ)) (pcap_pt port : ℕ) (before : Resources)
      → choose_codec c w ≡ some cod
      → load_media c w ≡ inr (payloads, pcap_pt)
      → bind_rtp w 5 0 (first_port c w) ≡ some port
      → with_port cr encode_base64 c w cod pcap_pt port before ≡ connected l r
      → Steps cr encode_base64 c w l r
  unfolding with_port send_invite
  with_port-Steps cod payloads pcap_pt port before chosen loaded bound h =
      elim (Option-cases (build_offer cr encode_base64 c w port (sdp_pt c cod pcap_pt))) [
        | inl e ↦ absurd (ground (arith, e, h))
        | inr ((offer, key), e) ↦ elim (Invite-cases (w.invite offer)) [
          | inl (expired, inl f) ↦ absurd (ground (arith, e, f, h))
          | inl (expired, inr f) ↦ absurd (ground (arith, e, f, h))
          | inr (a, f) ↦ record {
            cod = cod;
            pcap_pt = pcap_pt;
            port = port;
            offer = offer;
            key = key;
            the_answer = a;
            before = record before { dialog_up = true };
            payloads = payloads;
            chosen = chosen;
            loaded = loaded;
            bound = bound;
            built = e;
            was_accepted = f;
            finished = ground (arith, e, f, h);
          }
        ]
      ]

  pub dial-Steps : dial cr encode_base64 c w ≡ connected l r → Steps cr encode_base64 c w l r
  unfolding dial with_codec with_client
  dial-Steps h = elim (Option-cases (choose_codec c w)) [
    | inl e ↦ absurd (ground (arith, e, h))
    | inr (cod, e) ↦ elim (sum_cases (load_media c w)) [
      | inl (why, f) ↦ absurd (ground (arith, e, f, h))
      | inr ((payloads, pcap_pt), f) ↦ elim (Option-cases (bind_rtp w 5 0 (first_port c w))) [
        | inl g ↦ absurd (ground (arith, e, f, g, h))
        | inr (port, g) ↦
            with_port-Steps cod payloads pcap_pt port
              (record nothing { codec_open = true; client_open = true; conn_open = true }) e f g
              (ground (arith, e, f, g, h))
      ]
    ]
  ]

bound-by :
    (w : Outside) (left attempt port assigned : ℕ)
    → bind_rtp w left attempt port ≡ some assigned
    → (i : ℕ) × (p : ℕ) × (i < attempt + left) × (w.bind i p ≡ some assigned)
unfolding bind_rtp
bound-by w zero attempt port assigned h = absurd (ground (arith, h))
bound-by w (suc left) attempt port assigned h = elim (Option-cases (w.bind attempt port)) [
  | inr (q, e) ↦ (attempt, port, omega arith, ground (arith, e, h))
  | inl e ↦
      let (i, p, b, f) =
        bound-by w left (attempt + 1) (20000 + w.random_port (attempt + 1) % 20000) assigned
          (ground (arith, e, h)) in
      (i, p, omega (arith, b), f)
]

connected-same :
    (cr : Ciphers) (encode_base64 : List ℕ → Str) (c : CallConfig) (w : Outside) (l : Live)
    (r : Resources) (s : Steps cr encode_base64 c w l r)
    → (l.rtp_port ≡ s.port) × (l.offer ≡ s.offer)
unfolding connect
connected-same cr encode_base64 c w l r s =
    let f = s.finished in (ground (arith, f), ground (arith, f))

byte_pt :
    (c : CallConfig) (w : Outside) (cod : Codec) (payloads : List (List ℕ)) (pcap_pt : ℕ)
    → w.pcmu.payload_type < 256
    → ((cod : Codec) → w.new_codec ≡ some cod → cod.payload_type < 256)
    → ((payloads : List (List ℕ)) (pt : ℕ) → w.capture ≡ some (payloads, pt) → pt < 256)
    → choose_codec c w ≡ some cod
    → load_media c w ≡ inr (payloads, pcap_pt)
    → sdp_pt c cod pcap_pt < 256
unfolding choose_codec load_media sdp_pt
byte_pt c w cod payloads pcap_pt p q m chosen loaded =
    let a = q cod in let b = m payloads pcap_pt in ground (arith, p, a, b, chosen, loaded)

-- Where every port that the system assigns and every payload type fits its width: the offer of a
-- call without SRTP is read by ParseSDP as the local address and the port of a socket that one of
-- at most five attempts has bound, and that is the port of the call.
pub offer_is_bound :
    (wide : ℕ → ℕ) (cr : Ciphers) (encode_base64 : List ℕ → Str) (c : CallConfig) (w : Outside)
    (l : Live) (r : Resources) (k : ℕ) (ks : Str)
    → c.srtp ≡ false
    → c.local_ip ≡ k ∷ ks
    → IsWord (k ∷ ks)
    → ((i port assigned : ℕ) → w.bind i port ≡ some assigned → assigned < 2 ^ 16)
    → w.pcmu.payload_type < 256
    → ((cod : Codec) → w.new_codec ≡ some cod → cod.payload_type < 256)
    → ((payloads : List (List ℕ)) (pt : ℕ) → w.capture ≡ some (payloads, pt) → pt < 256)
    → dial cr encode_base64 c w ≡ connected l r
    → (i : ℕ) × (port : ℕ) × (i < 5)
      × (w.bind i port ≡ some l.rtp_port)
      × ((parse_sdp wide l.offer).ip ≡ c.local_ip)
      × ((parse_sdp wide l.offer).port ≡ pos l.rtp_port)
unfolding build_offer with_defaults
offer_is_bound wide cr encode_base64 c w l r k ks plain ip word fits p q m h =
    let s = dial-Steps cr encode_base64 c w l r h in
    let (same_port, same_offer) = connected-same cr encode_base64 c w l r s in
    let (i, port, b, e) = bound-by w 5 0 (first_port c w) s.port s.bound in
    let small = fits i port s.port e in
    let built = s.built in
    let pt = sdp_pt c s.cod s.pcap_pt in
    let read =
      parse_sdp-build_sdp wide k ks s.port pt c.direction 0 word (omega (arith, small))
        (byte_pt c w s.cod s.payloads s.pcap_pt p q m s.chosen s.loaded) in
    let offer : l.offer ≡ build_sdp (k ∷ ks) s.port pt c.direction 0 =
      ground (arith, plain, ip, same_offer, built) in
    (
      i,
      port,
      omega (arith, b),
      e ∙ ap (λ x. some x) (sym same_port),
      ap (λ o. (parse_sdp wide o).ip) offer ∙ ap (λ d. d.ip) read ∙ sym ip,
      ap (λ o. (parse_sdp wide o).port) offer
          ∙ ap (λ d. d.port) read
          ∙ ap (λ x. pos x) (sym same_port),
    )
