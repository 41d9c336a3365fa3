-- ===== src/Sip/Dial/Leftovers.antt =====
-- What Dial leaves open, on every path.
use xk6_sip_media.Prelude.{
  ℕ, ◌≡◌, refl, Bool, true, false, Option, ◌⊎◌, inl, inr, arith, List, Option-cases,
}
use xk6_sip_media.Prelude.Text.{Str}
use xk6_sip_media.Rtp.Srtp.{Ciphers, SrtpConfig}
use xk6_sip_media.Sip.Dial.{
  CallConfig, Codec, Answer, Invite, refused, abandoned, answered, choose_codec, bind_rtp,
  first_port, sdp_pt, Outside, Resources, nothing, DialError, unknown_codec, no_key, bad_target,
  invite_failed, invite_abandoned, bad_remote_key, srtp_sender, srtp_receiver, Outcome, failed,
  cancelled, connected, load_media,
}
use xk6_sip_media.Sip.Dial.Chain.{
  build_offer, connect, send_invite, with_port, with_client, with_codec, dial,
}

abbrev pub left_open : Outcome → Resources
left_open (failed e r) = r
left_open (cancelled in_dialog r) = r
left_open (connected l r) = r

abbrev only_codec : Resources
only_codec = record nothing { codec_open = true }

abbrev and_conn : Resources
and_conn = record only_codec { conn_open = true }

abbrev but_conn : Resources
but_conn = record { codec_open = true; client_open = true; conn_open = false; dialog_up = true }

-- What each error leaves open: nothing without a codec, then the codec, from the bind on also the
-- socket, after the 200 to the INVITE also the dialog, and at the end all but the socket.
abbrev pub left_by : DialError → Resources
left_by unknown_codec = nothing
left_by no_key = and_conn
left_by bad_target = and_conn
left_by invite_failed = and_conn
left_by invite_abandoned = record and_conn { dialog_up = true }
left_by bad_remote_key = and_conn
left_by srtp_sender = but_conn
left_by srtp_receiver = but_conn
left_by early = only_codec

abbrev pub expected : Outcome → Resources
expected (failed e r) = left_by e
expected (cancelled in_dialog r) = record and_conn { dialog_up = in_dialog }
expected (connected l r) = record {
  codec_open = true;
  client_open = true;
  conn_open = true;
  dialog_up = true;
}

pub Invite-cases :
    (i : Invite)
    → ((e : Bool) × ((i ≡ refused e) ⊎ (i ≡ abandoned e))) ⊎ ((a : Answer) × (i ≡ answered a))
Invite-cases (refused e) = inl (e, inl refl)
Invite-cases (abandoned e) = inl (e, inr refl)
Invite-cases (answered a) = inr (a, refl)

pub sum_cases {ℓ κ} :
    {A : Type ℓ} {B : Type κ} (s : A ⊎ B) → ((a : A) × (s ≡ inl a)) ⊎ ((b : B) × (s ≡ inr b))
sum_cases (inl a) = inl (a, refl)
sum_cases (inr b) = inr (b, refl)

module _ (cr : Ciphers) (encode_base64 : List ℕ → Str) (c : CallConfig) (w : Outside) where
  connect-left :
      (cod : Codec) (pcap_pt port : ℕ) (offer : Str) (key : Option SrtpConfig) (a : Answer)
      → let o =
          connect cr encode_base64 c w cod pcap_pt port offer key a (record {
            codec_open = true;
            client_open = true;
            conn_open = true;
            dialog_up = true;
          }) in
        left_open o ≡ expected o
  unfolding connect
  connect-left cod pcap_pt port offer key a = ground arith

  send_invite-left :
      (cod : Codec) (pcap_pt port : ℕ) (offer : Str) (key : Option SrtpConfig)
      → let o =
          send_invite cr encode_base64 c w cod pcap_pt port offer key (record {
            codec_open = true;
            client_open = true;
            conn_open = true;
            dialog_up = false;
          }) in
        left_open o ≡ expected o
  unfolding send_invite
  send_invite-left cod pcap_pt port offer key = elim (Invite-cases (w.invite offer)) [
    | inl (expired, inl e) ↦ ground (arith, e)
    | inl (expired, inr e) ↦ ground (arith, e)
    | inr (a, e) ↦ let next = connect-left cod pcap_pt port offer key a in ground (arith, e, next)
  ]

  with_port-left :
      (cod : Codec) (pcap_pt port : ℕ)
      → let o =
          with_port cr encode_base64 c w cod pcap_pt port (record {
            codec_open = true;
            client_open = true;
            conn_open = true;
            dialog_up = false;
          }) in
        left_open o ≡ expected o
  unfolding with_port
  with_port-left cod pcap_pt port =
      elim (Option-cases (build_offer cr encode_base64 c w port (sdp_pt c cod pcap_pt))) [
        | inl e ↦ ground (arith, e)
        | inr ((offer, key), e) ↦
            let next = send_invite-left cod pcap_pt port offer key in ground (arith, e, next)
      ]

  with_client-left :
      (cod : Codec) (pcap_pt : ℕ)
      → let o =
          with_client cr encode_base64 c w cod pcap_pt (record only_codec { client_open = true }) in
        left_open o ≡ expected o
  unfolding with_client
  with_client-left cod pcap_pt = elim (Option-cases (bind_rtp w 5 0 (first_port c w))) [
    | inl e ↦ ground (arith, e)
    | inr (port, e) ↦ let next = with_port-left cod pcap_pt port in ground (arith, e, next)
  ]

  media_left : (e : DialError) → load_media c w ≡ inl e → left_by e ≡ only_codec
  unfolding load_media
  media_left e h = ground (arith, h)

  with_codec-left :
      (cod : Codec)
      → let o = with_codec cr encode_base64 c w cod only_codec in left_open o ≡ expected o
  unfolding with_codec
  with_codec-left cod = elim (sum_cases (load_media c w)) [
    | inl (why, e) ↦ let left = media_left why e in ground (arith, e, left)
    | inr ((payloads, pcap_pt), e) ↦
        let next = with_client-left cod pcap_pt in ground (arith, e, next)
  ]

  -- On every path through Dial, which of the codec, the client, the socket and the dialog is left
  -- open is what `expected` says of its outcome: an unknown codec leaves none of them, any other
  -- error the codec, from the bind on also the socket; an INVITE that fails after its 200 leaves the
  -- dialog up as well; an error of an SRTP session closes the socket but leaves the client and the
  -- dialog; a cancelled INVITE leaves what a failed one does; and a call that is up has all four.
  pub dial-left_open : left_open (dial cr encode_base64 c w) ≡ expected (dial cr encode_base64 c w)
  unfolding dial
  dial-left_open = elim (Option-cases (choose_codec c w)) [
    | inl e ↦ ground (arith, e)
    | inr (cod, e) ↦ let next = with_codec-left cod in ground (arith, e, next)
  ]
