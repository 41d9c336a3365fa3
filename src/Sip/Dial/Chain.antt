-- ===== src/Sip/Dial/Chain.antt =====
-- sip/dial.go: the steps of Dial in their order, with what each failure closes.
use xk6_sip_media.Prelude.{
  ℕ, ◌*◌, ◌/◌, inl, inr, Bool, true, false, not, ◌&&◌, Option, none, some, List,
}
use xk6_sip_media.Prelude.{◌==◌, if◌then◌else◌, length}
use xk6_sip_media.Prelude.Text.{Str}
use xk6_sip_media.Rtp.Srtp.{
  Ciphers, SrtpConfig, SrtpSession, Result, ok, err, parse_srtp_config, new_session,
}
use xk6_sip_media.Sip.Sdp.{parse_sdp_crypto}
use xk6_sip_media.Sip.Sdp.Build.{build_sdp, build_sdp_with_srtp}
use xk6_sip_media.Sip.Dial.{
  CallConfig, Codec, Answer, refused, abandoned, answered, Outside, Resources, nothing,
  unknown_codec, no_client, no_port, no_key, bad_target, invite_failed, invite_abandoned,
  bad_remote_key, srtp_sender, srtp_receiver, Outcome, failed, cancelled, connected, choose_codec,
  load_media, bind_rtp, first_port, sdp_pt, send_pt, remote_of, event_pt, start_workers,
}

module _ (cr : Ciphers) (encode_base64 : List ℕ → Str) where
  unfoldable pub build_offer : CallConfig → Outside → ℕ → ℕ → Option (Str × Option SrtpConfig)
  build_offer c w port pt =
      if c.srtp
      then elim (build_sdp_with_srtp encode_base64 c.local_ip port pt c.direction w.random_key) [
        | none ↦ none
        | some (offer, key) ↦ some (offer, some key)
      ]
      else some (build_sdp c.local_ip port pt c.direction 0, none)

  unfoldable pub remote_key : CallConfig → Answer → Result (Option SrtpConfig)
  remote_key c a = if not c.srtp then ok none else elim a.body [
    | none ↦ ok none
    | some body ↦
        if length (parse_sdp_crypto body) == 0
        then ok none
        else elim (parse_srtp_config cr (parse_sdp_crypto body)) [
          | err e ↦ err e
          | ok key ↦ ok (some key)
        ]
  ]

  unfoldable pub session_for : Option SrtpConfig → ℕ → Bool → Result (Option SrtpSession)
  session_for none ssrc encrypt = ok none
  session_for (some key) ssrc encrypt = elim (new_session cr key ssrc encrypt) [
    | err e ↦ err e
    | ok s ↦ ok (some s)
  ]

  -- From the 200 on: the keys, the SRTP sessions and the handle. `port` is the bound one.
  unfoldable pub connect :
      CallConfig → Outside → Codec → ℕ → ℕ → Str → Option SrtpConfig → Answer → Resources → Outcome
  connect c w cod pcap_pt port offer local_key a r = elim (remote_key c a) [
    | err e ↦ failed bad_remote_key (record r { client_open = false; dialog_up = false })
    | ok key ↦ elim (session_for local_key w.ssrc true) [
      | err e ↦ failed srtp_sender (record r { conn_open = false })
      | ok sender ↦ elim (session_for key w.ssrc false) [
        | err e ↦ failed srtp_receiver (record r { conn_open = false })
        | ok receiver ↦
            connected
              (record {
                rtp_port = port;
                offer = offer;
                remote = remote_of a;
                send_pt = send_pt c cod pcap_pt a;
                ts_increment = cod.sample_rate / 1000 * 20;
                sender = sender;
                receiver = receiver;
                events = event_pt c a;
                workers = start_workers c w;
              })
              r
      ]
    ]
  ]

  -- The INVITE and what it ends in.
  unfoldable pub send_invite :
      CallConfig → Outside → Codec → ℕ → ℕ → Str → Option SrtpConfig → Resources → Outcome
  send_invite c w cod pcap_pt port offer local_key r = elim (w.invite offer) [
    | refused expired ↦
        let closed = record r { client_open = false } in
        if c.cancel_after && expired then cancelled false closed else failed invite_failed closed
    | abandoned expired ↦
        let left = record r { client_open = false; dialog_up = true } in
        if c.cancel_after && expired then cancelled true left else failed invite_abandoned left
    | answered a ↦ connect c w cod pcap_pt port offer local_key a (record r { dialog_up = true })
  ]

  -- From the bound socket on: the offer and the target.
  unfoldable pub with_port : CallConfig → Outside → Codec → ℕ → ℕ → Resources → Outcome
  with_port c w cod pcap_pt port r = elim (build_offer c w port (sdp_pt c cod pcap_pt)) [
    | none ↦ failed no_key (record r { client_open = false })
    | some (offer, local_key) ↦
        if not w.target_parses
        then failed bad_target (record r { client_open = false })
        else send_invite c w cod pcap_pt port offer local_key r
  ]

  unfoldable pub with_client : CallConfig → Outside → Codec → ℕ → Resources → Outcome
  with_client c w cod pcap_pt r = elim (bind_rtp w 5 0 (first_port c w)) [
    | none ↦ failed no_port (record r { client_open = false })
    | some port ↦ with_port c w cod pcap_pt port (record r { conn_open = true })
  ]

  -- The codec is open from here on: only the finalizer of a call that is up closes it.
  unfoldable pub with_codec : CallConfig → Outside → Codec → Resources → Outcome
  with_codec c w cod r = elim (load_media c w) [
    | inl e ↦ failed e r
    | inr (payloads, pcap_pt) ↦
        if w.new_client
        then with_client c w cod pcap_pt (record r { client_open = true })
        else failed no_client r
  ]

  unfoldable pub dial : CallConfig → Outside → Outcome
  dial c w = elim (choose_codec c w) [
    | none ↦ failed unknown_codec nothing
    | some cod ↦ with_codec c w cod (record nothing { codec_open = true })
  ]
