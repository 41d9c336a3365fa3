-- ===== src/Sip/Dial/Unheard.antt =====
-- What Dial makes of the SRTP key in the answer of a party that writes it as this program does.
use xk6_sip_media.Prelude.{
  ℕ, ◌^◌, ◌<◌, ◌≡◌, ap, ◌∙◌, true, none, some, inl, inr, arith, List, [], ◌∷◌, Option-cases, length,
}
use xk6_sip_media.Prelude.Text.{Str}
use xk6_sip_media.Prelude.Text.Words.{IsWord}
use xk6_sip_media.Rtp.Srtp.{Ciphers, SrtpConfig, SrtpSession, before_pipe}
use xk6_sip_media.Sip.Call.{Direction}
use xk6_sip_media.Sip.Sdp.{parse_sdp_crypto}
use xk6_sip_media.Sip.Sdp.Build.{build_sdp_with_srtp}
use xk6_sip_media.Sip.Sdp.Crypto.{crypto_not_found}
use xk6_sip_media.Sip.Dial.{CallConfig, Answer, Outside, Resources, connected, Live, answered}
use xk6_sip_media.Sip.Dial.Chain.{build_offer, remote_key, session_for, connect, dial}
use xk6_sip_media.Sip.Dial.Offered.{Steps, dial-Steps}

module _ (cr : Ciphers) (encode_base64 : List ℕ → Str) (c : CallConfig) (w : Outside) (l : Live)
    (r : Resources) where
  no_receiver :
      (s : Steps cr encode_base64 c w l r) (body : Str)
      → s.the_answer.body ≡ some body
      → parse_sdp_crypto body ≡ []
      → l.receiver ≡ none
  unfolding connect remote_key session_for
  no_receiver s body e f = let g = s.finished in ground (arith, e, f, g)

  some_sender :
      (s : Steps cr encode_base64 c w l r)
      → c.srtp ≡ true
      → (session : SrtpSession) × (l.sender ≡ some session)
  unfolding connect session_for build_offer build_sdp_with_srtp
  some_sender s e =
      let g = s.finished in
      let b = s.built in
      elim (Option-cases l.sender) [
        | inl f ↦ absurd (ground (arith, e, f, g, b))
        | inr found ↦ found
      ]

  -- If every answer comes from a party that writes its key with BuildSDPWithSRTP, a call with SRTP
  -- that Dial returns sends through an SRTP session, but has none to receive with: its receive loop
  -- is the one for plain RTP.
  pub srtp_unheard :
      (encode : List ℕ → Str) (k : ℕ) (ks : Str) (port pt : ℕ) (d : Direction) (key : List ℕ)
      (t : ℕ) (text : Str) (body : Str) (cfg : SrtpConfig)
      → c.srtp ≡ true
      → ((offer : Str) (a : Answer) → w.invite offer ≡ answered a → a.body ≡ some body)
      → build_sdp_with_srtp encode (k ∷ ks) port pt d (some key) ≡ some (body, cfg)
      → IsWord (k ∷ ks)
      → port < 2 ^ 63
      → length key ≡ 30
      → encode key ≡ t ∷ text
      → IsWord (t ∷ text)
      → before_pipe (t ∷ text) ≡ t ∷ text
      → cr.decode_base64 (t ∷ text) ≡ some key
      → dial cr encode_base64 c w ≡ connected l r
      → (session : SrtpSession) × (l.sender ≡ some session) × (l.receiver ≡ none)
  srtp_unheard encode k ks port pt d key t text body cfg on answers written address b n encoded word
        pipe decoded h =
      let s = dial-Steps cr encode_base64 c w l r h in
      let (body', cfg', written', made, found, savp, no_key, profile) =
        crypto_not_found cr encode k ks port pt d key t text address b n encoded word pipe
          decoded in
      let same_body : body ≡ body' = ground (arith, written, written') in
      let (session, sends) = some_sender s on in
      (
        session,
        sends,
        no_receiver s body (answers s.offer s.the_answer s.was_accepted)
            (ap parse_sdp_crypto same_body ∙ no_key),
      )
