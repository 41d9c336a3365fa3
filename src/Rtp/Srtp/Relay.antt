-- ===== src/Rtp/Srtp/Relay.antt =====
-- A stream of packets from a sender session to a receiver session over a network that loses some.
use xk6_sip_media.Prelude.{
  ℕ, ◌≤◌, ◌≡◌, Bool, true, false, none, some, List, [], ◌∷◌, length, map, if◌then◌else◌, refl,
  arith,
}
use xk6_sip_media.Prelude.Bytes.{u16, be16_at}
use xk6_sip_media.Rtp.Srtp.{Ciphers, SrtpConfig, SrtpSession, Result, ok, estimate_index}
use xk6_sip_media.Rtp.Srtp.{
  new_session, derive_key, validate_config, encrypt_packet, decrypt_packet,
}
use xk6_sip_media.Rtp.Srtp.Index.{At, Ahead, estimate_index-At}
use xk6_sip_media.Rtp.Srtp.RoundTrip.{
  SameKeys, keys-sender, keys-estimate_index, encrypt_packet-long, decrypt-encrypt,
}

-- The packets that the network delivers.
unfoldable pub delivered : List (List ℕ × Bool) → List (List ℕ)
delivered [] = []
delivered ((raw, arrives) ∷ rest) =
    let later = delivered rest in if arrives then raw ∷ later else later

-- The packets are whole and are numbered by positions; a position is less than 32768 ahead of the
-- one before it and of the last one delivered.
unfoldable pub Numbered : ℕ → ℕ → List (List ℕ × Bool) → Type 0
Numbered p last [] = Unit
Numbered p last ((raw, arrives) ∷ rest) =
    (q : ℕ) × (12 ≤ length raw)
    × (be16_at raw 2 ≡ u16 q)
    × Ahead p q
    × Ahead last q
    × Numbered q (if arrives then q else last) rest

module _ (cr : Ciphers) where
  -- What the receiver makes of the datagrams that arrive.
  unfoldable pub relay : List (List ℕ × Bool) → SrtpSession → SrtpSession → List (Result (List ℕ))
  relay [] s r = []
  relay ((raw, arrives) ∷ rest) s r =
      let e = encrypt_packet cr raw s in
      elim e.0 [
        | none ↦ relay rest e.1 r
        | some srtp ↦
            (let d = decrypt_packet cr srtp r in
              let received = d.0 ∷ relay rest e.1 d.1 in
              let lost = relay rest e.1 r in if arrives then received else lost)
      ]

  relay-delivered :
      (packets : List (List ℕ × Bool)) (s r : SrtpSession) (p last : ℕ)
      → SameKeys s r
      → At s p
      → At r last
      → Numbered p last packets
      → relay packets s r ≡ map ok (delivered packets)
  unfolding relay delivered Numbered
  relay-delivered [] s r p last keys at_s at_r n = refl
  relay-delivered ((raw, true) ∷ rest) s r p last keys at_s at_r
        (q, long, e, ahead, ahead_last, n) =
      let here = decrypt-encrypt cr raw s r p last q long e keys at_s ahead at_r ahead_last in
      let later =
        relay-delivered rest (estimate_index (u16 q) s) (estimate_index (u16 q) r) q q
          (keys-estimate_index (u16 q) (u16 q) s r keys) (estimate_index-At s p q at_s ahead)
          (estimate_index-At r last q at_r ahead_last) n in
      ground (arith, encrypt_packet-long cr raw s q long e, here, later)
  relay-delivered ((raw, false) ∷ rest) s r p last keys at_s at_r
        (q, long, e, ahead, ahead_last, n) =
      let later =
        relay-delivered rest (estimate_index (u16 q) s) r q last (keys-sender (u16 q) s r keys)
          (estimate_index-At s p q at_s ahead) at_r n in
      ground (arith, encrypt_packet-long cr raw s q long e, later)

  -- A session as it is made, with its keys.
  abbrev pub fresh_session : SrtpConfig → ℕ → Bool → SrtpSession
  fresh_session cfg ssrc encrypt = record {
    cfg = cfg;
    ssrc = ssrc;
    index = 0;
    last_seq = 0;
    encrypt = encrypt;
    enc_key = derive_key cr cfg.master_key cfg.master_salt 0x00 16;
    salt_key = derive_key cr cfg.master_key cfg.master_salt 0x02 14;
    author_key = derive_key cr cfg.master_key cfg.master_salt 0x01 20;
  }

  pub new_session-fresh_session :
      (cfg : SrtpConfig) (ssrc : ℕ) (encrypt : Bool)
      → length cfg.master_key ≡ 16
      → length cfg.master_salt ≡ 14
      → new_session cr cfg ssrc encrypt ≡ ok (fresh_session cfg ssrc encrypt)
  unfolding new_session validate_config
  new_session-fresh_session cfg ssrc encrypt k l = ground arith

  pub fresh_session-At :
      (cfg : SrtpConfig) (ssrc : ℕ) (encrypt : Bool) → At (fresh_session cfg ssrc encrypt) 0
  fresh_session-At cfg ssrc encrypt = record { index_is = refl; seq_is = refl }

  pub fresh_session-SameKeys :
      (cfg : SrtpConfig) (ssrc : ℕ)
      → SameKeys (fresh_session cfg ssrc true) (fresh_session cfg ssrc false)
  fresh_session-SameKeys cfg ssrc = record {
    salt_is = refl;
    ssrc_is = refl;
    enc_key_is = refl;
    author_key_is = refl;
  }

  -- With a master key of 16 bytes and a salt of 14, both sessions can be made, and whatever packets
  -- the network loses, the receiver gets exactly the packets delivered, unchanged and in order, as
  -- long as the packets are whole and numbered by positions from 0 on, each less than 32768 ahead of
  -- the one before it and of the last one delivered. The sequence number may wrap any number of
  -- times.
  pub relay_new_sessions :
      (cfg : SrtpConfig) (ssrc : ℕ) (packets : List (List ℕ × Bool))
      → length cfg.master_key ≡ 16
      → length cfg.master_salt ≡ 14
      → Numbered 0 0 packets
      → (s : SrtpSession) × (r : SrtpSession) × (new_session cr cfg ssrc true ≡ ok s)
        × (new_session cr cfg ssrc false ≡ ok r)
        × (relay packets s r ≡ map ok (delivered packets))
  relay_new_sessions cfg ssrc packets k l n = (
    fresh_session cfg ssrc true,
    fresh_session cfg ssrc false,
    new_session-fresh_session cfg ssrc true k l,
    new_session-fresh_session cfg ssrc false k l,
    relay-delivered packets (fresh_session cfg ssrc true) (fresh_session cfg ssrc false) 0 0
        (fresh_session-SameKeys cfg ssrc) (fresh_session-At cfg ssrc true)
        (fresh_session-At cfg ssrc false) n,
  )
