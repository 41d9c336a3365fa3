-- ===== src/Rtp/Srtp/RoundTrip.antt =====
-- What a receiver decrypts is what the sender encrypted, on a stream with lost packets.
use mathlib.Core.List.{append_assoc}
use xk6_sip_media.Prelude.{ℕ, suc, ◌+◌, ◌-◌, ◌≤◌, ◌≡◌, true, false, some}
use xk6_sip_media.Prelude.{
  List, [], ◌∷◌, ◌++◌, length, take, drop, length-append, length-take, length-drop, ltb,
}
use xk6_sip_media.Prelude.{take-append-drop, arith, ap, ◌∙◌, sym, refl}
use xk6_sip_media.Prelude.Bits.{bit_xor_cancel}
use xk6_sip_media.Prelude.Bytes.{take_exact, drop_exact, be16_at-append, u16, be16_at}
use xk6_sip_media.Rtp.Srtp.{Ciphers, SrtpSession, ok, estimate_index, next_index}
use xk6_sip_media.Rtp.Srtp.{
  xor_stream, same_bytes, derive_iv, crypt, auth_tag, protect, encrypt_packet, decrypt_packet,
}
use xk6_sip_media.Rtp.Srtp.Index.{At, Ahead, estimate_index-At}

xor_stream_cancel : (bs ks : List ℕ) → xor_stream (xor_stream bs ks) ks ≡ bs
unfolding xor_stream
xor_stream_cancel [] ks = refl
xor_stream_cancel (b ∷ bs) [] = refl
xor_stream_cancel (b ∷ bs) (k ∷ ks) = rw (bit_xor_cancel b k, xor_stream_cancel bs ks)

length-xor_stream : (bs ks : List ℕ) → length (xor_stream bs ks) ≡ length bs
unfolding xor_stream
length-xor_stream [] ks = refl
length-xor_stream (b ∷ bs) [] = refl
length-xor_stream (b ∷ bs) (k ∷ ks) = ap suc (length-xor_stream bs ks)

same_bytes_refl : (bs : List ℕ) → same_bytes bs bs ≡ true
unfolding same_bytes
same_bytes_refl [] = refl
same_bytes_refl (b ∷ bs) = ground (arith, same_bytes_refl bs)

-- The keys that both ends derive from the same configuration.
pub record SameKeys (s r : SrtpSession) : Type 0 where
  pub salt_is : r.cfg.master_salt ≡ s.cfg.master_salt
  pub ssrc_is : r.ssrc ≡ s.ssrc
  pub enc_key_is : r.enc_key ≡ s.enc_key
  pub author_key_is : r.author_key ≡ s.author_key

pub keys-estimate_index :
    (a b : ℕ) (s r : SrtpSession)
    → SameKeys s r
    → SameKeys (estimate_index a s) (estimate_index b r)
unfolding estimate_index
keys-estimate_index a b s r h = record {
  salt_is = h.salt_is;
  ssrc_is = h.ssrc_is;
  enc_key_is = h.enc_key_is;
  author_key_is = h.author_key_is;
}

pub keys-sender : (a : ℕ) (s r : SrtpSession) → SameKeys s r → SameKeys (estimate_index a s) r
unfolding estimate_index
keys-sender a s r h = record {
  salt_is = h.salt_is;
  ssrc_is = h.ssrc_is;
  enc_key_is = h.enc_key_is;
  author_key_is = h.author_key_is;
}

module _ (cr : Ciphers) where
  length-crypt : (s : SrtpSession) (bs : List ℕ) → length (crypt cr s bs) ≡ length bs
  unfolding crypt
  length-crypt s bs = length-xor_stream bs _

  length-auth_tag : (s : SrtpSession) (text : List ℕ) → length (auth_tag cr s text) ≡ 10
  length-auth_tag s text =
      let h = cr.length-hmac_sha1 s.author_key text in
      omega (arith, length-take 10 (cr.hmac_sha1 s.author_key text), h)

  crypt_cancel :
      (s r : SrtpSession) (bs : List ℕ)
      → SameKeys s r
      → s.index ≡ r.index
      → crypt cr r (crypt cr s bs) ≡ bs
  unfolding crypt
  crypt_cancel s r bs h e =
      let ks = cr.ctr_stream s.enc_key (derive_iv s.cfg.master_salt s.ssrc s.index) (length bs) in
      rw (
        length-xor_stream bs ks,
        h.salt_is,
        h.ssrc_is,
        h.enc_key_is,
        sym e,
        xor_stream_cancel bs ks,
      )

  auth_tag_same :
      (s r : SrtpSession) (text : List ℕ) → SameKeys s r → auth_tag cr r text ≡ auth_tag cr s text
  auth_tag_same s r text h = rw (h.author_key_is)

  -- The datagram that a session makes of a packet at its current index.
  abbrev pub protected : SrtpSession → List ℕ → List ℕ
  protected s raw = let enc = take 12 raw ++ crypt cr s (drop 12 raw) in enc ++ auth_tag cr s enc

  pub encrypt_packet-long :
      (raw : List ℕ) (s : SrtpSession) (q : ℕ)
      → 12 ≤ length raw
      → be16_at raw 2 ≡ u16 q
      → let s' = estimate_index (u16 q) s in encrypt_packet cr raw s ≡ (some (protected s' raw), s')
  unfolding encrypt_packet protect next_index
  encrypt_packet-long raw s q h e = ground (arith, h, e)

  -- The parts of a datagram that a session made.
  protected-parts :
      (s : SrtpSession) (raw : List ℕ)
      → 12 ≤ length raw
      → let enc = take 12 raw ++ crypt cr s (drop 12 raw) in
        (length enc ≡ length raw)
        × (length (protected s raw) ≡ length raw + 10)
        × (be16_at (protected s raw) 2 ≡ be16_at raw 2)
        × (take (length raw) (protected s raw) ≡ enc)
        × (drop (length raw) (protected s raw) ≡ auth_tag cr s enc)
        × (take 12 (protected s raw) ≡ take 12 raw)
        × (drop 12 enc ≡ crypt cr s (drop 12 raw))
  protected-parts s raw h =
      let header = take 12 raw in
      let body = crypt cr s (drop 12 raw) in
      let enc = header ++ body in
      let tag = auth_tag cr s enc in
      let twelve : length header ≡ 12 = omega (arith, length-take 12 raw) in
      let same : length enc ≡ length raw = omega (
        arith,
        length-append header body,
        twelve,
        length-crypt s (drop 12 raw),
        length-drop 12 raw,
      ) in
      (
        same,
        omega (arith, length-append enc tag, same, length-auth_tag s enc),
        ap (λ t. be16_at t 2) (append_assoc header body tag)
            ∙ be16_at-append header (body ++ tag) (omega arith)
            ∙ sym (be16_at-append header (drop 12 raw) (omega arith))
            ∙ ap (λ t. be16_at t 2) (take-append-drop 12 raw),
        take_exact (length raw) enc tag same,
        drop_exact (length raw) enc tag same,
        ap (take 12) (append_assoc header body tag) ∙ take_exact 12 header (body ++ tag) twelve,
        drop_exact 12 header body twelve,
      )

  -- One packet: the receiver gets it back, and both ends stand at its position.
  pub decrypt-encrypt :
      (raw : List ℕ) (s r : SrtpSession) (p p' q : ℕ)
      → 12 ≤ length raw
      → be16_at raw 2 ≡ u16 q
      → SameKeys s r
      → At s p
      → Ahead p q
      → At r p'
      → Ahead p' q
      → decrypt_packet cr (protected (estimate_index (u16 q) s) raw) r
        ≡ (ok raw, estimate_index (u16 q) r)
  unfolding decrypt_packet
  decrypt-encrypt raw s r p p' q long e keys at_s ahead_s at_r ahead_r =
      let s' = estimate_index (u16 q) s in
      let r' = estimate_index (u16 q) r in
      let keys' = keys-estimate_index (u16 q) (u16 q) s r keys in
      let same_index : s'.index ≡ r'.index =
        (estimate_index-At s p q at_s ahead_s).index_is
        ∙ sym (estimate_index-At r p' q at_r ahead_r).index_is in
      let enc = take 12 raw ++ crypt cr s' (drop 12 raw) in
      let (same, size, seq, front, tag, header, body) = protected-parts s' raw long in
      let long_enough : ltb (length (protected s' raw)) 22 ≡ false = ground arith in
      let cut : length (protected s' raw) - 10 ≡ length raw = omega arith in
      rw (
        long_enough,
        seq,
        e,
        cut,
        front,
        tag,
        auth_tag_same s' r' enc keys',
        same_bytes_refl (auth_tag cr s' enc),
        header,
        body,
        crypt_cancel s' r' (drop 12 raw) keys' same_index,
        take-append-drop 12 raw,
      )
