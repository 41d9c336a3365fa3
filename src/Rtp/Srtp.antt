-- ===== src/Rtp/Srtp.antt =====
-- core/rtp/srtp.go: SRTP protection of RTP packets. AES in counter mode, the AES block function and
-- HMAC-SHA1 are parameters, as is the base64 decoder.
pub mod Index
pub mod RoundTrip
pub mod Relay
pub mod Forged
pub mod Toy
mod Runs
use Prim.Native.Nat.{bit_or, bit_xor}
use xk6_sip_media.Prelude.{
  ℕ, zero, suc, ◌+◌, ◌-◌, ◌*◌, ◌/◌, ◌^◌, ◌≡◌, Bool, true, false, Option, none, some,
}
use xk6_sip_media.Prelude.{
  List, [], ◌∷◌, ◌++◌, ltb, ◌==◌, if◌then◌else◌, not, length, get_or, set, take, drop, replicate,
}
use xk6_sip_media.Prelude.Int.{negsuc, sub_ℕ, ltb_ℤ}
use xk6_sip_media.Prelude.Bytes.{u8, u16, u64, byte_at, be16_at}

-- The library functions: `ctr_stream key iv n` is the first n bytes of the key stream of AES in
-- counter mode, `aes_block key b` the encryption of one block.
pub record Ciphers : Type 0 where
  pub ctr_stream : List ℕ → List ℕ → ℕ → List ℕ
  pub aes_block : List ℕ → List ℕ → List ℕ
  pub hmac_sha1 : List ℕ → List ℕ → List ℕ
  pub decode_base64 : List ℕ → Option (List ℕ)
  pub length-ctr_stream : (key iv : List ℕ) (n : ℕ) → length (ctr_stream key iv n) ≡ n
  pub length-hmac_sha1 : (key text : List ℕ) → length (hmac_sha1 key text) ≡ 20

pub data SrtpError : Type 0 where
  key_too_short bad_base64 bad_key_length bad_salt_length packet_too_short auth_mismatch : SrtpError

pub data Result {ℓ} (A : Type ℓ) : Type ℓ where
  ok : A → Result A
  err : SrtpError → Result A

pub record SrtpConfig : Type 0 where
  pub master_key : List ℕ
  pub master_salt : List ℕ

pub record SrtpSession : Type 0 where
  pub cfg : SrtpConfig
  pub ssrc : ℕ
  pub index : ℕ
  pub last_seq : ℕ
  pub encrypt : Bool
  pub enc_key : List ℕ
  pub salt_key : List ℕ
  pub author_key : List ℕ

-- The part before a trailing "|lifetime" or "|MKI".
unfoldable pub before_pipe : List ℕ → List ℕ
before_pipe [] = []
before_pipe (c ∷ cs) = let rest = before_pipe cs in if c == b'|' then [] else c ∷ rest

-- `s.index` and `s.last_seq` after a packet with this sequence number; the new index is the result.
unfoldable pub estimate_index : ℕ → SrtpSession → SrtpSession
estimate_index seq s =
    let roc = s.index / 2 ^ 16 in
    let v =
      if ltb_ℤ (sub_ℕ seq s.last_seq) (negsuc 0x7fff)
      then bit_or (u64 ((roc + 1) * 2 ^ 16)) seq
      else bit_or (u64 (roc * 2 ^ 16)) seq in
    record s { last_seq = seq; index = v }

unfoldable pub next_index : List ℕ → SrtpSession → SrtpSession
next_index raw s = estimate_index (if ltb (length raw) 4 then 0 else be16_at raw 2) s

-- `b[i] ^= byte(v)`.
abbrev pub xor_at : ℕ → ℕ → List ℕ → List ℕ
xor_at i v b = set b i (bit_xor (byte_at b i) (u8 v))

-- A buffer of n zero bytes with `src` copied to its front.
abbrev pub copy_into_zeros : ℕ → List ℕ → List ℕ
copy_into_zeros n src = take n src ++ replicate (n - length src) 0

unfoldable pub derive_iv : List ℕ → ℕ → ℕ → List ℕ
derive_iv salt ssrc index = xor_at 13 index (
    xor_at 12 (index / 2 ^ 8) (
      xor_at 11 (index / 2 ^ 16) (
        xor_at 10 (index / 2 ^ 24) (
          xor_at 9 (index / 2 ^ 32) (
            xor_at 8 (index / 2 ^ 40) (
              xor_at 7 ssrc (
                xor_at 6 (ssrc / 2 ^ 8) (
                  xor_at 5 (ssrc / 2 ^ 16)
                    (xor_at 4 (ssrc / 2 ^ 24) (copy_into_zeros 16 salt))))))))))

-- XORKeyStream, on a stream as long as the payload.
unfoldable pub xor_stream : List ℕ → List ℕ → List ℕ
xor_stream [] ks = []
xor_stream (b ∷ bs) [] = b ∷ bs
xor_stream (b ∷ bs) (k ∷ ks) = bit_xor b k ∷ xor_stream bs ks

unfoldable pub same_bytes : List ℕ → List ℕ → Bool
same_bytes [] [] = true
same_bytes [] (c ∷ cs) = false
same_bytes (b ∷ bs) [] = false
same_bytes (b ∷ bs) (c ∷ cs) = if b == c then same_bytes bs cs else false

unfoldable pub validate_config : SrtpConfig → Option SrtpError
validate_config cfg =
    if not (length cfg.master_key == 16)
    then some bad_key_length
    else if not (length cfg.master_salt == 14)
    then some bad_salt_length
    else none

module _ (cr : Ciphers) where
  unfoldable pub parse_srtp_config : List ℕ → Result SrtpConfig
  unfolding before_pipe
  parse_srtp_config inline =
      if ltb (length inline) 7
      then err key_too_short
      else elim (cr.decode_base64 (before_pipe (drop 7 inline))) [
        | none ↦ err bad_base64
        | some raw ↦
            if not (length raw == 30)
            then err bad_key_length
            else ok (record { master_key = take 16 raw; master_salt = take 14 (drop 16 raw) })
      ]

  -- The blocks of the key derivation, from counter `i` on.
  unfoldable pub derive_segments : ℕ → ℕ → List ℕ → List ℕ → List ℕ
  derive_segments zero i master_key x = []
  derive_segments (suc segments) i master_key x =
      cr.aes_block master_key (xor_at 15 (u16 i) (xor_at 14 (u16 i / 2 ^ 8) x))
      ++ derive_segments segments (i + 1) master_key x

  unfoldable pub derive_key : List ℕ → List ℕ → ℕ → ℕ → List ℕ
  unfolding derive_segments
  derive_key master_key master_salt label size = take size (
      derive_segments ((size + 15) / 16) 0 master_key
        (xor_at 7 label (copy_into_zeros 16 master_salt)))

  unfoldable pub new_session : SrtpConfig → ℕ → Bool → Result SrtpSession
  new_session cfg ssrc encrypt = elim (validate_config cfg) [
    | some e ↦ err e
    | none ↦ ok (record {
      cfg = cfg;
      ssrc = ssrc;
      index = 0;
      last_seq = 0;
      encrypt = encrypt;
      enc_key = derive_key cfg.master_key cfg.master_salt 0x00 16;
      salt_key = derive_key cfg.master_key cfg.master_salt 0x02 14;
      author_key = derive_key cfg.master_key cfg.master_salt 0x01 20;
    })
  ]

  -- The payload xored with the key stream of the session at its current index.
  unfoldable pub crypt : SrtpSession → List ℕ → List ℕ
  crypt s payload =
      xor_stream payload
        (cr.ctr_stream s.enc_key (derive_iv s.cfg.master_salt s.ssrc s.index) (length payload))

  abbrev pub auth_tag : SrtpSession → List ℕ → List ℕ
  auth_tag s text = take 10 (cr.hmac_sha1 s.author_key text)

  -- `none` is the panic on a packet that has no complete header.
  unfoldable pub protect : List ℕ → SrtpSession → Option (List ℕ)
  protect raw s =
      if ltb (length raw) 12
      then none
      else (let enc = take 12 raw ++ crypt s (drop 12 raw) in some (enc ++ auth_tag s enc))

  unfoldable pub encrypt_packet : List ℕ → SrtpSession → Option (List ℕ) × SrtpSession
  encrypt_packet raw s = let s' = next_index raw s in (protect raw s', s')

  unfoldable pub decrypt_packet : List ℕ → SrtpSession → Result (List ℕ) × SrtpSession
  decrypt_packet srtp s =
      if ltb (length srtp) 22
      then (err packet_too_short, s)
      else (let size = length srtp - 10 in
          let s' = estimate_index (be16_at srtp 2) s in
          if not (same_bytes (auth_tag s' (take size srtp)) (drop size srtp))
          then (err auth_mismatch, s')
          else (ok (take 12 srtp ++ crypt s' (drop 12 (take size srtp))), s'))
