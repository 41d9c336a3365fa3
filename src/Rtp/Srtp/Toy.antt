-- ===== src/Rtp/Srtp/Toy.antt =====
-- Ciphers that are simple functions, for the concrete runs.
use xk6_sip_media.Prelude.{ℕ, ◌+◌, ◌*◌, ◌%◌, some, List, [], ◌∷◌, ◌++◌, replicate, length-replicate}
use xk6_sip_media.Rtp.Srtp.{Ciphers}

abbrev pub sum_mod : List ℕ → ℕ
sum_mod [] = 7
sum_mod (b ∷ bs) = (b + sum_mod bs * 3) % 256

-- Streams and tags that depend on the key, the counter and the text.
abbrev pub toy_ciphers : Ciphers
toy_ciphers = record {
  ctr_stream = λ key iv n. replicate n (sum_mod (key ++ iv));
  aes_block = λ key b. replicate 16 (sum_mod (key ++ b));
  hmac_sha1 = λ key text. replicate 20 (sum_mod (key ++ text));
  decode_base64 = λ t. some t;
  length-ctr_stream = λ key iv n. length-replicate n (sum_mod (key ++ iv));
  length-hmac_sha1 = λ key text. length-replicate 20 (sum_mod (key ++ text));
}
