-- ===== src/Sip/Sdp/Lines.antt =====
-- What ParseSDP makes of each line that buildSDP writes.
use xk6_sip_media.Prelude.{
  ℕ, ◌%◌, ◌^◌, ◌<◌, ◌≡◌, refl, sym, ap, ◌∙◌, false, Option, none, some, List, [], ◌∷◌, ◌++◌, map,
  arith,
}
use xk6_sip_media.Prelude.{◌==◌, Bool-cases, if_both, inl, inr, ◌>>=◌, get_elem?}
use xk6_sip_media.Prelude.NatMap.{insert}
use xk6_sip_media.Prelude.Int.{ℤ, pos}
use xk6_sip_media.Prelude.Text.{
  Str, glue, codes, is_space, trim_left, trim_right, keep_before, trim_space, has_prefix, cut,
  words, add_word, fields, itoa, atoi, upper,
}
use xk6_sip_media.Prelude.Text.Words.{
  IsWord, is_word, is_word-IsWord, Ends, word-Ends, append-Ends, trim_space-Ends, words-append,
  Without, lacks, lacks-Without, IsWord-Without_space, cut-append,
}
use xk6_sip_media.Prelude.Text.Numbers.{itoa-IsWord, itoa-nonempty, atoi-itoa}
use mathlib.Core.Path.{subst}
use mathlib.Core.List.{append-nil}
use xk6_sip_media.Sip.Call.{Direction, sendrecv, sendonly, recvonly, inactive}
use xk6_sip_media.Sip.Sdp.{
  Sdp, byte_of, connection_line, port_of, media_line, to_upper, add_codec, rtpmap_line, parse_line,
}
use xk6_sip_media.Sip.Sdp.Build.{direction_text, codec_name, clock_rate, channels}

pub itoa-Ends : (n : ℕ) → Ends (itoa n)
itoa-Ends n =
    let (c, cs, e) = itoa-nonempty n in
    subst Ends (sym e) (word-Ends c cs (subst IsWord e (itoa-IsWord n)))

pub words-IsWord : (w : Str) → IsWord w → words w ≡ (w, [])
unfolding words
words-IsWord [] h = refl
words-IsWord (c ∷ w) h = rw (words-IsWord w h.1, h.0)

-- A word, and what follows a space.
pub words-space : (w rest : Str) → IsWord w → words (w ++ b' ' ∷ rest) ≡ (w, fields rest)
unfolding words fields is_space
words-space w rest h = rw (words-append w (b' ' ∷ rest) h, append-nil w)

second_field :
    (w rest : Str)
    → IsWord w
    → Ends w
    → get_elem? (fields (codes "m=audio " ++ (w ++ b' ' ∷ rest))) 1 ≡ some w
unfolding fields words is_space add_word
second_field w rest h e =
    ap (λ t. get_elem? (codes "m=audio" ∷ add_word t.0 t.1) 1) (words-space w rest h)
    ∙ some_word w e
  where
    some_word :
        (w : Str) → Ends w → get_elem? (codes "m=audio" ∷ add_word w (fields rest)) 1 ≡ some w
    some_word [] e = cc (e.nonempty)
    some_word (x ∷ xs) e = refl

pub port_of_media :
    (port : ℕ) (rest : Str)
    → port < 2 ^ 63
    → port_of (codes "m=audio " ++ (itoa port ++ b' ' ∷ rest)) ≡ some (pos port)
unfolding port_of
port_of_media port rest b =
    ap (λ o. o >>= atoi) (second_field (itoa port) rest (itoa-IsWord port) (itoa-Ends port))
    ∙ atoi-itoa port b

-- What holds of every codec's name.
pub codec_names :
    (P : Str → Type 0)
    → P (codes "PCMA")
    → P (codes "G722")
    → P (codes "G729")
    → P (codes "opus")
    → P (codes "PCMU")
    → (pt : ℕ) → P (codec_name pt)
unfolding codec_name
codec_names P a b c d e pt =
    if_both P _ _ _ a (if_both P _ _ _ b (if_both P _ _ _ c (if_both P _ _ _ d e)))

pub rate-Ends : (pt : ℕ) → Ends (clock_rate pt ++ channels pt)
unfolding clock_rate channels is_word is_space
rate-Ends pt = elim (Bool-cases (pt == 111)) [
  | inl opus ↦ rw opus (word-Ends b'4' (codes "8000/2") (is_word-IsWord (codes "48000/2") refl))
  | inr other ↦ rw other (word-Ends b'8' (codes "000") (is_word-IsWord (codes "8000") refl))
]

-- ParseSDP on each line that buildSDP writes.
module _ (wide : ℕ → ℕ) where
  -- A line that begins with no space and ends with none.
  on_line :
      (c : ℕ) (l : Str) (s r : Sdp)
      → is_space c ≡ false
      → Ends l
      → parse_line wide (c ∷ l) s ≡ r
      → parse_line wide (trim_space (c ∷ l)) s ≡ r
  on_line c l s r f e p = ap (λ t. parse_line wide t s) (trim_space-Ends c l f e) ∙ p

  module _ (c : ℕ) (cs : Str) (h : IsWord (c ∷ cs)) where
    pub origin_line :
        (version : ℕ) (s : Sdp)
        → parse_line wide
            (trim_space
              (glue ((codes "o=k6load 0 ") ∷ (itoa version) ∷ (codes " IN IP4 ") ∷ (c ∷ cs) ∷ [])))
            s
          ≡ s
    unfolding parse_line connection_line media_line rtpmap_line has_prefix is_space
    origin_line version s =
        on_line b'o' _ s s refl
          (append-Ends (codes "=k6load 0 ") _ (
            append-Ends (itoa version) _
              (append-Ends (codes " IN IP4 ") (c ∷ cs) (word-Ends c cs h))))
          refl

    pub address_line :
        (s : Sdp)
        → parse_line wide (trim_space (glue ((codes "c=IN IP4 ") ∷ (c ∷ cs) ∷ []))) s
          ≡ record s { ip = c ∷ cs }
    unfolding parse_line connection_line media_line rtpmap_line has_prefix fields words is_space
        add_word
    address_line s =
        on_line b'c' _ s (record s { ip = c ∷ cs }) refl
          (append-Ends (codes "=IN IP4 ") (c ∷ cs) (word-Ends c cs h))
          (ap (λ t. set_ip t s) (words-IsWord (c ∷ cs) h))
      where
        set_ip : Str × List Str → Sdp → Sdp
        set_ip t s = elim (get_elem? (codes "c=IN" ∷ codes "IP4" ∷ add_word t.0 t.1) 2) [
          | none ↦ s
          | some ip ↦ record s { ip = ip }
        ]

  pub audio_line :
      (port pt : ℕ) (s : Sdp)
      → port < 2 ^ 63
      → parse_line wide
          (trim_space
            (glue ((codes "m=audio ") ∷ (itoa port) ∷ (codes " RTP/AVP ") ∷ (itoa pt) ∷ [])))
          s
        ≡ record s { port = pos port }
  unfolding parse_line connection_line media_line rtpmap_line has_prefix is_space
  audio_line port pt s b =
      on_line b'm' _ s (record s { port = pos port }) refl
        (append-Ends (codes "=audio ") _
          (append-Ends (itoa port) _ (append-Ends (codes " RTP/AVP ") (itoa pt) (itoa-Ends pt))))
        (ap (set_port s) (port_of_media port (codes "RTP/AVP " ++ itoa pt) b))
    where
      set_port : Sdp → Option ℤ → Sdp
      set_port s o = elim o [ none ↦ s | some p ↦ record s { port = p } ]

  added :
      (pt : ℕ) (s : Sdp)
      → pt < 256
      → add_codec wide (atoi (itoa pt)) (codec_name pt ++ b'/' ∷ (clock_rate pt ++ channels pt)) s
        ≡ record s { pt_map = insert pt (map upper (codec_name pt)) s.pt_map }
  unfolding add_codec byte_of lacks to_upper
  added pt s b =
      let tail = clock_rate pt ++ channels pt in
      let known : atoi (itoa pt) ≡ some (pos pt) = atoi-itoa pt (omega (arith, b)) in
      let byte : pt % 256 ≡ pt = omega (arith, b) in
      let slash : Without b'/' (codec_name pt) =
        codec_names (Without b'/') (lacks-Without b'/' (codes "PCMA") refl)
          (lacks-Without b'/' (codes "G722") refl) (lacks-Without b'/' (codes "G729") refl)
          (lacks-Without b'/' (codes "opus") refl) (lacks-Without b'/' (codes "PCMU") refl) pt in
      let raised : to_upper wide (codec_name pt) ≡ map upper (codec_name pt) =
        codec_names (λ n. to_upper wide n ≡ map upper n) refl refl refl refl refl pt in
      let named : to_upper wide (cut b'/' (codec_name pt ++ b'/' ∷ tail)).0
          ≡ map upper (codec_name pt) =
        ap (λ t. to_upper wide t.0) (cut-append b'/' (codec_name pt) tail slash) ∙ raised in
      ap (λ o. add_codec wide o (codec_name pt ++ b'/' ∷ tail) s) known
      ∙ ap
          (λ k. record s {
            pt_map = insert k (to_upper wide (cut b'/' (codec_name pt ++ b'/' ∷ tail)).0) s.pt_map;
          })
          byte
      ∙ ap (λ n. record s { pt_map = insert pt n s.pt_map }) named

  pub codec_line :
      (pt : ℕ) (s : Sdp)
      → pt < 256
      → parse_line wide
          (trim_space (
            glue (
              (codes "a=rtpmap:")
              ∷ (itoa pt)
              ∷ (codes " ")
              ∷ (codec_name pt)
              ∷ (codes "/")
              ∷ (clock_rate pt)
              ∷ (channels pt)
              ∷ [])))
          s
        ≡ record s { pt_map = insert pt (map upper (codec_name pt)) s.pt_map }
  unfolding parse_line connection_line media_line rtpmap_line has_prefix is_space
  codec_line pt s b =
      let tail = clock_rate pt ++ channels pt in
      let name = codec_name pt in
      on_line b'a' _ s _ refl
        (append-Ends (codes "=rtpmap:") _ (
          append-Ends (itoa pt) _ (
            append-Ends (codes " ") _
              (append-Ends name _ (append-Ends (codes "/") tail (rate-Ends pt))))))
        (ap (λ t. elim t.1 [ none ↦ s | some codec ↦ add_codec wide (atoi t.0) codec s ])
            (cut-append b' ' (itoa pt) (name ++ b'/' ∷ tail)
              (IsWord-Without_space (itoa pt) (itoa-IsWord pt)))
          ∙ added pt s b)

  pub direction_line :
      (d : Direction) (s : Sdp)
      → parse_line wide (trim_space (glue ((codes "a=") ∷ (direction_text d) ∷ []))) s ≡ s
  unfolding parse_line connection_line media_line rtpmap_line has_prefix trim_space trim_left
      trim_right keep_before is_space direction_text
  direction_line sendrecv s = refl
  direction_line sendonly s = refl
  direction_line recvonly s = refl
  direction_line inactive s = refl
