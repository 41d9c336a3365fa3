-- ===== src/Rtp/Jitter/Reorder.antt =====
-- The order in which packets arrive does not show in the recording.
use xk6_sip_media.Prelude.{ℕ, zero, suc, ◌+◌, ◌≤◌, ◌≡◌, ◌≢◌, refl, sym, ap, ◌∙◌}
use xk6_sip_media.Prelude.{Option, some, List, [], ◌∷◌, ◌++◌, length, arith}
use xk6_sip_media.Prelude.{ltb, if◌then◌else◌, ◌>>=◌}
use xk6_sip_media.Prelude.Bytes.{u16}
use xk6_sip_media.Prelude.NatMap
use xk6_sip_media.Prelude.NatMap.{lookup-insert}
use xk6_sip_media.Rtp.Packet.{Packet}
use xk6_sip_media.Rtp.Jitter.{JitterBuffer, push}
use xk6_sip_media.Rtp.Jitter.Late.{push_started}
use xk6_sip_media.Rtp.Jitter.Playout.{played, Playing, ticks, ticks-played}

-- Two arrival orders of the same packets, which agree on the order of packets with the same number.
pub data Reordered : List Packet → List Packet → Type 0 where
  same : {ps : List Packet} → Reordered ps ps
  keep : {p : Packet} {ps qs : List Packet} → Reordered ps qs → Reordered (p ∷ ps) (p ∷ qs)
  swap :
      {p q : Packet} {ps : List Packet}
      → p.sequence_number ≢ q.sequence_number
      → Reordered (p ∷ q ∷ ps) (q ∷ p ∷ ps)
  trans : {ps qs rs : List Packet} → Reordered ps qs → Reordered qs rs → Reordered ps rs

unfoldable pub push_all : ℕ → List Packet → JitterBuffer → Option JitterBuffer
push_all now [] jb = some jb
push_all now (p ∷ ps) jb = push now p jb >>= push_all now ps

-- One arrival on the map of a started buffer.
abbrev arrive : ℕ → Packet → List (ℕ × Packet) → List (ℕ × Packet)
arrive next p m = if ltb p.sequence_number next then m else NatMap.insert p.sequence_number p m

stored : ℕ → List Packet → List (ℕ × Packet) → List (ℕ × Packet)
stored next [] m = m
stored next (p ∷ ps) m = stored next ps (arrive next p m)

abbrev Agree : List (ℕ × Packet) → List (ℕ × Packet) → Type 0
Agree m m' = (k : ℕ) → NatMap.lookup k m ≡ NatMap.lookup k m'

arrive-Agree :
    (next : ℕ) (p : Packet) (m m' : List (ℕ × Packet))
    → Agree m m'
    → Agree (arrive next p m) (arrive next p m')
arrive-Agree next p m m' h k =
    ground
      (arith, h k, lookup-insert p.sequence_number k p m, lookup-insert p.sequence_number k p m')

arrive_swap :
    (next : ℕ) (p q : Packet) (m : List (ℕ × Packet))
    → p.sequence_number ≢ q.sequence_number
    → Agree (arrive next q (arrive next p m)) (arrive next p (arrive next q m))
arrive_swap next p q m d k = ground (
  arith,
  lookup-insert p.sequence_number k p m,
  lookup-insert q.sequence_number k q m,
  lookup-insert q.sequence_number k q (NatMap.insert p.sequence_number p m),
  lookup-insert p.sequence_number k p (NatMap.insert q.sequence_number q m),
)

stored-Agree :
    (next : ℕ) (ps : List Packet) (m m' : List (ℕ × Packet))
    → Agree m m'
    → Agree (stored next ps m) (stored next ps m')
unfolding stored
stored-Agree next [] m m' h = h
stored-Agree next (p ∷ ps) m m' h =
    stored-Agree next ps (arrive next p m) (arrive next p m') (arrive-Agree next p m m' h)

Reordered-Agree :
    {ps qs : List Packet} (next : ℕ) (m : List (ℕ × Packet))
    → Reordered ps qs
    → Agree (stored next ps m) (stored next qs m)
unfolding stored
Reordered-Agree next m same = λ k. refl
Reordered-Agree next m (keep {p = p} r) = Reordered-Agree next (arrive next p m) r
Reordered-Agree next m (swap {p = p} {q = q} {ps = ps} d) =
    stored-Agree next ps (arrive next q (arrive next p m)) (arrive next p (arrive next q m))
      (arrive_swap next p q m d)
Reordered-Agree next m (trans r s) = λ k. Reordered-Agree next m r k ∙ Reordered-Agree next m s k

played-Agree :
    (n seq z : ℕ) (m m' : List (ℕ × Packet)) → Agree m m' → played n seq m z ≡ played n seq m' z
unfolding played
played-Agree zero seq z m m' h = refl
played-Agree (suc n) seq z m m' h = cc (h seq, played-Agree n (u16 (seq + 1)) z m m' h)

arrive-Playing :
    (jb : JitterBuffer) (m m' : List (ℕ × Packet))
    → Playing jb m
    → Playing (record jb { packets = some m' }) m'
arrive-Playing jb m m' p = record {
  is_started = p.is_started;
  not_stopped = p.not_stopped;
  past_delay = p.past_delay;
  table = refl;
  recording = p.recording;
  head = p.head;
}

push-arrive :
    (now : ℕ) (q : Packet) (jb : JitterBuffer) (m : List (ℕ × Packet))
    → Playing jb m
    → push now q jb ≡ some (record jb { packets = some (arrive jb.next_seq q m) })
push-arrive now q jb m p = ground (arith, push_started now q jb m p.is_started p.table)

push_all-stored :
    (now : ℕ) (ps : List Packet) (jb : JitterBuffer) (m : List (ℕ × Packet))
    → Playing jb m
    → push_all now ps jb ≡ some (record jb { packets = some (stored jb.next_seq ps m) })
unfolding push_all stored
push_all-stored now [] jb m p = ground arith
push_all-stored now (q ∷ ps) jb m p =
    let m' = arrive jb.next_seq q m in
    let rest =
      push_all-stored now ps (record jb { packets = some m' }) m' (arrive-Playing jb m m' p) in
    rw (push-arrive now q jb m p) rest

-- On a playing buffer: if the packets arrive in two orders that differ only by swaps of neighbours
-- with different sequence numbers, then no push panics, and up to 65536 ticks afterwards record the
-- same bytes.
pub Reordered-same_recording :
    (now : ℕ) (times : List ℕ) (ps qs : List Packet) (jb : JitterBuffer) (m : List (ℕ × Packet))
    → Playing jb m
    → Reordered ps qs
    → length times ≤ 65536
    → (a b : JitterBuffer) × ((push_all now ps jb >>= ticks times) ≡ some a)
      × ((push_all now qs jb >>= ticks times) ≡ some b)
      × (a.recorder.buf ≡ b.recorder.buf)
Reordered-same_recording now times ps qs jb m p r h =
    let sp = stored jb.next_seq ps m in
    let sq = stored jb.next_seq qs m in
    let (a, ea, ba, _) =
      ticks-played times (record jb { packets = some sp }) sp (arrive-Playing jb m sp p) h in
    let (b, eb, bb, _) =
      ticks-played times (record jb { packets = some sq }) sq (arrive-Playing jb m sq p) h in
    let agree =
      played-Agree (length times) jb.next_seq jb.silence_size sp sq
        (Reordered-Agree jb.next_seq m r) in
    (
      a,
      b,
      rw (push_all-stored now ps jb m p) ea,
      rw (push_all-stored now qs jb m p) eb,
      ba ∙ ap (λ t. jb.recorder.buf ++ t) agree ∙ sym bb,
    )
