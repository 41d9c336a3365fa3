-- ===== src/Rtp/Jitter/Flush.antt =====
-- What happens to the packets that are left when the buffer is closed.
use xk6_sip_media.Prelude.{ℕ, ◌≤◌, ◌≡◌, ◌≢◌, refl, ap, ◌∙◌, true, false}
use xk6_sip_media.Prelude.{none, some, List, [], ◌∷◌, ◌++◌, All, arith}
use xk6_sip_media.Prelude.{leb, ◌==◌, inl, inr, Bool-cases, Option-cases}
use xk6_sip_media.Prelude.NatMap
use xk6_sip_media.Rtp.Packet.{Packet}
use xk6_sip_media.Rtp.Recorder.{AudioRecorder, write}
use xk6_sip_media.Rtp.Recorder.Open.{IsOpen, write-IsOpen, write_closed}
use xk6_sip_media.Rtp.Jitter.{JitterBuffer, distance, insert_by_distance, sort_by_distance}
use xk6_sip_media.Rtp.Jitter.{write_seqs, flush, tick}
use xk6_sip_media.Rtp.Jitter.Playout.{frame}
use mathlib.Core.List.{append-nil, append_assoc, Perm}
use mathlib.Core.List.Perm

-- Sorted by distance from the playout head.
abbrev pub InOrder : ℕ → List ℕ → Type 0
InOrder next [] = Unit
InOrder next (s ∷ rest) = All (λ t. distance next s ≤ distance next t) rest × InOrder next rest

-- The payloads of these packets, one after the other.
abbrev pub payloads : List ℕ → List (ℕ × Packet) → List ℕ
payloads [] m = []
payloads (s ∷ rest) m = frame (NatMap.lookup s m) 0 ++ payloads rest m

All-insert {κ} :
    (P : ℕ → Type κ) (next s : ℕ) (l : List ℕ) → P s → All P l → All P (insert_by_distance next s l)
unfolding insert_by_distance
All-insert P next s [] h a = (h, a)
All-insert P next s (t ∷ rest) h a = elim (Bool-cases (leb (distance next s) (distance next t))) [
  | inl e ↦ rw e (h, a)
  | inr e ↦ rw e (a.0, All-insert P next s rest h a.1)
]

All-sort {κ} : (P : ℕ → Type κ) (next : ℕ) (l : List ℕ) → All P l → All P (sort_by_distance next l)
unfolding sort_by_distance
All-sort P next [] a = a
All-sort P next (s ∷ rest) a =
    All-insert P next s (sort_by_distance next rest) a.0 (All-sort P next rest a.1)

All-le_trans :
    (next s t : ℕ) (l : List ℕ)
    → distance next s ≤ distance next t
    → All (λ u. distance next t ≤ distance next u) l
    → All (λ u. distance next s ≤ distance next u) l
All-le_trans next s t [] h a = a
All-le_trans next s t (u ∷ rest) h a = (omega arith, All-le_trans next s t rest h a.1)

insert-InOrder :
    (next s : ℕ) (l : List ℕ) → InOrder next l → InOrder next (insert_by_distance next s l)
unfolding insert_by_distance
insert-InOrder next s [] h = (tt, tt)
insert-InOrder next s (t ∷ rest) h = elim (Bool-cases (leb (distance next s) (distance next t))) [
  | inl e ↦ rw e ((ground arith, All-le_trans next s t rest (ground arith) h.0), h)
  | inr e ↦ rw e (
    All-insert (λ u. distance next t ≤ distance next u) next s rest (ground arith) h.0,
    insert-InOrder next s rest h.1,
  )
]

sort-InOrder : (next : ℕ) (l : List ℕ) → InOrder next (sort_by_distance next l)
unfolding sort_by_distance
sort-InOrder next [] = tt
sort-InOrder next (s ∷ rest) =
    insert-InOrder next s (sort_by_distance next rest) (sort-InOrder next rest)

insert-perm : (next s : ℕ) (l : List ℕ) → Perm (insert_by_distance next s l) (s ∷ l)
unfolding insert_by_distance
insert-perm next s [] = Perm.refl _
insert-perm next s (t ∷ rest) = elim (Bool-cases (leb (distance next s) (distance next t))) [
  | inl e ↦ rw e (Perm.refl _)
  | inr e ↦ rw e (Perm.trans (Perm.cons t (insert-perm next s rest)) (Perm.swap s t rest))
]

sort-perm : (next : ℕ) (l : List ℕ) → Perm (sort_by_distance next l) l
unfolding sort_by_distance
sort-perm next [] = Perm.refl []
sort-perm next (s ∷ rest) =
    Perm.trans (insert-perm next s (sort_by_distance next rest)) (Perm.cons s (sort-perm next rest))

abbrev Stored : List (ℕ × Packet) → ℕ → Type 0
Stored m s = (pkt : Packet) × (NatMap.lookup s m ≡ some pkt)

Stored-cons :
    (k : ℕ) (pkt : Packet) (m : List (ℕ × Packet)) (l : List ℕ)
    → All (Stored m) l
    → All (Stored ((k, pkt) ∷ m)) l
Stored-cons k pkt m [] a = a
Stored-cons k pkt m (s ∷ rest) ((q, e), a) = (head, Stored-cons k pkt m rest a)
  where
    head : Stored ((k, pkt) ∷ m) s
    head = elim (Bool-cases (k == s)) [
      | inl y ↦ (pkt, unfold NatMap.lookup in rw y)
      | inr n ↦ (q, unfold NatMap.lookup in rw n e)
    ]

keys-Stored : (m : List (ℕ × Packet)) → All (Stored m) (NatMap.keys m)
unfolding NatMap.keys
keys-Stored [] = tt
keys-Stored ((k, pkt) ∷ m) = (
  (pkt, unfold NatMap.lookup in ground arith),
  Stored-cons k pkt m (NatMap.keys m) (keys-Stored m),
)

write_seqs-payloads :
    (l : List ℕ) (m : List (ℕ × Packet)) (r : AudioRecorder)
    → All (Stored m) l
    → IsOpen r
    → (r' : AudioRecorder) × (write_seqs l m r ≡ some r') × (r'.buf ≡ r.buf ++ payloads l m)
unfolding write_seqs
write_seqs-payloads [] m r a h = (r, refl, rw append-nil)
write_seqs-payloads (s ∷ rest) m r ((pkt, e), a) h =
    let (r', e', b, h') = write-IsOpen pkt.payload r h in
    let (r'', e'', b') = write_seqs-payloads rest m r' a h' in
    (
      r'',
      rw (e, e') e'',
      rw e (
          b' ∙ ap (λ t. t ++ payloads rest m) b ∙ append_assoc r.buf pkt.payload (payloads rest m)),
    )

-- The tick after Close, on a buffer whose recorder is open, writes the payload of every packet that
-- is left exactly once, in the order of their circular distance from the playout head, leaves no
-- packet behind and asks to be removed.
pub flush-InOrder :
    (now : ℕ) (jb : JitterBuffer) (m : List (ℕ × Packet))
    → jb.stopped ≡ true
    → jb.packets ≡ some m
    → IsOpen jb.recorder
    → (order : List ℕ) × (jb' : JitterBuffer) × Perm order (NatMap.keys m)
      × InOrder jb.next_seq order
      × (tick now jb ≡ some (jb', false))
      × (jb'.recorder.buf ≡ jb.recorder.buf ++ payloads order m)
      × (jb'.packets ≡ none)
unfolding tick flush
flush-InOrder now jb m s e h =
    let order = sort_by_distance jb.next_seq (NatMap.keys m) in
    let stored = All-sort (Stored m) jb.next_seq (NatMap.keys m) (keys-Stored m) in
    let (r, w, b) = write_seqs-payloads order m jb.recorder stored h in
    (
      order,
      record jb { recorder = r; packets = none },
      sort-perm jb.next_seq (NatMap.keys m),
      sort-InOrder jb.next_seq (NatMap.keys m),
      ground arith,
      b,
      refl,
    )

write_full :
    (payload : List ℕ) (r : AudioRecorder)
    → payload ≢ []
    → r.has_file ≡ true
    → r.closed ≡ true
    → write payload r ≡ none
write_full [] r h f c = absurd (h refl)
write_full (b ∷ bs) r h f c = write_closed b bs r f c

write_seqs_closed :
    (s : ℕ) (l : List ℕ) (m : List (ℕ × Packet)) (r : AudioRecorder)
    → ((k : ℕ) (pkt : Packet) → NatMap.lookup k m ≡ some pkt → pkt.payload ≢ [])
    → r.has_file ≡ true
    → r.closed ≡ true
    → write_seqs (s ∷ l) m r ≡ none
unfolding write_seqs
write_seqs_closed s l m r full f c = elim (Option-cases (NatMap.lookup s m)) [
  | inl missing ↦ rw missing
  | inr (pkt, e) ↦ rw (e, write_full pkt.payload r (full s pkt e) f c)
]

insert-cons :
    (next s : ℕ) (l : List ℕ) → (t : ℕ) × (rest : List ℕ) × (insert_by_distance next s l ≡ t ∷ rest)
unfolding insert_by_distance
insert-cons next s [] = (s, [], refl)
insert-cons next s (t ∷ rest) = elim (Bool-cases (leb (distance next s) (distance next t))) [
  | inl e ↦ (s, t ∷ rest, rw e)
  | inr e ↦ (t, insert_by_distance next s rest, rw e)
]

sort_ne_nil :
    (next k : ℕ) (l : List ℕ)
    → (t : ℕ) × (rest : List ℕ) × (sort_by_distance next (k ∷ l) ≡ t ∷ rest)
unfolding sort_by_distance
sort_ne_nil next k l = insert-cons next k (sort_by_distance next l)

-- If the recorder of a call with a file is closed before the flush, and a packet with a payload is
-- left (the receiver stores no other), then the flush panics: it sends on a closed channel.
pub flush_after_close_panics :
    (now k : ℕ) (pkt : Packet) (m : List (ℕ × Packet)) (jb : JitterBuffer)
    → jb.stopped ≡ true
    → jb.packets ≡ some ((k, pkt) ∷ m)
    → ((j : ℕ) (q : Packet) → NatMap.lookup j ((k, pkt) ∷ m) ≡ some q → q.payload ≢ [])
    → jb.recorder.has_file ≡ true
    → jb.recorder.closed ≡ true
    → tick now jb ≡ none
unfolding tick flush NatMap.keys
flush_after_close_panics now k pkt m jb s e full f c =
    let left = (k, pkt) ∷ m in
    let (t, rest, o) = sort_ne_nil jb.next_seq k (NatMap.keys m) in
    ground (arith, write_seqs_closed t rest left jb.recorder full f c, o)
