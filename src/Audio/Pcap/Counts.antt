-- ===== src/Audio/Pcap/Counts.antt =====
-- What the frames, their offsets and the counts of the payload types are after the loop.
use xk6_sip_media.Prelude.{ℕ, ◌+◌, ◌≤◌, ◌≡◌, sym, ap, ◌∙◌, some, List, [], ◌∷◌, ◌++◌, arith}
use xk6_sip_media.Prelude.{◌==◌, if◌then◌else◌}
use xk6_sip_media.Prelude.Int.{sub_ℕ}
use xk6_sip_media.Prelude.NatMap.{lookup, lookup-insert}
use mathlib.Core.List.{append-nil, append_assoc}
use xk6_sip_media.Audio.Pcap.{PcapFrame, Capture, count_of, start_of, add_frame, dominant}
use xk6_sip_media.Audio.Pcap.Records.{add_all}

-- The frames relative to a start, and how often a payload type occurs.
abbrev pub frames_from : ℕ → List (ℕ × ℕ × List ℕ) → List PcapFrame
frames_from start [] = []
frames_from start ((now, pt, payload) ∷ fs) =
    record { payload = payload; offset_micro = sub_ℕ now start; payload_type = pt }
    ∷ frames_from start fs

unfoldable pub occurrences : ℕ → List (ℕ × ℕ × List ℕ) → ℕ
occurrences pt [] = 0
occurrences pt ((now, t, payload) ∷ fs) = (if t == pt then 1 else 0) + occurrences pt fs

pub frames-add_all :
    (fs : List (ℕ × ℕ × List ℕ)) (c : Capture) (start : ℕ)
    → c.start_micro ≡ some start
    → (add_all fs c).frames ≡ c.frames ++ frames_from start fs
unfolding add_frame
frames-add_all [] c start h = sym (append-nil c.frames)
frames-add_all ((now, pt, payload) ∷ fs) c start h =
    let begun : start_of c.start_micro now ≡ start = ap (λ s. start_of s now) h in
    let next = add_frame now (some (pt, payload)) c in
    let f : PcapFrame = record {
      payload = payload;
      offset_micro = sub_ℕ now start;
      payload_type = pt;
    } in
    frames-add_all fs next start (ap (λ s. some s) begun)
    ∙ ap
        (λ s.
          c.frames
          ++ record { payload = payload; offset_micro = sub_ℕ now s; payload_type = pt } ∷ []
          ++ frames_from start fs)
        begun
    ∙ append_assoc c.frames (f ∷ []) (frames_from start fs)

count-add_frame :
    (now t pt : ℕ) (payload : List ℕ) (c : Capture)
    → count_of pt (add_frame now (some (t, payload)) c).pt_count
      ≡ (if t == pt then 1 else 0) + count_of pt c.pt_count
unfolding add_frame
count-add_frame now t pt payload c =
    let e = lookup-insert t pt (count_of t c.pt_count + 1) c.pt_count in ground (arith, e)

pub count-add_all :
    (fs : List (ℕ × ℕ × List ℕ)) (c : Capture) (pt : ℕ)
    → count_of pt (add_all fs c).pt_count ≡ occurrences pt fs + count_of pt c.pt_count
unfolding occurrences
count-add_all [] c pt = omega arith
count-add_all ((now, t, payload) ∷ fs) c pt =
    let later = count-add_all fs (add_frame now (some (t, payload)) c) pt in
    let e = count-add_frame now t pt payload c in omega (arith, later, e)

-- The entries of a map, in the order in which it yields them.
abbrev pub AllFrom : List (ℕ × ℕ) → List (ℕ × ℕ) → Type 0
AllFrom counts [] = Unit
AllFrom counts ((pt, n) ∷ order) = (lookup pt counts ≡ some n) × AllFrom counts order

pub data Yields (pt : ℕ) : List (ℕ × ℕ) → Type 0 where
  now : (n : ℕ) (order : List (ℕ × ℕ)) → Yields pt ((pt, n) ∷ order)
  later : (k n : ℕ) (order : List (ℕ × ℕ)) → Yields pt order → Yields pt ((k, n) ∷ order)

best_grows :
    (counts order : List (ℕ × ℕ)) (best : ℕ)
    → AllFrom counts order
    → count_of best counts ≤ count_of (dominant counts order best) counts
unfolding dominant
best_grows counts [] best h = omega arith
best_grows counts ((pt, n) ∷ order) best (e, h) =
    let kept = best_grows counts order best h in
    let taken = best_grows counts order pt h in ground (arith, e, kept, taken)

pub dominant-greatest :
    (counts : List (ℕ × ℕ)) (pt : ℕ) (order : List (ℕ × ℕ)) (best : ℕ)
    → Yields pt order
    → AllFrom counts order
    → count_of pt counts ≤ count_of (dominant counts order best) counts
unfolding dominant
dominant-greatest counts pt _ best (now n order) (e, h) =
    let kept = best_grows counts order best h in
    let taken = best_grows counts order pt h in ground (arith, e, kept, taken)
dominant-greatest counts pt _ best (later k n order y) (e, h) =
    let kept = dominant-greatest counts pt order best y h in
    let taken = dominant-greatest counts pt order k y h in ground (arith, kept, taken)
