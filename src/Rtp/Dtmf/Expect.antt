-- ===== src/Rtp/Dtmf/Expect.antt =====
-- `matches_expected` decides the subsequence relation.
use xk6_sip_media.Prelude.{ℕ, suc, ◌+◌, ◌≡◌, ◌≢◌, ◌↔◌, refl, true, false, arith}
use xk6_sip_media.Prelude.{List, [], ◌∷◌, length, drop, ◌==◌, if◌then◌else◌, Bool-cases, inl, inr}
use xk6_sip_media.Prelude.{drop-cons, drop-nil}
use xk6_sip_media.Rtp.Dtmf.{same_string, match_from, matches_expected, DtmfCollector}

pub same_string_iff : (s t : List ℕ) → (same_string s t ≡ true) ↔ (s ≡ t)
unfolding same_string
same_string_iff [] [] = ground arith
same_string_iff [] (d ∷ ds) = ground arith
same_string_iff (c ∷ cs) [] = ground arith
same_string_iff (c ∷ cs) (d ∷ ds) = ground (arith, same_string_iff cs ds)

-- The first list is obtained from the second by leaving elements out.
pub data Subsequence : List (List ℕ) → List (List ℕ) → Type 0 where
  done : {ds : List (List ℕ)} → Subsequence [] ds
  take_it : {d : List ℕ} {es ds : List (List ℕ)} → Subsequence es ds → Subsequence (d ∷ es) (d ∷ ds)
  skip : {d : List ℕ} {es ds : List (List ℕ)} → Subsequence es ds → Subsequence es (d ∷ ds)

Subsequence-tail :
    {e : List ℕ} {es ds : List (List ℕ)} → Subsequence (e ∷ es) ds → Subsequence es ds
Subsequence-tail (take_it s) = skip s
Subsequence-tail (skip s) = skip (Subsequence-tail s)

-- Whatever the heads are, the tails are in the relation.
Subsequence-tails :
    {e d : List ℕ} {es ds : List (List ℕ)} → Subsequence (e ∷ es) (d ∷ ds) → Subsequence es ds
Subsequence-tails (take_it s) = s
Subsequence-tails (skip s) = Subsequence-tail s

Subsequence-ne :
    {e d : List ℕ} {es ds : List (List ℕ)}
    → Subsequence (e ∷ es) (d ∷ ds)
    → d ≢ e
    → Subsequence (e ∷ es) ds
Subsequence-ne (take_it s) h = absurd (h refl)
Subsequence-ne (skip s) h = s

-- One round of the walk, at an index whose digit is `e`.
match_from_step :
    (expected : List (List ℕ)) (ei : ℕ) (e d : List ℕ) (es got : List (List ℕ))
    → drop ei expected ≡ e ∷ es
    → match_from expected ei (d ∷ got) ≡ (
        if same_string d e
        then (if ei + 1 == length expected then true else match_from expected (ei + 1) got)
        else match_from expected ei got)
unfolding match_from
match_from_step expected ei e d es got h = ground (arith, drop-cons expected ei e [] es h)

-- After a digit that fits: either it was the last one expected, or the walk goes on.
after_match :
    (got expected : List (List ℕ)) (ei : ℕ) (e d : List ℕ) (es : List (List ℕ))
    → d ≡ e
    → drop ei expected ≡ e ∷ es
    → ((e' : List ℕ) (es' : List (List ℕ))
        → drop (ei + 1) expected ≡ e' ∷ es'
        → (match_from expected (ei + 1) got ≡ true) ↔ Subsequence (e' ∷ es') got)
    → ((if ei + 1 == length expected then true else match_from expected (ei + 1) got) ≡ true)
      ↔ Subsequence (e ∷ es) (d ∷ got)
after_match got expected ei e d [] q h ih =
    let (a, _, c) = drop-cons expected ei e [] [] h in
    let last : (ei + 1 == length expected) ≡ true = ground (arith, drop-nil expected (ei + 1) c) in
    rw (last, q) ((λ _. take_it done), (λ _. refl))
after_match got expected ei e d (e' ∷ es') q h ih =
    let (_, _, c) = drop-cons expected ei e [] (e' ∷ es') h in
    let (b, _, _) = drop-cons expected (ei + 1) e' [] es' c in
    let more : (ei + 1 == length expected) ≡ false = ground arith in
    let r = ih e' es' c in rw (more, q) ((λ t. take_it (r.0 t)), (λ s. r.1 (Subsequence-tails s)))

Subsequence-nil : {e : List ℕ} {es : List (List ℕ)} → Subsequence (e ∷ es) [] → ⊥
Subsequence-nil s = elim s [ ]

match_from-Subsequence :
    (got expected : List (List ℕ)) (ei : ℕ) (e : List ℕ) (es : List (List ℕ))
    → drop ei expected ≡ e ∷ es
    → (match_from expected ei got ≡ true) ↔ Subsequence (e ∷ es) got
match_from-Subsequence [] expected ei e es h =
    unfold match_from in ((λ t. absurd (cc)), (λ s. absurd (Subsequence-nil s)))
match_from-Subsequence (d ∷ got) expected ei e es h =
    rw (match_from_step expected ei e d es got h) (elim (Bool-cases (same_string d e)) [
      | inr differ ↦
          let ih = match_from-Subsequence got expected ei e es h in
          rw differ (
            (λ t. skip (ih.0 t)),
            (λ s. ih.1 (Subsequence-ne s (λ q. cc ((same_string_iff d e).1 q, differ)))),
          )
      | inl agree ↦ rw agree (
          after_match got expected ei e d es ((same_string_iff d e).0 agree) h
            (λ e' es'. match_from-Subsequence got expected (ei + 1) e' es'))
    ])

-- Over any collector, MatchesExpected returns true exactly if the expected digits are a subsequence
-- of the digits collected; in particular always when none is expected.
pub matches_expected_iff :
    (expected : List (List ℕ)) (c : DtmfCollector)
    → (matches_expected expected c ≡ true) ↔ Subsequence expected c.digits
unfolding matches_expected
matches_expected_iff [] c = ((λ _. done), (λ _. refl))
matches_expected_iff (e ∷ es) c =
    let some_digit : (suc (length es) == 0) ≡ false = ground arith in
    rw some_digit (match_from-Subsequence c.digits (e ∷ es) 0 e es refl)
