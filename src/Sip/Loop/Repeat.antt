-- ===== src/Sip/Loop/Repeat.antt =====
-- The payloads come round in their order.
use xk6_sip_media.Prelude.{
  ℕ, zero, suc, ◌+◌, ◌-◌, ◌/◌, ◌%◌, ◌≤◌, ◌<◌, ◌≡◌, refl, sym, ap, ◌∙◌, some, List, [], ◌∷◌, ◌++◌,
  arith, inl, inr,
}
use xk6_sip_media.Prelude.{
  ltb, ltb→lt, leb→le, leb, length, take, get_elem?, length-append, length-take, Bool-cases,
}
use xk6_sip_media.Prelude.Int.{pos, quot, ◌+ℤ◌}
use native.Mathlib.Nat.{add-mod_right, mod-eq_of_lt}
use mathlib.Core.List.{append-nil, append_assoc}
use xk6_sip_media.Sip.Loop.{append_until, up_to, loop_payloads}

module _ {ℓ} {A : Type ℓ} where
  abbrev copies : ℕ → List A → List A
  copies zero ps = []
  copies (suc k) ps = ps ++ copies k ps

  copies-append : (k : ℕ) (ps : List A) → copies k ps ++ ps ≡ copies (suc k) ps
  copies-append zero ps = sym (append-nil ps)
  copies-append (suc k) ps =
      append_assoc ps (copies k ps) ps ∙ ap (λ l. ps ++ l) (copies-append k ps)

  append_until-copies :
      (fuel needed k : ℕ) (ps : List A)
      → 0 < length ps
      → needed ≤ length (copies k ps) + fuel
      → (j : ℕ) × (append_until fuel needed ps (copies k ps) ≡ copies j ps)
        × (needed ≤ length (copies j ps))
  unfolding append_until
  append_until-copies zero needed k ps h n = (k, refl, omega (arith, n))
  append_until-copies (suc fuel) needed k ps h n =
      elim (Bool-cases (leb needed (length (copies k ps)))) [
        | inl e ↦ (k, ground (arith, e), ground (arith, e))
        | inr e ↦
            let (j, f, b) =
              append_until-copies fuel needed (suc k) ps h
                (omega (arith, length-append ps (copies k ps), n, h)) in
            let g = copies-append k ps in
            let next : append_until fuel needed ps (copies k ps ++ ps) ≡ copies j ps =
              ap (λ o. append_until fuel needed ps o) g ∙ f in
            (j, ground (arith, e, next), b)
      ]

  get_elem?-left :
      (xs ys : List A) (i : ℕ) → i < length xs → get_elem? (xs ++ ys) i ≡ get_elem? xs i
  get_elem?-left [] ys i h = absurd (omega arith)
  get_elem?-left (x ∷ xs) ys zero h = refl
  get_elem?-left (x ∷ xs) ys (suc i) h = get_elem?-left xs ys i (omega arith)

  get_elem?-right :
      (xs ys : List A) (i : ℕ)
      → length xs ≤ i
      → get_elem? (xs ++ ys) i ≡ get_elem? ys (i - length xs)
  get_elem?-right [] ys i h = ap (get_elem? ys) (omega arith)
  get_elem?-right (x ∷ xs) ys zero h = absurd (omega (arith, h))
  get_elem?-right (x ∷ xs) ys (suc i) h =
      get_elem?-right xs ys i (omega arith) ∙ ap (get_elem? ys) (omega arith)

  get_elem?-copies :
      (k : ℕ) (ps : List A) (i : ℕ)
      → i < length (copies k ps)
      → get_elem? (copies k ps) i ≡ get_elem? ps (i % length ps)
  get_elem?-copies zero ps i h = absurd (omega arith)
  get_elem?-copies (suc k) ps i h = elim (Bool-cases (ltb i (length ps))) [
    | inl e ↦
        let l : i < length ps = ltb→lt i (length ps) e in
        get_elem?-left ps (copies k ps) i l ∙ ap (get_elem? ps) (sym (mod-eq_of_lt l))
    | inr e ↦
        let l : length ps ≤ i = ground (arith, e) in
        let back : i - length ps + length ps ≡ i = omega (arith, l) in
        get_elem?-right ps (copies k ps) i l
        ∙ get_elem?-copies k ps (i - length ps)
            (omega (arith, h, l, length-append ps (copies k ps)))
        ∙ ap (get_elem? ps)
            (sym (add-mod_right (i - length ps) (length ps)) ∙ ap (λ m. m % length ps) back)
  ]

  get_elem?-taken : (n : ℕ) (xs : List A) (i : ℕ) → i < n → get_elem? (take n xs) i ≡ get_elem? xs i
  get_elem?-taken zero xs i h = absurd (omega arith)
  get_elem?-taken (suc n) [] i h = refl
  get_elem?-taken (suc n) (x ∷ xs) zero h = refl
  get_elem?-taken (suc n) (x ∷ xs) (suc i) h = get_elem?-taken n xs i (omega arith)

  up_to-cycle :
      (needed : ℕ) (ps : List A)
      → 0 < length ps
      → (out : List A) × (up_to (pos needed) ps ≡ some out)
        × (length out ≡ needed)
        × ((i : ℕ) → i < length out → get_elem? out i ≡ get_elem? ps (i % length ps))
  unfolding up_to
  up_to-cycle needed ps h = elim (Bool-cases (leb needed (length ps))) [
    | inl e ↦
        let l : needed ≤ length ps = leb→le needed (length ps) e in
        let n : length (take needed ps) ≡ needed = omega (arith, length-take needed ps, l) in
        (
          take needed ps,
          ground (arith, e),
          n,
          λ i b.
              get_elem?-taken needed ps i (omega (arith, b, n))
              ∙ ap (get_elem? ps) (sym (mod-eq_of_lt (omega (arith, b, n, l)))),
        )
    | inr e ↦
        let (j, f, b) = append_until-copies needed needed 0 ps h (omega arith) in
        let all = append_until needed needed ps [] in
        let long : needed ≤ length all = omega (arith, ap length f, b) in
        let n : length (take needed all) ≡ needed = omega (arith, length-take needed all, long) in
        (
          take needed all,
          ground (arith, e),
          n,
          λ i c.
              get_elem?-taken needed all i (omega (arith, c, n))
              ∙ ap (λ l. get_elem? l i) f
              ∙ get_elem?-copies j ps i (omega (arith, c, n, b)),
        )
  ]

  -- A call that lasts plays its payloads over and over: for a duration above 0 there are ten payloads
  -- more than it has frames of 20 ms, and the i-th is the i-th of the list, counted round.
  pub loop_payloads-cycle :
      (ps : List A) (dur : ℕ)
      → 0 < length ps
      → 0 < dur
      → (out : List A) × (loop_payloads ps (pos dur) ≡ some out)
        × (length out ≡ dur / 20000000 + 10)
        × ((i : ℕ) → i < length out → get_elem? out i ≡ get_elem? ps (i % length ps))
  unfolding loop_payloads up_to quot ◌+ℤ◌
  loop_payloads-cycle ps zero h d = absurd (omega (arith, d))
  loop_payloads-cycle ps (suc dur) h d =
      let (out, e, l, cycle) = up_to-cycle (suc dur / 20000000 + 10) ps h in
      (out, ground (arith, h, e), l, cycle)
