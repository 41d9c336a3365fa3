-- ===== src/K6/CsvPool/Cycle.antt =====
-- Round robin gives every row its turn.
use xk6_sip_media.Prelude.{
  ℕ, zero, suc, ◌+◌, ◌*◌, ◌%◌, ◌<◌, ◌≡◌, refl, sym, ◌∙◌, ap, Option, some, List, [], ◌∷◌, map,
  arith,
}
use xk6_sip_media.Prelude.{length, get_elem?, drop, drop-cons}
use native.Mathlib.Nat.{add-mul-mod_self_right, add_comm}
use xk6_sip_media.K6.CsvPool.{CsvRow, CredentialPool, pick_round_robin}

-- The results of `n` calls, whichever VUs make them: the counter is advanced atomically.
unfoldable pub picks : ℕ → CredentialPool → CredentialPool × List (Option CsvRow)
picks zero p = (p, [])
picks (suc n) p =
    let t = pick_round_robin p in let (last, later) = picks n t.0 in (last, t.1 ∷ later)

lt_remainder : (m n i : ℕ) → i < n → (m * n + i) % n ≡ i
lt_remainder m n i h = rw (add_comm (m * n) i, add-mul-mod_self_right i m n) (grind (arith, h))

get_elem?-drop :
    (rows : List CsvRow) (i : ℕ) (row : CsvRow) (rest : List CsvRow)
    → drop i rows ≡ row ∷ rest
    → get_elem? rows i ≡ some row
get_elem?-drop [] zero row rest e = cc
get_elem?-drop [] (suc i) row rest e = cc
get_elem?-drop (x ∷ rows) zero row rest e = cc
get_elem?-drop (x ∷ rows) (suc i) row rest e = get_elem?-drop rows i row rest e

first_taken :
    (m i : ℕ) (p : CredentialPool) (row : CsvRow)
    → i < length p.rows
    → p.counter ≡ m * length p.rows + i
    → get_elem? p.rows i ≡ some row
    → pick_round_robin p ≡ (record p { counter = p.counter + 1 }, some row)
unfolding pick_round_robin
first_taken m i p row below c e =
    let index : p.counter % length p.rows ≡ i =
      ap (λ k. k % length p.rows) c ∙ lt_remainder m (length p.rows) i below in
    let value : get_elem? p.rows (p.counter % length p.rows) ≡ some row =
      ap (get_elem? p.rows) index ∙ e in
    ground (arith, below, value)

-- The calls that are left of a cycle.
picks-rest :
    (rest : List CsvRow) (m i : ℕ) (p : CredentialPool)
    → drop i p.rows ≡ rest
    → p.counter ≡ m * length p.rows + i
    → picks (length rest) p
      ≡ (record p { counter = p.counter + length rest }, map (λ row. some row) rest)
unfolding picks
picks-rest [] m i p d c =
    let z : p.counter + 0 ≡ p.counter = omega arith in
    ap (λ k. (record p { counter = k }, [])) (sym z)
picks-rest (row ∷ rest) m i p d c =
    let (below, value, later) = drop-cons p.rows i row [] rest d in
    let q = record p { counter = p.counter + 1 } in
    let taken : pick_round_robin p ≡ (q, some row) =
      first_taken m i p row below c (get_elem?-drop p.rows i row rest d) in
    let ih = picks-rest rest m (i + 1) q later (omega (arith, c)) in
    let count : p.counter + 1 + length rest ≡ p.counter + suc (length rest) = omega arith in
    rw taken
      (rw ih (ap (λ k. (record p { counter = k }, some row ∷ map (λ row. some row) rest)) count))

-- From the start of a cycle, as many calls of PickRoundRobin as there are rows return every row
-- exactly once, in the order of the file, and end at the start of the next cycle.
pub pick_cycle :
    (m : ℕ) (p : CredentialPool)
    → p.counter ≡ m * length p.rows
    → picks (length p.rows) p
      ≡ (record p { counter = (m + 1) * length p.rows }, map (λ row. some row) p.rows)
pick_cycle m p c =
    let next : p.counter + length p.rows ≡ (m + 1) * length p.rows = omega (arith, c) in
    picks-rest p.rows m 0 p refl (omega (arith, c))
    ∙ ap (λ k. (record p { counter = k }, map (λ row. some row) p.rows)) next
