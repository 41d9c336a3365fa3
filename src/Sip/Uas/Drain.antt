-- ===== src/Sip/Uas/Drain.antt =====
-- Every handler ends once the user agent is stopped.
use xk6_sip_media.Prelude.{
  zero, List, sym, ◌∷◌, [], ℕ, suc, ◌≡◌, refl, ◌⊎◌, ◌∙◌, ap, Bool, true, false, not, ◌&&◌, some,
  arith,
}
use xk6_sip_media.Prelude.{
  ltb, leb, ◌==◌, if◌then◌else◌, Bool-cases, inl, inr, get_elem?, set, get_elem?-set_self,
  replicate,
}
use xk6_sip_media.Sip.Uas.{
  RegisteredUas, Leg, Stage, arrived, admitted, offering, up, stopping, ending, leaving, gone,
}
use xk6_sip_media.Sip.Uas.{
  move, respond, put, admit, prepare, answer, wake, report, forget, release, advance_leg, advance,
  advances, step, run,
}
use xk6_sip_media.Sip.Uas.Legs.{advance_at, get_elem?-lt}

-- Leg `i` can reach its end by its own segments, while all other legs stay as they are.
abbrev pub Ends : ℕ → RegisteredUas → Type 0
Ends i u =
    (n : ℕ) × (u' : RegisteredUas) × (last : Leg) × (run (replicate n (advances i)) u ≡ some u')
    × (u'.legs ≡ set u.legs i last)
    × (last.stage ≡ gone)

set-set : (legs : List Leg) (i : ℕ) (a b : Leg) → set (set legs i a) i b ≡ set legs i b
set-set [] i a b = refl
set-set (x ∷ legs) zero a b = refl
set-set (x ∷ legs) (suc i) a b = ap (λ later. x ∷ later) (set-set legs i a b)

set-get_elem? :
    (legs : List Leg) (i : ℕ) (leg : Leg) → get_elem? legs i ≡ some leg → set legs i leg ≡ legs
set-get_elem? [] i leg e = refl
set-get_elem? (x ∷ legs) zero leg e = cc
set-get_elem? (x ∷ legs) (suc i) leg e = ap (λ later. x ∷ later) (set-get_elem? legs i leg e)

-- One segment more in front.
Ends-after :
    (i : ℕ) (leg new : Leg) (u v : RegisteredUas)
    → get_elem? u.legs i ≡ some leg
    → advance i u ≡ some v
    → v.legs ≡ set u.legs i new
    → Ends i v
    → Ends i u
unfolding run step
Ends-after i leg new u v e a l (n, u', last, r, f, g) =
    (suc n, u', last, rw a r, f ∙ ap (λ legs. set legs i last) l ∙ set-set u.legs i new last, g)

-- The ends of the segments, from the last one backwards. Only a wait needs Stop.
module _ (i : ℕ) (leg : Leg) (u : RegisteredUas) (e : get_elem? u.legs i ≡ some leg) where
  at_index : (new : Leg) → get_elem? (set u.legs i new) i ≡ some new
  at_index new = get_elem?-set_self u.legs i new (get_elem?-lt u.legs i leg e)

  segment : (v : RegisteredUas) → advance_leg leg.stage i leg u ≡ some v → advance i u ≡ some v
  segment v a = advance_at i leg u e ∙ a

  gone-Ends : leg.stage ≡ gone → Ends i u
  unfolding run
  gone-Ends q = (0, u, leg, refl, sym (set-get_elem? u.legs i leg e), q)

leaving-Ends :
    (i : ℕ) (leg : Leg) (u : RegisteredUas)
    → get_elem? u.legs i ≡ some leg
    → leg.stage ≡ leaving
    → Ends i u
unfolding release advance_leg
leaving-Ends i leg u e q =
    let v = release i leg u in
    let new = move gone leg in
    let l : v.legs ≡ set u.legs i new = ground arith in
    Ends-after i leg new u v e (segment i leg u e v (ground (arith, q))) l
      (gone-Ends i new v (ap (λ legs. get_elem? legs i) l ∙ at_index i leg u e new) refl)

ending-Ends :
    (i : ℕ) (leg : Leg) (u : RegisteredUas)
    → get_elem? u.legs i ≡ some leg
    → leg.stage ≡ ending
    → Ends i u
unfolding forget advance_leg
ending-Ends i leg u e q =
    let v = forget i leg u in
    let new = move leaving leg in
    Ends-after i leg new u v e (segment i leg u e v (ground (arith, q))) refl
      (leaving-Ends i new v (at_index i leg u e new) refl)

stopping-Ends :
    (i : ℕ) (leg : Leg) (u : RegisteredUas)
    → get_elem? u.legs i ≡ some leg
    → leg.stage ≡ stopping
    → Ends i u
unfolding report advance_leg
stopping-Ends i leg u e q =
    let v = report i leg u in
    let new = move ending leg in
    Ends-after i leg new u v e (segment i leg u e v (ground (arith, q))) refl
      (ending-Ends i new v (at_index i leg u e new) refl)

up-Ends :
    (i : ℕ) (leg : Leg) (u : RegisteredUas)
    → get_elem? u.legs i ≡ some leg
    → u.cancelled ≡ true
    → leg.stage ≡ up
    → Ends i u
unfolding wake advance_leg
up-Ends i leg u e stopped q =
    let new = record leg { stage = stopping; signalled = true } in
    let v = put i new u in
    Ends-after i leg new u v e (segment i leg u e v (ground (arith, q, stopped))) refl
      (stopping-Ends i new v (at_index i leg u e new) refl)

offering-Ends :
    (i : ℕ) (leg : Leg) (u : RegisteredUas)
    → get_elem? u.legs i ≡ some leg
    → u.cancelled ≡ true
    → leg.stage ≡ offering
    → Ends i u
unfolding answer advance_leg
offering-Ends i leg u e stopped q =
    let v = answer i leg u in
    let new = respond 200 (if leg.invite.respond_ok then up else ending) leg in
    Ends-after i leg new u v e (segment i leg u e v (ground (arith, q))) refl
      (elim (Bool-cases leg.invite.respond_ok) [
        | inl taken ↦ up-Ends i new v (at_index i leg u e new) stopped (ground (arith, taken))
        | inr lost ↦ ending-Ends i new v (at_index i leg u e new) (ground (arith, lost))
      ])

-- What the checks before the answer lead to.
record Prepared (i : ℕ) (u v : RegisteredUas) : Type 0 where
  pub new : Leg
  pub in_place : v.legs ≡ set u.legs i new
  pub same_context : v.cancelled ≡ u.cancelled
  pub next : (new.stage ≡ leaving) ⊎ (new.stage ≡ offering)

if-Prepared :
    (b : Bool) (i : ℕ) (u : RegisteredUas) {v w : RegisteredUas}
    → Prepared i u v
    → Prepared i u w
    → Prepared i u (if b then v else w)
if-Prepared true i u p q = p
if-Prepared false i u p q = q

prepare-Prepared : (i : ℕ) (leg : Leg) (u : RegisteredUas) → Prepared i u (prepare i leg u)
unfolding prepare
prepare-Prepared i leg u =
    let refuse : (new : Leg) → new.stage ≡ leaving → Prepared i u (put i new u) =
      λ new q. record { new = new; in_place = refl; same_context = refl; next = inl q } in
    let trying = respond 100 leaving leg in
    if-Prepared (not leg.invite.codec_ok) i u (refuse (respond 415 leaving leg) refl) (
      if-Prepared (not leg.invite.sdp_ok) i u (refuse (respond 400 leaving leg) refl) (
        if-Prepared (not leg.invite.bind_ok) i u (refuse (respond 500 leaving trying) refl) (
          if-Prepared (leg.invite.call_id == 0) i u (refuse (respond 400 leaving trying) refl)
            (record {
              new = move offering trying;
              in_place = refl;
              same_context = refl;
              next = inr refl;
            }))))

admitted-Ends :
    (i : ℕ) (leg : Leg) (u : RegisteredUas)
    → get_elem? u.legs i ≡ some leg
    → u.cancelled ≡ true
    → leg.stage ≡ admitted
    → Ends i u
unfolding advance_leg
admitted-Ends i leg u e stopped q =
    let v = prepare i leg u in
    let p = prepare-Prepared i leg u in
    let new = p.new in
    let l = p.in_place in
    let there = ap (λ legs. get_elem? legs i) l ∙ at_index i leg u e new in
    Ends-after i leg new u v e (segment i leg u e v (ground (arith, q))) l (elim p.next [
      | inl early ↦ leaving-Ends i new v there early
      | inr on ↦ offering-Ends i new v there (p.same_context ∙ stopped) on
    ])

arrived-Ends :
    (i : ℕ) (leg : Leg) (u : RegisteredUas)
    → get_elem? u.legs i ≡ some leg
    → u.cancelled ≡ true
    → leg.stage ≡ arrived
    → Ends i u
unfolding advance_leg admit
arrived-Ends i leg u e stopped q =
    let v = admit i leg u in
    elim (Bool-cases (ltb 0 u.cfg.max_concurrent && leb u.cfg.max_concurrent u.active)) [
      | inl full ↦
          let new = respond 486 gone leg in
          let l : v.legs ≡ set u.legs i new = ground (arith, full) in
          Ends-after i leg new u v e (segment i leg u e v (ground (arith, q))) l
            (gone-Ends i new v (ap (λ legs. get_elem? legs i) l ∙ at_index i leg u e new) refl)
      | inr room ↦
          let new = move admitted leg in
          let l : v.legs ≡ set u.legs i new = ground (arith, room) in
          Ends-after i leg new u v e (segment i leg u e v (ground (arith, q))) l (
            admitted-Ends i new v (ap (λ legs. get_elem? legs i) l ∙ at_index i leg u e new)
              (ground (arith, stopped)) refl)
    ]

-- Once Stop has cancelled the context, every handler can reach its end by its own segments alone,
-- whatever the others do or wait for, which stay as they are.
pub leg-Ends :
    (i : ℕ) (leg : Leg) (u : RegisteredUas)
    → get_elem? u.legs i ≡ some leg
    → u.cancelled ≡ true
    → Ends i u
leg-Ends i leg u e stopped = by_stage leg.stage refl
  where
    by_stage : (s : Stage) → leg.stage ≡ s → Ends i u
    by_stage arrived = arrived-Ends i leg u e stopped
    by_stage admitted = admitted-Ends i leg u e stopped
    by_stage offering = offering-Ends i leg u e stopped
    by_stage up = up-Ends i leg u e stopped
    by_stage stopping = stopping-Ends i leg u e
    by_stage ending = ending-Ends i leg u e
    by_stage leaving = leaving-Ends i leg u e
    by_stage gone = gone-Ends i leg u e
