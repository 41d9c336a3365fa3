-- ===== src/Sip/Uas/Segments.antt =====
-- Every segment of a handler keeps the cap and the counts.
use xk6_sip_media.Prelude.{ℕ, ◌+◌, ◌≡◌, refl, sym, ◌∙◌, true, false, not, some, [], ◌∷◌, arith}
use xk6_sip_media.Prelude.{
  ltb, leb, ◌==◌, if◌then◌else◌, Option-cases, Bool-cases, none_differs, subst_some, inl, inr,
  get_elem?, set,
}
use xk6_sip_media.Prelude.NatMap.{insert}
use mathlib.Core.Path.{subst}
use xk6_sip_media.Sip.Uas.{
  RegisteredUas, Leg, Stage, arrived, admitted, offering, up, stopping, ending, leaving, gone,
}
use xk6_sip_media.Sip.Uas.{
  move, respond, put, admit, prepare, answer, wake, report, forget, release, advance_leg, advance,
}
use xk6_sip_media.Sip.Uas.Legs.{sum_by-set, Each-get_elem?, advance_at, advance_out}
use xk6_sip_media.Sip.Uas.Invariant.{
  counted, settled, answered_ok, reported, Refused, Sent, Responds, IsCapped, replace-IsCapped,
  if-IsCapped,
}

-- The segments of a leg, one by one.
module _ (i : ℕ) (leg : Leg) (u : RegisteredUas) (e : get_elem? u.legs i ≡ some leg)
    (c : IsCapped u) where
  sent : (s : Stage) → leg.stage ≡ s → Sent s leg.invite.respond_ok leg.responses
  sent s q =
      subst (λ s. Sent s leg.invite.respond_ok leg.responses) q
        (Each-get_elem? Responds u.legs i leg c.respond_so e)

  admit-IsCapped : leg.stage ≡ arrived → IsCapped (admit i leg u)
  unfolding admit counted reported settled Sent answered_ok
  admit-IsCapped q =
      let codes : leg.responses ≡ [] = sent arrived q in
      elim (Bool-cases (ltb 0 u.cfg.max_concurrent)) [
        | inl capped ↦ elim (Bool-cases (leb u.cfg.max_concurrent u.active)) [
          | inl full ↦
              rw (capped, full)
                (replace-IsCapped i leg (respond 486 gone leg) u (put i (respond 486 gone leg) u) e
                  c refl refl (ground (arith, codes)) (ground (arith, q, capped, c.below_max))
                  (ground (arith, q)))
          | inr room ↦
              rw (capped, room)
                (replace-IsCapped i leg (move admitted leg) u
                  (record (put i (move admitted leg) u) { active = u.active + 1 }) e c refl refl
                  codes (ground (arith, q, capped, room)) (ground (arith, q)))
        ]
        | inr free ↦ rw free (
            replace-IsCapped i leg (move admitted leg) u (put i (move admitted leg) u) e c refl refl
              codes (ground (arith, q, free, c.active_is)) (ground (arith, q)))
      ]

  -- A segment that stays between the cap and the decrement.
  stay-IsCapped :
      (new : Leg) (u' : RegisteredUas)
      → u'.cfg ≡ u.cfg
      → u'.legs ≡ set u.legs i new
      → Responds new
      → u'.active ≡ u.active
      → counted leg.stage ≡ counted new.stage
      → u'.results + reported leg ≡ u.results + reported new
      → IsCapped u'
  stay-IsCapped new u' k l s a n r =
      replace-IsCapped i leg new u u' e c k l s (ground (arith, a, n, c.active_is, c.below_max)) r

  prepare-IsCapped : leg.stage ≡ admitted → IsCapped (prepare i leg u)
  unfolding prepare counted reported settled Sent answered_ok
  prepare-IsCapped q =
      let codes : leg.responses ≡ [] = sent admitted q in
      let trying = respond 100 leaving leg in
      let refuse : (new : Leg)
          → new.stage ≡ leaving
          → answered_ok new.responses ≡ false
          → Refused new.responses
          → IsCapped (put i new u) =
        λ new s n r.
          stay-IsCapped new (put i new u) refl refl (rw s (inl r)) refl (ground (arith, q, s))
            (ground (arith, q, s, n)) in
      let offered = respond 100 offering leg in
      if-IsCapped (not leg.invite.codec_ok)
        (λ h. refuse (respond 415 leaving leg) refl refl (inl (rw codes refl)))
        (λ h.
          if-IsCapped (not leg.invite.sdp_ok)
            (λ h. refuse (respond 400 leaving leg) refl refl (inr (inl (rw codes refl))))
            (λ h.
              if-IsCapped (not leg.invite.bind_ok)
                (λ h.
                  refuse (respond 500 leaving trying) refl refl (inr (inr (inl (rw codes refl)))))
                (λ h.
                  if-IsCapped (leg.invite.call_id == 0)
                    (λ h.
                      refuse (respond 400 leaving trying) refl refl
                        (inr (inr (inr (rw codes refl)))))
                    (λ h.
                      stay-IsCapped offered
                        (record (put i offered u) {
                          stop_map = insert leg.invite.call_id i u.stop_map;
                        })
                        refl refl (rw codes refl) refl (ground (arith, q)) (ground (arith, q))))))

  answer-IsCapped : leg.stage ≡ offering → IsCapped (answer i leg u)
  unfolding answer counted reported settled Sent answered_ok
  answer-IsCapped q =
      let codes : leg.responses ≡ (100 ∷ []) = sent offering q in
      let reply : (s : Stage)
          → Sent s leg.invite.respond_ok (200 ∷ leg.responses)
          → counted s ≡ 1
          → reported (respond 200 s leg) ≡ 0
          → IsCapped (put i (respond 200 s leg) u) =
        λ s r n z.
          stay-IsCapped (respond 200 s leg) (put i (respond 200 s leg) u) refl refl r refl
            (ground (arith, q, n)) (ground (arith, q, z)) in
      elim (Bool-cases leg.invite.respond_ok) [
        | inl taken ↦
            let s : up ≡ (if leg.invite.respond_ok then up else ending) = ground (arith, taken) in
            subst (λ s. IsCapped (put i (respond 200 s leg) u)) s
              (reply up (taken, rw codes refl) refl refl)
        | inr lost ↦
            let s : ending ≡ (if leg.invite.respond_ok then up else ending) =
              ground (arith, lost) in
            subst (λ s. IsCapped (put i (respond 200 s leg) u)) s
              (reply ending (rw codes refl) refl (ground (arith, lost)))
      ]

  wake-IsCapped : (u' : RegisteredUas) → leg.stage ≡ up → wake i leg u ≡ some u' → IsCapped u'
  unfolding wake counted reported settled Sent answered_ok
  wake-IsCapped u' q w =
      let codes = sent up q in
      let woken = record leg { stage = stopping; signalled = true } in
      let s : put i woken u ≡ u' = ground (arith, w) in
      subst IsCapped s (
        stay-IsCapped woken (put i woken u) refl refl codes refl (ground (arith, q))
          (ground (arith, q)))

  report-IsCapped : leg.stage ≡ stopping → IsCapped (report i leg u)
  unfolding report counted reported settled Sent answered_ok
  report-IsCapped q =
      let (ok, codes) = sent stopping q in
      stay-IsCapped (move ending leg) (report i leg u) refl refl codes refl (ground (arith, q))
        (ground (arith, q, ok, codes))

  forget-IsCapped : leg.stage ≡ ending → IsCapped (forget i leg u)
  unfolding forget counted reported settled Sent answered_ok
  forget-IsCapped q =
      let codes = sent ending q in
      stay-IsCapped (move leaving leg) (forget i leg u) refl refl (inr codes) refl
        (ground (arith, q)) (ground (arith, q, codes))

  release-IsCapped : leg.stage ≡ leaving → IsCapped (release i leg u)
  unfolding release counted reported settled Sent answered_ok
  release-IsCapped q =
      let codes = sent leaving q in
      let counts = sum_by-set (λ leg. counted leg.stage) u.legs i leg (move gone leg) e in
      replace-IsCapped i leg (move gone leg) u (release i leg u) e c (ground arith) (ground arith)
        (inr codes) (ground (arith, q, counts, c.active_is, c.below_max)) (ground (arith, q))

stage-IsCapped :
    (s : Stage) (i : ℕ) (leg : Leg) (u u' : RegisteredUas)
    → leg.stage ≡ s
    → get_elem? u.legs i ≡ some leg
    → IsCapped u
    → advance_leg s i leg u ≡ some u'
    → IsCapped u'
unfolding advance_leg
stage-IsCapped arrived i leg u u' q e c = subst_some IsCapped (admit-IsCapped i leg u e c q)
stage-IsCapped admitted i leg u u' q e c = subst_some IsCapped (prepare-IsCapped i leg u e c q)
stage-IsCapped offering i leg u u' q e c = subst_some IsCapped (answer-IsCapped i leg u e c q)
stage-IsCapped up i leg u u' q e c = wake-IsCapped i leg u e c u' q
stage-IsCapped stopping i leg u u' q e c = subst_some IsCapped (report-IsCapped i leg u e c q)
stage-IsCapped ending i leg u u' q e c = subst_some IsCapped (forget-IsCapped i leg u e c q)
stage-IsCapped leaving i leg u u' q e c = subst_some IsCapped (release-IsCapped i leg u e c q)
stage-IsCapped gone i leg u u' q e c = λ a. absurd (none_differs a)

pub advance-IsCapped :
    (i : ℕ) (u u' : RegisteredUas) → IsCapped u → advance i u ≡ some u' → IsCapped u'
advance-IsCapped i u u' c a = elim (Option-cases (get_elem? u.legs i)) [
  | inl out ↦ absurd (none_differs (sym (advance_out i u out) ∙ a))
  | inr (leg, e) ↦ stage-IsCapped leg.stage i leg u u' refl e c (sym (advance_at i leg u e) ∙ a)
]
