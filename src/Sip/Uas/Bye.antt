-- ===== src/Sip/Uas/Bye.antt =====
-- A BYE, and two calls under one Call-ID.
use xk6_sip_media.Prelude.{
  ℕ, zero, suc, ◌++◌, ◌≡◌, ◌≢◌, sym, ◌∙◌, ap, false, none, some, List, [], ◌∷◌, arith, refl, not,
  ◌||◌, true,
}
use mathlib.Core.Path.{subst}
use xk6_sip_media.Prelude.{
  if_both, ltb, leb, ◌==◌, if◌then◌else◌, Bool-cases, Option-cases, inl, inr, none_differs,
  subst_some, get_elem?, get_elem?-set_ne,
}
use xk6_sip_media.Prelude.NatMap.{
  lookup, erase, lookup-erase_self, lookup-erase_ne, lookup-insert, insert,
}
use xk6_sip_media.Sip.Uas.{
  RegisteredUas, Leg, Stage, arrived, admitted, offering, up, stopping, ending, leaving, gone,
}
use xk6_sip_media.Sip.Uas.{
  respond, put, move, signal, Event, arrives, new_leg, cancel, forget, admit, prepare, answer,
  report, release, advance_leg, advance, wake, handle_bye, advances, bye, step, run,
}
use xk6_sip_media.Sip.Uas.Legs.{advance_at, advance_out, signal_at, signal_out}

-- A BYE with no entry in the stop map.
bye_unknown :
    (call_id : ℕ) (u : RegisteredUas) → lookup call_id u.stop_map ≡ none → handle_bye call_id u ≡ u
unfolding handle_bye
bye_unknown call_id u e = ground (arith, e)

up-ending : up ≢ ending
up-ending q = cc

ends :
    (j : ℕ) (leg : Leg) (u : RegisteredUas)
    → leg.stage ≡ ending
    → advance_leg leg.stage j leg u ≡ some (forget j leg u)
unfolding advance_leg
ends j leg u q = ground (arith, q)

waits :
    (i : ℕ) (leg : Leg) (u : RegisteredUas)
    → leg.stage ≡ up
    → leg.signalled ≡ false
    → u.cfg.call_duration ≡ 0
    → u.cancelled ≡ false
    → advance_leg leg.stage i leg u ≡ none
unfolding advance_leg wake
waits i leg u s g d n = ground (arith, s, g, d, n)

-- Leg `i` is up, and nothing in the stop map leads to it.
get_elem?-append_one :
    (legs : List Leg) (new : Leg) (i : ℕ) (leg : Leg)
    → get_elem? legs i ≡ some leg
    → get_elem? (legs ++ new ∷ []) i ≡ some leg
get_elem?-append_one [] new i leg e = absurd (none_differs e)
get_elem?-append_one (x ∷ legs) new zero leg e = e
get_elem?-append_one (x ∷ legs) new (suc i) leg e = get_elem?-append_one legs new i leg e

record Lost (i : ℕ) (leg : Leg) (u : RegisteredUas) : Type 0 where
  pub here : get_elem? u.legs i ≡ some leg
  pub no_entry : (k : ℕ) → lookup k u.stop_map ≢ some i
  pub no_cap : u.cfg.call_duration ≡ 0
  pub no_stop : u.cancelled ≡ false

other_entry :
    (c k j i : ℕ) (m : List (ℕ × ℕ))
    → j ≢ i
    → lookup k m ≢ some i
    → lookup k (insert c j m) ≢ some i
other_entry c k j i m apart no_entry =
    let e = lookup-insert c k j m in ground (arith, e, apart, no_entry)

erased_entry : (c k i : ℕ) (m : List (ℕ × ℕ)) → lookup k (erase c m) ≡ some i → lookup k m ≡ some i
erased_entry c k i m q = elim (Bool-cases (c == k)) [
  | inl e ↦
      let same : c ≡ k = ground (arith, e) in
      absurd (none_differs (sym (lookup-erase_self c m) ∙ ap (λ x. lookup x (erase c m)) same ∙ q))
  | inr e ↦ sym (lookup-erase_ne c k m (λ p. ground (arith, e, p))) ∙ q
]

-- No Stop among the events.
abbrev pub NoStop : List Event → Type 0
NoStop [] = Unit
NoStop (cancel ∷ events) = ⊥
NoStop (other ∷ events) = NoStop events

NoStop-parts :
    (e : Event) (events : List Event) → NoStop (e ∷ events) → NoStop (e ∷ []) × NoStop events
NoStop-parts (arrives invite) events n = (tt, n)
NoStop-parts (advances j) events n = (tt, n)
NoStop-parts (bye c) events n = (tt, n)
NoStop-parts cancel events n = elim n [ ]

module _ (i : ℕ) (first : Leg) where
  -- What no other leg's segment touches.
  put-Lost :
      (j : ℕ) (leg : Leg) (u : RegisteredUas) → j ≢ i → Lost i first u → Lost i first (put j leg u)
  put-Lost j leg u apart l = record {
    here = get_elem?-set_ne u.legs leg apart ∙ l.here;
    no_entry = l.no_entry;
    no_cap = l.no_cap;
    no_stop = l.no_stop;
  }

  same_fields :
      (u v : RegisteredUas)
      → v.legs ≡ u.legs
      → v.stop_map ≡ u.stop_map
      → v.cfg ≡ u.cfg
      → v.cancelled ≡ u.cancelled
      → Lost i first u
      → Lost i first v
  same_fields u v a b c d l = record {
    here = ap (λ legs. get_elem? legs i) a ∙ l.here;
    no_entry = λ k q. l.no_entry k (ap (lookup k) (sym b) ∙ q);
    no_cap = ap (λ cfg. cfg.call_duration) c ∙ l.no_cap;
    no_stop = d ∙ l.no_stop;
  }

  forget-Lost :
      (j : ℕ) (leg : Leg) (u : RegisteredUas)
      → j ≢ i
      → Lost i first u
      → Lost i first (forget j leg u)
  unfolding forget
  forget-Lost j leg u apart l = record {
    here = get_elem?-set_ne u.legs (move leaving leg) apart ∙ l.here;
    no_entry = λ k q. l.no_entry k (erased_entry leg.invite.call_id k i u.stop_map q);
    no_cap = l.no_cap;
    no_stop = l.no_stop;
  }

  advance_leg-Lost :
      (s : Stage) (j : ℕ) (leg : Leg) (u v : RegisteredUas)
      → j ≢ i
      → advance_leg s j leg u ≡ some v
      → Lost i first u
      → Lost i first v
  unfolding advance_leg admit prepare answer wake report forget release
  advance_leg-Lost arrived j leg u v apart h l =
      let placed = put-Lost j (move admitted leg) u apart l in
      subst_some (Lost i first)
        (if_both (Lost i first) (ltb 0 u.cfg.max_concurrent) _ _
          (if_both (Lost i first) (leb u.cfg.max_concurrent u.active) _ _
            (put-Lost j (respond 486 gone leg) u apart l)
            (same_fields (put j (move admitted leg) u) _ refl refl refl refl placed))
          placed)
        h
  advance_leg-Lost admitted j leg u v apart h l =
      let trying = respond 100 leaving leg in
      let c = leg.invite.call_id in
      let placed = put-Lost j (move offering trying) u apart l in
      subst_some (Lost i first)
        (if_both (Lost i first) (not leg.invite.codec_ok) _ _
          (put-Lost j (respond 415 leaving leg) u apart l)
          (if_both (Lost i first) (not leg.invite.sdp_ok) _ _
            (put-Lost j (respond 400 leaving leg) u apart l)
            (if_both (Lost i first) (not leg.invite.bind_ok) _ _
              (put-Lost j (respond 500 leaving trying) u apart l)
              (if_both (Lost i first) (c == 0) _ _
                (put-Lost j (respond 400 leaving trying) u apart l)
                (record {
                  here = placed.here;
                  no_entry = λ k q. other_entry c k j i u.stop_map apart (l.no_entry k) q;
                  no_cap = l.no_cap;
                  no_stop = l.no_stop;
                })))))
        h
  advance_leg-Lost offering j leg u v apart h l =
      subst_some (Lost i first)
        (put-Lost j (respond 200 (if leg.invite.respond_ok then up else ending) leg) u apart l) h
  advance_leg-Lost up j leg u v apart h l =
      elim (Bool-cases (leg.signalled || ltb 0 u.cfg.call_duration || u.cancelled)) [
        | inl e ↦
            subst_some (Lost i first)
              (put-Lost j (record leg { stage = stopping; signalled = true }) u apart l) (rw e at h)
        | inr e ↦ absurd (none_differs (rw e at h))
      ]
  advance_leg-Lost stopping j leg u v apart h l =
      subst_some (Lost i first)
        (same_fields (put j (move ending leg) u) _ refl refl refl refl
          (put-Lost j (move ending leg) u apart l))
        h
  advance_leg-Lost ending j leg u v apart h l =
      subst_some (Lost i first) (forget-Lost j leg u apart l) h
  advance_leg-Lost leaving j leg u v apart h l =
      let placed = put-Lost j (move gone leg) u apart l in
      subst_some (Lost i first)
        (if_both (Lost i first) (ltb 0 u.cfg.max_concurrent) _ _
          (same_fields (put j (move gone leg) u) _ refl refl refl refl placed) placed)
        h
  advance_leg-Lost gone j leg u v apart h l = absurd (none_differs h)

  signal-Lost : (j : ℕ) (u : RegisteredUas) → j ≢ i → Lost i first u → Lost i first (signal j u)
  unfolding signal
  signal-Lost j u apart l = elim (Option-cases (get_elem? u.legs j)) [
    | inl e ↦ rw (signal_out j u e) l
    | inr (leg, e) ↦
        rw (signal_at j leg u e) (put-Lost j (record leg { signalled = true }) u apart l)
  ]

  bye-Lost : (c : ℕ) (u : RegisteredUas) → Lost i first u → Lost i first (handle_bye c u)
  unfolding handle_bye
  bye-Lost c u l = elim (Option-cases (lookup c u.stop_map)) [
    | inl e ↦ rw (bye_unknown c u e) l
    | inr (j, e) ↦
        let f : handle_bye c u ≡ signal j u = ground (arith, e) in
        rw f (signal-Lost j u (λ q. l.no_entry c (e ∙ ap (λ k. some k) q)) l)
  ]

  step-Lost :
      (e : Event) (u v : RegisteredUas)
      → NoStop (e ∷ [])
      → first.stage ≡ up
      → first.signalled ≡ false
      → step e u ≡ some v
      → Lost i first u
      → Lost i first v
  unfolding step
  step-Lost (arrives invite) u v n s g h l =
      subst_some (Lost i first)
        (record {
          here = get_elem?-append_one u.legs (new_leg invite) i first l.here;
          no_entry = l.no_entry;
          no_cap = l.no_cap;
          no_stop = l.no_stop;
        })
        h
  step-Lost (advances j) u v n s g h l = elim (Bool-cases (j == i)) [
    | inl e ↦
        let same : j ≡ i = ground (arith, e) in
        let stuck : advance i u ≡ none =
          advance_at i first u l.here ∙ waits i first u s g l.no_cap l.no_stop in
        absurd (none_differs (sym stuck ∙ ap (λ k. advance k u) (sym same) ∙ h))
    | inr e ↦ elim (Option-cases (get_elem? u.legs j)) [
      | inl out ↦ absurd (none_differs (sym (advance_out j u out) ∙ h))
      | inr (leg, f) ↦
          advance_leg-Lost leg.stage j leg u v (λ q. ground (arith, e, q))
            (sym (advance_at j leg u f) ∙ h) l
    ]
  ]
  step-Lost (bye c) u v n s g h l = subst_some (Lost i first) (bye-Lost c u l) h
  step-Lost cancel u v n s g h l = elim n [ ]

  run-Lost :
      (events : List Event) (u v : RegisteredUas)
      → NoStop events
      → first.stage ≡ up
      → first.signalled ≡ false
      → run events u ≡ some v
      → Lost i first u
      → Lost i first v
  unfolding run
  run-Lost [] u v n s g h l = subst_some (Lost i first) l h
  run-Lost (e ∷ events) u v n s g h l = elim (Option-cases (step e u)) [
    | inl stuck ↦ absurd (none_differs (rw stuck at h))
    | inr (w, f) ↦
        let (one, rest) = NoStop-parts e events n in
        run-Lost events w v rest s g (rw f at h) (step-Lost e u w one s g f l)
  ]

-- Two handlers have the same Call-ID, as those of a call and of a re-INVITE in it, and the entry of
-- no other Call-ID leads to the first. When the second ends, it takes the entry for both out of the
-- stop map, so a BYE for the call changes nothing; and with no cap on the duration the first handler,
-- which was not signalled, stays as it is and has no step, whatever happens, until Stop.
pub bye_lost :
    (i j : ℕ) (first second : Leg) (u u' v : RegisteredUas) (later : List Event)
    → get_elem? u.legs i ≡ some first
    → get_elem? u.legs j ≡ some second
    → first.stage ≡ up
    → first.signalled ≡ false
    → second.stage ≡ ending
    → first.invite.call_id ≡ second.invite.call_id
    → u.cfg.call_duration ≡ 0
    → u.cancelled ≡ false
    → ((k : ℕ) → lookup k u.stop_map ≡ some i → k ≡ first.invite.call_id)
    → advance j u ≡ some u'
    → NoStop later
    → run later u' ≡ some v
    → (lookup first.invite.call_id u'.stop_map ≡ none)
      × (handle_bye first.invite.call_id u' ≡ u')
      × (get_elem? v.legs i ≡ some first)
      × (advance i v ≡ none)
unfolding forget
bye_lost i j first second u u' v later e f s g t same no_cap no_stop own h n r =
    let w = forget j second u in
    let c = first.invite.call_id in
    let ended : w ≡ u' =
      let q : some w ≡ some u' = sym (advance_at j second u f ∙ ends j second u t) ∙ h in cc in
    let apart : j ≢ i = λ q.
      let r : some first ≡ some second = sym e ∙ ap (get_elem? u.legs) (sym q) ∙ f in
      let r' : first ≡ second = cc in absurd (up-ending (sym s ∙ ap (λ leg. leg.stage) r' ∙ t)) in
    let erased : lookup c w.stop_map ≡ none =
      ap (λ k. lookup c (erase k u.stop_map)) (sym same) ∙ lookup-erase_self c u.stop_map in
    let lost : Lost i first w = record {
      here = get_elem?-set_ne u.legs (move leaving second) apart ∙ e;
      no_entry = λ k q.
          let at = own k (erased_entry second.invite.call_id k i u.stop_map q) in
          none_differs (sym erased ∙ ap (λ x. lookup x w.stop_map) (sym at) ∙ q);
      no_cap = no_cap;
      no_stop = no_stop;
    } in
    let gone : lookup c u'.stop_map ≡ none = ap (λ x. lookup c x.stop_map) (sym ended) ∙ erased in
    let l = run-Lost i first later u' v n s g r (subst (Lost i first) ended lost) in
    (
      gone,
      bye_unknown c u' gone,
      l.here,
      advance_at i first v l.here ∙ waits i first v s g l.no_cap l.no_stop,
    )
