-- ===== src/Sip/Uas/Capped.antt =====
-- The cap and the counts, in every interleaving.
use xk6_sip_media.Prelude.{ℕ, ◌≡◌, refl, sym, true, Option, none, some, List, [], ◌∷◌, ◌++◌, arith}
use xk6_sip_media.Prelude.{Option-cases, none_differs, subst_some, inl, inr, get_elem?}
use xk6_sip_media.Prelude.NatMap.{lookup}
use mathlib.Core.Path.{subst}
use xk6_sip_media.Sip.Uas.{RegisteredUasConfig, RegisteredUas, Invite, new_registered_uas}
use xk6_sip_media.Sip.Uas.{
  put, new_leg, signal, handle_bye, Event, arrives, advances, bye, cancel, step, run,
}
use xk6_sip_media.Sip.Uas.Legs.{
  sum_by-set, sum_by-append_one, Each-get_elem?, Each-set, Each-append_one, signal_at, signal_out,
}
use xk6_sip_media.Sip.Uas.Invariant.{
  counted, settled, answered_ok, reported, Sent, Responds, IsCapped,
}
use xk6_sip_media.Sip.Uas.Segments.{advance-IsCapped}

arrives-IsCapped :
    (invite : Invite) (u : RegisteredUas)
    → IsCapped u
    → IsCapped (record u { legs = u.legs ++ (new_leg invite ∷ []) })
unfolding counted reported settled Sent answered_ok
arrives-IsCapped invite u c =
    let counts = sum_by-append_one (λ leg. counted leg.stage) u.legs (new_leg invite) in
    let reports = sum_by-append_one reported u.legs (new_leg invite) in
    record {
      active_is = ground (arith, counts, c.active_is);
      below_max = c.below_max;
      results_are = omega (arith, reports, c.results_are);
      respond_so = Each-append_one Responds u.legs (new_leg invite) c.respond_so refl;
    }

signal-IsCapped : (i : ℕ) (u : RegisteredUas) → IsCapped u → IsCapped (signal i u)
unfolding reported
signal-IsCapped i u c = elim (Option-cases (get_elem? u.legs i)) [
  | inl out ↦ subst IsCapped (sym (signal_out i u out)) c
  | inr (leg, e) ↦
      let new = record leg { signalled = true } in
      let counts = sum_by-set (λ leg. counted leg.stage) u.legs i leg new e in
      let reports = sum_by-set reported u.legs i leg new e in
      let sent = Each-get_elem? Responds u.legs i leg c.respond_so e in
      let after : IsCapped (put i new u) = record {
        active_is = ground (arith, counts, c.active_is);
        below_max = c.below_max;
        results_are = omega (arith, reports, c.results_are);
        respond_so = Each-set Responds u.legs i new c.respond_so sent;
      } in
      subst IsCapped (sym (signal_at i leg u e)) after
]

step-IsCapped : (ev : Event) (u u' : RegisteredUas) → IsCapped u → step ev u ≡ some u' → IsCapped u'
unfolding step handle_bye
step-IsCapped (arrives invite) u u' c = subst_some IsCapped (arrives-IsCapped invite u c)
step-IsCapped (advances i) u u' c = advance-IsCapped i u u' c
step-IsCapped (bye call_id) u u' c = subst_some IsCapped (by_entry (lookup call_id u.stop_map))
  where
    by_entry : (o : Option ℕ) → IsCapped (elim o [ none ↦ u | some i ↦ signal i u ])
    by_entry none = c
    by_entry (some i) = signal-IsCapped i u c
step-IsCapped cancel u u' c = subst_some IsCapped (record {
  active_is = c.active_is;
  below_max = c.below_max;
  results_are = c.results_are;
  respond_so = c.respond_so;
})

run-IsCapped :
    (events : List Event) (u u' : RegisteredUas) → IsCapped u → run events u ≡ some u' → IsCapped u'
unfolding run
run-IsCapped [] u u' c r = subst_some IsCapped c r
run-IsCapped (ev ∷ events) u u' c r = elim (Option-cases (step ev u)) [
  | inl stuck ↦ absurd (none_differs (rw stuck at r))
  | inr (v, s) ↦ run-IsCapped events v u' (step-IsCapped ev u v c s) (rw s at r)
]

-- In every interleaving of the handlers of any INVITEs with BYEs and Stop, from a new user agent:
-- the count of active calls is that of the handlers between the cap and their end, 0 without a
-- cap, and never above the cap; every call that was answered and is over has given one result; and
-- each handler has sent at most one final response, which is the 200 while the call is up.
pub run-new_registered_uas :
    (cfg : RegisteredUasConfig) (events : List Event) (u : RegisteredUas)
    → run events (new_registered_uas cfg) ≡ some u
    → IsCapped u
unfolding new_registered_uas
run-new_registered_uas cfg events u = run-IsCapped events (new_registered_uas cfg) u (ground arith)
