-- ===== src/Sip/Register/Answers.antt =====
-- What a registration does on every answer.
use xk6_sip_media.Prelude.{
  ℕ, ◌+◌, ◌≡◌, ◌↔◌, ◌⊎◌, inl, inr, refl, sym, ◌∙◌, Option-cases, none_differs, Bool, true, false,
  Option, none, some, arith,
}
use xk6_sip_media.Prelude.{◌==◌, if◌then◌else◌}
use xk6_sip_media.Sip.Call.{Reply, failed, status}
use xk6_sip_media.Sip.Register.{
  RegisterError, no_client, bad_registrar, bad_aor, send_failed, auth_failed, refused, Attempt,
  Registration, registered, not_registered, accepted, after_auth, after_first, attempt_error,
  register, refresh, closes, unregister,
}

-- The registrar takes the request: at once, or after one challenge that the credentials answer.
abbrev pub Taken : Attempt → Type 0
Taken a =
    (a.registrar_ok ≡ true)
    × (a.aor_ok ≡ true)
    × ((a.first ≡ status 200)
        ⊎ (((a.first ≡ status 401) ⊎ (a.first ≡ status 407)) × (a.second ≡ status 200)))

status_injective : (a b : ℕ) → status a ≡ status b → a ≡ b
status_injective a b e = cc

first_iff :
    (first second : Reply)
    → (after_first first second ≡ none) ↔ (
        (first ≡ status 200)
        ⊎ (((first ≡ status 401) ⊎ (first ≡ status 407)) × (second ≡ status 200)))
unfolding after_first after_auth accepted
first_iff failed second = ground arith
first_iff (status a) failed =
    ground (arith, status_injective a 200, status_injective a 401, status_injective a 407)
first_iff (status a) (status b) = ground (
  arith,
  status_injective a 200,
  status_injective a 401,
  status_injective a 407,
  status_injective b 200,
)

attempt_iff : (a : Attempt) → (attempt_error a ≡ none) ↔ Taken a
unfolding attempt_error
attempt_iff a = let first = first_iff a.first a.second in ground (arith, first)

-- Register returns a registration exactly if its client can be made and the registrar takes the
-- request, at once or after one challenge; the registration then lasts from now for the lifetime
-- asked for, 3600 seconds for 0, and holds the one client left open; an error leaves none open.
pub register_outcome :
    (expires : ℕ) (client_ok : Bool) (a : Attempt)
    → let (open_clients, result) = register expires client_ok a in
      (((client_ok ≡ true) × Taken a)
        × (open_clients ≡ 1)
        × (result
            ≡ registered (record {
              expires = if expires == 0 then 3600 else expires;
              expires_at = a.now + (if expires == 0 then 3600 else expires);
              client_open = true;
            })))
      ⊎ ((¬ ((client_ok ≡ true) × Taken a))
          × (open_clients ≡ 0)
          × ((e : RegisterError) × (result ≡ not_registered e)))
unfolding register
register_outcome expires true a = elim (Option-cases (attempt_error a)) [
  | inl ok ↦ inl ((refl, (attempt_iff a).0 ok), ground (arith, ok), ground (arith, ok))
  | inr (e, bad) ↦ inr (
    λ t. none_differs (sym ((attempt_iff a).1 t.1) ∙ bad),
    ground (arith, bad),
    (e, ground (arith, bad)),
  )
]
register_outcome expires false a = inr (λ t. ground (arith, t.0), refl, (no_client, refl))

closes_iff :
    (e : Option RegisterError)
    → (closes e ≡ true) ↔ ((e ≡ none) ⊎ ((code : ℕ) × (e ≡ some (refused code))))
unfolding closes
closes_iff none = (λ h. inl refl, λ h. refl)
closes_iff (some (refused code)) = (λ h. inr (code, refl), λ h. refl)
closes_iff (some no_client) = ground arith
closes_iff (some bad_registrar) = ground arith
closes_iff (some bad_aor) = ground arith
closes_iff (some send_failed) = ground arith
closes_iff (some auth_failed) = ground arith

unregister-closes :
    (a : Attempt) (r : Registration)
    → r.client_open ≡ true
    → ((unregister a r).0.client_open ≡ false) ↔ (closes (attempt_error a) ≡ true)
unfolding unregister
unregister-closes a r o = ground (arith, o)

-- An Unregister whose request gets no answer leaves its client open, as one that cannot be sent;
-- every answer closes it, also a refusal. Refresh never closes it, and changes
-- nothing where it returns an error.
pub client_after :
    (a : Attempt) (r : Registration)
    → r.client_open ≡ true
    → (((unregister a r).0.client_open ≡ false)
        ↔ ((Taken a) ⊎ ((code : ℕ) × ((unregister a r).1 ≡ some (refused code)))))
      × ((refresh a r).0.client_open ≡ true)
      × (((refresh a r).1 ≡ none) ⊎ ((refresh a r).0 ≡ r))
unfolding unregister refresh
client_after a r o =
    let e = attempt_error a in
    let closed = unregister-closes a r o in
    let (to, from) = closes_iff e in
    let (taken, untaken) = attempt_iff a in
    (
      (
        λ h. elim (to (closed.0 h)) [ inl ok ↦ inl (taken ok) | inr c ↦ inr c ],
        λ t. closed.1 (from (elim t [ inl t ↦ inl (untaken t) | inr c ↦ inr c ])),
      ),
      elim (Option-cases e) [
        | inl ok ↦ ground (arith, ok, o)
        | inr (x, bad) ↦ ground (arith, bad, o)
      ],
      elim (Option-cases e) [
        | inl ok ↦ inl (ground (arith, ok))
        | inr (x, bad) ↦ inr (ground (arith, bad))
      ],
    )
