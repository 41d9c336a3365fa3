-- ===== src/Sip/Register/Runs.antt =====
-- Runs of a registration.
use xk6_sip_media.Prelude.{◌+◌, ◌<◌, ◌≡◌, ◌⊎◌, true, arith}
use xk6_sip_media.Sip.Call.{failed, status}
use xk6_sip_media.Sip.Register.{
  RegisterError, Attempt, Registration, registered, not_registered, register,
}
use xk6_sip_media.Sip.Register.Refresh.{last_refresh, never_lapses}
use xk6_sip_media.Sip.Register.Answers.{Taken, register_outcome}

never_lapses_example : 7199 < last_refresh 3600 7199 + 3600
never_lapses_example = never_lapses 3600 7199 (omega arith)

-- A challenge that the credentials answer.
abbrev challenged : Attempt
challenged = record {
  registrar_ok = true;
  aor_ok = true;
  first = status 401;
  second = status 200;
  now = 50;
}

register_outcome_example :
    (((true ≡ true) × Taken challenged)
      × ((register 0 true challenged).0 ≡ 1)
      × ((register 0 true challenged).1
          ≡ registered (record { expires = 3600; expires_at = 3650; client_open = true })))
    ⊎ ((¬ ((true ≡ true) × Taken challenged))
        × ((register 0 true challenged).0 ≡ 0)
        × ((e : RegisterError) × ((register 0 true challenged).1 ≡ not_registered e)))
register_outcome_example = register_outcome 0 true challenged

abbrev unanswered : Attempt
unanswered = record challenged { first = failed }

abbrev bound : Registration
bound = record { expires = 3600; expires_at = 3650; client_open = true }
