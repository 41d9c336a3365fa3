-- ===== src/Sip/Register.antt =====
-- sip/register.go, and sendRegister and autoRefresh of sip/registered_uas.go: what a registration
-- makes of the registrar's answers. Whether a client can be made and a URI be parsed, what `Do` and
-- DoDigestAuth come back with, and the clock are parameters. Times are in seconds.
pub mod Answers
pub mod Refresh
mod Runs
use xk6_sip_media.Prelude.{ℕ, ◌+◌, ◌-◌, ◌/◌, Bool, true, false, not, ◌&&◌, ◌||◌, Option, none, some}
use xk6_sip_media.Prelude.{ltb, ◌==◌, if◌then◌else◌}
use xk6_sip_media.Sip.Call.{Reply, failed, status}

pub data RegisterError : Type 0 where
  no_client bad_registrar bad_aor send_failed auth_failed : RegisterError
  refused : ℕ → RegisterError

-- What the library calls of one attempt come back with: `first` of `Do`, `second` of DoDigestAuth.
pub record Attempt : Type 0 where
  pub registrar_ok : Bool
  pub aor_ok : Bool
  pub first : Reply
  pub second : Reply
  pub now : ℕ

pub record Registration : Type 0 where
  pub expires : ℕ
  pub expires_at : ℕ
  pub client_open : Bool

-- The test of the final status.
unfoldable pub accepted : ℕ → Option RegisterError
accepted code = if not (code == 200) then some (refused code) else none

unfoldable pub after_auth : Reply → Option RegisterError
after_auth failed = some auth_failed
after_auth (status code) = accepted code

unfoldable pub after_first : Reply → Reply → Option RegisterError
after_first failed second = some send_failed
after_first (status code) second =
    if code == 401 || code == 407 then after_auth second else accepted code

-- From the parsing of the registrar to the final status: the part that Register, Refresh,
-- Unregister and sendRegister have in common.
unfoldable pub attempt_error : Attempt → Option RegisterError
attempt_error a =
    if not a.registrar_ok
    then some bad_registrar
    else if not a.aor_ok
    then some bad_aor
    else after_first a.first a.second

pub data Registered : Type 0 where
  registered : Registration → Registered
  not_registered : RegisterError → Registered

-- Register: the clients that stay open, and the registration or the error.
unfoldable pub register : ℕ → Bool → Attempt → ℕ × Registered
register expires client_ok a =
    let lifetime = if expires == 0 then 3600 else expires in
    if not client_ok then (0, not_registered no_client) else elim (attempt_error a) [
      | some e ↦ (0, not_registered e)
      | none ↦ (
        1,
        registered
            (record { expires = lifetime; expires_at = a.now + lifetime; client_open = true }),
      )
    ]

unfoldable pub refresh : Attempt → Registration → Registration × Option RegisterError
refresh a r = elim (attempt_error a) [
  | some e ↦ (r, some e)
  | none ↦ (record r { expires_at = a.now + r.expires }, none)
]

-- Whether Unregister gets as far as the closing of its client: not past an error of a call.
unfoldable pub closes : Option RegisterError → Bool
closes none = true
closes (some (refused code)) = true
closes (some no_client) = false
closes (some bad_registrar) = false
closes (some bad_aor) = false
closes (some send_failed) = false
closes (some auth_failed) = false

unfoldable pub unregister : Attempt → Registration → Registration × Option RegisterError
unregister a r =
    let e = attempt_error a in (if closes e then record r { client_open = false } else r, e)

-- autoRefresh: the interval of its ticker.
unfoldable pub refresh_interval : ℕ → ℕ
refresh_interval expires =
    let half = if ltb (expires / 2) 5 then 5 else expires / 2 in
    let cap = if ltb (expires - 5) 1 then 1 else expires - 5 in if ltb cap half then cap else half
