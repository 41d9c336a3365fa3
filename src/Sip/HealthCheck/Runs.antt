-- ===== src/Sip/HealthCheck/Runs.antt =====
-- The checker on concrete histories.
use xk6_sip_media.Prelude.{ℕ, true, none, some, Option, List, [], ◌∷◌}
use xk6_sip_media.Prelude.Floats.{whole_floats}
use xk6_sip_media.Sip.HealthCheck.{HealthCheckConfig, start_health_check}
use xk6_sip_media.Sip.HealthCheck.History.{after, limit, Reports, after-Reports}

abbrev config : HealthCheckConfig
config = record {
  target = [];
  interval = 0;
  timeout = 0;
  local_ip = [];
  transport = [];
  max_failures = 2;
}

abbrev history : List (Option ℕ)
history = none ∷ none ∷ some 3_000_000 ∷ none ∷ []

after-Reports_example :
    Reports whole_floats
      (after whole_floats (start_health_check whole_floats config true) history)
      (limit whole_floats config)
      history
after-Reports_example = after-Reports whole_floats config history
