-- ===== src/Sip/HealthCheck.antt =====
-- sip/healthcheck.go: the background loop that pings a target with OPTIONS. A duration is a number
-- of nanoseconds. What a ping brings back is a parameter of the step: the round-trip time of an
-- answer, or `none` for an error. A negative limit is left out. The ticker and the goroutine are left out.
pub mod History
mod Runs
use xk6_sip_media.Prelude.{
  ℕ, ◌+◌, ◌-◌, ◌/◌, Bool, true, false, not, Option, none, some, List, [], ◌∷◌,
}
use xk6_sip_media.Prelude.{leb, ◌==◌, if◌then◌else◌}
use xk6_sip_media.Prelude.Int.{ℤ, pos, ltb_ℤ}
use xk6_sip_media.Prelude.Floats.{Floats}

pub record HealthCheckConfig : Type 0 where
  pub target : List ℕ
  pub interval : ℕ
  pub timeout : ℕ
  pub local_ip : List ℕ
  pub transport : List ℕ
  pub max_failures : ℕ

-- The defaults of StartHealthCheck.
unfoldable pub with_defaults : HealthCheckConfig → HealthCheckConfig
with_defaults cfg = record cfg {
  interval = if cfg.interval == 0 then 5_000_000_000 else cfg.interval;
  timeout = if cfg.timeout == 0 then 2_000_000_000 else cfg.timeout;
  max_failures = if cfg.max_failures == 0 then 3 else cfg.max_failures;
}

module _ (fl : Floats) where
  open fl use {F, decimal, of_int, add_f, mul_f, div_f}

  pub record HealthCheckStats : Type 0 where
    pub checks : ℕ
    pub successes : ℕ
    pub failures : ℕ
    pub consec_fails : ℕ
    pub avg_rtt_ms : F
    pub last_rtt_ms : ℕ
    pub healthy : Bool

  -- `has_client` is false where the client could not be created.
  pub record HealthChecker : Type 0 where
    pub cfg : HealthCheckConfig
    pub stats : HealthCheckStats
    pub has_client : Bool

  unfoldable pub start_health_check : HealthCheckConfig → Bool → HealthChecker
  unfolding with_defaults
  start_health_check cfg has_client = record {
    cfg = with_defaults cfg;
    has_client = has_client;
    stats = record {
      checks = 0;
      successes = 0;
      failures = 0;
      consec_fails = 0;
      avg_rtt_ms = decimal 0 0;
      last_rtt_ms = 0;
      healthy = true;
    };
  }

  unfoldable pub ping_failed : HealthChecker → HealthChecker
  ping_failed hc =
      let fails = hc.stats.consec_fails + 1 in
      record hc {
        stats = record hc.stats {
          checks = hc.stats.checks + 1;
          failures = hc.stats.failures + 1;
          consec_fails = fails;
          healthy = if leb hc.cfg.max_failures fails then false else hc.stats.healthy;
        };
      }

  unfoldable pub ping_answered : ℕ → HealthChecker → HealthChecker
  ping_answered rtt hc =
      let successes = hc.stats.successes + 1 in
      let ms = rtt / 1_000_000 in
      record hc {
        stats = record hc.stats {
          checks = hc.stats.checks + 1;
          successes = successes;
          consec_fails = 0;
          healthy = true;
          last_rtt_ms = ms;
          avg_rtt_ms =
              div_f
                (add_f (mul_f hc.stats.avg_rtt_ms (of_int (pos (successes - 1)))) (of_int (pos ms)))
                (of_int (pos successes));
        };
      }

  unfoldable pub ping : Option ℕ → HealthChecker → HealthChecker
  ping none hc = ping_failed hc
  ping (some rtt) hc = if hc.has_client then ping_answered rtt hc else ping_failed hc

  abbrev pub is_healthy : HealthChecker → Bool
  is_healthy hc = hc.stats.healthy
