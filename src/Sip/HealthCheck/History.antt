-- ===== src/Sip/HealthCheck/History.antt =====
-- What the checker says after any history of pings.
use xk6_sip_media.Prelude.{ℕ, ◌+◌, ◌≤◌, ◌≡◌, true, Option, none, some, List, [], ◌∷◌}
use xk6_sip_media.Prelude.{ltb, ◌==◌, if◌then◌else◌, length, arith}
use xk6_sip_media.Prelude.Floats.{Floats}
use xk6_sip_media.Sip.HealthCheck.{
  HealthCheckConfig, HealthChecker, start_health_check, ping, ping_failed, ping_answered,
  is_healthy,
}

-- A history has the latest ping first.
unfoldable pub failed_in_a_row : List (Option ℕ) → ℕ
failed_in_a_row [] = 0
failed_in_a_row (none ∷ older) = failed_in_a_row older + 1
failed_in_a_row (some rtt ∷ older) = 0

unfoldable pub answered : List (Option ℕ) → ℕ
answered [] = 0
answered (none ∷ older) = answered older
answered (some rtt ∷ older) = answered older + 1

module _ (fl : Floats) where
  unfoldable pub after : HealthChecker fl → List (Option ℕ) → HealthChecker fl
  after hc [] = hc
  after hc (p ∷ older) = ping fl p (after hc older)

  -- The limit that is in force: 0 stands for 3.
  abbrev pub limit : HealthCheckConfig → ℕ
  limit cfg = if cfg.max_failures == 0 then 3 else cfg.max_failures

  pub record Reports (hc : HealthChecker fl) (max : ℕ) (history : List (Option ℕ)) : Type 0 where
    pub checks_are : hc.stats.checks ≡ length history
    pub successes_are : hc.stats.successes ≡ answered history
    pub failures_are : hc.stats.failures + answered history ≡ length history
    pub fails_are : hc.stats.consec_fails ≡ failed_in_a_row history
    pub healthy_is : is_healthy fl hc ≡ ltb (failed_in_a_row history) max
    pub max_is : hc.cfg.max_failures ≡ max
    pub client_is : hc.has_client ≡ true

  ping-Reports :
      (p : Option ℕ) (hc : HealthChecker fl) (max : ℕ) (history : List (Option ℕ))
      → 1 ≤ max
      → Reports hc max history
      → Reports (ping fl p hc) max (p ∷ history)
  unfolding ping ping_failed ping_answered failed_in_a_row answered
  ping-Reports none hc max history pos_max h = record {
    checks_are = omega (arith, h.checks_are);
    successes_are = h.successes_are;
    failures_are = omega (arith, h.failures_are);
    fails_are = omega (arith, h.fails_are);
    healthy_is = ground (arith, h);
    max_is = h.max_is;
    client_is = h.client_is;
  }
  ping-Reports (some rtt) hc max history pos_max h = ground (arith, h)

  -- After any history of pings of a checker that has its client, the counters are those of the
  -- history, and IsHealthy returns true exactly if fewer pings in a row have failed than the limit,
  -- which is 3 where the configuration says 0.
  pub after-Reports :
      (cfg : HealthCheckConfig) (history : List (Option ℕ))
      → Reports (after (start_health_check fl cfg true) history) (limit cfg) history
  unfolding start_health_check after failed_in_a_row answered
  after-Reports cfg [] = ground arith
  after-Reports cfg (p ∷ older) =
      ping-Reports p (after (start_health_check fl cfg true) older) (limit cfg) older (ground arith)
        (after-Reports cfg older)
