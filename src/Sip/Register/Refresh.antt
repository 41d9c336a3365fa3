-- ===== src/Sip/Register/Refresh.antt =====
-- The interval of the refresh keeps the binding alive.
use xk6_sip_media.Prelude.{ℕ, ◌+◌, ◌*◌, ◌/◌, ◌≤◌, ◌<◌, ◌≡◌, arith}
use xk6_sip_media.Sip.Register.{refresh_interval}

-- For a lifetime of one second at least: the interval is one second at least and at most the
-- lifetime; it leaves five seconds of it where it has six at least, and is half of it from ten on.
refresh_interval_bounds :
    (expires : ℕ)
    → 1 ≤ expires
    → (1 ≤ refresh_interval expires)
      × (refresh_interval expires ≤ expires)
      × (6 ≤ expires → refresh_interval expires + 5 ≤ expires)
      × (10 ≤ expires → refresh_interval expires ≡ expires / 2)
unfolding refresh_interval
refresh_interval_bounds expires h = ground arith

lt_floor : (n k : ℕ) → 1 ≤ k → n < n / k * k + k
lt_floor n k h = omega arith

-- The time of the last refresh before `now`, with the first registration at 0.
abbrev pub last_refresh : ℕ → ℕ → ℕ
last_refresh expires now = now / refresh_interval expires * refresh_interval expires

-- With the registration at 0 and one refresh after every interval, all of them accepted, a binding
-- with a lifetime of one second at least has not run out at any time.
pub never_lapses : (expires now : ℕ) → 1 ≤ expires → now < last_refresh expires now + expires
never_lapses expires now h =
    let (positive, below, wide, half) = refresh_interval_bounds expires h in
    let floor = lt_floor now (refresh_interval expires) positive in omega (arith, floor, below)
