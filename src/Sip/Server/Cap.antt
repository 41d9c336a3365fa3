-- ===== src/Sip/Server/Cap.antt =====
-- The cap on concurrent calls, and what becomes of it without a duration.
use xk6_sip_media.Prelude.{ℕ, ◌+◌, ◌≤◌, ◌<◌, ◌≡◌, refl, sym, List, [], ◌∷◌, arith}
use mathlib.Core.Path.{subst}
use xk6_sip_media.Sip.Server.{
  ServerConfig, Server, new_server, take_place, give_back, proceed, finish, Event, arrives,
  proceeds, sleeps_out, advance, run,
}

-- The count is that of the handlers behind the cap, and is 0 without a cap.
abbrev pub Counted : ServerConfig → Server → Type 0
Counted cfg s =
    (s.active ≤ cfg.max_concurrent) × (0 < cfg.max_concurrent → s.active ≡ s.started + s.waiting)

module _ (cfg : ServerConfig) (wide : ℕ → ℕ) where
  advance-Counted : (e : Event) (s : Server) → Counted cfg s → Counted cfg (advance cfg wide e s)
  unfolding advance take_place give_back proceed finish
  advance-Counted arrives s (a, b) = (ground (arith, a, b), λ c. ground (arith, a, b, c))
  advance-Counted (proceeds body rtp_port sent bound) s (a, b) =
      (ground (arith, a, b), λ c. ground (arith, a, b, c))
  advance-Counted sleeps_out s (a, b) = (ground (arith, a, b), λ c. ground (arith, a, b, c))

  pub run-Counted :
      (events : List Event) (s : Server) → Counted cfg s → Counted cfg (run cfg wide events s)
  unfolding run
  run-Counted [] s h = h
  run-Counted (e ∷ events) s h = run-Counted events (advance cfg wide e s) (advance-Counted e s h)

  -- A busy answer for each INVITE.
  abbrev pub all_busy : List Event → List ℕ → List ℕ
  all_busy [] replies = replies
  all_busy (arrives ∷ events) replies = all_busy events (486 ∷ replies)
  all_busy (other ∷ events) replies = all_busy events replies

  abbrev pub Full : List Event → List ℕ → ℕ → Server → Type 0
  Full events replies results s =
      ((run cfg wide events s).responses ≡ all_busy events replies)
      × ((run cfg wide events s).results ≡ results)

  later_busy :
      (events : List Event) (s : Server)
      → cfg.call_duration ≡ 0
      → 0 < cfg.max_concurrent
      → s.waiting ≡ cfg.max_concurrent
      → s.active ≡ s.waiting
      → s.started ≡ 0
      → Full events s.responses s.results s
  unfolding run advance take_place
  later_busy [] s d m w a b = (refl, refl)
  later_busy (arrives ∷ events) s d m w a b =
      let t = record s { responses = 486 ∷ s.responses } in
      let e : take_place cfg s ≡ t = ground (arith, m, w, a) in
      subst (Full events (486 ∷ s.responses) s.results) (sym e) (later_busy events t d m w a b)
  later_busy (proceeds body rtp_port sent bound ∷ events) s d m w a b =
      let e : advance cfg wide (proceeds body rtp_port sent bound) s ≡ s = ground (arith, b) in
      subst (Full events s.responses s.results) (sym e) (later_busy events s d m w a b)
  later_busy (sleeps_out ∷ events) s d m w a b =
      let e : advance cfg wide sleeps_out s ≡ s = ground (arith, d) in
      subst (Full events s.responses s.results) (sym e) (later_busy events s d m w a b)

  counts :
      (s : Server)
      → Counted cfg s
      → 0 < cfg.max_concurrent
      → s.waiting ≡ cfg.max_concurrent
      → (s.active ≡ s.waiting) × (s.started ≡ 0)
  counts s (a, b) m w = let c = b m in (omega (arith, a, c, w), omega (arith, a, c, w))

  -- On a server with a cap and no duration, whatever came before: once as many calls are up as the
  -- cap allows, every later INVITE is answered with 486, and no call ever gives a result.
  pub never_frees :
      (before later : List Event)
      → cfg.call_duration ≡ 0
      → 0 < cfg.max_concurrent
      → let s = run cfg wide before new_server in
        s.waiting ≡ cfg.max_concurrent → Full later s.responses s.results s
  never_frees before later d m w =
      let s = run cfg wide before new_server in
      let counted = run-Counted before new_server (omega arith, λ c. refl) in
      let (a, b) = counts s counted m w in later_busy later s d m w a b
