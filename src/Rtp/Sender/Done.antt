-- ===== src/Rtp/Sender/Done.antt =====
-- The completion callback and the counters, whatever the environment does.
use xk6_sip_media.Prelude.{ℕ, ◌+◌, ◌≡◌, Bool, true, false}
use xk6_sip_media.Prelude.{Option, List, [], ◌∷◌, ◌++◌, arith, length, length-append}
use xk6_sip_media.Prelude.{if◌then◌else◌}
use xk6_sip_media.Rtp.Packet.{Packet}
use xk6_sip_media.Rtp.Session.{next_seq_ts}
use xk6_sip_media.Rtp.Sender.{StreamPlayer, TickResult, tick, run, finish, emit}
use xk6_sip_media.Rtp.Sender.{count_sent}

-- The bytes of all datagrams.
abbrev pub total_length : List (List ℕ) → ℕ
total_length [] = 0
total_length (x ∷ xs) = length x + total_length xs

total_length-append :
    (xs ys : List (List ℕ)) → total_length (xs ++ ys) ≡ total_length xs + total_length ys
total_length-append [] ys = omega arith
total_length-append (x ∷ xs) ys = omega (arith, total_length-append xs ys)

-- What one tick, or a run of them, does to a player: while the player is kept the callback stays
-- armed and is not called; at the end it is called if it was armed. The counters count what is sent.
pub record Accounts (p : StreamPlayer) (t : TickResult) : Type 0 where
  pub silent_while_kept : t.kept ≡ true → (t.done_calls ≡ 0) × (t.player.on_done ≡ p.on_done)
  pub called_at_end : t.kept ≡ false → t.done_calls ≡ (if p.on_done then 1 else 0)
  pub disarmed_at_end : t.kept ≡ false → t.player.on_done ≡ false
  pub packets : t.player.stats.packets_sent ≡ p.stats.packets_sent + length t.sent
  pub bytes : t.player.stats.bytes_sent ≡ p.stats.bytes_sent + total_length t.sent

module _ (marshal : Packet → Option (List ℕ)) where
  tick-Accounts :
      (stop send_ok : Bool) (p : StreamPlayer) → Accounts p (tick marshal stop send_ok p)
  unfolding tick finish emit count_sent next_seq_ts
  tick-Accounts stop send_ok p = ground arith

  -- Over any run of ticks, whatever the socket does and whenever the stream is stopped: while the
  -- player is kept `onDone` is not called, when it is dropped `onDone` was called exactly once if
  -- it was given and is forgotten, and the packet and byte counters grew by the number and the
  -- length of the datagrams sent.
  pub run-Accounts : (env : List (Bool × Bool)) (p : StreamPlayer) → Accounts p (run marshal env p)
  unfolding run
  run-Accounts [] p = ground arith
  run-Accounts ((stop, send_ok) ∷ env) p =
      let t = tick marshal stop send_ok p in
      ground (
        arith,
        tick-Accounts stop send_ok p,
        run-Accounts env t.player,
        length-append t.sent (run marshal env t.player).sent,
        total_length-append t.sent (run marshal env t.player).sent,
      )
