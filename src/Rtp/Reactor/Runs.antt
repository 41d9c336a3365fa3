-- ===== src/Rtp/Reactor/Runs.antt =====
-- A cycle of a shard of five items.
use xk6_sip_media.Prelude.{ℕ, ◌-◌, ◌≡◌, ◌==◌, Bool, not, List, [], ◌∷◌, ◌++◌, length, replicate}
use xk6_sip_media.Rtp.Reactor.{tick}
use xk6_sip_media.Rtp.Reactor.Prune.{kept_of, tick-pruned}

abbrev shard : List ℕ
shard = 11 ∷ 12 ∷ 13 ∷ 12 ∷ 14 ∷ []

abbrev keep : ℕ → Bool
keep item = not (item == 12)

tick-pruned_example :
    let t = tick keep shard in
    let kept = kept_of keep shard in
    (t.ticked ≡ shard)
    × (t.active ≡ length kept)
    × (t.items ≡ kept ++ replicate (length shard - length kept) 0)
tick-pruned_example = tick-pruned keep shard
