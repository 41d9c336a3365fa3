-- ===== src/Rtp/Reactor.antt =====
-- core/rtp/reactor.go: the shards that drive players and jitter buffers. An item is the address of
-- a Tickable, 0 is nil, and `keep` tells what the Tick of an item returns in this cycle. The
-- goroutines and channels that call `tick` are left out.
pub mod Prune
mod Runs
use xk6_sip_media.Prelude.{
  ℕ, zero, suc, ◌+◌, ◌-◌, ◌/◌, ◌%◌, Bool, List, [], ◌∷◌, ◌++◌, if◌then◌else◌, length, get_or, set,
  take, replicate, ltb,
}
use xk6_sip_media.Prelude.Bytes.{u64}

pub record Reactor : Type 0 where
  pub shards : List (List ℕ)
  pub n_shards : ℕ
  pub next : ℕ

-- What the loop over a shard leaves: the backing array, the length of `active`, and the items
-- whose Tick was called, in order.
pub record Pruned : Type 0 where
  pub items : List ℕ
  pub active : ℕ
  pub ticked : List ℕ

-- `active` shares the array that the loop reads: `append` writes to index `active` of it.
unfoldable pub tick_loop : (ℕ → Bool) → ℕ → ℕ → ℕ → List ℕ → Pruned
tick_loop keep zero i active items = record { items = items; active = active; ticked = [] }
tick_loop keep (suc left) i active items =
    let item = get_or items i 0 in
    let kept = tick_loop keep left (i + 1) (active + 1) (set items active item) in
    let dropped = tick_loop keep left (i + 1) active items in
    if keep item
    then record kept { ticked = item ∷ kept.ticked }
    else record dropped { ticked = item ∷ dropped.ticked }

-- The loop that sets the tail to nil.
unfoldable pub zero_tail : ℕ → ℕ → List ℕ → List ℕ
zero_tail zero i items = items
zero_tail (suc left) i items = zero_tail left (i + 1) (set items i 0)

unfoldable pub tick : (ℕ → Bool) → List ℕ → Pruned
tick keep items =
    let t = tick_loop keep (length items) 0 0 items in
    record t { items = zero_tail (length items - t.active) t.active t.items }

unfoldable pub new_reactor : ℕ → Reactor
new_reactor num_cpu =
    let n = if ltb num_cpu 2 then 2 else num_cpu in
    record { shards = replicate n []; n_shards = n; next = 0 }

unfoldable pub add : ℕ → Reactor → Reactor
add t r =
    let idx = r.next % r.n_shards in
    record r {
      next = u64 (r.next + 1);
      shards = set r.shards idx (get_or r.shards idx [] ++ t ∷ []);
    }

unfoldable pub total : List (List ℕ) → ℕ
total [] = 0
total (s ∷ rest) = length s + total rest

abbrev pub len : Reactor → ℕ
len r = total r.shards
