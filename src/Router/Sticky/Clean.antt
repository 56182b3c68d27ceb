-- ===== src/Router/Sticky/Clean.antt =====
-- src/router.rs: `cleanup_global` over the maps of the shards whose locks it holds.
use neemata_proxy.Common.{
  ℕ, zero, suc, ◌+◌, ◌-◌, List, [], ◌∷◌, map, ltb, leb, if◌then◌else◌, length,
}
use neemata_proxy.Map.{remove}
use neemata_proxy.Router.Sticky.Evict.{affinity_map_key_eq, Entries, candidates, evict}

-- entries.retain(|_, entry| entry.expires_at > now)
unfoldable pub retain : ℕ → Entries → Entries
retain now [] = []
retain now ((key, entry) ∷ entries) =
    let rest = retain now entries in if ltb now entry.expires_at then (key, entry) ∷ rest else rest

abbrev pub retain_all : ℕ → List Entries → List Entries
retain_all now shards = map (retain now) shards

unfoldable pub total : List Entries → ℕ
total [] = 0
total (entries ∷ shards) = length entries + total shards

-- The inner `while remaining > 0` loop at one shard, with what remains after it.
unfoldable pub drop_keys : ℕ → Entries → Entries × ℕ
drop_keys zero entries = (entries, 0)
drop_keys (suc remaining) [] = ([], suc remaining)
drop_keys (suc remaining) ((key, entry) ∷ entries) =
    drop_keys remaining (remove key ((key, entry) ∷ entries))

-- The last loop, which a shard with nothing remaining leaves as it is.
unfoldable pub drop_rest : ℕ → List Entries → List Entries
unfolding drop_keys
drop_rest remaining [] = []
drop_rest remaining (entries ∷ shards) =
    let dropped = drop_keys remaining entries in dropped.0 ∷ drop_rest dropped.1 shards

-- What follows the eviction loop.
unfoldable pub finish : ℕ → List Entries × ℕ → List Entries
unfolding drop_rest
finish overflow (shards, removed) =
    if leb overflow removed then shards else drop_rest (overflow - removed) shards

unfoldable pub shrink : ℕ → List Entries → List Entries
shrink overflow shards =
    let items = candidates 0 0 shards in
    finish overflow (evict (length items) overflow 0 items shards)

unfoldable pub clean : ℕ → ℕ → List Entries → List Entries
clean now max_entries shards =
    let live = retain_all now shards in
    let current_entries = total live in
    if leb current_entries max_entries then live else shrink (current_entries - max_entries) live
