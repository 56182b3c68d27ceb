-- ===== src/Tests/Sessions.antt =====
-- Sticky tables of two shards, and requests that use them.
use neemata_proxy.Common.{
  ℕ, ◌≤◌, ◌<◌, ◌≡◌, ◌≢◌, list_beq, ◌⊎◌, refl, false, Option, none, some, List, [], ◌∷◌, list_eq,
  nat_eq, arith, length,
}
use neemata_proxy.Text.{Text, returned, lit}
use neemata_proxy.Lb.{http1}
use neemata_proxy.Map.{lookup, contains}
use neemata_proxy.Router.Sticky.Evict.{AffinityMapKey, AffinityEntry, Entries}
use neemata_proxy.Router.Sticky.Clean.{retain_all, total, clean}
use neemata_proxy.Router.Sticky.Capacity.{AllDistinct, clean-total}
use neemata_proxy.Router.Sticky.Cleaned.{IsCleaned, clean-IsCleaned}
use neemata_proxy.Router.Sticky.Cleanup.{IsSound, stored, cleanup_global-IsCleaned}
use neemata_proxy.Router.Sticky.Binding.{IsKept, usable, renewed}
use neemata_proxy.Router.Sticky.Sessions.{IsOver, lookup_sticky-stored}
use neemata_proxy.Router.Sticky.Bindings.{IsBound, bind-IsBound, bind-lookup, remove_sticky-stored}
use neemata_proxy.Router.Sticky.{
  StickySessionState, guards, cleanup_global, lookup_sticky, bind, remove_sticky,
}
use neemata_proxy.Tests.Requests.{nmt_config}

abbrev pub chat_key : AffinityMapKey
chat_key = record { app_name = lit "chat"; transport = http1; affinity_key = lit "k7" }

abbrev other_key : AffinityMapKey
other_key = record { app_name = lit "chat"; transport = http1; affinity_key = lit "k8" }

abbrev entry : AffinityEntry
entry = record { backend = lit "10.0.0.1:80"; expires_at = 1000 }

abbrev maps : List Entries
maps = ((chat_key, entry) ∷ []) ∷ [] ∷ []

maps_distinct : AllDistinct maps
unfolding lookup
maps_distinct = ((refl, tt), (tt, tt))

abbrev pub hash : AffinityMapKey → ℕ
hash key = 0

abbrev pub table : StickySessionState
table = record {
  config = nmt_config;
  shards =
      record { entries = (chat_key, entry) ∷ []; poisoned = false; op_counter = 0 }
      ∷ record { entries = []; poisoned = false; op_counter = 5 }
      ∷ [];
  key_counter = 1;
}

pub table-IsSound : IsSound table
unfolding guards
table-IsSound = record {
  sharded = omega arith;
  healthy = (refl, (refl, tt));
  distinct = maps_distinct;
}

abbrev pub backends : List Text
backends = lit "10.0.0.1:80" ∷ lit "10.0.0.2:80" ∷ []

clean-total_example :
    ((total (retain_all 5 maps) ≤ 0) × (clean 5 0 maps ≡ retain_all 5 maps))
    ⊎ ((0 < total (retain_all 5 maps)) × (total (clean 5 0 maps) ≡ 0))
clean-total_example = clean-total 5 0 maps maps_distinct

clean-IsCleaned_example : IsCleaned 5 1 maps (clean 5 1 maps)
clean-IsCleaned_example = clean-IsCleaned 5 1 maps maps_distinct

lookup_sticky-stored_example :
    (end : StickySessionState) × (answer : Option Text) × (lookup_sticky hash 5 chat_key backends
        table
      ≡ returned (end, answer))
    × IsKept table end
    × (total (guards end.shards) ≤ total (guards table.shards))
    × (((answer ≡ usable 5 backends (stored hash table chat_key))
          × (stored hash end chat_key ≡ renewed 5 600000 backends (stored hash table chat_key)))
        ⊎ (IsOver 5 table × (answer ≡ none) × (stored hash end chat_key ≡ none)))
lookup_sticky-stored_example = lookup_sticky-stored hash 5 chat_key backends table table-IsSound

bind-IsBound_example :
    (end : StickySessionState) × (bind hash 5 other_key (lit "10.0.0.2:80") table ≡ returned end)
    × IsBound hash 5 other_key (lit "10.0.0.2:80") table end
bind-IsBound_example =
    bind-IsBound hash 5 other_key (lit "10.0.0.2:80") table table-IsSound (omega arith)

bind-lookup_example :
    (bound end : StickySessionState) × (bind hash 5 other_key (lit "10.0.0.2:80") table
      ≡ returned bound)
    × (lookup_sticky hash 9 other_key backends bound ≡ returned (end, some (lit "10.0.0.2:80")))
unfolding guards total contains lit list_beq
bind-lookup_example =
    bind-lookup hash 5 9 other_key (lit "10.0.0.2:80") backends table table-IsSound (omega arith)
      refl (omega arith) (omega arith)

remove_sticky-stored_example :
    (end : StickySessionState) × (remove_sticky hash chat_key table ≡ returned end)
    × IsKept table end
    × (stored hash end chat_key ≡ none)
    × ((q : AffinityMapKey) → q ≢ chat_key → stored hash end q ≡ stored hash table q)
remove_sticky-stored_example = remove_sticky-stored hash chat_key table table-IsSound

cleanup_global-IsCleaned_example :
    let end = cleanup_global 5 table in
    IsSound end
    × (length end.shards ≡ length table.shards)
    × (end.config ≡ table.config)
    × IsCleaned 5 2 (guards table.shards) (guards end.shards)
cleanup_global-IsCleaned_example = cleanup_global-IsCleaned 5 table table-IsSound
