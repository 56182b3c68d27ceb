-- ===== src/Router/Sticky.antt =====
-- src/router.rs: the table of sticky sessions, `StickySessionState`. Instants and durations are
-- numbers of milliseconds, and the clock is an argument of the operations that read it. The hash of
-- a key is a parameter. An operation runs by itself: each holds the lock of the shard that it
-- changes, and the clean-up holds all of them.
pub mod Evict
pub mod Clean
pub mod Heap
pub mod Order
pub mod Loop
pub mod Oldest
pub mod Cleaned
pub mod Capacity
pub mod Cleanup
pub mod Shards
pub mod Binding
pub mod Sessions
pub mod Bindings
use neemata_proxy.Common.{
  ℕ, ◌+◌, ◌%◌, ◌^◌, ◌&&◌, Bool, true, false, Option, none, some, List, [], ◌∷◌, ltb, eqb,
  if◌then◌else◌, length, get_elem?, set, replicate, arith, ◌≡◌, ◌↔◌, Eq, ◌==◌, nat_eq, list_eq,
}
use neemata_proxy.Text.{Text, Run, panicked, returned}
use neemata_proxy.Map.{lookup, insert, remove, contains}
use neemata_proxy.Router.Affinity.{StickySessionConfig, affinity_key_of}
use neemata_proxy.Lb.{TransportKind}
use neemata_proxy.Router.Sticky.Evict.{AffinityMapKey, affinity_map_key_eq, AffinityEntry, Entries}
use neemata_proxy.Router.Sticky.Clean.{clean}

abbrev pub sticky_shard_count : ℕ
sticky_shard_count = 64

-- A mutex is poisoned if a thread panicked while it held the lock.
pub record StickyShard : Type 0 where
  pub entries : Entries
  pub poisoned : Bool
  pub op_counter : ℕ

pub record StickySessionState : Type 0 where
  pub config : StickySessionConfig
  pub shards : List StickyShard
  pub key_counter : ℕ

unfoldable pub new_shard : StickyShard
new_shard = record { entries = []; poisoned = false; op_counter = 0 }

-- The sticky part of `Router::new`.
unfoldable pub new_sticky : StickySessionConfig → Option StickySessionState
unfolding new_shard
new_sticky config =
    if config.enabled
    then some (record {
      config = config;
      shards = replicate sticky_shard_count new_shard;
      key_counter = 1;
    })
    else none

abbrev pub u64_end : ℕ
u64_end = 2 ^ 64

-- fetch_add(1), which wraps
abbrev pub bump : ℕ → ℕ
bump n = (n + 1) % u64_end

-- The counter of the key and the time in nanoseconds since the epoch.
unfoldable pub generate_affinity_key : ℕ → StickySessionState → StickySessionState × Text
generate_affinity_key now_nanos st =
    (record st { key_counter = bump st.key_counter }, affinity_key_of now_nanos st.key_counter)

-- `is_multiple_of(128)` of the counter before it is raised.
unfoldable pub should_cleanup : StickyShard → Bool
should_cleanup shard = eqb (shard.op_counter % 128) 0

abbrev pub count_op : StickyShard → StickyShard
count_op shard = record shard { op_counter = bump shard.op_counter }

-- The maps of the shards whose locks are had.
unfoldable pub guards : List StickyShard → List Entries
guards [] = []
guards (shard ∷ shards) =
    let rest = guards shards in if shard.poisoned then rest else shard.entries ∷ rest

-- The maps go back into their shards.
unfoldable pub put_back : List StickyShard → List Entries → List StickyShard
put_back [] maps = []
put_back (shard ∷ shards) [] = shard ∷ shards
put_back (shard ∷ shards) (m ∷ maps) = elim shard.poisoned [
  | true ↦ shard ∷ put_back shards (m ∷ maps)
  | false ↦ record shard { entries = m } ∷ put_back shards maps
]

unfoldable pub cleanup_global : ℕ → StickySessionState → StickySessionState
unfolding guards put_back
cleanup_global now st = record st {
  shards = put_back st.shards (clean now st.config.max_entries (guards st.shards));
}

module _ (hash : AffinityMapKey → ℕ) where
  unfoldable pub shard_index_for_key : StickySessionState → AffinityMapKey → ℕ
  shard_index_for_key st key = hash key % length st.shards

  abbrev pub put_shard : StickySessionState → ℕ → StickyShard → StickySessionState
  put_shard st i shard = record st { shards = set st.shards i shard }

  -- The match on `entries.get_mut(&key)`.
  unfoldable pub lookup_entry :
      ℕ
      → AffinityMapKey
      → List Text
      → StickySessionState
      → ℕ
      → StickyShard
      → StickySessionState × Option Text
  lookup_entry now key allowed_backends st i shard = elim (lookup key shard.entries) [
    | none ↦ (st, none)
    | some entry ↦
        if ltb now entry.expires_at && contains allowed_backends entry.backend
        then (
          put_shard st i (record shard {
            entries = insert key (record entry { expires_at = now + st.config.ttl }) shard.entries;
          }),
          some entry.backend,
        )
        else (put_shard st i (record shard { entries = remove key shard.entries }), none)
  ]

  -- From the lock of the shard on.
  unfoldable pub lookup_locked :
      ℕ → AffinityMapKey → List Text → StickySessionState → Run (StickySessionState × Option Text)
  unfolding lookup_entry
  lookup_locked now key allowed_backends st =
      let i = shard_index_for_key st key in
      elim (get_elem? st.shards i) [
        | none ↦ panicked
        | some shard ↦ returned (
            if shard.poisoned then (st, none) else lookup_entry now key allowed_backends st i shard)
      ]

  -- StickySessionState::lookup
  unfoldable pub lookup_sticky :
      ℕ → AffinityMapKey → List Text → StickySessionState → Run (StickySessionState × Option Text)
  lookup_sticky now key allowed_backends st =
      let i = shard_index_for_key st key in
      elim (get_elem? st.shards i) [
        | none ↦ panicked
        | some shard ↦
            let counted = put_shard st i (count_op shard) in
            lookup_locked now key allowed_backends
              (if should_cleanup shard then cleanup_global now counted else counted)
      ]

  -- StickySessionState::bind
  unfoldable pub bind : ℕ → AffinityMapKey → Text → StickySessionState → Run StickySessionState
  bind now key backend st =
      let i = shard_index_for_key st key in
      elim (get_elem? st.shards i) [
        | none ↦ panicked
        | some shard ↦ returned (
            if shard.poisoned
            then st
            else let bound = record shard {
              entries =
                  insert key (record { backend = backend; expires_at = now + st.config.ttl })
                    shard.entries;
              op_counter = bump shard.op_counter;
            } in
              if should_cleanup shard
              then cleanup_global now (put_shard st i bound)
              else put_shard st i bound)
      ]

  -- StickySessionState::remove
  unfoldable pub remove_sticky : AffinityMapKey → StickySessionState → Run StickySessionState
  remove_sticky key st =
      let i = shard_index_for_key st key in
      elim (get_elem? st.shards i) [
        | none ↦ panicked
        | some shard ↦ returned (
            if shard.poisoned
            then st
            else put_shard st i (record shard { entries = remove key shard.entries }))
      ]
