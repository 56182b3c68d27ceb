-- ===== src/Router/Sticky/Shards.antt =====
-- What it does to the stored entries when one shard is replaced.
use neemata_proxy.Common.{
  ℕ, ◌%◌, ◌≡◌, refl, ap, inl, inr, ◌≢◌, false, some, List, eqb, eqb_iff, length, get_elem?, set,
  length-set, arith, Bool-cases, get_elem?-set_self, get_elem?-set_ne,
}
use neemata_proxy.Map.{lookup, Distinct}
use neemata_proxy.Router.Sticky.Evict.{AffinityMapKey, affinity_map_key_eq, Entries}
use neemata_proxy.Router.Sticky.Heap.{entry_at}
use neemata_proxy.Router.Sticky.Capacity.{set-Distinct}
use neemata_proxy.Router.Sticky.{
  StickyShard, StickySessionState, guards, shard_index_for_key, put_shard,
}
use neemata_proxy.Router.Sticky.Cleanup.{IsSound, stored, guards-set}

-- A sound table stays sound, with the same shards and configuration.
pub record IsUpdated (st end : StickySessionState) (maps : List Entries) : Type 0 where
  pub sound : IsSound end
  pub sharded : length end.shards ≡ length st.shards
  pub config : end.config ≡ st.config
  pub maps_are : guards end.shards ≡ maps

pub put_shard-IsUpdated :
    (hash : AffinityMapKey → ℕ) (st : StickySessionState) (i : ℕ) (shard : StickyShard)
    → IsSound st
    → shard.poisoned ≡ false
    → Distinct shard.entries
    → IsUpdated st (put_shard hash st i shard) (set (guards st.shards) i shard.entries)
put_shard-IsUpdated hash st i shard v p d =
    let (same, fine) = guards-set st.shards i shard v.healthy p in
    record {
      sound = record {
        sharded = rw (length-set st.shards i shard) v.sharded;
        healthy = fine;
        distinct = rw same (set-Distinct (guards st.shards) i shard.entries v.distinct d);
      };
      sharded = length-set st.shards i shard;
      config = refl;
      maps_are = same;
    }

pub entry_at-set_self :
    (maps : List Entries) (i : ℕ) (m m' : Entries) (k : AffinityMapKey)
    → get_elem? maps i ≡ some m
    → entry_at i k (set maps i m') ≡ lookup k m'
unfolding entry_at
entry_at-set_self maps i m m' k at = rw (get_elem?-set_self maps i m' m at, entry_at) refl

pub entry_at_here :
    (maps : List Entries) (i : ℕ) (m : Entries) (k : AffinityMapKey)
    → get_elem? maps i ≡ some m
    → entry_at i k maps ≡ lookup k m
unfolding entry_at
entry_at_here maps i m k at = rw (at, entry_at) refl

-- Where one map changes at one key only, the entries of all other keys stay.
pub entry_at-set_other :
    (maps : List Entries) (i : ℕ) (m m' : Entries) (j : ℕ) (k : AffinityMapKey)
    → get_elem? maps i ≡ some m
    → lookup k m' ≡ lookup k m
    → entry_at j k (set maps i m') ≡ entry_at j k maps
unfolding entry_at
entry_at-set_other maps i m m' j k at same = elim (Bool-cases (eqb i j)) [
  | inl here ↦
      let e = (eqb_iff i j).0 here in ground (arith, e, at, same, get_elem?-set_self maps i m' m at)
  | inr apart ↦
      let ne : i ≢ j = ground (arith, apart) in rw (get_elem?-set_ne maps i j m' ne, entry_at) refl
]

-- In tables with the same number of shards a key has the same shard.
pub stored_same :
    (hash : AffinityMapKey → ℕ) (st end : StickySessionState) (key : AffinityMapKey)
    → length end.shards ≡ length st.shards
    → stored hash end key ≡ entry_at (shard_index_for_key hash st key) key (guards end.shards)
unfolding stored shard_index_for_key
stored_same hash st end key l = ap (λ n. entry_at (hash key % n) key (guards end.shards)) l
