-- ===== src/Router/Sticky/Cleanup.antt =====
-- The table as a whole: what is stored under a key, when the table is sound, and the clean-up of it.
use neemata_proxy.Common.{
  ℕ, zero, suc, ◌%◌, ◌<◌, ◌≡◌, refl, ap, sym, ◌∙◌, false, Option, some, List, [], ◌∷◌, length,
  get_elem?, set, replicate, arith, All, get_elem?_of_lt,
}
use native.Mathlib.Nat.{mod-lt}
use neemata_proxy.Router.Sticky.Evict.{AffinityMapKey, affinity_map_key_eq, AffinityEntry, Entries}
use neemata_proxy.Router.Sticky.Heap.{entry_at}
use neemata_proxy.Router.Sticky.Clean.{clean}
use neemata_proxy.Router.Sticky.Capacity.{AllDistinct}
use neemata_proxy.Router.Sticky.Cleaned.{IsCleaned, clean-IsCleaned, clean-Distinct}
use neemata_proxy.Router.Sticky.{
  StickyShard, StickySessionState, new_shard, guards, put_back, cleanup_global, shard_index_for_key,
}

-- No thread has panicked under a lock: nothing that runs under one can panic.
abbrev pub IsHealthy : List StickyShard → Type 0
IsHealthy shards = All (λ shard. shard.poisoned ≡ false) shards

pub record IsSound (st : StickySessionState) : Type 0 where
  pub sharded : 0 < length st.shards
  pub healthy : IsHealthy st.shards
  pub distinct : AllDistinct (guards st.shards)

-- What is stored under a key.
unfoldable pub stored :
    (AffinityMapKey → ℕ) → StickySessionState → AffinityMapKey → Option AffinityEntry
stored hash st key = entry_at (shard_index_for_key hash st key) key (guards st.shards)

pub get_elem?-guards :
    (shards : List StickyShard) (i : ℕ) (shard : StickyShard)
    → IsHealthy shards
    → get_elem? shards i ≡ some shard
    → (get_elem? (guards shards) i ≡ some shard.entries) × (shard.poisoned ≡ false)
unfolding guards
get_elem?-guards [] i shard h at = absurd (cc)
get_elem?-guards (s ∷ shards) zero shard (p, ps) at =
    let same : s ≡ shard = ground arith in
    (
      ground (arith, p, ap (λ (x : StickyShard). x.entries) same),
      sym (ap (λ (x : StickyShard). x.poisoned) same) ∙ p,
    )
get_elem?-guards (s ∷ shards) (suc i) shard (p, ps) at =
    let (found, fine) = get_elem?-guards shards i shard ps at in (rw (p, guards) found, fine)

pub guards-set :
    (shards : List StickyShard) (i : ℕ) (shard : StickyShard)
    → IsHealthy shards
    → shard.poisoned ≡ false
    → (guards (set shards i shard) ≡ set (guards shards) i shard.entries)
      × IsHealthy (set shards i shard)
unfolding guards
guards-set [] i shard h p = (refl, tt)
guards-set (s ∷ shards) zero shard (q, qs) p = (ground (arith, p, q), (p, qs))
guards-set (s ∷ shards) (suc i) shard (q, qs) p =
    let (same, fine) = guards-set shards i shard qs p in (ground (arith, q, same), (q, fine))

length-guards :
    (shards : List StickyShard) → IsHealthy shards → length (guards shards) ≡ length shards
unfolding guards
length-guards [] h = refl
length-guards (s ∷ shards) (p, ps) = ground (arith, p, length-guards shards ps)

guards-put_back :
    (shards : List StickyShard) (maps : List Entries)
    → IsHealthy shards
    → length maps ≡ length shards
    → (guards (put_back shards maps) ≡ maps)
      × IsHealthy (put_back shards maps)
      × (length (put_back shards maps) ≡ length shards)
unfolding guards put_back
guards-put_back [] [] h l = (refl, tt, refl)
guards-put_back [] (m ∷ maps) h l = absurd (omega arith)
guards-put_back (s ∷ shards) [] h l = absurd (omega arith)
guards-put_back (s ∷ shards) (m ∷ maps) (p, ps) l =
    let (same, fine, long) = guards-put_back shards maps ps (omega arith) in
    rw (p, put_back) (rw (p, guards) (ap (◌∷◌ m) same), (p, fine), ap suc long)

-- The clean-up of a sound table leaves a sound table with the same shards and configuration, whose
-- entries are those that `IsCleaned` describes.
pub cleanup_global-IsCleaned :
    (now : ℕ) (st : StickySessionState)
    → IsSound st
    → let end = cleanup_global now st in
      IsSound end
      × (length end.shards ≡ length st.shards)
      × (end.config ≡ st.config)
      × IsCleaned now st.config.max_entries (guards st.shards) (guards end.shards)
unfolding cleanup_global
cleanup_global-IsCleaned now st v =
    let maps = guards st.shards in
    let cleaned = clean now st.config.max_entries maps in
    let (d, l) = clean-Distinct now st.config.max_entries maps v.distinct in
    let (same, fine, long) =
      guards-put_back st.shards cleaned v.healthy (l ∙ length-guards st.shards v.healthy) in
    (
      record { sharded = rw long v.sharded; healthy = fine; distinct = rw same d },
      long,
      refl,
      rw same (clean-IsCleaned now st.config.max_entries maps v.distinct),
    )

-- The shard of a key is there.
pub shard_of_key :
    (hash : AffinityMapKey → ℕ) (st : StickySessionState) (key : AffinityMapKey)
    → IsSound st
    → (shard : StickyShard) × (get_elem? st.shards (shard_index_for_key hash st key) ≡ some shard)
unfolding shard_index_for_key
shard_of_key hash st key v =
    get_elem?_of_lt st.shards (hash key % length st.shards) (mod-lt (hash key) v.sharded)

all_new : (n : ℕ) → IsHealthy (replicate n new_shard) × AllDistinct (guards (replicate n new_shard))
unfolding new_shard guards
all_new zero = (tt, tt)
all_new (suc n) = let (h, d) = all_new n in ((refl, h), (tt, d))
