-- ===== src/Router/Sticky/Binding.antt =====
-- `lookup`, `bind` and `remove` against the entry that is stored under a key.
use neemata_proxy.Common.{
  ℕ, ◌+◌, ◌≤◌, ◌≡◌, refl, ap, sym, ◌∙◌, inl, inr, ◌&&◌, false, Option, none, some, List, ltb,
  if◌then◌else◌, length, get_elem?, arith, Option-cases, Bool-cases, list_eq, nat_eq,
}
use neemata_proxy.Text.{Text, returned}
use neemata_proxy.Map.{
  lookup, insert, remove, contains, Distinct, insert-Distinct, remove-Distinct, lookup-insert_self,
  lookup-remove, length-remove, length-insert_known,
}
use neemata_proxy.Router.Sticky.Evict.{
  AffinityMapKey, affinity_map_key_eq, key_beq_iff, AffinityEntry, Entries,
}
use neemata_proxy.Router.Sticky.Heap.{entry_at}
use neemata_proxy.Router.Sticky.Capacity.{get-Distinct, total-set}
use neemata_proxy.Router.Sticky.Clean.{total}
use neemata_proxy.Router.Sticky.{
  StickyShard, StickySessionState, guards, shard_index_for_key, put_shard, lookup_entry,
  lookup_locked,
}
use neemata_proxy.Router.Sticky.Cleanup.{IsSound, stored, get_elem?-guards, shard_of_key}
use neemata_proxy.Router.Sticky.Shards.{
  IsUpdated, put_shard-IsUpdated, entry_at-set_self, entry_at_here, stored_same,
}

-- The backend that a stored entry gives at `now`, if it may be used.
abbrev pub usable : ℕ → List Text → Option AffinityEntry → Option Text
usable now allowed none = none
usable now allowed (some e) =
    if ltb now e.expires_at && contains allowed e.backend then some e.backend else none

-- What is stored after it has been looked up: the entry with a new term, or nothing.
abbrev pub renewed : ℕ → ℕ → List Text → Option AffinityEntry → Option AffinityEntry
renewed now ttl allowed none = none
renewed now ttl allowed (some e) =
    if ltb now e.expires_at && contains allowed e.backend
    then some (record e { expires_at = now + ttl })
    else none

-- The table keeps its shards and configuration, and is sound.
pub record IsKept (st end : StickySessionState) : Type 0 where
  pub sound : IsSound end
  pub sharded : length end.shards ≡ length st.shards
  pub config : end.config ≡ st.config

pub IsUpdated-IsKept :
    (st end : StickySessionState) (maps : List Entries) → IsUpdated st end maps → IsKept st end
IsUpdated-IsKept st end maps u = record { sound = u.sound; sharded = u.sharded; config = u.config }

module _ (hash : AffinityMapKey → ℕ) (now : ℕ) (key : AffinityMapKey) (allowed : List Text)
    (st : StickySessionState) (v : IsSound st) (i : ℕ) (shard : StickyShard)
    (at : get_elem? st.shards i ≡ some shard) where
  map_at : get_elem? (guards st.shards) i ≡ some shard.entries
  map_at = (get_elem?-guards st.shards i shard v.healthy at).0

  open_shard : shard.poisoned ≡ false
  open_shard = (get_elem?-guards st.shards i shard v.healthy at).1

  shard-Distinct : Distinct shard.entries
  shard-Distinct = get-Distinct (guards st.shards) i shard.entries v.distinct map_at

  -- A shard with another map at one key: what is stored there is what the map says.
  replaced :
      (m : Entries)
      → Distinct m
      → let end = put_shard hash st i (record shard { entries = m }) in
        IsKept st end
        × (entry_at i key (guards end.shards) ≡ lookup key m)
        × (total (guards end.shards) + length shard.entries ≡ total (guards st.shards) + length m)
  replaced m d =
      let u = put_shard-IsUpdated hash st i (record shard { entries = m }) v open_shard d in
      (
        IsUpdated-IsKept _ _ _ u,
        ap (entry_at i key) u.maps_are
            ∙ entry_at-set_self (guards st.shards) i shard.entries m key map_at,
        omega (arith, ap total u.maps_are, total-set (guards st.shards) i shard.entries m map_at),
      )

  lookup_entry-renewed :
      let end = lookup_entry hash now key allowed st i shard in
      (end.1 ≡ usable now allowed (lookup key shard.entries))
      × IsKept st end.0
      × (entry_at i key (guards (end.0).shards)
          ≡ renewed now st.config.ttl allowed (lookup key shard.entries))
      × (total (guards (end.0).shards) ≤ total (guards st.shards))
  unfolding lookup_entry
  lookup_entry-renewed = elim (Option-cases (lookup key shard.entries)) [
    | inl e ↦
        rw (e, lookup_entry)
          (
            refl,
            record { sound = v; sharded = refl; config = refl },
            entry_at_here (guards st.shards) i shard.entries key map_at ∙ e,
            omega arith,
          )
    | inr (entry, e) ↦
        elim (Bool-cases (ltb now entry.expires_at && contains allowed entry.backend)) [
          | inl good ↦
              let fresh = record entry { expires_at = now + st.config.ttl } in
              let m = insert key fresh shard.entries in
              let (kept, here, counted) =
                replaced m (insert-Distinct key fresh shard.entries shard-Distinct) in
              rw (e, lookup_entry, good)
                (
                  refl,
                  kept,
                  here ∙ lookup-insert_self key fresh shard.entries,
                  omega (arith, counted, length-insert_known key fresh shard.entries entry e),
                )
          | inr bad ↦
              let m = remove key shard.entries in
              let (kept, here, counted) =
                replaced m (remove-Distinct key shard.entries shard-Distinct) in
              rw (e, lookup_entry, bad)
                (
                  refl,
                  kept,
                  here ∙ ground (arith, lookup-remove key key shard.entries, key_beq_iff key key),
                  omega (arith, counted, length-remove key shard.entries entry shard-Distinct e),
                )
        ]
  ]

module _ (hash : AffinityMapKey → ℕ) where
  -- With its lock held, a lookup answers by what is stored, and leaves it renewed or removed.
  pub lookup_locked-renewed :
      (now : ℕ) (key : AffinityMapKey) (allowed : List Text) (st : StickySessionState)
      → IsSound st
      → (end : StickySessionState) × (lookup_locked hash now key allowed st
          ≡ returned (end, usable now allowed (stored hash st key)))
        × IsKept st end
        × (stored hash end key ≡ renewed now st.config.ttl allowed (stored hash st key))
        × (total (guards end.shards) ≤ total (guards st.shards))
  unfolding lookup_locked
  lookup_locked-renewed now key allowed st v =
      let i = shard_index_for_key hash st key in
      let (shard, at) = shard_of_key hash st key v in
      let (found, fine) = get_elem?-guards st.shards i shard v.healthy at in
      let here : stored hash st key ≡ lookup key shard.entries =
        stored_same hash st st key refl
        ∙ entry_at_here (guards st.shards) i shard.entries key found in
      let (answer, kept, after, few) = lookup_entry-renewed hash now key allowed st v i shard at in
      let end = lookup_entry hash now key allowed st i shard in
      (
        end.0,
        rw (at, lookup_locked, fine, here) (ground (arith, answer)),
        kept,
        stored_same hash st end.0 key kept.sharded
            ∙ after
            ∙ ap (renewed now st.config.ttl allowed) (sym here),
        few,
      )
