-- ===== src/Router/Sticky/Sessions.antt =====
-- What a request finds under its key: `lookup` after any history, `bind`, `remove`, and a lookup
-- after a binding.
use neemata_proxy.Common.{
  ℕ, ◌≤◌, ◌<◌, ◌≡◌, refl, ap, sym, ◌∙◌, ◌⊎◌, inl, inr, Bool, true, false, Option, none, some, List,
  ltb, leb, if◌then◌else◌, get_elem?, set-get_elem?, arith, Option-cases, Bool-cases, list_eq,
  nat_eq,
}
use neemata_proxy.Text.{Text, returned}
use neemata_proxy.Router.Sticky.Evict.{AffinityMapKey, affinity_map_key_eq, AffinityEntry, Entries}
use neemata_proxy.Router.Sticky.Heap.{entry_at}
use neemata_proxy.Router.Sticky.Clean.{retain_all, total}
use neemata_proxy.Router.Sticky.Capacity.{get-Distinct, if_live}
use neemata_proxy.Router.Sticky.{
  StickyShard, StickySessionState, guards, shard_index_for_key, put_shard, count_op, should_cleanup,
  cleanup_global, lookup_sticky,
}
use neemata_proxy.Router.Sticky.Cleanup.{
  IsSound, stored, get_elem?-guards, shard_of_key, cleanup_global-IsCleaned,
}
use neemata_proxy.Router.Sticky.Cleaned.{IsCleaned}
use neemata_proxy.Router.Sticky.Shards.{put_shard-IsUpdated, stored_same}
use neemata_proxy.Router.Affinity.{StickySessionConfig}
use neemata_proxy.Router.Sticky.Binding.{
  IsUpdated-IsKept, usable, renewed, IsKept, lookup_locked-renewed,
}

-- The live entries at `now` are more than the table may hold.
abbrev pub IsOver : ℕ → StickySessionState → Type 0
IsOver now st = st.config.max_entries < total (retain_all now (guards st.shards))

-- After a possible clean-up the maps are the same, or cleaned.
abbrev pub IsMaybeCleaned : ℕ → ℕ → List Entries → List Entries → Type 0
IsMaybeCleaned now max_entries start end = (end ≡ start) ⊎ IsCleaned now max_entries start end

pub if_cleanup :
    (due : Bool) (now : ℕ) (st : StickySessionState)
    → IsSound st
    → let end = if due then cleanup_global now st else st in
      IsKept st end
      × IsMaybeCleaned now st.config.max_entries (guards st.shards) (guards end.shards)
if_cleanup false now st v = (record { sound = v; sharded = refl; config = refl }, inl refl)
if_cleanup true now st v =
    let (sound, long, same, cleaned) = cleanup_global-IsCleaned now st v in
    (record { sound = sound; sharded = long; config = same }, inr cleaned)

usable_live :
    (now ttl : ℕ) (allowed : List Text) (o : Option AffinityEntry)
    → (usable now allowed (if_live now o) ≡ usable now allowed o)
      × (renewed now ttl allowed (if_live now o) ≡ renewed now ttl allowed o)
usable_live now ttl allowed none = (refl, refl)
usable_live now ttl allowed (some e) = elim (Bool-cases (ltb now e.expires_at)) [
  | inl live ↦ ground (arith, live)
  | inr past ↦ ground (arith, past)
]

-- What a possible clean-up leaves under one key.
pub entry_after :
    (now max_entries : ℕ) (start end : List Entries) (i : ℕ) (k : AffinityMapKey)
    → IsMaybeCleaned now max_entries start end
    → (entry_at i k end ≡ entry_at i k start)
      ⊎ (entry_at i k end ≡ if_live now (entry_at i k start))
      ⊎ ((max_entries < total (retain_all now start)) × (entry_at i k end ≡ none))
entry_after now max_entries start end i k (inl same) = inl (ap (entry_at i k) same)
entry_after now max_entries start end i k (inr c) =
    elim (Bool-cases (leb (total (retain_all now start)) max_entries)) [
      | inl fits ↦ inr (inl (c.fits (ground (arith, fits)) i k))
      | inr over ↦ elim (Option-cases (entry_at i k end)) [
        | inl lost ↦ inr (inr (ground (arith, over), lost))
        | inr (e, here) ↦ inl (here ∙ sym (c.live i k e here).0)
      ]
    ]

-- What a lookup answers and leaves after a possible clean-up.
answer_after :
    (now ttl max_entries : ℕ) (allowed : List Text) (start end : List Entries) (i : ℕ)
    (k : AffinityMapKey)
    → IsMaybeCleaned now max_entries start end
    → let was = entry_at i k start in
      let is = entry_at i k end in
      ((usable now allowed is ≡ usable now allowed was)
        × (renewed now ttl allowed is ≡ renewed now ttl allowed was))
      ⊎ ((max_entries < total (retain_all now start))
          × (usable now allowed is ≡ none)
          × (renewed now ttl allowed is ≡ none))
answer_after now ttl max_entries allowed start end i k c =
    elim (entry_after now max_entries start end i k c) [
      | inl same ↦ inl (ap (usable now allowed) same, ap (renewed now ttl allowed) same)
      | inr (inl live) ↦
          let (u, r) = usable_live now ttl allowed (entry_at i k start) in
          inl (ap (usable now allowed) live ∙ u, ap (renewed now ttl allowed) live ∙ r)
      | inr (inr (over, lost)) ↦
          inr (over, ap (usable now allowed) lost, ap (renewed now ttl allowed) lost)
    ]

pub IsMaybeCleaned-total :
    (now max_entries : ℕ) (start end : List Entries)
    → IsMaybeCleaned now max_entries start end
    → total end ≤ total start
IsMaybeCleaned-total now max_entries start end (inl same) = omega (arith, ap total same)
IsMaybeCleaned-total now max_entries start end (inr c) = c.fewer

-- One after the other.
pub IsKept-trans : (a b c : StickySessionState) → IsKept a b → IsKept b c → IsKept a c
IsKept-trans a b c x y = record {
  sound = y.sound;
  sharded = y.sharded ∙ x.sharded;
  config = y.config ∙ x.config;
}

module _ (hash : AffinityMapKey → ℕ) (now : ℕ) (key : AffinityMapKey) (st : StickySessionState)
    (v : IsSound st) (shard : StickyShard)
    (at : get_elem? st.shards (shard_index_for_key hash st key) ≡ some shard) where
  -- The table after the operation is counted, and cleaned if it is time.
  abbrev middle : StickySessionState
  middle =
      let counted = put_shard hash st (shard_index_for_key hash st key) (count_op shard) in
      if should_cleanup shard then cleanup_global now counted else counted

  middle-IsKept :
      IsKept st middle
      × IsMaybeCleaned now st.config.max_entries (guards st.shards) (guards middle.shards)
  middle-IsKept =
      let i = shard_index_for_key hash st key in
      let (found, fine) = get_elem?-guards st.shards i shard v.healthy at in
      let u =
        put_shard-IsUpdated hash st i (count_op shard) v fine
          (get-Distinct (guards st.shards) i shard.entries v.distinct found) in
      let counted = put_shard hash st i (count_op shard) in
      let same = u.maps_are ∙ set-get_elem? (guards st.shards) i shard.entries found in
      let (kept, cleaned) = if_cleanup (should_cleanup shard) now counted u.sound in
      (IsKept-trans st counted middle (IsUpdated-IsKept st counted _ u) kept, rw (sym same) cleaned)

module _ (hash : AffinityMapKey → ℕ) where
  -- A lookup on a sound table does not panic and keeps the table sound. It answers with the backend
  -- that is stored under the key, if its term is not over and the backend is allowed, and gives the
  -- entry a new term; an entry that is over or whose backend is not allowed is removed. Only when
  -- more entries are live than the table may hold can a clean-up take the entry first, and then the
  -- lookup finds none. The table holds no more entries than before.
  pub lookup_sticky-stored :
      (now : ℕ) (key : AffinityMapKey) (allowed : List Text) (st : StickySessionState)
      → IsSound st
      → (end : StickySessionState) × (answer : Option Text) × (lookup_sticky hash now key allowed st
          ≡ returned (end, answer))
        × IsKept st end
        × (total (guards end.shards) ≤ total (guards st.shards))
        × (((answer ≡ usable now allowed (stored hash st key))
              × (stored hash end key ≡ renewed now st.config.ttl allowed (stored hash st key)))
            ⊎ (IsOver now st × (answer ≡ none) × (stored hash end key ≡ none)))
  unfolding lookup_sticky
  lookup_sticky-stored now key allowed st v =
      let i = shard_index_for_key hash st key in
      let (shard, at) = shard_of_key hash st key v in
      let (kept, cleaned) = middle-IsKept hash now key st v shard at in
      let m = middle hash now key st v shard at in
      let (end, answered, kept', after, few) =
        lookup_locked-renewed hash now key allowed m kept.sound in
      let was : stored hash st key ≡ entry_at i key (guards st.shards) =
        stored_same hash st st key refl in
      let is = stored_same hash st m key kept.sharded in
      let ttl_same : m.config.ttl ≡ st.config.ttl =
        ap (λ (c : StickySessionConfig). c.ttl) kept.config in
      let left : stored hash end key
          ≡ renewed now st.config.ttl allowed (entry_at i key (guards m.shards)) =
        after
        ∙ ap (λ (t : ℕ). renewed now t allowed (stored hash m key)) ttl_same
        ∙ ap (renewed now st.config.ttl allowed) is in
      (
        end,
        usable now allowed (stored hash m key),
        rw (at, lookup_sticky) answered,
        IsKept-trans st m end kept kept',
        omega (
          arith,
          few,
          IsMaybeCleaned-total now st.config.max_entries (guards st.shards) (guards m.shards)
              cleaned,
        ),
        elim (answer_after now st.config.ttl st.config.max_entries allowed (guards st.shards)
            (guards m.shards) i key cleaned) [
              | inl (u, r) ↦ inl (
                ap (usable now allowed) is ∙ u ∙ ap (usable now allowed) (sym was),
                left ∙ r ∙ ap (renewed now st.config.ttl allowed) (sym was),
              )
              | inr (over, u, r) ↦ inr (over, ap (usable now allowed) is ∙ u, left ∙ r)
            ],
      )
