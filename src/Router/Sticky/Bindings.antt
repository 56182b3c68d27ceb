-- ===== src/Router/Sticky/Bindings.antt =====
-- What `bind` and `remove` leave in the table.
use neemata_proxy.Common.{
  ℕ, ◌+◌, ◌≤◌, ◌<◌, ◌≡◌, refl, ap, sym, ◌∙◌, ◌⊎◌, inl, inr, ◌≢◌, true, Option, none, some, List,
  if◌then◌else◌, get_elem?, set, arith, list_eq, nat_eq,
}
use neemata_proxy.Text.{Text, returned}
use neemata_proxy.Map.{
  insert, remove, contains, insert-Distinct, remove-Distinct, lookup-insert_self, lookup-insert_ne,
  lookup-remove, length-insert-le,
}
use neemata_proxy.Router.Sticky.Evict.{
  AffinityMapKey, affinity_map_key_eq, key_beq_iff, AffinityEntry, Entries,
}
use neemata_proxy.Router.Sticky.Heap.{entry_at}
use neemata_proxy.Router.Sticky.Clean.{total}
use neemata_proxy.Router.Sticky.Capacity.{get-Distinct, if_live, total-set, total-retain_all-le}
use neemata_proxy.Router.Sticky.{
  StickyShard, StickySessionState, guards, shard_index_for_key, put_shard, bump, should_cleanup,
  cleanup_global, lookup_sticky, bind, remove_sticky,
}
use neemata_proxy.Router.Sticky.Cleanup.{IsSound, stored, get_elem?-guards, shard_of_key}
use neemata_proxy.Router.Sticky.Shards.{
  IsUpdated, put_shard-IsUpdated, entry_at-set_self, entry_at-set_other, stored_same,
}
use neemata_proxy.Router.Sticky.Binding.{IsUpdated-IsKept, IsKept, usable}
use neemata_proxy.Router.Affinity.{StickySessionConfig}
use neemata_proxy.Router.Sticky.Sessions.{
  lookup_sticky-stored, IsMaybeCleaned, IsKept-trans, if_cleanup, entry_after,
}

-- The entry that a binding writes.
abbrev pub bound_entry : ℕ → Text → StickySessionState → AffinityEntry
bound_entry now backend st = record { backend = backend; expires_at = now + st.config.ttl }

module _ (hash : AffinityMapKey → ℕ) (now : ℕ) (key : AffinityMapKey) (backend : Text)
    (st : StickySessionState) (v : IsSound st) (shard : StickyShard)
    (at : get_elem? st.shards (shard_index_for_key hash st key) ≡ some shard) where
  -- The table with the entry written, before a clean-up.
  abbrev written : StickySessionState
  written = put_shard hash st (shard_index_for_key hash st key) (record shard {
    entries = insert key (bound_entry now backend st) shard.entries;
    op_counter = bump shard.op_counter;
  })

  written-IsUpdated : IsUpdated st written (
      set
        (guards st.shards)
        (shard_index_for_key hash st key)
        (insert key (bound_entry now backend st) shard.entries))
  written-IsUpdated =
      let i = shard_index_for_key hash st key in
      let (found, fine) = get_elem?-guards st.shards i shard v.healthy at in
      put_shard-IsUpdated hash st i _ v fine (
        insert-Distinct key (bound_entry now backend st) shard.entries
          (get-Distinct (guards st.shards) i shard.entries v.distinct found))

  written_here :
      entry_at (shard_index_for_key hash st key) key (guards written.shards)
      ≡ some (bound_entry now backend st)
  written_here =
      let i = shard_index_for_key hash st key in
      let (found, fine) = get_elem?-guards st.shards i shard v.healthy at in
      ap (entry_at i key) written-IsUpdated.maps_are
      ∙ entry_at-set_self (guards st.shards) i shard.entries _ key found
      ∙ lookup-insert_self key (bound_entry now backend st) shard.entries

  written_other :
      (j : ℕ) (q : AffinityMapKey)
      → q ≢ key
      → entry_at j q (guards written.shards) ≡ entry_at j q (guards st.shards)
  written_other j q ne =
      let i = shard_index_for_key hash st key in
      let (found, fine) = get_elem?-guards st.shards i shard v.healthy at in
      ap (entry_at j q) written-IsUpdated.maps_are
      ∙ entry_at-set_other (guards st.shards) i shard.entries _ j q found (
          lookup-insert_ne key q (bound_entry now backend st) shard.entries
            (ground (arith, ne, key_beq_iff key q)))

  written_total : total (guards written.shards) ≤ total (guards st.shards) + 1
  written_total =
      let i = shard_index_for_key hash st key in
      let (found, fine) = get_elem?-guards st.shards i shard v.healthy at in
      omega (
        arith,
        ap total written-IsUpdated.maps_are,
        total-set (guards st.shards) i shard.entries
            (insert key (bound_entry now backend st) shard.entries) found,
        length-insert-le key (bound_entry now backend st) shard.entries,
      )

-- An entry that is there after a possible clean-up was there before.
before_cleanup :
    (now max_entries : ℕ) (start end : List Entries) (i : ℕ) (k : AffinityMapKey)
    (e : AffinityEntry)
    → IsMaybeCleaned now max_entries start end
    → entry_at i k end ≡ some e
    → entry_at i k start ≡ some e
before_cleanup now max_entries start end i k e (inl same) here = ap (entry_at i k) (sym same) ∙ here
before_cleanup now max_entries start end i k e (inr c) here = (c.live i k e here).0

-- What is true of the table that `bind` leaves: the entry is written, unless the table was full, and
-- no other entry is new.
pub record IsBound (hash : AffinityMapKey → ℕ) (now : ℕ) (key : AffinityMapKey) (backend : Text)
    (st end : StickySessionState) : Type 0 where
  pub kept : IsKept st end
  pub here :
      (stored hash end key ≡ some (bound_entry now backend st))
      ⊎ ((st.config.max_entries ≤ total (guards st.shards)) × (stored hash end key ≡ none))
  pub fits :
      total (guards st.shards) < st.config.max_entries
      → total (guards end.shards) ≤ st.config.max_entries
  pub others :
      (q : AffinityMapKey) (e : AffinityEntry)
      → q ≢ key
      → stored hash end q ≡ some e
      → stored hash st q ≡ some e

module _ (hash : AffinityMapKey → ℕ) where
  -- A binding with a term greater than 0 succeeds on a sound table. The entry is written with the
  -- full term, unless the table has no room left and its clean-up takes the entry again, and the
  -- entries of all other keys are old ones.
  pub bind-IsBound :
      (now : ℕ) (key : AffinityMapKey) (backend : Text) (st : StickySessionState)
      → IsSound st
      → 0 < st.config.ttl
      → (end : StickySessionState) × (bind hash now key backend st ≡ returned end)
        × IsBound hash now key backend st end
  unfolding bind
  bind-IsBound now key backend st v term =
      let i = shard_index_for_key hash st key in
      let (shard, at) = shard_of_key hash st key v in
      let (found, fine) = get_elem?-guards st.shards i shard v.healthy at in
      let w = written hash now key backend st v shard at in
      let u = written-IsUpdated hash now key backend st v shard at in
      let (kept, cleaned) = if_cleanup (should_cleanup shard) now w u.sound in
      let end = if should_cleanup shard then cleanup_global now w else w in
      let all_kept = IsKept-trans st w end (IsUpdated-IsKept st w _ u) kept in
      let is = stored_same hash st end key all_kept.sharded in
      let here = written_here hash now key backend st v shard at in
      (
        end,
        rw (at, bind, fine) refl,
        record {
          kept = all_kept;
          here =
              elim (entry_after now st.config.max_entries (guards w.shards) (guards end.shards) i
                key cleaned) [
                  | inl same ↦ inl (is ∙ same ∙ here)
                  | inr (inl live) ↦ inl (is ∙ live ∙ ap (if_live now) here ∙ ground (arith, term))
                  | inr (inr (over, lost)) ↦ inr (
                    omega (
                      arith,
                      over,
                      total-retain_all-le now (guards w.shards),
                      written_total hash now key backend st v shard at,
                    ),
                    is ∙ lost,
                  )
                ];
          fits = λ room. elim cleaned [
            | inl same ↦
                omega (arith, room, ap total same, written_total hash now key backend st v shard at)
            | inr c ↦ c.capacity
          ];
          others = λ q e ne there.
              stored_same hash st st q refl
              ∙ sym (written_other hash now key backend st v shard at _ q ne)
              ∙ before_cleanup now st.config.max_entries (guards w.shards) (guards end.shards) _ q e
                  cleaned (sym (stored_same hash st end q all_kept.sharded) ∙ there);
        },
      )

  -- On a sound table that has room, a binding is written, and a lookup at the same time or later
  -- answers with its backend, as long as the term is not over and the backend is allowed. No
  -- clean-up in either operation, whenever it falls due, changes this.
  pub bind-lookup :
      (now later : ℕ) (key : AffinityMapKey) (backend : Text) (allowed : List Text)
      (st : StickySessionState)
      → IsSound st
      → total (guards st.shards) < st.config.max_entries
      → contains allowed backend ≡ true
      → now ≤ later
      → later < now + st.config.ttl
      → (bound end : StickySessionState) × (bind hash now key backend st ≡ returned bound)
        × (lookup_sticky hash later key allowed bound ≡ returned (end, some backend))
  bind-lookup now later key backend allowed st v room ok since term =
      let (bound, done, b) = bind-IsBound now key backend st v (omega (arith, since, term)) in
      let (end, answer, looked, _, _, found) =
        lookup_sticky-stored hash later key allowed bound b.kept.sound in
      let same_max : bound.config.max_entries ≡ st.config.max_entries =
        ap (λ (c : StickySessionConfig). c.max_entries) b.kept.config in
      let here : stored hash bound key ≡ some (bound_entry now backend st) = elim b.here [
        | inl there ↦ there
        | inr (full, _) ↦ absurd (omega (arith, full, room))
      ] in
      let right : answer ≡ some backend = elim found [
        | inl (same, _) ↦ same ∙ ap (usable later allowed) here ∙ ground (arith, ok, term)
        | inr (over, _, _) ↦ absurd (
            omega
              (arith, over, same_max, b.fits room, total-retain_all-le later (guards bound.shards)))
      ] in
      (bound, end, done, looked ∙ ap (λ (a : Option Text). returned (end, a)) right)

  -- A key that is removed from a sound table is not stored in it any more, and all others stay as
  -- they are.
  pub remove_sticky-stored :
      (key : AffinityMapKey) (st : StickySessionState)
      → IsSound st
      → (end : StickySessionState) × (remove_sticky hash key st ≡ returned end)
        × IsKept st end
        × (stored hash end key ≡ none)
        × ((q : AffinityMapKey) → q ≢ key → stored hash end q ≡ stored hash st q)
  unfolding remove_sticky
  remove_sticky-stored key st v =
      let i = shard_index_for_key hash st key in
      let (shard, at) = shard_of_key hash st key v in
      let (found, fine) = get_elem?-guards st.shards i shard v.healthy at in
      let m = remove key shard.entries in
      let u =
        put_shard-IsUpdated hash st i (record shard { entries = m }) v fine
          (remove-Distinct key shard.entries
            (get-Distinct (guards st.shards) i shard.entries v.distinct found)) in
      let end = put_shard hash st i (record shard { entries = m }) in
      (
        end,
        rw (at, remove_sticky, fine) refl,
        IsUpdated-IsKept st end _ u,
        stored_same hash st end key u.sharded
            ∙ ap (entry_at i key) u.maps_are
            ∙ entry_at-set_self (guards st.shards) i shard.entries m key found
            ∙ ground (arith, lookup-remove key key shard.entries, key_beq_iff key key),
        λ q ne.
            stored_same hash st end q u.sharded
            ∙ ap (entry_at _ q) u.maps_are
            ∙ entry_at-set_other (guards st.shards) i shard.entries m _ q found
                (ground (arith, ne, lookup-remove key q shard.entries, key_beq_iff key q))
            ∙ sym (stored_same hash st st q refl),
      )
