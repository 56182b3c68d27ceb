-- ===== src/Router/Sticky/Order.antt =====
-- The clean-up takes the entries that expire first, and only expired entries if the others fit.
use neemata_proxy.Common.{
  ℕ, ◌≡◌, refl, ap, sym, ◌∙◌, ◌⊎◌, inl, inr, ◌≢◌, none, some, List, eqb, eqb_iff, get_elem?, set,
  arith, Option-cases, Bool-cases, get_elem?-set_self, get_elem?-set_ne,
}
use neemata_proxy.Map.{lookup, remove, lookup-remove}
use neemata_proxy.Router.Sticky.Evict.{
  AffinityMapKey, affinity_map_key_eq, key_beq, key_beq_iff, AffinityEntry, Entries, EvictionItem,
  evict_one,
}
use neemata_proxy.Router.Sticky.Heap.{entry_at, Names}

abbrev IsCurrent : EvictionItem → List Entries → AffinityEntry → Type 0
IsCurrent c shards e =
    (entry_at c.shard_index c.key shards ≡ some e) × (c.expires_at ≡ e.expires_at)

evict_one-cases :
    (c : EvictionItem) (shards : List Entries)
    → (((evict_one c shards).0 ≡ shards) × ((e : AffinityEntry) → ¬ IsCurrent c shards e))
      ⊎ ((m : Entries) × (e : AffinityEntry) × (get_elem? shards c.shard_index ≡ some m)
          × ((evict_one c shards).0 ≡ set shards c.shard_index (remove c.key m))
          × IsCurrent c shards e)
unfolding evict_one entry_at
evict_one-cases c shards = elim (Option-cases (get_elem? shards c.shard_index)) [
  | inl e ↦ inl (rw (e, evict_one), λ x (h, t). absurd (ground (arith, e)))
  | inr (m, at) ↦ elim (Option-cases (lookup c.key m)) [
    | inl e ↦ inl (rw (at, evict_one, e), λ x (h, t). absurd (ground (arith, e, at)))
    | inr (entry, found) ↦ elim (Bool-cases (eqb entry.expires_at c.expires_at)) [
      | inr other ↦ inl (
        rw (at, evict_one, found, other),
        λ x (h, t). absurd (ground (arith, found, at, other, h, t)),
      )
      | inl same ↦ inr (
        m,
        entry,
        at,
        rw (at, evict_one, found, same),
        (rw (at, entry_at) found, ground (arith, same)),
      )
    ]
  ]
]

-- Removing a key from one shard touches no other entry.
entry_at-remove :
    (shards : List Entries) (j : ℕ) (q : AffinityMapKey) (m : Entries) (i : ℕ) (k : AffinityMapKey)
    → get_elem? shards j ≡ some m
    → ((j ≡ i) × (q ≡ k) × (entry_at i k (set shards j (remove q m)) ≡ none))
      ⊎ ((¬ ((j ≡ i) × (q ≡ k))) × (entry_at i k (set shards j (remove q m)) ≡ entry_at i k shards))
unfolding entry_at
entry_at-remove shards j q m i k at = elim (Bool-cases (eqb j i)) [
  | inr apart ↦
      let ne : j ≢ i = ground (arith, apart) in
      inr (λ (e, _). ne e, rw (get_elem?-set_ne shards j i (remove q m) ne, entry_at) refl)
  | inl same ↦
      let e = (eqb_iff j i).0 same in
      let here = get_elem?-set_self shards j (remove q m) m at in
      elim (Bool-cases (key_beq q k)) [
        | inl hit ↦
            inl (e, (key_beq_iff q k).0 hit, ground (arith, e, here, lookup-remove q k m, hit))
        | inr miss ↦ inr (
          λ (_, f). absurd (ground (arith, miss, (key_beq_iff q k).1 f)),
          ground (arith, e, at, here, lookup-remove q k m, miss),
        )
      ]
]

-- What one candidate does to the entry of a key: it goes if it is the candidate's, and stays if not.
pub evict_one-entry :
    (c : EvictionItem) (shards : List Entries) (i : ℕ) (k : AffinityMapKey)
    → ((entry_at i k (evict_one c shards).0 ≡ entry_at i k shards)
        × ((e : AffinityEntry) → entry_at i k shards ≡ some e → ¬ Names c i k e.expires_at))
      ⊎ ((entry_at i k (evict_one c shards).0 ≡ none)
          × ((e : AffinityEntry) × (entry_at i k shards ≡ some e) × Names c i k e.expires_at))
evict_one-entry c shards i k = elim (evict_one-cases c shards) [
  | inl (same, stale) ↦ inl (
    ap (entry_at i k) same,
    λ e h (p, q, t).
        stale e (ap (λ x. entry_at x c.key shards) p ∙ ap (λ x. entry_at i x shards) q ∙ h, t),
  )
  | inr (m, e, at, after, (found, t)) ↦ elim (entry_at-remove shards c.shard_index c.key m i k at) [
    | inl (p, q, gone) ↦ inr (
      ap (entry_at i k) after ∙ gone,
      (
        e,
        sym (ap (λ x. entry_at x c.key shards) p ∙ ap (λ x. entry_at i x shards) q) ∙ found,
        (p, q, t),
      ),
    )
    | inr (other, kept) ↦ inl (ap (entry_at i k) after ∙ kept, λ e' h (p, q, t'). other (p, q))
  ]
]
