-- ===== src/Router/Sticky/Loop.antt =====
-- The invariant of the eviction loop.
use neemata_proxy.Common.{
  ℕ, zero, suc, ◌+◌, ◌≤◌, ◌≡◌, refl, sym, ◌∙◌, ◌⊎◌, inl, inr, none, some, List, [], ◌∷◌, ltb,
  length, arith, Option-cases, Bool-cases,
}
use neemata_proxy.Router.Sticky.Evict.{
  AffinityMapKey, affinity_map_key_eq, AffinityEntry, Entries, EvictionItem, pop_least, evict_one,
  evict,
}
use neemata_proxy.Router.Sticky.Heap.{
  entry_at, Has, NotBefore, pop_least-none, pop_least-NotBefore, pop_least-Has, pop_least-bound,
  length-pop_least,
}
use neemata_proxy.Router.Sticky.Order.{evict_one-entry}

-- In the middle of the loop: every entry that is left is still a candidate, no candidate expires
-- before the bound, and what is gone expired by the bound.
pub record LoopInv (start shards : List Entries) (items : List EvictionItem) (bound : ℕ)
    : Type 0 where
  pub cover :
      (i : ℕ) (k : AffinityMapKey) (e : AffinityEntry)
      → entry_at i k shards ≡ some e
      → Has items i k e.expires_at
  pub later : NotBefore bound items
  pub gone :
      (i : ℕ) (k : AffinityMapKey)
      → (entry_at i k shards ≡ entry_at i k start)
        ⊎ ((entry_at i k shards ≡ none)
            × ((e : AffinityEntry) × (entry_at i k start ≡ some e) × (e.expires_at ≤ bound)))

evict_one-LoopInv :
    (start shards : List Entries) (items : List EvictionItem) (bound : ℕ) (c : EvictionItem)
    (rest : List EvictionItem)
    → pop_least items ≡ some (c, rest)
    → LoopInv start shards items bound
    → LoopInv start (evict_one c shards).0 rest c.expires_at
evict_one-LoopInv start shards items bound c rest popped v = record {
  cover = λ i k e h. elim (evict_one-entry c shards i k) [
    | inr (none_left, _) ↦ absurd (cc (none_left, h))
    | inl (same, stale) ↦
        elim (pop_least-Has items c rest popped i k e.expires_at (v.cover i k e (sym same ∙ h))) [
          | inl named ↦ absurd (stale e (sym same ∙ h) named)
          | inr later ↦ later
        ]
  ];
  later = pop_least-NotBefore items c rest popped;
  gone = λ i k.
      let le = pop_least-bound bound items c rest popped v.later in
      elim (evict_one-entry c shards i k) [
        | inl (same, _) ↦ elim (v.gone i k) [
          | inl kept ↦ inl (same ∙ kept)
          | inr (lost, (e, was, early)) ↦ inr (same ∙ lost, (e, was, omega (arith, early, le)))
        ]
        | inr (lost, (e, here, (_, _, t))) ↦ elim (v.gone i k) [
          | inl kept ↦ inr (lost, (e, sym kept ∙ here, omega (arith, t)))
          | inr (before, _) ↦ absurd (cc (before, here))
        ]
      ];
}

-- The loop ends with enough removed, or with no candidate left.
pub evict-LoopInv :
    (fuel overflow removed : ℕ) (start shards : List Entries) (items : List EvictionItem)
    (bound : ℕ)
    → length items ≤ fuel
    → LoopInv start shards items bound
    → let end = evict fuel overflow removed items shards in
      (left : List EvictionItem) × (b : ℕ) × LoopInv start end.0 left b
      × ((overflow ≤ end.1) ⊎ (left ≡ []))
unfolding evict
evict-LoopInv zero overflow removed start shards [] bound h v = ([], bound, v, inr refl)
evict-LoopInv zero overflow removed start shards (x ∷ items) bound h v = absurd (omega arith)
evict-LoopInv (suc fuel) overflow removed start shards items bound h v =
    elim (Bool-cases (ltb removed overflow)) [
      | inr done ↦ rw (done, evict) (items, bound, v, inl (ground (arith, done)))
      | inl more ↦ elim (Option-cases (pop_least items)) [
        | inl e ↦ rw (more, evict, e) (items, bound, v, inr (pop_least-none items e))
        | inr ((c, rest), e) ↦
            rw (more, evict, e)
              (evict-LoopInv fuel overflow (removed + (evict_one c shards).1) start
                (evict_one c shards).0 rest c.expires_at
                (omega (arith, length-pop_least items c rest e))
                (evict_one-LoopInv start shards items bound c rest e v))
      ]
    ]
