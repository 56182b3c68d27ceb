-- ===== src/Router/Sticky/Oldest.antt =====
-- The clean-up takes the entries that expire first, changes none that it keeps, and takes only
-- expired ones if the others fit.
use neemata_proxy.Common.{
  ℕ, zero, suc, ◌-◌, ◌≤◌, ◌≡◌, refl, subst, ◌⊎◌, inl, inr, none, some, List, [], ◌∷◌, leb, length,
  arith, Option-cases, Bool-cases,
}
use native.Mathlib.Nat.{zero-add}
use neemata_proxy.Map.{lookup, remove, lookup-remove}
use neemata_proxy.Router.Sticky.Evict.{
  AffinityMapKey, affinity_map_key_eq, AffinityEntry, Entries, EvictionItem, candidates, evict,
}
use neemata_proxy.Router.Sticky.Heap.{entry_at, Has, NotBefore, candidates-Has}
use neemata_proxy.Router.Sticky.Loop.{LoopInv, evict-LoopInv}
use neemata_proxy.Router.Sticky.Capacity.{AllDistinct, if_live, lookup-retain}
use neemata_proxy.Router.Sticky.Clean.{
  retain_all, total, drop_keys, drop_rest, finish, shrink, clean,
}

drop_keys-keeps :
    (remaining : ℕ) (m : Entries) (k : AffinityMapKey) (e : AffinityEntry)
    → lookup k (drop_keys remaining m).0 ≡ some e
    → lookup k m ≡ some e
unfolding drop_keys
drop_keys-keeps zero m k e h = h
drop_keys-keeps (suc remaining) [] k e h = h
drop_keys-keeps (suc remaining) ((j, entry) ∷ m) k e h =
    let found = drop_keys-keeps remaining (remove j ((j, entry) ∷ m)) k e h in
    kept j k ((j, entry) ∷ m) e found
  where
    kept :
        (j k : AffinityMapKey) (m : Entries) (e : AffinityEntry)
        → lookup k (remove j m) ≡ some e
        → lookup k m ≡ some e
    kept j k m e h = ground (arith, lookup-remove j k m, h)

-- The last loop brings no entry in and changes none.
drop_rest-keeps :
    (remaining : ℕ) (shards : List Entries) (i : ℕ) (k : AffinityMapKey) (e : AffinityEntry)
    → entry_at i k (drop_rest remaining shards) ≡ some e
    → entry_at i k shards ≡ some e
unfolding drop_rest entry_at
drop_rest-keeps remaining [] i k e h = h
drop_rest-keeps remaining (m ∷ shards) zero k e h = drop_keys-keeps remaining m k e h
drop_rest-keeps remaining (m ∷ shards) (suc i) k e h =
    drop_rest-keeps (drop_keys remaining m).1 shards i k e h

Has-le :
    (b : ℕ) (items : List EvictionItem) (i : ℕ) (k : AffinityMapKey) (t : ℕ)
    → NotBefore b items
    → Has items i k t
    → b ≤ t
Has-le b [] i k t n h = absurd h
Has-le b (c ∷ items) i k t (n, ns) (inl (_, _, e)) = omega arith
Has-le b (c ∷ items) i k t (n, ns) (inr h) = Has-le b items i k t ns h

-- What a clean-up of live entries may do: an entry stays as it is or goes, and none goes before one
-- that expires earlier and stays.
pub record IsShrunk (start end : List Entries) : Type 0 where
  pub kept :
      (i : ℕ) (k : AffinityMapKey)
      → (entry_at i k end ≡ entry_at i k start) ⊎ (entry_at i k end ≡ none)
  pub oldest :
      (i : ℕ) (k : AffinityMapKey) (e : AffinityEntry)
      → entry_at i k start ≡ some e
      → entry_at i k end ≡ none
      → (j : ℕ) (q : AffinityMapKey) (e' : AffinityEntry) → entry_at j q end ≡ some e'
      → e.expires_at ≤ e'.expires_at

module _ (start end : List Entries) (left : List EvictionItem) (b : ℕ)
    (v : LoopInv start end left b) where
  loop_kept :
      (i : ℕ) (k : AffinityMapKey)
      → (entry_at i k end ≡ entry_at i k start) ⊎ (entry_at i k end ≡ none)
  loop_kept i k = elim (v.gone i k) [ inl same ↦ inl same | inr (lost, _) ↦ inr lost ]

  loop-IsShrunk : IsShrunk start end
  loop-IsShrunk = record {
    kept = loop_kept;
    oldest = λ i k e was lost j q e' here. elim (v.gone i k) [
      | inl same ↦ absurd (cc (same, was, lost))
      | inr (_, (e₀, was₀, early)) ↦
          let same : e₀ ≡ e = cc (was₀, was) in
          let late = Has-le b left j q e'.expires_at v.later (v.cover j q e' here) in
          ground (arith, same, early, late)
    ];
  }

  -- With no candidate left nothing is left at all, and the last loop finds nothing.
  drop-IsShrunk : (remaining : ℕ) → left ≡ [] → IsShrunk start (drop_rest remaining end)
  drop-IsShrunk remaining none_left =
      let nothing =
        λ (j : ℕ) (q : AffinityMapKey) (e' : AffinityEntry)
            (here : entry_at j q (drop_rest remaining end) ≡ some e').
          subst (λ items. Has items j q e'.expires_at) none_left
            (v.cover j q e' (drop_rest-keeps remaining end j q e' here)) in
      record {
        kept = λ i k. elim (Option-cases (entry_at i k (drop_rest remaining end))) [
          | inl lost ↦ inr lost
          | inr (e', here) ↦ absurd (nothing i k e' here)
        ];
        oldest = λ i k e was lost j q e' here. absurd (nothing j q e' here);
      }

shrink-IsShrunk : (overflow : ℕ) (shards : List Entries) → IsShrunk shards (shrink overflow shards)
unfolding shrink finish
shrink-IsShrunk overflow shards =
    let items = candidates 0 0 shards in
    let end = evict (length items) overflow 0 items shards in
    let (left, b, v, ended) =
      evict-LoopInv (length items) overflow 0 shards shards items 0 (omega arith) (begin shards) in
    elim (Bool-cases (leb overflow end.1)) [
      | inl enough ↦ rw (enough, finish) (loop-IsShrunk shards end.0 left b v)
      | inr short ↦ elim ended [
        | inl enough ↦ absurd (ground (arith, short, enough))
        | inr none_left ↦
            rw (short, finish) (drop-IsShrunk shards end.0 left b v (overflow - end.1) none_left)
      ]
    ]
  where
    begin_later : (items : List EvictionItem) → NotBefore 0 items
    begin_later [] = tt
    begin_later (c ∷ items) = (omega arith, begin_later items)

    begin : (shards : List Entries) → LoopInv shards shards (candidates 0 0 shards) 0
    begin shards = record {
      cover = λ i k e h.
          subst (λ n. Has (candidates 0 0 shards) n k e.expires_at) (zero-add i)
            (candidates-Has shards 0 0 i k e h);
      later = begin_later (candidates 0 0 shards);
      gone = λ i k. inl refl;
    }

pub entry_at-retain :
    (now : ℕ) (shards : List Entries) (i : ℕ) (k : AffinityMapKey)
    → AllDistinct shards
    → entry_at i k (retain_all now shards) ≡ if_live now (entry_at i k shards)
unfolding entry_at
entry_at-retain now [] i k ds = refl
entry_at-retain now (m ∷ shards) zero k ds = lookup-retain now k m ds.0
entry_at-retain now (m ∷ shards) (suc i) k ds = entry_at-retain now shards i k ds.1

pub clean-IsShrunk :
    (now max_entries : ℕ) (shards : List Entries)
    → IsShrunk (retain_all now shards) (clean now max_entries shards)
unfolding clean
clean-IsShrunk now max_entries shards =
    let live = retain_all now shards in
    elim (Bool-cases (leb (total live) max_entries)) [
      | inl fits ↦ rw fits (record {
        kept = λ i k. inl refl;
        oldest = λ i k e was lost j q e' here. absurd (cc (was, lost));
      })
      | inr over ↦ rw over (shrink-IsShrunk (total live - max_entries) live)
    ]
