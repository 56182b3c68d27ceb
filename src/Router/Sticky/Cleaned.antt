-- ===== src/Router/Sticky/Cleaned.antt =====
-- What `cleanup_global` does to the maps that it holds.
use neemata_proxy.Common.{
  ℕ, zero, suc, ◌-◌, ◌≤◌, ◌<◌, ◌≡◌, refl, ap, sym, ◌∙◌, inl, inr, Option, none, some, List, [], ◌∷◌,
  ltb, leb, length, get_elem?, length-set, arith, Option-cases, Bool-cases,
}
use neemata_proxy.Map.{remove, Distinct, remove-Distinct}
use neemata_proxy.Router.Sticky.Evict.{
  AffinityMapKey, affinity_map_key_eq, AffinityEntry, Entries, EvictionItem, candidates, pop_least,
  evict_one, evict,
}
use neemata_proxy.Router.Sticky.Heap.{entry_at}
use neemata_proxy.Router.Sticky.Clean.{
  retain_all, total, drop_keys, drop_rest, finish, shrink, clean,
}
use neemata_proxy.Router.Sticky.Capacity.{
  AllDistinct, if_live, retain_all-Distinct, evict-total, clean-total, total-retain_all-le,
}
use neemata_proxy.Router.Sticky.Oldest.{clean-IsShrunk, entry_at-retain}

-- After the clean-up at `now` an entry is left only if it was there and has not expired; a live
-- entry that is gone expires no later than any that is left; the table fits into its capacity and
-- does not grow; and if the live entries fit, exactly these are left.
pub record IsCleaned (now max_entries : ℕ) (start end : List Entries) : Type 0 where
  pub live :
      (i : ℕ) (k : AffinityMapKey) (e : AffinityEntry)
      → entry_at i k end ≡ some e
      → (entry_at i k start ≡ some e) × (now < e.expires_at)
  pub oldest :
      (i : ℕ) (k : AffinityMapKey) (e : AffinityEntry)
      → entry_at i k start ≡ some e
      → now < e.expires_at
      → entry_at i k end ≡ none
      → (j : ℕ) (q : AffinityMapKey) (e' : AffinityEntry) → entry_at j q end ≡ some e'
      → e.expires_at ≤ e'.expires_at
  pub capacity : total end ≤ max_entries
  pub fewer : total end ≤ total start
  pub fits :
      total (retain_all now start) ≤ max_entries
      → (i : ℕ) (k : AffinityMapKey) → entry_at i k end ≡ if_live now (entry_at i k start)

if_live-eq-some :
    (now : ℕ) (o : Option AffinityEntry) (e : AffinityEntry)
    → if_live now o ≡ some e
    → (o ≡ some e) × (now < e.expires_at)
if_live-eq-some now none e h = absurd (cc)
if_live-eq-some now (some x) e h = elim (Bool-cases (ltb now x.expires_at)) [
  | inl lt ↦
      let same : x ≡ e = ground arith in
      (ap some same, ground (arith, lt, ap (λ (y : AffinityEntry). y.expires_at) same))
  | inr past ↦ absurd (ground arith)
]

if_live_of_live : (now : ℕ) (e : AffinityEntry) → now < e.expires_at → if_live now (some e) ≡ some e
if_live_of_live now e h = ground arith

-- The clean-up of maps without duplicate keys leaves only entries that were there and whose term is
-- not over, and no more than the table may hold. A live entry that it takes expires no later than
-- any that it leaves, and if the live entries fit, exactly these are left. No entries are added.
pub clean-IsCleaned :
    (now max_entries : ℕ) (shards : List Entries)
    → AllDistinct shards
    → IsCleaned now max_entries shards (clean now max_entries shards)
clean-IsCleaned now max_entries shards ds =
    let shrunk = clean-IsShrunk now max_entries shards in
    let retained = λ (i : ℕ) (k : AffinityMapKey). entry_at-retain now shards i k ds in
    record {
      live = λ i k e h. if_live-eq-some now (entry_at i k shards) e (
          sym (retained i k)
          ∙ elim (shrunk.kept i k) [ inl same ↦ sym same ∙ h | inr lost ↦ absurd (cc (lost, h)) ]);
      oldest = λ i k e was lt lost j q e' here.
          shrunk.oldest i k e (retained i k ∙ ap (if_live now) was ∙ if_live_of_live now e lt) lost
            j q e' here;
      capacity = elim (clean-total now max_entries shards ds) [
        | inl (le, same) ↦ rw same le
        | inr (_, same) ↦ rw same (omega arith)
      ];
      fewer = elim (clean-total now max_entries shards ds) [
        | inl (_, same) ↦ rw same (total-retain_all-le now shards)
        | inr (over, same) ↦ omega (arith, over, same, total-retain_all-le now shards)
      ];
      fits = λ few i k. elim (clean-total now max_entries shards ds) [
        | inl (_, same) ↦ ap (entry_at i k) same ∙ retained i k
        | inr (over, _) ↦ absurd (omega (arith, few, over))
      ];
    }

drop_keys-Distinct : (remaining : ℕ) (m : Entries) → Distinct m → Distinct (drop_keys remaining m).0
unfolding drop_keys
drop_keys-Distinct zero m d = d
drop_keys-Distinct (suc remaining) [] d = tt
drop_keys-Distinct (suc remaining) ((k, entry) ∷ m) d =
    drop_keys-Distinct remaining (remove k ((k, entry) ∷ m)) (remove-Distinct k ((k, entry) ∷ m) d)

drop_rest-Distinct :
    (remaining : ℕ) (shards : List Entries)
    → AllDistinct shards
    → AllDistinct (drop_rest remaining shards)
      × (length (drop_rest remaining shards) ≡ length shards)
unfolding drop_rest
drop_rest-Distinct remaining [] ds = (tt, refl)
drop_rest-Distinct remaining (m ∷ shards) (d, ds) =
    let (rest, same) = drop_rest-Distinct (drop_keys remaining m).1 shards ds in
    ((drop_keys-Distinct remaining m d, rest), ap suc same)

length-evict_one :
    (c : EvictionItem) (shards : List Entries) → length (evict_one c shards).0 ≡ length shards
unfolding evict_one
length-evict_one c shards = elim (Option-cases (get_elem? shards c.shard_index)) [
  | inl e ↦ rw (e, evict_one) refl
  | inr (m, at) ↦ ground (arith, at, length-set shards c.shard_index (remove c.key m))
]

length-evict :
    (fuel overflow removed : ℕ) (items : List EvictionItem) (shards : List Entries)
    → length (evict fuel overflow removed items shards).0 ≡ length shards
unfolding evict
length-evict zero overflow removed items shards = refl
length-evict (suc fuel) overflow removed items shards = elim (Bool-cases (ltb removed overflow)) [
  | inr done ↦ rw (done, evict) refl
  | inl more ↦ elim (Option-cases (pop_least items)) [
    | inl e ↦ rw (more, evict, e) refl
    | inr ((c, rest), e) ↦
        rw (more, evict, e)
          (length-evict fuel overflow _ rest (evict_one c shards).0 ∙ length-evict_one c shards)
  ]
]

length-retain_all :
    (now : ℕ) (shards : List Entries) → length (retain_all now shards) ≡ length shards
length-retain_all now [] = refl
length-retain_all now (m ∷ shards) = ap suc (length-retain_all now shards)

-- The clean-up keeps the number of shards, and each map without duplicate keys.
pub clean-Distinct :
    (now max_entries : ℕ) (shards : List Entries)
    → AllDistinct shards
    → AllDistinct (clean now max_entries shards)
      × (length (clean now max_entries shards) ≡ length shards)
unfolding clean shrink finish
clean-Distinct now max_entries shards ds =
    let live = retain_all now shards in
    let kept = retain_all-Distinct now shards ds in
    let overflow = total live - max_entries in
    let items = candidates 0 0 live in
    let end = evict (length items) overflow 0 items live in
    let (d, _, _) = evict-total (length items) overflow 0 items live kept (omega arith) in
    let (d', l') = drop_rest-Distinct (overflow - end.1) end.0 d in
    let l = length-evict (length items) overflow 0 items live ∙ length-retain_all now shards in
    elim (Bool-cases (leb (total live) max_entries)) [
      | inl fits ↦ rw fits (kept, length-retain_all now shards)
      | inr over ↦ elim (Bool-cases (leb overflow end.1)) [
        | inl enough ↦ rw (over, enough) (d, l)
        | inr short ↦ rw (over, short) (d', l' ∙ l)
      ]
    ]
