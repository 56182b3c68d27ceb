-- ===== src/Router/Sticky/Capacity.antt =====
-- The clean-up brings the table down to its capacity, and never below it.
use neemata_proxy.Common.{
  ℕ, zero, suc, ◌+◌, ◌-◌, ◌≤◌, ◌<◌, ◌≡◌, refl, ◌⊎◌, inl, inr, Option, none, some, List, [], ◌∷◌,
  ltb, eqb, if◌then◌else◌, length, get_elem?, set, arith, All, Option-cases, Bool-cases,
}
use neemata_proxy.Map.{lookup, remove, Distinct, remove-Distinct, length-remove}
use neemata_proxy.Router.Sticky.Evict.{
  AffinityMapKey, affinity_map_key_eq, key_beq_iff, AffinityEntry, Entries, EvictionItem,
  candidates, pop_least, evict_one, evict,
}
use neemata_proxy.Router.Sticky.Clean.{
  retain, retain_all, total, drop_keys, drop_rest, finish, shrink, clean,
}

abbrev pub AllDistinct : List Entries → Type 0
AllDistinct shards = All (λ m. Distinct m) shards

abbrev pub if_live : ℕ → Option AffinityEntry → Option AffinityEntry
if_live now none = none
if_live now (some entry) = if ltb now entry.expires_at then some entry else none

-- What `retain` keeps is what has not expired.
pub lookup-retain :
    (now : ℕ) (k : AffinityMapKey) (m : Entries)
    → Distinct m
    → lookup k (retain now m) ≡ if_live now (lookup k m)
unfolding lookup retain
lookup-retain now k [] d = refl
lookup-retain now k ((j, entry) ∷ m) d = ground (arith, lookup-retain now k m, key_beq_iff j k)

retain-Distinct : (now : ℕ) (m : Entries) → Distinct m → Distinct (retain now m)
unfolding retain
retain-Distinct now [] d = tt
retain-Distinct now ((j, entry) ∷ m) d =
    ground (arith, retain-Distinct now m, lookup-retain now j m)

pub retain_all-Distinct :
    (now : ℕ) (shards : List Entries) → AllDistinct shards → AllDistinct (retain_all now shards)
retain_all-Distinct now [] d = tt
retain_all-Distinct now (m ∷ shards) (d, ds) =
    (retain-Distinct now m d, retain_all-Distinct now shards ds)

pub get-Distinct :
    (shards : List Entries) (i : ℕ) (m : Entries)
    → AllDistinct shards
    → get_elem? shards i ≡ some m
    → Distinct m
get-Distinct [] i m d h = absurd (cc)
get-Distinct (n ∷ shards) zero m d h = ground (arith)
get-Distinct (n ∷ shards) (suc i) m d h = get-Distinct shards i m d.1 h

pub set-Distinct :
    (shards : List Entries) (i : ℕ) (m : Entries)
    → AllDistinct shards
    → Distinct m
    → AllDistinct (set shards i m)
set-Distinct [] i m ds d = tt
set-Distinct (n ∷ shards) zero m ds d = (d, ds.1)
set-Distinct (n ∷ shards) (suc i) m ds d = (ds.0, set-Distinct shards i m ds.1 d)

pub total-set :
    (shards : List Entries) (i : ℕ) (m m' : Entries)
    → get_elem? shards i ≡ some m
    → total (set shards i m') + length m ≡ total shards + length m'
unfolding total
total-set [] i m m' h = absurd (cc)
total-set (n ∷ shards) zero m m' h = ground arith
total-set (n ∷ shards) (suc i) m m' h = omega (arith, total-set shards i m m' h)

-- One candidate takes away as many entries as it says.
evict_one-total :
    (c : EvictionItem) (shards : List Entries)
    → AllDistinct shards
    → AllDistinct (evict_one c shards).0
      × (total (evict_one c shards).0 + (evict_one c shards).1 ≡ total shards)
      × ((evict_one c shards).1 ≤ 1)
unfolding evict_one
evict_one-total c shards ds = elim (Option-cases (get_elem? shards c.shard_index)) [
  | inl e ↦ rw (e, evict_one) (ds, ground arith, omega arith)
  | inr (m, at) ↦ elim (Option-cases (lookup c.key m)) [
    | inl e ↦ rw (at, evict_one, e) (ds, ground arith, omega arith)
    | inr (entry, found) ↦ elim (Bool-cases (eqb entry.expires_at c.expires_at)) [
      | inr other ↦ rw (at, evict_one, found, other) (ds, ground arith, omega arith)
      | inl same ↦
          let d = get-Distinct shards c.shard_index m ds at in
          rw (at, evict_one, found, same)
            (
              set-Distinct shards c.shard_index (remove c.key m) ds (remove-Distinct c.key m d),
              omega (
                arith,
                total-set shards c.shard_index m (remove c.key m) at,
                length-remove c.key m entry d found,
              ),
              omega arith,
            )
    ]
  ]
]

-- The loop stops with at most `overflow` entries removed, and what it counts is what it removed.
pub evict-total :
    (fuel overflow removed : ℕ) (items : List EvictionItem) (shards : List Entries)
    → AllDistinct shards
    → removed ≤ overflow
    → let end = evict fuel overflow removed items shards in
      AllDistinct end.0 × (total end.0 + end.1 ≡ total shards + removed) × (end.1 ≤ overflow)
unfolding evict
evict-total zero overflow removed items shards ds h = (ds, refl, h)
evict-total (suc fuel) overflow removed items shards ds h =
    elim (Bool-cases (ltb removed overflow)) [
      | inr done ↦ rw (done, evict) (ds, refl, h)
      | inl more ↦ elim (Option-cases (pop_least items)) [
        | inl e ↦ rw (more, evict, e) (ds, refl, h)
        | inr ((c, rest), e) ↦
            let (ds', kept, one) = evict_one-total c shards ds in
            let (d, t, l) =
              evict-total fuel overflow (removed + (evict_one c shards).1) rest
                (evict_one c shards).0 ds' (ground (arith, more, one)) in
            rw (more, evict, e) (d, omega (arith, t, kept), l)
      ]
    ]

drop_keys-length :
    (remaining : ℕ) (m : Entries)
    → Distinct m
    → (length (drop_keys remaining m).0 + remaining ≡ length m + (drop_keys remaining m).1)
      × (((drop_keys remaining m).1 ≡ 0) ⊎ (length (drop_keys remaining m).0 ≡ 0))
unfolding drop_keys lookup
drop_keys-length zero m d = (omega arith, inl refl)
drop_keys-length (suc remaining) [] d = (omega arith, inr refl)
drop_keys-length (suc remaining) ((k, entry) ∷ m) d =
    let (counted, ended) =
      drop_keys-length remaining (remove k ((k, entry) ∷ m))
        (remove-Distinct k ((k, entry) ∷ m) d) in
    (omega (arith, counted, length-remove k ((k, entry) ∷ m) entry d (found k entry m)), ended)
  where
    found :
        (k : AffinityMapKey) (entry : AffinityEntry) (m : Entries)
        → lookup k ((k, entry) ∷ m) ≡ some entry
    found k entry m = ground (arith, key_beq_iff k k)

drop_rest-total :
    (remaining : ℕ) (shards : List Entries)
    → AllDistinct shards
    → remaining ≤ total shards
    → total (drop_rest remaining shards) + remaining ≡ total shards
unfolding drop_rest total
drop_rest-total remaining [] ds h = omega arith
drop_rest-total remaining (m ∷ shards) (d, ds) h =
    let (counted, ended) = drop_keys-length remaining m d in
    omega (arith, counted, ended, drop_rest-total (drop_keys remaining m).1 shards ds)

shrink-total :
    (overflow : ℕ) (shards : List Entries)
    → AllDistinct shards
    → overflow ≤ total shards
    → total (shrink overflow shards) + overflow ≡ total shards
unfolding shrink finish
shrink-total overflow shards ds h =
    let items = candidates 0 0 shards in
    let end = evict (length items) overflow 0 items shards in
    let (d, counted, few) = evict-total (length items) overflow 0 items shards ds (omega arith) in
    ground (arith, counted, few, drop_rest-total (overflow - end.1) end.0 d)

-- A clean-up keeps all live entries if they fit into the capacity, and otherwise as many entries as
-- fit: `max_entries` exactly.
pub clean-total :
    (now max_entries : ℕ) (shards : List Entries)
    → AllDistinct shards
    → ((total (retain_all now shards) ≤ max_entries)
        × (clean now max_entries shards ≡ retain_all now shards))
      ⊎ ((max_entries < total (retain_all now shards))
          × (total (clean now max_entries shards) ≡ max_entries))
unfolding clean
clean-total now max_entries shards ds =
    let live = retain_all now shards in
    let kept = retain_all-Distinct now shards ds in
    ground (arith, shrink-total (total live - max_entries) live kept)

length-retain-le : (now : ℕ) (m : Entries) → length (retain now m) ≤ length m
unfolding retain
length-retain-le now [] = omega arith
length-retain-le now ((k, e) ∷ m) = ground (arith, length-retain-le now m)

pub total-retain_all-le :
    (now : ℕ) (shards : List Entries) → total (retain_all now shards) ≤ total shards
unfolding total
total-retain_all-le now [] = omega arith
total-retain_all-le now (m ∷ shards) =
    omega (arith, length-retain-le now m, total-retain_all-le now shards)
