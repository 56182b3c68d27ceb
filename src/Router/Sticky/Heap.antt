-- ===== src/Router/Sticky/Heap.antt =====
-- The heap of candidates: it holds every entry, and gives the one that expires first.
use neemata_proxy.Common.{
  ℕ, zero, suc, ◌+◌, ◌≤◌, ◌≡◌, refl, ap, ◌⊎◌, inl, inr, Option, none, some, List, [], ◌∷◌, ◌++◌,
  length, get_elem?, arith, All, ◌==◌, Option-cases, Bool-cases,
}
use native.Mathlib.Nat.{add-zero}
use neemata_proxy.Map.{lookup}
use neemata_proxy.Router.Sticky.Evict.{
  AffinityMapKey, affinity_map_key_eq, key_beq_iff, AffinityEntry, Entries, EvictionItem,
  shard_candidates, candidates, pop_least,
}

-- The entry of a key in the shard of an index.
unfoldable pub entry_at : ℕ → AffinityMapKey → List Entries → Option AffinityEntry
entry_at i k shards = elim (get_elem? shards i) [ none ↦ none | some m ↦ lookup k m ]

abbrev pub Names : EvictionItem → ℕ → AffinityMapKey → ℕ → Type 0
Names c i k t = (c.shard_index ≡ i) × (c.key ≡ k) × (c.expires_at ≡ t)

-- The heap holds a candidate for the entry.
abbrev pub Has : List EvictionItem → ℕ → AffinityMapKey → ℕ → Type 0
Has [] i k t = ⊥
Has (c ∷ items) i k t = Names c i k t ⊎ Has items i k t

Has-append :
    (ps qs : List EvictionItem) (i : ℕ) (k : AffinityMapKey) (t : ℕ)
    → Has ps i k t ⊎ Has qs i k t
    → Has (ps ++ qs) i k t
Has-append [] qs i k t (inr h) = h
Has-append [] qs i k t (inl h) = absurd h
Has-append (c ∷ ps) qs i k t (inl (inl h)) = inl h
Has-append (c ∷ ps) qs i k t (inl (inr h)) = inr (Has-append ps qs i k t (inl h))
Has-append (c ∷ ps) qs i k t (inr h) = inr (Has-append ps qs i k t (inr h))

shard_candidates-Has :
    (i s : ℕ) (m : Entries) (k : AffinityMapKey) (entry : AffinityEntry)
    → lookup k m ≡ some entry
    → Has (shard_candidates i s m) i k entry.expires_at
unfolding shard_candidates lookup
shard_candidates-Has i s [] k entry h = absurd (cc)
shard_candidates-Has i s ((j, other) ∷ m) k entry h = elim (Bool-cases (j == k)) [
  | inl same ↦ inl (refl, (key_beq_iff j k).0 same, ground arith)
  | inr apart ↦ inr (shard_candidates-Has i (s + 1) m k entry (ground arith))
]

-- Every entry is a candidate.
pub candidates-Has :
    (shards : List Entries) (base s i : ℕ) (k : AffinityMapKey) (entry : AffinityEntry)
    → entry_at i k shards ≡ some entry
    → Has (candidates base s shards) (base + i) k entry.expires_at
unfolding candidates entry_at
candidates-Has [] base s i k entry h = absurd (cc)
candidates-Has (m ∷ shards) base s zero k entry h =
    Has-append (shard_candidates base s m) _ _ k entry.expires_at
      (inl (rw add-zero (shard_candidates-Has base s m k entry h)))
candidates-Has (m ∷ shards) base s (suc i) k entry h =
    Has-append (shard_candidates base s m) _ _ k entry.expires_at
      (inr (rw (shift base i) (candidates-Has shards (base + 1) (s + length m) i k entry h)))
  where
    shift : (base i : ℕ) → base + suc i ≡ base + 1 + i
    shift base i = omega arith

abbrev pub NotBefore : ℕ → List EvictionItem → Type 0
NotBefore b items = All (λ (d : EvictionItem). b ≤ d.expires_at) items

NotBefore-le : (a b : ℕ) (items : List EvictionItem) → a ≤ b → NotBefore b items → NotBefore a items
NotBefore-le a b [] h n = tt
NotBefore-le a b (d ∷ items) h (n, ns) = (omega arith, NotBefore-le a b items h ns)

pub pop_least-none : (items : List EvictionItem) → pop_least items ≡ none → items ≡ []
unfolding pop_least
pop_least-none [] h = refl
pop_least-none (x ∷ xs) h = elim (Option-cases (pop_least xs)) [
  | inl e ↦ absurd (ground arith)
  | inr ((y, ys), e) ↦ absurd (ground arith)
]

pop_least-nil : (c : EvictionItem) (rest : List EvictionItem) → pop_least [] ≡ some (c, rest) → ⊥
unfolding pop_least
pop_least-nil c rest h = cc

-- One step of the search for the least item: with the least of the others known, either the head
-- is the least or it stays.
pop_least-cons :
    (x : EvictionItem) (xs : List EvictionItem) (c : EvictionItem) (rest : List EvictionItem)
    → pop_least (x ∷ xs) ≡ some (c, rest)
    → ((xs ≡ []) × (c ≡ x) × (rest ≡ []))
      ⊎ ((y : EvictionItem) × (ys : List EvictionItem) × (pop_least xs ≡ some (y, ys))
          × (((c ≡ x) × (rest ≡ y ∷ ys) × (x.expires_at ≤ y.expires_at))
              ⊎ ((c ≡ y) × (rest ≡ x ∷ ys) × (y.expires_at ≤ x.expires_at))))
unfolding pop_least
pop_least-cons x xs c rest h = elim (Option-cases (pop_least xs)) [
  | inl e ↦ inl (pop_least-none xs e, ground arith, ground arith)
  | inr ((y, ys), e) ↦ inr (y, ys, e, ground arith)
]

-- None of the rest comes earlier than the least item.
pub pop_least-NotBefore :
    (items : List EvictionItem) (c : EvictionItem) (rest : List EvictionItem)
    → pop_least items ≡ some (c, rest)
    → NotBefore c.expires_at rest
pop_least-NotBefore [] c rest h = absurd (pop_least-nil c rest h)
pop_least-NotBefore (x ∷ xs) c rest h = elim (pop_least-cons x xs c rest h) [
  | inl (e, _, r) ↦ rw r tt
  | inr (y, ys, e, cut) ↦
      let later = pop_least-NotBefore xs y ys e in
      elim cut [
        | inl (same, r, le) ↦ rw (same, r) (le, NotBefore-le x.expires_at y.expires_at ys le later)
        | inr (same, r, le) ↦ rw (same, r) (le, later)
      ]
]

-- The least item and the rest are all the items.
pub pop_least-Has :
    (items : List EvictionItem) (c : EvictionItem) (rest : List EvictionItem)
    → pop_least items ≡ some (c, rest)
    → (i : ℕ) (k : AffinityMapKey) (t : ℕ) → Has items i k t
    → Names c i k t ⊎ Has rest i k t
pop_least-Has [] c rest h i k t has = absurd has
pop_least-Has (x ∷ xs) c rest h i k t has = elim (pop_least-cons x xs c rest h) [
  | inl (e, same, r) ↦
      rw same (elim has [ inl here ↦ inl here | inr later ↦ absurd (rw e at later) ])
  | inr (y, ys, e, cut) ↦
      let split = λ (later : Has xs i k t). pop_least-Has xs y ys e i k t later in
      elim cut [
        | inl (same, r, le) ↦
            rw (same, r) (elim has [ inl here ↦ inl here | inr later ↦ inr (split later) ])
        | inr (same, r, le) ↦
            rw (same, r)
              (elim has [
                | inl here ↦ inr (inl here)
                | inr later ↦ elim (split later) [
                  | inl least ↦ inl least
                  | inr other ↦ inr (inr other)
                ]
              ])
      ]
]

pub pop_least-bound :
    (b : ℕ) (items : List EvictionItem) (c : EvictionItem) (rest : List EvictionItem)
    → pop_least items ≡ some (c, rest)
    → NotBefore b items
    → b ≤ c.expires_at
pop_least-bound b [] c rest h n = absurd (pop_least-nil c rest h)
pop_least-bound b (x ∷ xs) c rest h (n, ns) = elim (pop_least-cons x xs c rest h) [
  | inl (e, same, r) ↦ rw same n
  | inr (y, ys, e, cut) ↦ elim cut [
    | inl (same, r, le) ↦ rw same n
    | inr (same, r, le) ↦ rw same (pop_least-bound b xs y ys e ns)
  ]
]

pub length-pop_least :
    (items : List EvictionItem) (c : EvictionItem) (rest : List EvictionItem)
    → pop_least items ≡ some (c, rest)
    → length items ≡ suc (length rest)
length-pop_least [] c rest h = absurd (pop_least-nil c rest h)
length-pop_least (x ∷ xs) c rest h = elim (pop_least-cons x xs c rest h) [
  | inl (e, same, r) ↦ rw (e, r) refl
  | inr (y, ys, e, cut) ↦ elim cut [
    | inl (same, r, le) ↦ rw r (ap suc (length-pop_least xs y ys e))
    | inr (same, r, le) ↦ rw r (ap suc (length-pop_least xs y ys e))
  ]
]
