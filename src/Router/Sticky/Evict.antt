-- ===== src/Router/Sticky/Evict.antt =====
-- src/router.rs: the entries of the table, and the eviction loop of `cleanup_global` over a heap of
-- candidates.
use neemata_proxy.Common.{
  ℕ, zero, suc, ◌+◌, ◌&&◌, ◌||◌, Bool, true, false, Option, none, some, List, [], ◌∷◌, ◌++◌, ltb,
  eqb, if◌then◌else◌, length, get_elem?, set, arith, ◌≡◌, ◌↔◌, Eq, ◌==◌, nat_eq, list_eq,
}
use neemata_proxy.Text.{Text, text_iff}
use neemata_proxy.Map.{lookup, remove}
use neemata_proxy.Lb.{TransportKind, transport_eq, transport_beq_iff}

pub record AffinityMapKey : Type 0 where
  pub app_name : Text
  pub transport : TransportKind
  pub affinity_key : Text

unfoldable pub key_beq : AffinityMapKey → AffinityMapKey → Bool
key_beq a b =
    a.app_name == b.app_name && a.transport == b.transport && a.affinity_key == b.affinity_key

pub key_beq_iff : (a b : AffinityMapKey) → (key_beq a b ≡ true) ↔ (a ≡ b)
unfolding key_beq
key_beq_iff a b = ground (
  arith,
  text_iff a.app_name b.app_name,
  text_iff a.affinity_key b.affinity_key,
  transport_beq_iff a.transport b.transport,
)

instance abbrev pub affinity_map_key_eq : Eq AffinityMapKey
affinity_map_key_eq = record { beq = key_beq; beq_iff = key_beq_iff }

pub record AffinityEntry : Type 0 where
  pub backend : Text
  pub expires_at : ℕ

-- The map of one shard.
abbrev pub Entries : Type 0
Entries = List (AffinityMapKey × AffinityEntry)

pub record EvictionItem : Type 0 where
  pub expires_at : ℕ
  pub sequence : ℕ
  pub shard_index : ℕ
  pub key : AffinityMapKey

-- `EvictionItem::cmp` is not greater: by the instant, then by the sequence number.
unfoldable pub is_before : EvictionItem → EvictionItem → Bool
is_before a b =
    ltb a.expires_at b.expires_at
    || (eqb a.expires_at b.expires_at && (ltb a.sequence b.sequence || eqb a.sequence b.sequence))

-- BinaryHeap::pop on `Reverse` items: the least item, and those that stay.
unfoldable pub pop_least : List EvictionItem → Option (EvictionItem × List EvictionItem)
unfolding is_before
pop_least [] = none
pop_least (x ∷ xs) = elim (pop_least xs) [
  | none ↦ some (x, [])
  | some (y, ys) ↦ if is_before x y then some (x, y ∷ ys) else some (y, x ∷ ys)
]

-- The pushes for the entries of one shard.
unfoldable pub shard_candidates : ℕ → ℕ → Entries → List EvictionItem
shard_candidates shard_index sequence [] = []
shard_candidates shard_index sequence ((key, entry) ∷ entries) =
    record {
      expires_at = entry.expires_at;
      sequence = sequence;
      shard_index = shard_index;
      key = key;
    }
    ∷ shard_candidates shard_index (sequence + 1) entries

-- The pushes for all shards, from the given index and sequence number on.
unfoldable pub candidates : ℕ → ℕ → List Entries → List EvictionItem
unfolding shard_candidates
candidates shard_index sequence [] = []
candidates shard_index sequence (entries ∷ shards) =
    shard_candidates shard_index sequence entries
    ++ candidates (shard_index + 1) (sequence + length entries) shards

-- One candidate: it is removed if its entry still stands as it was pushed. The number says how many
-- entries went, none or one.
unfoldable pub evict_one : EvictionItem → List Entries → List Entries × ℕ
evict_one c shards = elim (get_elem? shards c.shard_index) [
  | none ↦ (shards, 0)
  | some entries ↦ elim (lookup c.key entries) [
    | none ↦ (shards, 0)
    | some entry ↦
        if eqb entry.expires_at c.expires_at
        then (set shards c.shard_index (remove c.key entries), 1)
        else (shards, 0)
  ]
]

-- The `while removed < overflow` loop. Each round takes a candidate off the heap, so the number of
-- candidates is enough fuel.
unfoldable pub evict : ℕ → ℕ → ℕ → List EvictionItem → List Entries → List Entries × ℕ
evict zero overflow removed items shards = (shards, removed)
evict (suc fuel) overflow removed items shards = elim (ltb removed overflow) [
  | false ↦ (shards, removed)
  | true ↦ elim (pop_least items) [
    | none ↦ (shards, removed)
    | some (c, rest) ↦
        let next = evict_one c shards in evict fuel overflow (removed + next.1) rest next.0
  ]
]
