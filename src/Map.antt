-- ===== src/Map.antt =====
-- `std::collections::HashMap` and `HashSet`, as association lists without duplicate keys. The
-- order of the list is the order in which the source iterates, which the language leaves open: a
-- theorem about every list is a theorem about every order.
use neemata_proxy.Common.{
  ◌+◌, ◌≤◌, ◌≡◌, refl, Bool, false, ◌||◌, Option, none, some, List, [], ◌∷◌, arith, if◌then◌else◌,
  length, Eq, ◌==◌,
}

module _ {ℓ κ} {K : Type ℓ} {V : Type κ} ⦃e : Eq K⦄ where
  -- map.get(k)
  unfoldable pub lookup : K → List (K × V) → Option V
  lookup key [] = none
  lookup key ((other, value) ∷ table) = if other == key then some value else lookup key table

  -- map.insert(k, v)
  unfoldable pub insert : K → V → List (K × V) → List (K × V)
  insert key value [] = (key, value) ∷ []
  insert key value ((other, old) ∷ table) =
      if other == key then (key, value) ∷ table else (other, old) ∷ insert key value table

  -- map.remove(k)
  unfoldable pub remove : K → List (K × V) → List (K × V)
  remove key [] = []
  remove key ((other, old) ∷ table) =
      if other == key then remove key table else (other, old) ∷ remove key table

  -- No key stands twice.
  abbrev pub Distinct : List (K × V) → Type κ
  Distinct [] = Unit
  Distinct ((key, value) ∷ table) = (lookup key table ≡ none) × Distinct table

  pub lookup-insert :
      (key other : K) (value : V) (table : List (K × V))
      → lookup other (insert key value table)
        ≡ (if key == other then some value else lookup other table)
  unfolding lookup insert
  lookup-insert key other value [] = refl
  lookup-insert key other value ((here, old) ∷ table) = ground (
    arith,
    e.beq_iff key other,
    e.beq_iff here key,
    e.beq_iff here other,
    lookup-insert key other value table,
  )

  pub lookup-insert_self :
      (key : K) (value : V) (table : List (K × V))
      → lookup key (insert key value table) ≡ some value
  lookup-insert_self key value table =
      ground (arith, lookup-insert key key value table, e.beq_iff key key)

  pub lookup-insert_ne :
      (key other : K) (value : V) (table : List (K × V))
      → (key == other) ≡ false
      → lookup other (insert key value table) ≡ lookup other table
  lookup-insert_ne key other value table h = ground (arith, lookup-insert key other value table)

  pub lookup-remove :
      (key other : K) (table : List (K × V))
      → lookup other (remove key table) ≡ (if key == other then none else lookup other table)
  unfolding lookup remove
  lookup-remove key other [] = ground arith
  lookup-remove key other ((here, old) ∷ table) = ground (
    arith,
    e.beq_iff key other,
    e.beq_iff here key,
    e.beq_iff here other,
    lookup-remove key other table,
  )

  pub lookup-remove-none :
      (key other : K) (table : List (K × V))
      → lookup other table ≡ none
      → lookup other (remove key table) ≡ none
  lookup-remove-none key other table h = rw (lookup-remove key other table, h) (ground arith)

  pub insert-Distinct :
      (key : K) (value : V) (table : List (K × V))
      → Distinct table
      → Distinct (insert key value table)
  unfolding insert lookup
  insert-Distinct key value [] d = (refl, tt)
  insert-Distinct key value ((other, old) ∷ table) d = ground (
    arith,
    e.beq_iff other key,
    e.beq_iff key other,
    insert-Distinct key value table,
    lookup-insert key other value table,
  )

  pub remove-Distinct :
      (key : K) (table : List (K × V)) → Distinct table → Distinct (remove key table)
  unfolding remove
  remove-Distinct key [] d = tt
  remove-Distinct key ((other, old) ∷ table) d =
      ground (arith, remove-Distinct key table, lookup-remove-none key other table)

  pub remove_absent :
      (key : K) (table : List (K × V)) → lookup key table ≡ none → remove key table ≡ table
  unfolding lookup remove
  remove_absent key [] h = refl
  remove_absent key ((other, old) ∷ table) h = ground (arith, remove_absent key table)

  -- Removing a key that is there takes away exactly one entry.
  pub length-remove :
      (key : K) (table : List (K × V)) (value : V)
      → Distinct table
      → lookup key table ≡ some value
      → length (remove key table) + 1 ≡ length table
  unfolding lookup remove
  length-remove key [] value d h = cc
  length-remove key ((other, old) ∷ table) value d h =
      ground (arith, length-remove key table value, e.beq_iff other key, remove_absent key table)

module _ {ℓ κ} {K : Type ℓ} {V : Type κ} ⦃e : Eq K⦄ where
  -- Writing over a key that is there adds no entry.
  pub length-insert_known :
      (key : K) (value : V) (table : List (K × V)) (old : V)
      → lookup key table ≡ some old
      → length (insert key value table) ≡ length table
  unfolding insert lookup
  length-insert_known key value [] old h = absurd (cc)
  length-insert_known key value ((other, v) ∷ table) old h =
      ground (arith, length-insert_known key value table old)

  pub length-insert-le :
      (key : K) (value : V) (table : List (K × V))
      → length (insert key value table) ≤ length table + 1
  unfolding insert
  length-insert-le key value [] = omega arith
  length-insert-le key value ((other, old) ∷ table) =
      ground (arith, length-insert-le key value table)

-- `HashSet::contains`.
module _ {ℓ} {K : Type ℓ} ⦃e : Eq K⦄ where
  unfoldable pub contains : List K → K → Bool
  contains [] key = false
  contains (x ∷ xs) key = x == key || contains xs key
