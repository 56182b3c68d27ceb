-- ===== src/Proxy/Lifecycle/Runs/Sums.antt =====
-- Sums over the tasks of a run, and how a call and a step change them.
use neemata_proxy.Common.{
  ℕ, ◌+◌, ◌<◌, ◌≤◌, ◌≡◌, refl, some, List, [], ◌∷◌, ◌++◌, zero, suc, arith, get_elem?, set,
  some-inj, ◌⊎◌, inl, inr,
}
use neemata_proxy.Proxy.Lifecycle.{Task}

positive_or : (a b : ℕ) → 0 < a + b → (0 < a) ⊎ (0 < b)
positive_or zero b h = inr (omega arith)
positive_or (suc a) b h = inl (omega arith)

module _ (f : Task → ℕ) where
  abbrev pub sum_of : List Task → ℕ
  sum_of [] = 0
  sum_of (t ∷ ts) = f t + sum_of ts

  pub sum_of-snoc : (ts : List Task) (t : Task) → sum_of (ts ++ (t ∷ [])) ≡ sum_of ts + f t
  sum_of-snoc [] t = omega arith
  sum_of-snoc (x ∷ ts) t = omega (arith, sum_of-snoc ts t)

  pub sum_of-set :
      (ts : List Task) (i : ℕ) (t new : Task)
      → get_elem? ts i ≡ some t
      → sum_of (set ts i new) + f t ≡ sum_of ts + f new
  sum_of-set [] i t new h = absurd (cc)
  sum_of-set (x ∷ ts) zero t new h = let is : x ≡ t = some-inj h in rw is (omega arith)
  sum_of-set (x ∷ ts) (suc i) t new h = omega (arith, sum_of-set ts i t new h)

  pub le-sum_of : (ts : List Task) (i : ℕ) (t : Task) → get_elem? ts i ≡ some t → f t ≤ sum_of ts
  le-sum_of [] i t h = absurd (cc)
  le-sum_of (x ∷ ts) zero t h = let is : x ≡ t = some-inj h in rw is (omega arith)
  le-sum_of (x ∷ ts) (suc i) t h = omega (arith, le-sum_of ts i t h)

  pub sum_of-positive :
      (ts : List Task)
      → 0 < sum_of ts
      → (i : ℕ) × (t : Task) × (get_elem? ts i ≡ some t) × (0 < f t)
  sum_of-positive [] h = absurd (omega arith)
  sum_of-positive (t ∷ ts) h = elim (positive_or (f t) (sum_of ts) h) [
    | inl here ↦ (0, t, refl, here)
    | inr later ↦ let (i, u, at, pos) = sum_of-positive ts later in (suc i, u, at, pos)
  ]
