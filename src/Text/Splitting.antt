-- ===== src/Text/Splitting.antt =====
-- `str::split`, `split_once` and `rsplit_once` at a character, and their laws.
use neemata_proxy.Common.{
  ℕ, ◌≡◌, refl, ◌≢◌, false, Option, none, some, List, [], ◌∷◌, ◌++◌, arith, if◌then◌else◌, ◌==◌,
  nat_eq, All, Option-cases, inl, inr,
}
use neemata_proxy.Text.{Text, contains_char}

abbrev pub push_head : ℕ → List Text → List Text
push_head x [] = (x ∷ []) ∷ []
push_head x (p ∷ ps) = (x ∷ p) ∷ ps

-- s.split(c)
unfoldable pub split : ℕ → Text → List Text
split c [] = [] ∷ []
split c (x ∷ s) = let rest = split c s in if x == c then [] ∷ rest else push_head x rest

abbrev pub push_first : ℕ → Option (Text × Text) → Option (Text × Text)
push_first x none = none
push_first x (some (p, r)) = some (x ∷ p, r)

-- s.split_once(c)
unfoldable pub split_once : ℕ → Text → Option (Text × Text)
split_once c [] = none
split_once c (x ∷ s) = if x == c then some ([], s) else push_first x (split_once c s)

abbrev pub or_first : ℕ → ℕ → Text → Option (Text × Text) → Option (Text × Text)
or_first c x s none = if x == c then some ([], s) else none
or_first c x s (some (p, r)) = some (x ∷ p, r)

-- s.rsplit_once(c)
unfoldable pub rsplit_once : ℕ → Text → Option (Text × Text)
rsplit_once c [] = none
rsplit_once c (x ∷ s) = or_first c x s (rsplit_once c s)

-- The text before a first `c` is the first piece.
pub split-append :
    (c : ℕ) (p s : Text) → contains_char c p ≡ false → split c (p ++ c ∷ s) ≡ p ∷ split c s
unfolding split contains_char
split-append c [] s h = ground arith
split-append c (x ∷ p) s h = ground (arith, split-append c p s)

pub split_whole : (c : ℕ) (p : Text) → contains_char c p ≡ false → split c p ≡ p ∷ []
unfolding split contains_char
split_whole c [] h = refl
split_whole c (x ∷ p) h = ground (arith, split_whole c p)

pub split_once-append :
    (c : ℕ) (p s : Text) → contains_char c p ≡ false → split_once c (p ++ c ∷ s) ≡ some (p, s)
unfolding split_once contains_char
split_once-append c [] s h = ground arith
split_once-append c (x ∷ p) s h = ground (arith, split_once-append c p s)

pub split_once-none : (c : ℕ) (s : Text) → contains_char c s ≡ false → split_once c s ≡ none
unfolding split_once contains_char
split_once-none c [] h = refl
split_once-none c (x ∷ s) h = ground (arith, split_once-none c s)

-- What is split is the text itself, cut at its first `c`.
pub split_once-eq-some :
    (c : ℕ) (s p r : Text)
    → split_once c s ≡ some (p, r)
    → (s ≡ p ++ c ∷ r) × (contains_char c p ≡ false)
unfolding split_once contains_char
split_once-eq-some c [] p r h = ground arith
split_once-eq-some c (x ∷ s) p r h = elim (Option-cases (split_once c s)) [
  | inl e ↦ ground arith
  | inr ((q, t), e) ↦ ground (arith, split_once-eq-some c s q t e)
]

-- No piece of a split holds the character.
pub split-All : (c : ℕ) (s : Text) → All (λ p. contains_char c p ≡ false) (split c s)
unfolding split contains_char
split-All c [] = (refl, tt)
split-All c (x ∷ s) = ground (arith, split-All c s)

pub split_once-eq-none : (c : ℕ) (s : Text) → split_once c s ≡ none → contains_char c s ≡ false
unfolding split_once contains_char
split_once-eq-none c [] h = refl
split_once-eq-none c (x ∷ s) h = ground (arith, split_once-eq-none c s)

rsplit_once-eq-none : (c : ℕ) (s : Text) → rsplit_once c s ≡ none → contains_char c s ≡ false
unfolding rsplit_once contains_char
rsplit_once-eq-none c [] h = refl
rsplit_once-eq-none c (x ∷ s) h = elim (Option-cases (rsplit_once c s)) [
  | inl e ↦ ground (arith, rsplit_once-eq-none c s e)
  | inr ((q, t), e) ↦ absurd (ground arith)
]

rsplit_once-none : (c : ℕ) (s : Text) → contains_char c s ≡ false → rsplit_once c s ≡ none
unfolding rsplit_once contains_char
rsplit_once-none c [] h = refl
rsplit_once-none c (x ∷ s) h = ground (arith, rsplit_once-none c s)

pub rsplit_once-eq-some :
    (c : ℕ) (s p r : Text)
    → rsplit_once c s ≡ some (p, r)
    → (s ≡ p ++ c ∷ r) × (contains_char c r ≡ false)
unfolding rsplit_once contains_char
rsplit_once-eq-some c [] p r h = ground arith
rsplit_once-eq-some c (x ∷ s) p r h = elim (Option-cases (rsplit_once c s)) [
  | inl e ↦ ground (arith, rsplit_once-eq-none c s e)
  | inr ((q, t), e) ↦ ground (arith, rsplit_once-eq-some c s q t e)
]

-- A last `c` is the one that is found.
pub rsplit_once-append :
    (c : ℕ) (p r : Text) → contains_char c r ≡ false → rsplit_once c (p ++ c ∷ r) ≡ some (p, r)
unfolding rsplit_once
rsplit_once-append c [] r h = ground (arith, rsplit_once-none c r h)
rsplit_once-append c (x ∷ p) r h = ground (arith, rsplit_once-append c p r h)

push_head-append :
    (x : ℕ) (ps qs : List Text) → ps ≢ [] → push_head x (ps ++ qs) ≡ push_head x ps ++ qs
push_head-append x [] qs ne = absurd (ne refl)
push_head-append x (p ∷ ps) qs ne = refl

push_head_non_empty : (x : ℕ) (ps : List Text) → push_head x ps ≢ []
push_head_non_empty x [] = cc
push_head_non_empty x (p ∷ ps) = cc

split_non_empty : (c : ℕ) (s : Text) → split c s ≢ []
unfolding split
split_non_empty c [] = cc
split_non_empty c (x ∷ s) = ground (arith, push_head_non_empty x (split c s))

-- The pieces of two texts with a `c` between them.
pub split-append_all : (c : ℕ) (p s : Text) → split c (p ++ c ∷ s) ≡ split c p ++ split c s
unfolding split
split-append_all c [] s = ground arith
split-append_all c (x ∷ p) s = ground (
  arith,
  split-append_all c p s,
  push_head-append x (split c p) (split c s) (split_non_empty c p),
)
