-- ===== src/Text/Laws.antt =====
-- Laws of prefixes, byte offsets, slices, trimming and letter case.
use neemata_proxy.Common.{
  ℕ, ◌+◌, ◌-◌, ◌≡◌, refl, ap, false, none, some, [], ◌∷◌, ◌++◌, arith, ◌==◌, nat_eq, Bool-cases,
  Option-cases, eqb_iff, inl, inr,
}
use neemata_proxy.Text.{
  Text, returned, lower, to_ascii_lowercase, len_utf8, len, strip_prefix, find_char, slice_from,
  slice_to, contains_char,
}

pub strip_prefix-append : (p s : Text) → strip_prefix p (p ++ s) ≡ some s
unfolding strip_prefix
strip_prefix-append [] s = refl
strip_prefix-append (x ∷ p) s = ground (arith, strip_prefix-append p s)

pub strip_prefix-eq-some : (p s r : Text) → strip_prefix p s ≡ some r → s ≡ p ++ r
unfolding strip_prefix
strip_prefix-eq-some [] s r h = ground arith
strip_prefix-eq-some (x ∷ p) [] r h = cc
strip_prefix-eq-some (x ∷ p) (y ∷ s) r h = ground (arith, strip_prefix-eq-some p s r)

pub len-append : (p s : Text) → len (p ++ s) ≡ len p + len s
unfolding len
len-append [] s = omega arith
len-append (c ∷ p) s = omega (arith, len-append p s)

-- Behind a prefix stands the rest: such a slice never panics.
pub slice_from-append : (p s : Text) → slice_from (len p) (p ++ s) ≡ returned s
unfolding slice_from len
slice_from-append [] [] = refl
slice_from-append [] (c ∷ s) = refl
slice_from-append (c ∷ p) s =
    ground (arith, slice_from-append p s, ap (λ n. slice_from n (p ++ s)) (drop_width c p))
  where
    drop_width : (c : ℕ) (p : Text) → len_utf8 c + len p - len_utf8 c ≡ len p
    drop_width c p = omega arith

pub slice_to-append : (p s : Text) → slice_to (len p) (p ++ s) ≡ returned p
unfolding slice_to len
slice_to-append [] [] = refl
slice_to-append [] (c ∷ s) = refl
slice_to-append (c ∷ p) s =
    ground (arith, slice_to-append p s, ap (λ n. slice_to n (p ++ s)) (drop_width c p))
  where
    drop_width : (c : ℕ) (p : Text) → len_utf8 c + len p - len_utf8 c ≡ len p
    drop_width c p = omega arith

-- A found character splits the text at its byte offset.
pub find_char-eq-some :
    (c : ℕ) (s : Text) (n : ℕ)
    → find_char c s ≡ some n
    → (p : Text) × (r : Text) × (s ≡ p ++ c ∷ r) × (n ≡ len p) × (contains_char c p ≡ false)
unfolding find_char len contains_char
find_char-eq-some c [] n h = absurd (cc)
find_char-eq-some c (x ∷ s) n h = elim (Bool-cases (x == c)) [
  | inl same ↦ ([], s, ap (λ y. y ∷ s) ((eqb_iff x c).0 same), ground arith, refl)
  | inr other ↦ elim (Option-cases (find_char c s)) [
    | inl missed ↦ absurd (ground arith)
    | inr (m, found) ↦
        let (p, r, cut, offset, free) = find_char-eq-some c s m found in
        (x ∷ p, r, ap (◌∷◌ x) cut, ground arith, ground arith)
  ]
]

pub find_char-eq-none : (c : ℕ) (s : Text) → find_char c s ≡ none → contains_char c s ≡ false
unfolding find_char contains_char
find_char-eq-none c [] h = refl
find_char-eq-none c (x ∷ s) h = elim (Option-cases (find_char c s)) [
  | inl e ↦ ground (arith, find_char-eq-none c s e)
  | inr (m, e) ↦ absurd (ground arith)
]

pub lower_idem : (c : ℕ) → lower (lower c) ≡ lower c
unfolding lower
lower_idem c = ground arith

pub to_ascii_lowercase_idem :
    (s : Text) → to_ascii_lowercase (to_ascii_lowercase s) ≡ to_ascii_lowercase s
unfolding to_ascii_lowercase
to_ascii_lowercase_idem [] = refl
to_ascii_lowercase_idem (c ∷ s) = cc (lower_idem c, to_ascii_lowercase_idem s)

-- A slice from the start is the text.
pub slice_from-zero : (s : Text) → slice_from 0 s ≡ returned s
unfolding slice_from
slice_from-zero [] = refl
slice_from-zero (c ∷ s) = refl

pub len-strip_prefix : (p s r : Text) → strip_prefix p s ≡ some r → len s ≡ len p + len r
len-strip_prefix p s r h = rw (strip_prefix-eq-some p s r h) (len-append p r)
