-- ===== src/Router/Path/Segments.antt =====
-- Which segment routes a request, and when the same segment can be removed from its path.
use neemata_proxy.Common.{
  ℕ, ◌≡◌, refl, ap, ◌∙◌, ◌⊎◌, ◌≢◌, inl, inr, false, Option, none, some, List, [], ◌∷◌, ◌++◌, arith,
  ◌==◌, nat_eq, eqb_iff, Bool-cases,
}
use neemata_proxy.Text.{Text, returned, is_empty, starts_with_char, strip_prefix, contains_char}
use neemata_proxy.Text.Splitting.{split, split-append}
use neemata_proxy.Router.Path.{
  first_non_empty, extract_first_path_segment, strip_first_path_segment,
}
use neemata_proxy.Router.Path.Laws.{
  stripped, IsTarget, IsStripped-stripped, exact, deeper, strip_first_path_segment-stripped,
}

-- The first piece of a split, and what it leaves.
split-head :
    (c : ℕ) (s : Text)
    → (p : Text) × (ps : List Text) × (split c s ≡ p ∷ ps)
      × ((s ≡ p) ⊎ ((r : Text) × (s ≡ p ++ c ∷ r)))
unfolding split
split-head c [] = ([], [], refl, inl refl)
split-head c (x ∷ s) =
    let (p, ps, e, cut) = split-head c s in
    elim (Bool-cases (x == c)) [
      | inl same ↦ ([], p ∷ ps, ground arith, inr (s, ap (λ y. y ∷ s) ((eqb_iff x c).0 same)))
      | inr other ↦ (
        x ∷ p,
        ps,
        ground arith,
        elim cut [ inl whole ↦ inl (ap (◌∷◌ x) whole) | inr (r, part) ↦ inr (r, ap (◌∷◌ x) part) ],
      )
    ]

-- The segment of a path that starts with a single slash stands right behind that slash.
extract-behind-slash :
    (s seg : Text)
    → starts_with_char b'/' s ≡ false
    → extract_first_path_segment (b'/' ∷ s) ≡ some seg
    → (s ≡ seg) ⊎ ((r : Text) × (s ≡ seg ++ b'/' ∷ r))
unfolding extract_first_path_segment split first_non_empty starts_with_char is_empty
extract-behind-slash [] seg single h = absurd (cc)
extract-behind-slash (x ∷ s) seg single h =
    let (p, ps, e, cut) = split-head b'/' s in
    let named : x ∷ p ≡ seg = ground (arith, e) in
    elim cut [
      | inl whole ↦ inl (ap (◌∷◌ x) whole ∙ named)
      | inr (r, part) ↦ inr (r, ap (◌∷◌ x) part ∙ ap (λ q. q ++ b'/' ∷ r) named)
    ]

-- A path with exactly one leading slash is always rewritten by the segment that routed it, whatever
-- its query string.
pub strip-extract :
    (pq s : Text) (query : Option Text) (seg : Text)
    → IsTarget pq (b'/' ∷ s) query
    → starts_with_char b'/' s ≡ false
    → extract_first_path_segment (b'/' ∷ s) ≡ some seg
    → (out : Text) × (strip_first_path_segment pq seg ≡ returned (some out))
strip-extract pq s query seg t single h =
    let to_stripped = strip_first_path_segment-stripped pq (b'/' ∷ s) query seg t in
    elim (extract-behind-slash s seg single h) [
      | inl whole ↦ (
        _,
        to_stripped
            ∙ ap returned (IsStripped-stripped _ query seg _ (exact (ap (◌∷◌ b'/') whole) refl)),
      )
      | inr (r, part) ↦ (
        _,
        to_stripped
            ∙ ap returned (IsStripped-stripped _ query seg _ (deeper r (ap (◌∷◌ b'/') part) refl)),
      )
    ]

-- The router reads the segment past repeated slashes, the rewriting does not: behind two slashes
-- a segment routes the request and the path goes upstream as it came.
pub double_slash_not_rewritten :
    (seg rest : Text) (query : Option Text) (pq : Text)
    → seg ≢ []
    → contains_char b'/' seg ≡ false
    → IsTarget pq (b'/' ∷ b'/' ∷ seg ++ b'/' ∷ rest) query
    → (extract_first_path_segment (b'/' ∷ b'/' ∷ seg ++ b'/' ∷ rest) ≡ some seg)
      × (strip_first_path_segment pq seg ≡ returned none)
unfolding extract_first_path_segment stripped strip_prefix contains_char split first_non_empty
    is_empty
double_slash_not_rewritten [] rest query pq h free t = absurd (h refl)
double_slash_not_rewritten (x ∷ seg) rest query pq h free t = (
  rw (split-append b'/' (x ∷ seg) rest free),
  strip_first_path_segment-stripped pq _ query (x ∷ seg) t ∙ ground arith,
)
