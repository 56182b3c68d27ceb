-- ===== src/Router/Path/Laws.antt =====
-- What `strip_first_path_segment` returns, on every branch, and that its slices are in range.
use neemata_proxy.Common.{
  ◌+◌, ◌≡◌, refl, ap, sym, ◌∙◌, ◌⊎◌, ◌↔◌, inl, inr, false, Option, none, some, [], ◌∷◌, ◌++◌, arith,
  if◌then◌else◌, ◌==◌, nat_eq, eqb_iff, Bool-cases, Option-cases, append-nil,
}
use neemata_proxy.Text.{Text, returned, len, len_utf8, slice_from, strip_prefix, contains_char}
use neemata_proxy.Text.Laws.{
  strip_prefix-append, strip_prefix-eq-some, slice_from-append, len-append, slice_from-zero,
}
use neemata_proxy.Text.Splitting.{
  split_once, split_once-eq-some, split_once-eq-none, split_once-none, split_once-append,
}
use neemata_proxy.Router.Path.{with_query, rewrite, strip_path, strip_first_path_segment}

-- The function without offsets: the slices are gone, and so is the test of the length.
unfoldable pub stripped : Text → Option Text → Text → Option Text
stripped [] query segment = none
stripped (c ∷ path) query segment =
    if c == b'/'
    then elim (strip_prefix segment path) [ none ↦ none | some r ↦ rewrite r query ]
    else none

slice_from_one : (s : Text) → slice_from 1 (b'/' ∷ s) ≡ returned s
unfolding slice_from len_utf8
slice_from_one s = slice_from-zero s

slice_behind : (segment r : Text) → slice_from (len segment + 1) (b'/' ∷ segment ++ r) ≡ returned r
unfolding len len_utf8
slice_behind segment r =
    let same : len segment + 1 ≡ len (b'/' ∷ segment) = omega arith in
    rw same (slice_from-append (b'/' ∷ segment) r)

strip_path-stripped-slash :
    (path : Text) (query : Option Text) (segment : Text)
    → strip_path (b'/' ∷ path) query segment ≡ returned (stripped (b'/' ∷ path) query segment)
unfolding strip_path stripped
strip_path-stripped-slash path query segment = elim (Option-cases (strip_prefix segment path)) [
  | inl missed ↦ ground (arith, slice_from_one path)
  | inr (r, found) ↦ rw (strip_prefix-eq-some segment path r found) (
      ground (
        arith,
        slice_from_one (segment ++ r),
        slice_behind segment r,
        len-append segment r,
        strip_prefix-append segment r,
      ))
]

pub strip_path-stripped :
    (path : Text) (query : Option Text) (segment : Text)
    → strip_path path query segment ≡ returned (stripped path query segment)
unfolding strip_path stripped
strip_path-stripped [] query segment = refl
strip_path-stripped (c ∷ path) query segment = elim (Bool-cases (c == b'/')) [
  | inl same ↦ rw ((eqb_iff c b'/').0 same) (strip_path-stripped-slash path query segment)
  | inr other ↦ ground arith
]

-- The rewriting that the router means to do: the segment behind the leading slash goes, and the
-- path ends there or goes on with a slash.
pub data IsStripped (segment path out : Text) : Type 0 where
  exact : path ≡ b'/' ∷ segment → out ≡ b'/' ∷ [] → IsStripped segment path out
  deeper :
      (rest : Text)
      → path ≡ b'/' ∷ segment ++ b'/' ∷ rest
      → out ≡ b'/' ∷ rest
      → IsStripped segment path out

rewrite-eq-some :
    (r : Text) (query : Option Text) (out : Text)
    → rewrite r query ≡ some out
    → ((r ≡ []) × (out ≡ with_query (b'/' ∷ []) query))
      ⊎ ((rest : Text) × (r ≡ b'/' ∷ rest) × (out ≡ with_query (b'/' ∷ rest) query))
unfolding rewrite
rewrite-eq-some [] query out h = inl (refl, ground arith)
rewrite-eq-some (c ∷ rest) query out h = elim (Bool-cases (c == b'/')) [
  | inl same ↦
      let e = (eqb_iff c b'/').0 same in inr (rest, ap (λ x. x ∷ rest) e, ground (arith, e))
  | inr other ↦ absurd (ground arith)
]

stripped-IsStripped :
    (path : Text) (query : Option Text) (segment out : Text)
    → stripped path query segment ≡ some out
    → (op : Text) × IsStripped segment path op × (out ≡ with_query op query)
unfolding stripped
stripped-IsStripped [] query segment out h = absurd (cc)
stripped-IsStripped (c ∷ path) query segment out h = elim (Bool-cases (c == b'/')) [
  | inr other ↦ absurd (ground arith)
  | inl slash ↦ elim (Option-cases (strip_prefix segment path)) [
    | inl missed ↦ absurd (ground arith)
    | inr (r, found) ↦
        let cut : c ∷ path ≡ b'/' ∷ segment ++ r =
          cc ((eqb_iff c b'/').0 slash, strip_prefix-eq-some segment path r found) in
        elim (rewrite-eq-some r query out (ground arith)) [
          | inl (e, o) ↦ (
            b'/' ∷ [],
            exact (cut ∙ ap (λ s. b'/' ∷ segment ++ s) e ∙ ap (◌∷◌ b'/') (append-nil segment)) refl,
            o,
          )
          | inr (rest, e, o) ↦
              (b'/' ∷ rest, deeper rest (cut ∙ ap (λ s. b'/' ∷ segment ++ s) e) refl, o)
        ]
  ]
]

pub IsStripped-stripped :
    (path : Text) (query : Option Text) (segment op : Text)
    → IsStripped segment path op
    → stripped path query segment ≡ some (with_query op query)
unfolding stripped rewrite
IsStripped-stripped path query segment op (exact e o) =
    rw (e, o) (ground (arith, strip_prefix-append segment [], append-nil segment))
IsStripped-stripped path query segment op (deeper rest e o) =
    rw (e, o) (ground (arith, strip_prefix-append segment (b'/' ∷ rest)))

returned-injective {ℓ} : {A : Type ℓ} {a b : A} → returned a ≡ returned b → a ≡ b
returned-injective e = cc

-- A path and its query string, as they stand in the request line.
pub record IsTarget (path_and_query path : Text) (query : Option Text) : Type 0 where
  pub joined : path_and_query ≡ with_query path query
  pub clean : contains_char b'?' path ≡ false

strip_first_path_segment-with_query :
    (path : Text) (query : Option Text) (segment : Text)
    → contains_char b'?' path ≡ false
    → strip_first_path_segment (with_query path query) segment
      ≡ returned (stripped path query segment)
unfolding strip_first_path_segment
strip_first_path_segment-with_query path none segment h =
    rw (split_once-none b'?' path h, strip_first_path_segment)
      (strip_path-stripped path none segment)
strip_first_path_segment-with_query path (some q) segment h =
    rw (split_once-append b'?' path q h, strip_first_path_segment)
      (strip_path-stripped path (some q) segment)

pub strip_first_path_segment-stripped :
    (pq path : Text) (query : Option Text) (segment : Text)
    → IsTarget pq path query
    → strip_first_path_segment pq segment ≡ returned (stripped path query segment)
strip_first_path_segment-stripped pq path query segment t =
    ap (λ x. strip_first_path_segment x segment) t.joined
    ∙ strip_first_path_segment-with_query path query segment t.clean

-- Every text is a path with a query string or without one.
pub IsTarget-any : (pq : Text) → (path : Text) × (query : Option Text) × IsTarget pq path query
IsTarget-any pq = elim (Option-cases (split_once b'?' pq)) [
  | inl whole ↦ (pq, none, record { joined = refl; clean = split_once-eq-none b'?' pq whole })
  | inr ((p, q), cut) ↦
      let (joined, clean) = split_once-eq-some b'?' pq p q cut in
      (p, some q, record { joined = joined; clean = clean })
]

-- No slice of `strip_first_path_segment` is out of range: it returns for every request target and
-- every segment. It rewrites the target to `out` exactly when the path before the query string is
-- a slash, the segment, and then nothing or a slash and the rest; then `out` is a slash, or a slash
-- and that rest, with the query string as it was.
pub strip_first_path_segment_iff :
    (pq segment : Text)
    → (r : Option Text) × (strip_first_path_segment pq segment ≡ returned r)
      × ((out : Text)
          → (r ≡ some out) ↔ (
              (path : Text) × (query : Option Text) × (op : Text) × IsTarget pq path query
              × IsStripped segment path op
              × (out ≡ with_query op query)))
strip_first_path_segment_iff pq segment =
    let (path, query, t) = IsTarget-any pq in
    (
      stripped path query segment,
      strip_first_path_segment-stripped pq path query segment t,
      λ out. (
        λ h.
            let (op, s, e) = stripped-IsStripped path query segment out h in
            (path, query, op, t, s, e),
        λ (path', query', op, t', s, e).
            returned-injective (
              sym (strip_first_path_segment-stripped pq path query segment t)
              ∙ strip_first_path_segment-stripped pq path' query' segment t')
            ∙ IsStripped-stripped path' query' segment op s
            ∙ ap some (sym e),
      ),
    )
