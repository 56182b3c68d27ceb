-- ===== src/Router/Upstream/Forwarding.antt =====
-- The path with which a request goes upstream.
use neemata_proxy.Common.{
  ◌≡◌, refl, ap, sym, ◌∙◌, inl, inr, Bool, true, false, Option, none, some, Option-cases,
  Bool-cases,
}
use neemata_proxy.Text.{Text, returned}
use neemata_proxy.Router.Path.{with_query}
use neemata_proxy.Router.Path.Laws.{IsTarget, IsStripped, strip_first_path_segment_iff}
use neemata_proxy.Router.Filters.{RouterCtx, Outcome, ok, err, internal_error}
use neemata_proxy.Router.Upstream.{upstream_request_filter}

-- What becomes of a path and query: a request that was routed by its path segment goes on without
-- it, if the segment stands behind one leading slash and ends there; all others stay as they are.
pub data IsForwarded (builds : Text → Bool) (ctx : RouterCtx)
    : Option Text → Option Text → Outcome Unit → Type 0 where
  not_by_path :
      (pq : Option Text) → ctx.path_rewrite_segment ≡ none → IsForwarded builds ctx pq pq (ok tt)
  no_path : IsForwarded builds ctx none none (ok tt)
  elsewhere :
      (segment whole : Text)
      → ctx.path_rewrite_segment ≡ some segment
      → ((path : Text) (query : Option Text) (out : Text)
          → IsTarget whole path query
          → ¬ IsStripped segment path out)
      → IsForwarded builds ctx (some whole) (some whole) (ok tt)
  stripped :
      (segment whole path : Text) (query : Option Text) (out : Text)
      → ctx.path_rewrite_segment ≡ some segment
      → IsTarget whole path query
      → IsStripped segment path out
      → builds (with_query out query) ≡ true
      → IsForwarded builds ctx (some whole) (some (with_query out query)) (ok tt)
  unbuildable :
      (segment whole path : Text) (query : Option Text) (out : Text)
      → ctx.path_rewrite_segment ≡ some segment
      → IsTarget whole path query
      → IsStripped segment path out
      → builds (with_query out query) ≡ false
      → IsForwarded builds ctx (some whole) (some whole) (err internal_error)

abbrev IsAnswered : (Text → Bool) → RouterCtx → Option Text → Type 0
IsAnswered builds ctx pq =
    (end : Option Text) × (answer : Outcome Unit) × (upstream_request_filter builds ctx pq
      ≡ returned (end, answer))
    × IsForwarded builds ctx pq end answer

segment-IsAnswered :
    (builds : Text → Bool) (ctx : RouterCtx) (segment whole : Text)
    → ctx.path_rewrite_segment ≡ some segment
    → IsAnswered builds ctx (some whole)
unfolding upstream_request_filter
segment-IsAnswered builds ctx segment whole is =
    let (r, done, iff) = strip_first_path_segment_iff whole segment in
    elim (Option-cases r) [
      | inl none_left ↦ (
        some whole,
        ok tt,
        rw (is, upstream_request_filter, done, none_left) refl,
        elsewhere segment whole is (λ path query out t s.
            let hit = (iff (with_query out query)).1 (path, query, out, t, s, refl) in
            absurd (cc (none_left, hit))),
      )
      | inr (new, made) ↦
          let (path, query, out, t, s, same) = (iff new).0 made in
          elim (Bool-cases (builds new)) [
            | inl good ↦ (
              some (with_query out query),
              ok tt,
              rw (is, upstream_request_filter, done, made, good)
                  (ap (λ n. returned (some n, ok tt)) same),
              stripped segment whole path query out is t s (ap builds (sym same) ∙ good),
            )
            | inr bad ↦ (
              some whole,
              err internal_error,
              rw (is, upstream_request_filter, done, made, bad) refl,
              unbuildable segment whole path query out is t s (ap builds (sym same) ∙ bad),
            )
          ]
    ]

-- `upstream_request_filter` never panics, whatever the path of the request, and forwards it as
-- `IsForwarded` describes.
pub upstream_request_filter-IsForwarded :
    (builds : Text → Bool) (ctx : RouterCtx) (pq : Option Text)
    → (end : Option Text) × (answer : Outcome Unit) × (upstream_request_filter builds ctx pq
        ≡ returned (end, answer))
      × IsForwarded builds ctx pq end answer
unfolding upstream_request_filter
upstream_request_filter-IsForwarded builds ctx pq = elim (Option-cases ctx.path_rewrite_segment) [
  | inl off ↦ (pq, ok tt, rw (off, upstream_request_filter) refl, not_by_path pq off)
  | inr (segment, is) ↦ go segment is pq
]
  where
    go :
        (segment : Text)
        → ctx.path_rewrite_segment ≡ some segment
        → (o : Option Text) → IsAnswered builds ctx o
    go segment is none = (none, ok tt, rw (is, upstream_request_filter) refl, no_path)
    go segment is (some whole) = segment-IsAnswered builds ctx segment whole is
