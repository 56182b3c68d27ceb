-- ===== src/Router/Upstream/Failures.antt =====
-- What happens when a peer cannot be reached, and which status the client gets for a failure.
use neemata_proxy.Common.{
  ℕ, ◌<◌, ◌≡◌, ◌≢◌, refl, ap, sym, subst, ◌∙◌, ◌⊎◌, inl, inr, Bool, true, Option, none, some, ltb,
  if◌then◌else◌, list_eq, nat_eq, arith, Option-cases, Bool-cases,
}
use neemata_proxy.Text.{Text, Run, returned}
use neemata_proxy.Router.Session.{Session}
use neemata_proxy.Router.Host.{extract_host}
use neemata_proxy.Router.Sticky.Evict.{AffinityMapKey}
use neemata_proxy.Router.Sticky.Cleanup.{IsSound, stored}
use neemata_proxy.Router.Sticky.Binding.{IsKept}
use neemata_proxy.Router.Sticky.Bindings.{remove_sticky-stored}
use neemata_proxy.Router.Sticky.{StickySessionState}
use neemata_proxy.Router.Filters.{
  FailureHint, missing_application, missing_ws_pool, missing_upstream_pool, http_status, Outcome,
  err, Exchange, RespondError, request_filter, Router,
}
use neemata_proxy.Router.Filters.Pools.{IsFiltered, rejected, unrouted, unserved, unknown, ready}
use neemata_proxy.Router.Filters.Outcomes.{IsStart, request_filter-IsFiltered}
use neemata_proxy.Lb.{TransportKind}
use neemata_proxy.Router.Upstream.Keys.{
  IsKeyOf, IsKeyless, affinity_map_key-IsKeyOf, affinity_map_key-IsKeyless,
}
use neemata_proxy.Router.Upstream.{
  ProxyError, affinity_map_key, with_sticky, sticky_key, mark_retry, unbind, fail_to_connect,
  failure_code, fail_to_proxy,
}

abbrev pub IsSoundIf : Option StickySessionState → Type 0
IsSoundIf none = Unit
IsSoundIf (some sticky) = IsSound sticky

-- The error with which a failed attempt to connect goes on.
abbrev pub retried : Bool → ProxyError → ProxyError
retried attempted e = if attempted then e else record e { retry = true }

-- What a failed attempt to connect does: nothing, if there are no sticky sessions or the request
-- has no transport or no key; else the entry of the request is taken out, and no other.
pub data IsUnbound (hash : AffinityMapKey → ℕ) (x : Exchange) (e : ProxyError)
    : Exchange → ProxyError → Type 0 where
  untouched :
      (x.router.sticky ≡ none) ⊎ (x.ctx.selected_transport ≡ none) ⊎ IsKeyless x.ctx
      → IsUnbound hash x e x e
  unbound :
      (sticky after : StickySessionState) (transport : TransportKind) (key : AffinityMapKey)
      (end : Exchange)
      → x.router.sticky ≡ some sticky
      → x.ctx.selected_transport ≡ some transport
      → IsKeyOf x.ctx transport key
      → end.router.sticky ≡ some after
      → IsKept sticky after
      → stored hash after key ≡ none
      → ((q : AffinityMapKey) → q ≢ key → stored hash after q ≡ stored hash sticky q)
      → end.ctx.sticky_retry_attempted ≡ true
      → IsUnbound hash x e end (retried x.ctx.sticky_retry_attempted e)

-- What the four options together say.
sticky_key-cases :
    (x : Exchange)
    → ((sticky_key x ≡ none)
        × ((x.router.sticky ≡ none) ⊎ (x.ctx.selected_transport ≡ none) ⊎ IsKeyless x.ctx))
      ⊎ ((sticky : StickySessionState) × (transport : TransportKind) × (key : AffinityMapKey)
          × (sticky_key x ≡ some (sticky, key))
          × (x.router.sticky ≡ some sticky)
          × (x.ctx.selected_transport ≡ some transport)
          × IsKeyOf x.ctx transport key)
unfolding sticky_key
sticky_key-cases x = elim (Option-cases x.router.sticky) [
  | inl off ↦ inl (ground (arith, off), inl off)
  | inr (s, on) ↦ elim (Option-cases x.ctx.selected_transport) [
    | inl lost ↦ inl (ground (arith, on, lost), inr (inl lost))
    | inr (t, is) ↦ elim (Option-cases (affinity_map_key x.ctx t)) [
      | inl lost ↦
          inl (ground (arith, on, is, lost), inr (inr (affinity_map_key-IsKeyless x.ctx t lost)))
      | inr (k, has) ↦
          inr (s, t, k, ground (arith, on, is, has), on, is, affinity_map_key-IsKeyOf x.ctx t k has)
    ]
  ]
]

mark_retry-fields :
    (x : Exchange) (e : ProxyError)
    → let (end, e') = mark_retry x e in
      (end.router ≡ x.router)
      × (end.ctx.sticky_retry_attempted ≡ true)
      × (e' ≡ retried x.ctx.sticky_retry_attempted e)
unfolding mark_retry
mark_retry-fields x e = elim (Bool-cases x.ctx.sticky_retry_attempted) [
  | inl again ↦ rw (again, mark_retry) (refl, refl, refl)
  | inr first ↦ rw (first, mark_retry) (refl, refl, refl)
]

module _ (hash : AffinityMapKey → ℕ) where
  -- A failed attempt to connect does not panic on a sound table. With sticky sessions, for a request
  -- that has a transport, an application and an affinity key, it takes exactly the entry under these
  -- three out of the table, and marks the error for a retry if there has been none. Otherwise it
  -- changes nothing.
  pub fail_to_connect-IsUnbound :
      (x : Exchange) (e : ProxyError)
      → IsSoundIf x.router.sticky
      → (end : Exchange) × (e' : ProxyError) × (fail_to_connect hash x e ≡ returned (end, e'))
        × IsUnbound hash x e end e'
  unfolding fail_to_connect unbind
  fail_to_connect-IsUnbound x e v = elim (sticky_key-cases x) [
    | inl (off, why) ↦ (x, e, ap (λ o. unbind hash o x e) off, untouched why)
    | inr (sticky, transport, key, on, here, over, is) ↦
        let (after, gone, kept, cleared, others) =
          remove_sticky-stored hash key sticky (subst IsSoundIf here v) in
        let x' = with_sticky after x in
        let end = mark_retry x' e in
        let (same, marked, out) = mark_retry-fields x' e in
        (
          end.0,
          end.1,
          ap (λ o. unbind hash o x e) on ∙ rw (gone, unbind) refl,
          rw out (
              unbound sticky after transport key end.0 here over is
                (ap (λ (r : Router). r.sticky) same) kept cleared others marked),
        )
  ]

-- The hint that goes with an error of `request_filter`.
refused :
    (session : Session) (now_nanos : ℕ) (respond_error : RespondError) (host : Option Text)
    (router : Router) (end : Exchange) (status : ℕ) (answer : Outcome Bool)
    → IsFiltered session now_nanos respond_error host router end answer
    → answer ≡ err (http_status status)
    → ((end.ctx.failure_hint ≡ some missing_application) × (status ≡ 404))
      ⊎ ((end.ctx.failure_hint ≡ some missing_ws_pool) × (status ≡ 503))
      ⊎ ((end.ctx.failure_hint ≡ some missing_upstream_pool) × (status ≡ 503))
refused session now_nanos respond_error host router end status _ (rejected code over told) e =
    elim (Bool-cases (respond_error code)) [
      | inl sent ↦ absurd (ground arith)
      | inr lost ↦ absurd (ground arith)
    ]
refused session now_nanos respond_error host router end status _ (unrouted free lost hint) e =
    inl (hint, ground arith)
refused session now_nanos respond_error host router end status _
      (unserved route free found pools has lacking hint) e =
    elim (Bool-cases session.is_upgrade_req) [
      | inl up ↦ inr (inl (ground arith, ground arith))
      | inr up ↦ inr (inr (ground arith, ground arith))
    ]
refused session now_nanos respond_error host router end status _
      (unknown route free found missing hint) e =
    inr (inr (hint, ground arith))
refused session now_nanos respond_error host router end status _
      (ready route free found pools has is) e =
    absurd (cc)

known_code :
    (a b : Exchange) (h : Option FailureHint) (status : ℕ)
    → a ≡ b
    → a.ctx.failure_hint ≡ h
    → failure_code b.ctx.failure_hint (http_status status) ≡ failure_code h (http_status status)
known_code a b h status same hint =
    ap (λ (x : Exchange). failure_code x.ctx.failure_hint (http_status status)) (sym same)
    ∙ ap (λ (g : Option FailureHint). failure_code g (http_status status)) hint

told :
    (end : Exchange) (status : ℕ)
    → failure_code end.ctx.failure_hint (http_status status) ≡ status
    → 0 < status
    → let (failed, answer) = fail_to_proxy (http_status status) end in
      (answer.error_code ≡ status) × (failed.downstream.responded ≡ some status)
unfolding fail_to_proxy
told end status code pos =
    let positive : ltb 0 status ≡ true = ground (arith, pos) in (code, rw (code, positive) refl)

-- If `request_filter` answers a request that starts without a pool and a key, and whose host can be
-- read, with an error of some HTTP status, then `fail_to_proxy` sends the client that status, and
-- it is 404 or 503.
pub fail_to_proxy-request_filter :
    (session : Session) (now_nanos : ℕ) (respond_error : RespondError) (host : Option Text)
    (x end : Exchange) (status : ℕ)
    → IsStart x.ctx
    → extract_host session ≡ returned host
    → request_filter session now_nanos respond_error x ≡ returned (end, err (http_status status))
    → let (failed, answer) = fail_to_proxy (http_status status) end in
      (answer.error_code ≡ status)
      × (failed.downstream.responded ≡ some status)
      × ((status ≡ 404) ⊎ (status ≡ 503))
unfolding failure_code
fail_to_proxy-request_filter session now_nanos respond_error host x end status start heard failed =
    let (end', answer, done, is) =
      request_filter-IsFiltered session now_nanos respond_error host x start heard in
    let both : Path (Run (Exchange × Outcome Bool)) (returned (end', answer))
        (returned (end, err (http_status status))) =
      sym done ∙ failed in
    let same : end' ≡ end = cc in
    let e : answer ≡ err (http_status status) = cc in
    elim (refused session now_nanos respond_error host x.router end' status answer is e) [
      | inl (hint, code) ↦
          let (a, b) =
            told end status (known_code end' end _ status same hint ∙ sym code)
              (omega (arith, code)) in
          (a, b, inl code)
      | inr (inl (hint, code)) ↦
          let (a, b) =
            told end status (known_code end' end _ status same hint ∙ sym code)
              (omega (arith, code)) in
          (a, b, inr code)
      | inr (inr (hint, code)) ↦
          let (a, b) =
            told end status (known_code end' end _ status same hint ∙ sym code)
              (omega (arith, code)) in
          (a, b, inr code)
    ]
