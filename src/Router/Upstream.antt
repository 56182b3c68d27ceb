-- ===== src/Router/Upstream.antt =====
-- src/router.rs: the steps after `request_filter`: the choice of the peer, the request as it goes
-- upstream, the response, and the failures on the way.
pub mod Keys
pub mod Peers
pub mod Stickiness
pub mod Serving
pub mod Failures
pub mod Retries
pub mod Forwarding
use neemata_proxy.Common.{
  ℕ, ◌%◌, Bool, true, false, Option, none, some, List, [], ◌∷◌, ◌++◌, if◌then◌else◌, ltb, not, ◌==◌,
  list_eq, nat_eq,
}
use neemata_proxy.Text.{Text, Run, panicked, returned, lit}
use neemata_proxy.Lb.{TransportKind, LoadBalancer}
use neemata_proxy.Options.{ProxyTimeoutOptionsParsed}
use neemata_proxy.Router.Config.{ResolvedPool}
use neemata_proxy.Router.Path.{strip_first_path_segment}
use neemata_proxy.Router.Affinity.{cookie_header_value}
use neemata_proxy.Router.Sticky.Evict.{AffinityMapKey}
use neemata_proxy.Router.Sticky.{StickySessionState, lookup_sticky, bind, remove_sticky}
use neemata_proxy.Router.Filters.{
  Router, FailureHint, missing_application, missing_ws_pool, missing_upstream_pool,
  unhealthy_upstream, RouterCtx, ErrorType, http_status, internal_error, other_error, Outcome, ok,
  err, Exchange, RespondError,
}

-- pingora's HttpPeer, as far as the source sets it; timeouts in milliseconds.
pub record HttpPeer : Type 0 where
  pub address : Text
  pub tls : Bool
  pub sni : Text
  pub connection_timeout : Option ℕ
  pub total_connection_timeout : Option ℕ
  pub read_timeout : Option ℕ
  pub write_timeout : Option ℕ
  pub http_version : ℕ × ℕ

unfoldable pub apply_upstream_timeouts : ProxyTimeoutOptionsParsed → HttpPeer → HttpPeer
apply_upstream_timeouts timeouts peer = record peer {
  connection_timeout = some timeouts.upstream_connect_timeout_ms;
  total_connection_timeout = some timeouts.upstream_connect_timeout_ms;
  read_timeout = some timeouts.upstream_read_timeout_ms;
  write_timeout = some timeouts.upstream_write_timeout_ms;
}

-- `HttpPeer::new` and what `upstream_peer` sets after it.
unfoldable pub peer_for : ProxyTimeoutOptionsParsed → ResolvedPool → Text → HttpPeer
unfolding apply_upstream_timeouts
peer_for timeouts resolved address =
    let fresh : HttpPeer = record {
      address = address;
      tls = resolved.secure;
      sni = resolved.verify_hostname;
      connection_timeout = none;
      total_connection_timeout = none;
      read_timeout = none;
      write_timeout = none;
      http_version = (1, 1);
    } in
    record (apply_upstream_timeouts timeouts fresh) {
      http_version = if resolved.is_http2 then (2, 2) else (1, 1);
    }

unfoldable pub unhealthy : {A : Type 0} → Exchange → Exchange × Outcome A
unhealthy x = (
  record x { ctx = record (x.ctx) { failure_hint = some unhealthy_upstream } },
  err (http_status 503),
)

abbrev pub with_sticky : StickySessionState → Exchange → Exchange
with_sticky sticky x = record x { router = record (x.router) { sticky = some sticky } }

abbrev pub map_outcome : {A B : Type 0} → (A → B) → Outcome A → Outcome B
map_outcome f (ok a) = ok (f a)
map_outcome f (err e) = err e

-- The address of the backend that `lb.select(key, max_iterations)` answers with: pingora's code.
abbrev pub Select : Type 0
Select = LoadBalancer → Text → ℕ → Option Text

-- Where an affinity key is known: its key in the table.
unfoldable pub affinity_map_key : RouterCtx → TransportKind → Option AffinityMapKey
affinity_map_key ctx transport = elim ctx.app_name [
  | none ↦ none
  | some app_name ↦ elim ctx.affinity_key [
    | none ↦ none
    | some affinity_key ↦
        some (record { app_name = app_name; transport = transport; affinity_key = affinity_key })
  ]
]

module _ (hash : AffinityMapKey → ℕ) (select : Select) where
  -- A backend that the balancer selects for a key, bound at `later`.
  unfoldable pub select_and_bind :
      ℕ
      → AffinityMapKey
      → ResolvedPool
      → StickySessionState
      → Exchange
      → Run (Exchange × Outcome Text)
  unfolding unhealthy
  select_and_bind later key resolved sticky x = elim (select resolved.lb key.affinity_key 8) [
    | none ↦ returned (unhealthy (with_sticky sticky x))
    | some selected ↦ elim (bind hash later key selected sticky) [
      | panicked ↦ panicked
      | returned sticky' ↦ returned (with_sticky sticky' x, ok selected)
    ]
  ]

  -- The address with sticky sessions: the stored one, or a new one.
  unfoldable pub sticky_addr :
      ℕ
      → ℕ
      → AffinityMapKey
      → ResolvedPool
      → StickySessionState
      → Exchange
      → Run (Exchange × Outcome Text)
  unfolding select_and_bind
  sticky_addr now later key resolved sticky x =
      elim (lookup_sticky hash now key resolved.backends sticky) [
        | panicked ↦ panicked
        | returned (sticky', some mapped) ↦ returned (with_sticky sticky' x, ok mapped)
        | returned (sticky', none) ↦ select_and_bind later key resolved sticky' x
      ]

  unfoldable pub balanced_addr : ResolvedPool → Exchange → Exchange × Outcome Text
  unfolding unhealthy
  balanced_addr resolved x = elim (select resolved.lb [] 8) [
    | none ↦ unhealthy x
    | some addr ↦ (x, ok addr)
  ]

  unfoldable pub selected_addr : ℕ → ℕ → ResolvedPool → Exchange → Run (Exchange × Outcome Text)
  unfolding sticky_addr balanced_addr affinity_map_key
  selected_addr now later resolved x = elim x.router.sticky [
    | none ↦ returned (balanced_addr resolved x)
    | some sticky ↦ elim (affinity_map_key x.ctx resolved.transport) [
      | none ↦ returned (balanced_addr resolved x)
      | some key ↦ sticky_addr now later key resolved sticky x
    ]
  ]

  -- ProxyHttp::upstream_peer; the clock reads `now` at the lookup and `later` at the binding.
  unfoldable pub upstream_peer : ℕ → ℕ → Exchange → Run (Exchange × Outcome HttpPeer)
  unfolding selected_addr peer_for
  upstream_peer now later x = elim x.ctx.resolved_pool [
    | none ↦ returned (
      record x { ctx = record (x.ctx) { failure_hint = some missing_upstream_pool } },
      err (http_status 503),
    )
    | some resolved ↦ elim (selected_addr now later resolved x) [
      | panicked ↦ panicked
      | returned (x', addr) ↦ returned (x', map_outcome (peer_for x.router.timeouts resolved) addr)
    ]
  ]

-- pingora::Error: its type, and whether the request may be tried again.
pub record ProxyError : Type 0 where
  pub etype : ErrorType
  pub retry : Bool

-- What the four options of `fail_to_connect` give together.
unfoldable pub sticky_key : Exchange → Option (StickySessionState × AffinityMapKey)
unfolding affinity_map_key
sticky_key x = elim x.router.sticky [
  | none ↦ none
  | some sticky ↦ elim x.ctx.selected_transport [
    | none ↦ none
    | some transport ↦ elim (affinity_map_key x.ctx transport) [
      | none ↦ none
      | some key ↦ some (sticky, key)
    ]
  ]
]

unfoldable pub mark_retry : Exchange → ProxyError → Exchange × ProxyError
mark_retry x e = if x.ctx.sticky_retry_attempted then (x, e) else (
  record x { ctx = record (x.ctx) { sticky_retry_attempted = true } },
  record e { retry = true },
)

unfoldable pub unbind :
    (AffinityMapKey → ℕ)
    → Option (StickySessionState × AffinityMapKey)
    → Exchange
    → ProxyError
    → Run (Exchange × ProxyError)
unfolding mark_retry
unbind hash none x e = returned (x, e)
unbind hash (some (sticky, key)) x e = elim (remove_sticky hash key sticky) [
  | panicked ↦ panicked
  | returned sticky' ↦ returned (mark_retry (with_sticky sticky' x) e)
]

-- ProxyHttp::fail_to_connect
unfoldable pub fail_to_connect :
    (AffinityMapKey → ℕ) → Exchange → ProxyError → Run (Exchange × ProxyError)
unfolding sticky_key unbind
fail_to_connect hash x e = unbind hash (sticky_key x) x e

-- The match of `fail_to_proxy`.
unfoldable pub failure_code : Option FailureHint → ErrorType → ℕ
failure_code (some missing_application) etype = 404
failure_code (some missing_ws_pool) etype = 503
failure_code (some missing_upstream_pool) etype = 503
failure_code (some unhealthy_upstream) etype = 503
failure_code none (http_status status) = status
failure_code none internal_error = 500
failure_code none other_error = 500

-- pingora::proxy::FailToProxy
pub record FailToProxy : Type 0 where
  pub error_code : ℕ
  pub can_reuse_downstream : Bool

-- ProxyHttp::fail_to_proxy; a response that cannot be sent is only logged.
unfoldable pub fail_to_proxy : ErrorType → Exchange → Exchange × FailToProxy
unfolding failure_code
fail_to_proxy etype x =
    let code = failure_code x.ctx.failure_hint etype in
    let down = x.downstream in
    (
      if ltb 0 code then record x { downstream = record down { responded = some code } } else x,
      record { error_code = code; can_reuse_downstream = false },
    )

-- ProxyHttp::response_filter on the Set-Cookie headers of a response; `append` says whether the
-- `http` crate takes the value.
unfoldable pub response_filter : (Text → Bool) → Exchange → List Text → List Text × Outcome Unit
response_filter append x set_cookies = elim x.router.sticky [
  | none ↦ (set_cookies, ok tt)
  | some sticky ↦ elim x.ctx.affinity_key [
    | none ↦ (set_cookies, ok tt)
    | some affinity_key ↦
        let value = cookie_header_value sticky.config affinity_key in
        if not x.ctx.should_set_cookie
        then (set_cookies, ok tt)
        else if append value
        then (set_cookies ++ value ∷ [], ok tt)
        else (set_cookies, err internal_error)
  ]
]

-- ProxyHttp::upstream_request_filter on the path and query of a request; `builds` says whether the
-- `http` crate makes a URI of them.
unfoldable pub upstream_request_filter :
    (Text → Bool) → RouterCtx → Option Text → Run (Option Text × Outcome Unit)
upstream_request_filter builds ctx path_and_query = elim ctx.path_rewrite_segment [
  | none ↦ returned (path_and_query, ok tt)
  | some seg ↦ elim path_and_query [
    | none ↦ returned (none, ok tt)
    | some pq ↦ elim (strip_first_path_segment pq seg) [
      | panicked ↦ panicked
      | returned none ↦ returned (some pq, ok tt)
      | returned (some new_pq) ↦
          returned (if builds new_pq then (some new_pq, ok tt) else (some pq, err internal_error))
    ]
  ]
]
