-- ===== src/Router/Upstream/Serving.antt =====
-- `upstream_peer` as a whole: the peer of a request, from its pool, the sticky table and the balancer.
use neemata_proxy.Common.{
  true, false, ℕ, ◌<◌, ◌≡◌, refl, ◌∙◌, ◌⊎◌, inl, inr, none, some, [], list_eq, nat_eq, arith,
  Option-cases,
}
use neemata_proxy.Options.{ProxyTimeoutOptionsParsed}
use neemata_proxy.Router.Upstream.Keys.{
  IsKeyOf, IsKeyless, affinity_map_key-IsKeyOf, affinity_map_key-IsKeyless,
}
use neemata_proxy.Text.{Text, returned}
use neemata_proxy.Router.Config.{ResolvedPool}
use neemata_proxy.Router.Sticky.Evict.{AffinityMapKey}
use neemata_proxy.Router.Sticky.Cleanup.{IsSound}
use neemata_proxy.Router.Sticky.{StickySessionState}
use neemata_proxy.Router.Filters.{
  unhealthy_upstream, missing_upstream_pool, http_status, Outcome, ok, err, Exchange,
}
use neemata_proxy.Router.Upstream.{
  Select, HttpPeer, peer_for, map_outcome, unhealthy, affinity_map_key, sticky_addr, balanced_addr,
  selected_addr, upstream_peer,
}
use neemata_proxy.Router.Upstream.Peers.{IsAnswered, sticky_addr-IsChosen}

-- A peer at an address of a pool: TLS, the host name to verify and the HTTP version are the pool's,
-- and all four timeouts are set as configured.
pub record IsPeer (timeouts : ProxyTimeoutOptionsParsed) (resolved : ResolvedPool) (addr : Text)
    (peer : HttpPeer) : Type 0 where
  pub at : peer.address ≡ addr
  pub secured : peer.tls ≡ resolved.secure
  pub named : peer.sni ≡ resolved.verify_hostname
  pub connects : peer.connection_timeout ≡ some timeouts.upstream_connect_timeout_ms
  pub connects_in_all : peer.total_connection_timeout ≡ some timeouts.upstream_connect_timeout_ms
  pub reads : peer.read_timeout ≡ some timeouts.upstream_read_timeout_ms
  pub writes : peer.write_timeout ≡ some timeouts.upstream_write_timeout_ms
  pub http2 : resolved.is_http2 ≡ true → peer.http_version ≡ (2, 2)
  pub http1 : resolved.is_http2 ≡ false → peer.http_version ≡ (1, 1)

-- The answer for a chosen address is a peer at it; an error goes on.
abbrev pub IsAnswer :
    ProxyTimeoutOptionsParsed → ResolvedPool → Outcome Text → Outcome HttpPeer → Type 0
IsAnswer timeouts resolved (ok addr) answer =
    (peer : HttpPeer) × (answer ≡ ok peer) × IsPeer timeouts resolved addr peer
IsAnswer timeouts resolved (err e) answer = answer ≡ err e

peer_for-IsAnswer :
    (timeouts : ProxyTimeoutOptionsParsed) (resolved : ResolvedPool) (addr : Outcome Text)
    → IsAnswer timeouts resolved addr (map_outcome (peer_for timeouts resolved) addr)
unfolding peer_for
peer_for-IsAnswer timeouts resolved (ok addr) = (
  peer_for timeouts resolved addr,
  refl,
  record {
    at = refl;
    secured = refl;
    named = refl;
    connects = refl;
    connects_in_all = refl;
    reads = refl;
    writes = refl;
    http2 = λ h. rw h refl;
    http1 = λ h. rw h refl;
  },
)
peer_for-IsAnswer timeouts resolved (err e) = refl

-- Sessions are not sticky, or the request has no key.
abbrev pub IsUnsticky : Exchange → Type 0
IsUnsticky x = (x.router.sticky ≡ none) ⊎ IsKeyless x.ctx

-- How the address of a peer is chosen: by the table where sessions are sticky, under the
-- application, the pool's transport and the affinity key; else by the balancer alone.
pub data IsSelected (hash : AffinityMapKey → ℕ) (select : Select) (now later : ℕ)
    (resolved : ResolvedPool) (x end : Exchange) : Outcome Text → Type 0 where
  by_table :
      (sticky : StickySessionState) (key : AffinityMapKey) (addr : Outcome Text)
      → x.router.sticky ≡ some sticky
      → IsKeyOf x.ctx resolved.transport key
      → IsAnswered hash select now later key resolved sticky end addr
      → IsSelected hash select now later resolved x end addr
  by_balancer :
      (addr : Text)
      → IsUnsticky x
      → select resolved.lb [] 8 ≡ some addr
      → end ≡ x
      → IsSelected hash select now later resolved x end (ok addr)
  by_nothing :
      IsUnsticky x
      → select resolved.lb [] 8 ≡ none
      → end.ctx.failure_hint ≡ some unhealthy_upstream
      → end.router ≡ x.router
      → IsSelected hash select now later resolved x end (err (http_status 503))

module _ (hash : AffinityMapKey → ℕ) (select : Select) (now later : ℕ) (x : Exchange)
    (sound : (sticky : StickySessionState)
      → x.router.sticky ≡ some sticky
      → IsSound sticky × (0 < sticky.config.ttl)) where
  balanced_addr-IsSelected :
      (resolved : ResolvedPool)
      → IsUnsticky x
      → (end : Exchange) × (addr : Outcome Text) × (balanced_addr hash select resolved x
          ≡ (end, addr))
        × IsSelected hash select now later resolved x end addr
  unfolding balanced_addr unhealthy
  balanced_addr-IsSelected resolved why = elim (Option-cases (select resolved.lb [] 8)) [
    | inl e ↦
        let (end, failed) = unhealthy {A = Text} x in
        (end, failed, rw (balanced_addr, e) refl, by_nothing why e refl refl)
    | inr (addr, e) ↦ (x, ok addr, rw (balanced_addr, e) refl, by_balancer addr why e refl)
  ]

  selected_addr-IsSelected :
      (resolved : ResolvedPool)
      → (end : Exchange) × (addr : Outcome Text) × (selected_addr hash select now later resolved x
          ≡ returned (end, addr))
        × IsSelected hash select now later resolved x end addr
  unfolding selected_addr
  selected_addr-IsSelected resolved = elim (Option-cases x.router.sticky) [
    | inl bare ↦
        let (end, addr, e, is) = balanced_addr-IsSelected resolved (inl bare) in
        (end, addr, rw (selected_addr, bare, e) refl, is)
    | inr (sticky, there) ↦ elim (Option-cases (affinity_map_key x.ctx resolved.transport)) [
      | inl keyless ↦
          let (end, addr, e, is) =
            balanced_addr-IsSelected resolved
              (inr (affinity_map_key-IsKeyless x.ctx resolved.transport keyless)) in
          (end, addr, rw (selected_addr, there, keyless, e) refl, is)
      | inr (key, known) ↦
          let (v, term) = sound sticky there in
          let (end, addr, e, is) =
            sticky_addr-IsChosen hash select now later key resolved sticky x term v in
          let runs : selected_addr hash select now later resolved x
              ≡ sticky_addr hash select now later key resolved sticky x =
            ground (arith, there, known) in
          (
            end,
            addr,
            runs ∙ e,
            by_table sticky key addr there
                (affinity_map_key-IsKeyOf x.ctx resolved.transport key known) is,
          )
    ]
  ]

  peer_of_addr :
      (resolved : ResolvedPool) (end : Exchange) (addr : Outcome Text)
      → x.ctx.resolved_pool ≡ some resolved
      → selected_addr hash select now later resolved x ≡ returned (end, addr)
      → upstream_peer hash select now later x
        ≡ returned (end, map_outcome (peer_for x.router.timeouts resolved) addr)
  unfolding upstream_peer
  peer_of_addr resolved end addr there e = ground (arith, there, e)

  -- If the sticky table, where there is one, is sound and has a term greater than 0, then
  -- `upstream_peer` does not panic. A request without a pool gets the error 503 and its reason. All
  -- others get a peer at the address chosen as `IsSelected` describes, with the TLS, host name and
  -- HTTP version of the pool and the configured timeouts. The address is chosen by the table, under
  -- the application, the transport and the affinity key, where sessions are sticky and the request
  -- has an application and an affinity key, else by the balancer alone. The error is 503 where the
  -- balancer has no backend.
  pub upstream_peer-IsSelected :
      (end : Exchange) × (answer : Outcome HttpPeer) × (upstream_peer hash select now later x
        ≡ returned (end, answer))
      × (((x.ctx.resolved_pool ≡ none)
            × (answer ≡ err (http_status 503))
            × (end.ctx.failure_hint ≡ some missing_upstream_pool))
          ⊎ ((resolved : ResolvedPool) × (addr : Outcome Text) × (x.ctx.resolved_pool
                ≡ some resolved)
              × IsSelected hash select now later resolved x end addr
              × IsAnswer x.router.timeouts resolved addr answer))
  unfolding upstream_peer
  upstream_peer-IsSelected = elim (Option-cases x.ctx.resolved_pool) [
    | inl lost ↦ (
      record x { ctx = record (x.ctx) { failure_hint = some missing_upstream_pool } },
      err (http_status 503),
      ground (arith, lost),
      inl (lost, refl, refl),
    )
    | inr (resolved, there) ↦
        let (end, addr, e, is) = selected_addr-IsSelected resolved in
        (
          end,
          map_outcome (peer_for x.router.timeouts resolved) addr,
          peer_of_addr resolved end addr there e,
          inr (resolved, addr, there, is, peer_for-IsAnswer x.router.timeouts resolved addr),
        )
  ]
