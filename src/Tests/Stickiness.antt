-- ===== src/Tests/Stickiness.antt =====
-- Two requests with one affinity key.
use neemata_proxy.Common.{
  ◌<◌, subst, some-inj, ◌≡◌, ◌≤◌, ◌⊎◌, refl, none, some, arith, list_eq, list_beq, nat_eq,
}
use neemata_proxy.Text.{Text, lit, returned}
use neemata_proxy.Map.{lookup, insert, remove, contains}
use neemata_proxy.Lb.{transport_beq}
use neemata_proxy.Router.Sticky.Evict.{key_beq}
use neemata_proxy.Router.Sticky.Clean.{retain_all, retain, total, clean}
use neemata_proxy.Router.Sticky.Cleanup.{IsSound, stored}
use neemata_proxy.Router.Sticky.{
  StickySessionState, guards, lookup_sticky, lookup_locked, lookup_entry, shard_index_for_key,
  should_cleanup, cleanup_global,
}
use neemata_proxy.Router.Config.{ResolvedPool}
use neemata_proxy.Router.Filters.{
  Exchange, Outcome, ok, err, http_status, missing_upstream_pool, new_ctx,
}
use neemata_proxy.Router.Upstream.{Select, HttpPeer, sticky_addr, upstream_peer}
use neemata_proxy.Router.Upstream.Serving.{IsAnswer, IsSelected, upstream_peer-IsSelected}
use neemata_proxy.Router.Upstream.Stickiness.{IsFull, sticky_addr-repeats}
use neemata_proxy.Tests.Sessions.{hash, table, table-IsSound, chat_key}
use neemata_proxy.Tests.Exchanges.{resolved, select, start_exchange}

-- A balancer that would send the second request elsewhere.
abbrev elsewhere : Select
elsewhere lb key max_iterations = some (lit "10.0.0.2:80")

first_request :
    (end : Exchange) × (after : StickySessionState) × (sticky_addr hash select 5 5 chat_key resolved
        table start_exchange
      ≡ returned (end, ok (lit "10.0.0.1:80")))
    × (end.router.sticky ≡ some after)
unfolding list_beq lit sticky_addr lookup_sticky lookup_locked lookup_entry shard_index_for_key
    should_cleanup lookup insert remove contains transport_beq key_beq cleanup_global clean total
    retain
first_request = (_, _, refl, refl)

abbrev end : Exchange
end = first_request.0

abbrev after : StickySessionState
after = first_request.1

few : total (retain_all 9 (guards after.shards)) ≤ table.config.max_entries
unfolding list_beq lit sticky_addr lookup_sticky lookup_locked lookup_entry shard_index_for_key
    should_cleanup lookup insert remove contains transport_beq key_beq cleanup_global clean retain
    total guards first_request
few = omega arith

sticky_addr-repeats_example :
    (IsFull table × (stored hash after chat_key ≡ none))
    ⊎ ((last : Exchange) × (sticky_addr hash elsewhere 9 9 chat_key resolved after start_exchange
          ≡ returned (last, ok (lit "10.0.0.1:80"))))
unfolding contains list_beq lit
sticky_addr-repeats_example =
    sticky_addr-repeats hash select elsewhere 5 5 9 9 chat_key resolved resolved table after
      start_exchange start_exchange end (lit "10.0.0.1:80") table-IsSound (omega arith)
      (omega arith) first_request.2 first_request.3 (omega arith) refl few

-- A request that has its pool and its key.
abbrev routed : Exchange
routed = record start_exchange {
  ctx = record new_ctx {
    app_name = some (lit "chat");
    affinity_key = some (lit "k7");
    resolved_pool = some resolved;
  };
}

IsSound-table :
    (sticky : StickySessionState)
    → some table ≡ some sticky
    → IsSound sticky × (0 < sticky.config.ttl)
IsSound-table sticky h =
    subst (λ (s : StickySessionState). IsSound s × (0 < s.config.ttl)) (some-inj h)
      (table-IsSound, omega arith)

upstream_peer-IsSelected_example :
    (end : Exchange) × (answer : Outcome HttpPeer) × (upstream_peer hash select 5 5 routed
      ≡ returned (end, answer))
    × (((routed.ctx.resolved_pool ≡ none)
          × (answer ≡ err (http_status 503))
          × (end.ctx.failure_hint ≡ some missing_upstream_pool))
        ⊎ ((r : ResolvedPool) × (addr : Outcome Text) × (routed.ctx.resolved_pool ≡ some r)
            × IsSelected hash select 5 5 r routed end addr
            × IsAnswer routed.router.timeouts r addr answer))
upstream_peer-IsSelected_example = upstream_peer-IsSelected hash select 5 5 routed IsSound-table
