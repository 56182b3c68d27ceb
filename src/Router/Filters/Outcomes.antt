-- ===== src/Router/Filters/Outcomes.antt =====
-- What `request_filter` answers, and what it leaves for the later steps.
use neemata_proxy.Common.{
  ℕ, ◌≡◌, refl, ap, ◌∙◌, inl, inr, Bool, Option, none, some, list_eq, nat_eq, Option-cases,
  Bool-cases,
}
use neemata_proxy.Text.{Text, returned}
use neemata_proxy.Map.{lookup}
use neemata_proxy.Lb.{TransportKind}
use neemata_proxy.Router.Session.{Session}
use neemata_proxy.Router.Path.{extract_first_path_segment}
use neemata_proxy.Router.Host.{extract_host}
use neemata_proxy.Router.Config.{
  PoolConfig, AppPools, ResolvedPool, ResolvedRoute, resolve_route, or_else,
}
use neemata_proxy.Router.Limits.{request_limit_rejection_status}
use neemata_proxy.Router.Filters.{
  missing_application, RouterCtx, Outcome, Exchange, RespondError, resolve_pool, assign_affinity,
  lacks_ws_pool, require_pool, follow_route, reject_request, fail_with, apply_downstream_timeouts,
  request_filter,
}
use neemata_proxy.Router.Filters.Pools.{
  IsServed, IsResolved, IsUnserved, IsFiltered, rejected, unrouted, unserved, unknown, ready,
  assign_affinity-IsAssigned, assign_affinity_unresolved, resolved_of-cases, require_pool-ready,
  require_pool-missing, require_pool-lacking, lacks_unknown, lacks_unserved, lacks_served,
  resolve_pool_of, resolve_pool_unknown,
}

-- A request that starts has no pool and no key.
abbrev pub IsStart : RouterCtx → Type 0
IsStart ctx = (ctx.resolved_pool ≡ none) × (ctx.affinity_key ≡ none)

module _ (session : Session) (now_nanos : ℕ) (route : ResolvedRoute) (x : Exchange) where
  -- The context with the route and its pool.
  abbrev entered : RouterCtx
  entered = record (x.ctx) {
    app_name = some route.app_name;
    path_rewrite_segment = route.path_rewrite_segment;
    is_upgrade = session.is_upgrade_req;
    resolved_pool =
        or_else (resolve_pool x.router.config route.app_name session.is_upgrade_req)
          x.ctx.resolved_pool;
  }

  abbrev assigned : Exchange
  assigned =
      let got = assign_affinity session now_nanos x.router.sticky entered in
      record x { router = record (x.router) { sticky = got.0 }; ctx = got.1 }

  follow_route_then :
      follow_route session now_nanos route x ≡ require_pool x.router.config route.app_name assigned
  unfolding follow_route
  follow_route_then = refl

module _ (session : Session) (now_nanos : ℕ) (respond_error : RespondError) (host : Option Text)
    (x : Exchange) (start : IsStart x.ctx) (route : ResolvedRoute)
    (free : request_limit_rejection_status session x.router.limits ≡ none)
    (found : resolve_route x.router.config host (extract_first_path_segment session.uri_path)
      ≡ some route) where
  abbrev at : Exchange
  at = assigned session now_nanos route x

  abbrev before : RouterCtx
  before = entered session now_nanos route x

  abbrev IsAnswered : Exchange × Outcome Bool → Type 0
  IsAnswered end = IsFiltered session now_nanos respond_error host x.router end.0 end.1

  unresolved :
      resolve_pool x.router.config route.app_name session.is_upgrade_req ≡ none
      → (at.ctx ≡ before) × (before.resolved_pool ≡ none)
  unresolved lost =
      let no_pool =
        ap (λ (o : Option ResolvedPool). or_else o x.ctx.resolved_pool) lost ∙ start.0 in
      (assign_affinity_unresolved session now_nanos x.router.sticky before no_pool, no_pool)

  unknown-IsFiltered :
      lookup route.app_name x.router.config.apps ≡ none
      → IsAnswered (require_pool x.router.config route.app_name at)
  unfolding fail_with
  unknown-IsFiltered missing =
      let (same, no_pool) =
        unresolved
          (resolve_pool_unknown x.router.config route.app_name session.is_upgrade_req missing) in
      rw
        (require_pool-missing x.router.config route.app_name at
          (lacks_unknown x.router.config route.app_name at.ctx.is_upgrade missing)
          (ap (λ (c : RouterCtx). c.resolved_pool) same ∙ no_pool))
        (unknown route free found missing refl)

  unserved-IsFiltered :
      (pools : AppPools)
      → lookup route.app_name x.router.config.apps ≡ some pools
      → IsUnserved pools session.is_upgrade_req
      → resolve_pool x.router.config route.app_name session.is_upgrade_req ≡ none
      → IsAnswered (require_pool x.router.config route.app_name at)
  unfolding fail_with
  unserved-IsFiltered pools has lacking lost =
      let (same, no_pool) = unresolved lost in
      let up : at.ctx.is_upgrade ≡ session.is_upgrade_req =
        ap (λ (c : RouterCtx). c.is_upgrade) same in
      let lacks =
        ap (lacks_ws_pool x.router.config route.app_name) up
        ∙ lacks_unserved x.router.config route.app_name session.is_upgrade_req pools has lacking in
      elim (Bool-cases session.is_upgrade_req) [
        | inl e ↦
            rw (require_pool-lacking x.router.config route.app_name at (lacks ∙ e))
              (unserved route free found pools has lacking (rw e refl))
        | inr e ↦
            rw
              (require_pool-missing x.router.config route.app_name at (lacks ∙ e)
                (ap (λ (c : RouterCtx). c.resolved_pool) same ∙ no_pool))
              (unserved route free found pools has lacking (rw e refl))
      ]

  ready-IsFiltered :
      (pools : AppPools)
      → lookup route.app_name x.router.config.apps ≡ some pools
      → (pool : PoolConfig) (t : TransportKind) (r : ResolvedPool)
      → resolve_pool x.router.config route.app_name session.is_upgrade_req ≡ some r
      → IsServed pools session.is_upgrade_req pool t
      → IsResolved pool t r
      → IsAnswered (require_pool x.router.config route.app_name at)
  ready-IsFiltered pools has pool t r got served good =
      let is = ap (λ (o : Option ResolvedPool). or_else o x.ctx.resolved_pool) got in
      let (affinity, same_pool, same_app, same_segment, same_up) =
        assign_affinity-IsAssigned session now_nanos x.router.sticky before r is start.1 in
      rw
        (require_pool-ready x.router.config route.app_name at r
          (ap (lacks_ws_pool x.router.config route.app_name) same_up
            ∙ lacks_served x.router.config route.app_name session.is_upgrade_req pools pool t has
                served)
          (same_pool ∙ is))
        (ready route free found pools has (record {
          pool = pool;
          t = t;
          r = r;
          served = served;
          is_resolved = good;
          resolved = same_pool ∙ is;
          selected = ap some good.transport;
          app = same_app;
          segment = same_segment;
          upgrades = same_up;
          assigned = affinity;
        }))

  follow_route-IsFiltered : IsAnswered (follow_route session now_nanos route x)
  follow_route-IsFiltered =
      rw (follow_route_then session now_nanos route x)
        (elim (Option-cases (lookup route.app_name x.router.config.apps)) [
          | inl missing ↦ unknown-IsFiltered missing
          | inr (pools, has) ↦
              let got =
                resolve_pool_of x.router.config route.app_name session.is_upgrade_req pools has in
              elim (resolved_of-cases pools session.is_upgrade_req) [
                | inr (lost, lacking) ↦ unserved-IsFiltered pools has lacking (got ∙ lost)
                | inl (pool, t, r, is, served, good) ↦
                    ready-IsFiltered pools has pool t r (got ∙ is) served good
              ]
        ])

-- A request that starts without a pool and a key, and whose host can be read, gets one of five
-- answers: it is over a limit, has no route, names an application without pools, needs a pool that
-- its application does not have, or goes on with the pool and the transport that `IsServed`
-- describes and, if sessions are sticky, with an affinity key.
pub request_filter-IsFiltered :
    (session : Session) (now_nanos : ℕ) (respond_error : RespondError) (host : Option Text)
    (x : Exchange)
    → IsStart x.ctx
    → extract_host session ≡ returned host
    → (end : Exchange) × (answer : Outcome Bool) × (request_filter session now_nanos respond_error x
        ≡ returned (end, answer))
      × IsFiltered session now_nanos respond_error host x.router end answer
unfolding request_filter fail_with reject_request
request_filter-IsFiltered session now_nanos respond_error host x start heard =
    let down = apply_downstream_timeouts x.router.timeouts x.downstream in
    let x' = record x { downstream = down } in
    let path = extract_first_path_segment session.uri_path in
    elim (Option-cases (request_limit_rejection_status session x.router.limits)) [
      | inr (status, over) ↦
          let end = reject_request respond_error status x in
          (end.0, end.1, rw (over, request_filter) refl, rejected status over refl)
      | inl free ↦ elim (Option-cases (resolve_route x.router.config host path)) [
        | inl lost ↦
            let end = fail_with missing_application 404 x' in
            (end.0, end.1, rw (free, request_filter, heard, lost) refl, unrouted free lost refl)
        | inr (route, found) ↦
            let end = follow_route session now_nanos route x' in
            (
              end.0,
              end.1,
              rw (free, request_filter, heard, found) refl,
              follow_route-IsFiltered session now_nanos respond_error host x' start route free
                  found,
            )
      ]
    ]
