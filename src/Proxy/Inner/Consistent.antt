-- ===== src/Proxy/Inner/Consistent.antt =====
-- After every call the pools are those of the registered upstreams, and the router has the
-- table of these pools.
use neemata_proxy.Common.{
  ℕ, ◌≡◌, ◌≢◌, refl, ap, sym, subst, ◌∙◌, inl, inr, some, List, [], ◌∷◌, arith, ◌==◌, list_eq,
  nat_eq, Bool-cases, some-inj,
}
use neemata_proxy.Text.{Text, text_iff}
use neemata_proxy.Map.{lookup, insert, lookup-insert, lookup-insert_self}
use neemata_proxy.Lb.{TransportKind, transport_eq}
use neemata_proxy.Options.{ApplicationOptionsParsed, ProxyOptionsParsed}
use neemata_proxy.Router.Config.{PoolConfig}
use neemata_proxy.Router.Filters.{update}
use neemata_proxy.Proxy.Config.{pool_key_eq, Pools, build_router_config}
use neemata_proxy.Proxy.Upstreams.{PortUpstream, done, Resolve, Builds, rebuild_app_pools}
use neemata_proxy.Proxy.Upstreams.Grouping.{of_transport}
use neemata_proxy.Proxy.Upstreams.Pools.{rebuild_app_pools-IsRebuilt, rebuild_app_pools-Distinct}
use neemata_proxy.Proxy.Services.{Tending}
use neemata_proxy.Proxy.Inner.{
  ProxyInner, upstream_eq, find_application, insert_pools, commit, add_upstream, remove_upstream,
  new_inner, no_upstreams,
}
use neemata_proxy.Proxy.Inner.Served.{
  Answers, IsServed, IsConsistent, lookup-insert_pools-other, lookup-remove_pools-other,
  lookup-remove_pools, lookup-insert_pools,
}
use neemata_proxy.Proxy.Inner.Rebuilds.{
  IsRebuild, add_upstream-IsRebuild, remove_upstream-IsRebuild,
}

-- What a call leaves: its application's pools are rebuilt, all others are kept.
commit-IsServed :
    (answers : Answers) (resolve : Resolve) (builds : Builds) (name : Text)
    (app : ApplicationOptionsParsed) (upstreams : List PortUpstream) (inner : ProxyInner)
    (pools : List (TransportKind × PoolConfig)) (removed : List TransportKind) (t : TransportKind)
    → rebuild_app_pools resolve builds app upstreams inner.options.health_check_interval_ms
      ≡ done (pools, removed)
    → IsServed
        (insert name resolve answers)
        app
        inner.options.health_check_interval_ms
        name
        upstreams
        (commit name upstreams pools removed inner).0.pools
        t
unfolding commit
commit-IsServed answers resolve builds name app upstreams inner pools removed t h =
    let after = lookup-remove_pools name t removed (insert_pools name pools inner.pools) in
    let d = rebuild_app_pools-Distinct resolve builds app upstreams _ pools removed h in
    elim (rebuild_app_pools-IsRebuilt resolve builds app upstreams _ pools removed t h) [
      | inl (alone, lost, gone) ↦ inl (alone, after ∙ rw gone refl)
      | inr (u, us, pool, group, here, good, stays) ↦ inr (
        resolve,
        u,
        us,
        pool,
        lookup-insert_self name resolve answers,
        group,
        after ∙ rw stays (lookup-insert_pools name t pools inner.pools d pool here),
        good,
      )
    ]

-- The pools of an application that a call does not name.
kept-IsServed :
    (answers next : Answers) (app : ApplicationOptionsParsed) (interval : ℕ) (other : Text)
    (upstreams : List PortUpstream) (before after : Pools) (t : TransportKind)
    → lookup (other, t) after ≡ lookup (other, t) before
    → lookup other next ≡ lookup other answers
    → IsServed answers app interval other upstreams before t
    → IsServed next app interval other upstreams after t
kept-IsServed answers next app interval other upstreams before after t same told
      (inl (alone, lost)) =
    inl (alone, same ∙ lost)
kept-IsServed answers next app interval other upstreams before after t same told
      (inr (resolve, u, us, pool, by, group, here, good)) =
    inr (resolve, u, us, pool, told ∙ by, group, same ∙ here, good)

commit-IsConsistent :
    (answers : Answers) (resolve : Resolve) (builds : Builds) (name : Text)
    (app : ApplicationOptionsParsed) (upstreams : List PortUpstream) (inner : ProxyInner)
    (pools : List (TransportKind × PoolConfig)) (removed : List TransportKind)
    → find_application name inner.options.applications ≡ some app
    → rebuild_app_pools resolve builds app upstreams inner.options.health_check_interval_ms
      ≡ done (pools, removed)
    → IsConsistent answers inner
    → IsConsistent (insert name resolve answers) (commit name upstreams pools removed inner).0
unfolding commit update
commit-IsConsistent answers resolve builds name app upstreams inner pools removed found h v =
    let interval = inner.options.health_check_interval_ms in
    let after = (commit name upstreams pools removed inner).0.pools in
    record {
      routed =
          ap
            (update (
              build_router_config inner.options
                (commit name upstreams pools removed inner).0.pools))
            v.routed;
      served = λ other other_app ups t is has. elim (Bool-cases (name == other)) [
        | inl same ↦
            let at : name ≡ other = (text_iff name other).0 same in
            let one : app ≡ other_app =
              some-inj
                (sym found ∙ ap (λ n. find_application n inner.options.applications) at ∙ is) in
            let two : upstreams ≡ ups = some-inj (
              sym (lookup-insert name other upstreams inner.upstreams_by_app ∙ rw same refl)
              ∙ has) in
            subst (λ n. IsServed (insert name resolve answers) other_app interval n ups after t) at
              (subst (λ a. IsServed (insert name resolve answers) a interval name ups after t) one
                (subst (λ u. IsServed (insert name resolve answers) app interval name u after t) two
                  (commit-IsServed answers resolve builds name app upstreams inner pools removed t
                    h)))
        | inr apart ↦
            let ne : name ≢ other = ground (arith, apart, text_iff name other) in
            kept-IsServed answers (insert name resolve answers) other_app interval other ups
              inner.pools after t
              (lookup-remove_pools-other name other t removed (insert_pools name pools inner.pools)
                  ne
                ∙ lookup-insert_pools-other name other t pools inner.pools ne)
              (lookup-insert name other resolve answers ∙ rw apart refl)
              (v.served other other_app ups t is (
                sym (lookup-insert name other upstreams inner.upstreams_by_app ∙ rw apart refl)
                ∙ has))
      ];
    }

no_upstreams-empty :
    (apps : List ApplicationOptionsParsed) (name : Text) (ups : List PortUpstream)
    → lookup name (no_upstreams apps) ≡ some ups
    → ups ≡ []
unfolding no_upstreams lookup
no_upstreams-empty [] name ups h = absurd (cc)
no_upstreams-empty (app ∷ apps) name ups h =
    let step = lookup-insert app.name name [] (no_upstreams apps) in
    elim (Bool-cases (app.name == name)) [
      | inl same ↦ some-inj (sym h ∙ step ∙ rw same refl)
      | inr apart ↦ no_upstreams-empty apps name ups (sym (step ∙ rw apart refl) ∙ h)
    ]

-- A proxy object starts without upstreams and pools, with the table of its applications.
pub new_inner-IsConsistent : (options : ProxyOptionsParsed) → IsConsistent [] (new_inner options)
unfolding new_inner lookup of_transport
new_inner-IsConsistent options = record {
  routed = refl;
  served = λ name app ups t found has.
      inl (ap (of_transport t) (no_upstreams-empty options.applications name ups has), refl);
}

module _ (answers : Answers) (resolve : Resolve) (builds : Builds) (name : Text)
    (upstream : PortUpstream) (inner end : ProxyInner) (tending : Tending)
    (v : IsConsistent answers inner) where
  IsRebuild-IsConsistent :
      IsRebuild resolve builds name upstream inner (end, tending)
      → IsConsistent (insert name resolve answers) end
  IsRebuild-IsConsistent (app, next, new, removed, found, built, is) =
      subst (λ (x : ProxyInner × Tending). IsConsistent (insert name resolve answers) x.0) is
        (commit-IsConsistent answers resolve builds name app next inner new removed found built v)

  -- A call of `add_upstream` that succeeds keeps the pools and the table consistent with the
  -- registered upstreams.
  pub add_upstream-IsConsistent :
      add_upstream resolve builds name upstream inner ≡ done (end, tending)
      → IsConsistent (insert name resolve answers) end
  add_upstream-IsConsistent h =
      IsRebuild-IsConsistent
        (add_upstream-IsRebuild resolve builds name upstream inner (end, tending) h)

  -- So does a call of `remove_upstream`.
  pub remove_upstream-IsConsistent :
      remove_upstream resolve builds name upstream inner ≡ done (end, tending)
      → IsConsistent (insert name resolve answers) end
  remove_upstream-IsConsistent h =
      IsRebuild-IsConsistent
        (remove_upstream-IsRebuild resolve builds name upstream inner (end, tending) h)

-- The states that calls lead to, each with its own answers of the resolver and of pingora; the
-- resolver's are kept by the name of the application.
pub data IsReached (options : ProxyOptionsParsed) : Answers → ProxyInner → Type 0 where
  created : IsReached options [] (new_inner options)
  added :
      (answers : Answers) (resolve : Resolve) (builds : Builds) (name : Text)
      (upstream : PortUpstream) (inner end : ProxyInner) (tending : Tending)
      → IsReached options answers inner
      → add_upstream resolve builds name upstream inner ≡ done (end, tending)
      → IsReached options (insert name resolve answers) end
  removed :
      (answers : Answers) (resolve : Resolve) (builds : Builds) (name : Text)
      (upstream : PortUpstream) (inner end : ProxyInner) (tending : Tending)
      → IsReached options answers inner
      → remove_upstream resolve builds name upstream inner ≡ done (end, tending)
      → IsReached options (insert name resolve answers) end

-- Whatever upstreams have been added and removed, each application has for each transport a pool
-- exactly if it has registered upstreams of that transport, and this pool's backends are the
-- addresses that the resolver answered, at the last call for the application, for each of these
-- upstreams and no others. The router is the one that the proxy object was made with, under the
-- table that `build_router_config` makes of these pools.
pub IsReached-IsConsistent :
    (options : ProxyOptionsParsed) (answers : Answers) (inner : ProxyInner)
    → IsReached options answers inner
    → IsConsistent answers inner
IsReached-IsConsistent options _ _ created = new_inner-IsConsistent options
IsReached-IsConsistent options _ _
      (added answers resolve builds name upstream inner end tending before h) =
    add_upstream-IsConsistent answers resolve builds name upstream inner end tending
      (IsReached-IsConsistent options answers inner before) h
IsReached-IsConsistent options _ _
      (removed answers resolve builds name upstream inner end tending before h) =
    remove_upstream-IsConsistent answers resolve builds name upstream inner end tending
      (IsReached-IsConsistent options answers inner before) h
