-- ===== src/Proxy/Lifecycle/Orderly/Commits.antt =====
-- What an upstream call commits keeps the stages: the services that it leaves to start and to end are
-- those that the pools ask for.
use neemata_proxy.Common.{
  ◌≡◌, ap, sym, subst, ◌∙◌, inl, inr, Bool, true, false, List, [], if◌then◌else◌, list_eq, nat_eq,
}
use neemata_proxy.Text.{Text}
use neemata_proxy.Map.{Distinct}
use neemata_proxy.Lb.{TransportKind}
use neemata_proxy.Router.Config.{PoolConfig}
use neemata_proxy.Proxy.Config.{pool_key_eq}
use neemata_proxy.Proxy.Upstreams.{DeferredResult, done, fail, PortUpstream}
use neemata_proxy.Proxy.Services.{Tending, upserts, removals}
use neemata_proxy.Proxy.Inner.{ProxyInner, commit, insert_pools, remove_pools, is_running}
use neemata_proxy.Proxy.Inner.Tended.{
  upsert_all, remove_all, upsert_all-IsTended, remove_all-IsTended, lookup-main-upsert_all,
  lookup-main-remove_all,
}
use neemata_proxy.Proxy.Inner.Initial.{insert_pools-Distinct, remove_pools-Distinct}
use neemata_proxy.Proxy.Lifecycle.{Change, updating, Shared}
use neemata_proxy.Proxy.Lifecycle.Steps.{World, change, changed}
use neemata_proxy.Proxy.Lifecycle.Orderly.Stages.{Serves, IsTidy, IsStage}
use neemata_proxy.Proxy.Lifecycle.Changes.{name_of, change-IsRebuild}
use neemata_proxy.Proxy.Lifecycle.Orderly.Tasks.{After}

-- What a commit leaves to do, when the proxy runs and when it does not.
commit-left :
    (runs : Bool) (name : Text) (next : List PortUpstream) (new : List (TransportKind × PoolConfig))
    (removed : List TransportKind) (inner : ProxyInner)
    → is_running inner.state ≡ runs
    → (commit name next new removed inner).1 ≡ (
        if runs
        then record {
          to_upsert = upserts name new;
          to_remove = removals name removed (insert_pools name new inner.pools);
        }
        else record { to_upsert = []; to_remove = [] })
unfolding commit
commit-left runs name next new removed inner h =
    ap
      (λ b.
        if b
        then record {
          to_upsert = upserts name new;
          to_remove = removals name removed (insert_pools name new inner.pools);
        }
        else record { to_upsert = []; to_remove = [] })
      h

commit-IsStage :
    (name : Text) (next : List PortUpstream) (new : List (TransportKind × PoolConfig))
    (removed : List TransportKind) (s : Shared)
    → Distinct s.inner.pools
    → IsTidy s
    → After (changed (done (commit name next new removed s.inner)) s)
unfolding changed commit is_running
commit-IsStage name next new removed s d v = (
  remove_pools-Distinct name removed (insert_pools name new s.inner.pools)
      (insert_pools-Distinct name new s.inner.pools d),
  elim v [
    | inl (is, bare) ↦
        let left = commit-left false name next new removed s.inner (ap is_running is) in
        inl
          (is, bare, ap (λ (l : Tending). l.to_upsert) left, ap (λ (l : Tending). l.to_remove) left)
    | inr (is, (all, service, main, at)) ↦
        let left = commit-left true name next new removed s.inner (ap is_running is) in
        let inserted = insert_pools name new s.inner.pools in
        let started = upsert_all (upserts name new) s.server.services in
        inr (
          is,
          subst
              (λ (l : Tending).
                Serves s.inner.listen_address (remove_pools name removed inserted)
                  (remove_all l.to_remove (upsert_all l.to_upsert s.server.services)))
              (sym left)
              (
                remove_all-IsTended name removed inserted started
                    (upsert_all-IsTended name new s.inner.pools s.server.services all),
                service,
                lookup-main-remove_all name removed inserted started
                    ∙ lookup-main-upsert_all name new s.server.services
                    ∙ main,
                at,
              ),
        )
  ],
)

-- A change of the upstreams, from `update_lock` on.
pub changed-IsStage :
    (w : World) (c : Change) (result : DeferredResult (ProxyInner × Tending)) (s : Shared)
    → change w c s.inner ≡ result
    → IsStage (updating c) s
    → After (changed result s)
unfolding changed
changed-IsStage w c (fail e) s h (d, v) = (d, v)
changed-IsStage w c (done end) s h (d, v) =
    let (app, next, new, removed, found, built, e) = change-IsRebuild w c s.inner end h in
    subst (λ (r : ProxyInner × Tending). After (changed (done r) s)) e
      (commit-IsStage (name_of c) next new removed s d v)
