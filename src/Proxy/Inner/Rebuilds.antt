-- ===== src/Proxy/Inner/Rebuilds.antt =====
-- What an upstream call that succeeds has done: it has rebuilt the pools of its application and
-- committed them.
use neemata_proxy.Common.{
  ◌≡◌, inl, inr, Bool-cases, list_eq, nat_eq, Option-cases, some, ap, ◌∙◌, if-false, List, ◌∷◌, [],
  arith, if◌then◌else◌,
}
use neemata_proxy.Text.{Text}
use neemata_proxy.Map.{contains, lookup}
use neemata_proxy.Lb.{TransportKind}
use neemata_proxy.Router.Config.{PoolConfig}
use neemata_proxy.Options.{ApplicationOptionsParsed}
use neemata_proxy.Proxy.Services.{Tending}
use neemata_proxy.Proxy.Upstreams.{
  PortUpstream, done, verify_hostname_for_secure_upstream, Resolve, Builds, rebuild_app_pools,
}
use neemata_proxy.Proxy.Upstreams.Composed.{and_then-eq-done, done-inj}
use neemata_proxy.Proxy.Inner.{
  ProxyInner, upstream_eq, commit, read_application, rebuild_and_commit, add_upstream,
  remove_upstream, without, find_application,
}

module _ (resolve : Resolve) (builds : Builds) (name : Text) (upstream : PortUpstream)
    (inner : ProxyInner) (end : ProxyInner × Tending) where
  abbrev pub IsRebuild : Type 0
  IsRebuild =
      (app : ApplicationOptionsParsed) × (next : List PortUpstream) × (new : List
        (TransportKind × PoolConfig))
      × (removed : List TransportKind) × (find_application name inner.options.applications
          ≡ some app)
      × (rebuild_app_pools resolve builds app next inner.options.health_check_interval_ms
          ≡ done (new, removed))
      × (commit name next new removed inner ≡ end)

  rebuilds :
      (app : ApplicationOptionsParsed) (next : List PortUpstream)
      → find_application name inner.options.applications ≡ some app
      → rebuild_and_commit resolve builds name app next inner ≡ done end
      → IsRebuild
  unfolding rebuild_and_commit
  rebuilds app next found h =
      let ((new, removed), built, last) =
        and_then-eq-done
          (rebuild_app_pools resolve builds app next inner.options.health_check_interval_ms) _ h in
      (app, next, new, removed, found, built, done-inj last)

  read_application-found :
      (app : ApplicationOptionsParsed) (ups : List PortUpstream)
      → read_application name inner ≡ done (app, ups)
      → find_application name inner.options.applications ≡ some app
  unfolding read_application
  read_application-found app ups h =
      elim (Option-cases (find_application name inner.options.applications)) [
        | inl lost ↦ absurd (ground (arith, lost))
        | inr (a, found) ↦ elim (Option-cases (lookup name inner.upstreams_by_app)) [
          | inl lost ↦ absurd (ground (arith, found, lost))
          | inr (us, has) ↦
              let both : (a, us) ≡ (app, ups) = done-inj (ground (arith, found, has)) in
              found ∙ ap (λ (x : ApplicationOptionsParsed × List PortUpstream). some x.0) both
        ]
      ]

  pub add_upstream-IsRebuild :
      add_upstream resolve builds name upstream inner ≡ done end → IsRebuild
  unfolding add_upstream
  add_upstream-IsRebuild h =
      let ((app, ups), read, h1) = and_then-eq-done (read_application name inner) _ h in
      elim (Bool-cases (contains ups upstream)) [
        | inl there ↦ absurd (ground (arith, there))
        | inr fresh ↦
            let h2 = if-false (contains ups upstream) _ _ fresh h1 in
            let (host, named, h3) =
              and_then-eq-done
                (if upstream.secure then verify_hostname_for_secure_upstream app else done []) _
                h2 in
            rebuilds app (upstream ∷ ups) (read_application-found app ups read) h3
      ]

  pub remove_upstream-IsRebuild :
      remove_upstream resolve builds name upstream inner ≡ done end → IsRebuild
  unfolding remove_upstream
  remove_upstream-IsRebuild h =
      let ((app, ups), read, h1) = and_then-eq-done (read_application name inner) _ h in
      elim (Bool-cases (contains ups upstream)) [
        | inr lost ↦ absurd (ground (arith, lost))
        | inl there ↦
            rebuilds app (without upstream ups) (read_application-found app ups read)
              (ground (arith, there))
      ]
