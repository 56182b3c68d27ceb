-- ===== src/Proxy/Inner/Untouched.antt =====
-- What the upstream calls leave as it was: the options, the state, the address and the notifiers.
use neemata_proxy.Common.{◌≡◌, refl, subst}
use neemata_proxy.Text.{Text}
use neemata_proxy.Proxy.Services.{Tending}
use neemata_proxy.Proxy.Upstreams.{PortUpstream, Resolve, Builds}
use neemata_proxy.Proxy.Inner.{ProxyInner, upstream_eq, commit}
use neemata_proxy.Proxy.Inner.Rebuilds.{IsRebuild}

abbrev pub SameState : ProxyInner → ProxyInner → Type 0
SameState before after =
    (after.options ≡ before.options)
    × (after.state ≡ before.state)
    × (after.listen_address ≡ before.listen_address)
    × (after.start_notifier ≡ before.start_notifier)
    × (after.stop_notifier ≡ before.stop_notifier)

module _ (resolve : Resolve) (builds : Builds) (name : Text) (upstream : PortUpstream)
    (inner : ProxyInner) (end : ProxyInner × Tending) where
  pub IsRebuild-SameState : IsRebuild resolve builds name upstream inner end → SameState inner end.0
  unfolding commit
  IsRebuild-SameState (app, next, new, removed, found, built, is) =
      subst (λ (x : ProxyInner × Tending). SameState inner x.0) is (refl, refl, refl, refl, refl)
