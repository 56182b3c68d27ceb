-- ===== src/Proxy/Lifecycle/Changes.antt =====
-- What a change of the upstreams leaves as it was, and how much it leaves to do.
use neemata_proxy.Common.{◌≡◌, ◌≤◌}
use neemata_proxy.Text.{Text}
use neemata_proxy.Proxy.Upstreams.{PortUpstream, done}
use neemata_proxy.Proxy.Services.{Tending}
use neemata_proxy.Proxy.Inner.{ProxyInner}
use neemata_proxy.Proxy.Inner.Rebuilds.{
  IsRebuild, add_upstream-IsRebuild, remove_upstream-IsRebuild,
}
use neemata_proxy.Proxy.Inner.Untouched.{SameState, IsRebuild-SameState}
use neemata_proxy.Proxy.Inner.Bounds.{changes, IsRebuild-changes}
use neemata_proxy.Proxy.Lifecycle.{Change, adding, removing}
use neemata_proxy.Proxy.Lifecycle.Steps.{World, change}

abbrev pub name_of : Change → Text
name_of (adding name u) = name
name_of (removing name u) = name

abbrev pub upstream_of : Change → PortUpstream
upstream_of (adding name u) = u
upstream_of (removing name u) = u

pub change-IsRebuild :
    (w : World) (c : Change) (inner : ProxyInner) (end : ProxyInner × Tending)
    → change w c inner ≡ done end
    → IsRebuild w.resolve w.builds (name_of c) (upstream_of c) inner end
unfolding change
change-IsRebuild w (adding name u) inner end h =
    add_upstream-IsRebuild w.resolve w.builds name u inner end h
change-IsRebuild w (removing name u) inner end h =
    remove_upstream-IsRebuild w.resolve w.builds name u inner end h

module _ (w : World) (c : Change) (inner : ProxyInner) (end : ProxyInner × Tending)
    (h : change w c inner ≡ done end) where
  pub change-SameState : SameState inner end.0
  change-SameState =
      IsRebuild-SameState w.resolve w.builds (name_of c) (upstream_of c) inner end
        (change-IsRebuild w c inner end h)

  pub change-changes : changes end.1 ≤ 6
  change-changes =
      IsRebuild-changes w.resolve w.builds (name_of c) (upstream_of c) inner end
        (change-IsRebuild w c inner end h)
