-- ===== src/Proxy/Lifecycle/Orderly.antt =====
-- A proxy object whose calls are made one at a time: the next call is made when the promise of the
-- last one has settled, and no blocking task panics. Then the services that run are at every settled
-- promise those of the state: none of a stopped proxy, and of a running one the listening service and
-- the health check of each pool.
pub mod Stages
pub mod Tasks
pub mod Commits
pub mod Tidy
use neemata_proxy.Common.{◌≡◌, none, some}
use neemata_proxy.Options.{ProxyOptionsParsed}
use neemata_proxy.Proxy.Lifecycle.{
  Settlement, resolved, Change, Task, updating, settled, Shared, new_shared,
}
use neemata_proxy.Proxy.Lifecycle.Calls.{Called, promised, start, stop}
use neemata_proxy.Proxy.Lifecycle.Steps.{World, advance}

pub data Call : Type 0 where
  starting_call stopping_call : Call
  updating_call : Change → Call

unfoldable pub make : Call → Shared → Called
unfolding start stop
make starting_call s = start s
make stopping_call s = stop s
make (updating_call c) s = promised (updating c) s

-- The task of the last call, and what it shares.
pub data IsOrderly (options : ProxyOptionsParsed) : Task → Shared → Type 0 where
  created : IsOrderly options (settled resolved) (new_shared options)
  called :
      (c : Call) (o : Settlement) (s : Shared) (t : Task) (end : Shared)
      → IsOrderly options (settled o) s
      → make c s ≡ promised t end
      → IsOrderly options t end
  stepped :
      (w : World) (t : Task) (s : Shared) (next : Task) (end : Shared)
      → IsOrderly options t s
      → w.panicked ≡ none
      → advance w t s ≡ some (next, end)
      → IsOrderly options next end
