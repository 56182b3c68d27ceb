-- ===== src/Proxy/Lifecycle.antt =====
-- src/proxy.rs: what `start`, `stop` and the upstream calls share, the channels on which their
-- tasks answer, and the stages of these tasks.
pub mod Calls
pub mod Steps
pub mod Changes
pub mod Runs
pub mod Orderly
use neemata_proxy.Common.{
  ℕ, ◌≡◌, Bool, true, false, Option, none, some, List, [], ◌∷◌, length, get_elem?, set,
  if◌then◌else◌,
}
use neemata_proxy.Text.{Text, lit}
use neemata_proxy.Lb.{LoadBalancer}
use neemata_proxy.Server.{Server, new_server}
use neemata_proxy.Options.{ProxyOptionsParsed}
use neemata_proxy.Proxy.Upstreams.{PortUpstream, DeferredJsError}
use neemata_proxy.Proxy.Listening.{BoundListenAddress, HttpService}
use neemata_proxy.Proxy.Services.{Service}
use neemata_proxy.Proxy.Inner.{ProxyInner, new_inner}

-- `ready none` is `Ready(Ok(()))`, and `ready (some e)` is `Ready(Err(e))`.
pub data StartStatus : Type 0 where
  pending : StartStatus
  ready : Option Text → StartStatus

pub data StopStatus : Type 0 where
  stop_pending stop_ready : StopStatus

-- A watch channel: the last value sent, and whether its sender is alive.
pub record Channel (A : Type 0) : Type 0 where
  pub value : A
  pub alive : Bool

module _ {A : Type 0} where
  -- `notifier.take()`, the value sent if there was one, and the sender dropped.
  unfoldable pub send_last : A → Option ℕ → List (Channel A) → List (Channel A)
  send_last value none channels = channels
  send_last value (some c) channels = set channels c (record { value = value; alive = false })

  unfoldable pub drop_found : ℕ → Option (Channel A) → List (Channel A) → List (Channel A)
  drop_found c none channels = channels
  drop_found c (some channel) channels = set channels c (record channel { alive = false })

  -- The sender is dropped without a word.
  unfoldable pub drop_sender : Option ℕ → List (Channel A) → List (Channel A)
  unfolding drop_found
  drop_sender none channels = channels
  drop_sender (some c) channels = drop_found c (get_elem? channels c) channels

-- How a promise settles: with one of the program's errors, or with one that has only a reason.
pub data Settlement : Type 0 where
  resolved : Settlement
  rejected_with : DeferredJsError → Settlement
  rejected : Text → Settlement

-- Proxy::wait_for_start_ready, on the channel as it is now; `none` while it has to wait.
unfoldable pub wait_for_start_ready : Channel StartStatus → Option Settlement
wait_for_start_ready channel = elim channel.value [
  | pending ↦
      if channel.alive
      then none
      else some (rejected (lit "Proxy start channel closed unexpectedly"))
  | ready none ↦ some resolved
  | ready (some msg) ↦ some (rejected msg)
]

-- Proxy::wait_for_stop_ready.
unfoldable pub wait_for_stop_ready : Channel StopStatus → Option Settlement
wait_for_stop_ready channel = elim channel.value [
  | stop_pending ↦
      if channel.alive then none else some (rejected (lit "Proxy stop channel closed unexpectedly"))
  | stop_ready ↦ some resolved
]

pub data Change : Type 0 where
  adding removing : Text → PortUpstream → Change

-- Where a task is: one constructor for each place between two of its awaits and locks. The numbers
-- are those of channels.
pub data Task : Type 0 where
  -- `start`: making the listener; starting the services; the last lock; what follows an error;
  -- waiting for its own channel, as the later calls of `start` do.
  binding : ℕ → List (Text × LoadBalancer) → Task
  spawning : ℕ → HttpService → List (Text × LoadBalancer) → Task
  settling : ℕ → BoundListenAddress → Task
  cancelling cancelled : Task
  waiting_start : ℕ → Task
  -- `stop`: waiting for the start that it found; ending the services; the last lock; and the later
  -- calls of `stop`.
  draining : Option ℕ → Task
  ending finishing : Task
  waiting_stop : ℕ → Task
  -- `add_upstream` and `remove_upstream`: before `update_lock` is taken, and while it is held.
  updating : Change → Task
  tending : List (Text × LoadBalancer) → List Text → Task
  -- The promise is settled.
  settled : Settlement → Task

-- What the tasks share. `locked` is whether `update_lock` is held across a wait.
pub record Shared : Type 0 where
  pub inner : ProxyInner
  pub server : Server Service
  pub start_channels : List (Channel StartStatus)
  pub stop_channels : List (Channel StopStatus)
  pub locked : Bool

unfoldable pub new_shared : ProxyOptionsParsed → Shared
unfolding new_inner new_server
new_shared options = record {
  inner = new_inner options;
  server = new_server;
  start_channels = [];
  stop_channels = [];
  locked = false;
}
