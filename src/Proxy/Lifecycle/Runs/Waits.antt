-- ===== src/Proxy/Lifecycle/Runs/Waits.antt =====
-- Which tasks wait, and for what: a receiver waits while the sender of its channel lives, and a task
-- that starts the proxy or tends its services never waits.
use neemata_proxy.Common.{
  ℕ, ◌<◌, ◌≡◌, refl, ap, sym, ◌∙◌, inl, inr, true, Option, none, some, List, [], ◌∷◌, arith,
  get_elem?, Option-cases,
}
use neemata_proxy.Text.{Text}
use neemata_proxy.Lb.{LoadBalancer}
use neemata_proxy.Proxy.Lifecycle.{
  StartStatus, StopStatus, pending, ready, stop_pending, stop_ready, Channel, wait_for_start_ready,
  wait_for_stop_ready, Task, binding, spawning, settling, cancelling, cancelled, waiting_start,
  draining, ending, finishing, waiting_stop, updating, tending, settled, Shared,
}
use neemata_proxy.Proxy.Lifecycle.Steps.{World, awaited_start, awaited_stop, advance}
use neemata_proxy.Proxy.Lifecycle.Runs.Channels.{OnlyOpen}
use neemata_proxy.Proxy.Lifecycle.Runs.Workers.{starters, tenders}

-- A wait that does not end is one on an open channel.
wait_for_start_ready-none :
    (value : StartStatus) (channel : Channel StartStatus)
    → channel.value ≡ value
    → wait_for_start_ready channel ≡ none
    → channel.alive ≡ true
unfolding wait_for_start_ready
wait_for_start_ready-none pending channel is h = ground (arith, is)
wait_for_start_ready-none (ready none) channel is h = absurd (ground (arith, is))
wait_for_start_ready-none (ready (some msg)) channel is h = absurd (ground (arith, is))

wait_for_stop_ready-none :
    (value : StopStatus) (channel : Channel StopStatus)
    → channel.value ≡ value
    → wait_for_stop_ready channel ≡ none
    → channel.alive ≡ true
unfolding wait_for_stop_ready
wait_for_stop_ready-none stop_pending channel is h = ground (arith, is)
wait_for_stop_ready-none stop_ready channel is h = absurd (ground (arith, is))

pub awaited_start-none :
    (notifier : Option ℕ) (channels : List (Channel StartStatus)) (c : ℕ)
    → OnlyOpen notifier channels
    → awaited_start (get_elem? channels c) ≡ none
    → notifier ≡ some c
unfolding awaited_start
awaited_start-none notifier channels c v h = elim (Option-cases (get_elem? channels c)) [
  | inl lost ↦ absurd (ground (arith, lost))
  | inr (channel, there) ↦
      v c channel there
        (wait_for_start_ready-none channel.value channel refl (sym (ap awaited_start there) ∙ h))
]

pub awaited_stop-none :
    (notifier : Option ℕ) (channels : List (Channel StopStatus)) (c : ℕ)
    → OnlyOpen notifier channels
    → awaited_stop (get_elem? channels c) ≡ none
    → notifier ≡ some c
unfolding awaited_stop
awaited_stop-none notifier channels c v h = elim (Option-cases (get_elem? channels c)) [
  | inl lost ↦ absurd (ground (arith, lost))
  | inr (channel, there) ↦
      v c channel there
        (wait_for_stop_ready-none channel.value channel refl (sym (ap awaited_stop there) ∙ h))
]

-- The tasks that never wait.
abbrev pub Steps : World → Task → Shared → Type 0
Steps w t s = (r : Task × Shared) × (advance w t s ≡ some r)

pub starters-Steps : (w : World) (t : Task) (s : Shared) → 0 < starters t → Steps w t s
unfolding advance
starters-Steps w (binding c lbs) s h = (_, refl)
starters-Steps w (spawning c service ((name, lb) ∷ lbs)) s h = (_, refl)
starters-Steps w (spawning c service []) s h = (_, refl)
starters-Steps w (settling c address) s h = (_, refl)
starters-Steps w cancelling s h = (_, refl)
starters-Steps w cancelled s h = (_, refl)
starters-Steps w (waiting_start c) s h = absurd (omega arith)
starters-Steps w (draining o) s h = absurd (omega arith)
starters-Steps w ending s h = (_, refl)
starters-Steps w finishing s h = (_, refl)
starters-Steps w (waiting_stop c) s h = absurd (omega arith)
starters-Steps w (updating c) s h = absurd (omega arith)
starters-Steps w (tending lbs names) s h = absurd (omega arith)
starters-Steps w (settled outcome) s h = absurd (omega arith)

pub tending-Steps :
    (w : World) (lbs : List (Text × LoadBalancer)) (names : List Text) (s : Shared)
    → Steps w (tending lbs names) s
unfolding advance
tending-Steps w ((name, lb) ∷ lbs) names s = (_, refl)
tending-Steps w [] (name ∷ names) s = (_, refl)
tending-Steps w [] [] s = (_, refl)

pub tenders-Steps : (w : World) (t : Task) (s : Shared) → 0 < tenders t → Steps w t s
tenders-Steps w (tending lbs names) s h = tending-Steps w lbs names s
tenders-Steps w (binding c lbs) s h = absurd (omega arith)
tenders-Steps w (spawning c service lbs) s h = absurd (omega arith)
tenders-Steps w (settling c address) s h = absurd (omega arith)
tenders-Steps w cancelling s h = absurd (omega arith)
tenders-Steps w cancelled s h = absurd (omega arith)
tenders-Steps w (waiting_start c) s h = absurd (omega arith)
tenders-Steps w (draining o) s h = absurd (omega arith)
tenders-Steps w ending s h = absurd (omega arith)
tenders-Steps w finishing s h = absurd (omega arith)
tenders-Steps w (waiting_stop c) s h = absurd (omega arith)
tenders-Steps w (updating c) s h = absurd (omega arith)
tenders-Steps w (settled outcome) s h = absurd (omega arith)
