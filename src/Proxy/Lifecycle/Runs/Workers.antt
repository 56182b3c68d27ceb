-- ===== src/Proxy/Lifecycle/Runs/Workers.antt =====
-- Which tasks will take a notifier or release `update_lock`, and that a step in which no blocking
-- task panics keeps their part.
use neemata_proxy.Common.{
  ℕ, ◌≤◌, ◌<◌, ◌≡◌, refl, sym, ◌∙◌, ◌⊎◌, inl, inr, true, Option, none, some, List, [], ◌∷◌, arith,
}
use neemata_proxy.Text.{Text}
use neemata_proxy.Lb.{LoadBalancer}
use neemata_proxy.Proxy.Upstreams.{DeferredResult, done, fail}
use neemata_proxy.Proxy.Listening.{BoundListenAddress, HttpService, build_start_resources}
use neemata_proxy.Proxy.Services.{Tending}
use neemata_proxy.Proxy.Inner.{ProxyState, stopped, starting, running, stopping, ProxyInner}
use neemata_proxy.Proxy.Lifecycle.{
  Change, Task, binding, spawning, settling, cancelling, cancelled, waiting_start, draining, ending,
  finishing, waiting_stop, updating, tending, settled, Shared,
}
use neemata_proxy.Proxy.Lifecycle.Steps.{
  World, bind_listener, bound, fail_start, settle_start, finish_stop, change, changed, advance,
}
use neemata_proxy.Proxy.Lifecycle.Runs.{
  Whenever, settle_with-Whenever, drain_with-Whenever, if_locked-Whenever,
}
use neemata_proxy.Proxy.Lifecycle.Changes.{change-SameState}

-- The tasks that will take the start notifier, those that will take the stop notifier, and the one
-- that holds the lock.
abbrev pub starters : Task → ℕ
starters (binding c lbs) = 1
starters (spawning c service lbs) = 1
starters (settling c address) = 1
starters _ = 0

abbrev pub stoppers : Task → ℕ
stoppers (draining o) = 1
stoppers ending = 1
stoppers finishing = 1
stoppers _ = 0

abbrev pub tenders : Task → ℕ
tenders (tending lbs names) = 1
tenders _ = 0

-- A notifier that is there after a step was there before, and the task keeps its part.
abbrev pub Kept : (ProxyInner → Option ℕ) → (Task → ℕ) → Task → Shared → Task × Shared → Type 0
Kept notifier part t s r =
    (c : ℕ) → notifier r.1.inner ≡ some c → (notifier s.inner ≡ some c) × (part t ≤ part r.0)

abbrev pub KeptLock : Task → Shared → Task × Shared → Type 0
KeptLock t s r =
    r.1.locked ≡ true → (0 < tenders r.0) ⊎ ((s.locked ≡ true) × (tenders t ≤ tenders r.0))

abbrev pub starts_of : ProxyInner → Option ℕ
starts_of inner = inner.start_notifier

abbrev pub stops_of : ProxyInner → Option ℕ
stops_of inner = inner.stop_notifier

pub record Hands (t : Task) (s : Shared) (r : Task × Shared) : Type 0 where
  pub starts : Kept starts_of starters t s r
  pub stops : Kept stops_of stoppers t s r
  pub locks : KeptLock t s r

same-Hands :
    (t new : Task) (s end : Shared)
    → end.inner.start_notifier ≡ s.inner.start_notifier
    → end.inner.stop_notifier ≡ s.inner.stop_notifier
    → end.locked ≡ s.locked
    → (starters t ≤ starters new) × (stoppers t ≤ stoppers new) × (tenders t ≤ tenders new)
    → Hands t s (new, end)
same-Hands t new s end a b l (x, y, z) = record {
  starts = λ c h. (sym a ∙ h, x);
  stops = λ c h. (sym b ∙ h, y);
  locks = λ h. inr (sym l ∙ h, z);
}

-- The start notifier is taken.
taken-Hands :
    (t new : Task) (s end : Shared)
    → end.inner.start_notifier ≡ none
    → end.inner.stop_notifier ≡ s.inner.stop_notifier
    → end.locked ≡ s.locked
    → (stoppers t ≤ stoppers new) × (tenders t ≤ tenders new)
    → Hands t s (new, end)
taken-Hands t new s end a b l (y, z) = record {
  starts = λ c h. let no_sender : none ≡ some c = sym a ∙ h in absurd (cc);
  stops = λ c h. (sym b ∙ h, y);
  locks = λ h. inr (sym l ∙ h, z);
}

settle_start-Hands :
    (st : ProxyState) (c : ℕ) (address : BoundListenAddress) (s : Shared)
    → Hands (settling c address) s (settle_start st c address s)
unfolding settle_start
settle_start-Hands starting c address s = taken-Hands _ _ _ _ refl refl refl (ground arith)
settle_start-Hands running c address s = taken-Hands _ _ _ _ refl refl refl (ground arith)
settle_start-Hands stopping c address s = taken-Hands _ _ _ _ refl refl refl (ground arith)
settle_start-Hands stopped c address s = taken-Hands _ _ _ _ refl refl refl (ground arith)

bound-Hands :
    (c : ℕ) (lbs : List (Text × LoadBalancer)) (result : DeferredResult HttpService) (s : Shared)
    → Hands (binding c lbs) s (bound c lbs result s)
unfolding bound fail_start
bound-Hands c lbs (done service) s = same-Hands _ _ _ _ refl refl refl (ground arith)
bound-Hands c lbs (fail e) s = taken-Hands _ _ _ _ refl refl refl (ground arith)

bind_listener-Hands :
    (w : World) (e : Option Text) (c : ℕ) (lbs : List (Text × LoadBalancer)) (s : Shared)
    → e ≡ none
    → Hands (binding c lbs) s (bind_listener w e c lbs s)
unfolding bind_listener
bind_listener-Hands w (some e) c lbs s h = absurd (cc)
bind_listener-Hands w none c lbs s h =
    bound-Hands c lbs (build_start_resources w.network s.inner.options.listen s.inner.options.tls) s

changed-Hands :
    (w : World) (c : Change) (result : DeferredResult (ProxyInner × Tending)) (s : Shared)
    → change w c s.inner ≡ result
    → Hands (updating c) s (changed result s)
unfolding changed
changed-Hands w c (fail e) s h = same-Hands _ _ _ _ refl refl refl (ground arith)
changed-Hands w c (done end) s h =
    let (_, _, _, starts, stops) = change-SameState w c s.inner end h in
    record {
      starts = λ n h. (sym starts ∙ h, omega arith);
      stops = λ n h. (sym stops ∙ h, omega arith);
      locks = λ h. inl (omega arith);
    }

pub advance-Hands :
    (w : World) (t : Task) (s : Shared) → w.panicked ≡ none → Whenever (Hands t s) (advance w t s)
unfolding advance finish_stop
advance-Hands w (binding c lbs) s calm = bind_listener-Hands w w.panicked c lbs s calm
advance-Hands w (spawning c service ((name, lb) ∷ lbs)) s calm =
    same-Hands _ _ _ _ refl refl refl (ground arith)
advance-Hands w (spawning c service []) s calm = same-Hands _ _ _ _ refl refl refl (ground arith)
advance-Hands w (settling c address) s calm = settle_start-Hands s.inner.state c address s
advance-Hands w cancelling s calm = same-Hands _ _ _ _ refl refl refl (ground arith)
advance-Hands w cancelled s calm = same-Hands _ _ _ _ refl refl refl (ground arith)
advance-Hands w (waiting_start c) s calm =
    settle_with-Whenever (Hands (waiting_start c) s) _ s
      (λ _. same-Hands _ _ _ _ refl refl refl (ground arith))
advance-Hands w (draining none) s calm = same-Hands _ _ _ _ refl refl refl (ground arith)
advance-Hands w (draining (some c)) s calm =
    drain_with-Whenever (Hands (draining (some c)) s) _ s
      (same-Hands _ _ _ _ refl refl refl (ground arith))
advance-Hands w ending s calm = same-Hands _ _ _ _ refl refl refl (ground arith)
advance-Hands w finishing s calm = record {
  starts = λ c h. absurd (cc);
  stops = λ c h. absurd (cc);
  locks = λ h. inr (h, omega arith);
}
advance-Hands w (waiting_stop c) s calm =
    settle_with-Whenever (Hands (waiting_stop c) s) _ s
      (λ _. same-Hands _ _ _ _ refl refl refl (ground arith))
advance-Hands w (updating c) s calm =
    if_locked-Whenever (Hands (updating c) s) s.locked _
      (λ _. changed-Hands w c (change w c s.inner) s refl)
advance-Hands w (tending ((name, lb) ∷ lbs) names) s calm =
    same-Hands _ _ _ _ refl refl refl (ground arith)
advance-Hands w (tending [] (name ∷ names)) s calm =
    same-Hands _ _ _ _ refl refl refl (ground arith)
advance-Hands w (tending [] []) s calm = record {
  starts = λ c h. (h, omega arith);
  stops = λ c h. (h, omega arith);
  locks = λ h. absurd (cc);
}
advance-Hands w (settled outcome) s calm = tt
