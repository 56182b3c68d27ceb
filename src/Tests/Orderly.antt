-- ===== src/Tests/Orderly.antt =====
-- One call after the other at concrete inputs.
use neemata_proxy.Common.{
  ℕ, zero, suc, ◌≡◌, refl, ap, sym, subst, ◌∙◌, inl, inr, arith, some-inj, Option-cases, [], Option,
  none, some, list_eq, list_beq, nat_eq,
}
use neemata_proxy.Text.{lit}
use neemata_proxy.Map.{lookup, insert}
use neemata_proxy.Server.{new_server, upsert_service, end_old}
use neemata_proxy.Proxy.Listening.{build_start_resources, build_tls_settings}
use neemata_proxy.Proxy.Services.{lb_tasks}
use neemata_proxy.Proxy.Inner.{new_inner, no_upstreams}
use neemata_proxy.Proxy.Lifecycle.{
  Task, resolved, binding, settled, Shared, new_shared, send_last, drop_sender,
  wait_for_start_ready,
}
use neemata_proxy.Proxy.Lifecycle.Calls.{promised, start, start_in, begin_start}
use neemata_proxy.Proxy.Lifecycle.Steps.{
  advance, bind_listener, bound, settle_start, awaited_start, settle_with,
}
use neemata_proxy.Proxy.Lifecycle.Orderly.{IsOrderly, created, called, stepped, starting_call, make}
use neemata_proxy.Proxy.Lifecycle.Orderly.Stages.{IsTidy}
use neemata_proxy.Proxy.Lifecycle.Orderly.Tidy.{IsOrderly-IsTidy}
use neemata_proxy.Tests.Apps.{parsed}
use neemata_proxy.Tests.Lifecycle.{world}

-- The steps of one task.
abbrev advance_times : ℕ → Option (Task × Shared) → Option (Task × Shared)
advance_times n none = none
advance_times zero (some r) = some r
advance_times (suc n) (some (t, s)) = advance_times n (advance world t s)

advance_times-none : (n : ℕ) → advance_times n none ≡ none
advance_times-none zero = refl
advance_times-none (suc n) = refl

advance_times-IsOrderly :
    (n : ℕ) (t next : Task) (s end : Shared)
    → IsOrderly parsed t s
    → advance_times n (some (t, s)) ≡ some (next, end)
    → IsOrderly parsed next end
advance_times-IsOrderly zero t next s end v h =
    subst (λ (r : Task × Shared). IsOrderly parsed r.0 r.1) (some-inj h) v
advance_times-IsOrderly (suc n) t next s end v h = elim (Option-cases (advance world t s)) [
  | inl blocked ↦ absurd (ground (arith, ap (advance_times n) blocked, advance_times-none n))
  | inr (r, goes) ↦
      advance_times-IsOrderly n r.0 next r.1 end (stepped world t s r.0 r.1 v refl goes)
        (sym (ap (advance_times n) goes) ∙ h)
]

-- A proxy that is started.
starting_shared :
    (s : Shared) × (make starting_call (new_shared parsed) ≡ promised (binding 0 []) s)
unfolding make start start_in begin_start new_shared new_inner lb_tasks
starting_shared = (_, refl)

started_shared :
    (s : Shared) × (advance_times 4 (some (binding 0 [], starting_shared.0))
      ≡ some (settled resolved, s))
unfolding list_beq lit make start start_in begin_start new_shared new_inner lb_tasks advance
    bind_listener bound settle_start send_last awaited_start settle_with wait_for_start_ready
    build_start_resources build_tls_settings upsert_service end_old lookup insert drop_sender
    new_server no_upstreams starting_shared
started_shared = (_, refl)

IsOrderly-IsTidy_example : IsTidy started_shared.0
IsOrderly-IsTidy_example = IsOrderly-IsTidy parsed resolved started_shared.0 (
    advance_times-IsOrderly 4 (binding 0 []) (settled resolved) starting_shared.0 started_shared.0
      (called starting_call resolved (new_shared parsed) (binding 0 []) starting_shared.0 created
        starting_shared.1)
      started_shared.1)
