-- ===== src/Proxy/Lifecycle/Runs/Worked.antt =====
-- Who is at work in a run in which no blocking task panics: while there is a notifier, or while
-- `update_lock` is held, there is a task that will use it.
use neemata_proxy.Common.{
  ℕ, ◌≤◌, ◌<◌, ◌≡◌, refl, sym, subst, ◌∙◌, ◌⊎◌, inl, inr, true, Option, none, some, List, [], ◌∷◌,
  ◌++◌, arith, get_elem?, set,
}
use neemata_proxy.Options.{ProxyOptionsParsed}
use neemata_proxy.Proxy.Inner.{ProxyState, stopped, starting, running, stopping, new_inner}
use neemata_proxy.Proxy.Lifecycle.{Task, draining, updating, Shared, new_shared}
use neemata_proxy.Proxy.Lifecycle.Calls.{
  Called, throws, promised, start, start_in, begin_start, subscribe_start, subscribe_stop, stop,
  stop_in, mark_stopping,
}
use neemata_proxy.Proxy.Lifecycle.Steps.{advance}
use neemata_proxy.Proxy.Lifecycle.Runs.{
  System, new_system, call, call_update, IsReached, created, started, stopped_by, updated, ran,
  WheneverCalled, run_task-eq-some, whenever-some,
}
use neemata_proxy.Proxy.Lifecycle.Runs.Sums.{sum_of, sum_of-snoc, sum_of-set, le-sum_of}
use neemata_proxy.Proxy.Lifecycle.Runs.Workers.{starters, stoppers, tenders, Hands, advance-Hands}

-- A notifier that is there after a call was there before, or the new task will take it.
record Joins (s : Shared) (t : Task) (end : Shared) : Type 0 where
  starts :
      (c : ℕ)
      → end.inner.start_notifier ≡ some c
      → (0 < starters t) ⊎ (s.inner.start_notifier ≡ some c)
  stops :
      (c : ℕ)
      → end.inner.stop_notifier ≡ some c
      → (0 < stoppers t) ⊎ (s.inner.stop_notifier ≡ some c)
  locks : end.locked ≡ s.locked

same-Joins : (s : Shared) (t : Task) → Joins s t s
same-Joins s t = record { starts = λ c. inr; stops = λ c. inr; locks = refl }

subscribe_start-Joins : (o : Option ℕ) (s : Shared) → WheneverCalled (Joins s) (subscribe_start o s)
unfolding subscribe_start
subscribe_start-Joins none s = tt
subscribe_start-Joins (some c) s = same-Joins s _

subscribe_stop-Joins : (o : Option ℕ) (s : Shared) → WheneverCalled (Joins s) (subscribe_stop o s)
unfolding subscribe_stop
subscribe_stop-Joins none s = tt
subscribe_stop-Joins (some c) s = same-Joins s _

start_in-Joins : (st : ProxyState) (s : Shared) → WheneverCalled (Joins s) (start_in st s)
unfolding start_in begin_start
start_in-Joins stopped s = record {
  starts = λ c h. inl (omega arith);
  stops = λ c. inr;
  locks = refl;
}
start_in-Joins running s = tt
start_in-Joins stopping s = tt
start_in-Joins starting s = subscribe_start-Joins s.inner.start_notifier s

mark_stopping-Joins :
    (o : Option ℕ) (s : Shared) → Joins s (draining s.inner.start_notifier) (mark_stopping o s)
unfolding mark_stopping
mark_stopping-Joins none s = record {
  starts = λ c. inr;
  stops = λ c h. inl (omega arith);
  locks = refl;
}
mark_stopping-Joins (some c) s = record { starts = λ c. inr; stops = λ c. inr; locks = refl }

stop_in-Joins : (st : ProxyState) (s : Shared) → WheneverCalled (Joins s) (stop_in st s)
unfolding stop_in
stop_in-Joins stopped s = record { starts = λ c. inr; stops = λ c. inr; locks = refl }
stop_in-Joins starting s = mark_stopping-Joins s.inner.stop_notifier s
stop_in-Joins running s = mark_stopping-Joins s.inner.stop_notifier s
stop_in-Joins stopping s = subscribe_stop-Joins s.inner.stop_notifier s

pub record IsWorked (s : System) : Type 0 where
  pub starts : (c : ℕ) → s.shared.inner.start_notifier ≡ some c → 0 < sum_of starters s.tasks
  pub stops : (c : ℕ) → s.shared.inner.stop_notifier ≡ some c → 0 < sum_of stoppers s.tasks
  pub locks : s.shared.locked ≡ true → 0 < sum_of tenders s.tasks

-- One more task does not take away the workers there are.
snoc-positive :
    {A : Type 0} (part : Task → ℕ) (ts : List Task) (t : Task)
    → (A → 0 < sum_of part ts)
    → (0 < part t) ⊎ A
    → 0 < sum_of part (ts ++ (t ∷ []))
snoc-positive part ts t v (inl pos) = omega (arith, sum_of-snoc part ts t)
snoc-positive part ts t v (inr a) = let h = v a in omega (arith, sum_of-snoc part ts t)

call-IsWorked :
    (called : Called) (s : System)
    → IsWorked s
    → WheneverCalled (Joins s.shared) called
    → IsWorked (call called s)
unfolding call
call-IsWorked (throws code msg) s v j = v
call-IsWorked (promised t end) s v j = record {
  starts = λ c h. snoc-positive starters s.tasks t (v.starts c) (j.starts c h);
  stops = λ c h. snoc-positive stoppers s.tasks t (v.stops c) (j.stops c h);
  locks = λ h. snoc-positive tenders s.tasks t v.locks (inr (sym j.locks ∙ h));
}

-- A step of a task that keeps its part, or gets one.
set-positive :
    (part : Task → ℕ) (ts : List Task) (i : ℕ) (t new : Task)
    → get_elem? ts i ≡ some t
    → 0 < sum_of part ts
    → part t ≤ part new
    → 0 < sum_of part (set ts i new)
set-positive part ts i t new at h le = omega (arith, sum_of-set part ts i t new at)

-- If no blocking task panics, then in every run there is a task that will take the start notifier
-- if there is one, a task that will take the stop notifier if there is one, and a task that will
-- release `update_lock` if it is held.
pub IsReached-IsWorked :
    (options : ProxyOptionsParsed) (s : System)
    → IsReached (λ w. w.panicked ≡ none) options s
    → IsWorked s
unfolding new_system new_shared new_inner start stop call_update
IsReached-IsWorked options _ created = record {
  starts = λ c h. absurd (cc);
  stops = λ c h. absurd (cc);
  locks = λ h. absurd (cc);
}
IsReached-IsWorked options _ (started s before) =
    call-IsWorked (start s.shared) s (IsReached-IsWorked options s before)
      (start_in-Joins s.shared.inner.state s.shared)
IsReached-IsWorked options _ (stopped_by s before) =
    call-IsWorked (stop s.shared) s (IsReached-IsWorked options s before)
      (stop_in-Joins s.shared.inner.state s.shared)
IsReached-IsWorked options _ (updated c s before) =
    let v = IsReached-IsWorked options s before in
    record {
      starts = λ n h. snoc-positive starters s.tasks (updating c) (v.starts n) (inr h);
      stops = λ n h. snoc-positive stoppers s.tasks (updating c) (v.stops n) (inr h);
      locks = λ h. snoc-positive tenders s.tasks (updating c) v.locks (inr h);
    }
IsReached-IsWorked options _ (ran w i s end before calm h) =
    let (t, r, has, goes, is) = run_task-eq-some w i s end h in
    let v = IsReached-IsWorked options s before in
    let k =
      whenever-some (Hands t s.shared) (advance w t s.shared) r (advance-Hands w t s.shared calm)
        goes in
    subst IsWorked (sym is) (record {
      starts = λ c h.
          let (was, le) = k.starts c h in
          set-positive starters s.tasks i t r.0 has (v.starts c was) le;
      stops = λ c h.
          let (was, le) = k.stops c h in
          set-positive stoppers s.tasks i t r.0 has (v.stops c was) le;
      locks = λ h. elim (k.locks h) [
        | inl pos ↦
            omega (arith, sum_of-set tenders s.tasks i t r.0 has, le-sum_of tenders s.tasks i t has)
        | inr (was, le) ↦ set-positive tenders s.tasks i t r.0 has (v.locks was) le
      ];
    })
