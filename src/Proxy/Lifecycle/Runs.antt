-- ===== src/Proxy/Lifecycle/Runs.antt =====
-- src/proxy.rs: the runs of a proxy object. JavaScript calls, and tokio runs the tasks of the calls,
-- one step at a time and in any order.
pub mod States
pub mod Safety
pub mod Channels
pub mod Answered
pub mod Sums
pub mod Workers
pub mod Worked
pub mod Weights
pub mod Waits
pub mod Progress
pub mod Liveness
use neemata_proxy.Common.{
  ℕ, ◌+◌, ◌≡◌, ◌∙◌, subst, refl, ap, Option, none, some, List, [], ◌∷◌, ◌++◌, get_elem?, set, arith,
  inl, inr, sym, Option-cases, Bool, true, false, if◌then◌else◌, some-inj,
}
use neemata_proxy.Text.{Text}
use neemata_proxy.Errors.{Code}
use neemata_proxy.Options.{ProxyOptionsParsed}
use neemata_proxy.Proxy.Lifecycle.{
  Change, Task, updating, settled, ending, Settlement, Shared, new_shared,
}
use neemata_proxy.Proxy.Lifecycle.Calls.{Called, throws, promised, start, stop}
use neemata_proxy.Proxy.Lifecycle.Steps.{World, advance, settle_with, drain_with}

-- The tasks in the order of their calls.
pub record System : Type 0 where
  pub tasks : List Task
  pub shared : Shared

unfoldable pub new_system : ProxyOptionsParsed → System
unfolding new_shared
new_system options = record { tasks = []; shared = new_shared options }

unfoldable pub put : ℕ → List Task → Option (Task × Shared) → Option System
put i tasks none = none
put i tasks (some (t, s)) = some (record { tasks = set tasks i t; shared = s })

-- One step of the task with this number.
unfoldable pub run_task : World → ℕ → System → Option System
unfolding advance put
run_task w i s = elim (get_elem? s.tasks i) [
  | none ↦ none
  | some t ↦ put i s.tasks (advance w t s.shared)
]

-- The steps of these tasks, one after the other, each with what it is answered.
unfoldable pub run_schedule : List (World × ℕ) → System → Option System
unfolding run_task
run_schedule [] s = some s
run_schedule ((w, i) ∷ schedule) s = elim (run_task w i s) [
  | none ↦ none
  | some next ↦ run_schedule schedule next
]

-- A call that throws leaves no task.
unfoldable pub call : Called → System → System
call (throws code msg) s = s
call (promised t shared) s = record { tasks = s.tasks ++ (t ∷ []); shared = shared }

-- `add_upstream` and `remove_upstream`, after the upstream is parsed.
unfoldable pub call_update : Change → System → System
call_update change s = record s { tasks = s.tasks ++ (updating change ∷ []) }

-- The systems that calls and steps lead to, when what the program is answered is `Allowed`.
pub data IsReached (Allowed : World → Type 0) (options : ProxyOptionsParsed) : System → Type 0 where
  created : IsReached Allowed options (new_system options)
  started :
      (s : System)
      → IsReached Allowed options s
      → IsReached Allowed options (call (start s.shared) s)
  stopped_by :
      (s : System)
      → IsReached Allowed options s
      → IsReached Allowed options (call (stop s.shared) s)
  updated :
      (change : Change) (s : System)
      → IsReached Allowed options s
      → IsReached Allowed options (call_update change s)
  ran :
      (w : World) (i : ℕ) (s end : System)
      → IsReached Allowed options s
      → Allowed w
      → run_task w i s ≡ some end
      → IsReached Allowed options end

-- What holds of every result of a step.
abbrev pub Whenever : (Task × Shared → Type 0) → Option (Task × Shared) → Type 0
Whenever P none = Unit
Whenever P (some r) = P r

-- A predicate of the result of each call.
abbrev pub WheneverCalled : (Task → Shared → Type 0) → Called → Type 0
WheneverCalled P (throws code msg) = Unit
WheneverCalled P (promised t s) = P t s

-- The step behind `run_task`.
pub run_task-eq-some :
    (w : World) (i : ℕ) (s end : System)
    → run_task w i s ≡ some end
    → (t : Task) × (r : Task × Shared) × (get_elem? s.tasks i ≡ some t)
      × (advance w t s.shared ≡ some r)
      × (end ≡ record { tasks = set s.tasks i r.0; shared = r.1 })
unfolding run_task put
run_task-eq-some w i s end h = elim (Option-cases (get_elem? s.tasks i)) [
  | inl lost ↦ absurd (ground (arith, lost))
  | inr (t, has) ↦
      let h1 : put i s.tasks (advance w t s.shared) ≡ some end = ground (arith, has) in
      elim (Option-cases (advance w t s.shared)) [
        | inl blocked ↦ absurd (ground (arith, blocked))
        | inr (r, goes) ↦ (t, r, has, goes, sym (some-inj (sym (ap (put i s.tasks) goes) ∙ h1)))
      ]
]

pub whenever-some :
    (P : Task × Shared → Type 0) (o : Option (Task × Shared)) (r : Task × Shared)
    → Whenever P o
    → o ≡ some r
    → P r
whenever-some P o r v h = subst (Whenever P) h v

module _ (P : Task × Shared → Type 0) where
  pub settle_with-Whenever :
      (o : Option Settlement) (s : Shared)
      → ((outcome : Settlement) → P (settled outcome, s))
      → Whenever P (settle_with o s)
  unfolding settle_with
  settle_with-Whenever none s v = tt
  settle_with-Whenever (some o) s v = v o

  pub drain_with-Whenever :
      (o : Option Settlement) (s : Shared) → P (ending, s) → Whenever P (drain_with o s)
  unfolding drain_with
  drain_with-Whenever none s v = tt
  drain_with-Whenever (some o) s v = v

  pub if_locked-Whenever :
      (locked : Bool) (r : Task × Shared)
      → (locked ≡ false → P r)
      → Whenever P (if locked then none else some r)
  if_locked-Whenever true r v = tt
  if_locked-Whenever false r v = v refl

-- An invariant of what the tasks share: it holds at first, and the calls and the steps keep it.
module _ (P : Shared → Type 0) where
  call-keeps :
      (called : Called) (s : System)
      → P s.shared
      → WheneverCalled (λ t shared. P shared) called
      → P (call called s).shared
  unfolding call
  call-keeps (throws code msg) s v after = v
  call-keeps (promised t shared) s v after = after

  module _ (Allowed : World → Type 0) (options : ProxyOptionsParsed)
      (first : P (new_shared options))
      (starts : (s : Shared) → P s → WheneverCalled (λ t shared. P shared) (start s))
      (stops : (s : Shared) → P s → WheneverCalled (λ t shared. P shared) (stop s))
      (steps : (w : World) (t : Task) (s : Shared)
        → P s
        → Whenever (λ r. P r.1) (advance w t s)) where
    pub IsReached-keeps : (s : System) → IsReached Allowed options s → P s.shared
    unfolding new_system call_update
    IsReached-keeps _ created = first
    IsReached-keeps _ (started s before) =
        let v = IsReached-keeps s before in call-keeps (start s.shared) s v (starts s.shared v)
    IsReached-keeps _ (stopped_by s before) =
        let v = IsReached-keeps s before in call-keeps (stop s.shared) s v (stops s.shared v)
    IsReached-keeps _ (updated change s before) = IsReached-keeps s before
    IsReached-keeps _ (ran w i s end before allowed h) =
        let (t, r, has, goes, is) = run_task-eq-some w i s end h in
        subst (λ (x : System). P x.shared) (sym is)
          (whenever-some (λ r. P r.1) (advance w t s.shared) r
            (steps w t s.shared (IsReached-keeps s before)) goes)
