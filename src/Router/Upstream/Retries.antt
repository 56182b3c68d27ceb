-- ===== src/Router/Upstream/Retries.antt =====
-- A request whose attempts to connect keep failing.
use neemata_proxy.Common.{
  ℕ, ◌+◌, ◌≤◌, ◌≡◌, refl, sym, inl, inr, false, List, [], ◌∷◌, if◌then◌else◌, arith, Bool-cases,
  subst,
}
use neemata_proxy.Text.{Run, panicked, returned}
use neemata_proxy.Router.Sticky.Evict.{AffinityMapKey}
use neemata_proxy.Router.Filters.{ErrorType, Exchange}
use neemata_proxy.Router.Upstream.{ProxyError, fail_to_connect}
use neemata_proxy.Router.Upstream.Failures.{
  IsSoundIf, IsUnbound, untouched, unbound, fail_to_connect-IsUnbound,
}

abbrev fresh_error : ErrorType → ProxyError
fresh_error etype = record { etype = etype; retry = false }

abbrev cons_error : ProxyError → Run (Exchange × List ProxyError) → Run (Exchange × List ProxyError)
cons_error e panicked = panicked
cons_error e (returned (end, es)) = returned (end, e ∷ es)

-- The attempts of one request that fail, with the errors that `fail_to_connect` answers.
unfoldable pub connect_failures :
    (AffinityMapKey → ℕ) → Exchange → List ErrorType → Run (Exchange × List ProxyError)
connect_failures hash x [] = returned (x, [])
connect_failures hash x (etype ∷ etypes) = elim (fail_to_connect hash x (fresh_error etype)) [
  | panicked ↦ panicked
  | returned (x', e) ↦ cons_error e (connect_failures hash x' etypes)
]

abbrev pub retry_count : List ProxyError → ℕ
retry_count [] = 0
retry_count (e ∷ es) = (if e.retry then 1 else 0) + retry_count es

-- How many retries are left.
abbrev allowance : Exchange → ℕ
allowance x = if x.ctx.sticky_retry_attempted then 0 else 1

step-allowance :
    (hash : AffinityMapKey → ℕ) (x end : Exchange) (e e' : ProxyError)
    → IsSoundIf x.router.sticky
    → e.retry ≡ false
    → IsUnbound hash x e end e'
    → IsSoundIf end.router.sticky × ((if e'.retry then 1 else 0) + allowance end ≤ allowance x)
step-allowance hash x _ e _ v idle (untouched off) = (v, rw idle (omega arith))
step-allowance hash x end e _ v idle
      (unbound sticky after transport key _ on over is here kept gone others marked) =
    (
      subst IsSoundIf (sym here) kept.sound,
      elim (Bool-cases x.ctx.sticky_retry_attempted) [
        | inl again ↦ rw (again, marked, idle) (omega arith)
        | inr first ↦ rw (first, marked) (omega arith)
      ],
    )

module _ (hash : AffinityMapKey → ℕ) where
  failures-allowance :
      (x : Exchange) (etypes : List ErrorType)
      → IsSoundIf x.router.sticky
      → (end : Exchange) × (es : List ProxyError) × (connect_failures hash x etypes
          ≡ returned (end, es))
        × (retry_count es ≤ allowance x)
  unfolding connect_failures
  failures-allowance x [] v = (x, [], refl, omega arith)
  failures-allowance x (etype ∷ etypes) v =
      let (x', e, done, is) = fail_to_connect-IsUnbound hash x (fresh_error etype) v in
      let (v', spent) = step-allowance hash x x' (fresh_error etype) e v refl is in
      let (end, es, rest, few) = failures-allowance x' etypes v' in
      (end, e ∷ es, rw (done, connect_failures, rest) refl, omega (arith, spent, few))

  -- However often the attempts of a request to connect fail, none of the failures panics on a sound
  -- table, and at most one of them asks for a retry.
  pub fail_to_connect-retries :
      (x : Exchange) (etypes : List ErrorType)
      → IsSoundIf x.router.sticky
      → (end : Exchange) × (es : List ProxyError) × (connect_failures hash x etypes
          ≡ returned (end, es))
        × (retry_count es ≤ 1)
  fail_to_connect-retries x etypes v =
      let (end, es, done, few) = failures-allowance x etypes v in
      (end, es, done, ground (arith, few))
