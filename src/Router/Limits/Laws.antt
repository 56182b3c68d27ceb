-- ===== src/Router/Limits/Laws.antt =====
-- When a request is rejected, and with which status.
use neemata_proxy.Common.{
  ℕ, ◌+◌, ◌≤◌, ◌≡◌, refl, ap, ◌↔◌, ◌⊎◌, Bool, true, false, inl, inr, Option, none, some, List, [],
  ◌∷◌, ◌++◌, arith, ltb, length, All,
}
use neemata_proxy.Text.{Text, len}
use neemata_proxy.Options.{
  ProxyLimitCheckParsed, uri_bytes, request_headers, single_header_bytes, request_header_bytes,
  request_body_bytes, enabled,
}
use neemata_proxy.Router.Session.{Session, HeaderValue}
use neemata_proxy.Router.Limits.{
  largest_header, request_content_length, check_status, first_status,
  request_limit_rejection_status, is_over, when,
}

-- What a limit asks of a request, said of the request itself.
abbrev pub Within : Session → ProxyLimitCheckParsed → Type 0
Within s (uri_bytes limit) = length s.raw_path ≤ limit
Within s (request_headers limit) = length s.headers ≤ limit
Within s (single_header_bytes limit) = All (λ h. len h.0 + length (h.1).as_bytes ≤ limit) s.headers
Within s (request_header_bytes limit) = length s.to_h1_raw ≤ limit
Within s (request_body_bytes limit) = (n : ℕ) → request_content_length s ≡ some n → n ≤ limit

-- The status that names the limit.
abbrev pub limit_status : ProxyLimitCheckParsed → ℕ
limit_status (uri_bytes _) = 414
limit_status (request_body_bytes _) = 413
limit_status _ = 431

largest_header-le_iff :
    (limit : ℕ) (hs : List (Text × HeaderValue))
    → (largest_header hs ≤ limit) ↔ All (λ h. len h.0 + length (h.1).as_bytes ≤ limit) hs
unfolding largest_header
largest_header-le_iff limit [] = (λ _. tt, λ _. omega arith)
largest_header-le_iff limit ((name, value) ∷ hs) =
    let (to, from) = largest_header-le_iff limit hs in
    (λ h. (omega arith, to (omega arith)), λ (h, k). let r = from k in omega arith)

body_within :
    (limit : ℕ) (o : Option ℕ) → (is_over limit o ≡ false) ↔ ((n : ℕ) → o ≡ some n → n ≤ limit)
body_within limit none = (λ _ n e. absurd (cc), λ _. refl)
body_within limit (some m) = (λ h n e. ground arith, λ h. ground (arith, h m refl))

ltb-false : (limit n : ℕ) → (ltb limit n ≡ false) ↔ (n ≤ limit)
ltb-false limit n = ground arith

when-Within :
    (over : Bool) (status : ℕ) {W : Type 0}
    → (over ≡ false) ↔ W
    → ((when over status ≡ none) × W) ⊎ ((when over status ≡ some status) × (¬ W))
when-Within true status w = inr (refl, λ h. absurd (cc (w.1 h)))
when-Within false status w = inl (refl, w.0 refl)

-- One limit rejects exactly the requests that are over it.
check_status-Within :
    (s : Session) (check : ProxyLimitCheckParsed)
    → ((check_status s check ≡ none) × Within s check)
      ⊎ ((check_status s check ≡ some (limit_status check)) × (¬ Within s check))
unfolding check_status
check_status-Within s (uri_bytes limit) = when-Within _ _ (ltb-false limit (length s.raw_path))
check_status-Within s (request_headers limit) = when-Within _ _ (ltb-false limit (length s.headers))
check_status-Within s (single_header_bytes limit) =
    let (a, b) = largest_header-le_iff limit s.headers in
    let (c, d) = ltb-false limit (largest_header s.headers) in
    when-Within _ _ (λ h. a (c h), λ h. d (b h))
check_status-Within s (request_header_bytes limit) =
    when-Within _ _ (ltb-false limit (length s.to_h1_raw))
check_status-Within s (request_body_bytes limit) =
    when-Within _ _ (body_within limit (request_content_length s))

-- A list of limits is left at the first one that the request is over.
pub data IsRejected (s : Session) (checks : List ProxyLimitCheckParsed) (status : ℕ) : Type 0 where
  rejected :
      (before : List ProxyLimitCheckParsed) (check : ProxyLimitCheckParsed)
      (after : List ProxyLimitCheckParsed)
      → checks ≡ before ++ check ∷ after
      → All (Within s) before
      → ¬ Within s check
      → status ≡ limit_status check
      → IsRejected s checks status

first_status-cases :
    (s : Session) (checks : List ProxyLimitCheckParsed)
    → ((first_status s checks ≡ none) × All (Within s) checks)
      ⊎ ((status : ℕ) × (first_status s checks ≡ some status) × IsRejected s checks status)
unfolding first_status
first_status-cases s [] = inl (refl, tt)
first_status-cases s (check ∷ checks) = elim (check_status-Within s check) [
  | inr (e, over) ↦
      inr (limit_status check, rw (e, first_status), rejected [] check checks refl tt over refl)
  | inl (e, within) ↦ elim (first_status-cases s checks) [
    | inl (none_left, rest) ↦ inl (rw (e, first_status) none_left, (within, rest))
    | inr (status, found, rejected before c after cut passed over same) ↦ inr (
      status,
      rw (e, first_status) found,
      rejected (check ∷ before) c after (ap (◌∷◌ check) cut) (within, passed) over same,
    )
  ]
]

-- With limits enabled a request passes exactly when it is within every one of them, and otherwise
-- it is rejected with the status of the first limit in the list that it is over: 414 for the URI,
-- 413 for the body and 431 for the headers. A body of unknown length is within every limit.
pub request_limit_rejection_status-cases :
    (s : Session) (checks : List ProxyLimitCheckParsed)
    → ((request_limit_rejection_status s (enabled checks) ≡ none) × All (Within s) checks)
      ⊎ ((status : ℕ) × (request_limit_rejection_status s (enabled checks) ≡ some status)
          × IsRejected s checks status)
unfolding request_limit_rejection_status
request_limit_rejection_status-cases s checks = first_status-cases s checks
