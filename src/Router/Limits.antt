-- ===== src/Router/Limits.antt =====
-- src/router.rs: the limits of a request, and the status of a request that is over one of them.
pub mod Laws
use neemata_proxy.Common.{
  ℕ, ◌+◌, max, Option, none, some, List, [], ◌∷◌, Bool, false, ltb, if◌then◌else◌, length,
}
use neemata_proxy.Text.{Text, lit, len}
use neemata_proxy.Text.Numbers.{parse_u64}
use neemata_proxy.Options.{
  ProxyLimitCheckParsed, uri_bytes, request_headers, single_header_bytes, request_header_bytes,
  request_body_bytes, ProxyLimitsOptionsParsed, disabled, enabled,
}
use neemata_proxy.Router.Session.{Session, HeaderValue}
use neemata_proxy.Router.Host.{str_of}

abbrev pub payload_too_large : ℕ
payload_too_large = 413

abbrev pub uri_too_long : ℕ
uri_too_long = 414

abbrev pub request_header_fields_too_large : ℕ
request_header_fields_too_large = 431

unfoldable pub request_header_count : Session → ℕ
request_header_count s = length s.headers

-- `map(…).max().unwrap_or(0)`
unfoldable pub largest_header : List (Text × HeaderValue) → ℕ
largest_header [] = 0
largest_header ((name, value) ∷ hs) = max (len name + length value.as_bytes) (largest_header hs)

unfoldable pub request_single_header_size : Session → ℕ
unfolding largest_header
request_single_header_size s = largest_header s.headers

unfoldable pub request_header_size : Session → ℕ
request_header_size s = length s.to_h1_raw

infixl 5 ◌>>=◌
abbrev ◌>>=◌ {ℓ κ} : {A : Type ℓ} {B : Type κ} → Option A → (A → Option B) → Option B
none >>= f = none
some a >>= f = f a

unfoldable pub request_content_length : Session → Option ℕ
request_content_length s = do value ← str_of (s.header_get (lit "content-length")); parse_u64 value

-- opt.is_some_and(|n| n > limit)
abbrev pub is_over : ℕ → Option ℕ → Bool
is_over limit none = false
is_over limit (some n) = ltb limit n

abbrev when : Bool → ℕ → Option ℕ
when over status = if over then some status else none

-- One round of the loop: the status with which it returns.
unfoldable pub check_status : Session → ProxyLimitCheckParsed → Option ℕ
unfolding request_header_count request_single_header_size request_header_size
check_status s (uri_bytes limit) = when (ltb limit (length s.raw_path)) uri_too_long
check_status s (request_headers limit) =
    when (ltb limit (request_header_count s)) request_header_fields_too_large
check_status s (single_header_bytes limit) =
    when (ltb limit (request_single_header_size s)) request_header_fields_too_large
check_status s (request_header_bytes limit) =
    when (ltb limit (request_header_size s)) request_header_fields_too_large
check_status s (request_body_bytes limit) =
    when (is_over limit (request_content_length s)) payload_too_large

unfoldable pub first_status : Session → List ProxyLimitCheckParsed → Option ℕ
unfolding check_status
first_status s [] = none
first_status s (check ∷ checks) = elim (check_status s check) [
  | some status ↦ some status
  | none ↦ first_status s checks
]

unfoldable pub request_limit_rejection_status : Session → ProxyLimitsOptionsParsed → Option ℕ
unfolding first_status
request_limit_rejection_status s disabled = none
request_limit_rejection_status s (enabled checks) = first_status s checks
