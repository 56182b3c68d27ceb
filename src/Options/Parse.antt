-- ===== src/Options/Parse.antt =====
-- src/options.rs: from the options that JavaScript gives to those that the proxy keeps.
pub mod Bounds
pub mod Hostname
pub mod Kept
pub mod Limits
pub mod Laws
use neemata_proxy.Common.{
  ℕ, ◌*◌, Bool, true, false, Option, none, some, List, [], ◌∷◌, ◌++◌, eqb, leb, not, ◌&&◌, ◌||◌,
  if◌then◌else◌, length, all, ◌==◌, nat_eq, list_eq,
}
use neemata_proxy.Text.{
  Text, lit, is_empty, len, trim, starts_with_char, ends_with_char, is_ascii_alphanumeric,
}
use neemata_proxy.Text.Splitting.{split}
use neemata_proxy.Errors.{
  Result, ok, err, ◌>>=◌, ◌>>◌, throw_type_error, invalid_application_options,
  invalid_proxy_options,
}
use neemata_proxy.Options.{
  Nullable, given, null, ProxyLimitsOptions, ProxyTimeoutOptions, StickySessionOptions,
  ListenerTlsOptions, ProxyApplicationRouting, ApplicationOptions, ProxyOptions,
  StickySessionOptionsParsed, ProxyLimitCheckParsed, ProxyLimitsOptionsParsed, disabled, enabled,
  uri_bytes, request_headers, single_header_bytes, request_header_bytes, request_body_bytes,
  ProxyTimeoutOptionsParsed, ListenerTlsOptionsParsed, ApplicationRoutingParsed,
  ApplicationOptionsParsed, ProxyOptionsParsed, subdomain, path, default,
}
use neemata_proxy.Options.Validate.{reject_if, validate_applications}

-- options::defaults
abbrev pub default_max_uri_bytes : ℕ
default_max_uri_bytes = 8192

abbrev pub default_max_request_headers : ℕ
default_max_request_headers = 100

abbrev pub default_max_single_header_bytes : ℕ
default_max_single_header_bytes = 8192

abbrev pub default_max_request_header_bytes : ℕ
default_max_request_header_bytes = 64 * 1024

abbrev pub default_max_request_body_bytes : ℕ
default_max_request_body_bytes = 16 * 1024 * 1024

abbrev pub default_downstream_header_timeout_ms : ℕ
default_downstream_header_timeout_ms = 10000

abbrev pub default_downstream_body_idle_timeout_ms : ℕ
default_downstream_body_idle_timeout_ms = 60000

abbrev pub default_upstream_connect_timeout_ms : ℕ
default_upstream_connect_timeout_ms = 5000

abbrev pub default_upstream_read_timeout_ms : ℕ
default_upstream_read_timeout_ms = 60000

abbrev pub default_upstream_write_timeout_ms : ℕ
default_upstream_write_timeout_ms = 60000

abbrev pub default_downstream_keep_alive_timeout_seconds : ℕ
default_downstream_keep_alive_timeout_seconds = 75

abbrev pub unwrap_or {ℓ} : {A : Type ℓ} → A → Option A → A
unwrap_or a none = a
unwrap_or a (some b) = b

-- `if test { return throw_type_error(INVALID_PROXY_OPTIONS, …) }`
abbrev pub reject_proxy_if : Bool → Text → Result (Unit {0})
reject_proxy_if test msg = if test then throw_type_error invalid_proxy_options msg else ok tt

abbrev pub positive_msg : Text → Text
positive_msg field = field ++ lit " must be greater than 0"

-- Every default is below 2^32, so `default as u32` and the casts back change nothing.
unfoldable pub parse_nullable_positive_u32 : Text → Option (Nullable ℕ) → ℕ → Result (Option ℕ)
unfolding throw_type_error
parse_nullable_positive_u32 field (some null) fallback = ok none
parse_nullable_positive_u32 field (some (given value)) fallback = do
  reject_proxy_if (eqb value 0) (positive_msg field)
  ok (some value)
parse_nullable_positive_u32 field none fallback = do
  reject_proxy_if (eqb fallback 0) (positive_msg field)
  ok (some fallback)

unfoldable pub parse_positive_u32 : Text → Option ℕ → ℕ → Result ℕ
unfolding throw_type_error
parse_positive_u32 field value fallback = do
  let n = unwrap_or fallback value
  reject_proxy_if (eqb n 0) (positive_msg field)
  ok n

-- The body of the vector: the check, if the limit is set, in front of the rest.
abbrev pub push_check :
    (ℕ → ProxyLimitCheckParsed) → Option ℕ → List ProxyLimitCheckParsed → List ProxyLimitCheckParsed
push_check check none rest = rest
push_check check (some limit) rest = check limit ∷ rest

unfoldable pub default_limit_checks : ProxyLimitsOptionsParsed
default_limit_checks = enabled (
    uri_bytes default_max_uri_bytes
    ∷ request_headers default_max_request_headers
    ∷ single_header_bytes default_max_single_header_bytes
    ∷ request_header_bytes default_max_request_header_bytes
    ∷ request_body_bytes default_max_request_body_bytes
    ∷ [])

unfoldable pub parse_limits_options :
    Option (Nullable ProxyLimitsOptions) → Result ProxyLimitsOptionsParsed
unfolding parse_nullable_positive_u32 default_limit_checks
parse_limits_options none = ok default_limit_checks
parse_limits_options (some null) = ok disabled
parse_limits_options (some (given limits)) = do
  uri ←
      parse_nullable_positive_u32 (lit "limits.maxUriSize") limits.max_uri_size
        default_max_uri_bytes
  count ←
      parse_nullable_positive_u32 (lit "limits.maxRequestHeaders") limits.max_request_headers
        default_max_request_headers
  single ←
      parse_nullable_positive_u32 (lit "limits.maxSingleHeaderSize") limits.max_single_header_size
        default_max_single_header_bytes
  header ←
      parse_nullable_positive_u32 (lit "limits.maxRequestHeaderSize") limits.max_request_header_size
        default_max_request_header_bytes
  body ←
      parse_nullable_positive_u32 (lit "limits.maxRequestBodySize") limits.max_request_body_size
        default_max_request_body_bytes
  let checks = push_check uri_bytes uri (
      push_check request_headers count (
        push_check single_header_bytes single
          (push_check request_header_bytes header (push_check request_body_bytes body []))))
  ok (if eqb (length checks) 0 then disabled else enabled checks)

unfoldable pub default_timeouts : ProxyTimeoutOptionsParsed
default_timeouts = record {
  downstream_header_timeout_ms = default_downstream_header_timeout_ms;
  downstream_body_idle_timeout_ms = default_downstream_body_idle_timeout_ms;
  upstream_connect_timeout_ms = default_upstream_connect_timeout_ms;
  upstream_read_timeout_ms = default_upstream_read_timeout_ms;
  upstream_write_timeout_ms = default_upstream_write_timeout_ms;
  downstream_keep_alive_timeout_seconds = default_downstream_keep_alive_timeout_seconds;
}

unfoldable pub parse_timeout_options : Option ProxyTimeoutOptions → Result ProxyTimeoutOptionsParsed
unfolding parse_positive_u32 default_timeouts
parse_timeout_options none = ok default_timeouts
parse_timeout_options (some timeouts) = do
  header ←
      parse_positive_u32 (lit "timeouts.downstreamHeader") timeouts.downstream_header
        default_downstream_header_timeout_ms
  body ←
      parse_positive_u32 (lit "timeouts.downstreamBodyIdle") timeouts.downstream_body_idle
        default_downstream_body_idle_timeout_ms
  connect ←
      parse_positive_u32 (lit "timeouts.upstreamConnect") timeouts.upstream_connect
        default_upstream_connect_timeout_ms
  read ←
      parse_positive_u32 (lit "timeouts.upstreamRead") timeouts.upstream_read
        default_upstream_read_timeout_ms
  write ←
      parse_positive_u32 (lit "timeouts.upstreamWrite") timeouts.upstream_write
        default_upstream_write_timeout_ms
  keep_alive ←
      parse_positive_u32 (lit "timeouts.downstreamKeepAlive") timeouts.downstream_keep_alive
        default_downstream_keep_alive_timeout_seconds
  ok (record {
    downstream_header_timeout_ms = header;
    downstream_body_idle_timeout_ms = body;
    upstream_connect_timeout_ms = connect;
    upstream_read_timeout_ms = read;
    upstream_write_timeout_ms = write;
    downstream_keep_alive_timeout_seconds = keep_alive;
  })

unfoldable pub parse_sticky_session_options :
    Option StickySessionOptions → Result StickySessionOptionsParsed
unfolding throw_type_error is_empty trim
parse_sticky_session_options none = ok (record {
  enabled = false;
  cookie_name = lit "nmt_affinity";
  header_name = lit "x-nmt-affinity-key";
  ttl_ms = 600000;
  max_entries = 20000;
})
parse_sticky_session_options (some sticky) = do
  let cookie_name = unwrap_or (lit "nmt_affinity") sticky.cookie_name
  let header_name = unwrap_or (lit "x-nmt-affinity-key") sticky.header_name
  let ttl_ms = unwrap_or 600000 sticky.ttl_ms
  let max_entries = unwrap_or 20000 sticky.max_entries
  reject_proxy_if (is_empty (trim cookie_name)) (lit "stickySessions.cookieName must be non-empty")
  reject_proxy_if (is_empty (trim header_name)) (lit "stickySessions.headerName must be non-empty")
  reject_proxy_if (eqb ttl_ms 0) (lit "stickySessions.ttlMs must be greater than 0")
  reject_proxy_if (eqb max_entries 0) (lit "stickySessions.maxEntries must be greater than 0")
  ok (record {
    enabled = unwrap_or true sticky.enabled;
    cookie_name = cookie_name;
    header_name = header_name;
    ttl_ms = ttl_ms;
    max_entries = max_entries;
  })

unfoldable pub is_label_char : ℕ → Bool
unfolding is_ascii_alphanumeric
is_label_char c = is_ascii_alphanumeric c || c == b'-'

unfoldable pub is_label : Text → Bool
unfolding is_empty len starts_with_char ends_with_char is_label_char
is_label label =
    not (is_empty label)
    && leb (len label) 63
    && not (starts_with_char b'-' label)
    && not (ends_with_char b'-' label)
    && all is_label_char label

unfoldable pub is_hostname_like : Text → Bool
unfolding starts_with_char ends_with_char is_label split
is_hostname_like value =
    if starts_with_char b'.' value || ends_with_char b'.' value
    then false
    else all is_label (split b'.' value)

unfoldable pub parse_application_sni : Option Text → Result (Option Text)
unfolding throw_type_error is_empty trim is_hostname_like
parse_application_sni none = ok none
parse_application_sni (some raw) = do
  let sni = trim raw
  reject_if (is_empty sni) (lit "ApplicationOptions.sni must be non-empty when provided")
  reject_if (not (is_hostname_like sni))
      (lit "ApplicationOptions.sni must be a hostname-like value")
  ok (some sni)

unfoldable pub require_routing_name : Text → Option Text → Result Text
unfolding throw_type_error
require_routing_name routing_type none =
    throw_type_error invalid_application_options
      (lit "ApplicationOptions.routing.name must be set for " ++ routing_type ++ lit " routing")
require_routing_name routing_type (some name) = ok name

unfoldable pub parse_routing : ProxyApplicationRouting → Result ApplicationRoutingParsed
unfolding require_routing_name
parse_routing default = ok default
parse_routing (subdomain raw) = do
  name ← require_routing_name (lit "subdomain") raw
  ok (subdomain name)
parse_routing (path raw) = do name ← require_routing_name (lit "path") raw; ok (path name)

unfoldable pub parse_application_options : ApplicationOptions → Result ApplicationOptionsParsed
unfolding parse_application_sni parse_routing
parse_application_options app = do
  sni ← parse_application_sni app.sni
  routing ← parse_routing app.routing
  ok (record { name = app.name; routing = routing; sni = sni })

-- The loop over the applications.
unfoldable pub parse_applications : List ApplicationOptions → Result (List ApplicationOptionsParsed)
unfolding parse_application_options
parse_applications [] = ok []
parse_applications (app ∷ apps) = do
  parsed ← parse_application_options app
  rest ← parse_applications apps
  ok (parsed ∷ rest)

abbrev pub parse_tls : Option ListenerTlsOptions → Option ListenerTlsOptionsParsed
parse_tls none = none
parse_tls (some tls) = some (record {
  cert_path = tls.cert_path;
  key_path = tls.key_path;
  enable_h2 = unwrap_or false tls.enable_h2;
})

unfoldable pub parse_proxy_options : ProxyOptions → Result ProxyOptionsParsed
unfolding parse_applications validate_applications parse_sticky_session_options parse_limits_options
    parse_timeout_options
parse_proxy_options options = do
  applications ← parse_applications options.applications
  validate_applications applications
  sticky_sessions ← parse_sticky_session_options options.sticky_sessions
  limits ← parse_limits_options options.limits
  timeouts ← parse_timeout_options options.timeouts
  ok (record {
    listen = options.listen;
    tls = parse_tls options.tls;
    applications = applications;
    health_check_interval_ms = unwrap_or 5000 options.health_check_interval_ms;
    sticky_sessions = sticky_sessions;
    limits = limits;
    timeouts = timeouts;
  })
