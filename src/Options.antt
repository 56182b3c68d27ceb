-- ===== src/Options.antt =====
-- src/options.rs: the options as JavaScript gives them and as the proxy keeps them. A `u32`, `u64`
-- or `usize` field is a number; `Either<T, Null>` is a type of its own.
pub mod Validate
pub mod Parse
use neemata_proxy.Common.{ℕ, Bool, Option, List}
use neemata_proxy.Text.{Text}

pub data Nullable (A : Type 0) : Type 0 where
  given : A → Nullable A
  null : Nullable A

pub record ProxyLimitsOptions : Type 0 where
  pub max_uri_size : Option (Nullable ℕ)
  pub max_request_headers : Option (Nullable ℕ)
  pub max_single_header_size : Option (Nullable ℕ)
  pub max_request_header_size : Option (Nullable ℕ)
  pub max_request_body_size : Option (Nullable ℕ)

pub record ProxyTimeoutOptions : Type 0 where
  pub downstream_header : Option ℕ
  pub downstream_body_idle : Option ℕ
  pub upstream_connect : Option ℕ
  pub upstream_read : Option ℕ
  pub upstream_write : Option ℕ
  pub downstream_keep_alive : Option ℕ

pub record StickySessionOptions : Type 0 where
  pub enabled : Option Bool
  pub cookie_name : Option Text
  pub header_name : Option Text
  pub ttl_ms : Option ℕ
  pub max_entries : Option ℕ

pub record ListenerTlsOptions : Type 0 where
  pub cert_path : Text
  pub key_path : Text
  pub enable_h2 : Option Bool

pub data ProxyApplicationRouting : Type 0 where
  path : Option Text → ProxyApplicationRouting
  subdomain : Option Text → ProxyApplicationRouting
  default : ProxyApplicationRouting

pub record ApplicationOptions : Type 0 where
  pub name : Text
  pub routing : ProxyApplicationRouting
  pub sni : Option Text

pub record ProxyOptions : Type 0 where
  pub listen : Text
  pub tls : Option ListenerTlsOptions
  pub applications : List ApplicationOptions
  pub health_check_interval_ms : Option ℕ
  pub sticky_sessions : Option StickySessionOptions
  pub limits : Option (Nullable ProxyLimitsOptions)
  pub timeouts : Option ProxyTimeoutOptions

pub record StickySessionOptionsParsed : Type 0 where
  pub enabled : Bool
  pub cookie_name : Text
  pub header_name : Text
  pub ttl_ms : ℕ
  pub max_entries : ℕ

pub data ProxyLimitCheckParsed : Type 0 where
  uri_bytes : ℕ → ProxyLimitCheckParsed
  request_headers : ℕ → ProxyLimitCheckParsed
  single_header_bytes : ℕ → ProxyLimitCheckParsed
  request_header_bytes : ℕ → ProxyLimitCheckParsed
  request_body_bytes : ℕ → ProxyLimitCheckParsed

pub data ProxyLimitsOptionsParsed : Type 0 where
  disabled : ProxyLimitsOptionsParsed
  enabled : List ProxyLimitCheckParsed → ProxyLimitsOptionsParsed

pub record ProxyTimeoutOptionsParsed : Type 0 where
  pub downstream_header_timeout_ms : ℕ
  pub downstream_body_idle_timeout_ms : ℕ
  pub upstream_connect_timeout_ms : ℕ
  pub upstream_read_timeout_ms : ℕ
  pub upstream_write_timeout_ms : ℕ
  pub downstream_keep_alive_timeout_seconds : ℕ

pub record ListenerTlsOptionsParsed : Type 0 where
  pub cert_path : Text
  pub key_path : Text
  pub enable_h2 : Bool

pub data ApplicationRoutingParsed : Type 0 where
  subdomain : Text → ApplicationRoutingParsed
  path : Text → ApplicationRoutingParsed
  default : ApplicationRoutingParsed

pub record ApplicationOptionsParsed : Type 0 where
  pub name : Text
  pub routing : ApplicationRoutingParsed
  pub sni : Option Text

pub record ProxyOptionsParsed : Type 0 where
  pub listen : Text
  pub tls : Option ListenerTlsOptionsParsed
  pub applications : List ApplicationOptionsParsed
  pub health_check_interval_ms : ℕ
  pub sticky_sessions : StickySessionOptionsParsed
  pub limits : ProxyLimitsOptionsParsed
  pub timeouts : ProxyTimeoutOptionsParsed
