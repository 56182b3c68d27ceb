-- ===== src/Router/Session.antt =====
-- What src/router.rs reads of a request. `pingora::proxy::Session` and the `http` crate are not
-- code of the repository: a request is the answers that they give, so every theorem holds whatever
-- these answers are.
use neemata_proxy.Common.{ℕ, Bool, Option, List}
use neemata_proxy.Text.{Text, Run}

-- http::HeaderValue: its bytes, and `to_str().ok()`.
pub record HeaderValue : Type 0 where
  pub as_bytes : List ℕ
  pub to_str : Option Text

pub record Session : Type 0 where
  -- req_header().raw_path(), bytes
  pub raw_path : List ℕ
  -- req_header().uri.path()
  pub uri_path : Text
  -- headers.iter()
  pub headers : List (Text × HeaderValue)
  -- headers.get(name)
  pub header_get : Text → Option HeaderValue
  -- http::HeaderName::from_static(name), which panics at what is no header name
  pub from_static : Text → Run Text
  -- downstream_session.to_h1_raw(), bytes
  pub to_h1_raw : List ℕ
  pub is_upgrade_req : Bool
