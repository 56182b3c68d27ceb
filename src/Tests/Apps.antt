-- ===== src/Tests/Apps.antt =====
-- Concrete applications, their options and their routes.
use neemata_proxy.Common.{
  ◌≡◌, ◌↔◌, refl, true, false, none, some, List, [], ◌∷◌, list_eq, list_beq, nat_eq,
}
use neemata_proxy.Text.{
  lit, is_empty, contains_char, to_ascii_lowercase, lower, is_ascii_uppercase, in_range, trim,
  trim_start, trim_end, is_whitespace, is_ascii_alphanumeric, is_ascii_digit, is_ascii_lowercase,
  starts_with_char, ends_with_char, len, len_utf8,
}
use neemata_proxy.Text.Splitting.{split}
use neemata_proxy.Map.{contains}
use neemata_proxy.Errors.{ok}
use neemata_proxy.Options.{
  ProxyOptions, ApplicationOptionsParsed, ProxyOptionsParsed, path, subdomain, default, given, null,
  enabled, request_headers, single_header_bytes,
}
use neemata_proxy.Options.Validate.{
  validate_applications, check_applications, check_application, check_routing,
}
use neemata_proxy.Options.Validate.Laws.{IsValidApplications, validate_applications_iff}
use neemata_proxy.Options.Parse.{
  default_limit_checks, default_timeouts, parse_limits_options, parse_timeout_options,
  parse_sticky_session_options, parse_routing, require_routing_name, parse_application_sni,
  parse_application_options, parse_applications, parse_proxy_options, parse_nullable_positive_u32,
  parse_positive_u32, is_hostname_like, is_label, is_label_char,
}
use neemata_proxy.Options.Parse.Laws.{IsParsed, parse_proxy_options-IsParsed}

abbrev pub auth_app : ApplicationOptionsParsed
auth_app = record { name = lit "auth"; routing = path (lit "auth"); sni = none }

abbrev chat_app : ApplicationOptionsParsed
chat_app = record { name = lit "chat"; routing = subdomain (lit "Chat.example.com"); sni = none }

abbrev home_app : ApplicationOptionsParsed
home_app = record { name = lit "home"; routing = default; sni = none }

abbrev pub apps : List ApplicationOptionsParsed
apps = auth_app ∷ chat_app ∷ home_app ∷ []

validate_applications_iff_example : (validate_applications apps ≡ ok tt) ↔ IsValidApplications apps
validate_applications_iff_example = validate_applications_iff apps

abbrev pub parsed : ProxyOptionsParsed
parsed = record {
  listen = lit "0.0.0.0:8080";
  tls = none;
  applications = apps;
  health_check_interval_ms = 5000;
  sticky_sessions = record {
    enabled = false;
    cookie_name = lit "nmt_affinity";
    header_name = lit "x-nmt-affinity-key";
    ttl_ms = 600000;
    max_entries = 20000;
  };
  limits = default_limit_checks;
  timeouts = default_timeouts;
}

-- Options of every kind: TLS, host names, limits and timeouts that are given, left out or `null`.
abbrev options : ProxyOptions
options = record {
  listen = lit "0.0.0.0:8443";
  tls = some (record { cert_path = lit "/c.pem"; key_path = lit "/k.pem"; enable_h2 = some true });
  applications =
      record { name = lit "auth"; routing = path (some (lit "auth")); sni = some (lit " a-1.io ") }
      ∷ record {
        name = lit "chat";
        routing = subdomain (some (lit "Chat.example.com"));
        sni = none;
      }
      ∷ record { name = lit "home"; routing = default; sni = none }
      ∷ [];
  health_check_interval_ms = some 2000;
  sticky_sessions = some (record {
    enabled = none;
    cookie_name = some (lit "sid");
    header_name = none;
    ttl_ms = some 1000;
    max_entries = none;
  });
  limits = some (
      given (record {
        max_uri_size = some null;
        max_request_headers = some (given 50);
        max_single_header_size = none;
        max_request_header_size = some null;
        max_request_body_size = some null;
      }));
  timeouts = some (record {
    downstream_header = none;
    downstream_body_idle = none;
    upstream_connect = some 700;
    upstream_read = some 800;
    upstream_write = none;
    downstream_keep_alive = none;
  });
}

abbrev accepted : ProxyOptionsParsed
accepted = record {
  listen = lit "0.0.0.0:8443";
  tls = some (record { cert_path = lit "/c.pem"; key_path = lit "/k.pem"; enable_h2 = true });
  applications =
      record { name = lit "auth"; routing = path (lit "auth"); sni = some (lit "a-1.io") }
      ∷ chat_app
      ∷ home_app
      ∷ [];
  health_check_interval_ms = 2000;
  sticky_sessions = record {
    enabled = true;
    cookie_name = lit "sid";
    header_name = lit "x-nmt-affinity-key";
    ttl_ms = 1000;
    max_entries = 20000;
  };
  limits = enabled (request_headers 50 ∷ single_header_bytes 8192 ∷ []);
  timeouts = record default_timeouts {
    upstream_connect_timeout_ms = 700;
    upstream_read_timeout_ms = 800;
  };
}

options_accepted : parse_proxy_options options ≡ ok accepted
unfolding list_beq lit validate_applications check_applications check_application check_routing
    is_empty contains_char contains to_ascii_lowercase lower is_ascii_uppercase in_range
    parse_proxy_options parse_applications parse_application_options parse_application_sni
    parse_routing require_routing_name parse_sticky_session_options parse_limits_options
    parse_timeout_options parse_nullable_positive_u32 parse_positive_u32 default_timeouts trim
    trim_start trim_end is_whitespace is_hostname_like is_label is_label_char is_ascii_alphanumeric
    is_ascii_digit is_ascii_lowercase starts_with_char ends_with_char len len_utf8 split
options_accepted = refl

parse_proxy_options-IsParsed_example : IsParsed options accepted
parse_proxy_options-IsParsed_example =
    parse_proxy_options-IsParsed options accepted options_accepted
