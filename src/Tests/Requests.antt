-- ===== src/Tests/Requests.antt =====
-- Paths, hosts, limits and affinity keys of concrete requests.
use neemata_proxy.Common.{
  ℕ, ◌≡◌, ◌↔◌, ◌⊎◌, inl, inr, refl, Bool, true, false, Option, none, some, List, [], ◌∷◌, ◌++◌,
  list_eq, list_beq, nat_eq, ◌==◌, if◌then◌else◌, arith, All,
}
use neemata_proxy.Text.{
  Text, panicked, returned, lit, to_ascii_lowercase, is_whitespace, contains_char, starts_with_char,
  is_empty, len, len_utf8, strip_prefix, is_ascii_digit, is_ascii_uppercase, is_ascii_lowercase,
  is_ascii_alphanumeric, in_range, lower, trim, trim_start, trim_end,
}
use neemata_proxy.Text.Splitting.{split, split_once, rsplit_once}
use neemata_proxy.Options.{ProxyLimitCheckParsed, uri_bytes, request_headers, enabled}
use neemata_proxy.Router.Session.{Session, HeaderValue}
use neemata_proxy.Router.Path.{
  with_query, strip_first_path_segment, extract_first_path_segment, first_non_empty,
}
use neemata_proxy.Router.Path.Laws.{IsTarget, IsStripped, strip_first_path_segment_iff}
use neemata_proxy.Router.Path.Segments.{strip-extract, double_slash_not_rewritten}
use neemata_proxy.Router.Host.{
  strip_port_str, normalize_host, host_header, extract_host, without_port,
}
use neemata_proxy.Router.Host.Laws.{IsHostPart, strip_port_str-IsHostPart, extract_host-lowercase}
use neemata_proxy.Router.Limits.{request_limit_rejection_status}
use neemata_proxy.Router.Limits.Laws.{Within, IsRejected, request_limit_rejection_status-cases}
use neemata_proxy.Router.Affinity.{
  StickySessionConfig, is_key_char, is_cookie_safe_affinity_key, if_safe, find_pair, cookie_pair,
  extract_cookie_value, affinity_key_of, cookie_header_value,
}
use neemata_proxy.Router.Affinity.Safety.{extracted_keys_safe, affinity_key_of-safe}
use neemata_proxy.Router.Affinity.Pairs.{IsCookieName}
use neemata_proxy.Router.Affinity.Roundtrip.{
  attributes, extract_cookie_value-IsCookieHeader, split-cookie_header_value,
}
use neemata_proxy.Router.Affinity.Names.{extract_cookie_value_unreadable}

-- A header whose bytes are text.
abbrev pub value : Text → HeaderValue
value s = record { as_bytes = s; to_str = some s }

-- A request with a host, for every other header the cookie `a=1; nmt=k`, and a body of no length.
abbrev pub request : Text → Text → Bool → Session
request host path up = record {
  raw_path = path;
  uri_path = path;
  headers = (lit "host", value host) ∷ [];
  header_get = λ name.
      if name == lit "host"
      then some (value host)
      else if name == lit "cookie"
      then some (value (lit "a=1; nmt=k7"))
      else none;
  from_static = λ name. panicked;
  to_h1_raw = path ++ host;
  is_upgrade_req = up;
}

abbrev pub at_chat : Session
at_chat = request (lit "Chat.Example.com:8080") (lit "/auth/login") false

strip_first_path_segment_iff_example :
    (r : Option Text) × (strip_first_path_segment (lit "/auth/login?x=1") (lit "auth") ≡ returned r)
    × ((out : Text)
        → (r ≡ some out) ↔ (
            (path : Text) × (query : Option Text) × (op : Text) × IsTarget
              (lit "/auth/login?x=1")
              path
              query
            × IsStripped (lit "auth") path op
            × (out ≡ with_query op query)))
strip_first_path_segment_iff_example =
    strip_first_path_segment_iff (lit "/auth/login?x=1") (lit "auth")

strip-extract_example :
    (out : Text) × (strip_first_path_segment (lit "/auth/login") (lit "auth") ≡ returned (some out))
unfolding list_beq lit starts_with_char extract_first_path_segment split first_non_empty is_empty
    contains_char split_once
strip-extract_example =
    strip-extract (lit "/auth/login") (lit "auth/login") none (lit "auth")
      (record { joined = refl; clean = refl }) refl refl

double_slash_not_rewritten_example :
    (extract_first_path_segment (lit "//auth/login") ≡ some (lit "auth"))
    × (strip_first_path_segment (lit "//auth/login") (lit "auth") ≡ returned none)
unfolding list_beq lit contains_char
double_slash_not_rewritten_example =
    double_slash_not_rewritten (lit "auth") (lit "login") none (lit "//auth/login")
      (λ e. ground arith) refl (record { joined = refl; clean = refl })

strip_port_str-IsHostPart_example :
    (r : Text) × (strip_port_str (lit "[::1]:8080") ≡ returned r) × IsHostPart (lit "[::1]:8080") r
strip_port_str-IsHostPart_example = strip_port_str-IsHostPart (lit "[::1]:8080")

extract_host-lowercase_example :
    to_ascii_lowercase (lit "chat.example.com") ≡ lit "chat.example.com"
unfolding list_beq lit extract_host host_header normalize_host strip_port_str strip_prefix
    rsplit_once without_port is_empty is_ascii_digit is_ascii_uppercase to_ascii_lowercase in_range
    lower
extract_host-lowercase_example = extract_host-lowercase at_chat (lit "chat.example.com") refl

abbrev some_checks : List ProxyLimitCheckParsed
some_checks = uri_bytes 5 ∷ request_headers 100 ∷ []

request_limit_rejection_status-cases_example :
    ((request_limit_rejection_status at_chat (enabled some_checks) ≡ none)
      × All (Within at_chat) some_checks)
    ⊎ ((status : ℕ) × (request_limit_rejection_status at_chat (enabled some_checks) ≡ some status)
        × IsRejected at_chat some_checks status)
request_limit_rejection_status-cases_example =
    request_limit_rejection_status-cases at_chat some_checks

extracted_keys_safe_example : is_cookie_safe_affinity_key (lit "k7") ≡ true
unfolding list_beq lit extract_cookie_value split find_pair cookie_pair trim trim_start trim_end
    is_whitespace split_once if_safe is_cookie_safe_affinity_key is_key_char len len_utf8 is_empty
    is_ascii_alphanumeric is_ascii_digit is_ascii_uppercase is_ascii_lowercase in_range
extracted_keys_safe_example = extracted_keys_safe at_chat (lit "nmt") (lit "k7") (inl refl)

affinity_key_of-safe_example : is_cookie_safe_affinity_key (affinity_key_of 1700000000 1) ≡ true
affinity_key_of-safe_example = affinity_key_of-safe 1700000000 1 (omega arith) (omega arith)

nmt-IsCookieName : IsCookieName (lit "nmt")
unfolding list_beq lit is_whitespace contains_char
nmt-IsCookieName = record {
  named = λ e. ground arith;
  no_white = refl;
  no_equals = refl;
  no_semicolon = refl;
}

extract_cookie_value-IsCookieHeader_example :
    extract_cookie_value at_chat (lit "nmt") ≡ some (lit "k7")
unfolding list_beq lit is_cookie_safe_affinity_key is_key_char len len_utf8 is_empty
    is_ascii_alphanumeric is_ascii_digit is_ascii_uppercase is_ascii_lowercase in_range split
    find_pair cookie_pair trim trim_start trim_end is_whitespace split_once if_safe
extract_cookie_value-IsCookieHeader_example =
    extract_cookie_value-IsCookieHeader at_chat (lit "a=1; nmt=k7") (lit "a=1") (lit "nmt")
      (lit "k7") [] nmt-IsCookieName refl
      (record { joined = inr refl; ended = inl refl; passed_over = refl }) refl

abbrev pub nmt_config : StickySessionConfig
nmt_config = record {
  enabled = true;
  cookie_name = lit "nmt";
  header_name = lit "x-nmt";
  ttl = 600000;
  max_entries = 2;
  cookie_secure = true;
}

split-cookie_header_value_example :
    split b';' (cookie_header_value nmt_config (lit "k7"))
    ≡ (lit "nmt" ++ b'=' ∷ lit "k7") ∷ attributes nmt_config
unfolding list_beq lit is_cookie_safe_affinity_key is_key_char len len_utf8 is_empty
    is_ascii_alphanumeric is_ascii_digit is_ascii_uppercase is_ascii_lowercase in_range
split-cookie_header_value_example =
    split-cookie_header_value nmt_config (lit "k7") nmt-IsCookieName refl

extract_cookie_value_unreadable_example : extract_cookie_value at_chat (lit "a;b") ≡ none
unfolding list_beq lit contains_char
extract_cookie_value_unreadable_example =
    extract_cookie_value_unreadable at_chat (lit "a;b") (inr refl)
