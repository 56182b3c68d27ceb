-- ===== src/Router/Host.antt =====
-- src/router.rs: the host that routes a request, in lower case and without its port.
pub mod Laws
use neemata_proxy.Common.{
  ℕ, ◌+◌, Bool, true, false, ◌&&◌, not, Option, none, some, List, [], ◌∷◌, all, any, if◌then◌else◌,
}
use neemata_proxy.Text.{
  Text, Run, panicked, returned, lit, is_empty, is_ascii_digit, is_ascii_uppercase,
  to_ascii_lowercase, strip_prefix, find_char, slice_to,
}
use neemata_proxy.Text.Splitting.{rsplit_once}
use neemata_proxy.Router.Session.{Session, HeaderValue}

-- The match on `host.rsplit_once(':')`.
unfoldable pub without_port : Text → Option (Text × Text) → Text
unfolding is_empty is_ascii_digit
without_port host none = host
without_port host (some (h, port)) = if not (is_empty h) && all is_ascii_digit port then h else host

unfoldable pub strip_port_str : Text → Run Text
unfolding strip_prefix find_char slice_to rsplit_once without_port
strip_port_str host = elim (strip_prefix (b'[' ∷ []) host) [
  | some stripped ↦ elim (find_char b']' stripped) [
    | some end ↦ slice_to (end + 2) host
    | none ↦ returned host
  ]
  | none ↦ returned (without_port host (rsplit_once b':' host))
]

-- opt.and_then(|v| v.to_str().ok())
abbrev pub str_of : Option HeaderValue → Option Text
str_of none = none
str_of (some v) = v.to_str

-- The end of `extract_host`, from `strip_port_str` on.
unfoldable pub normalize_host : Text → Run Text
unfolding strip_port_str is_ascii_uppercase to_ascii_lowercase
normalize_host host_str = elim (strip_port_str host_str) [
  | panicked ↦ panicked
  | returned host ↦ returned (if any is_ascii_uppercase host then to_ascii_lowercase host else host)
]

abbrev pub map_run {ℓ κ} : {A : Type ℓ} {B : Type κ} → (A → B) → Run A → Run B
map_run f panicked = panicked
map_run f (returned a) = returned (f a)

-- headers.get(HOST), or else headers.get(":authority"); the second name is made only if the first
-- header is missing or no text.
unfoldable pub host_header : Session → Run (Option Text)
host_header s = elim (str_of (s.header_get (lit "host"))) [
  | some host ↦ returned (some host)
  | none ↦ map_run (λ name. str_of (s.header_get name)) (s.from_static (lit ":authority"))
]

unfoldable pub extract_host : Session → Run (Option Text)
unfolding host_header normalize_host
extract_host s = elim (host_header s) [
  | panicked ↦ panicked
  | returned none ↦ returned none
  | returned (some host_str) ↦ map_run some (normalize_host host_str)
]
