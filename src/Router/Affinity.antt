-- ===== src/Router/Affinity.antt =====
-- src/router.rs: where a request's affinity key comes from, and the cookie that carries it.
pub mod Safety
pub mod Pairs
pub mod Roundtrip
pub mod Names
use neemata_proxy.Common.{
  ℕ, ◌+◌, ◌/◌, ◌&&◌, ◌||◌, not, max, Bool, Option, none, some, List, [], ◌∷◌, ◌++◌, all, leb,
  if◌then◌else◌, ◌==◌, nat_eq, list_eq,
}
use neemata_proxy.Text.{Text, lit, len, is_empty, is_ascii_alphanumeric, trim}
use neemata_proxy.Text.Splitting.{split, split_once}
use neemata_proxy.Text.Numbers.{to_decimal, to_hex}
use neemata_proxy.Router.Session.{Session}
use neemata_proxy.Router.Host.{str_of}

-- Durations are in milliseconds.
pub record StickySessionConfig : Type 0 where
  pub enabled : Bool
  pub cookie_name : Text
  pub header_name : Text
  pub ttl : ℕ
  pub max_entries : ℕ
  pub cookie_secure : Bool

abbrev pub max_affinity_key_len : ℕ
max_affinity_key_len = 256

unfoldable pub is_key_char : ℕ → Bool
unfolding is_ascii_alphanumeric
is_key_char c = is_ascii_alphanumeric c || c == b'.' || c == b'_' || c == b'-'

unfoldable pub is_cookie_safe_affinity_key : Text → Bool
unfolding is_empty len is_key_char
is_cookie_safe_affinity_key value =
    not (is_empty value) && leb (len value) max_affinity_key_len && all is_key_char value

infixl 5 ◌>>=◌
abbrev ◌>>=◌ {ℓ κ} : {A : Type ℓ} {B : Type κ} → Option A → (A → Option B) → Option B
none >>= f = none
some a >>= f = f a

-- `Option::filter` with the safety test.
unfoldable pub if_safe : Text → Option Text
unfolding is_cookie_safe_affinity_key
if_safe value = if is_cookie_safe_affinity_key value then some value else none

-- The closure of `find_map`.
unfoldable pub cookie_pair : Text → Text → Option Text
unfolding trim split_once if_safe
cookie_pair cookie_name pair = do
  (name, value) ← split_once b'=' (trim pair)
  if name == cookie_name then if_safe (trim value) else none

unfoldable pub find_pair : Text → List Text → Option Text
unfolding cookie_pair
find_pair cookie_name [] = none
find_pair cookie_name (pair ∷ pairs) = elim (cookie_pair cookie_name pair) [
  | some key ↦ some key
  | none ↦ find_pair cookie_name pairs
]

unfoldable pub extract_cookie_value : Session → Text → Option Text
unfolding find_pair split
extract_cookie_value s cookie_name = do
  raw ← str_of (s.header_get (lit "cookie"))
  find_pair cookie_name (split b';' raw)

unfoldable pub extract_header_value : Session → Text → Option Text
unfolding if_safe trim
extract_header_value s header_name = do v ← str_of (s.header_get header_name); if_safe (trim v)

-- `format!("{:x}{:x}", now, tick)`
unfoldable pub affinity_key_of : ℕ → ℕ → Text
affinity_key_of now tick = to_hex now ++ to_hex tick

unfoldable pub cookie_header_value : StickySessionConfig → Text → Text
cookie_header_value config affinity_key =
    let max_age_seconds = to_decimal (max (config.ttl / 1000) 1) in
    if config.cookie_secure
    then config.cookie_name
      ++ lit "="
      ++ affinity_key
      ++ lit "; Max-Age="
      ++ max_age_seconds
      ++ lit "; Path=/; HttpOnly; SameSite=Lax; Secure"
    else config.cookie_name
      ++ lit "="
      ++ affinity_key
      ++ lit "; Max-Age="
      ++ max_age_seconds
      ++ lit "; Path=/; HttpOnly; SameSite=Lax"
