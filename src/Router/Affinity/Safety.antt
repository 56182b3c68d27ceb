-- ===== src/Router/Affinity/Safety.antt =====
-- A key that is taken from a request, or made for it, can stand in a cookie.
use neemata_proxy.Common.{
  ℕ, ◌^◌, ◌≤◌, ◌<◌, ◌≡◌, refl, ◌⊎◌, inl, inr, Bool, true, false, some, List, [], ◌∷◌, ◌++◌, arith,
  all, list_eq, nat_eq, length, length-append, Option-cases,
}
use neemata_proxy.Text.{
  Text, lit, len, len_utf8, is_empty, is_ascii_alphanumeric, trim, is_ascii_digit,
  is_ascii_uppercase, is_ascii_lowercase, in_range,
}
use neemata_proxy.Text.Splitting.{split, split_once}
use neemata_proxy.Text.Numbers.{to_hex, to_hex_alphanumeric, length-to_hex, to_hex_non_empty}
use neemata_proxy.Router.Session.{Session}
use neemata_proxy.Router.Host.{str_of}
use neemata_proxy.Router.Affinity.{
  is_key_char, is_cookie_safe_affinity_key, if_safe, cookie_pair, find_pair, extract_cookie_value,
  extract_header_value, affinity_key_of,
}

if_safe-safe : (v key : Text) → if_safe v ≡ some key → is_cookie_safe_affinity_key key ≡ true
unfolding if_safe
if_safe-safe v key h = ground arith

cookie_pair-safe :
    (name pair key : Text)
    → cookie_pair name pair ≡ some key
    → is_cookie_safe_affinity_key key ≡ true
unfolding cookie_pair
cookie_pair-safe name pair key h = elim (Option-cases (split_once b'=' (trim pair))) [
  | inl e ↦ absurd (ground arith)
  | inr ((n, v), e) ↦ if_safe-safe (trim v) key (ground arith)
]

find_pair-safe :
    (name : Text) (pairs : List Text) (key : Text)
    → find_pair name pairs ≡ some key
    → is_cookie_safe_affinity_key key ≡ true
unfolding find_pair
find_pair-safe name [] key h = absurd (cc)
find_pair-safe name (pair ∷ pairs) key h = elim (Option-cases (cookie_pair name pair)) [
  | inl e ↦ find_pair-safe name pairs key (ground arith)
  | inr (k, e) ↦ cookie_pair-safe name pair key (ground arith)
]

-- Whatever a client sends, a key that is read from its cookies or from its header is safe.
pub extracted_keys_safe :
    (s : Session) (name key : Text)
    → (extract_cookie_value s name ≡ some key) ⊎ (extract_header_value s name ≡ some key)
    → is_cookie_safe_affinity_key key ≡ true
unfolding extract_cookie_value extract_header_value
extracted_keys_safe s name key (inl h) =
    elim (Option-cases (str_of (s.header_get (lit "cookie")))) [
      | inl e ↦ absurd (ground arith)
      | inr (raw, e) ↦ find_pair-safe name (split b';' raw) key (ground arith)
    ]
extracted_keys_safe s name key (inr h) = elim (Option-cases (str_of (s.header_get name))) [
  | inl e ↦ absurd (ground arith)
  | inr (v, e) ↦ if_safe-safe (trim v) key (ground arith)
]

key_char_of_alphanumeric :
    (s : Text) → all is_ascii_alphanumeric s ≡ true → all is_key_char s ≡ true
unfolding is_key_char
key_char_of_alphanumeric [] h = refl
key_char_of_alphanumeric (c ∷ s) h = ground (arith, key_char_of_alphanumeric s)

len_of_alphanumeric : (s : Text) → all is_ascii_alphanumeric s ≡ true → len s ≡ length s
unfolding len len_utf8 is_ascii_alphanumeric is_ascii_digit is_ascii_lowercase is_ascii_uppercase
    in_range
len_of_alphanumeric [] h = refl
len_of_alphanumeric (c ∷ s) h = ground (arith, len_of_alphanumeric s)

all-append : (p : ℕ → Bool) (a b : Text) → all p a ≡ true → all p b ≡ true → all p (a ++ b) ≡ true
all-append p [] b h k = k
all-append p (x ∷ a) b h k = ground (arith, all-append p a b)

not_empty : (s : Text) → 0 < length s → is_empty s ≡ false
unfolding is_empty
not_empty [] h = absurd (omega arith)
not_empty (c ∷ s) h = refl

-- A key that the proxy makes from the time in nanoseconds (a `u128`) and its counter (a `u64`) is
-- one that it accepts when the client sends it back.
pub affinity_key_of-safe :
    (now tick : ℕ)
    → now < 16 ^ 32
    → tick < 16 ^ 16
    → is_cookie_safe_affinity_key (affinity_key_of now tick) ≡ true
unfolding is_cookie_safe_affinity_key affinity_key_of
affinity_key_of-safe now tick h k =
    let alnum =
      all-append is_ascii_alphanumeric (to_hex now) (to_hex tick) (to_hex_alphanumeric now)
        (to_hex_alphanumeric tick) in
    let total = length-append (to_hex now) (to_hex tick) in
    let a : length (to_hex now) ≤ 32 = length-to_hex 31 now h in
    let b : length (to_hex tick) ≤ 16 = length-to_hex 15 tick k in
    ground (
      arith,
      key_char_of_alphanumeric (to_hex now ++ to_hex tick) alnum,
      len_of_alphanumeric (to_hex now ++ to_hex tick) alnum,
      not_empty (to_hex now ++ to_hex tick) (omega (arith, to_hex_non_empty now)),
    )
