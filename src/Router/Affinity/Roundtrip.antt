-- ===== src/Router/Affinity/Roundtrip.antt =====
-- The cookie that the proxy sets, and the key that it reads when the client sends it back.
use neemata_proxy.Common.{
  ◌/◌, ◌≡◌, refl, ap, ◌∙◌, ◌⊎◌, inl, inr, max, Bool, true, false, none, some, List, [], ◌∷◌, ◌++◌,
  arith, all, if◌then◌else◌, list_eq, nat_eq, append_assoc, append-nil,
}
use neemata_proxy.Text.{Text, lit, is_ascii_alphanumeric, contains_char}
use neemata_proxy.Text.Splitting.{split, split-append, split-append_all, split_whole}
use neemata_proxy.Text.Numbers.{to_decimal, to_decimal_alphanumeric}
use neemata_proxy.Router.Session.{Session}
use neemata_proxy.Router.Host.{str_of}
use neemata_proxy.Router.Affinity.{
  StickySessionConfig, is_cookie_safe_affinity_key, cookie_pair, find_pair, extract_cookie_value,
  cookie_header_value,
}
use neemata_proxy.Router.Affinity.Pairs.{
  IsCookieName, trim-space, trim_pair, key_chars, pair_found, find_pair-append, pair_no_semicolon,
}

-- The cookies of a request, as browsers join them: those in front of the affinity cookie if it is
-- not the first, the affinity cookie, and what follows it if it is not the last.
pub record IsCookieHeader (raw front name key back : Text) : Type 0 where
  pub joined :
      ((front ≡ []) × (raw ≡ name ++ b'=' ∷ key ++ back))
      ⊎ (raw ≡ front ++ b';' ∷ (b' ' ∷ name ++ b'=' ∷ key ++ back))
  pub ended : (back ≡ []) ⊎ ((rest : Text) × (back ≡ b';' ∷ rest))
  pub passed_over : find_pair name (split b';' front) ≡ none

regroup : (name key back : Text) → name ++ b'=' ∷ key ++ back ≡ (name ++ b'=' ∷ key) ++ back
regroup [] key back = refl
regroup (c ∷ name) key back = ap (◌∷◌ c) (regroup name key back)

-- Behind the cookies in front, `pair` is cut off and read, whatever follows it.
read_pair :
    (name key back pair : Text)
    → contains_char b';' pair ≡ false
    → cookie_pair name pair ≡ some key
    → (back ≡ []) ⊎ ((rest : Text) × (back ≡ b';' ∷ rest))
    → find_pair name (split b';' (pair ++ back)) ≡ some key
unfolding find_pair
read_pair name key back pair free found (inl e) =
    ground (arith, e, append-nil pair, split_whole b';' pair free, found)
read_pair name key back pair free found (inr (rest, e)) =
    ground (arith, e, split-append b';' pair rest free, found)

module _ (name key : Text) (n : IsCookieName name)
    (safe : is_cookie_safe_affinity_key key ≡ true) where
  abbrev own : Text
  own = name ++ b'=' ∷ key

  own_free : contains_char b';' own ≡ false
  own_free = pair_no_semicolon name key n (key_chars key safe)

  spaced_free : contains_char b';' (b' ' ∷ own) ≡ false
  unfolding contains_char
  spaced_free = own_free

  own_found : cookie_pair name own ≡ some key
  own_found = pair_found name key own n safe (trim_pair name key n (key_chars key safe))

  spaced_found : cookie_pair name (b' ' ∷ own) ≡ some key
  spaced_found =
      pair_found name key (b' ' ∷ own) n safe
        (trim-space own ∙ trim_pair name key n (key_chars key safe))

  read_header :
      (raw front back : Text)
      → IsCookieHeader raw front name key back
      → find_pair name (split b';' raw) ≡ some key
  read_header raw front back c = elim c.joined [
    | inl (_, whole) ↦
        ap (λ t. find_pair name (split b';' t)) (whole ∙ regroup name key back)
        ∙ read_pair name key back own own_free own_found c.ended
    | inr behind ↦
        let pair = b' ' ∷ name ++ b'=' ∷ key ++ back in
        ap (λ t. find_pair name (split b';' t)) behind
        ∙ ap (find_pair name) (split-append_all b';' front pair)
        ∙ find_pair-append name (split b';' front) (split b';' pair) c.passed_over
        ∙ ap (λ t. find_pair name (split b';' (b' ' ∷ t))) (regroup name key back)
        ∙ read_pair name key back (b' ' ∷ own) spaced_free spaced_found c.ended
  ]

-- A safe key in the affinity cookie is read back from the cookies of a later request, whether the
-- cookie is the first or the only one, or stands behind others or before others, if the cookie's
-- name is a proper one (not empty, without white space, `=` and `;`) and no cookie in front of it
-- has the same name and a usable key.
pub extract_cookie_value-IsCookieHeader :
    (s : Session) (raw front name key back : Text)
    → IsCookieName name
    → is_cookie_safe_affinity_key key ≡ true
    → IsCookieHeader raw front name key back
    → str_of (s.header_get (lit "cookie")) ≡ some raw
    → extract_cookie_value s name ≡ some key
unfolding extract_cookie_value
extract_cookie_value-IsCookieHeader s raw front name key back n safe c sent =
    ground (arith, sent, read_header name key n safe raw front back c)

-- The attributes that the proxy gives its cookie.
abbrev pub attributes : StickySessionConfig → List Text
attributes config =
    (lit " Max-Age=" ++ to_decimal (max (config.ttl / 1000) 1))
    ∷ lit " Path=/"
    ∷ lit " HttpOnly"
    ∷ lit " SameSite=Lax"
    ∷ (if config.cookie_secure then lit " Secure" ∷ [] else [])

cut_attributes :
    (pair m age t : Text)
    → contains_char b';' pair ≡ false
    → contains_char b';' (m ++ age) ≡ false
    → split b';' (pair ++ b';' ∷ m ++ age ++ b';' ∷ t) ≡ pair ∷ (m ++ age) ∷ split b';' t
cut_attributes pair m age t h k =
    ap (λ x. split b';' (x ++ b';' ∷ t)) (append_assoc pair (b';' ∷ m) age)
    ∙ ap (split b';') (append_assoc pair (b';' ∷ m ++ age) (b';' ∷ t))
    ∙ split-append b';' pair (m ++ age ++ b';' ∷ t) h
    ∙ ap (◌∷◌ pair) (split-append b';' (m ++ age) t k)

alphanumeric_no_semicolon :
    (s : Text) → all is_ascii_alphanumeric s ≡ true → contains_char b';' s ≡ false
unfolding contains_char is_ascii_alphanumeric
alphanumeric_no_semicolon [] h = refl
alphanumeric_no_semicolon (c ∷ s) h = ground (arith, alphanumeric_no_semicolon s)

cut_cookie :
    (pair age : Text) (secure : Bool)
    → contains_char b';' pair ≡ false
    → contains_char b';' age ≡ false
    → split b';' (
        if secure
        then pair ++ lit "; Max-Age=" ++ age ++ lit "; Path=/; HttpOnly; SameSite=Lax; Secure"
        else pair ++ lit "; Max-Age=" ++ age ++ lit "; Path=/; HttpOnly; SameSite=Lax")
      ≡ pair
        ∷ (lit " Max-Age=" ++ age)
        ∷ lit " Path=/"
        ∷ lit " HttpOnly"
        ∷ lit " SameSite=Lax"
        ∷ (if secure then lit " Secure" ∷ [] else [])
unfolding lit split contains_char
cut_cookie pair age true h k = cut_attributes pair (lit " Max-Age=") age _ h k
cut_cookie pair age false h k = cut_attributes pair (lit " Max-Age=") age _ h k

pair_joined : (name key : Text) → name ++ lit "=" ++ key ≡ name ++ b'=' ∷ key
unfolding lit
pair_joined name key = append_assoc name (b'=' ∷ []) key

-- For a safe key and a proper cookie name, the cookie header holds the pair of both and the proxy's
-- own attributes and nothing else: no key adds an attribute, and the cookie is `Secure` exactly
-- when it is configured so.
pub split-cookie_header_value :
    (config : StickySessionConfig) (key : Text)
    → IsCookieName config.cookie_name
    → is_cookie_safe_affinity_key key ≡ true
    → split b';' (cookie_header_value config key)
      ≡ (config.cookie_name ++ b'=' ∷ key) ∷ attributes config
unfolding cookie_header_value
split-cookie_header_value config key n safe =
    let age = to_decimal (max (config.ttl / 1000) 1) in
    let pair = config.cookie_name ++ lit "=" ++ key in
    let joined = pair_joined config.cookie_name key in
    let pair_free = pair_no_semicolon config.cookie_name key n (key_chars key safe) in
    cut_cookie pair age config.cookie_secure (ap (contains_char b';') joined ∙ pair_free)
      (alphanumeric_no_semicolon age (to_decimal_alphanumeric (max (config.ttl / 1000) 1)))
    ∙ ap (λ p. p ∷ attributes config) joined
