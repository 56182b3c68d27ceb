-- ===== src/Router/Affinity/Pairs.antt =====
-- One pair of a Cookie header, `name=value`.
use neemata_proxy.Common.{
  ℕ, ◌≤◌, ◌<◌, ◌≡◌, refl, ap, ◌∙◌, ◌≢◌, not, true, false, none, some, List, [], ◌∷◌, ◌++◌, arith,
  all, ==_self, list_eq, nat_eq,
}
use neemata_proxy.Text.{Text, is_whitespace, trim, trim_start, trim_end, keep_end, contains_char}
use neemata_proxy.Text.Splitting.{split_once-append}
use neemata_proxy.Router.Affinity.{
  is_key_char, is_cookie_safe_affinity_key, if_safe, cookie_pair, find_pair,
}

-- A cookie name that a browser sends back as it is: not empty, and without white space, `=`
-- and `;`.
pub record IsCookieName (name : Text) : Type 0 where
  pub named : name ≢ []
  pub no_white : all (λ c. not (is_whitespace c)) name ≡ true
  pub no_equals : contains_char b'=' name ≡ false
  pub no_semicolon : contains_char b';' name ≡ false

pub keep_end_solid : (c : ℕ) (s : Text) → keep_end c false s ≡ c ∷ s
keep_end_solid c [] = refl
keep_end_solid c (x ∷ s) = refl

pub trim_end_plain : (s : Text) → all (λ c. not (is_whitespace c)) s ≡ true → trim_end s ≡ s
unfolding trim_end
trim_end_plain [] h = refl
trim_end_plain (c ∷ s) h = ground (arith, trim_end_plain s, keep_end_solid c s)

pub trim_end-append :
    (a : Text) (x : ℕ) (b : Text) → trim_end (x ∷ b) ≡ x ∷ b → trim_end (a ++ x ∷ b) ≡ a ++ x ∷ b
unfolding trim_end
trim_end-append [] x b h = h
trim_end-append (y ∷ []) x b h = rw h
trim_end-append (y ∷ z ∷ a) x b h = rw (trim_end-append (z ∷ a) x b h, trim_end)

pub visible_not_white : (c : ℕ) → 33 ≤ c → c < 128 → is_whitespace c ≡ false
unfolding is_whitespace
visible_not_white c h k = ground arith

pub key_char_visible :
    (c : ℕ) → is_key_char c ≡ true → (33 ≤ c) × (c < 128) × (c ≢ b';') × (c ≢ b'=')
unfolding is_key_char
key_char_visible c h = ground arith

pub key_not_white :
    (s : Text) → all is_key_char s ≡ true → all (λ c. not (is_whitespace c)) s ≡ true
key_not_white [] h = refl
key_not_white (c ∷ s) h = ground (arith, key_not_white s, key_char_visible c, visible_not_white c)

pub key_no_semicolon : (s : Text) → all is_key_char s ≡ true → contains_char b';' s ≡ false
unfolding contains_char
key_no_semicolon [] h = refl
key_no_semicolon (c ∷ s) h = ground (arith, key_no_semicolon s, key_char_visible c)

pub contains-append :
    (c : ℕ) (a b : Text)
    → contains_char c a ≡ false
    → contains_char c b ≡ false
    → contains_char c (a ++ b) ≡ false
unfolding contains_char
contains-append c [] b h k = k
contains-append c (x ∷ a) b h k = ground (arith, contains-append c a b)

pub trim_start_solid : (c : ℕ) (s : Text) → is_whitespace c ≡ false → trim_start (c ∷ s) ≡ c ∷ s
unfolding trim_start
trim_start_solid c s h = rw h

pub trim-space : (s : Text) → trim (b' ' ∷ s) ≡ trim s
unfolding trim trim_start is_whitespace
trim-space s = refl

pub trim_plain : (s : Text) → all (λ c. not (is_whitespace c)) s ≡ true → trim s ≡ s
unfolding trim trim_start trim_end
trim_plain [] h = refl
trim_plain (c ∷ s) h = ap trim_end (trim_start_solid c s (ground arith)) ∙ trim_end_plain (c ∷ s) h

module _ {name : Text} (n : IsCookieName name) (key : Text) (k : all is_key_char key ≡ true) where
  trim_end_value : trim_end (b'=' ∷ key) ≡ b'=' ∷ key
  trim_end_value =
      trim_end_plain (b'=' ∷ key)
        (ground (arith, key_not_white key k, visible_not_white b'=' (omega arith) (omega arith)))

pub trim_pair :
    (name key : Text)
    → IsCookieName name
    → all is_key_char key ≡ true
    → trim (name ++ b'=' ∷ key) ≡ name ++ b'=' ∷ key
unfolding trim
trim_pair [] key n k = absurd (n.named refl)
trim_pair (c ∷ name) key n k =
    ap trim_end (trim_start_solid c (name ++ b'=' ∷ key) (first_solid c name n.no_white))
    ∙ trim_end-append (c ∷ name) b'=' key (trim_end_value n key k)
  where
    first_solid :
        (c : ℕ) (s : Text)
        → all (λ c. not (is_whitespace c)) (c ∷ s) ≡ true
        → is_whitespace c ≡ false
    first_solid c s h = ground arith

pub key_chars : (key : Text) → is_cookie_safe_affinity_key key ≡ true → all is_key_char key ≡ true
unfolding is_cookie_safe_affinity_key
key_chars key h = ground arith

pub pair_found :
    (name key pair : Text)
    → IsCookieName name
    → is_cookie_safe_affinity_key key ≡ true
    → trim pair ≡ name ++ b'=' ∷ key
    → cookie_pair name pair ≡ some key
unfolding cookie_pair if_safe
pair_found name key pair n safe e =
    let k = key_chars key safe in
    ground (
      arith,
      e,
      split_once-append b'=' name key n.no_equals,
      ==_self name,
      trim_plain key (key_not_white key k),
    )

pub find_pair-append :
    (name : Text) (a b : List Text)
    → find_pair name a ≡ none
    → find_pair name (a ++ b) ≡ find_pair name b
unfolding find_pair
find_pair-append name [] b h = refl
find_pair-append name (pair ∷ a) b h = ground (arith, find_pair-append name a b)

pub pair_no_semicolon :
    (name key : Text)
    → IsCookieName name
    → all is_key_char key ≡ true
    → contains_char b';' (name ++ b'=' ∷ key) ≡ false
unfolding contains_char
pair_no_semicolon name key n k =
    contains-append b';' name (b'=' ∷ key) n.no_semicolon (ground (arith, key_no_semicolon key k))
