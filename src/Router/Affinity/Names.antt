-- ===== src/Router/Affinity/Names.antt =====
-- Cookie names that the options allow and no browser can send back.
use neemata_proxy.Common.{
  ℕ, ◌≡◌, refl, ap, sym, ◌∙◌, ◌⊎◌, inl, inr, Bool, true, false, none, List, [], ◌∷◌, ◌++◌, arith,
  ==_iff, list_eq, nat_eq, All, Option-cases,
}
use neemata_proxy.Text.{
  Text, lit, is_whitespace, trim, trim_start, trim_end, keep_end, contains_char,
}
use neemata_proxy.Text.Splitting.{split, split_once, split_once-eq-some, split-All}
use neemata_proxy.Router.Session.{Session}
use neemata_proxy.Router.Host.{str_of}
use neemata_proxy.Router.Affinity.{cookie_pair, find_pair, extract_cookie_value}

module _ (c : ℕ) where
  free-trim_start : (s : Text) → contains_char c s ≡ false → contains_char c (trim_start s) ≡ false
  unfolding trim_start contains_char
  free-trim_start [] h = refl
  free-trim_start (x ∷ s) h = ground (arith, free-trim_start s)

  free-keep_end :
      (x : ℕ) (white : Bool) (s : Text)
      → contains_char c (x ∷ s) ≡ false
      → contains_char c (keep_end x white s) ≡ false
  unfolding contains_char
  free-keep_end x true [] h = refl
  free-keep_end x false [] h = h
  free-keep_end x white (y ∷ s) h = h

  free-trim_end : (s : Text) → contains_char c s ≡ false → contains_char c (trim_end s) ≡ false
  unfolding trim_end contains_char
  free-trim_end [] h = refl
  free-trim_end (x ∷ s) h =
      free-keep_end x (is_whitespace x) (trim_end s) (ground (arith, free-trim_end s))

  free-trim : (s : Text) → contains_char c s ≡ false → contains_char c (trim s) ≡ false
  unfolding trim
  free-trim s h = free-trim_end (trim_start s) (free-trim_start s h)

  free_front : (a b : Text) → contains_char c (a ++ b) ≡ false → contains_char c a ≡ false
  unfolding contains_char
  free_front [] b h = refl
  free_front (x ∷ a) b h = ground (arith, free_front a b)

module _ (name : Text)
    (bad : (contains_char b'=' name ≡ true) ⊎ (contains_char b';' name ≡ true)) where
  cookie_pair_unreadable :
      (pair : Text) → contains_char b';' pair ≡ false → cookie_pair name pair ≡ none
  unfolding cookie_pair
  cookie_pair_unreadable pair h = elim (Option-cases (split_once b'=' (trim pair))) [
    | inl e ↦ rw (e, cookie_pair)
    | inr ((n, v), e) ↦
        let (cut, no_equals) = split_once-eq-some b'=' (trim pair) n v e in
        let no_semicolon =
          free_front b';' n (b'=' ∷ v)
            (ap (contains_char b';') (sym cut) ∙ free-trim b';' pair h) in
        ground (arith, e, ==_iff n name)
  ]

  find_pair_unreadable :
      (pairs : List Text)
      → All (λ p. contains_char b';' p ≡ false) pairs
      → find_pair name pairs ≡ none
  unfolding find_pair
  find_pair_unreadable [] h = refl
  find_pair_unreadable (pair ∷ pairs) (h, hs) =
      rw (cookie_pair_unreadable pair h, find_pair) (find_pair_unreadable pairs hs)

-- A cookie name with `=` or `;` in it, which the options allow, is never found again: whatever the
-- client sends, no key is read from its cookies.
pub extract_cookie_value_unreadable :
    (s : Session) (name : Text)
    → (contains_char b'=' name ≡ true) ⊎ (contains_char b';' name ≡ true)
    → extract_cookie_value s name ≡ none
unfolding extract_cookie_value
extract_cookie_value_unreadable s name bad =
    elim (Option-cases (str_of (s.header_get (lit "cookie")))) [
      | inl e ↦ ground (arith, e)
      | inr (raw, e) ↦
          ground (arith, e, find_pair_unreadable name bad (split b';' raw) (split-All b';' raw))
    ]
