-- ===== src/Router/Path.antt =====
-- src/router.rs: the first path segment of a request, and its removal before the request goes
-- upstream. A borrowed and an owned `Cow` are the same text here.
pub mod Laws
pub mod Segments
use neemata_proxy.Common.{
  ℕ, ◌+◌, ◌||◌, not, Option, none, some, List, [], ◌∷◌, ◌++◌, ltb, if◌then◌else◌,
}
use neemata_proxy.Text.{
  Text, Run, panicked, returned, is_empty, len, starts_with, starts_with_char, slice_from,
}
use neemata_proxy.Text.Splitting.{split, split_once}

-- parts.filter(|p| !p.is_empty()).next()
unfoldable pub first_non_empty : List Text → Option Text
unfolding is_empty
first_non_empty [] = none
first_non_empty (p ∷ ps) = if is_empty p then first_non_empty ps else some p

-- The argument is `uri.path()`.
unfoldable pub extract_first_path_segment : Text → Option Text
unfolding split first_non_empty
extract_first_path_segment path = first_non_empty (split b'/' path)

infixl 5 ◌>>=◌
abbrev pub ◌>>=◌ {ℓ κ} : {A : Type ℓ} {B : Type κ} → Run A → (A → Run B) → Run B
panicked >>= f = panicked
returned a >>= f = f a

-- A path with its query string put back.
abbrev pub with_query : Text → Option Text → Text
with_query path none = path
with_query path (some q) = path ++ b'?' ∷ q

-- The end of the function, from `remainder` on.
unfoldable pub rewrite : Text → Option Text → Option Text
unfolding is_empty starts_with_char
rewrite remainder query =
    if is_empty remainder
    then some (with_query (b'/' ∷ []) query)
    else if starts_with_char b'/' remainder
    then some (with_query remainder query)
    else none

-- The part after the query string has been split off.
unfoldable pub strip_path : Text → Option Text → Text → Run (Option Text)
unfolding len starts_with starts_with_char slice_from rewrite
strip_path path query segment =
    let prefix_len = len segment + 1 in
    if not (starts_with_char b'/' path) || ltb (len path) prefix_len
    then returned none
    else slice_from 1 path >>= λ after_slash.
        if not (starts_with segment after_slash)
        then returned none
        else slice_from prefix_len path >>= λ remainder. returned (rewrite remainder query)

unfoldable pub strip_first_path_segment : Text → Text → Run (Option Text)
unfolding split_once strip_path
strip_first_path_segment path_and_query segment = elim (split_once b'?' path_and_query) [
  | none ↦ strip_path path_and_query none segment
  | some (p, q) ↦ strip_path p (some q) segment
]
