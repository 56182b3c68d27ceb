-- ===== src/Text.antt =====
-- Rust's `str` and `String` as lists of code points, with the methods of the standard library that
-- the source calls on them. A byte offset is a sum of UTF-8 widths, and a slice at an offset that
-- is out of range or inside a character panics, as it does in Rust.
pub mod Laws
pub mod Splitting
pub mod Numbers
use Prim.Native.Char.{code}
use Prim.Native.String.{String}
use neemata_proxy.Common.{
  ℕ, zero, suc, ◌+◌, ◌-◌, ◌≤◌, ◌<◌, ◌≡◌, refl, Bool, true, false, ◌&&◌, ◌||◌, not, Option, none,
  some, List, [], ◌∷◌, ◌++◌, arith, ltb, leb, if◌then◌else◌, ◌==◌, nat_eq, list_eq, list_beq_iff,
  ◌↔◌,
}

abbrev pub Text : Type 0
Text = List ℕ

-- A string literal.
unfoldable pub lit : String → Text
lit String.[] = []
lit (String.◌∷◌ c s) = code c ∷ lit s

-- What may panic.
pub data Run {ℓ} (A : Type ℓ) : Type ℓ where
  panicked : Run A
  returned : A → Run A

unfoldable pub in_range : ℕ → ℕ → ℕ → Bool
in_range lo hi c = leb lo c && leb c hi

unfoldable pub is_ascii_digit : ℕ → Bool
unfolding in_range
is_ascii_digit c = in_range b'0' b'9' c

unfoldable pub is_ascii_uppercase : ℕ → Bool
unfolding in_range
is_ascii_uppercase c = in_range b'A' b'Z' c

unfoldable pub is_ascii_lowercase : ℕ → Bool
unfolding in_range
is_ascii_lowercase c = in_range b'a' b'z' c

unfoldable pub is_ascii_alphanumeric : ℕ → Bool
unfolding is_ascii_digit is_ascii_uppercase is_ascii_lowercase
is_ascii_alphanumeric c = is_ascii_lowercase c || is_ascii_uppercase c || is_ascii_digit c

-- char::to_ascii_lowercase
unfoldable pub lower : ℕ → ℕ
unfolding is_ascii_uppercase
lower c = if is_ascii_uppercase c then c + 32 else c

-- str::to_ascii_lowercase
unfoldable pub to_ascii_lowercase : Text → Text
unfolding lower
to_ascii_lowercase [] = []
to_ascii_lowercase (c ∷ s) = lower c ∷ to_ascii_lowercase s

-- char::is_whitespace, the White_Space property of Unicode
unfoldable pub is_whitespace : ℕ → Bool
unfolding in_range
is_whitespace c =
    in_range 0x9 0xd c
    || c == 0x20
    || c == 0x85
    || c == 0xa0
    || c == 0x1680
    || in_range 0x2000 0x200a c
    || c == 0x2028
    || c == 0x2029
    || c == 0x202f
    || c == 0x205f
    || c == 0x3000

-- char::len_utf8
unfoldable pub len_utf8 : ℕ → ℕ
len_utf8 c = if ltb c 0x80 then 1 else if ltb c 0x800 then 2 else if ltb c 0x10000 then 3 else 4

-- str::len, in bytes
unfoldable pub len : Text → ℕ
unfolding len_utf8
len [] = 0
len (c ∷ s) = len_utf8 c + len s

unfoldable pub is_empty : Text → Bool
is_empty [] = true
is_empty (_ ∷ _) = false

-- s.strip_prefix(p)
unfoldable pub strip_prefix : Text → Text → Option Text
strip_prefix [] s = some s
strip_prefix (_ ∷ _) [] = none
strip_prefix (x ∷ p) (y ∷ s) = if x == y then strip_prefix p s else none

abbrev pub is_some {ℓ} : {A : Type ℓ} → Option A → Bool
is_some none = false
is_some (some _) = true

-- s.starts_with(p)
unfoldable pub starts_with : Text → Text → Bool
unfolding strip_prefix
starts_with p s = is_some (strip_prefix p s)

-- s.starts_with(c) and s.ends_with(c), for a character
unfoldable pub starts_with_char : ℕ → Text → Bool
starts_with_char c [] = false
starts_with_char c (x ∷ s) = x == c

unfoldable pub ends_with_char : ℕ → Text → Bool
ends_with_char c [] = false
ends_with_char c (x ∷ []) = x == c
ends_with_char c (x ∷ y ∷ s) = ends_with_char c (y ∷ s)

-- s.contains(c)
unfoldable pub contains_char : ℕ → Text → Bool
contains_char c [] = false
contains_char c (x ∷ s) = x == c || contains_char c s

-- s.find(c): the byte offset of the first c
unfoldable pub find_char : ℕ → Text → Option ℕ
unfolding len_utf8
find_char c [] = none
find_char c (x ∷ s) =
    if x == c then some 0 else elim (find_char c s) [ none ↦ none | some n ↦ some (len_utf8 x + n) ]

-- &s[n..]
unfoldable pub slice_from : ℕ → Text → Run Text
unfolding len_utf8
slice_from n [] = if n == 0 then returned [] else panicked
slice_from n (c ∷ s) =
    if n == 0
    then returned (c ∷ s)
    else if ltb n (len_utf8 c)
    then panicked
    else slice_from (n - len_utf8 c) s

abbrev pub cons_run : ℕ → Run Text → Run Text
cons_run c panicked = panicked
cons_run c (returned s) = returned (c ∷ s)

-- &s[..n]
unfoldable pub slice_to : ℕ → Text → Run Text
unfolding len_utf8
slice_to n [] = if n == 0 then returned [] else panicked
slice_to n (c ∷ s) =
    if n == 0
    then returned []
    else if ltb n (len_utf8 c)
    then panicked
    else cons_run c (slice_to (n - len_utf8 c) s)

-- s.trim_start(), s.trim_end(), s.trim()
unfoldable pub trim_start : Text → Text
trim_start [] = []
trim_start (c ∷ s) = if is_whitespace c then trim_start s else c ∷ s

abbrev pub keep_end : ℕ → Bool → Text → Text
keep_end c white [] = if white then [] else c ∷ []
keep_end c white (x ∷ s) = c ∷ x ∷ s

unfoldable pub trim_end : Text → Text
trim_end [] = []
trim_end (c ∷ s) = keep_end c (is_whitespace c) (trim_end s)

unfoldable pub trim : Text → Text
unfolding trim_start trim_end
trim s = trim_end (trim_start s)

pub text_iff : (a b : Text) → ((a == b) ≡ true) ↔ (a ≡ b)
text_iff a b = list_beq_iff a b
