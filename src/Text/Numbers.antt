-- ===== src/Text/Numbers.antt =====
-- Numbers as text: `{}` and `{:x}` of an unsigned integer, and `str::parse::<u64>`.
use neemata_proxy.Common.{
  ℕ, zero, suc, ◌+◌, ◌-◌, ◌*◌, ◌/◌, ◌%◌, ◌^◌, ◌≤◌, ◌<◌, ◌≡◌, refl, true, ◌&&◌, Option, none, some,
  [], ◌∷◌, arith, ltb, if◌then◌else◌, ◌==◌, nat_eq, all, length,
}
use native.Mathlib.Nat.{pow-suc, mod-lt}
use neemata_proxy.Text.{Text, in_range, is_ascii_digit, is_ascii_lowercase, is_ascii_alphanumeric}

-- A digit below 16, in lower case.
unfoldable pub digit : ℕ → ℕ
digit d = if ltb d 10 then b'0' + d else d + 87

-- The digits of n in front of those that are already there. The fuel n + 1 is enough: a step
-- divides n by the base.
unfoldable pub digits : ℕ → ℕ → ℕ → Text → Text
unfolding digit
digits zero base n acc = acc
digits (suc fuel) base n acc =
    let more = digits fuel base (n / base) (digit (n % base) ∷ acc) in
    if ltb n base then digit n ∷ acc else more

unfoldable pub to_decimal : ℕ → Text
unfolding digits
to_decimal n = digits (suc n) 10 n []

unfoldable pub to_hex : ℕ → Text
unfolding digits
to_hex n = digits (suc n) 16 n []

abbrev pub u64_end : ℕ
u64_end = 2 ^ 64

-- The digits of an unsigned number, with the value so far.
unfoldable pub parse_digits : ℕ → Text → Option ℕ
unfolding is_ascii_digit
parse_digits value [] = some value
parse_digits value (c ∷ s) =
    let next = value * 10 + (c - b'0') in
    if is_ascii_digit c && ltb next u64_end then parse_digits next s else none

-- value.parse::<u64>().ok()
unfoldable pub parse_u64 : Text → Option ℕ
unfolding parse_digits
parse_u64 [] = none
parse_u64 (c ∷ []) = if c == b'+' then none else parse_digits 0 (c ∷ [])
parse_u64 (c ∷ d ∷ s) = if c == b'+' then parse_digits 0 (d ∷ s) else parse_digits 0 (c ∷ d ∷ s)

digit_alphanumeric : (d : ℕ) → d < 16 → is_ascii_alphanumeric (digit d) ≡ true
unfolding digit is_ascii_alphanumeric is_ascii_digit is_ascii_lowercase in_range
digit_alphanumeric d h = ground arith

digits_alphanumeric :
    (base fuel n : ℕ) (acc : Text)
    → 0 < base
    → base ≤ 16
    → all is_ascii_alphanumeric acc ≡ true
    → all is_ascii_alphanumeric (digits fuel base n acc) ≡ true
unfolding digits
digits_alphanumeric base zero n acc pos le h = h
digits_alphanumeric base (suc fuel) n acc pos le h = ground (
  arith,
  digit_alphanumeric n,
  digit_alphanumeric (n % base),
  mod-lt n pos,
  digits_alphanumeric base fuel (n / base) (digit (n % base) ∷ acc) pos le,
)

pub to_hex_alphanumeric : (n : ℕ) → all is_ascii_alphanumeric (to_hex n) ≡ true
unfolding to_hex
to_hex_alphanumeric n = digits_alphanumeric 16 (suc n) n [] (omega arith) (omega arith) refl

pub to_decimal_alphanumeric : (n : ℕ) → all is_ascii_alphanumeric (to_decimal n) ≡ true
unfolding to_decimal
to_decimal_alphanumeric n = digits_alphanumeric 10 (suc n) n [] (omega arith) (omega arith) refl

-- A number below 16 ^ (k + 1) has k + 1 digits at most.
length-digits :
    (k fuel n : ℕ) (acc : Text)
    → n < 16 ^ suc k
    → length (digits fuel 16 n acc) ≤ suc k + length acc
unfolding digits
length-digits k zero n acc h = omega arith
length-digits zero (suc fuel) n acc h = ground arith
length-digits (suc k) (suc fuel) n acc h =
    ground (arith, length-digits k fuel (n / 16) (digit (n % 16) ∷ acc) (smaller k n h))
  where
    smaller : (k n : ℕ) → n < 16 ^ suc (suc k) → n / 16 < 16 ^ suc k
    smaller k n h = omega (arith, pow-suc 16 (suc k))

pub length-to_hex : (k n : ℕ) → n < 16 ^ suc k → length (to_hex n) ≤ suc k
unfolding to_hex
length-to_hex k n h = omega (arith, length-digits k (suc n) n [] h)

digits_non_empty : (fuel n : ℕ) (acc : Text) → 0 < length acc → 0 < length (digits fuel 16 n acc)
unfolding digits
digits_non_empty zero n acc h = h
digits_non_empty (suc fuel) n acc h =
    ground (arith, digits_non_empty fuel (n / 16) (digit (n % 16) ∷ acc))

pub to_hex_non_empty : (n : ℕ) → 0 < length (to_hex n)
unfolding to_hex digits
to_hex_non_empty n = ground (arith, digits_non_empty n (n / 16) (digit (n % 16) ∷ []))
