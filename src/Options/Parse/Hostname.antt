-- ===== src/Options/Parse/Hostname.antt =====
-- What `is_hostname_like` accepts, in terms of dotted labels.
use neemata_proxy.Common.{
  ℕ, ◌≤◌, ◌≡◌, ◌≢◌, refl, ap, sym, ◌∙◌, ◌⊎◌, inl, inr, true, false, List, [], ◌∷◌, ◌++◌, arith, all,
  All, ◌==◌, list_eq, nat_eq, Bool-cases,
}
use neemata_proxy.Text.{
  Text, is_empty, len, starts_with_char, ends_with_char, is_ascii_alphanumeric,
}
use neemata_proxy.Text.Splitting.{split}
use neemata_proxy.Options.Parse.{is_label_char, is_label, is_hostname_like}

-- A letter, a digit or `-`.
abbrev pub IsLabelChar : ℕ → Type 0
IsLabelChar c =
    ((b'a' ≤ c) × (c ≤ b'z')) ⊎ ((b'A' ≤ c) × (c ≤ b'Z')) ⊎ ((b'0' ≤ c) × (c ≤ b'9')) ⊎ (c ≡ b'-')

-- One label of a host name: 1 to 63 letters, digits and `-`, without `-` at its ends.
pub record IsLabel (label : Text) : Type 0 where
  pub full : label ≢ []
  pub short : len label ≤ 63
  pub front : (rest : Text) → label ≢ b'-' ∷ rest
  pub back : (start : Text) → label ≢ start ++ b'-' ∷ []
  pub plain : All IsLabelChar label

-- Labels with dots between them.
abbrev pub dotted : Text → List Text → Text
dotted label [] = label
dotted label (next ∷ labels) = label ++ b'.' ∷ dotted next labels

-- A host name is one label or several with dots between them.
abbrev pub IsHostname : Text → Type 0
IsHostname value =
    (label : Text) × (labels : List Text) × (value ≡ dotted label labels)
    × All IsLabel (label ∷ labels)

label_char : (c : ℕ) → is_label_char c ≡ true → IsLabelChar c
unfolding is_label_char is_ascii_alphanumeric
label_char c h = ground arith

label_chars : (s : Text) → all is_label_char s ≡ true → All IsLabelChar s
label_chars [] h = tt
label_chars (c ∷ s) h = (label_char c (ground arith), label_chars s (ground arith))

ends : (c : ℕ) (start : Text) → ends_with_char c (start ++ c ∷ []) ≡ true
unfolding ends_with_char
ends c [] = ground arith
ends c (x ∷ []) = ground arith
ends c (x ∷ y ∷ start) = ends c (y ∷ start)

is_label-IsLabel : (label : Text) → is_label label ≡ true → IsLabel label
unfolding is_label is_empty starts_with_char
is_label-IsLabel label h =
    let last : ends_with_char b'-' label ≡ false = ground arith in
    record {
      full = λ e. absurd (ground (arith, e));
      short = ground arith;
      front = λ rest e. absurd (ground (arith, e));
      back = λ start e. absurd (ground (arith, last, ap (ends_with_char b'-') e, ends b'-' start));
      plain = label_chars label (ground arith);
    }

labels-All : (labels : List Text) → all is_label labels ≡ true → All IsLabel labels
labels-All [] h = tt
labels-All (label ∷ labels) h =
    (is_label-IsLabel label (ground arith), labels-All labels (ground arith))

dotted-cons :
    (x : ℕ) (label : Text) (labels : List Text)
    → dotted (x ∷ label) labels ≡ x ∷ dotted label labels
dotted-cons x label [] = refl
dotted-cons x label (next ∷ labels) = refl

-- A text is its pieces with the character between them.
pieces :
    (s : Text)
    → (label : Text) × (labels : List Text) × (split b'.' s ≡ label ∷ labels)
      × (s ≡ dotted label labels)
unfolding split
pieces [] = ([], [], refl, refl)
pieces (x ∷ s) =
    let (label, labels, cut, same) = pieces s in
    elim (Bool-cases (x == b'.')) [
      | inl dot ↦ (
        [],
        label ∷ labels,
        ground (arith, dot, cut),
        ap (◌∷◌ x) same ∙ ap (λ c. c ∷ dotted label labels) (ground (arith, dot)),
      )
      | inr other ↦ (
        x ∷ label,
        labels,
        ground (arith, other, cut),
        ap (◌∷◌ x) same ∙ sym (dotted-cons x label labels),
      )
    ]

pub is_hostname_like-IsHostname : (value : Text) → is_hostname_like value ≡ true → IsHostname value
unfolding is_hostname_like
is_hostname_like-IsHostname value h =
    let (label, labels, cut, same) = pieces value in
    let good : all is_label (split b'.' value) ≡ true = ground arith in
    (label, labels, same, labels-All (label ∷ labels) (ap (all is_label) (sym cut) ∙ good))
