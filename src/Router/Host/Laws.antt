-- ===== src/Router/Host/Laws.antt =====
-- What `strip_port_str` returns, and that the host of a request is in lower case.
use neemata_proxy.Common.{
  ◌+◌, ◌≡◌, refl, ap, sym, ◌∙◌, ◌≢◌, ◌⊎◌, Bool, true, false, ◌&&◌, not, none, some, [], ◌∷◌, ◌++◌,
  arith, all, any, Bool-cases, Option-cases, inl, inr, eqb_iff, ◌==◌, nat_eq, append_assoc,
}
use neemata_proxy.Text.{
  Text, Run, panicked, returned, is_empty, is_ascii_digit, is_ascii_uppercase, lower,
  to_ascii_lowercase, strip_prefix, find_char, slice_to, contains_char, starts_with_char, len,
  len_utf8, in_range,
}
use neemata_proxy.Text.Laws.{
  find_char-eq-some, find_char-eq-none, slice_to-append, to_ascii_lowercase_idem, len-append,
}
use neemata_proxy.Text.Splitting.{rsplit_once, rsplit_once-eq-some, rsplit_once-append}
use neemata_proxy.Router.Session.{Session}
use neemata_proxy.Router.Host.{
  without_port, strip_port_str, normalize_host, host_header, extract_host,
}

run-cases {ℓ} : {A : Type ℓ} (m : Run A) → (m ≡ panicked) ⊎ ((a : A) × (m ≡ returned a))
run-cases panicked = inl refl
run-cases (returned a) = inr (a, refl)

-- The part of a host header that names the host.
pub data IsHostPart (host r : Text) : Type 0 where
  bracketed :
      (p rest : Text)
      → contains_char b']' p ≡ false
      → host ≡ b'[' ∷ p ++ b']' ∷ rest
      → r ≡ b'[' ∷ p ++ b']' ∷ []
      → IsHostPart host r
  unclosed :
      (p : Text) → contains_char b']' p ≡ false → host ≡ b'[' ∷ p → r ≡ host → IsHostPart host r
  with_port :
      (port : Text)
      → starts_with_char b'[' host ≡ false
      → r ≢ []
      → all is_ascii_digit port ≡ true
      → host ≡ r ++ b':' ∷ port
      → IsHostPart host r
  plain :
      starts_with_char b'[' host ≡ false
      → ((h port : Text) → h ≢ [] → host ≡ h ++ b':' ∷ port → all is_ascii_digit port ≡ false)
      → r ≡ host
      → IsHostPart host r

digits-free : (s : Text) → all is_ascii_digit s ≡ true → contains_char b':' s ≡ false
unfolding contains_char is_ascii_digit in_range
digits-free [] h = refl
digits-free (c ∷ s) h = ground (arith, digits-free s)

not-true : (b : Bool) → ¬ (b ≡ true) → b ≡ false
not-true true h = absurd (h refl)
not-true false h = refl

non_empty : (h : Text) → h ≢ [] → is_empty h ≡ false
unfolding is_empty
non_empty [] ne = absurd (ne refl)
non_empty (c ∷ h) ne = refl

slice_bracketed :
    (p rest : Text)
    → slice_to (len p + 2) (b'[' ∷ p ++ b']' ∷ rest) ≡ returned (b'[' ∷ p ++ b']' ∷ [])
unfolding len len_utf8
slice_bracketed p rest =
    let same : len p + 2 ≡ len (b'[' ∷ p ++ b']' ∷ []) = omega (arith, len-append p (b']' ∷ [])) in
    let split : b'[' ∷ p ++ b']' ∷ rest ≡ (b'[' ∷ p ++ b']' ∷ []) ++ rest =
      ap (◌∷◌ b'[') (sym (append_assoc p (b']' ∷ []) rest)) in
    rw (same, split) (slice_to-append (b'[' ∷ p ++ b']' ∷ []) rest)

last_port :
    (host h port : Text)
    → host ≡ h ++ b':' ∷ port
    → all is_ascii_digit port ≡ true
    → rsplit_once b':' host ≡ some (h, port)
last_port host h port e d = rw e (rsplit_once-append b':' h port (digits-free port d))

without_port-IsHostPart :
    (host : Text)
    → starts_with_char b'[' host ≡ false
    → IsHostPart host (without_port host (rsplit_once b':' host))
unfolding without_port is_empty
without_port-IsHostPart host outside = elim (Option-cases (rsplit_once b':' host)) [
  | inl missed ↦
      plain outside (λ h port ne e. not-true _ λ d. absurd (cc (missed, last_port host h port e d)))
        (rw (missed, without_port))
  | inr ((h, p), found) ↦ elim (Bool-cases (not (is_empty h) && all is_ascii_digit p)) [
    | inl cut ↦
        let same : without_port host (rsplit_once b':' host) ≡ h = rw found (ground arith) in
        with_port p outside (λ empty. absurd (ground (arith, same))) (ground arith)
          ((rsplit_once-eq-some b':' host h p found).0 ∙ ap (λ r. r ++ b':' ∷ p) (sym same))
    | inr whole ↦
        plain outside
          (λ h' port ne e.
            not-true _
              λ d. absurd (ground (arith, found, last_port host h' port e d, non_empty h' ne)))
          (rw found (ground arith))
  ]
]

-- Of every host header `strip_port_str` returns the host part: it never panics. A bracketed address
-- keeps its brackets and loses what follows them; otherwise a last colon with nothing but digits
-- behind it is cut off, unless nothing stands in front of it.
pub strip_port_str-IsHostPart :
    (host : Text) → (r : Text) × (strip_port_str host ≡ returned r) × IsHostPart host r
unfolding strip_port_str starts_with_char strip_prefix
strip_port_str-IsHostPart [] =
    ([], refl, plain refl (λ h port ne e. absurd (ground (arith, e))) refl)
strip_port_str-IsHostPart (c ∷ host) = elim (Bool-cases (b'[' == c)) [
  | inr other ↦ (_, ground arith, without_port-IsHostPart (c ∷ host) (ground arith))
  | inl same ↦ elim (Option-cases (find_char b']' host)) [
    | inl missed ↦ (
      c ∷ host,
      ground arith,
      unclosed host (find_char-eq-none b']' host missed) (bracket same) refl,
    )
    | inr (n, found) ↦
        let (p, rest, cut, offset, free) = find_char-eq-some b']' host n found in
        let whole : c ∷ host ≡ b'[' ∷ p ++ b']' ∷ rest = bracket same ∙ ap (◌∷◌ b'[') cut in
        (
          b'[' ∷ p ++ b']' ∷ [],
          ground (arith, slice_bracketed p rest, whole),
          bracketed p rest free whole refl,
        )
  ]
]
  where
    bracket : (b'[' == c) ≡ true → c ∷ host ≡ b'[' ∷ host
    bracket e = ap (λ x. x ∷ host) (sym ((eqb_iff b'[' c).0 e))

lowercase_of_none : (s : Text) → any is_ascii_uppercase s ≡ false → to_ascii_lowercase s ≡ s
unfolding to_ascii_lowercase lower
lowercase_of_none [] h = refl
lowercase_of_none (c ∷ s) h = ground (arith, lowercase_of_none s)

pub normalize_host-lowercase :
    (host : Text)
    → (r : Text) × (strip_port_str host ≡ returned r)
      × (normalize_host host ≡ returned (to_ascii_lowercase r))
unfolding normalize_host
normalize_host-lowercase host =
    let (r, e, part) = strip_port_str-IsHostPart host in
    (r, e, ground (arith, e, lowercase_of_none r))

-- The host that routes a request is in lower case, whatever the letters of the header.
pub extract_host-lowercase :
    (s : Session) (host : Text)
    → extract_host s ≡ returned (some host)
    → to_ascii_lowercase host ≡ host
unfolding extract_host
extract_host-lowercase s host h = elim (run-cases (host_header s)) [
  | inl e ↦ absurd (ground (arith, e))
  | inr (none, e) ↦ absurd (ground (arith, e))
  | inr (some given, e) ↦
      let (r, _, lowered) = normalize_host-lowercase given in
      ground (arith, e, lowered, to_ascii_lowercase_idem r)
]
