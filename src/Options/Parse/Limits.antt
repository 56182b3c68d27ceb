-- ===== src/Options/Parse/Limits.antt =====
-- The checks that the accepted limits ask for.
use neemata_proxy.Common.{
  append-nil, ℕ, ◌≡◌, refl, ap, sym, ◌∙◌, Option, none, some, false, List, [], ◌∷◌, ◌++◌, eqb,
  arith, length, if◌then◌else◌,
}
use neemata_proxy.Text.{Text, lit}
use neemata_proxy.Errors.{Result, ok, ◌>>=◌, >>=-eq-ok}
use neemata_proxy.Options.{
  Nullable, given, null, ProxyLimitCheckParsed, ProxyLimitsOptions, ProxyLimitsOptionsParsed,
  disabled, enabled, uri_bytes, request_headers, single_header_bytes, request_header_bytes,
  request_body_bytes,
}
use neemata_proxy.Options.Parse.{
  parse_nullable_positive_u32, parse_limits_options, push_check, default_limit_checks,
}
use neemata_proxy.Options.Parse.Bounds.{ok-inj, reject-eq-ok}

abbrev pub checks_of : ProxyLimitsOptionsParsed → List ProxyLimitCheckParsed
checks_of disabled = []
checks_of (enabled checks) = checks

-- The check of one limit: with the given value, or the default, or none for `null`.
abbrev pub asked_check :
    (ℕ → ProxyLimitCheckParsed) → ℕ → Option (Nullable ℕ) → List ProxyLimitCheckParsed
asked_check check fallback none = check fallback ∷ []
asked_check check fallback (some (given n)) = check n ∷ []
asked_check check fallback (some null) = []

-- The checks that the options ask for.
abbrev pub asked_checks : Option (Nullable ProxyLimitsOptions) → List ProxyLimitCheckParsed
asked_checks none =
    uri_bytes 8192
    ∷ request_headers 100
    ∷ single_header_bytes 8192
    ∷ request_header_bytes 65536
    ∷ request_body_bytes 16777216
    ∷ []
asked_checks (some null) = []
asked_checks (some (given l)) =
    asked_check uri_bytes 8192 l.max_uri_size
    ++ (asked_check request_headers 100 l.max_request_headers
        ++ (asked_check single_header_bytes 8192 l.max_single_header_size
            ++ (asked_check request_header_bytes 65536 l.max_request_header_size
                ++ asked_check request_body_bytes 16777216 l.max_request_body_size)))

-- The next limit is read, and its check comes in front.
next_check {ℓ} :
    {A : Type ℓ} (check : ℕ → ProxyLimitCheckParsed) (field : Text) (value : Option (Nullable ℕ))
    (fallback : ℕ) (f : Option ℕ → Result A) {a : A}
    → (parse_nullable_positive_u32 field value fallback >>= f) ≡ ok a
    → (o : Option ℕ) × ((rest : List ProxyLimitCheckParsed)
        → push_check check o rest ≡ asked_check check fallback value ++ rest)
      × (f o ≡ ok a)
unfolding parse_nullable_positive_u32
next_check check field (some null) fallback f h = (none, λ rest. refl, h)
next_check check field (some (given n)) fallback f h =
    let (o, e, last) =
      >>=-eq-ok (parse_nullable_positive_u32 field (some (given n)) fallback) f h in
    let (_, same) = reject-eq-ok (eqb n 0) _ _ e in
    (o, λ rest. ap (λ o. push_check check o rest) (sym (ok-inj same)), last)
next_check check field none fallback f h =
    let (o, e, last) = >>=-eq-ok (parse_nullable_positive_u32 field none fallback) f h in
    let (_, same) = reject-eq-ok (eqb fallback 0) _ _ e in
    (o, λ rest. ap (λ o. push_check check o rest) (sym (ok-inj same)), last)

enabled_checks :
    (checks : List ProxyLimitCheckParsed)
    → checks_of (if eqb (length checks) 0 then disabled else enabled checks) ≡ checks
enabled_checks [] = refl
enabled_checks (c ∷ cs) = let full : eqb (length (c ∷ cs)) 0 ≡ false = ground arith in rw full refl

pub parse_limits_options-checks :
    (o : Option (Nullable ProxyLimitsOptions)) (parsed : ProxyLimitsOptionsParsed)
    → parse_limits_options o ≡ ok parsed
    → checks_of parsed ≡ asked_checks o
unfolding parse_limits_options default_limit_checks
parse_limits_options-checks none parsed h = ap checks_of (sym (ok-inj h))
parse_limits_options-checks (some null) parsed h = ap checks_of (sym (ok-inj h))
parse_limits_options-checks (some (given l)) parsed h =
    let (uri, u, h1) = next_check uri_bytes (lit "limits.maxUriSize") l.max_uri_size _ _ h in
    let (count, c, h2) =
      next_check request_headers (lit "limits.maxRequestHeaders") l.max_request_headers _ _ h1 in
    let (single, s, h3) =
      next_check single_header_bytes (lit "limits.maxSingleHeaderSize") l.max_single_header_size _ _
        h2 in
    let (header, e, h4) =
      next_check request_header_bytes (lit "limits.maxRequestHeaderSize") l.max_request_header_size
        _ _ h3 in
    let (body, b, last) =
      next_check request_body_bytes (lit "limits.maxRequestBodySize") l.max_request_body_size _ _
        h4 in
    ap checks_of (sym (ok-inj last))
    ∙ enabled_checks _
    ∙ u _
    ∙ ap (◌++◌ _) (c _ ∙ ap (◌++◌ _) (s _ ∙ ap (◌++◌ _) (e _ ∙ ap (◌++◌ _) (b [] ∙ append-nil _))))
