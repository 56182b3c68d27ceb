-- ===== src/Options/Parse/Bounds.antt =====
-- Limits, timeouts and the sticky table's sizes are greater than 0 when they are accepted.
use neemata_proxy.Common.{
  ℕ, ◌<◌, ◌≡◌, refl, subst, Bool, true, false, Option, none, some, List, [], ◌∷◌, eqb,
  if◌then◌else◌, arith, All, length,
}
use neemata_proxy.Text.{Text, lit, is_empty, trim, trim_start, trim_end, is_whitespace}
use neemata_proxy.Errors.{Result, ok, ◌>>=◌, >>=-eq-ok, throw_type_error}
use neemata_proxy.Options.{
  Nullable, given, null, ProxyLimitCheckParsed, ProxyLimitsOptions, ProxyLimitsOptionsParsed,
  disabled, enabled, uri_bytes, request_headers, single_header_bytes, request_header_bytes,
  request_body_bytes, ProxyTimeoutOptions, ProxyTimeoutOptionsParsed, StickySessionOptions,
  StickySessionOptionsParsed,
}
use neemata_proxy.Options.Parse.{
  default_max_uri_bytes, default_max_request_headers, default_max_single_header_bytes,
  default_max_request_header_bytes, default_max_request_body_bytes,
  default_downstream_header_timeout_ms, default_downstream_body_idle_timeout_ms,
  default_upstream_connect_timeout_ms, default_upstream_read_timeout_ms,
  default_upstream_write_timeout_ms, default_downstream_keep_alive_timeout_seconds, unwrap_or,
  reject_proxy_if, parse_nullable_positive_u32, parse_positive_u32, push_check,
  default_limit_checks, parse_limits_options, default_timeouts, parse_timeout_options,
  parse_sticky_session_options,
}

-- A limit that lets something pass.
abbrev pub limit_of : ProxyLimitCheckParsed → ℕ
limit_of (uri_bytes n) = n
limit_of (request_headers n) = n
limit_of (single_header_bytes n) = n
limit_of (request_header_bytes n) = n
limit_of (request_body_bytes n) = n

abbrev pub ArePositive : ProxyLimitsOptionsParsed → Type 0
ArePositive disabled = Unit {0}
ArePositive (enabled checks) = (0 < length checks) × All (λ check. 0 < limit_of check) checks

abbrev pub IsPositive : Option ℕ → Type 0
IsPositive none = Unit {0}
IsPositive (some n) = 0 < n

pub ok-inj {ℓ} : {A : Type ℓ} {a b : A} → Path (Result A) (ok a) (ok b) → a ≡ b
ok-inj h = cc

pub positive_of_test : (n : ℕ) → eqb n 0 ≡ false → 0 < n
positive_of_test n h = ground arith

pub reject-eq-ok {ℓ} :
    {A : Type ℓ} (test : Bool) (msg : Text) (k : Result A) {a : A}
    → (reject_proxy_if test msg >>= (λ _. k)) ≡ ok a
    → (test ≡ false) × (k ≡ ok a)
unfolding throw_type_error
reject-eq-ok true msg k h = absurd (cc)
reject-eq-ok false msg k h = (refl, h)

pub nullable-IsPositive :
    (field : Text) (value : Option (Nullable ℕ)) (fallback : ℕ) (o : Option ℕ)
    → parse_nullable_positive_u32 field value fallback ≡ ok o
    → IsPositive o
unfolding parse_nullable_positive_u32
nullable-IsPositive field (some null) fallback o h = subst IsPositive (ok-inj h) tt
nullable-IsPositive field (some (given n)) fallback o h =
    let (pos, same) = reject-eq-ok (eqb n 0) _ _ h in
    subst IsPositive (ok-inj same) (ground (arith, pos))
nullable-IsPositive field none fallback o h =
    let (pos, same) = reject-eq-ok (eqb fallback 0) _ _ h in
    subst IsPositive (ok-inj same) (ground (arith, pos))

pub positive_u32 :
    (field : Text) (value : Option ℕ) (fallback n : ℕ)
    → parse_positive_u32 field value fallback ≡ ok n
    → 0 < n
unfolding parse_positive_u32
positive_u32 field none fallback n h =
    let (pos, same) = reject-eq-ok (eqb fallback 0) _ _ h in
    subst (λ m. 0 < m) (ok-inj same) (ground (arith, pos))
positive_u32 field (some m) fallback n h =
    let (pos, same) = reject-eq-ok (eqb m 0) _ _ h in
    subst (λ m. 0 < m) (ok-inj same) (ground (arith, pos))

pub next_limit {ℓ} :
    {A : Type ℓ} (field : Text) (value : Option (Nullable ℕ)) (fallback : ℕ)
    (f : Option ℕ → Result A) {a : A}
    → (parse_nullable_positive_u32 field value fallback >>= f) ≡ ok a
    → (o : Option ℕ) × IsPositive o × (f o ≡ ok a)
next_limit field value fallback f h =
    let (o, e, rest) = >>=-eq-ok (parse_nullable_positive_u32 field value fallback) f h in
    (o, nullable-IsPositive field value fallback o e, rest)

pub next_timeout {ℓ} :
    {A : Type ℓ} (field : Text) (value : Option ℕ) (fallback : ℕ) (f : ℕ → Result A) {a : A}
    → (parse_positive_u32 field value fallback >>= f) ≡ ok a
    → (n : ℕ) × (0 < n) × (f n ≡ ok a)
next_timeout field value fallback f h =
    let (n, e, rest) = >>=-eq-ok (parse_positive_u32 field value fallback) f h in
    (n, positive_u32 field value fallback n e, rest)

pub push-ArePositive :
    (check : ℕ → ProxyLimitCheckParsed) (o : Option ℕ) (rest : List ProxyLimitCheckParsed)
    → ((n : ℕ) → limit_of (check n) ≡ n)
    → IsPositive o
    → All (λ c. 0 < limit_of c) rest
    → All (λ c. 0 < limit_of c) (push_check check o rest)
push-ArePositive check none rest same p ps = ps
push-ArePositive check (some n) rest same p ps = (rw (same n) p, ps)

pub checks-ArePositive :
    (checks : List ProxyLimitCheckParsed)
    → All (λ c. 0 < limit_of c) checks
    → ArePositive (if eqb (length checks) 0 then disabled else enabled checks)
checks-ArePositive [] ps = tt
checks-ArePositive (c ∷ cs) ps =
    let some_check : eqb (length (c ∷ cs)) 0 ≡ false = ground arith in
    rw some_check (omega arith, ps)

pub limits-ArePositive :
    (o : Option (Nullable ProxyLimitsOptions)) (parsed : ProxyLimitsOptionsParsed)
    → parse_limits_options o ≡ ok parsed
    → ArePositive parsed
unfolding parse_limits_options default_limit_checks
limits-ArePositive none parsed h =
    subst ArePositive (ok-inj h)
      (omega arith, (omega arith, (omega arith, (omega arith, (omega arith, (omega arith, tt))))))
limits-ArePositive (some null) parsed h = subst ArePositive (ok-inj h) tt
limits-ArePositive (some (given limits)) parsed h =
    let (uri, u, h1) =
      next_limit (lit "limits.maxUriSize") limits.max_uri_size default_max_uri_bytes _ h in
    let (count, c, h2) =
      next_limit (lit "limits.maxRequestHeaders") limits.max_request_headers
        default_max_request_headers _ h1 in
    let (single, s, h3) =
      next_limit (lit "limits.maxSingleHeaderSize") limits.max_single_header_size
        default_max_single_header_bytes _ h2 in
    let (header, e, h4) =
      next_limit (lit "limits.maxRequestHeaderSize") limits.max_request_header_size
        default_max_request_header_bytes _ h3 in
    let (body, b, last) =
      next_limit (lit "limits.maxRequestBodySize") limits.max_request_body_size
        default_max_request_body_bytes _ h4 in
    subst ArePositive (ok-inj last) (
      checks-ArePositive _ (
        push-ArePositive uri_bytes uri _ (λ n. refl) u
          (push-ArePositive request_headers count _ (λ n. refl) c
            (push-ArePositive single_header_bytes single _ (λ n. refl) s
              (push-ArePositive request_header_bytes header _ (λ n. refl) e
                (push-ArePositive request_body_bytes body _ (λ n. refl) b tt))))))

-- No timeout is 0.
pub record AreTimeouts (t : ProxyTimeoutOptionsParsed) : Type 0 where
  pub header : 0 < t.downstream_header_timeout_ms
  pub body : 0 < t.downstream_body_idle_timeout_ms
  pub connect : 0 < t.upstream_connect_timeout_ms
  pub read : 0 < t.upstream_read_timeout_ms
  pub write : 0 < t.upstream_write_timeout_ms
  pub keep_alive : 0 < t.downstream_keep_alive_timeout_seconds

pub timeouts-AreTimeouts :
    (o : Option ProxyTimeoutOptions) (parsed : ProxyTimeoutOptionsParsed)
    → parse_timeout_options o ≡ ok parsed
    → AreTimeouts parsed
unfolding parse_timeout_options default_timeouts
timeouts-AreTimeouts none parsed h = subst AreTimeouts (ok-inj h) (record {
  header = omega arith;
  body = omega arith;
  connect = omega arith;
  read = omega arith;
  write = omega arith;
  keep_alive = omega arith;
})
timeouts-AreTimeouts (some t) parsed h =
    let (header, e1, h1) =
      next_timeout (lit "timeouts.downstreamHeader") t.downstream_header
        default_downstream_header_timeout_ms _ h in
    let (body, e2, h2) =
      next_timeout (lit "timeouts.downstreamBodyIdle") t.downstream_body_idle
        default_downstream_body_idle_timeout_ms _ h1 in
    let (connect, e3, h3) =
      next_timeout (lit "timeouts.upstreamConnect") t.upstream_connect
        default_upstream_connect_timeout_ms _ h2 in
    let (read, e4, h4) =
      next_timeout (lit "timeouts.upstreamRead") t.upstream_read default_upstream_read_timeout_ms _
        h3 in
    let (write, e5, h5) =
      next_timeout (lit "timeouts.upstreamWrite") t.upstream_write default_upstream_write_timeout_ms
        _ h4 in
    let (keep_alive, e6, last) =
      next_timeout (lit "timeouts.downstreamKeepAlive") t.downstream_keep_alive
        default_downstream_keep_alive_timeout_seconds _ h5 in
    subst AreTimeouts (ok-inj last)
      (record { header = e1; body = e2; connect = e3; read = e4; write = e5; keep_alive = e6 })

-- A sticky table can hold an entry for a time, under names that are not blank.
pub record IsStickyOptions (s : StickySessionOptionsParsed) : Type 0 where
  pub cookie : is_empty (trim s.cookie_name) ≡ false
  pub header : is_empty (trim s.header_name) ≡ false
  pub ttl : 0 < s.ttl_ms
  pub room : 0 < s.max_entries

pub default_names_fine :
    (is_empty (trim (lit "nmt_affinity")) ≡ false)
    × (is_empty (trim (lit "x-nmt-affinity-key")) ≡ false)
unfolding is_empty trim trim_start trim_end is_whitespace lit
default_names_fine = (refl, refl)

pub sticky-IsStickyOptions :
    (o : Option StickySessionOptions) (parsed : StickySessionOptionsParsed)
    → parse_sticky_session_options o ≡ ok parsed
    → IsStickyOptions parsed
unfolding parse_sticky_session_options
sticky-IsStickyOptions none parsed h = subst IsStickyOptions (ok-inj h) (record {
  cookie = default_names_fine.0;
  header = default_names_fine.1;
  ttl = omega arith;
  room = omega arith;
})
sticky-IsStickyOptions (some t) parsed h =
    let (cookie, h1) =
      reject-eq-ok (is_empty (trim (unwrap_or (lit "nmt_affinity") t.cookie_name)))
        (lit "stickySessions.cookieName must be non-empty") _ h in
    let (header, h2) =
      reject-eq-ok (is_empty (trim (unwrap_or (lit "x-nmt-affinity-key") t.header_name)))
        (lit "stickySessions.headerName must be non-empty") _ h1 in
    let (ttl, h3) =
      reject-eq-ok (eqb (unwrap_or 600000 t.ttl_ms) 0)
        (lit "stickySessions.ttlMs must be greater than 0") _ h2 in
    let (room, last) =
      reject-eq-ok (eqb (unwrap_or 20000 t.max_entries) 0)
        (lit "stickySessions.maxEntries must be greater than 0") _ h3 in
    subst IsStickyOptions (ok-inj last) (record {
      cookie = cookie;
      header = header;
      ttl = positive_of_test _ ttl;
      room = positive_of_test _ room;
    })
