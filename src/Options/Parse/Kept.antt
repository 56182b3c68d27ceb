-- ===== src/Options/Parse/Kept.antt =====
-- That parsed options are what was given, or the default where nothing was given.
use neemata_proxy.Common.{
  ℕ, ◌≡◌, refl, subst, true, false, Option, none, some, eqb, some-inj, list_eq, nat_eq,
}
use neemata_proxy.Text.{Text, lit, is_empty, trim}
use neemata_proxy.Errors.{Result, ok, ◌>>=◌, >>=-eq-ok}
use neemata_proxy.Options.{
  ProxyTimeoutOptions, ProxyTimeoutOptionsParsed, StickySessionOptions, StickySessionOptionsParsed,
}
use neemata_proxy.Options.Parse.{
  unwrap_or, parse_positive_u32, parse_timeout_options, default_timeouts,
  parse_sticky_session_options,
}
use neemata_proxy.Options.Parse.Bounds.{ok-inj, reject-eq-ok}

-- The value is the one that was given, or the default.
abbrev pub IsGiven {ℓ} : {A : Type ℓ} → Option A → A → A → Type ℓ
IsGiven none fallback value = value ≡ fallback
IsGiven (some a) fallback value = value ≡ a

-- One field of options that may be missing as a whole.
abbrev pub asked : {A B : Type 0} → (A → Option B) → Option A → Option B
asked field none = none
asked field (some a) = field a

-- Each timeout is the one that was given, or the default.
pub record AreGivenTimeouts (o : Option ProxyTimeoutOptions) (t : ProxyTimeoutOptionsParsed)
    : Type 0 where
  pub header : IsGiven (asked (λ t. t.downstream_header) o) 10000 t.downstream_header_timeout_ms
  pub body : IsGiven (asked (λ t. t.downstream_body_idle) o) 60000 t.downstream_body_idle_timeout_ms
  pub connect : IsGiven (asked (λ t. t.upstream_connect) o) 5000 t.upstream_connect_timeout_ms
  pub read : IsGiven (asked (λ t. t.upstream_read) o) 60000 t.upstream_read_timeout_ms
  pub write : IsGiven (asked (λ t. t.upstream_write) o) 60000 t.upstream_write_timeout_ms
  pub keep_alive :
      IsGiven (asked (λ t. t.downstream_keep_alive) o) 75 t.downstream_keep_alive_timeout_seconds

-- Sticky sessions are off unless they are asked for, and then on unless that is turned off; the
-- names and sizes are those that were given, or the defaults.
pub record IsGivenSticky (o : Option StickySessionOptions) (s : StickySessionOptionsParsed)
    : Type 0 where
  pub off : o ≡ none → s.enabled ≡ false
  pub on : (given : StickySessionOptions) → o ≡ some given → IsGiven given.enabled true s.enabled
  pub cookie : IsGiven (asked (λ s. s.cookie_name) o) (lit "nmt_affinity") s.cookie_name
  pub header : IsGiven (asked (λ s. s.header_name) o) (lit "x-nmt-affinity-key") s.header_name
  pub ttl : IsGiven (asked (λ s. s.ttl_ms) o) 600000 s.ttl_ms
  pub room : IsGiven (asked (λ s. s.max_entries) o) 20000 s.max_entries

pub unwrap_or-IsGiven {ℓ} :
    {A : Type ℓ} (o : Option A) (fallback : A) → IsGiven o fallback (unwrap_or fallback o)
unwrap_or-IsGiven none fallback = refl
unwrap_or-IsGiven (some a) fallback = refl

next_timeout_value {ℓ} :
    {A : Type ℓ} (field : Text) (value : Option ℕ) (fallback : ℕ) (f : ℕ → Result A) {a : A}
    → (parse_positive_u32 field value fallback >>= f) ≡ ok a
    → (n : ℕ) × IsGiven value fallback n × (f n ≡ ok a)
unfolding parse_positive_u32
next_timeout_value field value fallback f h =
    let (n, e, rest) = >>=-eq-ok (parse_positive_u32 field value fallback) f h in
    let (_, same) = reject-eq-ok (eqb (unwrap_or fallback value) 0) _ _ e in
    (
      n,
      subst (λ m. IsGiven value fallback m) (ok-inj same) (unwrap_or-IsGiven value fallback),
      rest,
    )

pub timeouts-AreGivenTimeouts :
    (o : Option ProxyTimeoutOptions) (parsed : ProxyTimeoutOptionsParsed)
    → parse_timeout_options o ≡ ok parsed
    → AreGivenTimeouts o parsed
unfolding parse_timeout_options default_timeouts
timeouts-AreGivenTimeouts none parsed h = subst (AreGivenTimeouts none) (ok-inj h) (record {
  header = refl;
  body = refl;
  connect = refl;
  read = refl;
  write = refl;
  keep_alive = refl;
})
timeouts-AreGivenTimeouts (some t) parsed h =
    let (header, e1, h1) =
      next_timeout_value (lit "timeouts.downstreamHeader") t.downstream_header _ _ h in
    let (body, e2, h2) =
      next_timeout_value (lit "timeouts.downstreamBodyIdle") t.downstream_body_idle _ _ h1 in
    let (connect, e3, h3) =
      next_timeout_value (lit "timeouts.upstreamConnect") t.upstream_connect _ _ h2 in
    let (read, e4, h4) = next_timeout_value (lit "timeouts.upstreamRead") t.upstream_read _ _ h3 in
    let (write, e5, h5) =
      next_timeout_value (lit "timeouts.upstreamWrite") t.upstream_write _ _ h4 in
    let (keep_alive, e6, last) =
      next_timeout_value (lit "timeouts.downstreamKeepAlive") t.downstream_keep_alive _ _ h5 in
    subst (AreGivenTimeouts (some t)) (ok-inj last)
      (record { header = e1; body = e2; connect = e3; read = e4; write = e5; keep_alive = e6 })

pub sticky-IsGivenSticky :
    (o : Option StickySessionOptions) (parsed : StickySessionOptionsParsed)
    → parse_sticky_session_options o ≡ ok parsed
    → IsGivenSticky o parsed
unfolding parse_sticky_session_options
sticky-IsGivenSticky none parsed h = subst (IsGivenSticky none) (ok-inj h) (record {
  off = λ _. refl;
  on = λ g e. absurd (cc (e));
  cookie = refl;
  header = refl;
  ttl = refl;
  room = refl;
})
sticky-IsGivenSticky (some t) parsed h =
    let (_, h1) =
      reject-eq-ok (is_empty (trim (unwrap_or (lit "nmt_affinity") t.cookie_name))) _ _ h in
    let (_, h2) =
      reject-eq-ok (is_empty (trim (unwrap_or (lit "x-nmt-affinity-key") t.header_name))) _ _ h1 in
    let (_, h3) = reject-eq-ok (eqb (unwrap_or 600000 t.ttl_ms) 0) _ _ h2 in
    let (_, last) = reject-eq-ok (eqb (unwrap_or 20000 t.max_entries) 0) _ _ h3 in
    subst (IsGivenSticky (some t)) (ok-inj last) (record {
      off = λ e. absurd (cc (e));
      on = λ g e.
          subst (λ (x : StickySessionOptions). IsGiven x.enabled true (unwrap_or true t.enabled))
            (some-inj e) (unwrap_or-IsGiven t.enabled true);
      cookie = unwrap_or-IsGiven t.cookie_name _;
      header = unwrap_or-IsGiven t.header_name _;
      ttl = unwrap_or-IsGiven t.ttl_ms _;
      room = unwrap_or-IsGiven t.max_entries _;
    })
