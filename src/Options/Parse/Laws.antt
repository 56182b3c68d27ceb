-- ===== src/Options/Parse/Laws.antt =====
-- What the options that `parse_proxy_options` accepts are like.
use neemata_proxy.Common.{
  ◌≡◌, refl, subst, inl, inr, false, Option, none, some, List, [], ◌∷◌, arith, Bool-cases,
}
use neemata_proxy.Text.{Text, is_empty, trim}
use neemata_proxy.Errors.{ok, >>=-eq-ok, throw_type_error}
use neemata_proxy.Options.{
  ProxyOptions, ApplicationOptions, ApplicationOptionsParsed, ProxyApplicationRouting,
  ApplicationRoutingParsed, default, subdomain, path, ListenerTlsOptions, ListenerTlsOptionsParsed,
  ProxyOptionsParsed,
}
use neemata_proxy.Options.Validate.{validate_applications}
use neemata_proxy.Options.Validate.Laws.{IsValidApplications, validate_applications_iff}
use neemata_proxy.Options.Parse.{
  parse_limits_options, parse_timeout_options, parse_sticky_session_options, is_hostname_like,
  parse_application_sni, parse_application_options, parse_routing, require_routing_name, parse_tls,
  parse_applications, parse_proxy_options,
}
use neemata_proxy.Options.Parse.Bounds.{
  ArePositive, ok-inj, limits-ArePositive, AreTimeouts, timeouts-AreTimeouts, IsStickyOptions,
  sticky-IsStickyOptions,
}
use neemata_proxy.Options.Parse.Hostname.{IsHostname, is_hostname_like-IsHostname}
use neemata_proxy.Options.Parse.Kept.{
  IsGiven, unwrap_or-IsGiven, AreGivenTimeouts, timeouts-AreGivenTimeouts, IsGivenSticky,
  sticky-IsGivenSticky,
}
use neemata_proxy.Options.Parse.Limits.{checks_of, asked_checks, parse_limits_options-checks}

-- The kind of routing stays, and its name must have been given.
pub data IsRouted : ProxyApplicationRouting → ApplicationRoutingParsed → Type 0 where
  by_default : IsRouted default default
  by_subdomain : (name : Text) → IsRouted (subdomain (some name)) (subdomain name)
  by_path : (name : Text) → IsRouted (path (some name)) (path name)

-- A TLS host name is kept without the space around it, and is a host name.
pub data IsSni : Option Text → Option Text → Type 0 where
  unnamed : IsSni none none
  named :
      (raw : Text)
      → is_empty (trim raw) ≡ false
      → IsHostname (trim raw)
      → IsSni (some raw) (some (trim raw))

pub record IsApplication (app : ApplicationOptions) (parsed : ApplicationOptionsParsed)
    : Type 0 where
  pub name : parsed.name ≡ app.name
  pub routing : IsRouted app.routing parsed.routing
  pub sni : IsSni app.sni parsed.sni

-- One after the other, in their order.
pub data AreApplications : List ApplicationOptions → List ApplicationOptionsParsed → Type 0 where
  empty : AreApplications [] []
  one_more :
      (app : ApplicationOptions) (parsed : ApplicationOptionsParsed)
      (apps : List ApplicationOptions) (rest : List ApplicationOptionsParsed)
      → IsApplication app parsed
      → AreApplications apps rest
      → AreApplications (app ∷ apps) (parsed ∷ rest)

-- TLS is on exactly when it is asked for, with the given files, and HTTP/2 only when that is too.
pub data IsTls : Option ListenerTlsOptions → Option ListenerTlsOptionsParsed → Type 0 where
  plain : IsTls none none
  secured :
      (tls : ListenerTlsOptions) (parsed : ListenerTlsOptionsParsed)
      → parsed.cert_path ≡ tls.cert_path
      → parsed.key_path ≡ tls.key_path
      → IsGiven tls.enable_h2 false parsed.enable_h2
      → IsTls (some tls) (some parsed)

parse_application_sni-IsSni :
    (o parsed : Option Text) → parse_application_sni o ≡ ok parsed → IsSni o parsed
unfolding parse_application_sni throw_type_error
parse_application_sni-IsSni none parsed h = subst (IsSni none) (ok-inj h) unnamed
parse_application_sni-IsSni (some raw) parsed h = elim (Bool-cases (is_empty (trim raw))) [
  | inl blank ↦ absurd (ground (arith, blank))
  | inr full ↦ elim (Bool-cases (is_hostname_like (trim raw))) [
    | inl good ↦
        let same : some (trim raw) ≡ parsed = ground (arith, full, good) in
        subst (IsSni (some raw)) same (named raw full (is_hostname_like-IsHostname (trim raw) good))
    | inr bad ↦ absurd (ground (arith, full, bad))
  ]
]

parse_routing-IsRouted :
    (raw : ProxyApplicationRouting) (parsed : ApplicationRoutingParsed)
    → parse_routing raw ≡ ok parsed
    → IsRouted raw parsed
unfolding parse_routing require_routing_name throw_type_error
parse_routing-IsRouted default parsed h = subst (IsRouted default) (ok-inj h) by_default
parse_routing-IsRouted (subdomain (some name)) parsed h =
    subst (IsRouted (subdomain (some name))) (ok-inj h) (by_subdomain name)
parse_routing-IsRouted (subdomain none) parsed h = absurd (cc)
parse_routing-IsRouted (path (some name)) parsed h =
    subst (IsRouted (path (some name))) (ok-inj h) (by_path name)
parse_routing-IsRouted (path none) parsed h = absurd (cc)

parse_application_options-IsApplication :
    (app : ApplicationOptions) (parsed : ApplicationOptionsParsed)
    → parse_application_options app ≡ ok parsed
    → IsApplication app parsed
unfolding parse_application_options
parse_application_options-IsApplication app parsed h =
    let (sni, s, h1) = >>=-eq-ok (parse_application_sni app.sni) _ h in
    let (routing, r, last) = >>=-eq-ok (parse_routing app.routing) _ h1 in
    subst (IsApplication app) (ok-inj last) (record {
      name = refl;
      routing = parse_routing-IsRouted app.routing routing r;
      sni = parse_application_sni-IsSni app.sni sni s;
    })

parse_applications-AreApplications :
    (apps : List ApplicationOptions) (parsed : List ApplicationOptionsParsed)
    → parse_applications apps ≡ ok parsed
    → AreApplications apps parsed
unfolding parse_applications
parse_applications-AreApplications [] parsed h = subst (AreApplications []) (ok-inj h) empty
parse_applications-AreApplications (app ∷ apps) parsed h =
    let (p, one, h1) = >>=-eq-ok (parse_application_options app) _ h in
    let (ps, more, last) = >>=-eq-ok (parse_applications apps) _ h1 in
    subst (AreApplications (app ∷ apps)) (ok-inj last) (
      one_more app p apps ps (parse_application_options-IsApplication app p one)
        (parse_applications-AreApplications apps ps more))

parse_tls-IsTls : (o : Option ListenerTlsOptions) → IsTls o (parse_tls o)
parse_tls-IsTls none = plain
parse_tls-IsTls (some tls) = secured tls _ refl refl (unwrap_or-IsGiven tls.enable_h2 false)

-- What holds of accepted options.
pub record IsParsed (options : ProxyOptions) (parsed : ProxyOptionsParsed) : Type 0 where
  pub listen : parsed.listen ≡ options.listen
  pub secured : IsTls options.tls parsed.tls
  pub applications : AreApplications options.applications parsed.applications
  pub valid : IsValidApplications parsed.applications
  pub checked_every : IsGiven options.health_check_interval_ms 5000 parsed.health_check_interval_ms
  pub sticky : IsStickyOptions parsed.sticky_sessions
  pub sticky_given : IsGivenSticky options.sticky_sessions parsed.sticky_sessions
  pub limits : ArePositive parsed.limits
  pub limits_given : checks_of parsed.limits ≡ asked_checks options.limits
  pub timeouts : AreTimeouts parsed.timeouts
  pub timeouts_given : AreGivenTimeouts options.timeouts parsed.timeouts

-- Options that `parse_proxy_options` accepts keep the listener, its TLS files, and the applications
-- in their order, each with its name, its kind of routing with the name given for it, and its TLS
-- host name, which without the space around it is one: labels of 1 to 63 letters, digits and `-`,
-- no `-` at their ends, with dots between them. The applications are valid together. The interval,
-- the sticky sessions, the limits and the timeouts are as given, or the defaults, without the
-- limits given as `null`; limits, timeouts, the term and the room of the sticky table are greater
-- than 0, and its names are not blank.
pub parse_proxy_options-IsParsed :
    (options : ProxyOptions) (parsed : ProxyOptionsParsed)
    → parse_proxy_options options ≡ ok parsed
    → IsParsed options parsed
unfolding parse_proxy_options
parse_proxy_options-IsParsed options parsed h =
    let (apps, a, h1) = >>=-eq-ok (parse_applications options.applications) _ h in
    let (done, v, h2) = >>=-eq-ok (validate_applications apps) _ h1 in
    let (sticky, s, h3) = >>=-eq-ok (parse_sticky_session_options options.sticky_sessions) _ h2 in
    let (limits, l, h4) = >>=-eq-ok (parse_limits_options options.limits) _ h3 in
    let (timeouts, t, last) = >>=-eq-ok (parse_timeout_options options.timeouts) _ h4 in
    subst (IsParsed options) (ok-inj last) (record {
      listen = refl;
      secured = parse_tls-IsTls options.tls;
      applications = parse_applications-AreApplications options.applications apps a;
      valid = (validate_applications_iff apps).0 v;
      checked_every = unwrap_or-IsGiven options.health_check_interval_ms 5000;
      sticky = sticky-IsStickyOptions options.sticky_sessions sticky s;
      sticky_given = sticky-IsGivenSticky options.sticky_sessions sticky s;
      limits = limits-ArePositive options.limits limits l;
      limits_given = parse_limits_options-checks options.limits limits l;
      timeouts = timeouts-AreTimeouts options.timeouts timeouts t;
      timeouts_given = timeouts-AreGivenTimeouts options.timeouts timeouts t;
    })
