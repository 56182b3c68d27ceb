-- ===== src/Options/Validate/Laws.antt =====
-- When `validate_applications` accepts a list of applications.
use neemata_proxy.Common.{
  ℕ, suc, ◌+◌, ◌≤◌, ◌≡◌, refl, ap, ◌∙◌, ◌↔◌, inl, inr, false, Option, List, [], ◌∷◌, list_eq,
  nat_eq, arith, All, Bool-cases,
}
use native.Mathlib.Nat.{add-zero}
use neemata_proxy.Text.{Text, is_empty, contains_char, to_ascii_lowercase}
use neemata_proxy.Map.{contains}
use neemata_proxy.Errors.{ok, >>=-eq-ok}
use neemata_proxy.Options.{
  ApplicationOptionsParsed, ApplicationRoutingParsed, subdomain, path, default,
}
use neemata_proxy.Options.Validate.{
  Seen, check_routing, check_application, check_applications, nothing_seen, validate_applications,
}

-- The keys by which the router will look, in the order of the applications.
abbrev pub sub_key : ApplicationRoutingParsed → List Text → List Text
sub_key (subdomain name) rest = to_ascii_lowercase name ∷ rest
sub_key (path name) rest = rest
sub_key default rest = rest

abbrev pub path_key : ApplicationRoutingParsed → List Text → List Text
path_key (subdomain name) rest = rest
path_key (path name) rest = name ∷ rest
path_key default rest = rest

abbrev pub count_default : ApplicationRoutingParsed → ℕ → ℕ
count_default (subdomain name) rest = rest
count_default (path name) rest = rest
count_default default rest = suc rest

abbrev pub sub_keys : List ApplicationOptionsParsed → List Text
sub_keys [] = []
sub_keys (app ∷ apps) = sub_key app.routing (sub_keys apps)

abbrev pub path_keys : List ApplicationOptionsParsed → List Text
path_keys [] = []
path_keys (app ∷ apps) = path_key app.routing (path_keys apps)

abbrev pub default_count : List ApplicationOptionsParsed → ℕ
default_count [] = 0
default_count (app ∷ apps) = count_default app.routing (default_count apps)

abbrev pub names : List ApplicationOptionsParsed → List Text
names [] = []
names (app ∷ apps) = app.name ∷ names apps

-- A routing name is not empty, and a path name holds no slash.
abbrev pub IsNamed : ApplicationRoutingParsed → Type 0
IsNamed (subdomain name) = is_empty name ≡ false
IsNamed (path name) = (is_empty name ≡ false) × (contains_char b'/' name ≡ false)
IsNamed default = Unit {0}

-- No text of the list stands twice in it, nor among those that are seen already.
abbrev pub Fresh : List Text → List Text → Type 0
Fresh seen [] = Unit {0}
Fresh seen (x ∷ xs) = (contains seen x ≡ false) × Fresh (x ∷ seen) xs

pub record IsFresh (seen : Seen) (apps : List ApplicationOptionsParsed) : Type 0 where
  pub app_names : Fresh seen.app_names (names apps)
  pub subdomains : Fresh seen.subdomain_routes (sub_keys apps)
  pub paths : Fresh seen.path_routes (path_keys apps)
  pub named : All (λ app. IsNamed app.routing) apps

abbrev after : Seen → ApplicationRoutingParsed → Seen
after seen default = record seen { default_count = seen.default_count + 1 }
after seen (subdomain name) = record seen {
  subdomain_routes = to_ascii_lowercase name ∷ seen.subdomain_routes;
}
after seen (path name) = record seen { path_routes = name ∷ seen.path_routes }

abbrev RoutingFresh : Seen → ApplicationRoutingParsed → Type 0
RoutingFresh seen default = Unit {0}
RoutingFresh seen (subdomain name) =
    (is_empty name ≡ false) × (contains seen.subdomain_routes (to_ascii_lowercase name) ≡ false)
RoutingFresh seen (path name) =
    (is_empty name ≡ false)
    × (contains_char b'/' name ≡ false)
    × (contains seen.path_routes name ≡ false)

check_routing-eq-ok :
    (seen : Seen) (r : ApplicationRoutingParsed) (next : Seen)
    → (check_routing seen r ≡ ok next) ↔ (RoutingFresh seen r × (after seen r ≡ next))
unfolding check_routing
check_routing-eq-ok seen default next = (λ h. (tt, cc), λ (_, h). ap ok h)
check_routing-eq-ok seen (subdomain name) next = (λ h. ground arith, λ (f, h). ground arith)
check_routing-eq-ok seen (path name) next = (λ h. ground arith, λ (f, h). ground arith)

check_application-eq-ok :
    (seen : Seen) (app : ApplicationOptionsParsed) (next : Seen)
    → (check_application seen app ≡ ok next) ↔ (
        (contains seen.app_names app.name ≡ false)
        × RoutingFresh (record seen { app_names = app.name ∷ seen.app_names }) app.routing
        × (after (record seen { app_names = app.name ∷ seen.app_names }) app.routing ≡ next))
unfolding check_application
check_application-eq-ok seen app next =
    let named = record seen { app_names = app.name ∷ seen.app_names } in
    let (to, from) = check_routing-eq-ok named app.routing next in
    (
      λ h. elim (Bool-cases (contains seen.app_names app.name)) [
        | inl twice ↦ absurd (ground arith)
        | inr new ↦ let (fresh, same) = to (ground arith) in (new, fresh, same)
      ],
      λ (new, fresh, same). rw (new, check_application) (from (fresh, same)),
    )

IsFresh-cons :
    (seen : Seen) (name : Text) (routing : ApplicationRoutingParsed) (sni : Option Text)
    (apps : List ApplicationOptionsParsed)
    → IsFresh seen (record { name = name; routing = routing; sni = sni } ∷ apps) ↔ (
        (contains seen.app_names name ≡ false)
        × RoutingFresh (record seen { app_names = name ∷ seen.app_names }) routing
        × IsFresh (after (record seen { app_names = name ∷ seen.app_names }) routing) apps)
IsFresh-cons seen name default sni apps = (
  λ v. (
    v.app_names.0,
    tt,
    record {
      app_names = v.app_names.1;
      subdomains = v.subdomains;
      paths = v.paths;
      named = v.named.1;
    },
  ),
  λ (new, _, w). record {
    app_names = (new, w.app_names);
    subdomains = w.subdomains;
    paths = w.paths;
    named = (tt, w.named);
  },
)
IsFresh-cons seen name (subdomain n) sni apps = (
  λ v. (
    v.app_names.0,
    (v.named.0, v.subdomains.0),
    record {
      app_names = v.app_names.1;
      subdomains = v.subdomains.1;
      paths = v.paths;
      named = v.named.1;
    },
  ),
  λ (new, f, w). record {
    app_names = (new, w.app_names);
    subdomains = (f.1, w.subdomains);
    paths = w.paths;
    named = (f.0, w.named);
  },
)
IsFresh-cons seen name (path n) sni apps = (
  λ v. (
    v.app_names.0,
    ((v.named.0).0, (v.named.0).1, v.paths.0),
    record {
      app_names = v.app_names.1;
      subdomains = v.subdomains;
      paths = v.paths.1;
      named = v.named.1;
    },
  ),
  λ (new, f, w). record {
    app_names = (new, w.app_names);
    subdomains = w.subdomains;
    paths = (f.2, w.paths);
    named = ((f.0, f.1), w.named);
  },
)

counted_after :
    (seen : Seen) (routing : ApplicationRoutingParsed) (rest : ℕ)
    → (after seen routing).default_count + rest ≡ seen.default_count + count_default routing rest
counted_after seen default rest = omega arith
counted_after seen (subdomain n) rest = refl
counted_after seen (path n) rest = refl

-- With what the loop has seen before, it accepts exactly the applications whose keys are new and
-- whose names are sound, and it counts the default routes.
check_applications_sound :
    (apps : List ApplicationOptionsParsed) (seen last : Seen)
    → check_applications seen apps ≡ ok last
    → IsFresh seen apps × (last.default_count ≡ seen.default_count + default_count apps)
unfolding check_applications
check_applications_sound [] seen last h = (
  record { app_names = tt; subdomains = tt; paths = tt; named = tt },
  ground (arith, add-zero seen.default_count),
)
check_applications_sound (app ∷ apps) seen last h =
    let named = record seen { app_names = app.name ∷ seen.app_names } in
    let (next, first, rest) = >>=-eq-ok _ _ h in
    let (new, fresh, same) = (check_application-eq-ok seen app next).0 first in
    let (more, counted) =
      check_applications_sound apps (after named app.routing) last (rw same rest) in
    (
      (IsFresh-cons seen app.name app.routing app.sni apps).1 (new, fresh, more),
      counted ∙ counted_after named app.routing (default_count apps),
    )

-- Nothing else keeps it from accepting them.
check_applications_complete :
    (apps : List ApplicationOptionsParsed) (seen : Seen)
    → IsFresh seen apps
    → (last : Seen) × (check_applications seen apps ≡ ok last)
unfolding check_applications
check_applications_complete [] seen v = (seen, refl)
check_applications_complete (app ∷ apps) seen v =
    let named = record seen { app_names = app.name ∷ seen.app_names } in
    let (new, fresh, more) = (IsFresh-cons seen app.name app.routing app.sni apps).0 v in
    let first = (check_application-eq-ok seen app (after named app.routing)).1 (new, fresh, refl) in
    let (last, rest) = check_applications_complete apps (after named app.routing) more in
    (last, rw (first, check_applications) rest)

-- The applications that may stand together: names, subdomains in lower case and path segments are
-- each used once, every routing name is sound, and at most one application is the default.
pub record IsValidApplications (apps : List ApplicationOptionsParsed) : Type 0 where
  pub fresh : IsFresh nothing_seen apps
  pub one_default : default_count apps ≤ 1

-- `validate_applications` accepts a list exactly when no application name, no subdomain up to
-- letter case and no path segment is used twice, no routing name is empty, no path segment holds
-- a slash, and at most one application is the default.
pub validate_applications_iff :
    (apps : List ApplicationOptionsParsed)
    → (validate_applications apps ≡ ok tt) ↔ IsValidApplications apps
unfolding validate_applications
validate_applications_iff apps = (
  λ h.
      let (last, passed, few) = >>=-eq-ok _ _ h in
      let (fresh, counted) = check_applications_sound apps nothing_seen last passed in
      record { fresh = fresh; one_default = ground (arith, few, counted) },
  λ v.
      let (last, passed) = check_applications_complete apps nothing_seen v.fresh in
      let (fresh, counted) = check_applications_sound apps nothing_seen last passed in
      rw (passed, validate_applications) (ground (arith, counted, v.one_default)),
)
