-- ===== src/Options/Validate.antt =====
-- src/options.rs: the checks across applications, `validate_applications`.
pub mod Laws
use neemata_proxy.Common.{
  ℕ, ◌+◌, Bool, true, false, Option, none, some, List, [], ◌∷◌, ◌++◌, ltb, if◌then◌else◌, list_eq,
  nat_eq,
}
use neemata_proxy.Text.{Text, lit, is_empty, contains_char, to_ascii_lowercase}
use neemata_proxy.Map.{contains}
use neemata_proxy.Errors.{
  Result, ok, err, ◌>>=◌, ◌>>◌, throw_type_error, invalid_application_options,
}
use neemata_proxy.Options.{
  ApplicationOptionsParsed, ApplicationRoutingParsed, subdomain, path, default,
}

-- The variables of the loop.
pub record Seen : Type 0 where
  pub default_count : ℕ
  pub app_names : List Text
  pub subdomain_routes : List Text
  pub path_routes : List Text

-- `if test { return throw_type_error(…) }`
abbrev pub reject_if : Bool → Text → Result (Unit {0})
reject_if test msg = if test then throw_type_error invalid_application_options msg else ok tt

abbrev pub quoted : Text → Text → Text
quoted start name = start ++ name ++ lit "'"

-- The match on the routing of one application.
unfoldable pub check_routing : Seen → ApplicationRoutingParsed → Result Seen
unfolding throw_type_error
check_routing seen default = ok (record seen { default_count = seen.default_count + 1 })
check_routing seen (subdomain name) = do
  reject_if (is_empty name) (lit "subdomain routing name must be non-empty")
  let route_key = to_ascii_lowercase name
  reject_if (contains seen.subdomain_routes route_key)
      (quoted (lit "Duplicate subdomain routing name '") name)
  ok (record seen { subdomain_routes = route_key ∷ seen.subdomain_routes })
check_routing seen (path name) = do
  reject_if (is_empty name) (lit "path routing name must be non-empty")
  reject_if (contains_char b'/' name) (lit "path routing name must not contain '/'")
  reject_if (contains seen.path_routes name) (quoted (lit "Duplicate path routing name '") name)
  ok (record seen { path_routes = name ∷ seen.path_routes })

-- One round of the loop.
unfoldable pub check_application : Seen → ApplicationOptionsParsed → Result Seen
unfolding throw_type_error
check_application seen app = do
  reject_if (contains seen.app_names app.name)
      (quoted (lit "Duplicate application name '") app.name)
  check_routing (record seen { app_names = app.name ∷ seen.app_names }) app.routing

unfoldable pub check_applications : Seen → List ApplicationOptionsParsed → Result Seen
check_applications seen [] = ok seen
check_applications seen (app ∷ apps) =
    check_application seen app >>= λ next. check_applications next apps

abbrev pub nothing_seen : Seen
nothing_seen = record { default_count = 0; app_names = []; subdomain_routes = []; path_routes = [] }

unfoldable pub validate_applications : List ApplicationOptionsParsed → Result (Unit {0})
unfolding throw_type_error
validate_applications apps = do
  seen ← check_applications nothing_seen apps
  reject_if (ltb 1 seen.default_count)
      (lit "At most one application may use routing.type='default'")
