-- ===== src/Proxy/Config/Routes.antt =====
-- What the loop of `build_router_config` adds and keeps.
use neemata_proxy.Common.{
  ℕ, ◌≤◌, ◌≡◌, refl, true, false, some, List, [], ◌∷◌, arith, ==_self, list_eq, nat_eq,
}
use neemata_proxy.Text.{Text, to_ascii_lowercase, text_iff}
use neemata_proxy.Map.{lookup, lookup-insert, contains}
use neemata_proxy.Options.{ApplicationRoutingParsed, subdomain, path, default}
use neemata_proxy.Options.Validate.Laws.{sub_key, path_key, count_default, Fresh}
use neemata_proxy.Router.Config.{RouterConfig}
use neemata_proxy.Proxy.Config.{add_route}

-- What is new later was not there before.
pub Fresh-absent :
    (x : Text) (seen xs : List Text)
    → Fresh seen xs
    → contains seen x ≡ true
    → contains xs x ≡ false
unfolding contains
Fresh-absent x seen [] f h = refl
Fresh-absent x seen (y ∷ ys) (new, f) h =
    ground (arith, text_iff y x, Fresh-absent x (y ∷ seen) ys f)

pub contains_self : (x : Text) (xs : List Text) → contains (x ∷ xs) x ≡ true
unfolding contains
contains_self x xs = rw (==_self x)

-- One route leaves every key alone that is not its own.
pub route_keeps_subdomain :
    (cfg : RouterConfig) (app : Text) (r : ApplicationRoutingParsed) (rest : List Text) (k : Text)
    → contains (sub_key r rest) k ≡ false
    → (lookup k (add_route cfg app r).subdomain_routes ≡ lookup k cfg.subdomain_routes)
      × (contains rest k ≡ false)
unfolding add_route contains
route_keeps_subdomain cfg app (subdomain n) rest k h =
    ground (arith, lookup-insert (to_ascii_lowercase n) k app cfg.subdomain_routes)
route_keeps_subdomain cfg app (path n) rest k h = (refl, h)
route_keeps_subdomain cfg app default rest k h = (refl, h)

pub route_keeps_path :
    (cfg : RouterConfig) (app : Text) (r : ApplicationRoutingParsed) (rest : List Text) (k : Text)
    → contains (path_key r rest) k ≡ false
    → (lookup k (add_route cfg app r).path_routes ≡ lookup k cfg.path_routes)
      × (contains rest k ≡ false)
unfolding add_route contains
route_keeps_path cfg app (subdomain n) rest k h = (refl, h)
route_keeps_path cfg app (path n) rest k h = ground (arith, lookup-insert n k app cfg.path_routes)
route_keeps_path cfg app default rest k h = (refl, h)

pub route_keeps_default :
    (cfg : RouterConfig) (app : Text) (r : ApplicationRoutingParsed) (rest : ℕ)
    → count_default r rest ≡ 0
    → ((add_route cfg app r).default_app ≡ cfg.default_app) × (rest ≡ 0)
unfolding add_route
route_keeps_default cfg app (subdomain n) rest h = (refl, h)
route_keeps_default cfg app (path n) rest h = (refl, h)
route_keeps_default cfg app default rest h = absurd (omega arith)

pub route_keeps_apps :
    (cfg : RouterConfig) (app : Text) (r : ApplicationRoutingParsed)
    → (add_route cfg app r).apps ≡ cfg.apps
unfolding add_route
route_keeps_apps cfg app (subdomain n) = refl
route_keeps_apps cfg app (path n) = refl
route_keeps_apps cfg app default = refl

pub sub_key-Fresh :
    (r : ApplicationRoutingParsed) (s rest : List Text)
    → Fresh s (sub_key r rest)
    → (s' : List Text) × Fresh s' rest
sub_key-Fresh (subdomain n) s rest f = (to_ascii_lowercase n ∷ s, f.1)
sub_key-Fresh (path n) s rest f = (s, f)
sub_key-Fresh default s rest f = (s, f)

pub path_key-Fresh :
    (r : ApplicationRoutingParsed) (s rest : List Text)
    → Fresh s (path_key r rest)
    → (s' : List Text) × Fresh s' rest
path_key-Fresh (subdomain n) s rest f = (s, f)
path_key-Fresh (path n) s rest f = (n ∷ s, f.1)
path_key-Fresh default s rest f = (s, f)

pub count_default-le : (r : ApplicationRoutingParsed) (rest : ℕ) → rest ≤ count_default r rest
count_default-le (subdomain n) rest = omega arith
count_default-le (path n) rest = omega arith
count_default-le default rest = omega arith

-- The entry of an application in the table.
abbrev pub IsListed : RouterConfig → Text → ApplicationRoutingParsed → Type 0
IsListed cfg app (subdomain n) = lookup (to_ascii_lowercase n) cfg.subdomain_routes ≡ some app
IsListed cfg app (path n) = lookup n cfg.path_routes ≡ some app
IsListed cfg app default = cfg.default_app ≡ some app
