-- ===== src/Proxy/Upstreams.antt =====
-- src/proxy.rs: the upstreams that JavaScript registers, and the pools that are built of them.
-- Resolving a host name is the operating system's, and making a balancer is pingora's: both are
-- parameters.
pub mod Parsing
pub mod Grouping
pub mod Composed
pub mod Pools
use neemata_proxy.Common.{
  ℕ, ◌≡◌, ◌↔◌, Bool, true, false, ◌&&◌, ◌||◌, not, Option, none, some, List, [], ◌∷◌, ◌++◌,
  if◌then◌else◌, eqb, eqb_iff, ltb, any, arith, ◌==◌, Eq, list_eq, nat_eq,
}
use neemata_proxy.Text.{Text, lit, is_empty, text_iff}
use neemata_proxy.Text.Numbers.{to_decimal}
use neemata_proxy.Map.{lookup, insert, remove, contains}
use neemata_proxy.Errors.{
  Code, Result, ok, err, ◌>>=◌, ◌>>◌, throw_type_error, throw_generic_error, invalid_proxy_options,
  invalid_application_options, unsupported_upstream_type,
}
use neemata_proxy.Lb.{
  TransportKind, http1, http2, ws, transport_eq, transport_beq_iff, LoadBalancer, HealthCheck, tcp,
  tls,
}
use neemata_proxy.Options.{
  ApplicationOptionsParsed, ApplicationRoutingParsed, subdomain, path, default,
}
use neemata_proxy.Router.Config.{PoolConfig}

pub record PortUpstreamOptions : Type 0 where
  pub kind : Text
  pub transport : Text
  pub secure : Bool
  pub hostname : Text
  pub port : ℕ

pub record UnixSocketUpstreamOptions : Type 0 where
  pub kind : Text
  pub transport : Text
  pub secure : Bool
  pub path : Text

pub data UpstreamOptions : Type 0 where
  port_options : PortUpstreamOptions → UpstreamOptions
  unix_options : UnixSocketUpstreamOptions → UpstreamOptions

pub record PortUpstream : Type 0 where
  pub transport : TransportKind
  pub secure : Bool
  pub hostname : Text
  pub port : ℕ

abbrev pub bool_beq : Bool → Bool → Bool
bool_beq true b = b
bool_beq false b = not b

unfoldable pub upstream_beq : PortUpstream → PortUpstream → Bool
upstream_beq a b =
    a.transport == b.transport
    && bool_beq a.secure b.secure
    && a.hostname == b.hostname
    && eqb a.port b.port

-- The match on `port.transport.as_str()`.
unfoldable pub parse_transport : Text → Result TransportKind
unfolding throw_type_error
parse_transport name =
    if name == lit "http"
    then ok http1
    else if name == lit "http2"
    then ok http2
    else if name == lit "ws"
    then ok ws
    else throw_type_error invalid_proxy_options
        (lit "Unknown upstream transport '" ++ name ++ lit "'")

abbrev unsupported : Text → Result PortUpstream
unsupported name =
    throw_generic_error unsupported_upstream_type
      (lit "Unsupported upstream type '" ++ name ++ lit "'")

unfoldable pub parse_port_upstream : UpstreamOptions → Result PortUpstream
unfolding throw_type_error throw_generic_error parse_transport is_empty
parse_port_upstream (port_options o) =
    if not (o.kind == lit "port")
    then unsupported o.kind
    else parse_transport o.transport >>= λ transport.
        if eqb o.port 0 || ltb 65535 o.port
        then throw_type_error invalid_proxy_options
            (lit "PortUpstreamOptions.port must be in range 1..=65535")
        else if is_empty o.hostname
        then throw_type_error invalid_proxy_options
            (lit "PortUpstreamOptions.hostname must be non-empty")
        else ok (record {
          transport = transport;
          secure = o.secure;
          hostname = o.hostname;
          port = o.port;
        })
parse_port_upstream (unix_options o) =
    if not (o.kind == lit "unix") && not (o.kind == lit "unix_socket")
    then unsupported o.kind
    else throw_generic_error unsupported_upstream_type
        (lit "unix_socket upstreams are not supported")

-- An error that is raised when the promise settles.
pub record DeferredJsError : Type 0 where
  pub code : Code
  pub message : Text

pub data DeferredResult (A : Type 0) : Type 0 where
  done : A → DeferredResult A
  fail : DeferredJsError → DeferredResult A

abbrev pub fail_with_code : {A : Type 0} → Code → Text → DeferredResult A
fail_with_code code message = fail (record { code = code; message = message })

abbrev pub and_then : {A B : Type 0} → DeferredResult A → (A → DeferredResult B) → DeferredResult B
and_then (done a) next = next a
and_then (fail e) next = fail e

abbrev require_sni : Option Text → DeferredResult Text
require_sni none =
    fail_with_code invalid_application_options (
      lit "ApplicationOptions.sni is required when using secure upstreams for path/default routing")
require_sni (some sni) = done sni

unfoldable pub verify_hostname_for_secure_upstream : ApplicationOptionsParsed → DeferredResult Text
verify_hostname_for_secure_upstream app = elim app.routing [
  | subdomain name ↦ done name
  | path _ ↦ require_sni app.sni
  | default ↦ require_sni app.sni
]

abbrev pub Groups : Type 0
Groups = List (TransportKind × List PortUpstream)

-- `by_transport.entry(u.transport).or_default().push(u)`
unfoldable pub push_upstream : PortUpstream → Groups → Groups
push_upstream u groups = elim (lookup u.transport groups) [
  | none ↦ insert u.transport (u ∷ []) groups
  | some list ↦ insert u.transport (list ++ u ∷ []) groups
]

-- The first loop of `rebuild_app_pools`.
unfoldable pub group_upstreams : List PortUpstream → Groups → Groups
unfolding push_upstream
group_upstreams [] groups = groups
group_upstreams (u ∷ us) groups = group_upstreams us (push_upstream u groups)

-- The answer of `to_socket_addrs`: addresses, or the text of an error.
pub data Resolved : Type 0 where
  addresses : List Text → Resolved
  unresolved : Text → Resolved

abbrev pub Resolve : Type 0
Resolve = Text → ℕ → Resolved

-- `LoadBalancer::try_from_iter` on some addresses: the text of its error, if it has one.
abbrev pub Builds : Type 0
Builds = List Text → Option Text

abbrev is_empty_list : List Text → Bool
is_empty_list [] = true
is_empty_list (_ ∷ _) = false

abbrev with_port : Text → ℕ → Text
with_port hostname port = hostname ++ lit ":" ++ to_decimal port

-- The loop that extends `addrs`.
unfoldable pub resolve_all : Resolve → List PortUpstream → DeferredResult (List Text)
resolve_all resolve [] = done []
resolve_all resolve (u ∷ us) = elim (resolve u.hostname u.port) [
  | unresolved e ↦
      fail_with_code invalid_proxy_options
        (lit "Failed to resolve upstream '" ++ with_port u.hostname u.port ++ lit "': " ++ e)
  | addresses addrs ↦ and_then (resolve_all resolve us) (λ more. done (addrs ++ more))
]

-- `PoolConfig` of the addresses that were found.
unfoldable pub pool_of : Bool → Text → ℕ → List Text → PoolConfig
pool_of secure verify_hostname health_check_interval_ms addrs = record {
  lb = record {
    addrs = addrs;
    health_check = some (if secure then tls verify_hostname else tcp);
    health_check_frequency = some health_check_interval_ms;
  };
  secure = secure;
  verify_hostname = verify_hostname;
  backends = addrs;
}

-- From the test for empty addresses on; `u` is the first upstream of the list.
unfoldable pub finish_pool :
    Builds → PortUpstream → Text → ℕ → List Text → DeferredResult PoolConfig
unfolding pool_of
finish_pool builds u verify_hostname health_check_interval_ms addrs =
    if is_empty_list addrs
    then fail_with_code invalid_proxy_options (
        lit "Failed to resolve upstream '"
        ++ with_port u.hostname u.port
        ++ lit "': no addresses were returned")
    else elim (builds addrs) [
      | some e ↦ fail_with_code invalid_proxy_options (lit "Failed to build load balancer: " ++ e)
      | none ↦ done (pool_of u.secure verify_hostname health_check_interval_ms addrs)
    ]

-- One round of the second loop, for the upstreams u ∷ us of one transport.
unfoldable pub build_pool :
    Resolve
    → Builds
    → ApplicationOptionsParsed
    → ℕ
    → PortUpstream
    → List PortUpstream
    → DeferredResult PoolConfig
unfolding verify_hostname_for_secure_upstream resolve_all finish_pool
build_pool resolve builds app health_check_interval_ms u us =
    if any (λ other. not (bool_beq other.secure u.secure)) (u ∷ us)
    then fail_with_code invalid_proxy_options (
        lit
          "Mixing secure and insecure upstreams within the same (app, transport) pool is not supported")
    else and_then (if u.secure then verify_hostname_for_secure_upstream app else done []) (λ host.
      and_then (resolve_all resolve (u ∷ us))
        (λ addrs. finish_pool builds u host health_check_interval_ms addrs))

-- The second loop, over `by_transport`.
unfoldable pub build_pools :
    Resolve
    → Builds
    → ApplicationOptionsParsed
    → ℕ
    → Groups
    → DeferredResult (List (TransportKind × PoolConfig))
unfolding build_pool
build_pools resolve builds app health_check_interval_ms [] = done []
build_pools resolve builds app health_check_interval_ms ((t, []) ∷ groups) =
    build_pools resolve builds app health_check_interval_ms groups
build_pools resolve builds app health_check_interval_ms ((t, u ∷ us) ∷ groups) =
    and_then (build_pool resolve builds app health_check_interval_ms u us) (λ pool.
      and_then (build_pools resolve builds app health_check_interval_ms groups)
        (λ pools. done (insert t pool pools)))

abbrev is_missing : {A : Type 0} → Option A → Bool
is_missing none = true
is_missing (some _) = false

-- The last loop: the transports without a pool.
unfoldable pub removed_transports :
    List (TransportKind × PoolConfig) → List TransportKind → List TransportKind
removed_transports pools [] = []
removed_transports pools (t ∷ ts) =
    let rest = removed_transports pools ts in if is_missing (lookup t pools) then t ∷ rest else rest

unfoldable pub rebuild_app_pools :
    Resolve
    → Builds
    → ApplicationOptionsParsed
    → List PortUpstream
    → ℕ
    → DeferredResult (List (TransportKind × PoolConfig) × List TransportKind)
unfolding group_upstreams build_pools removed_transports
rebuild_app_pools resolve builds app upstreams health_check_interval_ms =
    and_then
      (build_pools resolve builds app health_check_interval_ms (group_upstreams upstreams []))
      (λ pools. done (pools, removed_transports pools (http1 ∷ http2 ∷ ws ∷ [])))
