-- ===== src/Tests/Exchanges.antt =====
-- Requests on their way through the proxy.
use neemata_proxy.Common.{
  Option, ℕ, ◌≤◌, ◌≡◌, ◌⊎◌, refl, Bool, true, false, none, some, List, [], ◌∷◌, list_eq, list_beq,
  nat_eq, arith,
}
use neemata_proxy.Text.{
  Text, returned, lit, strip_prefix, is_empty, is_ascii_digit, is_ascii_uppercase,
  to_ascii_lowercase, in_range, lower,
}
use neemata_proxy.Text.Splitting.{split, rsplit_once}
use neemata_proxy.Lb.{LoadBalancer, http1}
use neemata_proxy.Map.{lookup}
use neemata_proxy.Options.{disabled}
use neemata_proxy.Options.Parse.{default_timeouts}
use neemata_proxy.Router.Session.{Session}
use neemata_proxy.Router.Host.{
  extract_host, host_header, normalize_host, strip_port_str, without_port,
}
use neemata_proxy.Router.Path.{extract_first_path_segment, first_non_empty}
use neemata_proxy.Router.Limits.{request_limit_rejection_status}
use neemata_proxy.Router.Config.{RouterConfig, PoolConfig, ResolvedPool, resolve_route}
use neemata_proxy.Router.Filters.{
  Router, new_ctx, Exchange, Outcome, err, http_status, other_error, missing_application,
  RespondError, fail_with, of_pool, apply_downstream_timeouts, request_filter,
}
use neemata_proxy.Router.Filters.Pools.{IsFiltered}
use neemata_proxy.Router.Filters.Outcomes.{request_filter-IsFiltered}
use neemata_proxy.Router.Upstream.Forwarding.{IsForwarded, upstream_request_filter-IsForwarded}
use neemata_proxy.Router.Upstream.{
  upstream_request_filter, Select, ProxyError, sticky_addr, fail_to_connect, fail_to_proxy,
}
use neemata_proxy.Router.Upstream.Peers.{IsAnswered, sticky_addr-IsChosen}
use neemata_proxy.Router.Upstream.Failures.{
  IsUnbound, fail_to_connect-IsUnbound, fail_to_proxy-request_filter,
}
use neemata_proxy.Router.Upstream.Retries.{connect_failures, retry_count, fail_to_connect-retries}
use neemata_proxy.Tests.Requests.{request, at_chat}
use neemata_proxy.Tests.Sessions.{hash, table, table-IsSound, backends, chat_key}

abbrev balancer : LoadBalancer
balancer = record { addrs = backends; health_check = none; health_check_frequency = none }

abbrev pool : PoolConfig
pool = record {
  lb = balancer;
  secure = false;
  verify_hostname = lit "chat.example.com";
  backends = backends;
}

abbrev routes : RouterConfig
routes = record {
  subdomain_routes = (lit "chat.example.com", lit "chat") ∷ [];
  path_routes = [];
  default_app = none;
  apps = (lit "chat", record { http1 = some pool; ws = none; http2 = none }) ∷ [];
}

abbrev router : Router
router = record {
  config = routes;
  sticky = some table;
  limits = disabled;
  timeouts = default_timeouts;
}

abbrev pub start_exchange : Exchange
start_exchange = record {
  router = router;
  downstream = record { read_timeout = none; keepalive = none; responded = none };
  ctx = new_ctx;
}

chat_host : extract_host at_chat ≡ returned (some (lit "chat.example.com"))
unfolding list_beq lit extract_host host_header normalize_host strip_port_str strip_prefix
    rsplit_once without_port is_empty is_ascii_digit is_ascii_uppercase to_ascii_lowercase in_range
    lower
chat_host = refl

abbrev respond : RespondError
respond status = true

request_filter-IsFiltered_example :
    (end : Exchange) × (answer : Outcome Bool) × (request_filter at_chat 17 respond start_exchange
      ≡ returned (end, answer))
    × IsFiltered at_chat 17 respond (some (lit "chat.example.com")) router end answer
unfolding new_ctx
request_filter-IsFiltered_example =
    request_filter-IsFiltered at_chat 17 respond (some (lit "chat.example.com")) start_exchange
      (refl, refl) chat_host

abbrev pub resolved : ResolvedPool
resolved = of_pool false false pool

-- The balancer that answers with its first address.
abbrev pub select : Select
select lb key max_iterations = elim lb.addrs [ [] ↦ none | addr ∷ _ ↦ some addr ]

sticky_addr-IsChosen_example :
    (end : Exchange) × (addr : Outcome Text) × (sticky_addr hash select 5 5 chat_key resolved table
        start_exchange
      ≡ returned (end, addr))
    × IsAnswered hash select 5 5 chat_key resolved table end addr
sticky_addr-IsChosen_example =
    sticky_addr-IsChosen hash select 5 5 chat_key resolved table start_exchange (omega arith)
      table-IsSound

abbrev connecting : Exchange
connecting = record start_exchange {
  ctx = record new_ctx {
    app_name = some (lit "chat");
    selected_transport = some http1;
    affinity_key = some (lit "k7");
  };
}

abbrev refused_error : ProxyError
refused_error = record { etype = other_error; retry = false }

fail_to_connect-IsUnbound_example :
    (end : Exchange) × (e : ProxyError) × (fail_to_connect hash connecting refused_error
      ≡ returned (end, e))
    × IsUnbound hash connecting refused_error end e
fail_to_connect-IsUnbound_example =
    fail_to_connect-IsUnbound hash connecting refused_error table-IsSound

fail_to_connect-retries_example :
    (end : Exchange) × (es : List ProxyError) × (connect_failures hash connecting
        (other_error ∷ other_error ∷ [])
      ≡ returned (end, es))
    × (retry_count es ≤ 1)
fail_to_connect-retries_example =
    fail_to_connect-retries hash connecting (other_error ∷ other_error ∷ []) table-IsSound

abbrev not_found : ℕ
not_found = 404

-- No application has this host.
abbrev elsewhere : Session
elsewhere = request (lit "x.org") (lit "/") false

abbrev lost : Exchange
lost = record start_exchange {
  downstream = apply_downstream_timeouts default_timeouts start_exchange.downstream;
  ctx = record new_ctx { failure_hint = some missing_application };
}

elsewhere_host : extract_host elsewhere ≡ returned (some (lit "x.org"))
unfolding list_beq lit extract_host host_header normalize_host strip_port_str strip_prefix
    rsplit_once without_port is_empty is_ascii_digit is_ascii_uppercase to_ascii_lowercase in_range
    lower
elsewhere_host = refl

elsewhere-lost :
    request_filter elsewhere 17 respond start_exchange ≡ returned (lost, err (http_status 404))
unfolding list_beq lit request_filter extract_host host_header normalize_host strip_port_str
    strip_prefix rsplit_once without_port is_empty is_ascii_digit is_ascii_uppercase
    to_ascii_lowercase in_range lower lookup resolve_route fail_with request_limit_rejection_status
    extract_first_path_segment split first_non_empty
elsewhere-lost = refl

fail_to_proxy-request_filter_example :
    let (failed, answer) = fail_to_proxy (http_status not_found) lost in
    (answer.error_code ≡ not_found)
    × (failed.downstream.responded ≡ some not_found)
    × ((not_found ≡ 404) ⊎ (not_found ≡ 503))
unfolding new_ctx
fail_to_proxy-request_filter_example =
    fail_to_proxy-request_filter elsewhere 17 respond (some (lit "x.org")) start_exchange lost
      not_found (refl, refl) elsewhere_host elsewhere-lost

upstream_request_filter-IsForwarded_example :
    (end : Option Text) × (answer : Outcome Unit) × (upstream_request_filter
        (λ _. true)
        (record new_ctx { path_rewrite_segment = some (lit "auth") })
        (some (lit "/auth/login?x=1"))
      ≡ returned (end, answer))
    × IsForwarded
        (λ _. true)
        (record new_ctx { path_rewrite_segment = some (lit "auth") })
        (some (lit "/auth/login?x=1"))
        end
        answer
upstream_request_filter-IsForwarded_example =
    upstream_request_filter-IsForwarded (λ _. true)
      (record new_ctx { path_rewrite_segment = some (lit "auth") }) (some (lit "/auth/login?x=1"))
