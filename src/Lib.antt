-- ===== src/Lib.antt =====
-- neemata-proxy, the Rust part: a reverse proxy that JavaScript configures through N-API. This
-- library models its own logic; the HTTP proxy underneath (pingora), the `http` crate, N-API and
-- tokio are not code of the repository, and what they answer is a parameter of the definitions.
--
-- The program's parts, and how they work together:
-- - src/options.rs parses and validates the options: Options (the types), Options.Parse (the
--   parsers) and Options.Validate (`validate_applications`). Errors are values of `Result`
--   (Errors, for src/errors.rs).
-- - src/proxy.rs keeps the upstreams of each application: Proxy.Upstreams parses them and builds
--   pools of them (`parse_port_upstream`, `rebuild_app_pools`), Proxy.Inner has the state behind the
--   proxy object with `add_upstream` and `remove_upstream`, and Proxy.Config makes the router's
--   table from the applications and the pools (`build_router_config`). Proxy.Lifecycle has `start`,
--   `stop` and `address`: Calls has what a call does before it returns its promise, Steps what its
--   task does from one await to the next, Runs the runs in which calls and steps take turns, and
--   Orderly the histories with one call at a time.
-- - src/server.rs keeps the services that run, by name: Server. Proxy.Services names them, and
--   Proxy.Listening makes the listener (`build_start_resources`).
-- - src/router.rs answers for each request. The order in which it does so is the order of the
--   callbacks of `ProxyHttp`: Router.Filters has `request_filter`, which checks the limits
--   (Router.Limits), reads the host (Router.Host) and the first path segment (Router.Path), resolves
--   the route (Router.Config) and its pool, and chooses an affinity key (Router.Affinity).
--   Router.Upstream has `upstream_peer`, which asks the table of sticky sessions (Router.Sticky)
--   or the balancer for a backend, and the callbacks for the response, the rewritten request and
--   failures.
-- - src/lb.rs: the transport kinds and the settings of a balancer, in Lb.
-- Common holds the names and lemmas that all of them share, Text the part of `str` that the source
-- uses, Map the hash maps and hash sets, and Tests the theorems at concrete inputs.
--
-- State. `StickySessionState` is a record of its configuration, its shards and the counter of
-- keys. A shard has its map, a flag for a poisoned lock and its counter. An operation takes the state
-- and gives the next one, and runs as a whole: each holds the lock of its shard while it changes it,
-- and the clean-up holds all of them. The router and the context of a request are the record
-- `Exchange` that the callbacks pass on, with what they set on the connection to the client.
--
-- Representation. A text is the list of its code points, and byte offsets are counted in UTF-8, so
-- a slice off a character boundary panics (`Run`). A hash map is an association list without
-- duplicate keys; the order of its entries stands for the unspecified order of iteration. Instants
-- and durations are natural numbers of milliseconds; counters of 64 bits wrap. The hash of a key is
-- any function.
--
-- Fuel. The digits of a number n take at most n + 1 steps, which is the fuel of `digits`. The
-- eviction loop of the clean-up pops one candidate in each round, so its fuel is the number of
-- candidates. All other loops are structural. The tasks of Proxy.Lifecycle have no fuel:
-- `weight` bounds the steps that each has left.
--
-- A step of a task of Proxy.Lifecycle is what it does between two awaits or under one lock. Adding and
-- removing upstreams runs under `update_lock`, and what it reads between its two locks is not
-- changed by the other calls, so its two locks are one step. The registry of services is shared by
-- the tasks; a handle counts as ended when it has been told to shut down and its task was awaited.
--
-- Not modelled: poisoned mutexes of the proxy object, panics of the task that rebuilds pools, how a
-- service ends after it is told to (pingora and tokio), logging, raising errors in JavaScript
-- (N-API), and interleavings of two requests inside one operation of the sticky table.
pub mod Common
pub mod Map
pub mod Text
pub mod Errors
pub mod Lb
pub mod Server
pub mod Options
pub mod Router
pub mod Proxy
pub mod Tests
