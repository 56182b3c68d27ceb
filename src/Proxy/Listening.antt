-- ===== src/Proxy/Listening.antt =====
-- src/proxy.rs: the address that the proxy listens at, and the resources of a start
-- (`build_start_resources`). Binding, reading the address, and reading certificates are the
-- operating system's and pingora's: their answers are parameters.
use neemata_proxy.Common.{ℕ, Bool, Option, none, some, ◌++◌}
use neemata_proxy.Text.{Text, lit}
use neemata_proxy.Errors.{Code, listen_bind_failed, invalid_proxy_options}
use neemata_proxy.Options.{ListenerTlsOptionsParsed}
use neemata_proxy.Proxy.Upstreams.{DeferredResult, done, and_then, fail_with_code}

pub record BoundListenAddress : Type 0 where
  pub hostname : Text
  pub port : ℕ

pub record ProxyAddress : Type 0 where
  pub hostname : Text
  pub port : ℕ

-- `ProxyAddress::from`; a `u16` as `u32` is the same number.
unfoldable pub proxy_address : BoundListenAddress → ProxyAddress
proxy_address address = record { hostname = address.hostname; port = address.port }

-- An answer of the system: a value, or an error as it prints.
pub data Answer (A : Type 0) : Type 0 where
  granted : A → Answer A
  refused : Text → Answer A

-- A bound socket, with what it answers to `local_addr` and `set_nonblocking`.
pub record Listener : Type 0 where
  pub local_addr : Answer BoundListenAddress
  pub set_nonblocking : Answer Unit

-- The part of pingora's settings that the source sets.
pub record TlsSettings : Type 0 where
  pub cert_path : Text
  pub key_path : Text
  pub h2 : Bool

-- `TcpListener::bind`, and whether `TlsSettings::intermediate` reads these files.
pub record Network : Type 0 where
  pub bind : Text → Answer Listener
  pub intermediate : Text → Text → Answer Unit

-- What a listening service serves with.
pub record HttpService : Type 0 where
  pub tls : Option TlsSettings
  pub listen_address : BoundListenAddress

-- `answer.map_err(…)?`
abbrev pub granted_or : {A : Type 0} → Answer A → Code → Text → DeferredResult A
granted_or (granted a) code msg = done a
granted_or (refused e) code msg = fail_with_code code (msg ++ e)

unfoldable pub build_tls_settings :
    Network → Option ListenerTlsOptionsParsed → DeferredResult (Option TlsSettings)
build_tls_settings network none = done none
build_tls_settings network (some tls) =
    and_then
      (granted_or (network.intermediate tls.cert_path tls.key_path) invalid_proxy_options (
        lit "Failed to configure TLS using cert '"
        ++ tls.cert_path
        ++ lit "' and key '"
        ++ tls.key_path
        ++ lit "': "))
      (λ _.
        done (
          some (record { cert_path = tls.cert_path; key_path = tls.key_path; h2 = tls.enable_h2 })))

unfoldable pub build_start_resources :
    Network → Text → Option ListenerTlsOptionsParsed → DeferredResult HttpService
unfolding build_tls_settings
build_start_resources network listen tls =
    and_then
      (granted_or (network.bind listen) listen_bind_failed
        (lit "Failed to bind listener on '" ++ listen ++ lit "': "))
      (λ listener.
        and_then
          (granted_or listener.local_addr listen_bind_failed
            (lit "Failed to read bound listener address for '" ++ listen ++ lit "': "))
          (λ listen_address.
            and_then
              (granted_or listener.set_nonblocking listen_bind_failed
                (lit "Failed to set listener nonblocking: "))
              (λ _.
                and_then (build_tls_settings network tls)
                  (λ settings. done (record { tls = settings; listen_address = listen_address })))))
