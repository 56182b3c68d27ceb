-- ===== src/Lb.antt =====
-- src/lb.rs: transport kinds, and the part of pingora's load balancer that the source sets. What
-- the balancer selects is a parameter of the operations that ask it.
use neemata_proxy.Common.{ℕ, ◌≡◌, ◌↔◌, Bool, true, false, Option, List, arith, Eq}
use neemata_proxy.Text.{Text}

pub data TransportKind : Type 0 where
  http1 http2 ws : TransportKind

unfoldable pub transport_beq : TransportKind → TransportKind → Bool
transport_beq http1 http1 = true
transport_beq http2 http2 = true
transport_beq ws ws = true
transport_beq _ _ = false

pub transport_beq_iff : (a b : TransportKind) → (transport_beq a b ≡ true) ↔ (a ≡ b)
unfolding transport_beq
transport_beq_iff a b = ground arith

instance abbrev pub transport_eq : Eq TransportKind
transport_eq = record { beq = transport_beq; beq_iff = transport_beq_iff }

-- The TCP health check of a pool, with TLS for a host name or without.
pub data HealthCheck : Type 0 where
  tcp : HealthCheck
  tls : Text → HealthCheck

-- A balancer over socket addresses; the frequency of its checks in milliseconds.
pub record LoadBalancer : Type 0 where
  pub addrs : List Text
  pub health_check : Option HealthCheck
  pub health_check_frequency : Option ℕ
