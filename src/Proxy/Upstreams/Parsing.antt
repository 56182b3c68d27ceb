-- ===== src/Proxy/Upstreams/Parsing.antt =====
-- Which upstreams `parse_port_upstream` accepts.
use neemata_proxy.Common.{
  ℕ, ◌≡◌, ◌≤◌, refl, ◌||◌, Bool, true, false, not, list_eq, nat_eq, ◌==◌, eqb, ltb, if◌then◌else◌,
  arith, subst, sym, ap, ◌∙◌, ◌↔◌, list_beq,
}
use neemata_proxy.Text.{Text, lit, is_empty, text_iff}
use neemata_proxy.Errors.{
  JsError, Result, ok, err, >>=-eq-ok, throw_type_error, throw_generic_error,
}
use neemata_proxy.Lb.{TransportKind, http1, http2, ws}
use neemata_proxy.Proxy.Upstreams.{
  PortUpstream, PortUpstreamOptions, UpstreamOptions, port_options, unix_options, parse_transport,
  parse_port_upstream,
}

-- How JavaScript names the transports.
abbrev pub transport_name : TransportKind → Text
transport_name http1 = lit "http"
transport_name http2 = lit "http2"
transport_name ws = lit "ws"

-- An upstream that is as the options ask, with a port and a host name that can be used.
pub record IsAccepted (o : PortUpstreamOptions) (u : PortUpstream) : Type 0 where
  pub port_kind : o.kind ≡ lit "port"
  pub transport : o.transport ≡ transport_name u.transport
  pub secure : u.secure ≡ o.secure
  pub hostname : u.hostname ≡ o.hostname
  pub port : u.port ≡ o.port
  pub in_range : (1 ≤ u.port) × (u.port ≤ 65535)
  pub named : is_empty u.hostname ≡ false

ok-inj : {A : Type 0} {a b : A} → Path (Result A) (ok a) (ok b) → a ≡ b
ok-inj h = cc

rejects :
    {A : Type 0} (b : Bool) (e : JsError) (k : Result A) {a : A}
    → (if b then err e else k) ≡ ok a
    → (b ≡ false) × (k ≡ ok a)
rejects true e k h = absurd (cc)
rejects false e k h = (refl, h)

is_port : (kind : Text) → not (kind == lit "port") ≡ false → kind ≡ lit "port"
is_port kind h = (text_iff kind (lit "port")).0 (ground arith)

port_range : (n : ℕ) → (eqb n 0 || ltb 65535 n) ≡ false → (1 ≤ n) × (n ≤ 65535)
port_range n h = ground arith

transport_known :
    (name : Text) (t : TransportKind) → parse_transport name ≡ ok t → name ≡ transport_name t
unfolding parse_transport throw_type_error
transport_known name http1 h = (text_iff name (lit "http")).0 (ground arith)
transport_known name http2 h = (text_iff name (lit "http2")).0 (ground arith)
transport_known name ws h = (text_iff name (lit "ws")).0 (ground arith)

transport_parsed : (t : TransportKind) → parse_transport (transport_name t) ≡ ok t
unfolding list_beq lit parse_transport
transport_parsed http1 = refl
transport_parsed http2 = refl
transport_parsed ws = refl

accepted :
    (o : PortUpstreamOptions) (u : PortUpstream)
    → parse_port_upstream (port_options o) ≡ ok u
    → IsAccepted o u
unfolding parse_port_upstream throw_type_error throw_generic_error
accepted o u h =
    let (kind, h1) = rejects (not (o.kind == lit "port")) _ _ h in
    let (t, parsed, h2) = >>=-eq-ok (parse_transport o.transport) _ h1 in
    let (range, h3) = rejects (eqb o.port 0 || ltb 65535 o.port) _ _ h2 in
    let (full, last) = rejects (is_empty o.hostname) _ _ h3 in
    subst (IsAccepted o) (ok-inj last) (record {
      port_kind = is_port o.kind kind;
      transport = transport_known o.transport t parsed;
      secure = refl;
      hostname = refl;
      port = refl;
      in_range = port_range o.port range;
      named = full;
    })

remade :
    (u : PortUpstream) {secure : Bool} {hostname : Text} {port : ℕ}
    → u.secure ≡ secure
    → u.hostname ≡ hostname
    → u.port ≡ port
    → record { transport = u.transport; secure = secure; hostname = hostname; port = port } ≡ u
remade u a b c = rw (sym a, sym b, sym c) refl

accepts :
    (o : PortUpstreamOptions) (u : PortUpstream)
    → IsAccepted o u
    → parse_port_upstream (port_options o) ≡ ok u
unfolding parse_port_upstream
accepts o u a =
    let kind : (o.kind == lit "port") ≡ true = (text_iff o.kind (lit "port")).1 a.port_kind in
    let known : parse_transport o.transport ≡ ok u.transport =
      ap parse_transport a.transport ∙ transport_parsed u.transport in
    let range : (eqb o.port 0 || ltb 65535 o.port) ≡ false = ground (arith, a.port, a.in_range) in
    let full : is_empty o.hostname ≡ false = ap is_empty (sym a.hostname) ∙ a.named in
    rw (parse_port_upstream, kind, known, range, full) (ap ok (remade u a.secure a.hostname a.port))

-- An upstream is accepted exactly when it is a port upstream whose transport is named `http`,
-- `http2` or `ws`, with a port from 1 to 65535 and a host name that is not empty; what is made of
-- it has that transport and the options' host name, port and `secure`.
pub parse_port_upstream_iff :
    (options : UpstreamOptions) (u : PortUpstream)
    → (parse_port_upstream options ≡ ok u)
      ↔ ((o : PortUpstreamOptions) × (options ≡ port_options o) × IsAccepted o u)
unfolding parse_port_upstream throw_generic_error
parse_port_upstream_iff (port_options o) u =
    (λ h. (o, refl, accepted o u h), λ (o', same, a). ap parse_port_upstream same ∙ accepts o' u a)
parse_port_upstream_iff (unix_options o) u =
    (λ h. absurd (ground arith), λ (o', same, _). absurd (cc (same)))
