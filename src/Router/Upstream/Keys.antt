-- ===== src/Router/Upstream/Keys.antt =====
-- The key of a request in the sticky table.
use neemata_proxy.Common.{◌≡◌, ap, sym, ◌⊎◌, inl, inr, none, some, arith, Option-cases, some-inj}
use neemata_proxy.Lb.{TransportKind}
use neemata_proxy.Router.Sticky.Evict.{AffinityMapKey}
use neemata_proxy.Router.Filters.{RouterCtx}
use neemata_proxy.Router.Upstream.{affinity_map_key}

-- The application and the affinity key of the request, with a transport.
pub record IsKeyOf (ctx : RouterCtx) (transport : TransportKind) (key : AffinityMapKey)
    : Type 0 where
  pub application : ctx.app_name ≡ some key.app_name
  pub affinity : ctx.affinity_key ≡ some key.affinity_key
  pub over : key.transport ≡ transport

-- The request has no application or no affinity key.
abbrev pub IsKeyless : RouterCtx → Type 0
IsKeyless ctx = (ctx.app_name ≡ none) ⊎ (ctx.affinity_key ≡ none)

pub affinity_map_key-IsKeyOf :
    (ctx : RouterCtx) (transport : TransportKind) (key : AffinityMapKey)
    → affinity_map_key ctx transport ≡ some key
    → IsKeyOf ctx transport key
unfolding affinity_map_key
affinity_map_key-IsKeyOf ctx transport key h = elim (Option-cases ctx.app_name) [
  | inl lost ↦ absurd (ground (arith, lost))
  | inr (app, named) ↦ elim (Option-cases ctx.affinity_key) [
    | inl lost ↦ absurd (ground (arith, named, lost))
    | inr (affinity, has) ↦
        let made : AffinityMapKey = record {
          app_name = app;
          transport = transport;
          affinity_key = affinity;
        } in
        let same : made ≡ key = some-inj (ground (arith, named, has, h)) in
        record {
          application = rw (sym same) named;
          affinity = rw (sym same) has;
          over = ap (λ (k : AffinityMapKey). k.transport) (sym same);
        }
  ]
]

pub affinity_map_key-IsKeyless :
    (ctx : RouterCtx) (transport : TransportKind)
    → affinity_map_key ctx transport ≡ none
    → IsKeyless ctx
unfolding affinity_map_key
affinity_map_key-IsKeyless ctx transport h = elim (Option-cases ctx.app_name) [
  | inl lost ↦ inl lost
  | inr (app, named) ↦ elim (Option-cases ctx.affinity_key) [
    | inl lost ↦ inr lost
    | inr (affinity, has) ↦ absurd (ground (arith, named, has))
  ]
]
