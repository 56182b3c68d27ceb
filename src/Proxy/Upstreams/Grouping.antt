-- ===== src/Proxy/Upstreams/Grouping.antt =====
-- What the grouping of upstreams by transport gives for each transport.
use neemata_proxy.Common.{
  ◌≡◌, refl, ap, sym, ◌∙◌, inl, inr, Option, none, some, List, [], ◌∷◌, ◌++◌, if◌then◌else◌, ◌==◌,
  append_assoc, append-nil, Option-cases, Bool-cases,
}
use neemata_proxy.Map.{lookup, Distinct, lookup-insert, insert-Distinct}
use neemata_proxy.Lb.{TransportKind, transport_eq, transport_beq_iff}
use neemata_proxy.Proxy.Upstreams.{PortUpstream, Groups, push_upstream, group_upstreams}

-- The upstreams of one transport, in their order.
unfoldable pub of_transport : TransportKind → List PortUpstream → List PortUpstream
of_transport t [] = []
of_transport t (u ∷ us) =
    let rest = of_transport t us in if u.transport == t then u ∷ rest else rest

-- A group with more upstreams behind it; no group is empty.
abbrev pub grown : Option (List PortUpstream) → List PortUpstream → Option (List PortUpstream)
grown none [] = none
grown none (u ∷ us) = some (u ∷ us)
grown (some list) us = some (list ++ us)

grown-append :
    (o : Option (List PortUpstream)) (u : PortUpstream) (us : List PortUpstream)
    → grown (grown o (u ∷ [])) us ≡ grown o (u ∷ us)
grown-append none u us = refl
grown-append (some list) u us = ap some (append_assoc list (u ∷ []) us)

grown-nil : (o : Option (List PortUpstream)) → grown o [] ≡ o
grown-nil none = refl
grown-nil (some list) = ap some (append-nil list)

lookup-push_upstream :
    (t : TransportKind) (u : PortUpstream) (groups : Groups)
    → lookup t (push_upstream u groups)
      ≡ (if u.transport == t then grown (lookup t groups) (u ∷ []) else lookup t groups)
unfolding push_upstream
lookup-push_upstream t u groups = elim (Bool-cases (u.transport == t)) [
  | inl same ↦
      let at : u.transport ≡ t = (transport_beq_iff u.transport t).0 same in
      elim (Option-cases (lookup u.transport groups)) [
        | inl e ↦
            rw (e, push_upstream)
              (lookup-insert u.transport t (u ∷ []) groups
                ∙ rw (same, ap (λ s. lookup s groups) (sym at) ∙ e) refl)
        | inr (list, e) ↦
            rw (e, push_upstream)
              (lookup-insert u.transport t (list ++ u ∷ []) groups
                ∙ rw (same, ap (λ s. lookup s groups) (sym at) ∙ e) refl)
      ]
  | inr apart ↦ elim (Option-cases (lookup u.transport groups)) [
    | inl e ↦ rw (e, push_upstream) (lookup-insert u.transport t (u ∷ []) groups ∙ rw apart refl)
    | inr (list, e) ↦
        rw (e, push_upstream) (lookup-insert u.transport t (list ++ u ∷ []) groups ∙ rw apart refl)
  ]
]

push_upstream-Distinct :
    (u : PortUpstream) (groups : Groups) → Distinct groups → Distinct (push_upstream u groups)
unfolding push_upstream
push_upstream-Distinct u groups d = elim (Option-cases (lookup u.transport groups)) [
  | inl e ↦ rw (e, push_upstream) (insert-Distinct u.transport (u ∷ []) groups d)
  | inr (list, e) ↦ rw (e, push_upstream) (insert-Distinct u.transport (list ++ u ∷ []) groups d)
]

pub lookup-group_upstreams :
    (t : TransportKind) (us : List PortUpstream) (groups : Groups)
    → lookup t (group_upstreams us groups) ≡ grown (lookup t groups) (of_transport t us)
unfolding group_upstreams of_transport
lookup-group_upstreams t [] groups = sym (grown-nil (lookup t groups))
lookup-group_upstreams t (u ∷ us) groups = elim (Bool-cases (u.transport == t)) [
  | inl same ↦
      lookup-group_upstreams t us (push_upstream u groups)
      ∙ ap (λ o. grown o (of_transport t us)) (lookup-push_upstream t u groups)
      ∙ rw same (grown-append (lookup t groups) u (of_transport t us))
  | inr apart ↦
      lookup-group_upstreams t us (push_upstream u groups)
      ∙ ap (λ o. grown o (of_transport t us)) (lookup-push_upstream t u groups)
      ∙ rw apart refl
]

pub group_upstreams-Distinct :
    (us : List PortUpstream) (groups : Groups)
    → Distinct groups
    → Distinct (group_upstreams us groups)
unfolding group_upstreams
group_upstreams-Distinct [] groups d = d
group_upstreams-Distinct (u ∷ us) groups d =
    group_upstreams-Distinct us (push_upstream u groups) (push_upstream-Distinct u groups d)
