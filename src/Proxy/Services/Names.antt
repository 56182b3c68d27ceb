-- ===== src/Proxy/Services/Names.antt =====
-- The names of services: those of the balancers differ for each application and transport, and none
-- is the name of the listening service.
use neemata_proxy.Common.{
  ℕ, ◌≡◌, ◌≢◌, refl, ap, sym, ◌∙◌, inl, inr, false, Option, none, some, [], ◌∷◌, ◌++◌, arith,
  length, length-append, some-inj, ◌==◌, list_eq, nat_eq, Bool-cases,
}
use neemata_proxy.Text.{Text, lit, text_iff}
use neemata_proxy.Lb.{TransportKind, http1, http2, ws}
use neemata_proxy.Proxy.Config.{PoolKey, pool_key_beq, pool_key_beq_iff, pool_key_eq}
use neemata_proxy.Proxy.Services.{lb_service_name, main_http}

-- The last letter of a text.
abbrev last : Text → Option ℕ
last [] = none
last (c ∷ []) = some c
last (c ∷ d ∷ s) = last (d ∷ s)

last-append : (s : Text) (c : ℕ) (r : Text) → last (s ++ (c ∷ r)) ≡ last (c ∷ r)
last-append [] c r = refl
last-append (d ∷ []) c r = refl
last-append (d ∷ e ∷ s) c r = last-append (e ∷ s) c r

cons-append-ne : (c : ℕ) (s r : Text) → r ≢ (c ∷ s) ++ r
cons-append-ne c s r h = absurd (omega (arith, ap length h, length-append (c ∷ s) r))

cons-inj : (c d : ℕ) (s t : Text) → (c ∷ s) ≡ (d ∷ t) → (c ≡ d) × (s ≡ t)
cons-inj c d s t h = (cc, cc)

append-inj : (s t r : Text) → s ++ r ≡ t ++ r → s ≡ t
append-inj [] [] r h = refl
append-inj [] (c ∷ t) r h = absurd (cons-append-ne c t r h)
append-inj (c ∷ s) [] r h = absurd (cons-append-ne c s r (sym h))
append-inj (c ∷ s) (d ∷ t) r h =
    let (heads, tails) = cons-inj c d (s ++ r) (t ++ r) h in let is = append-inj s t r tails in cc

-- Each transport ends its names with a letter of its own.
abbrev mark : TransportKind → ℕ
mark http1 = b'p'
mark http2 = b'2'
mark ws = b's'

last-lb_service_name :
    (app : Text) (t : TransportKind) → last (lb_service_name app t) ≡ some (mark t)
unfolding lb_service_name lit
last-lb_service_name app http1 = last-append (lit "lb:" ++ app) b':' (lit "http")
last-lb_service_name app http2 = last-append (lit "lb:" ++ app) b':' (lit "http2")
last-lb_service_name app ws = last-append (lit "lb:" ++ app) b':' (lit "ws")

mark-inj : (t u : TransportKind) → mark t ≡ mark u → t ≡ u
mark-inj http1 http1 h = refl
mark-inj http2 http2 h = refl
mark-inj ws ws h = refl
mark-inj http1 http2 h = absurd (omega arith)
mark-inj http1 ws h = absurd (omega arith)
mark-inj http2 http1 h = absurd (omega arith)
mark-inj http2 ws h = absurd (omega arith)
mark-inj ws http1 h = absurd (omega arith)
mark-inj ws http2 h = absurd (omega arith)

append_left-inj : (p s t : Text) → p ++ s ≡ p ++ t → s ≡ t
append_left-inj [] s t h = h
append_left-inj (c ∷ p) s t h =
    let (heads, tails) = cons-inj c c (p ++ s) (p ++ t) h in append_left-inj p s t tails

app-inj : (a b : Text) (t : TransportKind) → lb_service_name a t ≡ lb_service_name b t → a ≡ b
unfolding lb_service_name lit
app-inj a b http1 h =
    append-inj a b (lit ":http")
      (append_left-inj (lit "lb:") (a ++ lit ":http") (b ++ lit ":http") h)
app-inj a b http2 h =
    append-inj a b (lit ":http2")
      (append_left-inj (lit "lb:") (a ++ lit ":http2") (b ++ lit ":http2") h)
app-inj a b ws h =
    append-inj a b (lit ":ws") (append_left-inj (lit "lb:") (a ++ lit ":ws") (b ++ lit ":ws") h)

-- The balancers of two applications, or of two transports, never share a name.
pub lb_service_name-inj :
    (a b : Text) (t u : TransportKind)
    → lb_service_name a t ≡ lb_service_name b u
    → (a ≡ b) × (t ≡ u)
lb_service_name-inj a b t u h =
    let same : t ≡ u =
      mark-inj t u
        (some-inj (sym (last-lb_service_name a t) ∙ ap last h ∙ last-lb_service_name b u)) in
    (app-inj a b t (h ∙ ap (lb_service_name b) (sym same)), same)

first_differs : (s t : Text) → (b'l' ∷ s) ≢ (b'm' ∷ t)
first_differs s t h = let (heads, tails) = cons-inj b'l' b'm' s t h in absurd (omega arith)

lb_service_name-main_http : (a : Text) (t : TransportKind) → lb_service_name a t ≢ main_http
unfolding lb_service_name lit
lb_service_name-main_http a http1 h = first_differs _ _ h
lb_service_name-main_http a http2 h = first_differs _ _ h
lb_service_name-main_http a ws h = first_differs _ _ h

-- So the test on names is the test on the keys of the pools.
pub beq-lb_service_name :
    (a b : Text) (t u : TransportKind)
    → (lb_service_name a t == lb_service_name b u) ≡ pool_key_beq (a, t) (b, u)
beq-lb_service_name a b t u = elim (Bool-cases (pool_key_beq (a, t) (b, u))) [
  | inl same ↦
      let is = (pool_key_beq_iff (a, t) (b, u)).0 same in
      let names : lb_service_name a t ≡ lb_service_name b u =
        ap (λ (k : PoolKey). lb_service_name k.0 k.1) is in
      (text_iff (lb_service_name a t) (lb_service_name b u)).1 names ∙ sym same
  | inr apart ↦ elim (Bool-cases (lb_service_name a t == lb_service_name b u)) [
    | inr differ ↦ differ ∙ sym apart
    | inl equal ↦
        let (x, y) =
          lb_service_name-inj a b t u
            ((text_iff (lb_service_name a t) (lb_service_name b u)).0 equal) in
        let key : Path PoolKey (a, t) (b, u) =
          ap (λ (n : Text). (n, t)) x ∙ ap (λ (k : TransportKind). (b, k)) y in
        absurd (ground (arith, apart, (pool_key_beq_iff (a, t) (b, u)).1 key))
  ]
]

pub beq-main_http : (a : Text) (t : TransportKind) → (lb_service_name a t == main_http) ≡ false
beq-main_http a t =
    ground (arith, lb_service_name-main_http a t, text_iff (lb_service_name a t) main_http)

pub beq-main_http_sym : (a : Text) (t : TransportKind) → (main_http == lb_service_name a t) ≡ false
beq-main_http_sym a t = elim (Bool-cases (main_http == lb_service_name a t)) [
  | inr apart ↦ apart
  | inl same ↦
      absurd
        (lb_service_name-main_http a t (sym ((text_iff main_http (lb_service_name a t)).0 same)))
]
