-- ===== src/Server/Counting.antt =====
-- Handles with some property, counted where src/server.rs keeps them.
use neemata_proxy.Common.{
  ℕ, ◌+◌, ◌≡◌, refl, inl, inr, Bool, Option, none, some, List, [], ◌∷◌, ◌++◌, if◌then◌else◌, arith,
  list_eq, nat_eq, ◌==◌, Bool-cases, subst,
}
use neemata_proxy.Text.{Text, text_iff}
use neemata_proxy.Map.{lookup, insert, remove, Distinct, remove_absent}
use neemata_proxy.Server.{Server, end_old, end_all}

module _ {H : Type 0} (p : H → Bool) where
  abbrev pub one : H → ℕ
  one h = if p h then 1 else 0

  abbrev pub count : List H → ℕ
  count [] = 0
  count (h ∷ hs) = one h + count hs

  abbrev pub count_registered : List (Text × H) → ℕ
  count_registered [] = 0
  count_registered ((name, h) ∷ services) = one h + count_registered services

  abbrev pub count_old : Option H → ℕ
  count_old none = 0
  count_old (some h) = one h

  pub count-append : (hs : List H) (h : H) → count (hs ++ (h ∷ [])) ≡ count hs + one h
  count-append [] h = omega arith
  count-append (g ∷ hs) h = omega (arith, count-append hs h)

  pub count-insert :
      (name : Text) (h : H) (services : List (Text × H))
      → count_registered (insert name h services) + count_old (lookup name services)
        ≡ count_registered services + one h
  unfolding insert lookup
  count-insert name h [] = omega arith
  count-insert name h ((other, g) ∷ services) = ground (arith, count-insert name h services)

  pub count-remove :
      (name : Text) (services : List (Text × H))
      → Distinct services
      → count_registered (remove name services) + count_old (lookup name services)
        ≡ count_registered services
  unfolding remove lookup
  count-remove name [] d = refl
  count-remove name ((other, g) ∷ services) d = elim (Bool-cases (other == name)) [
    | inl same ↦
        let gone : lookup name services ≡ none =
          subst (λ n. lookup n services ≡ none) ((text_iff other name).0 same) d.0 in
        ground (arith, same, remove_absent name services gone)
    | inr apart ↦ ground (arith, apart, count-remove name services d.1)
  ]

  pub count-end_old :
      (old : Option H) (server : Server H)
      → (count (end_old old server).ended ≡ count server.ended + count_old old)
        × ((end_old old server).dropped ≡ server.dropped)
  unfolding end_old
  count-end_old none server = (omega arith, refl)
  count-end_old (some h) server = (count-append server.ended h, refl)

  pub count-end_all :
      (services : List (Text × H)) (server : Server H)
      → (count (end_all services server).ended ≡ count server.ended + count_registered services)
        × ((end_all services server).dropped ≡ server.dropped)
  unfolding end_all
  count-end_all [] server = (omega arith, refl)
  count-end_all ((name, h) ∷ services) server =
      let server' = record server { ended = server.ended ++ (h ∷ []) } in
      let (more, same) = count-end_all services server' in
      (omega (arith, more, count-append server.ended h), same)

pub services-end_old :
    {H : Type 0} (old : Option H) (server : Server H)
    → (end_old old server).services ≡ server.services
unfolding end_old
services-end_old none server = refl
services-end_old (some h) server = refl

pub services-end_all :
    {H : Type 0} (services : List (Text × H)) (server : Server H)
    → (end_all services server).services ≡ server.services
unfolding end_all
services-end_all [] server = refl
services-end_all ((name, h) ∷ services) server =
    services-end_all services (record server { ended = server.ended ++ (h ∷ []) })
