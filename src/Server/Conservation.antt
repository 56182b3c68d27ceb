-- ===== src/Server/Conservation.antt =====
-- No handle is lost: whatever calls are made of a server, each handle given to it is registered,
-- has been ended, or was dropped when its name was taken, and only one of these.
use neemata_proxy.Common.{
  ℕ, ◌+◌, ◌≡◌, sym, inl, inr, Bool, Option, none, some, List, [], ◌∷◌, ◌++◌, ap, ◌∙◌, arith,
  list_eq, nat_eq, Option-cases, subst,
}
use neemata_proxy.Text.{Text}
use neemata_proxy.Map.{lookup, insert, remove, Distinct, insert-Distinct, remove-Distinct}
use neemata_proxy.Server.{Server, add_service, end_old, upsert_service, remove_service, stop_all}
use neemata_proxy.Server.Counting.{
  one, count, count_registered, count_old, count-append, count-insert, count-remove, count-end_old,
  count-end_all, services-end_old, services-end_all,
}

-- The calls of a server, one for each method.
pub data Operation (H : Type 0) : Type 0 where
  add upsert : Text → H → Operation H
  remove_named : Text → Operation H
  stop_every : Operation H

module _ {H : Type 0} where
  unfoldable pub apply : Operation H → Server H → Server H
  unfolding add_service upsert_service remove_service stop_all
  apply (add name h) server = (add_service name h server).1
  apply (upsert name h) server = upsert_service name h server
  apply (remove_named name) server = remove_service name server
  apply stop_every server = stop_all server

  unfoldable pub apply_all : List (Operation H) → Server H → Server H
  unfolding apply
  apply_all [] server = server
  apply_all (o ∷ os) server = apply_all os (apply o server)

module _ {H : Type 0} (p : H → Bool) where
  -- The handles that the calls give to the server.
  abbrev pub count_given_by : Operation H → ℕ
  count_given_by (add name h) = one p h
  count_given_by (upsert name h) = one p h
  count_given_by (remove_named name) = 0
  count_given_by stop_every = 0

  abbrev pub count_given : List (Operation H) → ℕ
  count_given [] = 0
  count_given (o ∷ os) = count_given_by o + count_given os

  -- The handle that a call is refused: an `add` under a name that is taken.
  abbrev pub count_refused_by : Operation H → Server H → ℕ
  count_refused_by (add name h) server = elim (lookup name server.services) [
    | some _ ↦ one p h
    | none ↦ 0
  ]
  count_refused_by (upsert name h) server = 0
  count_refused_by (remove_named name) server = 0
  count_refused_by stop_every server = 0

  abbrev pub count_refused : List (Operation H) → Server H → ℕ
  count_refused [] server = 0
  count_refused (o ∷ os) server = count_refused_by o server + count_refused os (apply o server)

  -- The handles that a call takes out of the registry: the one that was under a replaced or removed
  -- name, or all of them.
  abbrev pub count_taken_by : Operation H → Server H → ℕ
  count_taken_by (add name h) server = 0
  count_taken_by (upsert name h) server = count_old p (lookup name server.services)
  count_taken_by (remove_named name) server = count_old p (lookup name server.services)
  count_taken_by stop_every server = count_registered p server.services

  abbrev pub count_taken : List (Operation H) → Server H → ℕ
  count_taken [] server = 0
  count_taken (o ∷ os) server = count_taken_by o server + count_taken os (apply o server)

  -- Where the handles are after some calls that were given, refused and taking out so many.
  pub record IsAccounted (server after : Server H) (given refused taken : ℕ) : Type 0 where
    pub registered :
        count_registered p after.services + taken + refused
        ≡ count_registered p server.services + given
    pub ended : count p after.ended ≡ count p server.ended + taken
    pub dropped : count p after.dropped ≡ count p server.dropped + refused

module _ {H : Type 0} where
  apply-Distinct :
      (o : Operation H) (server : Server H)
      → Distinct server.services
      → Distinct (apply o server).services
  unfolding apply add_service upsert_service remove_service stop_all
  apply-Distinct (add name h) server d = elim (Option-cases (lookup name server.services)) [
    | inl free ↦
        let inserted = record server { services = insert name h server.services } in
        let e : (add_service name h server).1 ≡ inserted = ground (arith, free) in
        subst (λ (s : Server H). Distinct s.services) (sym e)
          (insert-Distinct name h server.services d)
    | inr (old, taken) ↦
        let refused = record server { dropped = server.dropped ++ (h ∷ []) } in
        let e : (add_service name h server).1 ≡ refused = ground (arith, taken) in
        subst (λ (s : Server H). Distinct s.services) (sym e) d
  ]
  apply-Distinct (upsert name h) server d =
      subst Distinct
        (sym (
          services-end_old (lookup name server.services)
            (record server { services = insert name h server.services })))
        (insert-Distinct name h server.services d)
  apply-Distinct (remove_named name) server d =
      subst Distinct
        (sym (
          services-end_old (lookup name server.services)
            (record server { services = remove name server.services })))
        (remove-Distinct name server.services d)
  apply-Distinct stop_every server d =
      subst Distinct (sym (services-end_all server.services (record server { services = [] }))) tt

module _ {H : Type 0} (p : H → Bool) where
  ended_once :
      (server : Server H) (services : List (Text × H)) (old : Option H) (given : ℕ)
      → count_registered p services + count_old p old ≡ count_registered p server.services + given
      → IsAccounted p server
          (end_old old (record server { services = services }))
          given
          0
          (count_old p old)
  ended_once server services old given h =
      let server' = record server { services = services } in
      let (more, same) = count-end_old p old server' in
      record {
        registered =
            ap (λ s. count_registered p s + count_old p old + 0) (services-end_old old server')
            ∙ omega (arith, h);
        ended = more;
        dropped = ap (count p) same ∙ omega arith;
      }

  apply-IsAccounted :
      (o : Operation H) (server : Server H)
      → Distinct server.services
      → IsAccounted p server
          (apply o server)
          (count_given_by p o)
          (count_refused_by p o server)
          (count_taken_by p o server)
  unfolding apply add_service upsert_service remove_service stop_all
  apply-IsAccounted (add name h) server d = elim (Option-cases (lookup name server.services)) [
    | inl free ↦ record {
      registered = ground (arith, free, count-insert p name h server.services);
      ended = ground (arith, free);
      dropped = ground (arith, free);
    }
    | inr (old, taken) ↦ record {
      registered = ground (arith, taken);
      ended = ground (arith, taken);
      dropped = ground (arith, taken, count-append p server.dropped h);
    }
  ]
  apply-IsAccounted (upsert name h) server d =
      ended_once server (insert name h server.services) (lookup name server.services) _
        (count-insert p name h server.services)
  apply-IsAccounted (remove_named name) server d =
      ended_once server (remove name server.services) (lookup name server.services) 0
        (omega (arith, count-remove p name server.services d))
  apply-IsAccounted stop_every server d =
      let empty = record server { services = [] } in
      let (more, same) = count-end_all p server.services empty in
      record {
        registered =
            ap (λ s. count_registered p s + count_registered p server.services + 0)
              (services-end_all server.services empty)
            ∙ omega arith;
        ended = more;
        dropped = ap (count p) same ∙ omega arith;
      }

  -- From any registry without duplicate names, after any calls, for the handles with some property:
  -- those that were dropped are the ones that an `add` gave under a name that was taken, no others;
  -- those that were ended are the ones that a call took out of the registry, by replacing, removing
  -- or stopping them; and those that are registered are the ones registered before or given, less
  -- both. No handle is lost, and none is ended twice.
  pub apply_all-IsAccounted :
      (os : List (Operation H)) (server : Server H)
      → Distinct server.services
      → IsAccounted p server
          (apply_all os server)
          (count_given p os)
          (count_refused p os server)
          (count_taken p os server)
  unfolding apply_all
  apply_all-IsAccounted [] server d = record {
    registered = omega arith;
    ended = omega arith;
    dropped = omega arith;
  }
  apply_all-IsAccounted (o ∷ os) server d =
      let now = apply-IsAccounted o server d in
      let later = apply_all-IsAccounted os (apply o server) (apply-Distinct o server d) in
      record {
        registered = omega (arith, now.registered, later.registered);
        ended = omega (arith, now.ended, later.ended);
        dropped = omega (arith, now.dropped, later.dropped);
      }
