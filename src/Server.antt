-- ===== src/Server.antt =====
-- src/server.rs: the registry of the services that run for the proxy, by name. The handle of a
-- service is any type; what becomes of a handle is kept: whether it is registered, whether it has
-- been ended (told to shut down, and its task awaited), or whether it was dropped.
pub mod Counting
pub mod Conservation
use neemata_proxy.Common.{
  ◌≡◌, Bool, Option, none, some, List, [], ◌∷◌, ◌++◌, map, if◌then◌else◌, list_eq, nat_eq,
}
use neemata_proxy.Text.{Text}
use neemata_proxy.Map.{lookup, insert, remove}

pub record Server (H : Type 0) : Type 0 where
  pub services : List (Text × H)
  pub ended : List H
  pub dropped : List H

pub data AddServiceError : Type 0 where
  already_exists : AddServiceError

module _ {H : Type 0} where
  -- Server::new
  unfoldable pub new_server : Server H
  new_server = record { services = []; ended = []; dropped = [] }

  -- A handle that is refused is dropped: its task goes on, and nobody can tell it to stop.
  unfoldable pub add_service : Text → H → Server H → Option AddServiceError × Server H
  add_service name service server = elim (lookup name server.services) [
    | some _ ↦ (some already_exists, record server { dropped = server.dropped ++ (service ∷ []) })
    | none ↦ (none, record server { services = insert name service server.services })
  ]

  -- `if let Some(old) = old`: the signal, and the wait for the task.
  unfoldable pub end_old : Option H → Server H → Server H
  end_old none server = server
  end_old (some old) server = record server { ended = server.ended ++ (old ∷ []) }

  unfoldable pub upsert_service : Text → H → Server H → Server H
  unfolding end_old
  upsert_service name service server =
      end_old (lookup name server.services)
        (record server { services = insert name service server.services })

  unfoldable pub remove_service : Text → Server H → Server H
  unfolding end_old
  remove_service name server =
      end_old (lookup name server.services)
        (record server { services = remove name server.services })

  -- The loop over the handles that were taken out.
  unfoldable pub end_all : List (Text × H) → Server H → Server H
  end_all [] server = server
  end_all ((name, handle) ∷ services) server =
      end_all services (record server { ended = server.ended ++ (handle ∷ []) })

  unfoldable pub stop_all : Server H → Server H
  unfolding end_all
  stop_all server = end_all server.services (record server { services = [] })
