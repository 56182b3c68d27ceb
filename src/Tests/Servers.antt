-- ===== src/Tests/Servers.antt =====
-- A registry of services at a concrete history of calls; the handles are numbers.
use neemata_proxy.Common.{ℕ, List, [], ◌∷◌, eqb}
use neemata_proxy.Text.{lit}
use neemata_proxy.Server.{new_server}
use neemata_proxy.Server.Conservation.{
  Operation, add, upsert, remove_named, stop_every, apply_all, IsAccounted, count_given,
  count_refused, count_taken, apply_all-IsAccounted,
}

abbrev history : List (Operation ℕ)
history =
    upsert (lit "main_http") 1
    ∷ add (lit "main_http") 2
    ∷ upsert (lit "main_http") 3
    ∷ upsert (lit "lb:auth:http") 4
    ∷ remove_named (lit "main_http")
    ∷ stop_every
    ∷ []

apply_all-IsAccounted_example :
    IsAccounted
      (eqb 2)
      new_server
      (apply_all history new_server)
      (count_given (eqb 2) history)
      (count_refused (eqb 2) history new_server)
      (count_taken (eqb 2) history new_server)
unfolding new_server
apply_all-IsAccounted_example = apply_all-IsAccounted (eqb 2) history new_server tt
