-- ===== src/Master/Loop.antt =====
-- `accept_connections`, and the loop of `master_main`. A call that ends the process is `none`.
pub mod Separate
mod Tests
use pi_296_cluster.Prelude.{
  ℕ, Bool, true, false, Option, none, some, List, [], ◌∷◌, ◌++◌, ◌==◌, if◌then◌else◌, Outcome, ok,
  fault, hang, ◌>>=◌,
}
use pi_296_cluster.Kernel.{Bytes}
use pi_296_cluster.Master.{Worker, create_worker}
use pi_296_cluster.Master.Floats.{Double}
use pi_296_cluster.Master.System.{System, Call}
use pi_296_cluster.Master.Events.{handle_data}

-- What accept(2) gives: a descriptor with the address of its peer, and whether epoll takes the
-- descriptor; EAGAIN; or another error.
pub data Accepted : Type 0 where
  accepted : (fd : ℕ) (ip : Bytes) (added : Bool) → Accepted
  no_more : Accepted
  accept_failed : Accepted

-- What epoll_wait reports: a connection, or data on a descriptor.
pub data Event : Type 0 where
  connections : List Accepted → Event
  arrived : (fd : ℕ) (call : Call) → Event

module _ {F : Double} (garbage : Worker F) where
  -- A new worker's struct comes from malloc, which leaves `garbage`. Where the list of answers ends,
  -- accept blocks no more.
  unfoldable pub accept_connections : List Accepted → List (Worker F) → Option (List (Worker F))
  accept_connections [] workers = some workers
  accept_connections (no_more ∷ later) workers = some workers
  accept_connections (accept_failed ∷ later) workers = none
  accept_connections (accepted fd ip added ∷ later) workers =
      let rest = accept_connections later (workers ++ (create_worker garbage fd ip ∷ [])) in
      if added then rest else none

  unfoldable pub on_event : Event → System F → Outcome (Option (System F))
  unfolding accept_connections
  on_event (connections answers) s = elim (accept_connections answers s.workers) [
    | none ↦ ok none
    | some workers ↦ ok (some (record s { workers = workers }))
  ]
  on_event (arrived fd call) s = do (s, left) ← handle_data call fd s; ok (some s)

  -- The event loop, until a signal sets `close_master` after these events.
  unfoldable pub event_loop : List Event → System F → Outcome (Option (System F))
  unfolding on_event
  event_loop [] s = ok (some s)
  event_loop (e ∷ es) s = do
    r ← on_event e s
    elim r [ none ↦ ok none | some s' ↦ event_loop es s' ]
