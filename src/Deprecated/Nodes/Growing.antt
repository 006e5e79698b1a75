-- ===== src/Deprecated/Nodes/Growing.antt =====
-- What addNode does to a list of nodes.
use pi_296_cluster.Prelude.{
  arith, ℕ, zero, suc, ◌≡◌, ◌≢◌, refl, true, false, some, ◌==◌, ==_of_ne, ok, hang, if◌then◌else◌,
}
use pi_296_cluster.Kernel.{Bytes}
use pi_296_cluster.Queue.{Ptr, null}
use pi_296_cluster.Master.Floats.{Double}
use pi_296_cluster.Deprecated.Nodes.{Nodes, put_node, new_node, last_loop, add_node}

module _ {F : Double} where
  last_loop-locked :
      (fuel : ℕ) (temp : Ptr) (s : Nodes F)
      → temp ≢ null
      → s.locked ≡ true
      → last_loop fuel temp s ≡ hang
  unfolding last_loop
  last_loop-locked zero temp s ne held = refl
  last_loop-locked (suc fuel) temp s ne held = rw (==_of_ne temp null ne, held) refl

  -- addNode makes the first node of an empty list and unlocks the mutex; on a list that has a node it
  -- never returns, whatever the number of rounds, since it asks for the mutex again that it holds.
  pub add_node-second :
      (fuel : ℕ) (new : Ptr) (socket_fd : ℕ) (address : Bytes) (head : Ptr) (s : Nodes F)
      → s.locked ≡ false
      → add_node fuel new socket_fd address head s ≡ (
          if head == null
          then ok (new, put_node new (some (new_node socket_fd address)) s)
          else hang)
  unfolding add_node
  add_node-second fuel new socket_fd address zero s free = rw free refl
  add_node-second fuel new socket_fd address (suc k) s free =
      let holding : Nodes F = record (put_node new (some (new_node socket_fd address)) s) {
        locked = true;
      } in
      let other : suc k ≢ null = λ e. omega (arith, e) in
      rw free (rw (last_loop-locked fuel (suc k) holding other refl) refl)
