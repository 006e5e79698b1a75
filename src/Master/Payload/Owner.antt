-- ===== src/Master/Payload/Owner.antt =====
-- `get_size` and the descriptor of the worker.
use pi_296_cluster.Prelude.{◌+◌, refl, List, length, Ensures, Ensures-any, Ensures-bind}
use pi_296_cluster.Kernel.{Arrival}
use pi_296_cluster.Master.{Worker}
use pi_296_cluster.Master.Floats.{Double}
use pi_296_cluster.Master.Payload.{get_size, size_loop}
use pi_296_cluster.Master.Parser.Owner.{Own}

module _ {F : Double} where
  pub get_size-fd : (w : Worker F) (s : List Arrival) → Ensures (Own w.worker_fd) (get_size w s)
  unfolding get_size
  get_size-fd w s =
      Ensures-bind (λ _. Unit {0}) _ _ _
        (Ensures-any (size_loop (length s + 1) w.file_size w.size_buffer_pos s)) (λ r u. refl)
