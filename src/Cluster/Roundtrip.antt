-- ===== src/Cluster/Roundtrip.antt =====
-- A job from the file that the user gives to the output that is printed.
use pi_296_cluster.Prelude.{ℕ, ◌≡◌, List, pos}
use pi_296_cluster.Kernel.{Bytes, Arrival}
use pi_296_cluster.Kernel.Accepting.{Accepts, AcceptsBlocking}
use pi_296_cluster.Kernel.Delivery.{Delivers}
use pi_296_cluster.Interface.Printing.{Arrives}
use pi_296_cluster.Master.{Worker}
use pi_296_cluster.Master.System.{System}
use pi_296_cluster.Cluster.{Hop, to_interface, Journey}

-- Every hop brings all bytes, cut up as it likes; no write is refused; the temporary files are opened.
pub record IsSmooth (j : Journey) : Type 0 where
  pub next : Hop → List Arrival
  pub delivered : (h : Hop) (bs : Bytes) → Delivers bs (j.carry h bs) (next h)
  pub arrived : (bs : Bytes) → Arrives bs (j.carry to_interface bs) (next to_interface)
  pub interface_writes : AcceptsBlocking j.interface_net
  pub worker_writes : AcceptsBlocking j.worker_net
  pub up_fd : ℕ
  pub up_opened : j.up.fresh ≡ pos up_fd
  pub up_disk : Accepts j.up.disk
  pub up_net : Accepts j.up.net
  pub down_fd : ℕ
  pub down_opened : j.down.fresh ≡ pos down_fd
  pub down_disk : Accepts j.down.disk
  pub down_net : Accepts j.down.net
