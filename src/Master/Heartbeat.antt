-- ===== src/Master/Heartbeat.antt =====
-- `report_heartbeat`, and the loop at the end of `reschedule` that empties a dead worker's tasks.
pub mod Revival
pub mod Erasing
mod Tests
use pi_296_cluster.Prelude.{
  ℕ, zero, suc, ◌+◌, Bool, true, false, List, [], ◌∷◌, if◌then◌else◌, Outcome, ok, ◌>>=◌,
}
use pi_296_cluster.Kernel.{Bytes}
use pi_296_cluster.Vector.{Vector, erase}
use pi_296_cluster.Master.{Worker}
use pi_296_cluster.Master.Floats.{Double}
use pi_296_cluster.Master.Scheduler.{str_eq}

module _ {F : Double} where
  -- The struct of the worker that a heartbeat came from, at the time `now`.
  abbrev pub beaten : F.D → F.D → Worker F → Worker F
  beaten usage now w = record w { cpu_usage = usage; last_beat_received = now; alive = true }

  -- The first worker with the address is beaten, and no other.
  unfoldable pub report_heartbeat : Bytes → F.D → F.D → List (Worker F) → List (Worker F)
  report_heartbeat worker_addr usage now [] = []
  report_heartbeat worker_addr usage now (w ∷ ws) =
      let later = report_heartbeat worker_addr usage now ws in
      if str_eq w.ip worker_addr then beaten usage now w ∷ ws else w ∷ later

-- `for (i = from; i < from + rounds; i++) vector_erase(recoverable_tasks, i);`
pub erase_loop : {A : Type 0} → ℕ → ℕ → Vector A → Outcome (Vector A)
erase_loop zero i v = ok v
erase_loop (suc rounds) i v = do (v, gone) ← erase v i; erase_loop rounds (i + 1) v

-- The rounds are counted before the first of them.
pub erase_all : {A : Type 0} → Vector A → Outcome (Vector A)
unfolding erase_loop
erase_all v = erase_loop v.size 0 v
