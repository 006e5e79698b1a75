-- ===== src/Master/Threads.antt =====
-- The three threads of the master: the event loop, `listen_to_heartbeat` and `detect_heart_failure`. A
-- turn is one event, one datagram or one sweep, from its start to its end; the turns come in any order.
-- The address is the text that inet_ntoa makes of it, and atof is a parameter.
pub mod Separate
pub mod Deaf
mod Tests
use pi_296_cluster.Prelude.{
  ℕ, Bool, true, false, Option, none, some, List, [], ◌∷◌, ◌++◌, if◌then◌else◌, take, drop, length,
  Outcome, ok, fault, hang, ◌>>=◌,
}
use pi_296_cluster.Kernel.{Bytes}
use pi_296_cluster.Master.{Worker}
use pi_296_cluster.Master.Floats.{Double}
use pi_296_cluster.Master.System.{System}
use pi_296_cluster.Master.Heartbeat.{report_heartbeat}
use pi_296_cluster.Master.Recovery.{Round, detect}
use pi_296_cluster.Master.Loop.{Event, on_event}

-- HEARTBEAT_SIZE
abbrev pub heartbeat_size : ℕ
heartbeat_size = 30

-- `buffer` after recvfrom: a longer datagram is cut, and past a shorter one the memory is what it was.
abbrev pub received_into : Bytes → Bytes → Bytes
received_into memory datagram =
    let front = take heartbeat_size datagram in front ++ drop (length front) memory

-- The master with its thread for heartbeats, which has ended when `listening` is false.
pub record Process (F : Double) : Type 0 where
  pub system : System F
  pub keep_update : Bool
  pub listening : Bool

-- A datagram has the address of its sender; it is `none` where recvfrom fails. `memory` is what the
-- buffer of that round holds before.
pub data ThreadTurn (F : Double) : Type 0 where
  event : Event → ThreadTurn F
  datagram : (now : F.D) (memory : Bytes) (received : Option (Bytes × Bytes)) → ThreadTurn F
  check : (now : F.D) (env : ℕ → ℕ → Round) → ThreadTurn F

module _ {F : Double} where
  -- The round of the loop of `listen_to_heartbeat`.
  pub listen : (Bytes → F.D) → Bytes → F.D → Option (Bytes × Bytes) → Process F → Process F
  listen atof memory now none p = record p { keep_update = false; listening = false }
  listen atof memory now (some (addr, bytes)) p =
      let usage = atof (received_into memory bytes) in
      record p {
        system = record p.system { workers = report_heartbeat addr usage now p.system.workers };
      }

  abbrev pub with_system : Process F → Option (System F) → Option (Process F)
  with_system p r = elim r [ none ↦ none | some s ↦ some (record p { system = s }) ]

  module _ (atof : Bytes → F.D) (garbage : Worker F) where
    -- `none` is the end of the process.
    pub take_turn : ThreadTurn F → Process F → Outcome (Option (Process F))
    unfolding listen
    take_turn (event e) p = do r ← on_event garbage e p.system; ok (with_system p r)
    take_turn (datagram now memory received) p =
        ok (some (if p.listening then listen atof memory now received p else p))
    take_turn (check now env) p =
        if p.keep_update
        then (do s ← detect garbage env now p.system; ok (some (record p { system = s })))
        else ok (some p)

    pub run_threads : List (ThreadTurn F) → Process F → Outcome (Option (Process F))
    unfolding take_turn
    run_threads [] p = ok (some p)
    run_threads (t ∷ ts) p = do
      r ← take_turn t p
      elim r [ none ↦ ok none | some p' ↦ run_threads ts p' ]
