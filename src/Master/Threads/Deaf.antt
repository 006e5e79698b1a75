-- ===== src/Master/Threads/Deaf.antt =====
-- The master after recvfrom has failed.
use pi_296_cluster.Prelude.{
  ◌≡◌, refl, Bool, true, false, Option, none, some, List, [], ◌∷◌, Outcome, ok, fault, hang, ◌>>=◌,
}
use pi_296_cluster.Kernel.{Bytes}
use pi_296_cluster.Master.{Worker}
use pi_296_cluster.Master.Floats.{Double}
use pi_296_cluster.Master.System.{System}
use pi_296_cluster.Master.Loop.{Event, on_event, event_loop}
use pi_296_cluster.Master.Threads.{
  Process, ThreadTurn, event, datagram, check, listen, with_system, take_turn, run_threads,
}

module _ {F : Double} where
  -- The turns of the event loop.
  abbrev pub events_of : List (ThreadTurn F) → List Event
  events_of [] = []
  events_of (event e ∷ ts) = e ∷ events_of ts
  events_of (datagram now memory received ∷ ts) = events_of ts
  events_of (check now env ∷ ts) = events_of ts

  -- The master when `listen_to_heartbeat` has ended and has cleared `keep_update`.
  abbrev pub deaf : System F → Process F
  deaf s = record { system = s; keep_update = false; listening = false }

  module _ (atof : Bytes → F.D) (garbage : Worker F) where
    then_run :
        (ts : List (ThreadTurn F)) (m : Outcome (Option (System F))) (s₀ : System F)
        → ((s : System F)
            → run_threads atof garbage ts (deaf s)
              ≡ (event_loop garbage (events_of ts) s >>= λ r. ok (with_system (deaf s₀) r)))
        → ((m >>= λ r. ok (with_system (deaf s₀) r)) >>= λ r.
            elim r as (λ _. Outcome (Option (Process F))) [
              | none ↦ ok none
              | some p' ↦ run_threads atof garbage ts p'
            ])
          ≡ ((m >>= λ r. elim r as (λ _. Outcome (Option (System F))) [
            | none ↦ ok none
            | some s' ↦ event_loop garbage (events_of ts) s'
          ])
              >>= λ r. ok (with_system (deaf s₀) r))
    then_run ts (ok none) s₀ later = refl
    then_run ts (ok (some s)) s₀ later = later s
    then_run ts fault s₀ later = refl
    then_run ts hang s₀ later = refl

    deaf_run :
        (ts : List (ThreadTurn F)) (s : System F)
        → run_threads atof garbage ts (deaf s)
          ≡ (event_loop garbage (events_of ts) s >>= λ r. ok (with_system (deaf s) r))
    unfolding run_threads take_turn event_loop
    deaf_run [] s = refl
    deaf_run (event e ∷ ts) s = then_run ts (on_event garbage e s) s (λ u. deaf_run ts u)
    deaf_run (datagram now memory received ∷ ts) s = deaf_run ts s
    deaf_run (check now env ∷ ts) s = deaf_run ts s

    -- Once recvfrom has failed, the master does what the event loop alone does on the events among the
    -- turns that follow: no datagram and no sweep has any effect any more.
    pub run_threads-event_loop :
        (now : F.D) (memory : Bytes) (ts : List (ThreadTurn F)) (keep : Bool) (s : System F)
        → run_threads atof garbage
            (datagram now memory none ∷ ts)
            (record { system = s; keep_update = keep; listening = true })
          ≡ (event_loop garbage (events_of ts) s >>= λ r. ok (with_system (deaf s) r))
    unfolding run_threads take_turn listen
    run_threads-event_loop now memory ts keep s = deaf_run ts s
