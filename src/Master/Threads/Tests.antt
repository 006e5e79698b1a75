-- ===== src/Master/Threads/Tests.antt =====
-- A heartbeat, a connection and a sweep, in this order; and the master after recvfrom has failed.
use pi_296_cluster.Prelude.{
  ◌≡◌, refl, ap, true, false, none, some, ℕ, List, [], ◌∷◌, pos, pos_part, ok, ◌>>=◌,
}
use pi_296_cluster.Kernel.{Bytes}
use pi_296_cluster.Master.{Worker, create_worker, reset_worker_for_parsing}
use pi_296_cluster.Master.Samples.{whole_numbers, machine}
use pi_296_cluster.Master.System.{System}
use pi_296_cluster.Master.Heartbeat.{beaten, report_heartbeat}
use pi_296_cluster.Master.Events.Reading.{IsSeparate}
use pi_296_cluster.Master.Recovery.{Round, sweep, detect}
use pi_296_cluster.Master.Loop.{
  connections, accepted, no_more, accept_connections, on_event, event_loop,
}
use pi_296_cluster.Master.Threads.{
  Process, ThreadTurn, event, datagram, check, listen, with_system, take_turn, run_threads,
}
use pi_296_cluster.Master.Threads.Separate.{Allowed, run_threads-IsSeparate}
use pi_296_cluster.Master.Threads.Deaf.{deaf, run_threads-event_loop}

abbrev garbage : Worker whole_numbers
garbage = machine 0 true 3 []

-- The usage is the first byte of the text.
abbrev first_digit : Bytes → ℕ
first_digit [] = 0
first_digit (b ∷ bs) = b

abbrev with_workers : List (Worker whole_numbers) → System whole_numbers
with_workers ws = record {
  workers = ws;
  interface = none;
  interface_fd = pos 4;
  task_list = [];
  files = λ n. none;
  opened = λ d. none;
  sent = [];
  closed = [];
}

abbrev process : List (Worker whole_numbers) → Process whole_numbers
process ws = record { system = with_workers ws; keep_update = true; listening = true }

abbrev round : Round
round = record { fresh = pos 9; net = [] }

abbrev turns : List (ThreadTurn whole_numbers)
turns =
    datagram 1 (90 ∷ 91 ∷ 92 ∷ []) (some ([], 7 ∷ 0 ∷ []))
    ∷ event (connections (accepted 6 [] true ∷ no_more ∷ []))
    ∷ check 2 (λ j i. round)
    ∷ []

abbrev before : Process whole_numbers
before = process (machine 5 false 0 [] ∷ [])

abbrev after : Process whole_numbers
after = process (beaten 7 1 (machine 5 false 0 []) ∷ create_worker garbage 6 [] ∷ [])

runs : run_threads first_digit garbage turns before ≡ ok (some after)
unfolding run_threads take_turn listen on_event accept_connections detect sweep report_heartbeat
    create_worker reset_worker_for_parsing
runs = refl

allowed : Allowed first_digit garbage turns before
unfolding take_turn listen report_heartbeat
allowed = (
  tt,
  λ p e.
      let same : process (beaten 7 1 (machine 5 false 0 []) ∷ []) ≡ p = cc e in
      rw⁻¹ same ((((refl, λ e. cc), tt)), λ p e. (tt, λ p e. tt)),
)

run_threads-IsSeparate_example : IsSeparate after.system
unfolding create_worker
run_threads-IsSeparate_example =
    run_threads-IsSeparate first_digit garbage turns before after
      ((refl, tt), λ n e. let same : 4 ≡ n = ap pos_part e in rw⁻¹ same refl) allowed runs

run_threads-event_loop_example :
    run_threads first_digit garbage (datagram 1 [] none ∷ turns) before ≡ (
      event_loop garbage (connections (accepted 6 [] true ∷ no_more ∷ []) ∷ []) before.system
      >>= λ r. ok (with_system (deaf before.system) r))
run_threads-event_loop_example =
    run_threads-event_loop first_digit garbage 1 [] turns true before.system
