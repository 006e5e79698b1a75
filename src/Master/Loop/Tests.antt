-- ===== src/Master/Loop/Tests.antt =====
-- Two workers come, and data from a descriptor that is neither of them.
use pi_296_cluster.Prelude.{◌≡◌, refl, true, none, some, List, [], ◌∷◌, pos, ok}
use pi_296_cluster.Kernel.{would_block}
use pi_296_cluster.Master.{Worker, create_worker, reset_worker_for_parsing, find_worker_pos}
use pi_296_cluster.Master.Samples.{whole_numbers, machine}
use pi_296_cluster.Master.System.{System, Call}
use pi_296_cluster.Master.Events.Blocks.{handle_data-unknown}
use pi_296_cluster.Master.Events.Reading.{IsSeparate}
use pi_296_cluster.Master.Loop.{
  Event, connections, arrived, accepted, no_more, accept_connections, on_event, event_loop,
}
use pi_296_cluster.Master.Loop.Separate.{event_loop-IsSeparate, Granted}

abbrev garbage : Worker whole_numbers
garbage = machine 0 true 3 []

abbrev empty : System whole_numbers
empty = record {
  workers = [];
  interface = none;
  interface_fd = pos 4;
  task_list = [];
  files = λ n. none;
  opened = λ d. none;
  sent = [];
  closed = [];
}

abbrev noise : Call
noise = record { arrivals = would_block ∷ []; fresh = pos 9; disk = []; net = [] }

abbrev events : List Event
events = connections (accepted 5 [] true ∷ accepted 6 [] true ∷ no_more ∷ []) ∷ arrived 7 noise ∷ []

abbrev joined : System whole_numbers
joined = record empty { workers = create_worker garbage 5 [] ∷ create_worker garbage 6 [] ∷ [] }

run : event_loop garbage events empty ≡ ok (some joined)
unfolding event_loop on_event accept_connections create_worker reset_worker_for_parsing
    find_worker_pos
run = rw (handle_data-unknown noise 7 joined refl refl) refl

granted : Granted garbage events empty
granted = (((refl, λ e. cc), ((refl, λ e. cc), tt)), λ s e. (tt, λ t e'. tt))

event_loop-IsSeparate_example : IsSeparate joined
event_loop-IsSeparate_example =
    event_loop-IsSeparate garbage events empty joined (tt, λ n e. refl) granted run
