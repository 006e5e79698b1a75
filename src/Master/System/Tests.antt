-- ===== src/Master/System/Tests.antt =====
-- A file of five bytes that comes over three calls.
use pi_296_cluster.Prelude.{◌≡◌, refl, true, none, some, [], ◌∷◌, arith, pos, minus_one, ok}
use pi_296_cluster.Kernel.{Bytes, would_block, took}
use pi_296_cluster.Master.{Worker, done_sending}
use pi_296_cluster.Master.Samples.{whole_numbers, machine, arrive, arrive-Delivers}
use pi_296_cluster.Master.System.{System, Call}
use pi_296_cluster.Master.System.Storing.{with_file}
use pi_296_cluster.Master.System.Growing.{awaiting, Stored, get_all, get_all-file}

abbrev name : Bytes
name = b'a' ∷ []

abbrev part_call : Bytes → Call
part_call part = record {
  arrivals = arrive part (would_block ∷ []);
  fresh = pos 9;
  disk = took 1 ∷ [];
  net = [];
}

abbrev front : Bytes
front = 1 ∷ 2 ∷ []

abbrev middle : Bytes
middle = 3 ∷ []

abbrev last : Bytes
last = 4 ∷ 5 ∷ []

abbrev receiving : Worker whole_numbers
receiving = record (machine 5 true 0 []) { temp_file_name = some name; file_size = 5 }

abbrev empty : System whole_numbers
empty = record {
  workers = [];
  interface = none;
  interface_fd = minus_one;
  task_list = [];
  files = λ n. none;
  opened = λ d. none;
  sent = [];
  closed = [];
}

stored : Stored ((part_call middle, middle) ∷ [])
stored = (([], arrive-Delivers middle (would_block ∷ [])), (omega arith, tt), tt)

get_all-file_example :
    get_all (part_call front ∷ part_call middle ∷ part_call last ∷ []) receiving empty
    ≡ ok
        (done_sending, awaiting 9 name receiving 0, with_file 9 name (1 ∷ 2 ∷ 3 ∷ 4 ∷ 5 ∷ []) empty)
get_all-file_example =
    get_all-file 9 name receiving empty (part_call last) last (would_block ∷ []) (omega arith, tt)
      (arrive-Delivers last (would_block ∷ [])) (omega arith) (part_call front) front []
      ((part_call middle, middle) ∷ []) refl refl refl refl
      (arrive-Delivers front (would_block ∷ [])) (omega arith, tt) stored
