-- ===== src/Master/Events/Blocks.antt =====
-- Each block of `handle_data` where what it calls has succeeded.
use pi_296_cluster.Prelude.{
  ℕ, ◌≡◌, refl, ap, ◌∙◌, Bool, true, false, ◌&&◌, Option, none, some, List, ◌++◌, ◌==◌,
  if◌then◌else◌, pos, minus_one, same_int, get_elem?, Outcome, ok, ◌>>=◌,
}
use pi_296_cluster.Kernel.{Arrival}
use pi_296_cluster.Master.{
  Status, start, need_size, recieving_data, forward_data, forwarding_data, Reply, done_sending,
  Worker, find_worker_pos, reset_worker_for_parsing,
}
use pi_296_cluster.Master.Floats.{Double}
use pi_296_cluster.Master.Parser.{get_command}
use pi_296_cluster.Master.Payload.{get_size}
use pi_296_cluster.Master.System.{System, Call, get_binary_data, put_file}
use pi_296_cluster.Master.Events.{
  Place, in_list, as_interface, Turn, same_status, is_interface_put, put_back, adopt, on_start,
  on_need_size, on_recieving, forward_task, forward_output, on_forward, on_forwarding, then_block,
  blocks, serve, handle_data,
}

and_false : (a : Bool) {b : Bool} → b ≡ false → (a && b) ≡ false
and_false true e = e
and_false false e = refl

if_true : {A : Type 0} {c : Bool} (a b : A) → c ≡ true → (if c then a else b) ≡ a
if_true a b e = rw e

pub then_ok :
    {A B : Type 0} {m : Outcome A} {a : A} (f : A → Outcome B) → m ≡ ok a → (m >>= f) ≡ f a
then_ok f e = ap (λ m. m >>= f) e

module _ {F : Double} (t : Turn F) where
  pub at_status :
      (status : Status)
      → t.curr.status ≡ status
      → same_status t.curr.status status ≡ same_status status status
  at_status status e = ap (λ u. same_status u status) e

  pub on_start-header :
      (fd : ℕ) (w : Worker F) (left : List Arrival)
      → t.curr.status ≡ start
      → get_command t.curr t.left ≡ ok (done_sending, w, left)
      → on_start fd t ≡ adopt fd (record t { curr = record w { status = need_size }; left = left })
  unfolding on_start
  on_start-header fd w left e h = rw (at_status start e, h)

  pub adopt_none : (fd : ℕ) → same_int t.system.interface_fd minus_one ≡ false → adopt fd t ≡ ok t
  unfolding adopt
  adopt_none fd e =
      let stays : (is_interface_put t.curr.to_do && same_int t.system.interface_fd minus_one)
          ≡ false =
        and_false (is_interface_put t.curr.to_do) e in
      rw stays

  pub on_need_size-done :
      (w : Worker F) (left : List Arrival)
      → t.curr.status ≡ need_size
      → get_size t.curr t.left ≡ ok (done_sending, w, left)
      → (w.file_size == 0) ≡ false
      → on_need_size t ≡ ok (record t { curr = record w { status = recieving_data }; left = left })
  unfolding on_need_size
  on_need_size-done w left e h some_bytes = rw (at_status need_size e, h) (rw some_bytes)

  pub on_recieving-done :
      (call : Call) (w : Worker F) (s : System F) (left : List Arrival)
      → t.curr.status ≡ recieving_data
      → get_binary_data call t.left t.curr t.system ≡ ok (done_sending, w, s, left)
      → on_recieving call t
        ≡ ok (record t { curr = record w { status = forward_data }; system = s; left = left })
  unfolding on_recieving
  on_recieving-done call w s left e h = rw (at_status recieving_data e, h)

  pub on_forward-task :
      (fd : ℕ)
      → t.curr.status ≡ forward_data
      → same_int (pos fd) t.system.interface_fd ≡ true
      → on_forward fd t ≡ forward_task t
  unfolding on_forward
  on_forward-task fd e own = rw (at_status forward_data e, own)

  pub on_forward-output :
      (fd : ℕ)
      → t.curr.status ≡ forward_data
      → same_int (pos fd) t.system.interface_fd ≡ false
      → t.curr.alive ≡ true
      → on_forward fd t ≡ forward_output t
  unfolding on_forward
  on_forward-output fd e other alive = rw (at_status forward_data e, other) (rw alive)

  pub on_forwarding-done :
      (call : Call) (reply : Reply) (s : System F)
      → t.curr.status ≡ forwarding_data
      → put_file t.curr.fd_to_send_to call.net t.curr t.system ≡ ok (reply, s)
      → let (w, closes) = reset_worker_for_parsing t.curr in
        on_forwarding call t
        ≡ ok (record t {
          curr = record w { status = start };
          system = record s { closed = s.closed ++ closes };
        })
  unfolding on_forwarding
  on_forwarding-done call reply s e h = rw (at_status forwarding_data e, h)

-- Blocks one after the other, none of which returns.
module _ {F : Double} (call : Call) (fd : ℕ) where
  pub blocks-run :
      (t0 t1 t2 t3 : Turn F) {r : Outcome (Turn F)}
      → on_start fd t0 ≡ ok t1
      → t1.going ≡ true
      → on_need_size t1 ≡ ok t2
      → t2.going ≡ true
      → on_recieving call t2 ≡ ok t3
      → t3.going ≡ true
      → (on_forward fd t3 >>= then_block (on_forwarding call)) ≡ r
      → blocks call fd t0 ≡ r
  unfolding blocks
  blocks-run t0 t1 t2 t3 one g1 two g2 three g3 rest =
      let fourth : Turn F → Outcome (Turn F) =
        λ t. then_block (on_forward fd) t >>= then_block (on_forwarding call) in
      let third : Turn F → Outcome (Turn F) = λ t. then_block (on_recieving call) t >>= fourth in
      let second : Turn F → Outcome (Turn F) = λ t. then_block on_need_size t >>= third in
      then_ok second one
      ∙ then_ok third (reached on_need_size t1 g1 ∙ two)
      ∙ then_ok fourth (reached (on_recieving call) t2 g2 ∙ three)
      ∙ ap (λ m. m >>= then_block (on_forwarding call)) (reached (on_forward fd) t3 g3)
      ∙ rest
    where
      reached : (f : Turn F → Outcome (Turn F)) (t : Turn F) → t.going ≡ true → then_block f t ≡ f t
      reached f t e = rw e

  pub serve-run :
      (place : Place) (w : Worker F) (s : System F) (t : Turn F)
      → w.alive ≡ true
      → blocks call fd
          (record { going = true; curr = w; place = place; system = s; left = call.arrivals })
        ≡ ok t
      → serve call fd place w s ≡ ok (put_back t.place t.curr t.system, t.left)
  unfolding serve
  serve-run place w s t alive runs =
      if_true _ _ alive ∙ ap (λ m. m >>= λ t. ok (put_back t.place t.curr t.system, t.left)) runs

  pub handle_data-interface :
      (w : Worker F) (s : System F) {r : Outcome (System F × List Arrival)}
      → find_worker_pos fd s.workers ≡ none
      → s.interface ≡ some w
      → serve call fd as_interface w s ≡ r
      → handle_data call fd s ≡ r
  unfolding handle_data
  handle_data-interface w s unlisted here e = rw (unlisted, handle_data) (rw (here, handle_data) e)

  pub handle_data-listed :
      (i : ℕ) (w : Worker F) (s : System F) {r : Outcome (System F × List Arrival)}
      → find_worker_pos fd s.workers ≡ some i
      → get_elem? s.workers i ≡ some w
      → serve call fd (in_list i) w s ≡ r
      → handle_data call fd s ≡ r
  unfolding handle_data
  handle_data-listed i w s listed here e = rw (listed, handle_data) (rw (here, handle_data) e)

module _ {F : Double} where
  pub handle_data-unknown :
      (call : Call) (fd : ℕ) (s : System F)
      → find_worker_pos fd s.workers ≡ none
      → s.interface ≡ none
      → handle_data call fd s ≡ ok (s, call.arrivals)
  unfolding handle_data
  handle_data-unknown call fd s unlisted nobody =
      rw (unlisted, handle_data)
        (ap
          (λ (o : Option (Worker F)). elim o as (λ _. Outcome (System F × List Arrival)) [
            | none ↦ ok (s, call.arrivals)
            | some w ↦ serve call fd as_interface w s
          ])
          nobody)
