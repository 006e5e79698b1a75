-- ===== src/Master/Parser/Owner.antt =====
-- `get_command` and the descriptor of the worker.
use pi_296_cluster.Prelude.{
  ℕ, ◌+◌, ◌≡◌, refl, inl, inr, Bool-cases, List, ◌==◌, length, Ensures, Ensures-any, Ensures-bind,
}
use pi_296_cluster.Kernel.{Arrival}
use pi_296_cluster.Master.{
  Reply, done_sending, not_done_sending, big_failure, Worker, to_interface_put, to_put,
}
use pi_296_cluster.Text.{c_str, starts_with, interface_put, put_request}
use pi_296_cluster.Master.Floats.{Double}
use pi_296_cluster.Master.Parser.{
  get_command, command_loop, finish_command, set_command, set_name, Scanned, has_nul, after_space,
}

module _ {F : Double} where
  -- The worker that a step ends with has the descriptor.
  abbrev pub Own : ℕ → Reply × Worker F × List Arrival → Type 0
  Own fd (reply, w, left) = w.worker_fd ≡ fd

  abbrev Own1 : ℕ → Reply × Worker F → Type 0
  Own1 fd (reply, w) = w.worker_fd ≡ fd

  set_name-fd : (w : Worker F) → Ensures (Own1 w.worker_fd) (set_name w)
  unfolding set_name
  set_name-fd w = elim (Bool-cases (has_nul w.command)) [
    | inl ended ↦ rw ended (elim (Bool-cases (length (after_space (c_str w.command)) == 0)) [
      | inl empty ↦ rw empty refl
      | inr some_name ↦ rw some_name refl
    ])
    | inr unended ↦ rw unended tt
  ]

  set_command-fd : (w : Worker F) → Ensures (Own1 w.worker_fd) (set_command w)
  unfolding set_command
  set_command-fd w = elim (Bool-cases (starts_with interface_put w.command)) [
    | inl asks ↦ rw asks (set_name-fd (record w { to_do = to_interface_put }))
    | inr other ↦ rw other (elim (Bool-cases (starts_with put_request w.command)) [
      | inl puts ↦ rw puts (set_name-fd (record w { to_do = to_put }))
      | inr neither ↦ rw neither refl
    ])
  ]

  finish_command-fd : (w : Worker F) (r : Scanned) → Ensures (Own w.worker_fd) (finish_command w r)
  unfolding finish_command
  finish_command-fd w (done_sending, command, size, t) =
      Ensures-bind (Own1 w.worker_fd) _ _ _
        (set_command-fd (record w { command = command; command_size = size })) (λ r e. e)
  finish_command-fd w (not_done_sending, command, size, t) = refl
  finish_command-fd w (big_failure, command, size, t) = refl

  pub get_command-fd :
      (w : Worker F) (s : List Arrival) → Ensures (Own w.worker_fd) (get_command w s)
  unfolding get_command
  get_command-fd w s =
      Ensures-bind (λ _. Unit {0}) _ _ _
        (Ensures-any (command_loop (length s + 1) w.command w.command_size s))
        (λ r u. finish_command-fd w r)
