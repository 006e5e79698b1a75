-- ===== src/Master/Parser.antt =====
-- `get_command`: the header of a request, read byte by byte from a socket that does not block, into
-- the fields of the worker's struct; what has come so far stays there. A store or a read outside
-- `command` is a fault.
pub mod Owner
pub mod Scan
pub mod Header
mod Tests
use pi_296_cluster.Prelude.{
  ℕ, zero, suc, ◌+◌, Bool, true, false, ◌||◌, Option, none, some, List, [], ◌∷◌, ltb, ◌==◌,
  if◌then◌else◌, length, set, Outcome, ok, fault, hang, ◌>>=◌,
}
use pi_296_cluster.Kernel.{Bytes, Arrival, Read, got, eintr, eagain, eother, idle, read}
use pi_296_cluster.Text.{newline, space, put_request, interface_put, c_str, starts_with}
use pi_296_cluster.Master.{
  Reply, done_sending, not_done_sending, big_failure, Worker, Command, to_interface_put, to_put,
}
use pi_296_cluster.Master.Floats.{Double}

-- `command` and `command_size` after the loop, how it ended, and what is still to arrive.
abbrev pub Scanned : Type 0
Scanned = Reply × Bytes × ℕ × List Arrival

-- The loop of `get_command`; it leaves `command_size > 1025` as it tests it.
pub command_loop : ℕ → Bytes → ℕ → List Arrival → Outcome Scanned
command_loop zero command size s = hang
command_loop (suc fuel) command size s =
    let (r, t) = read 1 s in
    elim r [
      | got [] ↦ ok (big_failure, command, size, t)
      | got (b ∷ bs) ↦
          let more = command_loop fuel (set command size b) (size + 1) t in
          if b == newline
          then ok (done_sending, command, size, t)
          else if ltb size (length command)
          then if ltb 1025 (size + 1)
            then ok (big_failure, set command size b, size + 1, t)
            else more
          else fault
      | eintr ↦ command_loop fuel command size t
      | eagain ↦ ok (not_done_sending, command, size, t)
      | eother ↦ ok (big_failure, command, size, t)
      | idle ↦ hang
    ]

-- What follows the first space.
pub after_space : Bytes → Bytes
after_space [] = []
after_space (b ∷ bs) = let later = after_space bs in if b == space then bs else later

pub has_nul : Bytes → Bool
has_nul [] = false
has_nul (b ∷ bs) = (b == 0) || has_nul bs

module _ {F : Double} where
  -- The end of `get_command`, on a whole header.
  pub set_name : Worker F → Outcome (Reply × Worker F)
  unfolding after_space has_nul
  set_name w =
      if has_nul w.command
      then (let name = after_space (c_str w.command) in
          let named : Worker F = record w { temp_file_name = some name } in
          if length name == 0 then ok (big_failure, named) else ok (done_sending, named))
      else fault

  pub set_command : Worker F → Outcome (Reply × Worker F)
  unfolding set_name
  set_command w =
      if starts_with interface_put w.command
      then set_name (record w { to_do = to_interface_put })
      else if starts_with put_request w.command
      then set_name (record w { to_do = to_put })
      else ok (big_failure, w)

  pub finish_command : Worker F → Scanned → Outcome (Reply × Worker F × List Arrival)
  unfolding set_command
  finish_command w scanned =
      let (reply, command, size, t) = scanned in
      let v : Worker F = record w { command = command; command_size = size } in
      elim reply [
        | done_sending ↦ (do (r, u) ← set_command v; ok (r, u, t))
        | not_done_sending ↦ ok (not_done_sending, v, t)
        | big_failure ↦ ok (big_failure, v, t)
      ]

  pub get_command : Worker F → List Arrival → Outcome (Reply × Worker F × List Arrival)
  unfolding command_loop finish_command
  get_command w s = do
    scanned ← command_loop (length s + 1) w.command w.command_size s
    finish_command w scanned
