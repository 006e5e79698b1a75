-- ===== src/Master/Parser/Header.antt =====
-- `get_command` on the header of a request, which may come in several parts.
use pi_296_cluster.Prelude.{
  ℕ, suc, ◌+◌, ◌-◌, ◌≤◌, ◌<◌, ◌≡◌, refl, ap, ap₂, ◌∙◌, Bool, true, false, ◌||◌, some, List, [], ◌∷◌,
  ◌++◌, arith, length-append, ◌==◌, length, replicate, ok, fault,
}
use pi_296_cluster.Kernel.{Bytes, Arrival, would_block}
use pi_296_cluster.Kernel.Delivery.{Delivers}
use pi_296_cluster.Text.{newline, space, Without, put_request, interface_put, c_str, starts_with}
use pi_296_cluster.Master.{
  command_buf_size, Command, to_interface_put, to_put, done_sending, not_done_sending, Worker,
}
use pi_296_cluster.Master.Floats.{Double}
use pi_296_cluster.Master.Parser.{
  Scanned, command_loop, has_nul, after_space, set_name, set_command, finish_command, get_command,
}
use pi_296_cluster.Master.Parser.Scan.{
  buffer, loop_at, loop_at-full, loop_at-newline, loop_at-waits,
}

-- The verb of a header.
abbrev pub verb : Command → Bytes
verb to_interface_put = interface_put
verb to_put = put_request

c_str-buffer : (name : Bytes) (k : ℕ) → Without 0 name → c_str (buffer name (suc k)) ≡ name
unfolding replicate
c_str-buffer [] k w = refl
c_str-buffer (b ∷ name) k w = rw w.0 (ap (◌∷◌ b) (c_str-buffer name k w.1))

or_true : (a : Bool) → (a || true) ≡ true
or_true true = refl
or_true false = refl

has_nul-buffer : (name : Bytes) (k : ℕ) → has_nul (buffer name (suc k)) ≡ true
unfolding has_nul replicate
has_nul-buffer [] k = refl
has_nul-buffer (b ∷ name) k = rw (has_nul-buffer name k) (or_true (b == 0))

-- A header in `command`: it ends in the buffer, and its name is what follows the verb.
has_nul-verb :
    (c : Command) (name : Bytes) (k : ℕ)
    → has_nul (buffer (verb c ++ (space ∷ name)) (suc k)) ≡ true
unfolding has_nul
has_nul-verb to_put name k = has_nul-buffer name k
has_nul-verb to_interface_put name k = has_nul-buffer name k

after_space-verb :
    (c : Command) (name : Bytes) (k : ℕ)
    → Without 0 name
    → after_space (c_str (buffer (verb c ++ (space ∷ name)) (suc k))) ≡ name
unfolding after_space
after_space-verb to_put name k w = c_str-buffer name k w
after_space-verb to_interface_put name k w = c_str-buffer name k w

module _ {F : Double} where
  -- The struct after a part of a header: `command` begins with it, and is zero behind it.
  abbrev pub took_in : Worker F → Bytes → Worker F
  took_in w stored = record w {
    command = buffer stored (command_buf_size - length stored);
    command_size = length stored;
  }

  set_name-run :
      (w : Worker F) (name : Bytes)
      → has_nul w.command ≡ true
      → after_space (c_str w.command) ≡ name
      → 0 < length name
      → set_name w ≡ ok (done_sending, record w { temp_file_name = some name })
  unfolding set_name
  set_name-run w name nul e pos =
      let named : (length name == 0) ≡ false = ground arith in rw (nul, e) (rw named)

  set_command-verb :
      (w : Worker F) (c : Command) (name : Bytes) (k : ℕ)
      → w.command ≡ buffer (verb c ++ (space ∷ name)) (suc k)
      → Without 0 name
      → 0 < length name
      → set_command w ≡ ok (done_sending, record w { to_do = c; temp_file_name = some name })
  unfolding set_command
  set_command-verb w c name k e plain pos =
      by_verb c (rw e (has_nul-verb c name k)) (rw e (after_space-verb c name k plain)) e
    where
      by_verb :
          (c : Command)
          → has_nul w.command ≡ true
          → after_space (c_str w.command) ≡ name
          → w.command ≡ buffer (verb c ++ (space ∷ name)) (suc k)
          → set_command w ≡ ok (done_sending, record w { to_do = c; temp_file_name = some name })
      by_verb to_put nul named e =
          let other : starts_with interface_put w.command ≡ false = rw e in
          let this : starts_with put_request w.command ≡ true = rw e in
          rw (other, this) (set_name-run (record w { to_do = to_put }) name nul named pos)
      by_verb to_interface_put nul named e =
          let this : starts_with interface_put w.command ≡ true = rw e in
          rw this (set_name-run (record w { to_do = to_interface_put }) name nul named pos)

  get_command-run :
      (w : Worker F) (s : List Arrival) {r : Scanned}
      → command_loop (length s + 1) w.command w.command_size s ≡ ok r
      → get_command w s ≡ finish_command w r
  unfolding get_command
  get_command-run w s e = rw e

  finish_command-done :
      (w : Worker F) (c : Command) (header name : Bytes) (t : List Arrival)
      → header ≡ verb c ++ (space ∷ name)
      → Without 0 name
      → 0 < length name
      → length header < command_buf_size
      → finish_command w (done_sending, (took_in w header).command, length header, t)
        ≡ ok (done_sending, record (took_in w header) { to_do = c; temp_file_name = some name }, t)
  unfolding finish_command
  finish_command-done w c header name t whole plain pos fits =
      let k : ℕ = command_buf_size - length header - 1 in
      let more : command_buf_size - length header ≡ suc k = omega arith in
      let held : (took_in w header).command ≡ buffer (verb c ++ (space ∷ name)) (suc k) =
        ap₂ (λ h n. buffer h n) whole more in
      rw (set_command-verb (took_in w header) c name k held plain pos)

  module _ (w : Worker F) (stored rest : Bytes) (s t : List Arrival) (plain : Without newline rest)
      (fits : length stored + length rest ≤ command_buf_size) where
    k : ℕ
    k = command_buf_size - length (stored ++ rest)

    room : command_buf_size - length stored ≡ length rest + k
    unfolding k
    room = omega (arith, length-append stored rest)

    bound : length stored + (length rest + k) ≤ 1024
    unfolding k
    bound = omega (arith, length-append stored rest)

    -- When a part of a header without a newline has come, however it is cut up and interrupted, and the
    -- socket would block behind it, `get_command` returns NOT_DONE_SENDING, and the struct has taken in
    -- that part behind what it had before, if both together fit the buffer.
    pub get_command-waits :
        Delivers rest s (would_block ∷ t)
        → get_command (took_in w stored) s ≡ ok (not_done_sending, took_in w (stored ++ rest), t)
    unfolding k finish_command
    get_command-waits d = get_command-run (took_in w stored) s (
        ap (λ n. loop_at (length s + 1) stored n s) room
        ∙ loop_at-waits stored rest k s t plain bound d)

    -- When the rest of a header has come with its newline, however it is cut up and interrupted,
    -- `get_command` returns DONE_SENDING, sets the command and the file name, and leaves what follows,
    -- whatever part of the header the struct had taken in before. The header is a verb, a space and a
    -- name that is not empty and has no NUL in it; there is no other newline in the rest, and the whole
    -- is shorter than the buffer.
    pub get_command-header :
        (c : Command) (name : Bytes)
        → stored ++ rest ≡ verb c ++ (space ∷ name)
        → Without 0 name
        → 0 < length name
        → length (stored ++ rest) < command_buf_size
        → Delivers (rest ++ (newline ∷ [])) s t
        → get_command (took_in w stored) s
          ≡ ok (
            done_sending,
            record (took_in w (stored ++ rest)) { to_do = c; temp_file_name = some name },
            t,
          )
    unfolding k finish_command
    get_command-header c name whole no_nul pos short d =
        get_command-run (took_in w stored) s (
          ap (λ n. loop_at (length s + 1) stored n s) room
          ∙ loop_at-newline stored rest k s t plain bound d)
        ∙ finish_command-done w c (stored ++ rest) name t whole no_nul pos short

    -- When 1024 bytes of a header have come, the last of them without a newline and however they are cut
    -- up and interrupted, and another byte that is no newline follows, `get_command` writes behind the
    -- buffer.
    pub get_command-overflow :
        (b : ℕ)
        → length (stored ++ rest) ≡ command_buf_size
        → (b == newline) ≡ false
        → Delivers (rest ++ (b ∷ [])) s t
        → get_command (took_in w stored) s ≡ fault
    unfolding k get_command
    get_command-overflow b full other d = rw (
        ap (λ n. loop_at (length s + 1) stored n s) room
        ∙ loop_at-full stored rest k s t plain bound b (omega (arith, full)) other d)
