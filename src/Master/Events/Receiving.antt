-- ===== src/Master/Events/Receiving.antt =====
-- A whole request, from its header to the last byte of its file, in one call of `handle_data`.
use pi_296_cluster.Prelude.{
  ℕ, ◌/◌, ◌%◌, ◌^◌, ◌<◌, ◌≡◌, refl, ap, sym, subst, ◌∙◌, ◌+◌, length-append, true, false, none,
  some, List, [], ◌∷◌, ◌++◌, arith, ◌==◌, pos, minus_one, length, replicate, Outcome, ok, ◌>>=◌,
}
use pi_296_cluster.Kernel.{Bytes, Arrival, le_bytes, le_value, sizeof_size}
use pi_296_cluster.Kernel.Accepting.{Accepts}
use pi_296_cluster.Kernel.Delivery.{Delivers, Delivers-split}
use pi_296_cluster.Text.{newline, space, Without}
use pi_296_cluster.Master.{
  Command, start, need_size, recieving_data, forward_data, done_sending, Worker, command_buf_size,
}
use pi_296_cluster.Master.Floats.{Double}
use pi_296_cluster.Master.Parser.{get_command}
use pi_296_cluster.Master.Parser.Scan.{buffer}
use pi_296_cluster.Master.Parser.Header.{verb, took_in, get_command-header}
use pi_296_cluster.Master.Payload.{get_size}
use pi_296_cluster.Master.Payload.Bytewise.{le_bytes-AllBytes}
use pi_296_cluster.Master.Payload.Sizes.{get_size-done}
use pi_296_cluster.Master.System.{System, Call}
use pi_296_cluster.Master.System.Storing.{with_file, get_binary_data-done}
use pi_296_cluster.Master.Events.{Place, Turn, adopt, on_forward, on_forwarding, then_block, blocks}
use pi_296_cluster.Master.Events.Blocks.{
  on_start-header, on_need_size-done, on_recieving-done, blocks-run,
}

-- The header of a request, without its newline.
abbrev pub header : Command → Bytes → Bytes
header c name = verb c ++ (space ∷ name)

-- A whole request.
abbrev pub request : Command → Bytes → Bytes → Bytes
request c name file =
    (header c name ++ (newline ∷ [])) ++ (le_bytes sizeof_size (length file) ++ file)

-- The conditions on a request that `handle_data` takes in.
pub record IsRequest (c : Command) (name file : Bytes) : Type 0 where
  pub plain : Without newline (header c name)
  pub no_nul : Without 0 name
  pub named : 0 < length name
  pub short : length (header c name) < command_buf_size
  pub some_bytes : 0 < length file
  pub bound : length file < 2 ^ 64

pub Without-rest : (c : ℕ) (bs cs : Bytes) → Without c (bs ++ cs) → Without c cs
Without-rest c [] cs w = w
Without-rest c (b ∷ bs) cs w = Without-rest c bs cs w.1

module _ {F : Double} where
  -- A live worker between two requests, whenever its last heartbeat came.
  abbrev pub waiting : Worker F → Worker F
  waiting w = record w {
    alive = true;
    status = start;
    command = buffer [] command_buf_size;
    command_size = 0;
    temp_file_name = none;
    file_size = 0;
    size_buffer_pos = 0;
    temp_fd = minus_one;
    file_buffer_pos = 0;
  }

  -- The worker as `reset_worker_for_parsing` leaves it.
  abbrev pub ready : Worker F → Worker F
  ready w = record (waiting w) { last_beat_received = F.of_ℕ 0 }

  -- The worker after its header.
  abbrev pub headed : Worker F → Command → Bytes → Worker F
  headed w c name = record (took_in (waiting w) (header c name)) {
    to_do = c;
    temp_file_name = some name;
    status = need_size;
  }

  -- The worker after the whole request.
  abbrev pub filled : Worker F → Command → Bytes → ℕ → Worker F
  filled w c name d = record (headed w c name) {
    status = forward_data;
    file_size = 0;
    size_buffer_pos = sizeof_size;
    temp_fd = pos d;
  }

  header_block :
      (w : Worker F) (c : Command) (name file stored rest : Bytes) (s t : List Arrival)
      → stored ++ rest ≡ header c name
      → IsRequest c name file
      → Delivers (rest ++ (newline ∷ [])) s t
      → get_command (took_in (waiting w) stored) s
        ≡ ok (
          done_sending,
          record (took_in (waiting w) (header c name)) { to_do = c; temp_file_name = some name },
          t,
        )
  header_block w c name file stored rest s t whole r d =
      let sizes : length stored + length rest ≡ length (header c name) =
        sym (length-append stored rest) ∙ ap length whole in
      get_command-header (waiting w) stored rest s t
        (Without-rest newline stored rest (subst (Without newline) (sym whole) r.plain))
        (omega (arith, r.short, sizes)) c name whole r.no_nul r.named
        (subst (λ (h : Bytes). length h < command_buf_size) (sym whole) r.short) d
      ∙ ap
          (λ (h : Bytes). ok (
            done_sending,
            record (took_in (waiting w) h) { to_do = c; temp_file_name = some name },
            t,
          ))
          whole

  size_block :
      (w : Worker F) (c : Command) (name file : Bytes) (s t : List Arrival)
      → length file < 2 ^ 64
      → Delivers (le_bytes sizeof_size (length file)) s t
      → get_size (headed w c name) s
        ≡ ok (
          done_sending,
          record (headed w c name) { file_size = length file; size_buffer_pos = sizeof_size },
          t,
        )
  unfolding le_bytes le_value replicate
  size_block w c name file s t bound d =
      let n : ℕ = length file in
      get_size-done (headed w c name) [] (n % 256) (le_bytes 7 (n / 256)) n s t bound refl tt
        (le_bytes-AllBytes sizeof_size n) d

  module _ (call : Call) (fd d : ℕ) (w : Worker F) (c : Command) (name file stored rest : Bytes)
      (whole : stored ++ rest ≡ header c name) (t : List Arrival) (is : IsRequest c name file)
      (fresh : call.fresh ≡ pos d) (disk : Accepts call.disk)
      (delivers : Delivers
        ((rest ++ (newline ∷ [])) ++ (le_bytes sizeof_size (length file) ++ file))
        call.arrivals
        t) where
    -- The blocks up to `on_forward`, from the part of the header that was taken in before, where the
    -- worker's place and the master are as `adopt` leaves them.
    pub blocks-request :
        (place place' : Place) (s s' : System F) {r : Outcome (Turn F)}
        → ((u : List Arrival)
            → adopt fd (record {
              going = true;
              curr = headed w c name;
              place = place;
              system = s;
              left = u;
            })
              ≡ ok (record {
                going = true;
                curr = headed w c name;
                place = place';
                system = s';
                left = u;
              }))
        → (on_forward fd (record {
          going = true;
          curr = filled w c name d;
          place = place';
          system = with_file d name file s';
          left = t;
        })
            >>= then_block (on_forwarding call))
          ≡ r
        → blocks call fd (record {
          going = true;
          curr = took_in (waiting w) stored;
          place = place;
          system = s;
          left = call.arrivals;
        })
          ≡ r
    blocks-request place place' s s' {r} adopts ends =
        let (u, front, back) =
          Delivers-split (rest ++ (newline ∷ [])) (le_bytes sizeof_size (length file) ++ file)
            call.arrivals t delivers in
        let (v, size, contents) =
          Delivers-split (le_bytes sizeof_size (length file)) file u t back in
        let turn : Worker F → Place → System F → List Arrival → Turn F =
          λ w p s l. record { going = true; curr = w; place = p; system = s; left = l } in
        let counted : Worker F = record (headed w c name) {
          file_size = length file;
          size_buffer_pos = sizeof_size;
          status = recieving_data;
        } in
        let nonzero : (length file == 0) ≡ false = ground (arith, is.some_bytes) in
        blocks-run call fd (turn (took_in (waiting w) stored) place s call.arrivals)
          (turn (headed w c name) place' s' u) (turn counted place' s' v)
          (turn (filled w c name d) place' (with_file d name file s') t)
          (on_start-header (turn (took_in (waiting w) stored) place s call.arrivals) fd _ u refl
              (header_block w c name file stored rest call.arrivals u whole is front)
            ∙ adopts u)
          refl
          (on_need_size-done (turn (headed w c name) place' s' u) _ v refl
            (size_block w c name file u v is.bound size) nonzero)
          refl
          (on_recieving-done (turn counted place' s' v) call _ _ t refl (
            get_binary_data-done call d name file counted s' v t fresh disk refl refl refl
              contents))
          refl ends
