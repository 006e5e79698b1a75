-- ===== src/Master/Events/Reading.antt =====
-- The blocks of `handle_data` that read the socket, and the descriptors: no two workers have the same,
-- and none has that of the interface.
use pi_296_cluster.Prelude.{
  Outcome, ok, fault, [], ◌∷◌, ℕ, ◌≡◌, refl, ap, ◌∙◌, sym, inl, inr, false, Bool-cases, Option,
  none, some, List, ◌==◌, ◌&&◌, if◌then◌else◌, ℤ, pos, minus_one, same_int, erase_idx, Ensures,
  Ensures-bind,
}
use pi_296_cluster.Kernel.{Arrival}
use pi_296_cluster.Master.{
  Reply, done_sending, not_done_sending, big_failure, start, need_size, recieving_data,
  forward_data, Worker, find_worker_pos,
}
use pi_296_cluster.Master.Floats.{Double}
use pi_296_cluster.Master.Parser.{get_command}
use pi_296_cluster.Master.Parser.Owner.{Own, get_command-fd}
use pi_296_cluster.Master.Payload.{get_size}
use pi_296_cluster.Master.Payload.Owner.{get_size-fd}
use pi_296_cluster.Master.System.{System, Call, get_binary_data}
use pi_296_cluster.Master.System.Owner.{SameFds, Kept, get_binary_data-fds}
use pi_296_cluster.Master.Descriptors.{
  has_fd, find_fd, find_fd-none, has_fd-erase_found, erase-Distinct, Distinct, worker_fds,
  find_worker_pos-fds, worker_fds-erase, worker_fds-put, found_fd,
}
use pi_296_cluster.Master.Events.{
  Place, in_list, as_interface, Turn, same_status, is_interface_put, put_back, look_up, adopt,
  header_lost, on_start, on_need_size, on_recieving,
}

abbrev pub Apart : ℤ → List ℕ → Type 0
Apart i fds = Distinct fds × ((n : ℕ) → i ≡ pos n → has_fd n fds ≡ false)

-- Where a worker with descriptor `own` stands, that data on `fd` is for.
abbrev pub Placed : ℕ → ℕ → Place → List ℕ → Type 0
Placed fd own (in_list i) fds = (find_fd fd fds ≡ some i) × (own ≡ fd)
Placed fd own as_interface fds = find_fd fd fds ≡ none

module _ {F : Double} where
  -- No two workers have one descriptor, and none has that of the interface.
  abbrev pub IsSeparate : System F → Type 0
  IsSeparate s = Apart s.interface_fd (worker_fds s.workers)

  abbrev pub Holds : ℕ → Place → Worker F → System F → Type 0
  Holds fd place w s = IsSeparate s × Placed fd w.worker_fd place (worker_fds s.workers)

  abbrev pub TurnHolds : ℕ → Turn F → Type 0
  TurnHolds fd t = Holds fd t.place t.curr t.system

  -- Two states with the same descriptors.
  pub Holds-same :
      (fd : ℕ) (place : Place) (w v : Worker F) (s s' : System F)
      → v.worker_fd ≡ w.worker_fd
      → worker_fds s'.workers ≡ worker_fds s.workers
      → s'.interface_fd ≡ s.interface_fd
      → Holds fd place w s
      → Holds fd place v s'
  Holds-same fd place w v s s' own fds i h = rw (fds, i) (h.0, placed place h.1)
    where
      placed :
          (place : Place)
          → Placed fd w.worker_fd place (worker_fds s.workers)
          → Placed fd v.worker_fd place (worker_fds s.workers)
      placed (in_list i) (found, at) = (found, own ∙ at)
      placed as_interface gone = gone

  adopt-Holds : (fd : ℕ) (t : Turn F) → TurnHolds fd t → Ensures (TurnHolds fd) (adopt fd t)
  unfolding adopt
  adopt-Holds fd t h =
      elim (Bool-cases
        (is_interface_put t.curr.to_do && same_int t.system.interface_fd minus_one)) [
          | inl asks ↦ rw asks (
              gone t.place h.1 (find_worker_pos fd t.system.workers)
                (find_worker_pos-fds fd t.system.workers))
          | inr other ↦ rw other h
        ]
    where
      s : System F
      s = t.system

      fds : List ℕ
      fds = worker_fds s.workers

      nobody :
          (workers : List (Worker F))
          → Ensures (TurnHolds fd) (elim workers as (λ _. Outcome (Turn F)) [
            | [] ↦ ok (record t {
              place = as_interface;
              system = record s {
                interface_fd = pos t.curr.worker_fd;
                interface = some t.curr;
                workers = [];
              };
            })
            | w ∷ ws ↦ fault
          ])
      nobody [] = ((tt, λ n e. refl), refl)
      nobody (w ∷ ws) = tt

      gone :
          (place : Place)
          → Placed fd t.curr.worker_fd place fds
          → (r : Option ℕ) → r ≡ find_fd fd fds
          → Ensures (TurnHolds fd) (elim r [
            | none ↦ elim s.workers [
              | [] ↦ ok (record t {
                place = as_interface;
                system = record s {
                  interface_fd = pos t.curr.worker_fd;
                  interface = some t.curr;
                  workers = [];
                };
              })
              | w ∷ ws ↦ fault
            ]
            | some i ↦ ok (record t {
              place = as_interface;
              system = record s {
                interface_fd = pos t.curr.worker_fd;
                interface = some t.curr;
                workers = erase_idx s.workers i;
              };
            })
          ])
      gone place at none e = nobody s.workers
      gone as_interface at (some i) e = cc
      gone (in_list j) at (some i) e =
          let lost : has_fd fd (erase_idx fds i) ≡ false =
            has_fd-erase_found fd fds i h.0.0 (sym e) in
          rw (worker_fds-erase s.workers i) (
            (
              erase-Distinct fds i h.0.0,
              λ n same. let same' : n ≡ fd = cc (same, at.1) in rw same' lost,
            ),
            find_fd-none fd (erase_idx fds i) lost,
          )

  header_lost-Holds : (fd : ℕ) (t : Turn F) → TurnHolds fd t → TurnHolds fd (header_lost fd t)
  unfolding header_lost
  header_lost-Holds fd t h = elim (Bool-cases (same_int (pos fd) t.system.interface_fd)) [
    | inl lost ↦ rw lost ((h.0.0, λ n e. cc), h.1)
    | inr other ↦ rw other h
  ]

  pub on_start-Holds :
      (fd : ℕ) (t : Turn F) → TurnHolds fd t → Ensures (TurnHolds fd) (on_start fd t)
  unfolding on_start
  on_start-Holds fd t h = elim (Bool-cases (same_status t.curr.status start)) [
    | inl turn ↦ rw turn (
        Ensures-bind (Own t.curr.worker_fd) (TurnHolds fd) (get_command t.curr t.left) _
          (get_command-fd t.curr t.left) (λ (reply, w, left) own. after reply w left own))
    | inr other ↦ rw other h
  ]
    where
      after :
          (reply : Reply) (w : Worker F) (left : List Arrival)
          → w.worker_fd ≡ t.curr.worker_fd
          → Ensures (TurnHolds fd) (elim reply [
            | not_done_sending ↦ ok (record t { going = false; curr = w; left = left })
            | done_sending ↦
                adopt fd (record t { curr = record w { status = need_size }; left = left })
            | big_failure ↦ ok (header_lost fd (record t { curr = w; left = left }))
          ])
      after not_done_sending w left own =
          Holds-same fd t.place t.curr w t.system t.system own refl refl h
      after done_sending w left own =
          adopt-Holds fd (record t { curr = record w { status = need_size }; left = left })
            (Holds-same fd t.place t.curr w t.system t.system own refl refl h)
      after big_failure w left own =
          header_lost-Holds fd (record t { curr = w; left = left })
            (Holds-same fd t.place t.curr w t.system t.system own refl refl h)

  pub on_need_size-Holds :
      (fd : ℕ) (t : Turn F) → TurnHolds fd t → Ensures (TurnHolds fd) (on_need_size t)
  unfolding on_need_size
  on_need_size-Holds fd t h = elim (Bool-cases (same_status t.curr.status need_size)) [
    | inl turn ↦ rw turn (
        Ensures-bind (Own t.curr.worker_fd) (TurnHolds fd) (get_size t.curr t.left) _
          (get_size-fd t.curr t.left) (λ (reply, w, left) own. after reply w left own))
    | inr other ↦ rw other h
  ]
    where
      after :
          (reply : Reply) (w : Worker F) (left : List Arrival)
          → w.worker_fd ≡ t.curr.worker_fd
          → let u : Turn F = record t { curr = w; left = left } in
            Ensures (TurnHolds fd) (elim reply [
              | not_done_sending ↦ ok (record u { going = false })
              | done_sending ↦ ok (record u {
                curr = record w {
                  alive = if w.file_size == 0 then false else w.alive;
                  status = recieving_data;
                };
              })
              | big_failure ↦ ok u
            ])
      after not_done_sending w left own =
          Holds-same fd t.place t.curr w t.system t.system own refl refl h
      after done_sending w left own =
          Holds-same fd t.place t.curr w t.system t.system own refl refl h
      after big_failure w left own =
          Holds-same fd t.place t.curr w t.system t.system own refl refl h

  pub on_recieving-Holds :
      (call : Call) (fd : ℕ) (t : Turn F)
      → TurnHolds fd t
      → Ensures (TurnHolds fd) (on_recieving call t)
  unfolding on_recieving
  on_recieving-Holds call fd t h = elim (Bool-cases (same_status t.curr.status recieving_data)) [
    | inl turn ↦ rw turn (
        Ensures-bind (Kept t.curr t.system) (TurnHolds fd)
          (get_binary_data call t.left t.curr t.system) _
          (get_binary_data-fds call t.left t.curr t.system)
          (λ (reply, w, s, left) (own, kept). after reply w s left own kept))
    | inr other ↦ rw other h
  ]
    where
      after :
          (reply : Reply) (w : Worker F) (s : System F) (left : List Arrival)
          → w.worker_fd ≡ t.curr.worker_fd
          → SameFds t.system s
          → let u : Turn F = record t { curr = w; system = s; left = left } in
            Ensures (TurnHolds fd) (elim reply [
              | not_done_sending ↦ ok (record u { going = false })
              | done_sending ↦ ok (record u { curr = record w { status = forward_data } })
              | big_failure ↦ ok u
            ])
      after not_done_sending w s left own (ws, i) =
          Holds-same fd t.place t.curr w t.system s own (ap worker_fds ws) i h
      after done_sending w s left own (ws, i) =
          Holds-same fd t.place t.curr w t.system s own (ap worker_fds ws) i h
      after big_failure w s left own (ws, i) =
          Holds-same fd t.place t.curr w t.system s own (ap worker_fds ws) i h

  pub put_back-fds :
      (fd : ℕ) (place : Place) (w : Worker F) (s : System F)
      → Placed fd w.worker_fd place (worker_fds s.workers)
      → worker_fds (put_back place w s).workers ≡ worker_fds s.workers
  put_back-fds fd (in_list i) w s at = worker_fds-put s.workers i fd w at.0 at.1
  put_back-fds fd as_interface w s at = refl

  -- The worker is looked up where it was put back.
  look_up-Placed :
      (fd : ℕ) (place : Place) (w : Worker F) (s : System F)
      → Placed fd w.worker_fd place (worker_fds s.workers)
      → Placed fd (look_up place w s).worker_fd place (worker_fds s.workers)
  look_up-Placed fd (in_list i) w s at = (at.0, found_fd s.workers i fd w at.0 at.1)
  look_up-Placed fd as_interface w s at = at

  -- The workers are put back, and changed by the scheduler.
  pub forward-Holds :
      (fd : ℕ) (place : Place) (w : Worker F) (s s' : System F)
      → Holds fd place w s
      → worker_fds s'.workers ≡ worker_fds (put_back place w s).workers
      → s'.interface_fd ≡ s.interface_fd
      → Holds fd place (look_up place w s') s'
  forward-Holds fd place w s s' h fds i =
      let h' = Holds-same fd place w w s s' refl (fds ∙ put_back-fds fd place w s h.1) i h in
      (h'.0, look_up-Placed fd place w s' h'.1)
