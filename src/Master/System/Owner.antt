-- ===== src/Master/System/Owner.antt =====
-- `get_binary_data` and `do_put` leave the descriptors as they are.
use pi_296_cluster.Prelude.{
  ℕ, ◌+◌, ◌≡◌, refl, ◌∙◌, inl, inr, Bool-cases, Option, none, some, List, [], ◌∷◌, ◌++◌, ℤ,
  minus_one, same_int, length, ok, fault, ◌>>=◌, Ensures, Ensures-any, Ensures-bind,
}
use pi_296_cluster.Kernel.{Bytes, Arrival, Answer}
use pi_296_cluster.Master.{Reply, Worker}
use pi_296_cluster.Master.Floats.{Double}
use pi_296_cluster.Master.Output.{do_put}
use pi_296_cluster.Master.Payload.{binary_loop}
use pi_296_cluster.Master.System.{
  System, Call, get_binary_data, open_for, write_temp, put_file, open_temp, disk_answers,
  get_file_size, reads_of, net_answers, set_file, set_opened, write_at, content_of,
}

module _ {F : Double} where
  -- Which descriptors a state of the master has.
  abbrev pub SameFds : System F → System F → Type 0
  SameFds s s' = (s'.workers ≡ s.workers) × (s'.interface_fd ≡ s.interface_fd)

  pub open_temp-fds : (fresh : ℤ) (name : Bytes) (s : System F) → SameFds s (open_temp fresh name s)
  unfolding open_temp
  open_temp-fds fresh name s = elim (Bool-cases (same_int fresh minus_one)) [
    | inl failed ↦ rw failed (refl, refl)
    | inr opened ↦ rw opened (refl, refl)
  ]

  open_for-fds :
      (fresh : ℤ) (w : Worker F) (s : System F)
      → ((open_for fresh w s).0.worker_fd ≡ w.worker_fd) × SameFds s (open_for fresh w s).1
  unfolding open_for
  open_for-fds fresh w s = elim (Bool-cases (same_int w.temp_fd minus_one)) [
    | inl shut ↦ rw shut (named w.temp_file_name)
    | inr opened ↦ rw opened (refl, (refl, refl))
  ]
    where
      named :
          (o : Option Bytes)
          → let r : Worker F × System F = elim o [
            | none ↦ (w, s)
            | some name ↦ (record w { temp_fd = fresh }, open_temp fresh name s)
          ] in
            (r.0.worker_fd ≡ w.worker_fd) × SameFds s r.1
      named none = (refl, (refl, refl))
      named (some name) = (refl, open_temp-fds fresh name s)

  write_temp-fds : (fd : ℤ) (bs : Bytes) (s : System F) → SameFds s (write_temp fd bs s)
  unfolding write_temp
  write_temp-fds fd bs s = written (s.opened fd)
    where
      written :
          (o : Option (Bytes × ℕ))
          → SameFds s (elim o [
            | none ↦ s
            | some entry ↦
                let (name, offset) = entry in
                record s {
                  files = set_file s.files name (write_at (content_of (s.files name)) offset bs);
                  opened = set_opened s.opened fd (name, offset + length bs);
                }
          ])
      written none = (refl, refl)
      written (some (name, offset)) = (refl, refl)

  -- What `get_binary_data` leaves as it was.
  abbrev pub Kept : Worker F → System F → Reply × Worker F × System F × List Arrival → Type 0
  Kept w s (reply, w', s', left) = (w'.worker_fd ≡ w.worker_fd) × SameFds s s'

  pub get_binary_data-fds :
      (call : Call) (arrivals : List Arrival) (w : Worker F) (s : System F)
      → Ensures (Kept w s) (get_binary_data call arrivals w s)
  unfolding get_binary_data
  get_binary_data-fds call arrivals w s =
      let o = open_for call.fresh w s in
      let (own, kept) = open_for-fds call.fresh w s in
      Ensures-bind (λ _. Unit {0}) _ _ _
        (Ensures-any (
          binary_loop (length arrivals + 1) w.file_size (disk_answers o.1 o.0.temp_fd call.disk)
            arrivals))
        (λ (reply, size, bs, t) u.
          let (ws, i) = write_temp-fds o.0.temp_fd bs o.1 in (own, (ws ∙ kept.0, i ∙ kept.1)))

  pub put_file-fds :
      (fd : ℤ) (net : List Answer) (w : Worker F) (s : System F)
      → Ensures (λ (r : Reply × System F). SameFds s r.1) (put_file fd net w s)
  unfolding put_file
  put_file-fds fd net w s = named w.temp_file_name
    where
      named :
          (o : Option Bytes)
          → Ensures
              (λ (r : Reply × System F). SameFds s r.1)
              (elim o [
                | none ↦ fault
                | some name ↦ (do
                  (reply, bytes) ←
                      do_put name (get_file_size s name) (reads_of s w.temp_fd) (net_answers fd net)
                  ok (reply, record s { sent = s.sent ++ ((fd, bytes) ∷ []) }))
              ])
      named none = tt
      named (some name) =
          Ensures-bind (λ _. Unit {0}) _ _ _
            (Ensures-any
              (do_put name (get_file_size s name) (reads_of s w.temp_fd) (net_answers fd net)))
            (λ r u. (refl, refl))
