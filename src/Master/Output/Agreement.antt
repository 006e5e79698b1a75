-- ===== src/Master/Output/Agreement.antt =====
-- What `do_put` of the master sends, `next_request` of a worker understands.
use pi_296_cluster.Prelude.{◌≡◌, refl, [], Outcome, ok, fault, hang}
use pi_296_cluster.Kernel.{Bytes}
use pi_296_cluster.Worker.{create_header}
use pi_296_cluster.Master.Output.{put_header, Put}

abbrev bytes_of : Outcome Put → Bytes
bytes_of (ok p) = p.1
bytes_of fault = []
bytes_of hang = []

pub put_header-create_header : (name : Bytes) → put_header name ≡ create_header name
unfolding put_header create_header
put_header-create_header name = refl
