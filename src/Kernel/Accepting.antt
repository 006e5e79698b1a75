-- ===== src/Kernel/Accepting.antt =====
-- Answers to writes under which every byte gets through in the end.
use pi_296_cluster.Prelude.{◌<◌, List, [], ◌∷◌}
use pi_296_cluster.Kernel.{Answer, took, write_eintr, write_eagain, write_failed}

-- No write is refused, and none takes nothing. The second kind is without EAGAIN too.
abbrev pub Accepts : List Answer → Type 0
Accepts [] = Unit {0}
Accepts (took k ∷ later) = (0 < k) × Accepts later
Accepts (write_eintr ∷ later) = Accepts later
Accepts (write_eagain ∷ later) = Accepts later
Accepts (write_failed ∷ later) = ⊥

abbrev pub AcceptsBlocking : List Answer → Type 0
AcceptsBlocking [] = Unit {0}
AcceptsBlocking (took k ∷ later) = (0 < k) × AcceptsBlocking later
AcceptsBlocking (write_eintr ∷ later) = AcceptsBlocking later
AcceptsBlocking (write_eagain ∷ later) = ⊥
AcceptsBlocking (write_failed ∷ later) = ⊥
