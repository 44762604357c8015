-- ===== src/Quorum/Thres.antt =====
-- crates/quorum/src/thres.rs: threshold quorums. A response set is accepted by its size alone.
pub mod Intersection
pub mod Reach
use blsmr.Prelude.{ℕ, ◌+◌, ◌-◌, ◌*◌, ◌/◌, ◌%◌, Bool, List, [], leb, length}

pub record QuorumSystem : Type 0 where
  pub pids : List ℕ
  pub quorum_buffer : List ℕ
  pub f : ℕ
  pub m : ℕ

unfoldable pub new : List ℕ → ℕ → ℕ → QuorumSystem
new pids f m = record { pids = pids; quorum_buffer = []; f = f; m = m }

-- The subtraction wraps around for an empty pool.
unfoldable pub size : QuorumSystem → ℕ
size qs =
    qs.m * ((length qs.pids + 0x1_0000_0000_0000_0000 - 1) % 0x1_0000_0000_0000_0000 / qs.f)
    + qs.m
    - 1

-- `sample` is the generator's choice of that many elements.
unfoldable pub choose_random_quorum : (List ℕ → ℕ → List ℕ) → QuorumSystem → QuorumSystem
unfolding size
choose_random_quorum sample qs = record qs { quorum_buffer = sample qs.pids (size qs) }

unfoldable pub is_quorum : QuorumSystem → List ℕ → Bool
unfolding size
is_quorum qs pids = leb (size qs) (length pids)
