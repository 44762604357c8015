-- ===== src/Quorum.antt =====
-- crates/quorum/src/lib.rs: the two flavours of quorum systems behind one interface.
pub mod Thres
pub mod Grid
use mathlib.Core.Option
use blsmr.Prelude.{ℕ, Bool, Option, List}

pub data Flavor : Type 0 where
  threshold : Thres.QuorumSystem → Flavor
  witness_grid : Grid.QuorumSystem → Flavor

pub record QuorumSystem : Type 0 where
  pub flavor : Flavor

unfoldable pub new_dissemination : List ℕ → QuorumSystem
new_dissemination pids = record { flavor = threshold (Thres.new pids 3 2) }

unfoldable pub new_witnessing : List ℕ → QuorumSystem
new_witnessing pids = record { flavor = threshold (Thres.new pids 5 4) }

-- `none` is the failed assertion of a pool that is no square.
unfoldable pub new_witnessing_grid : List ℕ → Option QuorumSystem
new_witnessing_grid pids = Option.map (λ qs. record { flavor = witness_grid qs }) (Grid.new pids)

unfoldable pub new_witnessing_grid_with_faults : List ℕ → ℕ → Option QuorumSystem
new_witnessing_grid_with_faults pids faults =
    Option.map (λ qs. record { flavor = witness_grid qs }) (Grid.with_faults pids faults)

-- What the random generator decides: the sample of a threshold system, the shuffles of a grid.
pub record Choices : Type 0 where
  pub sample : List ℕ → ℕ → List ℕ
  pub shuffle_rows : List ℕ → List ℕ
  pub shuffle_cols : List ℕ → List ℕ

abbrev pub choose_flavor : Choices → Flavor → Flavor
choose_flavor r (threshold qs) = threshold (Thres.choose_random_quorum r.sample qs)
choose_flavor r (witness_grid qs) =
    witness_grid (Grid.choose_random_quorum r.shuffle_rows r.shuffle_cols qs)

abbrev pub buffer : Flavor → List ℕ
buffer (threshold qs) = qs.quorum_buffer
buffer (witness_grid qs) = qs.quorum_buffer

-- The system with its new buffer, and the buffer.
unfoldable pub choose_random_quorum : Choices → QuorumSystem → QuorumSystem × List ℕ
choose_random_quorum r qs =
    let flavor : Flavor = choose_flavor r qs.flavor in (record { flavor = flavor }, buffer flavor)

abbrev pub flavor_size : Flavor → ℕ
flavor_size (threshold qs) = Thres.size qs
flavor_size (witness_grid qs) = Grid.size qs

unfoldable pub size : QuorumSystem → ℕ
size qs = flavor_size qs.flavor

abbrev pub committee_size : Flavor → ℕ
committee_size (threshold qs) = Thres.size qs
committee_size (witness_grid qs) = qs.consensus_committee_size

unfoldable pub consensus_committee_size : QuorumSystem → ℕ
consensus_committee_size qs = committee_size qs.flavor

abbrev pub flavor_is_quorum : Flavor → List ℕ → Bool
flavor_is_quorum (threshold qs) pids = Thres.is_quorum qs pids
flavor_is_quorum (witness_grid qs) pids = Grid.is_quorum qs pids

unfoldable pub is_quorum : QuorumSystem → List ℕ → Bool
is_quorum qs pids = flavor_is_quorum qs.flavor pids
