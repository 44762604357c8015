-- ===== src/Submission.antt =====
-- What crates/hotstuff and crates/bullshark share: submitted commands, and the figures that all
-- replicas of a simulation write when they commit a block.
use blsmr.Prelude.{ℕ, ◌+◌, List, [], ◌∷◌, ◌++◌, if◌then◌else◌, contains, filter_map, map}
use blsmr.Client.{CmdId, Command, cmd_id_eq}
use blsmr.Map.{Map, get}
use blsmr.HashSet
use blsmr.Host.{Host}

-- The flag `committed` of a command, which its holders share, is in the ledger.
pub record SubmittedCommand : Type 0 where
  pub command : Command
  pub submitted_at : ℕ

-- The counter of committed blocks, the commands whose flag is set, and the latencies.
pub record Ledger : Type 0 where
  pub block_commits : ℕ
  pub committed : List CmdId
  pub latencies : List ℕ

-- `if !command.committed.swap(true, ..) { .. }`.
unfoldable pub mark_committed : Host → SubmittedCommand → Ledger → Ledger
mark_committed h c l = if contains l.committed c.command.id then l else record l {
  committed = HashSet.insert c.command.id l.committed;
  latencies = l.latencies ++ h.elapsed h.now c.submitted_at ∷ [];
}

unfoldable pub mark_all : Host → List SubmittedCommand → Ledger → Ledger
unfolding mark_committed
mark_all h [] l = l
mark_all h (c ∷ commands) l = mark_all h commands (mark_committed h c l)

-- A block is counted, and then its commands are marked.
unfoldable pub count_block : Host → List SubmittedCommand → Ledger → Ledger
unfolding mark_all
count_block h commands l = mark_all h commands (record l { block_commits = l.block_commits + 1 })

-- The values of `pending_commands.drain()`, in the order in which the map is iterated.
unfoldable pub drain : Host → Map CmdId SubmittedCommand → List SubmittedCommand
drain h pending = filter_map (λ id. get id pending) (h.iterate (map (λ p. p.0) pending))
