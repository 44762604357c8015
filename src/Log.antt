-- ===== src/Log.antt =====
-- crates/blsmr/src/log.rs: the command log's data, and the operations that do not follow
-- dependencies: `record_creation` and `submit`. The children hold the rest.
pub mod Invariant
pub mod Submit
pub mod Closure
pub mod Scc
pub mod Execute
pub mod Promote
pub mod History
use blsmr.Prelude.{
  ℕ, Bool, true, false, Option, none, some, List, [], ◌∷◌, ◌++◌, if◌then◌else◌, contains, nat_eq,
  filter_map,
}
use blsmr.Client.{CmdId, Command, cmd_id_eq}
use blsmr.Map.{Map, get, insert, or_insert}
use mathlib.Core.Option

pub data Phase : Type 0 where
  pending commit stable : Phase

pub record Entry : Type 0 where
  pub cmd : Option Command
  pub submitted_at : ℕ
  pub deps : Option (List CmdId)
  pub phase : Phase
  pub executed : Bool

-- `Entry::deps`.
abbrev pub entry_deps : Entry → List CmdId
entry_deps e = Option.get_or e.deps []

pub record CmdLog : Type 0 where
  pub entries : Map CmdId Entry
  pub by_key : Map ℕ (List CmdId)
  pub pending_commit : List CmdId
  pub stable : List CmdId

-- `CmdLog::default`.
abbrev pub empty : CmdLog
empty = record { entries = []; by_key = []; pending_commit = []; stable = [] }

abbrev pub new_entry : ℕ → Entry
new_entry now = record {
  cmd = none;
  submitted_at = now;
  deps = none;
  phase = Phase.pending;
  executed = false;
}

unfoldable pub record_creation_at : CmdLog → CmdId → ℕ → CmdLog
record_creation_at log cmd_id submitted_at = record log {
  entries = or_insert cmd_id (new_entry submitted_at) log.entries;
}

abbrev pub is_stable : Phase → Bool
is_stable Phase.stable = true
is_stable _ = false

-- The identifier of an entry's command, unless the entry is stable or its command is unknown.
abbrev pub live_cmd : Option Entry → Option CmdId
live_cmd none = none
live_cmd (some entry) = if is_stable entry.phase then none else Option.map (λ cmd. cmd.id) entry.cmd

-- The bucket of the key, an empty one if it has none.
abbrev pub bucket : CmdLog → ℕ → List CmdId
bucket log key = Option.get_or (get key log.by_key) []

abbrev pub conflicts : CmdLog → ℕ → List CmdId
conflicts log key = filter_map (λ id. live_cmd (get id log.entries)) (bucket log key)

-- `if entry.cmd.is_none() { .. }`: the first copy of the command fills the entry and the bucket.
abbrev pub fill : CmdLog → Command → Entry → CmdLog
fill log cmd entry = elim entry.cmd [
  | some _ ↦ log
  | none ↦ record log {
    entries = insert cmd.id (record entry { cmd = some cmd }) log.entries;
    by_key = insert cmd.key (bucket log cmd.key ++ cmd.id ∷ []) log.by_key;
  }
]

unfoldable pub submit : ℕ → CmdLog → Command → CmdLog × List CmdId
submit now log cmd = if contains log.stable cmd.id then (log, []) else (
  fill (record log { entries = or_insert cmd.id (new_entry now) log.entries }) cmd
      (Option.get_or (get cmd.id log.entries) (new_entry now)),
  conflicts log cmd.key,
)
