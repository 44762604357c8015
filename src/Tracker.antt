-- ===== src/Tracker.antt =====
-- crates/blsmr/src/log.rs, lines 18-25 and 33-111: `ConflictTracker`. A percentage is kept as
-- the fraction that the code divides out, and counters are unbounded.
pub mod Percentage
pub mod Executors
use blsmr.Prelude.{
  ℕ, ◌+◌, ◌*◌, Bool, true, false, not, ◌&&◌, Option, none, some, List, [], ◌∷◌, Eq, ◌==◌, eqb, ltb,
  if◌then◌else◌, length, keep, any, nat_eq, ◌++◌, map,
}
use blsmr.Client.{CmdId, cmd_id_eq}
use blsmr.Map.{Map, get, insert, remove, or_insert}
use blsmr.HashSet
use blsmr.Host.{Host}

pub record TrackedCommand : Type 0 where
  pub key : ℕ
  pub executors : List ℕ

pub record ConflictTracker : Type 0 where
  pub replica_count : ℕ
  pub commands : Map CmdId TrackedCommand
  pub conflicting_commands : ℕ
  pub executed_commands : ℕ
  pub paths : Map CmdId Bool
  pub dependencies : Map CmdId (List CmdId)

pub record Fraction : Type 0 where
  pub num : ℕ
  pub den : ℕ

unfoldable pub new : ℕ → ConflictTracker
new replica_count = record {
  replica_count = replica_count;
  commands = [];
  conflicting_commands = 0;
  executed_commands = 0;
  paths = [];
  dependencies = [];
}

unfoldable pub record_arrival : ConflictTracker → CmdId → ℕ → ConflictTracker
record_arrival t cmd_id key = record t {
  commands = or_insert cmd_id (record { key = key; executors = [] }) t.commands;
}

-- No replica has executed the command yet.
unfoldable is_first : Option TrackedCommand → Bool
is_first none = true
is_first (some command) = eqb (length command.executors) 0

-- Another command on the key that some replica has not executed.
unfoldable is_conflicting : ConflictTracker → CmdId → ℕ → Bool
is_conflicting t cmd_id key =
    any
      (λ (other_id, other).
        not (other_id == cmd_id)
        && eqb other.key key
        && ltb (length other.executors) t.replica_count)
      t.commands

unfoldable count_execution : ConflictTracker → CmdId → ℕ → ConflictTracker
unfolding is_first is_conflicting
count_execution t cmd_id key =
    if is_first (get cmd_id t.commands)
    then record t {
      executed_commands = t.executed_commands + 1;
      conflicting_commands =
          t.conflicting_commands + (if is_conflicting t cmd_id key then 1 else 0);
    }
    else t

-- The tracked command, entered when it is new.
unfoldable tracked : Option TrackedCommand → ℕ → TrackedCommand
tracked none key = record { key = key; executors = [] }
tracked (some command) key = command

unfoldable add_executor : ConflictTracker → ℕ → CmdId → ℕ → ConflictTracker
unfolding tracked
add_executor t pid cmd_id key =
    let old = tracked (get cmd_id t.commands) key in
    let command : TrackedCommand = record old { executors = HashSet.insert pid old.executors } in
    if eqb (length command.executors) t.replica_count
    then record t { commands = remove cmd_id (insert cmd_id command t.commands) }
    else record t { commands = insert cmd_id command t.commands }

unfoldable pub record_execution : ConflictTracker → ℕ → CmdId → ℕ → ConflictTracker
unfolding count_execution add_executor
record_execution t pid cmd_id key = add_executor (count_execution t cmd_id key) pid cmd_id key

unfoldable pub percentage : ConflictTracker → Fraction
percentage t =
    if eqb t.executed_commands 0
    then record { num = 0; den = 1 }
    else record { num = 100 * t.conflicting_commands; den = t.executed_commands }

unfoldable pub record_path : ConflictTracker → CmdId → Bool → ConflictTracker
record_path t cmd_id fast = record t { paths = insert cmd_id fast t.paths }

unfoldable pub record_decision : ConflictTracker → CmdId → List CmdId → ConflictTracker
record_decision t cmd_id deps = record t { dependencies = insert cmd_id deps t.dependencies }

unfoldable pub fast_path_percentage : ConflictTracker → Fraction
fast_path_percentage t =
    if eqb (length t.paths) 0
    then record { num = 0; den = 1 }
    else record { num = 100 * length (keep (λ p. p.1) t.paths); den = length t.paths }
