-- ===== src/Log/Execute.antt =====
-- crates/blsmr/src/log.rs, `try_execute`.
pub mod Effects
pub mod Order
use blsmr.Prelude.{◌>>=◌, ℕ, Bool, true, false, Option, none, some, List, [], ◌∷◌, if◌then◌else◌}
use blsmr.Client.{CmdId, Command, cmd_id_eq}
use blsmr.Map.{Map, get, insert}
use blsmr.Host.{Host}
use blsmr.Metrics.{Metrics, record_execution}
use blsmr.Sort.{sort}
use blsmr.Log.{Entry, CmdLog}
use blsmr.Log.Closure.{collect_pending_closure}
use blsmr.Log.Scc.{tarjan_sccs}

-- `record_execution(cmd.id, cmd.key)` if the command is known.
abbrev pub count_cmd : Host → Metrics → Option Command → Metrics
count_cmd h m none = m
count_cmd h m (some cmd) = record_execution h m cmd.id cmd.key

-- The body of the inner loop.
unfoldable pub execute_one : Host → CmdId → CmdLog × Metrics → CmdLog × Metrics
unfolding record_execution
execute_one h id (log, m) = elim (get id log.entries) [
  | none ↦ (log, m)
  | some entry ↦ if entry.executed then (log, m) else (
    record log { entries = insert id (record entry { executed = true }) log.entries },
    count_cmd h m entry.cmd,
  )
]

unfoldable pub execute_scc : Host → List CmdId → CmdLog × Metrics → CmdLog × Metrics
unfolding execute_one
execute_scc h [] s = s
execute_scc h (id ∷ ids) s = execute_scc h ids (execute_one h id s)

unfoldable pub execute_sccs : Host → List (List CmdId) → CmdLog × Metrics → CmdLog × Metrics
unfolding execute_scc
execute_sccs h [] s = s
execute_sccs h (scc ∷ sccs) s = execute_sccs h sccs (execute_scc h (sort scc) s)

-- `entries.get(&root).is_none_or(|entry| entry.executed)`.
abbrev pub is_settled : Option Entry → Bool
is_settled none = true
is_settled (some entry) = entry.executed

unfoldable pub try_execute : Host → CmdId → CmdLog × Metrics → Option (CmdLog × Metrics)
unfolding execute_sccs
try_execute h root (log, m) = if is_settled (get root log.entries) then some (log, m) else (do
  sccs ← tarjan_sccs log (collect_pending_closure log root)
  some (execute_sccs h sccs (log, m)))
