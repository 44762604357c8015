-- ===== src/Metrics.antt =====
-- crates/blsmr/src/log.rs, lines 27-31 and 353-428: the values that the handlers keep in the simulator's
-- key-value store.
use blsmr.Prelude.{ℕ, ◌+◌, Bool, List, [], ◌∷◌, ◌++◌, if◌then◌else◌, eqb, Option}
use blsmr.Client.{CmdId, cmd_id_eq, cmd_id_lt}
use blsmr.Host.{Host}
use blsmr.Tracker
use blsmr.Tracker.{ConflictTracker, Fraction}
use blsmr.Map.{Map, get}

pub record PathRecord : Type 0 where
  pub cmd_id : CmdId
  pub fast : Bool
  pub deps : Option (List CmdId)

pub record Metrics : Type 0 where
  pub latency_sum : ℕ
  pub latency_count : ℕ
  pub commit_latencies : List ℕ
  pub track_conflict_rate : Bool
  pub tracker : ConflictTracker

unfoldable pub record_latency : Metrics → ℕ → Bool → Metrics
record_latency m latency record_sample = record m {
  latency_sum = m.latency_sum + latency;
  latency_count = m.latency_count + 1;
  commit_latencies =
      if record_sample then m.commit_latencies ++ latency ∷ [] else m.commit_latencies;
}

unfoldable pub record_arrival : Metrics → CmdId → ℕ → Metrics
record_arrival m cmd_id key = record m { tracker = Tracker.record_arrival m.tracker cmd_id key }

unfoldable pub record_execution : Host → Metrics → CmdId → ℕ → Metrics
record_execution h m cmd_id key =
    if m.track_conflict_rate
    then record m { tracker = Tracker.record_execution m.tracker h.pid cmd_id key }
    else m

unfoldable pub record_path : Metrics → CmdId → Bool → Metrics
record_path m cmd_id fast = record m { tracker = Tracker.record_path m.tracker cmd_id fast }

unfoldable pub record_decision : Metrics → CmdId → List CmdId → Metrics
record_decision m cmd_id deps = record m { tracker = Tracker.record_decision m.tracker cmd_id deps }

-- A mean, with 0 for none.
unfoldable pub average_commit_latency : Metrics → Fraction
average_commit_latency m =
    if eqb m.latency_count 0
    then record { num = 0; den = 1 }
    else record { num = m.latency_sum; den = m.latency_count }

unfoldable pub conflict_rate_percentage : Metrics → Fraction
conflict_rate_percentage m = Tracker.percentage m.tracker

unfoldable pub fast_path_percentage : Metrics → Fraction
fast_path_percentage m = Tracker.fast_path_percentage m.tracker

-- `sort_by_key` on records of different commands.
unfoldable pub insert_record : PathRecord → List PathRecord → List PathRecord
insert_record r [] = r ∷ []
insert_record r (other ∷ records) =
    if cmd_id_lt other.cmd_id r.cmd_id then other ∷ insert_record r records else r ∷ other ∷ records

abbrev pub records_of : ConflictTracker → Map CmdId Bool → List PathRecord
records_of t [] = []
records_of t ((cmd_id, fast) ∷ paths) =
    insert_record (record { cmd_id = cmd_id; fast = fast; deps = get cmd_id t.dependencies })
      (records_of t paths)

unfoldable pub path_records : Metrics → List PathRecord
path_records m = records_of m.tracker m.tracker.paths
