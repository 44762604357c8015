-- ===== src/Tracker/Percentage.antt =====
-- The percentage that the tracker reports is one, whatever was recorded.
use blsmr.Prelude.{length, length-keep-le, ℕ, ◌*◌, ◌≤◌, ◌≡◌, Bool, List, [], ◌∷◌, arith, eqb_iff}
use blsmr.Client.{CmdId}
use blsmr.Tracker.{
  ConflictTracker, new, record_arrival, record_execution, record_path, record_decision, percentage,
  fast_path_percentage, count_execution, add_executor,
}

pub data Event : Type 0 where
  arrives : CmdId → ℕ → Event
  executes : ℕ → CmdId → ℕ → Event
  takes_path : CmdId → Bool → Event
  decides : CmdId → List CmdId → Event

abbrev pub observe : ConflictTracker → Event → ConflictTracker
observe t (arrives cmd_id key) = record_arrival t cmd_id key
observe t (executes pid cmd_id key) = record_execution t pid cmd_id key
observe t (takes_path cmd_id fast) = record_path t cmd_id fast
observe t (decides cmd_id deps) = record_decision t cmd_id deps

-- The events, the last one first.
abbrev pub observe_all : ℕ → List Event → ConflictTracker
observe_all n [] = new n
observe_all n (event ∷ events) = observe (observe_all n events) event

count_execution-le :
    (t : ConflictTracker) (cmd_id : CmdId) (key : ℕ)
    → t.conflicting_commands ≤ t.executed_commands
    → (count_execution t cmd_id key).conflicting_commands
      ≤ (count_execution t cmd_id key).executed_commands
unfolding count_execution
count_execution-le t cmd_id key le = ground (arith, le)

add_executor-same :
    (t : ConflictTracker) (pid : ℕ) (cmd_id : CmdId) (key : ℕ)
    → ((add_executor t pid cmd_id key).conflicting_commands ≡ t.conflicting_commands)
      × ((add_executor t pid cmd_id key).executed_commands ≡ t.executed_commands)
unfolding add_executor
add_executor-same t pid cmd_id key = (ground arith, ground arith)

observe-le :
    (t : ConflictTracker) (event : Event)
    → t.conflicting_commands ≤ t.executed_commands
    → (observe t event).conflicting_commands ≤ (observe t event).executed_commands
unfolding record_arrival record_execution record_path record_decision
observe-le t (arrives cmd_id key) le = le
observe-le t (executes pid cmd_id key) le =
    let (conflicting, executed) = add_executor-same (count_execution t cmd_id key) pid cmd_id key in
    omega (arith, conflicting, executed, count_execution-le t cmd_id key le)
observe-le t (takes_path cmd_id fast) le = le
observe-le t (decides cmd_id deps) le = le

observe_all-le :
    (n : ℕ) (events : List Event)
    → (observe_all n events).conflicting_commands ≤ (observe_all n events).executed_commands
unfolding new
observe_all-le n [] = omega arith
observe_all-le n (event ∷ events) =
    observe-le (observe_all n events) event (observe_all-le n events)

-- After any sequence of recorded arrivals, executions, paths and decisions, the percentages of
-- conflicting commands and of fast paths are fractions with positive denominators and at most one
-- hundred.
pub percentage_bounded :
    (n : ℕ) (events : List Event)
    → (1 ≤ (percentage (observe_all n events)).den)
      × ((percentage (observe_all n events)).num ≤ 100 * (percentage (observe_all n events)).den)
      × (1 ≤ (fast_path_percentage (observe_all n events)).den)
      × ((fast_path_percentage (observe_all n events)).num
          ≤ 100 * (fast_path_percentage (observe_all n events)).den)
unfolding percentage fast_path_percentage
percentage_bounded n events =
    let t = observe_all n events in
    let le = observe_all-le n events in
    (
      ground (arith, eqb_iff t.executed_commands 0),
      ground (arith, le),
      ground (arith, eqb_iff (length t.paths) 0),
      ground (arith, length-keep-le (λ p. p.1) t.paths),
    )
