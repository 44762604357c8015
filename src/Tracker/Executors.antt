-- ===== src/Tracker/Executors.antt =====
-- The commands that the tracker keeps are those that some replica has still to execute.
use blsmr.Prelude.{
  ℕ, ◌+◌, ◌<◌, ◌≤◌, ◌≡◌, refl, some, List, [], ◌∷◌, arith, ◌==◌, eqb, eqb_iff, length, IsDistinct,
  nat_eq, Bool-cases, Option-cases, inl, inr,
}
use blsmr.Client.{CmdId, cmd_id_eq}
use blsmr.Map.{get, insert, get-insert, get-remove, get-or_insert}
use blsmr.HashSet
use blsmr.Tracker.{
  ConflictTracker, TrackedCommand, new, record_arrival, record_execution, record_path,
  record_decision, count_execution, add_executor, tracked,
}
use blsmr.Tracker.Percentage.{Event, arrives, executes, takes_path, decides, observe, observe_all}

-- Each executor once, and not all of them.
record IsUnfinished (n : ℕ) (command : TrackedCommand) : Type 0 where
  distinct : IsDistinct command.executors
  few : length command.executors < n

length-insert-le : (a : ℕ) (s : List ℕ) → length (HashSet.insert a s) ≤ length s + 1
unfolding HashSet.insert
length-insert-le a s = ground arith

record AllUnfinished (n : ℕ) (t : ConflictTracker) : Type 0 where
  count : t.replica_count ≡ n
  each : (id : CmdId) (c : TrackedCommand) → get id t.commands ≡ some c → IsUnfinished n c

fresh-IsUnfinished : (n key : ℕ) → 1 ≤ n → IsUnfinished n (record { key = key; executors = [] })
fresh-IsUnfinished n key pos = record { distinct = tt; few = omega arith }

tracked-IsUnfinished :
    (n : ℕ) (t : ConflictTracker) (cmd_id : CmdId) (key : ℕ)
    → 1 ≤ n
    → AllUnfinished n t
    → IsUnfinished n (tracked (get cmd_id t.commands) key)
unfolding tracked
tracked-IsUnfinished n t cmd_id key pos all = elim (Option-cases (get cmd_id t.commands)) [
  | inl e ↦ rw e (fresh-IsUnfinished n key pos)
  | inr (c, e) ↦ rw e (all.each cmd_id c e)
]

add_executor-AllUnfinished :
    (n : ℕ) (t : ConflictTracker) (pid : ℕ) (cmd_id : CmdId) (key : ℕ)
    → 1 ≤ n
    → AllUnfinished n t
    → AllUnfinished n (add_executor t pid cmd_id key)
unfolding add_executor
add_executor-AllUnfinished n t pid cmd_id key pos all =
    let old = tracked (get cmd_id t.commands) key in
    let command : TrackedCommand = record old { executors = HashSet.insert pid old.executors } in
    let before = tracked-IsUnfinished n t cmd_id key pos all in
    let once = HashSet.insert-IsDistinct pid old.executors before.distinct in
    elim (Bool-cases (eqb (length command.executors) t.replica_count)) [
      | inl full ↦ rw full (record {
        count = all.count;
        each = λ id c e. all.each id c (
            ground (
              arith,
              get-remove id cmd_id (insert cmd_id command t.commands),
              get-insert id cmd_id command t.commands,
            ));
      })
      | inr short ↦ rw short (record {
        count = all.count;
        each = λ id c e. elim (Bool-cases (cmd_id == id)) [
          | inl same ↦
              let new_one : command ≡ c = ground (arith, get-insert id cmd_id command t.commands) in
              rw (← new_one) (record {
                distinct = once;
                few = ground (
                  arith,
                  length-insert-le pid old.executors,
                  before.few,
                  eqb_iff (length command.executors) t.replica_count,
                  all.count,
                );
              })
          | inr apart ↦ all.each id c (ground (arith, get-insert id cmd_id command t.commands))
        ];
      })
    ]

count_execution-AllUnfinished :
    (n : ℕ) (t : ConflictTracker) (cmd_id : CmdId) (key : ℕ)
    → AllUnfinished n t
    → AllUnfinished n (count_execution t cmd_id key)
unfolding count_execution
count_execution-AllUnfinished n t cmd_id key all = record {
  count = ground (arith, all.count);
  each = λ id c e. all.each id c (ground arith);
}

observe-AllUnfinished :
    (n : ℕ) (t : ConflictTracker) (event : Event)
    → 1 ≤ n
    → AllUnfinished n t
    → AllUnfinished n (observe t event)
unfolding record_arrival record_execution record_path record_decision
observe-AllUnfinished n t (arrives cmd_id key) pos all = record {
  count = all.count;
  each = λ id c e.
      let fresh : TrackedCommand = record { key = key; executors = [] } in
      let found = get-or_insert id cmd_id fresh t.commands in
      elim (Bool-cases (cmd_id == id)) [
        | inr apart ↦ all.each id c (ground (arith, found))
        | inl same ↦ elim (Option-cases (get cmd_id t.commands)) [
          | inl none_ ↦
              let entered : fresh ≡ c = ground (arith, found) in
              rw (← entered) (fresh-IsUnfinished n key pos)
          | inr (old, e1) ↦
              let kept : old ≡ c = ground (arith, found) in rw (← kept) (all.each cmd_id old e1)
        ]
      ];
}
observe-AllUnfinished n t (executes pid cmd_id key) pos all =
    add_executor-AllUnfinished n (count_execution t cmd_id key) pid cmd_id key pos
      (count_execution-AllUnfinished n t cmd_id key all)
observe-AllUnfinished n t (takes_path cmd_id fast) pos all = record {
  count = all.count;
  each = all.each;
}
observe-AllUnfinished n t (decides cmd_id deps) pos all = record {
  count = all.count;
  each = all.each;
}

observe_all-AllUnfinished :
    (n : ℕ) (events : List Event) → 1 ≤ n → AllUnfinished n (observe_all n events)
unfolding new get
observe_all-AllUnfinished n [] pos = record { count = refl; each = λ id c e. cc }
observe_all-AllUnfinished n (event ∷ events) pos =
    observe-AllUnfinished n (observe_all n events) event pos
      (observe_all-AllUnfinished n events pos)

-- After any sequence of recorded events, a command that the tracker of at least one replica keeps
-- has distinct executors, fewer than there are replicas.
pub executors_bounded :
    (n : ℕ) (events : List Event) (id : CmdId) (c : TrackedCommand)
    → 1 ≤ n
    → get id (observe_all n events).commands ≡ some c
    → IsDistinct c.executors × (length c.executors < n)
executors_bounded n events id c pos e =
    let kept = (observe_all-AllUnfinished n events pos).each id c e in (kept.distinct, kept.few)
