-- ===== src/Tests/Rounds.antt =====
-- A round of announcements, a consensus instance, and what the metrics make of them.
use blsmr.Prelude.{
  ◌<◌, ◌&&◌, ◌==◌, IsDistinct, ℕ, zero, suc, list_eq, ◌*◌, ◌≤◌, ◌≡◌, refl, ◌↔◌, ◌||◌, true, false,
  Option, none, some, List, [], ◌∷◌, arith, any, eqb, contains, length, nat_eq,
}
use blsmr.Client.{CmdId, cmd_id_eq}
use blsmr.Map
use blsmr.Map.{get}
use blsmr.HashSet
use blsmr.Quorum.Thres
use blsmr.Sort.Laws.{IsAscending}
use blsmr.Quorum
use blsmr.Quorum.{QuorumSystem}
use blsmr.Log.{empty}
use blsmr.Consensus.{
  epaxos, Quorum, Instance, accept, replicas, Response, response, on_message, propose,
}
use blsmr.Consensus.Decision.{IsWf, Call, proposes, receives, run, responded, accept_iff}
use blsmr.Consensus.Grounds.{decided_by_committee}
use blsmr.Dds.{default, req, Dds, Res, QuorumReady, allow_fastpath, union_deps}
use blsmr.Dds.Union.{union_deps-IsAscending}
use blsmr.Dds.FastPath.{AllReport, fast_path_unanimous}
use blsmr.Tracker.{percentage, fast_path_percentage}
use blsmr.Tracker
use blsmr.Tracker.{TrackedCommand}
use blsmr.Tracker.Executors.{executors_bounded}
use blsmr.Tracker.Percentage.{arrives, executes, observe_all, percentage_bounded}
use blsmr.Log.Invariant.{IsWf as LogIsWf}
use blsmr.Log.History.{empty-IsWf}
use blsmr.Process
use blsmr.Process.{Config, Run}
use blsmr.Process.Total.{on_message_total}
use blsmr.Tests.{put, set, put_cmd, host, host-IsIteration, no_metrics}

abbrev system : QuorumSystem
system = Quorum.new_dissemination (1 ∷ 2 ∷ 3 ∷ 4 ∷ [])

-- One response of four is missing.
abbrev nearly : Instance
nearly = record { deps = set ∷ []; replicas = 1 ∷ 2 ∷ 3 ∷ 4 ∷ []; responses = 3 ∷ 2 ∷ 1 ∷ [] }

nearly-IsWf : IsWf nearly
nearly-IsWf = record { distinct = ground arith; members = λ p m. ground arith }

accept_iff_example :
    (((accept nearly 4 (set ∷ [])).1 ≡ true) ↔ (
      (nearly.deps ≡ set ∷ [])
      × (contains nearly.replicas 4 ≡ true)
      × ((p : ℕ)
          → contains nearly.replicas p ≡ true
          → (eqb 4 p || contains nearly.responses p) ≡ true)))
    × ((accept nearly 4 (set ∷ [])).0.deps ≡ set ∷ [])
    × ((accept nearly 4 (set ∷ [])).0.replicas ≡ nearly.replicas)
    × ((p : ℕ)
        → contains (accept nearly 4 (set ∷ [])).0.responses p ≡ (
            contains nearly.responses p
            || eqb 4 p && (nearly.deps == set ∷ [] && contains nearly.replicas 4)))
    × IsWf (accept nearly 4 (set ∷ [])).0
accept_iff_example = accept_iff nearly 4 (set ∷ []) nearly-IsWf (ground arith)

abbrev idle_quorum : Quorum
idle_quorum = record { protocol_type = epaxos; bqs = system; instances = [] }

abbrev ack : Response
ack = record { cmd_id = put; deps = set ∷ [] }

abbrev three_acks : List Call
three_acks =
    receives 3 (response ack)
    ∷ receives 2 (response ack)
    ∷ receives 1 (response ack)
    ∷ proposes put (set ∷ [])
    ∷ []

abbrev hash : CmdId → ℕ → ℕ
hash cmd_id pid = pid

decided_by_committee_example :
    ((p : ℕ)
      → contains (replicas hash host idle_quorum put) p ≡ true
      → responded hash host (receives 4 (response ack) ∷ three_acks) p put (set ∷ []) ≡ true)
    × (get put (run hash host idle_quorum (receives 4 (response ack) ∷ three_acks)).instances
        ≡ none)
unfolding on_message propose replicas accept get Map.insert HashSet.insert
decided_by_committee_example =
    decided_by_committee hash host idle_quorum three_acks 4 ack put (set ∷ []) refl (ground arith)
      refl

abbrev reply : ℕ → Res
reply pid = record { pid = pid; id = put; conflicts = set ∷ [] }

abbrev replies : List Res
replies = reply 2 ∷ reply 3 ∷ reply 4 ∷ []

union_deps-IsAscending_example :
    IsAscending (union_deps (reply 1 ∷ replies))
    × ((id : CmdId)
        → contains (union_deps (reply 1 ∷ replies)) id
          ≡ any (λ r. contains r.conflicts id) (reply 1 ∷ replies))
union_deps-IsAscending_example = union_deps-IsAscending (reply 1 ∷ replies)

fast_path_unanimous_example :
    (length (reply 1 ∷ replies) ≡ 4)
    × AllReport (reply 1) replies
    × ((id : CmdId)
        → contains (union_deps (reply 1 ∷ replies)) id ≡ contains (reply 1).conflicts id)
unfolding allow_fastpath
fast_path_unanimous_example = fast_path_unanimous 4 (reply 1) replies (ground arith) refl

abbrev waiting : Dds
waiting = record {
  protocol_type = epaxos;
  peer_number = 4;
  bqs = system;
  log = empty;
  pending_announce_quorums = (put, reply 1 ∷ reply 2 ∷ []) ∷ [];
  announce_timeout = 10;
  announce_force_timers = [];
}

abbrev ready : QuorumReady
ready = record { quorum = reply 1 ∷ reply 2 ∷ reply 3 ∷ []; allow_fastpath = false }

abbrev answered : Dds
answered = record waiting { pending_announce_quorums = [] }

percentage_bounded_example :
    (1 ≤ (percentage (observe_all 2 (executes 1 put 7 ∷ arrives set 7 ∷ arrives put 7 ∷ []))).den)
    × ((percentage (observe_all 2 (executes 1 put 7 ∷ arrives set 7 ∷ arrives put 7 ∷ []))).num
        ≤ 100
          * (percentage
              (observe_all 2 (executes 1 put 7 ∷ arrives set 7 ∷ arrives put 7 ∷ []))).den)
    × (1
        ≤ (fast_path_percentage
            (observe_all 2 (executes 1 put 7 ∷ arrives set 7 ∷ arrives put 7 ∷ []))).den)
    × ((fast_path_percentage
          (observe_all 2 (executes 1 put 7 ∷ arrives set 7 ∷ arrives put 7 ∷ []))).num
        ≤ 100
          * (fast_path_percentage
              (observe_all 2 (executes 1 put 7 ∷ arrives set 7 ∷ arrives put 7 ∷ []))).den)
percentage_bounded_example =
    percentage_bounded 2 (executes 1 put 7 ∷ arrives set 7 ∷ arrives put 7 ∷ [])

abbrev started : Run
started = record {
  state = Process.default host (record {
    submit_interval = 1;
    submit_limit = 3;
    key_count = 10;
    key_zipf = false;
    quorum_system = system;
    announce_timeout = 10;
    protocol_type = epaxos;
    track_conflict_rate = true;
  });
  metrics = no_metrics;
  effects = [];
}

on_message_total_example :
    (r' : Run) × (Process.on_message hash host started 2 (Process.announce (req put_cmd)) ≡ some r')
    × LogIsWf r'.state.dds.log
unfolding Process.default default
on_message_total_example =
    on_message_total hash host started 2 (Process.announce (req put_cmd)) host-IsIteration
      empty-IsWf

-- The replica has set the timer of its first submission.
abbrev scheduled : Run
scheduled = Process.on_start 7 started

-- The first key, if there is one.
abbrev first_key : ℕ → Option ℕ
first_key n = elim n [ zero ↦ none | suc _ ↦ some 0 ]

abbrev drawn : Process.Draw
drawn = record {
  unique_id = 1;
  sample = 1;
  choose = first_key;
  force_timer = 8;
  choices = record { sample = λ pids n. pids; shuffle_rows = λ l. l; shuffle_cols = λ l. l };
  submit_timer = 9;
}

abbrev once_run : TrackedCommand
once_run = record { key = 7; executors = 1 ∷ [] }

executors_bounded_example : IsDistinct once_run.executors × (length once_run.executors < 2)
unfolding Tracker.new Tracker.record_arrival Tracker.record_execution get Map.insert Map.or_insert
    HashSet.insert
executors_bounded_example =
    executors_bounded 2 (executes 1 put 7 ∷ arrives put 7 ∷ []) put once_run (omega arith) refl
