-- ===== src/Tests.antt =====
-- Runs of the operations at small inputs, and the theorems applied there.
pub mod Baselines
pub mod Graphs
pub mod CommandLog
pub mod Quorums
pub mod Rounds
use blsmr.Prelude.{ℕ, ◌≡◌, refl, Bool, true, false, none, some, List, [], ◌∷◌}
use blsmr.Client.{CmdId, Command}
use blsmr.Host.{Host, IsIteration}
use blsmr.Metrics.{Metrics}

-- Two commands of different replicas on one key.
abbrev pub put : CmdId
put = record { id = 1; pid = 1 }

abbrev pub set : CmdId
set = record { id = 2; pid = 2 }

abbrev pub put_cmd : Command
put_cmd = record { id = put; key = 7 }

abbrev pub set_cmd : Command
set_cmd = record { id = set; key = 7 }

abbrev pub host : Host
host = record {
  pid = 1;
  now = 5;
  pool = 1 ∷ 2 ∷ 3 ∷ 4 ∷ [];
  elapsed = λ now start. now;
  iterate = λ s. s;
}

pub host-IsIteration : IsIteration host
host-IsIteration = record { members = λ s id. refl; once = λ s d. d }

abbrev pub no_metrics : Metrics
no_metrics = record {
  latency_sum = 0;
  latency_count = 0;
  commit_latencies = [];
  track_conflict_rate = true;
  tracker = record {
    replica_count = 4;
    commands = [];
    conflicting_commands = 0;
    executed_commands = 0;
    paths = [];
    dependencies = [];
  };
}
