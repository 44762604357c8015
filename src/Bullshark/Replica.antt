-- ===== src/Bullshark/Replica.antt =====
-- crates/bullshark/src/lib.rs: a Bullshark replica. `none` stands for a panic.
--
-- The heap holds the vertices that some strong reference keeps alive when the handler starts, and
-- those that the handler makes.
pub mod Anchors
pub mod Advance
pub mod Handlers
pub mod Depth
pub mod Known
pub mod Leaders
pub mod Own
pub mod Tries
pub mod Steps
pub mod Proposals
use blsmr.Prelude.{
  ℕ, zero, suc, ◌+◌, ◌-◌, ◌*◌, ◌/◌, ◌%◌, Bool, true, false, not, ◌&&◌, ◌||◌, Option, none, some,
  List, [], ◌∷◌, ◌++◌, eqb, ltb, leb, if◌then◌else◌, length, get_elem?, keep, filter_map, contains,
  nat_eq, ◌>>=◌, map,
}
use blsmr.Client.{CmdId, cmd_id_eq}
use blsmr.Map.{Map, insert}
use blsmr.Host.{Host}
use blsmr.Effect.{Effect, timer}
use blsmr.Submission.{SubmittedCommand, Ledger, drain}
use blsmr.Bullshark.Broadcast.{ConsistentBroadcast, BcbMessage}
use blsmr.Bullshark.Broadcast
use blsmr.Bullshark.Dag.{Vertex, Heap, VertexMessage, Dag, vertex_lt, vertex_beq, index}
use blsmr.Bullshark.Dag

-- What a replica receives: `BullsharkMessage`, or a message of the broadcast component.
pub data Packet : Type 0 where
  submission : SubmittedCommand → Packet
  bcb : BcbMessage VertexMessage → Packet

-- `buffer` is ascending, and the last element of `ordered_anchors` comes first. The counter of
-- committed blocks is in the ledger.
pub record Bullshark : Type 0 where
  pub submit_interval : ℕ
  pub submit_limit : ℕ
  pub submitted : ℕ
  pub submit_timer : ℕ
  pub pending_commands : Map CmdId SubmittedCommand
  pub rbcast : ConsistentBroadcast VertexMessage
  pub proc_num : ℕ
  pub dag : Dag
  pub round : ℕ
  pub buffer : List Vertex
  pub last_ordered_round : ℕ
  pub ordered_anchors : List Vertex
  pub wait : Bool
  pub timer : ℕ

abbrev pub default : ℕ → ℕ → Bullshark
default submit_interval submit_limit = record {
  submit_interval = submit_interval;
  submit_limit = submit_limit;
  submitted = 0;
  submit_timer = 0;
  pending_commands = [];
  rbcast = Broadcast.default;
  proc_num = 0;
  dag = Dag.default;
  round = 0;
  buffer = [];
  last_ordered_round = 0;
  ordered_anchors = [];
  wait = true;
  timer = 0;
}

-- A replica with the heap, the shared ledger, the effects of the handler, and the number of
-- identifiers that it has taken.
pub record Run : Type 0 where
  pub state : Bullshark
  pub heap : Heap
  pub ledger : Ledger
  pub effects : List (Effect Packet)
  pub taken : ℕ

-- The subtraction wraps around before the number of replicas is known.
unfoldable pub adversary_threshold : ℕ → ℕ
adversary_threshold proc_num =
    (proc_num + 0x1_0000_0000_0000_0000 - 1) % 0x1_0000_0000_0000_0000 / 3

unfoldable pub quorum_size : ℕ → ℕ
unfolding adversary_threshold
quorum_size proc_num = 2 * adversary_threshold proc_num + 1

unfoldable pub direct_commit_threshold : ℕ → ℕ
unfolding adversary_threshold
direct_commit_threshold proc_num = adversary_threshold proc_num + 1

-- `iter().flatten()`.
abbrev pub flatten : List (Option Vertex) → List Vertex
flatten row = filter_map (λ held. held) row

unfoldable pub quorum_reached_for_round : Bullshark → ℕ → Option Bool
unfolding quorum_size index
quorum_reached_for_round s round = do
  row ← index s.dag round
  some (leb (quorum_size s.proc_num) (length (flatten row)))

-- The remainder by zero panics.
unfoldable pub get_leader_id : Bullshark → ℕ → Option ℕ
get_leader_id s round = if eqb s.proc_num 0 then none else some (round % s.proc_num + 1)

unfoldable pub get_anchor : Bullshark → ℕ → Option (Option Vertex)
unfolding get_leader_id index
get_anchor s round = do
  row ← index s.dag round
  leader ← get_leader_id s round
  get_elem? row leader

unfoldable pub bad_vertex : Bullshark → Vertex → ℕ → Bool
unfolding quorum_size
bad_vertex s v from =
    ltb (length v.strong_edges) (quorum_size s.proc_num) || not (eqb from v.source)

-- `BTreeSet::insert` keeps an equal element.
unfoldable pub buffer_insert : Vertex → List Vertex → List Vertex
buffer_insert v [] = v ∷ []
buffer_insert v (w ∷ buffer) =
    if vertex_lt v w
    then v ∷ w ∷ buffer
    else if vertex_beq v w
    then w ∷ buffer
    else w ∷ buffer_insert v buffer

unfoldable pub buffer_remove : Vertex → List Vertex → List Vertex
buffer_remove v buffer = keep (λ w. not (vertex_beq v w)) buffer

-- `fresh` is the sequence of the identifiers and addresses that the simulator and the allocator give.
module _ (h : Host) (fresh : ℕ → ℕ) where
  unfoldable pub schedule_submit : Run → Run
  schedule_submit r = record r {
    state = record r.state { submit_timer = fresh r.taken };
    effects = r.effects ++ timer r.state.submit_interval (fresh r.taken) ∷ [];
    taken = r.taken + 1;
  }

  unfoldable pub start_timer : Run → Run
  start_timer r = record r {
    state = record r.state { timer = fresh r.taken; wait = true };
    effects = r.effects ++ timer 10_000 (fresh r.taken) ∷ [];
    taken = r.taken + 1;
  }

  -- There is no round below round 0.
  unfoldable pub create_vertex : ℕ → Run → Option (Vertex × Run)
  unfolding drain index
  create_vertex zero r = none
  create_vertex (suc below) r = do
    row ← index r.state.dag below
    let v : Vertex = record {
      ptr = fresh r.taken;
      round = suc below;
      source = h.pid;
      strong_edges = map (λ u. u.ptr) (flatten row);
      commands = drain h r.state.pending_commands;
    }
    some (
      v,
      record r {
        state = record r.state { pending_commands = [] };
        heap = insert v.ptr v r.heap;
        taken = r.taken + 1;
      },
    )
