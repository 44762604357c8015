-- ===== src/Lib.antt =====
-- A model of the leaderless replication protocol of crates/blsmr and of the crates that it stands on,
-- crates/quorum and crates/client, and of the two protocols with a leader that the simulations compare
-- it with, crates/hotstuff and crates/bullshark.
--
-- A replica (Process) submits a command at each submission timer. The announcement component (Dds)
-- sends the command to the other replicas; each puts it into its command log (Log) and reports the
-- unfinished commands with the same key. When a quorum of reports is in, the replica either takes
-- them as the command's dependencies on the fast path, or proposes their union to the replicas of a
-- committee (Consensus), which decides when all of them have confirmed it. The decision is committed
-- to the replica's own log and sent to the others. The log makes a command stable when everything it
-- depends on is committed, and executes it with what it awaits, dependencies first.
--
-- - Client: crates/client/src/lib.rs. `CmdId`, `Command`, `create_cmd`, `create_cmd_for_key`.
-- - Log, Log/Closure, Log/Scc, Log/Execute, Log/Promote: `CmdLog` of crates/blsmr/src/log.rs. `submit`
--   and `record_creation_at`; `is_deps_closure_committed` and `collect_pending_closure`;
--   `tarjan_sccs`; `try_execute`; `commit` with `promote_stable`. The children of each hold its proofs,
--   and Log/History speaks of all public operations together.
-- - Tracker, Metrics: `ConflictTracker` of the same file, and the figures in the simulator's key-value
--   store that the log and the replica write.
-- - Quorum, Quorum/Thres, Quorum/Grid: crates/quorum/src/lib.rs, thres.rs and grid.rs.
-- - Consensus: crates/blsmr/src/quorum.rs, and the protocol's variants of crates/blsmr/src/lib.rs.
-- - Dds: crates/blsmr/src/dds.rs. `DDS` with `announce`, `on_message`, `on_timer` and `commit`, and
--   `union_deps`.
-- - Process: crates/blsmr/src/process.rs. `BLSMR` with its handlers.
-- - Submission: the submitted commands of crates/hotstuff and crates/bullshark, and the figures that
--   their replicas write when they commit.
-- - Hotstuff: crates/hotstuff/src/lib.rs. `Hotstuff` with its handlers; `update`, `commit` and
--   `collect_garbage`. Hotstuff/Runs are sequences of its handlers' calls.
-- - Bullshark/Broadcast: `ByzantineConsistentBroadcast` of
--   crates/bullshark/src/consistent_broadcast.rs.
-- - Bullshark/Cells, Bullshark/Dag: `RoundBasedDAG` of crates/bullshark/src/dag_utils.rs, with
--   `order_from` and `path_exists`.
-- - Bullshark/Replica: `Bullshark` of crates/bullshark/src/lib.rs; the anchors and their order in
--   Replica/Anchors, `try_add_to_dag` and `try_advance_round` in Replica/Advance, the handlers in
--   Replica/Handlers.
-- - Prelude, Map, HashSet, Sort: lists, hash maps as association lists, hash sets as lists, and sorting.
-- - Host, Effect: what the handlers read of the simulator, and what they ask it to do.
-- - Tests: runs at small inputs.
--
-- A handler is a function from the state to the new state, the metrics and the effects in the order
-- of the calls. Where the code panics, the model returns `none`. The simulator dscale is not part of
-- the repository. Its answers are arguments: the clock, the own identifier, the pool, the subtraction
-- of two times, the identifiers of commands and timers, and the random choices (`Choices`, `Draw`);
-- for the compared protocols also the drawn commands. The choice of a key below a bound is assumed to
-- give one, if there are any, and a sample of a Zipf distribution to be at least one (`IsDraw`). The
-- order in which a hash set is iterated is `iterate` of `Host`; where it matters, it is assumed to
-- list each member once (`IsIteration`). A shuffle is assumed to keep the members, and their
-- distinctness (`IsShuffle`). The hash of a command and a replica is an argument of which nothing is
-- assumed.
--
-- A HotStuff replica votes for proposals and sends its vote to the leader, which proposes a new node on
-- a quorum of votes; a node is committed with its ancestors when it has a great-grandchild. A Bullshark
-- replica broadcasts one vertex in each round, with edges to the vertices of the round before, adds the
-- vertices that are delivered to it to its graph, and orders the graph from the anchors that enough
-- vertices have voted for. Both hold their nodes and vertices by shared and weak references. Here a weak
-- reference is an identifier or an address, and a heap holds what is alive during a handler: it is an
-- argument, in which nothing dies before the handler returns. Identifiers and addresses that are made
-- are arguments. `dscale::helpers::Quorum` is a pair of parameters, of which it is assumed that adding
-- counts votes and reports a quorum at its size only (`CountsVotes`).
--
-- The two walks over dependencies run on fuel: one more than the identifiers on the stack with all
-- dependencies of all entries. Every round that goes on takes an identifier off the stack and puts on
-- the dependencies of an entry that was not seen before, so this is enough. `strongconnect` runs on
-- fuel for the depth of its calls, one more than the number of nodes, since each call enters a node
-- that was not entered before.
--
-- `commit` of HotStuff runs on fuel, one more than the height of the node, since every node is one above
-- its parent. `order_from` and `path_exists` run on fuel: with each pass a vertex leaves the queue, and
-- vertices are put on it only when a cell of the graph is set, so the free cells, times the most edges
-- of a vertex for `order_from`, and the queue bound the passes. `try_add_to_dag` and `broadcast_vertex`
-- call each other; the fuel is the depth, which is two at most. The loop of `order_anchors` runs on the
-- round that it goes down from, and that of `gc` on the number of rounds.
--
-- Counters and times are unbounded here, but for the arithmetic of the quorum sizes, which wraps around
-- at 2 ^ 64. Percentages are kept as fractions. The rows and columns that a grid quorum takes are
-- computed over the integers: the code takes the root of 3 (n - 2) / 3 / 2 + 1 in floating-point
-- numbers, for which the least x with n ≤ 2 x² is written.
--
-- Not modelled: crates/sims, which configures the simulator and writes result files, mostly in
-- floating-point numbers; the distribution of keys; `is_command_submission` of both compared protocols,
-- which the simulations call.
pub mod Prelude
pub mod Map
pub mod HashSet
pub mod Client
pub mod Host
pub mod Sort
pub mod Tracker
pub mod Metrics
pub mod Log
pub mod Effect
pub mod Quorum
pub mod Consensus
pub mod Dds
pub mod Process
pub mod Submission
pub mod Hotstuff
pub mod Bullshark
pub mod Tests
