-- ===== src/Bullshark/Replica/Advance.antt =====
-- crates/bullshark/src/lib.rs: a vertex is added to the graph, and the round advances.
use blsmr.Prelude.{
  ℕ, zero, suc, ◌+◌, ◌-◌, Bool, true, false, ◌&&◌, Option, none, some, List, [], ◌∷◌, ◌++◌, eqb,
  ltb, leb, if◌then◌else◌, get_elem?, map, nat_eq, ◌>>=◌,
}
use blsmr.Map.{get}
use blsmr.Host.{Host}
use blsmr.Effect.{Effect, send, broadcast, timer}
use blsmr.Bullshark.Broadcast.{BcbMessage, reliably_broadcast}
use blsmr.Bullshark.Dag.{
  Vertex, VertexMessage, VertexType, vertex, Heap, Dag, same_vertex, index, add_vertex, min_round,
  current_max_allocated_round,
}
use blsmr.Bullshark.Replica.{
  Run, Packet, bcb, quorum_reached_for_round, get_leader_id, buffer_remove, start_timer,
  create_vertex,
}
use blsmr.Bullshark.Replica.Anchors.{try_ordering}

-- An effect of the broadcast component, as one of the replica.
abbrev pub wrap : Effect (BcbMessage VertexMessage) → Effect Packet
wrap (send to m) = send to (bcb m)
wrap (broadcast m) = broadcast (bcb m)
wrap (timer delay id) = timer delay id

-- The test of `try_add_to_dag` on all edges, in their order up to the first that fails.
unfoldable pub all_known : Heap → Dag → List ℕ → Option Bool
unfolding index
all_known heap d [] = some true
all_known heap d (edge ∷ edges) = do
  v ← get edge heap
  row ← index d v.round
  held ← get_elem? row v.source
  elim held [
    | none ↦ some false
    | some known ↦ elim (same_vertex v known) [ true ↦ all_known heap d edges | false ↦ some false ]
  ]

module _ (h : Host) (fresh : ℕ → ℕ) where
  -- `self.rbcast.reliably_broadcast(..)`.
  unfoldable pub reliably : VertexType → Run → Run
  unfolding reliably_broadcast
  reliably typ r =
      let message : VertexMessage = record { proc_num = r.state.proc_num; typ = typ } in
      let (rbcast, effects) = reliably_broadcast h (fresh r.taken) message r.state.rbcast in
      record r {
        state = record r.state { rbcast = rbcast };
        effects = r.effects ++ map wrap effects;
        taken = r.taken + 1;
      }

  -- `add` is `try_add_to_dag`.
  unfoldable pub broadcast_vertex : (Vertex → Run → Option (Run × Bool)) → ℕ → Run → Option Run
  unfolding create_vertex reliably
  broadcast_vertex add round r = do
    (v, r1) ← create_vertex h fresh round r
    (r2, _) ← add v r1
    some (reliably (vertex v) r2)

  -- A round that is ahead is entered when it has a quorum.
  unfoldable pub catch_up : (Vertex → Run → Option (Run × Bool)) → Vertex → Run → Option Run
  unfolding quorum_reached_for_round start_timer broadcast_vertex
  catch_up add v r = do
    reached ← quorum_reached_for_round r.state v.round
    if reached && ltb r.state.round v.round
        then broadcast_vertex add v.round
            (start_timer h fresh (record r { state = record r.state { round = v.round } }))
        else some r

  abbrev pub unbuffer : Vertex → Run → Run
  unbuffer v r = record r { state = record r.state { buffer = buffer_remove v r.state.buffer } }

  abbrev pub with_dag : Dag → Run → Run
  with_dag dag r = record r { state = record r.state { dag = dag } }

  -- The statements of `try_add_to_dag` after the round has been entered.
  unfoldable pub settle : Vertex → Run → Option (Run × Bool)
  unfolding buffer_remove get_leader_id try_ordering
  settle v r = do
    leader ← get_leader_id (unbuffer v r).state v.round
    r' ← if eqb v.source leader then try_ordering h v (unbuffer v r) else some (unbuffer v r)
    some (r', true)

  -- The statements of `try_add_to_dag` for a vertex whose edges are known.
  unfoldable pub enter : (Vertex → Run → Option (Run × Bool)) → Vertex → Run → Option (Run × Bool)
  unfolding add_vertex catch_up settle
  enter add v r = do
    dag ← add_vertex v r.state.dag
    r' ← catch_up add v (with_dag dag r)
    settle v r'

  -- The body of `try_add_to_dag`, where `add` is the function that its calls of itself reach.
  unfoldable pub attempt : (Vertex → Run → Option (Run × Bool)) → Vertex → Run → Option (Run × Bool)
  unfolding min_round current_max_allocated_round all_known enter buffer_remove
  attempt add v r =
      if leb v.round (min_round r.state.dag)
      then some (unbuffer v r, true)
      else if ltb (current_max_allocated_round r.state.dag) (v.round - 1)
      then some (r, false)
      else (do
        known ← all_known r.heap r.state.dag v.strong_edges
        if known then enter add v r else some (r, false))

  -- The fuel is the depth of the calls, of which there are at most two.
  unfoldable pub try_add_to_dag : ℕ → Vertex → Run → Option (Run × Bool)
  unfolding attempt
  try_add_to_dag zero v r = none
  try_add_to_dag (suc fuel) v r = attempt (try_add_to_dag fuel) v r

  unfoldable pub try_advance_round : Run → Option Run
  unfolding quorum_reached_for_round start_timer broadcast_vertex try_add_to_dag
  try_advance_round r = do
    reached ← quorum_reached_for_round r.state r.state.round
    let round : ℕ = r.state.round + 1
    if reached
        then broadcast_vertex (try_add_to_dag 2) round
            (start_timer h fresh (record r { state = record r.state { round = round } }))
        else some r
