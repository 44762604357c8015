-- ===== src/Bullshark/Replica/Handlers.antt =====
-- crates/bullshark/src/lib.rs: the handlers of a replica.
use blsmr.Prelude.{
  ℕ, ◌+◌, ◌-◌, ◌%◌, false, not, Option, none, some, List, [], ◌∷◌, ◌++◌, eqb, ltb, leb,
  if◌then◌else◌, length, map, nat_eq, ◌>>=◌,
}
use blsmr.Client.{CmdId, Command, cmd_id_eq}
use blsmr.Map.{Map, insert, remove, or_insert}
use blsmr.Host.{Host}
use blsmr.Effect.{broadcast}
use blsmr.Submission.{SubmittedCommand}
use blsmr.Bullshark.Broadcast
use blsmr.Bullshark.Dag.{Vertex, VertexType, vertex, genesis, add_vertex, set_round_size, index}
use blsmr.Bullshark.Replica.{
  Run, Packet, submission, bcb, schedule_submit, bad_vertex, buffer_insert, get_anchor, quorum_size,
  flatten,
}
use blsmr.Bullshark.Replica.Anchors.{votes_for}
use blsmr.Bullshark.Replica.Advance.{wrap, reliably, try_add_to_dag, try_advance_round}

abbrev pub remove_commands :
    List SubmittedCommand → Map CmdId SubmittedCommand → Map CmdId SubmittedCommand
remove_commands [] pending = pending
remove_commands (c ∷ commands) pending = remove_commands commands (remove c.command.id pending)

module _ (h : Host) (fresh : ℕ → ℕ) where
  abbrev pub genesis_vertex : Run → Vertex
  genesis_vertex r = record {
    ptr = fresh r.taken;
    round = 0;
    source = h.pid;
    strong_edges = [];
    commands = [];
  }

  -- The number of replicas is known, and the genesis vertex is made.
  abbrev pub join : Run → Run
  join r =
      let n : ℕ = length h.pool in
      record r {
        state = record r.state {
          proc_num = n;
          dag = set_round_size n r.state.dag;
          rbcast = Broadcast.on_start n r.state.rbcast;
        };
        heap = insert (fresh r.taken) (genesis_vertex r) r.heap;
        taken = r.taken + 1;
      }

  unfoldable pub on_start : Run → Run
  unfolding schedule_submit set_round_size Broadcast.on_start reliably
  on_start r =
      let r1 : Run = if eqb r.state.submit_limit 0 then r else schedule_submit h fresh r in
      reliably h fresh (genesis (genesis_vertex r1)) (join r1)

  -- `for vertex in buffered`.
  unfoldable pub retry : List Vertex → Run → Option Run
  unfolding try_add_to_dag
  retry [] r = some r
  retry (v ∷ vs) r = do (r1, _) ← try_add_to_dag h fresh 2 v r; retry vs r1

  -- The buffered vertices are tried again, by rounds, and then the new one.
  unfoldable pub add_or_buffer : Vertex → Run → Option Run
  unfolding retry try_add_to_dag buffer_insert
  add_or_buffer v r = do
    r1 ← retry r.state.buffer r
    (r2, added) ← try_add_to_dag h fresh 2 v r1
    some (
        if added
        then r2
        else record r2 { state = record r2.state { buffer = buffer_insert v r2.state.buffer } })

  -- The match on the round's place in its wave, while the replica waits.
  unfoldable pub advance_in_wave : Run → Option Run
  unfolding get_anchor try_advance_round index quorum_size
  advance_in_wave r =
      if eqb (r.state.round % 2) 0
      then (do
        held ← get_anchor r.state r.state.round
        elim held [ none ↦ some r | some _ ↦ try_advance_round h fresh r ])
      else (do
        held ← get_anchor r.state (r.state.round - 1)
        elim held [
          | none ↦ some r
          | some anchor ↦ do
            row ← index r.state.dag r.state.round
            if leb (quorum_size r.state.proc_num) (votes_for anchor (flatten row))
                then try_advance_round h fresh r
                else some r
        ])

  unfoldable pub on_vertex : ℕ → Vertex → Run → Option Run
  unfolding bad_vertex add_or_buffer try_advance_round advance_in_wave
  on_vertex from v r = if bad_vertex r.state v from then some r else (do
    r1 ← add_or_buffer v (record r {
      state = record r.state {
        pending_commands = remove_commands v.commands r.state.pending_commands;
      };
    })
    if not (eqb r1.state.round v.round)
        then some r1
        else if r1.state.wait
        then advance_in_wave r1
        else try_advance_round h fresh r1)

  -- What is done with a message that the broadcast component delivers.
  unfoldable pub deliver : ℕ → VertexType → Run → Option Run
  unfolding add_vertex try_advance_round on_vertex
  deliver from (genesis v) r = do
    dag ← add_vertex v r.state.dag
    try_advance_round h fresh (record r { state = record r.state { dag = dag } })
  deliver from (vertex v) r = on_vertex from v r

  unfoldable pub on_message : ℕ → Packet → Run → Option Run
  unfolding Broadcast.on_message deliver
  on_message from (submission c) r = some (record r {
    state = record r.state { pending_commands = or_insert c.command.id c r.state.pending_commands };
  })
  on_message from (bcb m) r =
      let outcome = Broadcast.on_message h from m r.state.rbcast in
      let r1 : Run = record r {
        state = record r.state { rbcast = outcome.state };
        effects = r.effects ++ map wrap outcome.effects;
      } in
      elim outcome.delivered [ none ↦ some r1 | some message ↦ deliver from message.typ r1 ]

  -- The command is the one that `create_cmd_for_key` makes of key 0.
  unfoldable pub on_timer : Command → ℕ → Run → Option Run
  unfolding schedule_submit try_advance_round
  on_timer command id r =
      if eqb id r.state.submit_timer
      then (let submitted : ℕ = r.state.submitted + 1 in
          let c : SubmittedCommand = record { command = command; submitted_at = h.now } in
          let r1 : Run = record r {
            state = record r.state { submitted = submitted };
            effects = r.effects ++ broadcast (submission c) ∷ [];
          } in
          some (if ltb submitted r.state.submit_limit then schedule_submit h fresh r1 else r1))
      else if eqb id r.state.timer
      then try_advance_round h fresh (record r { state = record r.state { wait = false } })
      else some r
