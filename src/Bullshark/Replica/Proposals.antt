-- ===== src/Bullshark/Replica/Proposals.antt =====
-- Over any run of its handlers a replica broadcasts one vertex for a round at most.
use mathlib.Core.List.{append-nil}
use blsmr.Prelude.{
  ℕ, ◌+◌, ◌≤◌, ◌≡◌, refl, ◌∙◌, subst, inl, inr, false, Option, some, List, [], ◌∷◌, ◌++◌, arith,
  eqb, if◌then◌else◌, map, nat_eq, ◌>>=◌, >>=-eq-some, Option-cases, Bool-cases,
}
use blsmr.Client.{Command, cmd_id_eq}
use blsmr.Host.{Host}
use blsmr.Effect.{broadcast}
use blsmr.Hotstuff.Ballots.{Ascending, AllWithin}
use blsmr.Bullshark.Broadcast.{BcbMessage, initiate, signature, certificate, ConsistentBroadcast}
use blsmr.Bullshark.Broadcast
use blsmr.Submission.{SubmittedCommand, Ledger}
use blsmr.Bullshark.Dag.{Vertex, Heap, VertexMessage, genesis}
use blsmr.Bullshark.Replica.{Run, Packet, submission, bcb, schedule_submit}
use blsmr.Bullshark.Replica.Advance.{wrap, reliably}
use blsmr.Bullshark.Replica.Handlers.{on_start, on_message, on_timer, genesis_vertex, join}
use blsmr.Bullshark.Replica.Steps.{
  Keeps, Keeps-trans, Same-Keeps, try_advance_round-Keeps, advance-if, deliver-Keeps,
}
use blsmr.Bullshark.Replica.Own.{rounds_of, rounds_of-quiet, IsOrderly, Same, reliably-rounds}

module _ (h : Host) (fresh : ℕ → ℕ) where
  outcome-quiet :
      (from : ℕ) (m : BcbMessage VertexMessage) (s : ConsistentBroadcast VertexMessage)
      → rounds_of (map wrap (Broadcast.on_message h from m s).effects) ≡ []
  unfolding Broadcast.on_message Broadcast.on_certificate Broadcast.on_initiate
      Broadcast.on_signature
  outcome-quiet from (certificate n id) s = ground arith
  outcome-quiet from (initiate id message) s = ground arith
  outcome-quiet from (signature id) s = ground arith

  on_message-Keeps :
      (from : ℕ) (packet : Packet) (r r' : Run)
      → on_message h fresh from packet r ≡ some r'
      → Keeps r r'
  unfolding on_message
  on_message-Keeps from (submission c) r r' e =
      Same-Keeps r r' (ground (arith, e), ground (arith, e))
  on_message-Keeps from (bcb m) r r' e =
      let outcome = Broadcast.on_message h from m r.state.rbcast in
      let r1 : Run = record r {
        state = record r.state { rbcast = outcome.state };
        effects = r.effects ++ map wrap outcome.effects;
      } in
      let quiet : Same r r1 =
        (rounds_of-quiet r.effects _ (outcome-quiet from m r.state.rbcast), refl) in
      elim (Option-cases outcome.delivered) [
        | inl none_ ↦
            let same : r1 ≡ r' = ground (arith, e, none_) in
            Keeps-trans r r1 r' (Same-Keeps r r1 quiet)
              (Same-Keeps r1 r' (rw (← same) (refl, refl)))
        | inr (message, e1) ↦
            Keeps-trans r r1 r' (Same-Keeps r r1 quiet)
              (deliver-Keeps h fresh from message.typ r1 r' (ground (arith, e, e1)))
      ]

  schedule_submit-Same : (r : Run) → Same r (schedule_submit h fresh r)
  unfolding schedule_submit
  schedule_submit-Same r = (rounds_of-quiet r.effects _ refl, refl)

  on_timer-Keeps :
      (command : Command) (id : ℕ) (r r' : Run)
      → on_timer h fresh command id r ≡ some r'
      → Keeps r r'
  unfolding on_timer
  on_timer-Keeps command id r r' e = elim (Bool-cases (eqb id r.state.submit_timer)) [
    | inl submits ↦
        let c : SubmittedCommand = record { command = command; submitted_at = h.now } in
        let r1 : Run = record r {
          state = record r.state { submitted = r.state.submitted + 1 };
          effects = r.effects ++ broadcast (submission c) ∷ [];
        } in
        let quiet : Same r r1 = (rounds_of-quiet r.effects _ refl, refl) in
        let next = schedule_submit-Same r1 in
        Keeps-trans r r1 r' (Same-Keeps r r1 quiet) (
          Same-Keeps r1 r' (
            ground (arith, e, submits, next.0, next.1),
            ground (arith, e, submits, next.0, next.1),
          ))
    | inr other ↦ elim (Bool-cases (eqb id r.state.timer)) [
      | inl waited ↦
          let start : Run = record r { state = record r.state { wait = false } } in
          Keeps-trans r start r' (Same-Keeps r start (refl, refl))
            (try_advance_round-Keeps h fresh start r' (ground (arith, e, other, waited)))
      | inr stray ↦ advance-if h fresh false r r' (ground (arith, e, other, stray))
    ]
  ]

  reliably-genesis :
      (v : Vertex) (r r0 : Run) → Same r r0 → Same r (reliably h fresh (genesis v) r0)
  reliably-genesis v r r0 same =
      let (sent, stays) = reliably-rounds h fresh (genesis v) r0 in
      (sent ∙ append-nil (rounds_of r0.effects) ∙ same.0, stays ∙ same.1)

  on_start-Keeps : (r : Run) → Keeps r (on_start h fresh r)
  unfolding on_start
  on_start-Keeps r =
      let start : Run = if eqb r.state.submit_limit 0 then r else schedule_submit h fresh r in
      let same : Same r start = elim (Bool-cases (eqb r.state.submit_limit 0)) [
        | inl silent ↦ rw silent (refl, refl)
        | inr submits ↦ rw submits (schedule_submit-Same r)
      ] in
      Same-Keeps r (on_start h fresh r)
        (reliably-genesis (genesis_vertex h fresh start) r (join h fresh start) same)

-- The calls of the handlers, with what each reads of its surroundings: the vertices that are alive
-- and the shared figures.
pub data Event : Type 0 where
  starts : Host → Heap → Ledger → Event
  receives : Host → Heap → Ledger → (from : ℕ) → Packet → Event
  fires : Host → Heap → Ledger → Command → (id : ℕ) → Event

abbrev amid : Heap → Ledger → Run → Run
amid heap l r = record r { heap = heap; ledger = l }

module _ (fresh : ℕ → ℕ) where
  abbrev pub handle : Event → Run → Option Run
  handle (starts h heap l) r = some (on_start h fresh (amid heap l r))
  handle (receives h heap l from packet) r = on_message h fresh from packet (amid heap l r)
  handle (fires h heap l command id) r = on_timer h fresh command id (amid heap l r)

  -- The events, the last one first; `none` if one of them panics.
  abbrev pub run : Run → List Event → Option Run
  run r [] = some r
  run r (event ∷ events) = run r events >>= handle event

  handle-Keeps : (event : Event) (r r' : Run) → handle event r ≡ some r' → Keeps r r'
  handle-Keeps (starts h heap l) r r' e =
      let start = amid heap l r in
      let same : on_start h fresh start ≡ r' = ground (arith, e) in
      Keeps-trans r start r' (Same-Keeps r start (refl, refl))
        (subst (λ u. Keeps start u) same (on_start-Keeps h fresh start))
  handle-Keeps (receives h heap l from packet) r r' e =
      let start = amid heap l r in
      Keeps-trans r start r' (Same-Keeps r start (refl, refl))
        (on_message-Keeps h fresh from packet start r' e)
  handle-Keeps (fires h heap l command id) r r' e =
      let start = amid heap l r in
      Keeps-trans r start r' (Same-Keeps r start (refl, refl))
        (on_timer-Keeps h fresh command id start r' e)

  run-Keeps : (events : List Event) (r r' : Run) → run r events ≡ some r' → Keeps r r'
  run-Keeps [] r r' e =
      let same : r ≡ r' = ground (arith, e) in Same-Keeps r r' (rw (← same) (refl, refl))
  run-Keeps (event ∷ events) r r' e =
      let (r1, e1, e2) = >>=-eq-some (run r events) (handle event) e in
      Keeps-trans r r1 r' (run-Keeps events r r1 e1) (handle-Keeps event r1 r' e2)

  -- Over any run of handlers that does not panic, starting before the first effect, the rounds of the
  -- vertices that the replica broadcasts after its genesis vertex are strictly ascending, so it makes
  -- no two for one round, and none is beyond the replica's round. That round never falls.
  pub proposals-Ascending :
      (r r' : Run) (events : List Event)
      → r.effects ≡ []
      → run r events ≡ some r'
      → Ascending (rounds_of r'.effects)
        × AllWithin r'.state.round (rounds_of r'.effects)
        × (r.state.round ≤ r'.state.round)
  proposals-Ascending r r' events quiet e =
      let fresh_start : IsOrderly r = record { ascending = rw quiet tt; within = rw quiet tt } in
      let (orderly, up) = run-Keeps events r r' e fresh_start in
      (orderly.ascending, orderly.within, up)
