-- ===== src/Hotstuff/Leaders.antt =====
-- On what grounds a leader proposes, over any run.
use blsmr.Prelude.{
  ℕ, ◌+◌, ◌*◌, ◌/◌, ◌<◌, ◌≤◌, ◌≡◌, refl, ◌⊎◌, inl, inr, Bool, some, List, [], ◌∷◌, arith, leb,
  eqb_iff, length, Bool-cases, Option-cases, nat_eq,
}
use blsmr.Client.{Command, cmd_id_eq}
use blsmr.Map.{get}
use blsmr.Map.Entries.{Entries-get, Entries-mono}
use blsmr.Host.{Host}
use blsmr.Hotstuff.{
  Node, Heap, submit, propose, vote, Hotstuff, Run, on_vote, on_message, on_start, on_timer,
  count_vote, reaches, schedule_submit, tally, quorum_size, create_leaf,
}
use blsmr.Hotstuff.Runs.{Event, starts, receives, fires, handle, run}
use blsmr.Hotstuff.Quorums.{
  CountsVotes, votes_for, SamePool, Fair, Pending, Pending-same, on_propose-Pending, lead-Pending,
  tally-Fair, count_vote-Pending,
}

votes_for-later :
    (id : ℕ) (event : Event) (events : List Event)
    → votes_for id events ≤ votes_for id (event ∷ events)
votes_for-later id (starts h next leaf) events = omega arith
votes_for-later id (receives h heap leaf (submit c)) events = omega arith
votes_for-later id (receives h heap leaf (propose node)) events = omega arith
votes_for-later id (receives h heap leaf (vote node)) events = ground arith
votes_for-later id (fires h command next timer) events = omega arith

module _ {Q : Type 0} (new_quorum : ℕ → Q) (add : Q → Q × Bool)
    (counts : CountsVotes new_quorum add) (rotating : Bool) (pool : List ℕ) where
  abbrev size : ℕ
  size = length pool * 2 / 3 + 1

  abbrev Waits : List Event → Hotstuff Q → Type 0
  Waits = Pending new_quorum add counts size

  Waits-later :
      (event : Event) (events : List Event) (q : Hotstuff Q)
      → Waits events q
      → Waits (event ∷ events) q
  Waits-later event events q p =
      Entries-mono (Fair new_quorum add counts size q events)
        (Fair new_quorum add counts size q (event ∷ events)) q.pending_quorums
        (λ k v f. (f.0, omega (arith, f.1, votes_for-later k event events), f.2)) p

  on_vote-Waits :
      (events : List Event) (h : Host) (heap : Heap) (leaf : ℕ) (node : Node) (r r' : Run Q)
      → h.pool ≡ pool
      → on_vote new_quorum add h heap leaf node r ≡ some r'
      → Waits events r.state
      → Waits (receives h heap leaf (vote node) ∷ events) r'.state
  unfolding on_vote quorum_size
  on_vote-Waits events h heap leaf node r r' same_pool e p =
      let counted : Run Q = count_vote new_quorum add h node r in
      let here : List Event = receives h heap leaf (vote node) ∷ events in
      elim (Bool-cases (leb node.height r.state.b_exec.height)) [
        | inl old ↦
            let same : r ≡ r' = ground (arith, old) in
            rw (← same) (Waits-later (receives h heap leaf (vote node)) events r.state p)
        | inr new ↦
            let after : Waits here counted.state =
              count_vote-Pending new_quorum add counts size events h heap leaf node r
                (rw same_pool refl) (ground (arith, new)) p in
            elim (Bool-cases (reaches new_quorum add h node r)) [
              | inl reached ↦
                  lead-Pending new_quorum add counts size here h heap leaf node counted r'
                    (ground (arith, new, reached)) after
              | inr few ↦ let same : counted ≡ r' = ground (arith, new, few) in rw (← same) after
            ]
      ]

  on_start-same :
      (h : Host) (next leaf : ℕ) (r : Run Q)
      → ((on_start h next leaf r).state.pending_quorums ≡ r.state.pending_quorums)
        × ((on_start h next leaf r).state.b_exec ≡ r.state.b_exec)
  unfolding on_start create_leaf schedule_submit
  on_start-same h next leaf r = (ground arith, ground arith)

  on_timer-same :
      (h : Host) (command : Command) (next id : ℕ) (r r' : Run Q)
      → on_timer h command next id r ≡ some r'
      → (r'.state.pending_quorums ≡ r.state.pending_quorums) × (r'.state.b_exec ≡ r.state.b_exec)
  unfolding on_timer schedule_submit
  on_timer-same h command next id r r' e = (ground arith, ground arith)

  handle-Waits :
      (event : Event) (events : List Event) (r r' : Run Q)
      → SamePool pool (event ∷ events)
      → handle new_quorum add rotating event r ≡ some r'
      → Waits events r.state
      → Waits (event ∷ events) r'.state
  unfolding on_message
  handle-Waits (starts h next leaf) events r r' same e p =
      let (m, b) = on_start-same h next leaf r in
      let kept : on_start h next leaf r ≡ r' = ground arith in
      rw (← kept) (
        Waits-later (starts h next leaf) events (on_start h next leaf r).state (
          Pending-same new_quorum add counts size events r.state (on_start h next leaf r).state m b
            p))
  handle-Waits (receives h heap leaf (submit c)) events r r' same e p =
      Waits-later (receives h heap leaf (submit c)) events r'.state (
        Pending-same new_quorum add counts size events r.state r'.state (ground arith)
          (ground arith) p)
  handle-Waits (receives h heap leaf (propose node)) events r r' same e p =
      Waits-later (receives h heap leaf (propose node)) events r'.state
        (on_propose-Pending new_quorum add counts size events rotating h heap node r r' e p)
  handle-Waits (receives h heap leaf (vote node)) events r r' same e p =
      on_vote-Waits events h heap leaf node r r' same.0 e p
  handle-Waits (fires h command next id) events r r' same e p =
      let (m, b) = on_timer-same h command next id r r' e in
      Waits-later (fires h command next id) events r'.state
        (Pending-same new_quorum add counts size events r.state r'.state m b p)

  run-Waits :
      (r r' : Run Q) (events : List Event)
      → SamePool pool events
      → r.state.pending_quorums ≡ []
      → run new_quorum add rotating r events ≡ some r'
      → Waits events r'.state
  run-Waits r r' [] same fresh e = let kept : r ≡ r' = ground arith in rw (← kept) (rw fresh tt)
  run-Waits r r' (event ∷ events) same fresh e =
      elim (Option-cases (run new_quorum add rotating r events)) [
        | inl none_ ↦ absurd (cc (e, none_))
        | inr (r1, e1) ↦
            handle-Waits event events r1 r' same (ground (arith, e1))
              (run-Waits r r1 events (earlier event events same) fresh e1)
      ]
    where
      earlier :
          (event : Event) (events : List Event)
          → SamePool pool (event ∷ events)
          → SamePool pool events
      earlier (starts h next leaf) events same = same.1
      earlier (receives h heap leaf m) events same = same.1
      earlier (fires h command next id) events same = same.1

  -- Over any run that starts without pending quorums, in one pool: a quorum that is still pending is
  -- for a node above the last committed one, has the size of two thirds of the pool and one more, and
  -- has no more votes than were delivered for its node.
  pub pending_quorums_fair :
      (r r' : Run Q) (events : List Event) (id height : ℕ) (quorum : Q)
      → SamePool pool events
      → r.state.pending_quorums ≡ []
      → run new_quorum add rotating r events ≡ some r'
      → get id r'.state.pending_quorums ≡ some (height, quorum)
      → (r'.state.b_exec.height < height)
        × (counts.votes quorum ≤ votes_for id events)
        × (counts.size quorum ≡ length pool * 2 / 3 + 1)
  pending_quorums_fair r r' events id height quorum same fresh e found =
      Entries-get (Fair new_quorum add counts size r'.state events) r'.state.pending_quorums id
        (height, quorum) (run-Waits r r' events same fresh e) found

  -- Over any run that starts without pending quorums, in one pool: a vote changes
  -- nothing but the pending quorums, neither the rest of the replica nor the shared ledger nor what
  -- is sent, or at least two thirds of the pool and one more votes for the node have been delivered
  -- to it by then, this one included.
  pub proposes_by_quorum :
      (r r1 r2 : Run Q) (events : List Event) (h : Host) (heap : Heap) (leaf : ℕ) (node : Node)
      → SamePool pool events
      → h.pool ≡ pool
      → r.state.pending_quorums ≡ []
      → run new_quorum add rotating r events ≡ some r1
      → handle new_quorum add rotating (receives h heap leaf (vote node)) r1 ≡ some r2
      → (r2 ≡ record r1 { state = record r1.state { pending_quorums = r2.state.pending_quorums } })
        ⊎ (length pool * 2 / 3 + 1 ≤ votes_for node.id (receives h heap leaf (vote node) ∷ events))
  unfolding on_message on_vote quorum_size
  proposes_by_quorum r r1 r2 events h heap leaf node same same_pool fresh e step =
      let p = run-Waits r r1 events same fresh e in
      elim (Bool-cases (leb node.height r1.state.b_exec.height)) [
        | inl old ↦ let same : r1 ≡ r2 = ground (arith, old) in inl (rw (← same) refl)
        | inr new ↦ elim (Bool-cases (reaches new_quorum add h node r1)) [
          | inr few ↦
              let same : count_vote new_quorum add h node r1 ≡ r2 = ground (arith, new, few) in
              inl (rw (← same) refl)
          | inl reached ↦
              let fair =
                tally-Fair new_quorum add counts size events h node r1 (rw same_pool refl)
                  (ground (arith, new)) p in
              let full = counts.reached (tally new_quorum add h node r1).1 reached in
              inr (ground (arith, eqb_iff node.id node.id, full, fair.1, fair.2))
        ]
      ]
