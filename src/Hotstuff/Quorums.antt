-- ===== src/Hotstuff/Quorums.antt =====
-- What the pending quorums of a leader are, handler by handler.
use blsmr.Prelude.{
  ℕ, suc, ◌+◌, ◌<◌, ◌≤◌, ◌≡◌, refl, sym, subst, ◌∙◌, ◌||◌, ◌&&◌, inl, inr, Bool, true, Option, none,
  some, List, [], ◌∷◌, arith, ltb, eqb, eqb_iff, if◌then◌else◌, Bool-cases, Option-cases, ◌>>=◌,
  nat_eq,
}
use blsmr.Client.{cmd_id_eq}
use blsmr.Map.{get}
use blsmr.Map.Entries.{Entries, Entries-insert, Entries-get, Entries-keep, Entries-mono}
use blsmr.Host.{Host}
use blsmr.Submission.{Ledger}
use blsmr.Hotstuff.{
  Node, Heap, submit, propose, vote, Hotstuff, Run, raise_leaf, raise_lock, execute, update, parent,
  create_leaf, accept, on_propose, lead, extends, next_leader, commit, adopt, certify, count_vote,
  tally, quorum_size, collect_garbage,
}
use blsmr.Hotstuff.Runs.{Event, starts, receives, fires}

-- The documented behaviour of the quorum helper: `add` counts, and reports when the size is reached.
pub record CountsVotes {Q : Type 0} (new_quorum : ℕ → Q) (add : Q → Q × Bool) : Type 0 where
  pub votes : Q → ℕ
  pub size : Q → ℕ
  pub fresh : (n : ℕ) → (votes (new_quorum n) ≡ 0) × (size (new_quorum n) ≡ n)
  pub counted : (q : Q) → (votes (add q).0 ≡ votes q + 1) × (size (add q).0 ≡ size q)
  pub reached : (q : Q) → (add q).1 ≡ true → votes q + 1 ≡ size q

-- The votes for the node that the events deliver.
abbrev pub votes_for : ℕ → List Event → ℕ
votes_for id [] = 0
votes_for id (receives h heap leaf (vote node) ∷ events) =
    (if eqb node.id id then 1 else 0) + votes_for id events
votes_for id (receives h heap leaf (propose node) ∷ events) = votes_for id events
votes_for id (receives h heap leaf (submit c) ∷ events) = votes_for id events
votes_for id (starts h next leaf ∷ events) = votes_for id events
votes_for id (fires h command next timer ∷ events) = votes_for id events

-- All handlers see the same pool.
abbrev pub SamePool : List ℕ → List Event → Type 0
SamePool pool [] = Unit {0}
SamePool pool (starts h next leaf ∷ events) = (h.pool ≡ pool) × SamePool pool events
SamePool pool (receives h heap leaf m ∷ events) = (h.pool ≡ pool) × SamePool pool events
SamePool pool (fires h command next timer ∷ events) = (h.pool ≡ pool) × SamePool pool events

module _ {Q : Type 0} (new_quorum : ℕ → Q) (add : Q → Q × Bool)
    (counts : CountsVotes new_quorum add) (size : ℕ) where
  -- A pending quorum is above the last committed node, and its votes were delivered.
  abbrev pub Fair : Hotstuff Q → List Event → ℕ → ℕ × Q → Type 0
  Fair q events k (height, quorum) =
      (q.b_exec.height < height)
      × (counts.votes quorum ≤ votes_for k events)
      × (counts.size quorum ≡ size)

  abbrev pub Pending : List Event → Hotstuff Q → Type 0
  Pending events q = Entries (Fair q events) q.pending_quorums

  execute-Pending :
      (events : List Event) (h : Host) (heap : Heap) (block : Node) (q q' : Hotstuff Q)
      (l l' : Ledger)
      → execute h heap block (q, l) ≡ some (q', l')
      → Pending events q
      → Pending events q'
  unfolding execute collect_garbage
  execute-Pending events h heap block q q' l l' e p =
      elim (Option-cases (commit h heap q.b_exec.height (suc block.height) block l)) [
        | inl none_ ↦ absurd (cc (e, none_))
        | inr (l1, e1) ↦
            let kept : collect_garbage (record q { b_exec = block }) ≡ q' = ground (arith, e1) in
            rw (← kept) (dropped q block p)
      ]
    where
      dropped :
          (q : Hotstuff Q) (block : Node)
          → Pending events q
          → Pending events (collect_garbage (record q { b_exec = block }))
      dropped q block p =
          Entries-keep (Fair q events) (Fair (record q { b_exec = block }) events)
            (λ (_, (height, _)). ltb block.height height) q.pending_quorums
            (λ k v good f. (ground (arith, good), f.1, f.2)) p

  -- Only the pending quorums and the last committed node matter.
  pub Pending-same :
      (events : List Event) (q q' : Hotstuff Q)
      → q'.pending_quorums ≡ q.pending_quorums
      → q'.b_exec ≡ q.b_exec
      → Pending events q
      → Pending events q'
  Pending-same events q q' e e' p =
      subst (λ m. Entries (Fair q' events) m) (sym e)
        (Entries-mono (Fair q events) (Fair q' events) q.pending_quorums
          (λ k v f. (rw e' f.0, f.1, f.2)) p)

  raise-Pending :
      (events : List Event) (grandparent : Option Node) (node : Node) (q : Hotstuff Q)
      → Pending events q
      → Pending events (raise_lock grandparent (raise_leaf node q))
  unfolding raise_lock raise_leaf
  raise-Pending events none node q p =
      Pending-same events q (raise_leaf node q) (ground arith) (ground arith) p
  raise-Pending events (some grandparent) node q p =
      Pending-same events q (raise_lock (some grandparent) (raise_leaf node q)) (ground arith)
        (ground arith) p

  update-Pending :
      (events : List Event) (h : Host) (heap : Heap) (node : Node) (q q' : Hotstuff Q)
      (l l' : Ledger)
      → update h heap node (q, l) ≡ some (q', l')
      → Pending events q
      → Pending events q'
  unfolding update
  update-Pending events h heap node q q' l l' e p =
      let grandparent : Option Node = parent heap node >>= parent heap in
      let raised = raise-Pending events grandparent node q p in
      elim (Option-cases (grandparent >>= parent heap)) [
        | inl e1 ↦
            let kept : raise_lock grandparent (raise_leaf node q) ≡ q' = ground (arith, e1) in
            rw (← kept) raised
        | inr (block, e1) ↦
            execute-Pending events h heap block (raise_lock grandparent (raise_leaf node q)) q' l l'
              (ground (arith, e1)) raised
      ]

  pub on_propose-Pending :
      (events : List Event) (rotating : Bool) (h : Host) (heap : Heap) (node : Node) (r r' : Run Q)
      → on_propose rotating h heap node r ≡ some r'
      → Pending events r.state
      → Pending events r'.state
  unfolding on_propose accept
  on_propose-Pending events rotating h heap node r r' e p =
      elim (Bool-cases (
        ltb r.state.vheight node.height
        && (extends heap r.state node || ltb r.state.b_lock.height node.height))) [
          | inr bad ↦ let same : r ≡ r' = ground (arith, bad) in rw (← same) p
          | inl good ↦ elim (Option-cases (next_leader rotating h (adopt node r.state))) [
            | inl none_ ↦ absurd (ground (arith, good, none_))
            | inr (leader, e1) ↦
                elim (Option-cases (update h heap node (adopt node r.state, r.ledger))) [
                  | inl none_ ↦ absurd (ground (arith, good, e1, none_))
                  | inr ((q', l), e2) ↦
                      let kept : q' ≡ r'.state = ground (arith, good, e1, e2) in
                      rw (← kept) (
                        update-Pending events h heap node (adopt node r.state) q' r.ledger l e2
                          (Pending-same events r.state (adopt node r.state) refl refl p))
                ]
          ]
        ]

  pub lead-Pending :
      (events : List Event) (h : Host) (heap : Heap) (leaf_id : ℕ) (node : Node) (r r' : Run Q)
      → lead h heap leaf_id node r ≡ some r'
      → Pending events r.state
      → Pending events r'.state
  unfolding lead create_leaf
  lead-Pending events h heap leaf_id node r r' e p =
      let (q, leaf) = create_leaf h leaf_id (certify node r.state) in
      elim (Option-cases (update h heap leaf (q, r.ledger))) [
        | inl none_ ↦ absurd (cc (e, none_))
        | inr ((q', l), e1) ↦
            let kept : q' ≡ r'.state = ground (arith, e1) in
            rw (← kept) (
              update-Pending events h heap leaf q q' r.ledger l e1
                (Pending-same events r.state q refl refl p))
      ]

  -- The entry that a vote is counted in.
  pub tally-Fair :
      (events : List Event) (h : Host) (node : Node) (r : Run Q)
      → quorum_size h ≡ size
      → r.state.b_exec.height < node.height
      → Pending events r.state
      → Fair r.state events node.id (tally new_quorum add h node r)
  tally-Fair events h node r pool high p =
      elim (Option-cases (get node.id r.state.pending_quorums)) [
        | inl none_ ↦
            let (zero_, n) = counts.fresh (quorum_size h) in
            rw none_ (high, omega (arith, zero_), n ∙ pool)
        | inr ((height, quorum), e) ↦
            rw e (
              Entries-get (Fair r.state events) r.state.pending_quorums node.id (height, quorum) p
                e)
      ]

  -- After the vote, which is among the events by then.
  pub count_vote-Pending :
      (events : List Event) (h : Host) (heap : Heap) (leaf : ℕ) (node : Node) (r : Run Q)
      → quorum_size h ≡ size
      → r.state.b_exec.height < node.height
      → Pending events r.state
      → Pending
          (receives h heap leaf (vote node) ∷ events)
          (count_vote new_quorum add h node r).state
  count_vote-Pending events h heap leaf node r pool high p =
      let here : List Event = receives h heap leaf (vote node) ∷ events in
      let entry = tally new_quorum add h node r in
      let fair = tally-Fair events h node r pool high p in
      let (more, same) = counts.counted entry.1 in
      Entries-insert (Fair r.state here) node.id (entry.0, (add entry.1).0) r.state.pending_quorums
        (fair.0, ground (arith, more, fair.1, eqb_iff node.id node.id), same ∙ fair.2)
        (Entries-mono (Fair r.state events) (Fair r.state here) r.state.pending_quorums
          (λ k v f. (f.0, ground (arith, f.1), f.2)) p)
