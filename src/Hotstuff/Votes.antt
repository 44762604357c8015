-- ===== src/Hotstuff/Votes.antt =====
-- A replica votes for ascending heights, whatever it receives.
use blsmr.Prelude.{
  ℕ, suc, ◌≡◌, refl, sym, ap, ◌∙◌, ◌<◌, ◌≤◌, ◌||◌, ◌&&◌, ◌⊎◌, inl, inr, Bool, Option, none, some,
  List, [], ◌∷◌, ◌++◌, arith, ltb, leb, eqb, not, keep, ◌+◌, if◌then◌else◌, Bool-cases,
  Option-cases, ◌>>=◌,
}
use mathlib.Core.List.{append-nil}
use blsmr.Host.{Host}
use blsmr.Effect.{Effect, send, broadcast, send_many}
use blsmr.Map.{insert, or_insert}
use blsmr.Client.{Command, cmd_id_eq}
use blsmr.Hotstuff.Ballots.{
  votes_of, votes_of-append, AllWithin, Ascending, Ascending-snoc, AllWithin-snoc, votes_of_quiet,
  votes_of-send_many,
}
use blsmr.Hotstuff.Runs.{Event, starts, receives, fires, handle, run}
use blsmr.Submission.{Ledger, SubmittedCommand}
use blsmr.Hotstuff.{
  Node, Heap, HsMessage, submit, propose, vote, Hotstuff, Run, raise_leaf, raise_lock, execute,
  update, parent, create_leaf, accept, on_propose, lead, on_vote, on_message, extends, next_leader,
  commit, adopt, certify, on_start, on_timer, count_vote, reaches, schedule_submit,
}

module _ {Q : Type 0} where
  execute-vheight :
      (h : Host) (heap : Heap) (block : Node) (q q' : Hotstuff Q) (l l' : Ledger)
      → execute h heap block (q, l) ≡ some (q', l')
      → (q'.vheight ≡ q.vheight) × (q'.b_lock ≡ q.b_lock)
  unfolding execute
  execute-vheight h heap block q q' l l' e =
      elim (Option-cases (commit h heap q.b_exec.height (suc block.height) block l)) [
        | inl none_ ↦ absurd (cc (e, none_))
        | inr (l1, e1) ↦ (ground (arith, e1), ground (arith, e1))
      ]

  raise-vheight :
      (grandparent : Option Node) (node : Node) (q : Hotstuff Q)
      → ((raise_lock grandparent (raise_leaf node q)).vheight ≡ q.vheight)
        × (q.b_lock.height ≤ (raise_lock grandparent (raise_leaf node q)).b_lock.height)
  unfolding raise_lock raise_leaf
  raise-vheight none node q = (ground arith, ground arith)
  raise-vheight (some grandparent) node q = (ground arith, ground arith)

  -- `update` does not touch the height of the last vote, and the lock only rises.
  pub update-vheight :
      (h : Host) (heap : Heap) (node : Node) (q q' : Hotstuff Q) (l l' : Ledger)
      → update h heap node (q, l) ≡ some (q', l')
      → (q'.vheight ≡ q.vheight) × (q.b_lock.height ≤ q'.b_lock.height)
  unfolding update
  update-vheight h heap node q q' l l' e =
      let grandparent : Option Node = parent heap node >>= parent heap in
      let (same, up) = raise-vheight grandparent node q in
      elim (Option-cases (grandparent >>= parent heap)) [
        | inl e1 ↦
            let kept : raise_lock grandparent (raise_leaf node q) ≡ q' = ground (arith, e1) in
            rw (← kept) (same, up)
        | inr (block, e1) ↦
            let (v, b) =
              execute-vheight h heap block (raise_lock grandparent (raise_leaf node q)) q' l l'
                (ground (arith, e1)) in
            (v ∙ same, rw b up)
      ]

  -- What a handler makes of the votes and of the lock.
  pub record Votes (r r' : Run Q) : Type 0 where
    pub sent :
        ((votes_of r'.effects ≡ votes_of r.effects) × (r'.state.vheight ≡ r.state.vheight))
        ⊎ ((votes_of r'.effects ≡ votes_of r.effects ++ r'.state.vheight ∷ [])
            × (r.state.vheight < r'.state.vheight))
    pub lock : r.state.b_lock.height ≤ r'.state.b_lock.height

  Votes-refl : (r : Run Q) → Votes r r
  Votes-refl r = record { sent = inl (refl, refl); lock = omega arith }

  accept-Votes :
      (rotating : Bool) (h : Host) (heap : Heap) (node : Node) (r r' : Run Q)
      → r.state.vheight < node.height
      → accept rotating h heap node r ≡ some r'
      → Votes r r'
  unfolding accept
  accept-Votes rotating h heap node r r' lt e =
      elim (Option-cases (next_leader rotating h (adopt node r.state))) [
        | inl none_ ↦ absurd (cc (e, none_))
        | inr (leader, e1) ↦
            elim (Option-cases (update h heap node (adopt node r.state, r.ledger))) [
              | inl none_ ↦ absurd (ground (arith, e1, none_))
              | inr ((q', l), e2) ↦
                  let (v, up) = update-vheight h heap node (adopt node r.state) q' r.ledger l e2 in
                  let told : List (Effect HsMessage) = r.effects ++ send leader (vote node) ∷ [] in
                  let kept : record { state = q'; ledger = l; effects = told } ≡ r' =
                    ground (arith, e1, e2) in
                  rw (← kept) (record {
                    sent = inr (
                      votes_of-append r.effects (send leader (vote node) ∷ [])
                          ∙ ap (λ x. votes_of r.effects ++ x ∷ []) (sym v),
                      rw v lt,
                    );
                    lock = up;
                  })
            ]
      ]

  lead-Votes :
      (h : Host) (heap : Heap) (leaf_id : ℕ) (node : Node) (r r' : Run Q)
      → lead h heap leaf_id node r ≡ some r'
      → Votes r r'
  unfolding lead create_leaf
  lead-Votes h heap leaf_id node r r' e =
      let (q, leaf) = create_leaf h leaf_id (certify node r.state) in
      elim (Option-cases (update h heap leaf (q, r.ledger))) [
        | inl none_ ↦ absurd (cc (e, none_))
        | inr ((q', l), e1) ↦
            let (v, up) = update-vheight h heap leaf q q' r.ledger l e1 in
            let told : List (Effect HsMessage) = r.effects ++ broadcast (propose leaf) ∷ [] in
            let kept : record { state = q'; ledger = l; effects = told } ≡ r' =
              ground (arith, e1) in
            rw (← kept) (record {
              sent = inl (
                votes_of-append r.effects (broadcast (propose leaf) ∷ [])
                    ∙ append-nil (votes_of r.effects),
                v,
              );
              lock = up;
            })
      ]

  -- No vote, and the same lock.
  abbrev Quiet : Run Q → Run Q → Type 0
  Quiet r r' =
      (votes_of r'.effects ≡ votes_of r.effects)
      × (r'.state.vheight ≡ r.state.vheight)
      × (r'.state.b_lock ≡ r.state.b_lock)

  Quiet-Votes : (r r' : Run Q) → Quiet r r' → Votes r r'
  Quiet-Votes r r' (e, v, b) = record { sent = inl (e, v); lock = rw b (omega arith) }

  schedule_submit-Quiet : (timer_id : ℕ) (r : Run Q) → Quiet r (schedule_submit timer_id r)
  unfolding schedule_submit
  schedule_submit-Quiet timer_id r = (votes_of_quiet r.effects _ refl, refl, refl)

  Quiet-trans : (r r1 r2 : Run Q) → Quiet r r1 → Quiet r1 r2 → Quiet r r2
  Quiet-trans r r1 r2 (e1, v1, b1) (e2, v2, b2) = (e2 ∙ e1, v2 ∙ v1, b2 ∙ b1)

  on_start-Quiet : (h : Host) (next leaf : ℕ) (r : Run Q) → Quiet r (on_start h next leaf r)
  unfolding on_start create_leaf
  on_start-Quiet h next leaf r =
      let r1 : Run Q = if eqb r.state.submit_limit 0 then r else schedule_submit next r in
      let first : Quiet r r1 = scheduled in
      elim (Bool-cases (eqb h.pid 0)) [
        | inl leader ↦ rw leader (
          votes_of_quiet r1.effects (broadcast (propose _) ∷ []) refl ∙ first.0,
          first.1,
          first.2,
        )
        | inr other ↦ rw other first
      ]
    where
      scheduled : Quiet r (if eqb r.state.submit_limit 0 then r else schedule_submit next r)
      scheduled = elim (Bool-cases (eqb r.state.submit_limit 0)) [
        | inl none_ ↦ rw none_ (refl, refl, refl)
        | inr some_ ↦ rw some_ (schedule_submit-Quiet next r)
      ]

  on_timer-Quiet :
      (h : Host) (command : Command) (next id : ℕ) (r r' : Run Q)
      → on_timer h command next id r ≡ some r'
      → Quiet r r'
  unfolding on_timer
  on_timer-Quiet h command next id r r' e =
      let c : SubmittedCommand = record { command = command; submitted_at = h.now } in
      let sent : List (Effect HsMessage) =
        send_many (keep (λ replica. not (eqb replica h.pid)) h.pool) (submit c) in
      let r1 : Run Q = record r {
        state = record r.state {
          pending_commands = insert command.id c r.state.pending_commands;
          submitted = r.state.submitted + 1;
        };
        effects = r.effects ++ sent;
      } in
      let first : Quiet r r1 = (
        votes_of_quiet r.effects sent
            (votes_of-send_many (keep (λ replica. not (eqb replica h.pid)) h.pool) c),
        refl,
        refl,
      ) in
      elim (Bool-cases (eqb id r.state.current_submit_timer_id)) [
        | inr other ↦ absurd (cc (e, other))
        | inl mine ↦ elim (Bool-cases (ltb (r.state.submitted + 1) r.state.submit_limit)) [
          | inl more ↦
              let same : schedule_submit next r1 ≡ r' = ground (arith, mine, more) in
              rw (← same)
                (Quiet-trans r r1 (schedule_submit next r1) first (schedule_submit-Quiet next r1))
          | inr done ↦ let same : r1 ≡ r' = ground (arith, mine, done) in rw (← same) first
        ]
      ]

  on_propose-Votes :
      (rotating : Bool) (h : Host) (heap : Heap) (node : Node) (r r' : Run Q)
      → on_propose rotating h heap node r ≡ some r'
      → Votes r r'
  unfolding on_propose
  on_propose-Votes rotating h heap node r r' e =
      elim (Bool-cases (
        ltb r.state.vheight node.height
        && (extends heap r.state node || ltb r.state.b_lock.height node.height))) [
          | inl good ↦
              accept-Votes rotating h heap node r r' (ground (arith, good)) (ground (arith, good))
          | inr bad ↦ let same : r ≡ r' = ground (arith, bad) in rw (← same) (Votes-refl r)
        ]

  module _ (new_quorum : ℕ → Q) (add : Q → Q × Bool) (rotating : Bool) where
    on_vote-Votes :
        (h : Host) (heap : Heap) (leaf_id : ℕ) (node : Node) (r r' : Run Q)
        → on_vote new_quorum add h heap leaf_id node r ≡ some r'
        → Votes r r'
    unfolding on_vote
    on_vote-Votes h heap leaf_id node r r' e =
        elim (Bool-cases (leb node.height r.state.b_exec.height)) [
          | inl old ↦ let same : r ≡ r' = ground (arith, old) in rw (← same) (Votes-refl r)
          | inr new ↦
              let counted : Run Q = count_vote new_quorum add h node r in
              elim (Bool-cases (reaches new_quorum add h node r)) [
                | inl reached ↦
                    let led =
                      lead-Votes h heap leaf_id node counted r' (ground (arith, new, reached)) in
                    record { sent = led.sent; lock = led.lock }
                | inr few ↦
                    let same : counted ≡ r' = ground (arith, new, few) in
                    rw (← same) (record { sent = inl (refl, refl); lock = omega arith })
              ]
        ]

    handle-Votes :
        (event : Event) (r r' : Run Q)
        → handle new_quorum add rotating event r ≡ some r'
        → Votes r r'
    unfolding on_message
    handle-Votes (starts h next leaf) r r' e =
        let same : on_start h next leaf r ≡ r' = ground arith in
        rw (← same) (Quiet-Votes r (on_start h next leaf r) (on_start-Quiet h next leaf r))
    handle-Votes (receives h heap leaf (submit c)) r r' e =
        let same : record r {
          state = record r.state {
            pending_commands = or_insert c.command.id c r.state.pending_commands;
          };
        }
            ≡ r' =
          ground arith in
        rw (← same) (Quiet-Votes r _ (refl, refl, refl))
    handle-Votes (receives h heap leaf (propose node)) r r' e =
        on_propose-Votes rotating h heap node r r' e
    handle-Votes (receives h heap leaf (vote node)) r r' e = on_vote-Votes h heap leaf node r r' e
    handle-Votes (fires h command next id) r r' e =
        Quiet-Votes r r' (on_timer-Quiet h command next id r r' e)

    -- Over any run, starting before the first effect, the heights of the votes that the replica sends
    -- are strictly ascending, so it never votes twice for one height, and none is above the height
    -- that it keeps as that of its last vote. The height of its lock never falls.
    pub votes-Ascending :
        (r r' : Run Q) (events : List Event)
        → r.effects ≡ []
        → run new_quorum add rotating r events ≡ some r'
        → Ascending (votes_of r'.effects)
          × AllWithin r'.state.vheight (votes_of r'.effects)
          × (r.state.b_lock.height ≤ r'.state.b_lock.height)
    votes-Ascending r r' [] quiet e =
        let same : r ≡ r' = ground arith in rw (← same) (rw quiet (tt, tt, omega arith))
    votes-Ascending r r' (event ∷ events) quiet e =
        elim (Option-cases (run new_quorum add rotating r events)) [
          | inl none_ ↦ absurd (cc (e, none_))
          | inr (r1, e1) ↦
              let (up, within, lock) = votes-Ascending r r1 events quiet e1 in
              let step = handle-Votes event r1 r' (ground (arith, e1)) in
              elim step.sent [
                | inl (same, height) ↦
                    (rw same up, rw (same, height) within, omega (arith, step.lock))
                | inr (more, higher) ↦ (
                  rw more (Ascending-snoc r1.state.vheight r'.state.vheight _ within up higher),
                  rw more (AllWithin-snoc r1.state.vheight r'.state.vheight _ within (omega arith)),
                  omega (arith, step.lock),
                )
              ]
        ]
