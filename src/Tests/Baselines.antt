-- ===== src/Tests/Baselines.antt =====
-- Runs of the two protocols that the simulations compare with.
use mathlib.Core.Option
use blsmr.Prelude.{
  ℕ, ◌+◌, ◌-◌, ◌*◌, ◌/◌, ◌≤◌, ◌<◌, ◌≡◌, refl, inl, ◌⊎◌, ◌↔◌, Bool, true, false, none, some, List,
  [], ◌∷◌, arith, eqb, length, nat_eq,
}
use blsmr.Map.{get, insert}
use blsmr.Submission.{Ledger, drain}
use blsmr.Hotstuff
use blsmr.Hotstuff.{Node, Heap, genesis, propose, vote, Run, commit, update, quorum_size}
use blsmr.Hotstuff.Runs.{Event, receives, handle, run}
use blsmr.Hotstuff.Ballots.{votes_of, Ascending, AllWithin}
use blsmr.Hotstuff.Votes.{votes-Ascending}
use blsmr.Hotstuff.Commits.{
  IsChain, Above, count_blocks, great_grandparent, commit_iff, update_commits,
}
use blsmr.Hotstuff.Quorums.{CountsVotes, votes_for}
use blsmr.Hotstuff.Leaders.{pending_quorums_fair, proposes_by_quorum}
use blsmr.Bullshark.Broadcast.{
  MessageId, message_id_eq, ConsistentBroadcast, BcbMessage, initiate, signature, certificate,
  default,
}
use blsmr.Bullshark.Broadcast
use blsmr.Bullshark.Broadcast.Delivery
use blsmr.Bullshark.Broadcast.Delivery.{Call, delivered_certified, certified, signatures, Offered}
use blsmr.Bullshark.Broadcast.Certificates.{certificate_signed}
use blsmr.Bullshark.Broadcast.Orders.{initiate-certificate_comm}
use blsmr.Tests.{host, put_cmd}

-- A quorum helper that counts: the votes and the size.
abbrev new_quorum : ℕ → ℕ × ℕ
new_quorum n = (0, n)

abbrev add : ℕ × ℕ → (ℕ × ℕ) × Bool
add (votes, size) = ((votes + 1, size), eqb (votes + 1) size)

add-reached : (q : ℕ × ℕ) → (add q).1 ≡ true → q.0 + 1 ≡ q.1
add-reached (votes, size) e = ground arith

counts : CountsVotes new_quorum add
counts = record {
  votes = λ q. q.0;
  size = λ q. q.1;
  fresh = λ n. (refl, refl);
  counted = λ q. (refl, refl);
  reached = add-reached;
}

-- A chain of three nodes over the genesis node.
abbrev node : ℕ → Node
node height = record {
  id = height;
  parent = some (height - 1);
  height = height;
  commands = record { command = put_cmd; submitted_at = 2 } ∷ [];
}

abbrev chain : Heap
chain = (0, genesis) ∷ (1, node 1) ∷ (2, node 2) ∷ (3, node 3) ∷ []

chain-IsChain : IsChain chain
unfolding Hotstuff.parent get insert
chain-IsChain = record {
  lower = λ id n above live e. grind arith;
  named = λ id n live. grind arith;
}

abbrev pub no_blocks : Ledger
no_blocks = record { block_commits = 0; committed = []; latencies = [] }

abbrev fresh : Run (ℕ × ℕ)
fresh = record { state = Hotstuff.start 1 0 genesis; ledger = no_blocks; effects = [] }

-- The events, the last one first.
abbrev proposals : List Event
proposals = receives host chain 8 (propose (node 2)) ∷ receives host chain 9 (propose (node 1)) ∷ []

abbrev voted : Run (ℕ × ℕ)
voted = Option.get_or (run new_quorum add false fresh proposals) fresh

voted-run : run new_quorum add false fresh proposals ≡ some voted
unfolding Hotstuff.on_message Hotstuff.on_propose Hotstuff.extends Hotstuff.accept
    Hotstuff.next_leader Hotstuff.update Hotstuff.parent Hotstuff.raise_leaf Hotstuff.raise_lock get
    insert
voted-run = refl

votes-Ascending_example :
    Ascending (votes_of voted.effects)
    × AllWithin voted.state.vheight (votes_of voted.effects)
    × (0 ≤ voted.state.b_lock.height)
votes-Ascending_example = votes-Ascending new_quorum add false fresh voted proposals refl voted-run

abbrev chain_blocks : List Node
chain_blocks = node 1 ∷ node 2 ∷ node 3 ∷ []

commit_iff_example :
    (commit host chain 0 4 (node 3) no_blocks ≡ some (count_blocks host chain_blocks no_blocks)) ↔ (
      (blocks : List Node) × Above chain 0 (node 3) blocks
      × (count_blocks host chain_blocks no_blocks ≡ count_blocks host blocks no_blocks)
      × ((count_blocks host chain_blocks no_blocks).block_commits ≡ 0 + (3 - 0)))
unfolding get
commit_iff_example =
    commit_iff host chain 0 (node 3) no_blocks (count_blocks host chain_blocks no_blocks)
      chain-IsChain refl

update_commits_example :
    ((great_grandparent chain (node 4) ≡ none)
      × ((q' : Hotstuff.Hotstuff (ℕ × ℕ)) × (update host chain (node 4) (fresh.state, no_blocks)
            ≡ some (q', no_blocks))
          × (q'.b_exec ≡ genesis)))
    ⊎ ((block : Node) × (great_grandparent chain (node 4) ≡ some block)
        × ((l' : Ledger)
            → ((q' : Hotstuff.Hotstuff (ℕ × ℕ)) × (update host chain
                    (node 4)
                    (fresh.state, no_blocks)
                  ≡ some (q', l'))
                × (q'.b_exec ≡ block))
              ↔ ((blocks : List Node) × Above chain 0 block blocks
                  × (l' ≡ count_blocks host blocks no_blocks)
                  × (l'.block_commits ≡ 0 + (block.height - 0)))))
update_commits_example = update_commits host chain (node 4) fresh.state no_blocks chain-IsChain

-- Two of three votes for the node have arrived.
abbrev two_votes : List Event
two_votes = receives host chain 9 (vote (node 1)) ∷ receives host chain 8 (vote (node 1)) ∷ []

abbrev waiting : Run (ℕ × ℕ)
waiting = record fresh { state = record fresh.state { pending_quorums = (1, (1, (2, 3))) ∷ [] } }

waiting-run : run new_quorum add false fresh two_votes ≡ some waiting
unfolding Hotstuff.on_message Hotstuff.on_vote quorum_size get insert
waiting-run = refl

pending_quorums_fair_example :
    (0 < 1)
    × (counts.votes (2, 3) ≤ votes_for 1 two_votes)
    × (counts.size (2, 3) ≡ length host.pool * 2 / 3 + 1)
unfolding get
pending_quorums_fair_example =
    pending_quorums_fair new_quorum add counts false host.pool fresh waiting two_votes 1 1 (2, 3)
      (refl, (refl, tt)) refl waiting-run refl

abbrev led : Run (ℕ × ℕ)
led =
    Option.get_or (handle new_quorum add false (receives host chain 7 (vote (node 1))) waiting)
      fresh

led-run : handle new_quorum add false (receives host chain 7 (vote (node 1))) waiting ≡ some led
unfolding Hotstuff.on_message Hotstuff.on_vote quorum_size Hotstuff.lead Hotstuff.update
    Hotstuff.create_leaf Hotstuff.parent Hotstuff.raise_leaf Hotstuff.raise_lock drain get insert
led-run = refl

proposes_by_quorum_example :
    (led ≡ record waiting {
      state = record waiting.state { pending_quorums = led.state.pending_quorums };
    })
    ⊎ (length host.pool * 2 / 3 + 1
        ≤ votes_for 1 (receives host chain 7 (vote (node 1)) ∷ two_votes))
proposes_by_quorum_example =
    proposes_by_quorum new_quorum add counts false host.pool fresh waiting led two_votes host chain
      7 (node 1) (refl, (refl, tt)) refl refl waiting-run led-run

-- A message of another replica.
abbrev id : MessageId
id = record { process_id = 2; message_id = 5 }

abbrev none_known : ConsistentBroadcast ℕ
none_known = record { messages = []; waiting_certificates = []; proc_num = 4 }

abbrev arrived : List (Call ℕ)
arrived = Delivery.receives 2 (initiate id 42) ∷ []

delivered_certified_example :
    (j : MessageId) × Offered host j 42 (Delivery.receives 3 (certificate 4 id) ∷ arrived)
    × (certified host (Delivery.receives 3 (certificate 4 id) ∷ arrived) j ≡ true)
unfolding Broadcast.on_message Broadcast.on_initiate Broadcast.on_certificate get insert
delivered_certified_example =
    delivered_certified host none_known arrived 3 (certificate 4 id) 42 refl refl refl

-- A message of this replica, signed by two others.
abbrev own : MessageId
own = record { process_id = 1; message_id = 6 }

abbrev signed : List (Call ℕ)
signed =
    Delivery.receives 2 (signature own)
    ∷ Delivery.receives 3 (signature own)
    ∷ Delivery.broadcasts 6 42
    ∷ []

abbrev acknowledged : Call ℕ
acknowledged = Delivery.receives 4 (signature own)

certificate_signed_example :
    ((from : ℕ) × (acknowledged ≡ Delivery.receives from (signature own)))
    × (Broadcast.quorum_size 4 ≤ signatures host (acknowledged ∷ signed) own)
unfolding Broadcast.on_message Broadcast.on_signature Broadcast.reliably_broadcast
    Broadcast.quorum_size get insert
certificate_signed_example =
    certificate_signed host none_known signed acknowledged 4 own refl refl (inl refl)

initiate-certificate_comm_example :
    (let first = Broadcast.on_initiate host 2 id 42 none_known in
      let early = Broadcast.on_certificate id none_known in
      (first.delivered ≡ none)
      × (early.delivered ≡ none)
      × ((Broadcast.on_certificate id first.state).delivered ≡ some 42)
      × ((Broadcast.on_initiate host 2 id 42 early.state).delivered ≡ some 42)
      × ((Broadcast.on_certificate id first.state).state ≡ none_known)
      × ((Broadcast.on_initiate host 2 id 42 early.state).state ≡ none_known))
unfolding get
initiate-certificate_comm_example = initiate-certificate_comm host 2 id 42 none_known refl refl refl
