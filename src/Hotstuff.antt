-- ===== src/Hotstuff.antt =====
-- crates/hotstuff/src/lib.rs: a HotStuff replica. `none` stands for a panic.
--
-- A weak reference to a node is written as the identifier of the node, which is unique, and the heap
-- holds the nodes that some strong reference keeps alive while the handler runs.
pub mod Runs
pub mod Ballots
pub mod Votes
pub mod Commits
pub mod Quorums
pub mod Leaders
use mathlib.Core.Option
use blsmr.Prelude.{
  ℕ, zero, suc, ◌+◌, ◌*◌, ◌/◌, ◌%◌, Bool, true, false, not, ◌&&◌, ◌||◌, Option, none, some, List,
  [], ◌∷◌, ◌++◌, eqb, ltb, leb, if◌then◌else◌, length, keep, get_elem?, nat_eq, ◌>>=◌,
}
use blsmr.Client.{CmdId, Command, cmd_id_eq}
use blsmr.Map.{Map, get, insert, remove, or_insert}
use blsmr.Host.{Host}
use blsmr.Effect.{Effect, send, broadcast, timer, send_many}
use blsmr.Submission.{SubmittedCommand, Ledger, count_block, drain}

pub record Node : Type 0 where
  pub id : ℕ
  pub parent : Option ℕ
  pub height : ℕ
  pub commands : List SubmittedCommand

abbrev pub Heap : Type 0
Heap = Map ℕ Node

abbrev pub genesis : Node
genesis = record { id = 0; parent = none; height = 0; commands = [] }

-- `Node::parent`.
unfoldable pub parent : Heap → Node → Option Node
parent heap node = do id ← node.parent; get id heap

pub data HsMessage : Type 0 where
  submit : SubmittedCommand → HsMessage
  propose : Node → HsMessage
  vote : Node → HsMessage

-- `Q` is `dscale::helpers::Quorum<()>`. The counter of committed blocks is in the ledger.
pub record Hotstuff (Q : Type 0) : Type 0 where
  pub submit_interval : ℕ
  pub submit_limit : ℕ
  pub submitted : ℕ
  pub current_submit_timer_id : ℕ
  pub pending_commands : Map CmdId SubmittedCommand
  pub pending_quorums : Map ℕ (ℕ × Q)
  pub nodes : Map ℕ Node
  pub vheight : ℕ
  pub b_lock : Node
  pub b_exec : Node
  pub b_leaf : Node

-- A replica with the shared ledger and the effects of the handler.
pub record Run (Q : Type 0) : Type 0 where
  pub state : Hotstuff Q
  pub ledger : Ledger
  pub effects : List (Effect HsMessage)

-- The ledger after the blocks above `exec_height` up to the node are committed, the oldest first.
unfoldable pub commit : Host → Heap → ℕ → ℕ → Node → Ledger → Option Ledger
unfolding parent
commit h heap exec_height zero node l = none
commit h heap exec_height (suc fuel) node l = elim (ltb exec_height node.height) [
  | false ↦ some l
  | true ↦ do
    above ← parent heap node
    l' ← commit h heap exec_height fuel above l
    some (count_block h node.commands l')
]

abbrev pub remove_commands :
    List SubmittedCommand → Map CmdId SubmittedCommand → Map CmdId SubmittedCommand
remove_commands [] pending = pending
remove_commands (c ∷ commands) pending = remove_commands commands (remove c.command.id pending)

unfoldable pub quorum_size : Host → ℕ
quorum_size h = length h.pool * 2 / 3 + 1

module _ {Q : Type 0} where
  abbrev pub start : ℕ → ℕ → Node → Hotstuff Q
  start submit_interval submit_limit genesis_node = record {
    submit_interval = submit_interval;
    submit_limit = submit_limit;
    submitted = 0;
    current_submit_timer_id = 0;
    pending_commands = [];
    pending_quorums = [];
    nodes = (genesis_node.id, genesis_node) ∷ [];
    vheight = 0;
    b_lock = genesis_node;
    b_exec = genesis_node;
    b_leaf = genesis_node;
  }

  unfoldable pub schedule_submit : ℕ → Run Q → Run Q
  schedule_submit timer_id r = record r {
    state = record r.state { current_submit_timer_id = timer_id };
    effects = r.effects ++ timer r.state.submit_interval timer_id ∷ [];
  }

  -- `leaf_id` is what `unique_id` returns.
  unfoldable pub create_leaf : Host → ℕ → Hotstuff Q → Hotstuff Q × Node
  unfolding drain
  create_leaf h leaf_id q =
      let node : Node = record {
        id = leaf_id;
        parent = some q.b_leaf.id;
        height = q.b_leaf.height + 1;
        commands = drain h q.pending_commands;
      } in
      (record q { pending_commands = []; nodes = insert leaf_id node q.nodes }, node)

  unfoldable pub collect_garbage : Hotstuff Q → Hotstuff Q
  collect_garbage q = record q {
    nodes = keep (λ (_, node). leb q.b_exec.height node.height) q.nodes;
    pending_quorums = keep (λ (_, (height, _)). ltb q.b_exec.height height) q.pending_quorums;
  }

  -- The first two assignments of `update`.
  unfoldable pub raise_leaf : Node → Hotstuff Q → Hotstuff Q
  raise_leaf node q = if ltb q.b_leaf.height node.height then record q { b_leaf = node } else q

  unfoldable pub raise_lock : Option Node → Hotstuff Q → Hotstuff Q
  raise_lock none q = q
  raise_lock (some grandparent) q =
      if ltb q.b_lock.height grandparent.height then record q { b_lock = grandparent } else q

  -- The block is committed and becomes `b_exec`.
  unfoldable pub execute : Host → Heap → Node → Hotstuff Q × Ledger → Option (Hotstuff Q × Ledger)
  unfolding commit collect_garbage
  execute h heap block (q, l) = do
    l' ← commit h heap q.b_exec.height (suc block.height) block l
    some (collect_garbage (record q { b_exec = block }), l')

  unfoldable pub update : Host → Heap → Node → Hotstuff Q × Ledger → Option (Hotstuff Q × Ledger)
  unfolding parent raise_leaf raise_lock execute
  update h heap node (q, l) =
      let grandparent : Option Node = parent heap node >>= parent heap in
      let raised : Hotstuff Q = raise_lock grandparent (raise_leaf node q) in
      elim (grandparent >>= parent heap) [
        | none ↦ some (raised, l)
        | some block ↦ execute h heap block (raised, l)
      ]

  unfoldable pub extends : Heap → Hotstuff Q → Node → Bool
  unfolding parent
  extends heap q node = elim (parent heap node) [
    | none ↦ false
    | some above ↦ eqb above.id q.b_lock.id
  ]

  -- `rotating` is the constant parameter. Indexing an empty pool panics.
  unfoldable pub next_leader : Bool → Host → Hotstuff Q → Option ℕ
  next_leader rotating h q = get_elem? h.pool (if rotating then q.vheight % length h.pool else 0)

  -- An acceptable proposal is entered, and its height is voted for.
  abbrev pub adopt : Node → Hotstuff Q → Hotstuff Q
  adopt node q = record q {
    pending_commands = remove_commands node.commands q.pending_commands;
    nodes = insert node.id node q.nodes;
    vheight = node.height;
  }

  -- The branch of `on_message` for an acceptable proposal.
  unfoldable pub accept : Bool → Host → Heap → Node → Run Q → Option (Run Q)
  unfolding next_leader update
  accept rotating h heap node r = do
    let q : Hotstuff Q = adopt node r.state
    leader ← next_leader rotating h q
    (q', l) ← update h heap node (q, r.ledger)
    some (record { state = q'; ledger = l; effects = r.effects ++ send leader (vote node) ∷ [] })

  unfoldable pub on_propose : Bool → Host → Heap → Node → Run Q → Option (Run Q)
  unfolding accept extends
  on_propose rotating h heap node r =
      if ltb r.state.vheight node.height
        && (extends heap r.state node || ltb r.state.b_lock.height node.height)
      then accept rotating h heap node r
      else some r

  -- The node of a complete quorum becomes the leaf.
  abbrev pub certify : Node → Hotstuff Q → Hotstuff Q
  certify node q = record q { nodes = insert node.id node q.nodes; b_leaf = node }

  -- The statements after the last vote of a quorum.
  unfoldable pub lead : Host → Heap → ℕ → Node → Run Q → Option (Run Q)
  unfolding create_leaf update
  lead h heap leaf_id node r = do
    let (q, leaf) = create_leaf h leaf_id (certify node r.state)
    (q', l) ← update h heap leaf (q, r.ledger)
    some (record { state = q'; ledger = l; effects = r.effects ++ broadcast (propose leaf) ∷ [] })

  -- `new_quorum` and `add` are `Quorum::new` and `Quorum::add`, of whose result only `is_some` is read.
  module _ (new_quorum : ℕ → Q) (add : Q → Q × Bool) where
    -- The entry of the node, a fresh one if it has none, and what `add` makes of its quorum.
    abbrev pub tally : Host → Node → Run Q → ℕ × Q
    tally h node r =
        Option.get_or (get node.id r.state.pending_quorums)
          (node.height, new_quorum (quorum_size h))

    abbrev pub count_vote : Host → Node → Run Q → Run Q
    count_vote h node r =
        let (height, quorum) = tally h node r in
        record r {
          state = record r.state {
            pending_quorums = insert node.id (height, (add quorum).0) r.state.pending_quorums;
          };
        }

    abbrev pub reaches : Host → Node → Run Q → Bool
    reaches h node r = (add (tally h node r).1).1

    unfoldable pub on_vote : Host → Heap → ℕ → Node → Run Q → Option (Run Q)
    unfolding lead
    on_vote h heap leaf_id node r =
        if leb node.height r.state.b_exec.height
        then some r
        else (let counted : Run Q = count_vote h node r in
            if reaches h node r then lead h heap leaf_id node counted else some counted)

    unfoldable pub on_message : Bool → Host → Heap → ℕ → HsMessage → Run Q → Option (Run Q)
    unfolding on_propose on_vote
    on_message rotating h heap leaf_id (submit c) r = some (record r {
      state = record r.state {
        pending_commands = or_insert c.command.id c r.state.pending_commands;
      };
    })
    on_message rotating h heap leaf_id (propose node) r = on_propose rotating h heap node r
    on_message rotating h heap leaf_id (vote node) r = on_vote h heap leaf_id node r

  unfoldable pub on_start : Host → ℕ → ℕ → Run Q → Run Q
  unfolding schedule_submit create_leaf
  on_start h timer_id leaf_id r =
      let r' : Run Q = if eqb r.state.submit_limit 0 then r else schedule_submit timer_id r in
      let (q, leaf) = create_leaf h leaf_id r'.state in
      if eqb h.pid 0
      then record r' { state = q; effects = r'.effects ++ broadcast (propose leaf) ∷ [] }
      else r'

  -- The command is the one that `create_cmd_for_key` makes of key 0. Another timer panics.
  unfoldable pub on_timer : Host → Command → ℕ → ℕ → Run Q → Option (Run Q)
  unfolding schedule_submit send_many
  on_timer h command timer_id id r =
      if eqb id r.state.current_submit_timer_id
      then (let submission : SubmittedCommand = record {
        command = command;
        submitted_at = h.now;
      } in
          let submitted : ℕ = r.state.submitted + 1 in
          let r' : Run Q = record r {
            state = record r.state {
              pending_commands = insert command.id submission r.state.pending_commands;
              submitted = submitted;
            };
            effects =
                r.effects
                ++ send_many (keep (λ replica. not (eqb replica h.pid)) h.pool) (submit submission);
          } in
          some (if ltb submitted r.state.submit_limit then schedule_submit timer_id r' else r'))
      else none
