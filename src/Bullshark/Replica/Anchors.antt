-- ===== src/Bullshark/Replica/Anchors.antt =====
-- crates/bullshark/src/lib.rs: which anchors a replica orders, and in which order.
use blsmr.Prelude.{
  ℕ, zero, suc, ◌+◌, ◌-◌, ◌%◌, true, false, ◌||◌, Option, none, some, List, [], ◌∷◌, eqb, ltb, leb,
  if◌then◌else◌, length, keep, contains, nat_eq, ◌>>=◌,
}
use blsmr.Map.{get}
use blsmr.Host.{Host}
use blsmr.Submission.{Ledger}
use blsmr.Bullshark.Dag.{Vertex, Heap, Dag, path_exists, order_from, gc}
use blsmr.Bullshark.Replica.{Bullshark, Run, get_anchor, direct_commit_threshold}

-- `edge.upgrade().expect(..)` of every edge.
unfoldable pub upgrade_all : Heap → List ℕ → Option (List Vertex)
upgrade_all heap [] = some []
upgrade_all heap (edge ∷ edges) = do v ← get edge heap; vs ← upgrade_all heap edges; some (v ∷ vs)

-- The loop of `order_anchors` from a round; one more than the round is enough fuel. Below round 2
-- the subtraction wraps around, and no such round is in the graph.
unfoldable pub collect_anchors : Heap → ℕ → Vertex → ℕ → Bullshark → Option Bullshark
unfolding get_anchor path_exists
collect_anchors heap zero anchor round s = none
collect_anchors heap (suc fuel) anchor round s = elim (ltb s.last_ordered_round round) [
  | false ↦ some s
  | true ↦ do
    held ← get_anchor s round
    lower ← if ltb round 2 then none else some (round - 2)
    elim held [
      | none ↦ collect_anchors heap fuel anchor lower s
      | some previous ↦ do
        (found, dag) ← path_exists heap anchor previous s.dag
        collect_anchors heap fuel (if found then previous else anchor) lower (record s {
          dag = dag;
          ordered_anchors = if found then previous ∷ s.ordered_anchors else s.ordered_anchors;
        })
    ]
]

-- `while let Some(anchor) = self.ordered_anchors.pop()`.
unfoldable pub order_all : Host → Heap → List Vertex → Dag × Ledger → Option (Dag × Ledger)
unfolding order_from
order_all h heap [] (d, l) = some (d, l)
order_all h heap (anchor ∷ anchors) (d, l) = do
  next ← order_from h heap anchor (d, l)
  order_all h heap anchors next

unfoldable pub order_anchors : Host → Vertex → Run → Option Run
unfolding collect_anchors order_all gc
order_anchors h v r = do
  s ←
      collect_anchors r.heap (v.round + 1) v (v.round - 2)
        (record r.state { ordered_anchors = v ∷ r.state.ordered_anchors })
  (dag, l) ← order_all h r.heap s.ordered_anchors (s.dag, r.ledger)
  some (record r {
    state = record s { last_ordered_round = v.round; ordered_anchors = []; dag = gc v.round dag };
    ledger = l;
  })

-- The votes for an anchor: the vertices among these with an edge to it.
abbrev pub votes_for : Vertex → List Vertex → ℕ
votes_for anchor vs = length (keep (λ vote. contains vote.strong_edges anchor.ptr) vs)

unfoldable pub try_ordering : Host → Vertex → Run → Option Run
unfolding get_anchor upgrade_all direct_commit_threshold order_anchors
try_ordering h v r = if eqb (v.round % 2) 1 || eqb v.round 0 then some r else (do
  held ← get_anchor r.state (v.round - 2)
  elim held [
    | none ↦ some r
    | some anchor ↦ do
      voters ← upgrade_all r.heap v.strong_edges
      if leb (direct_commit_threshold r.state.proc_num) (votes_for anchor voters)
          then order_anchors h anchor r
          else some r
  ])
