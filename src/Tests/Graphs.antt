-- ===== src/Tests/Graphs.antt =====
-- A graph of two vertices, and a Bullshark replica that enters its first round.
use mathlib.Core.Option
use blsmr.Prelude.{
  ◌<◌, length, min, max, ◌-◌, ℕ, zero, suc, ◌+◌, ◌≤◌, ◌≡◌, refl, sym, subst, ◌⊎◌, ◌↔◌, inl, inr,
  Bool, true, false, none, some, Option, List, [], ◌∷◌, arith, nat_eq, >>=-eq-some,
}
use blsmr.Map.{get, insert}
use blsmr.Host.{Host}
use blsmr.Submission.{Ledger}
use blsmr.Hotstuff.Ballots.{Ascending, AllWithin}
use blsmr.Bullshark.Cells.{cell, set_cell, unset}
use blsmr.Bullshark.Broadcast.{message_id_eq, certificate}
use blsmr.Bullshark.Dag.{
  index, add_vertex, gc, Vertex, Heap, Dag, row_of, live_edges, order_from, path_exists,
}
use blsmr.Bullshark.Dag.Reach.{Among, slot, InDag, IsGraph, Reach}
use blsmr.Bullshark.Dag.History.{IsSettled, order_from-Reach}
use blsmr.Bullshark.Dag.Growth.{IsFree, add_vertex-IsGraph}
use blsmr.Bullshark.Dag.Shape.{IsShaped, IsClosed}
use blsmr.Bullshark.Dag.Collect.{gc-IsGraph}
use blsmr.Bullshark.Dag.Paths.{path_exists-Trail}
use blsmr.Bullshark.Dag.Search.{Trail}
use blsmr.Bullshark.Replica
use blsmr.Bullshark.Replica.{Bullshark, get_anchor, Run, Packet, bcb}
use blsmr.Bullshark.Replica.Known.{IsAlive, all_known-IsGraph}
use blsmr.Bullshark.Replica.Leaders.{get_anchor_returns_iff}
use blsmr.Bullshark.Replica.Advance.{all_known, attempt, try_add_to_dag}
use blsmr.Bullshark.Replica.Depth.{try_add_to_dag-depth}
use blsmr.Bullshark.Replica.Own.{rounds_of}
use blsmr.Bullshark.Replica.Proposals.{Event, starts, receives, run, proposals-Ascending}
use blsmr.Tests.{host}
use blsmr.Tests.Baselines.{no_blocks}

abbrev first : Vertex
first = record { ptr = 1; round = 0; source = 1; strong_edges = []; commands = [] }

abbrev second : Vertex
second = record { ptr = 2; round = 1; source = 1; strong_edges = 1 ∷ []; commands = [] }

abbrev live : Heap
live = (1, first) ∷ (2, second) ∷ []

abbrev graph : Dag
graph = record {
  proc_num = 1;
  matrix = (none ∷ some first ∷ []) ∷ (none ∷ some second ∷ []) ∷ [];
  visited = (false ∷ true ∷ []) ∷ (false ∷ false ∷ []) ∷ [];
  ordered = (false ∷ false ∷ []) ∷ (false ∷ false ∷ []) ∷ [];
  gc_offset = 0;
}

held : (i j : ℕ) (v : Vertex) → cell graph.matrix i j ≡ some (some v) → (first ≡ v) ⊎ (second ≡ v)
unfolding cell
held zero zero v e = absurd (cc e)
held zero (suc zero) v e = inl (ground arith)
held zero (suc (suc j)) v e = absurd (cc e)
held (suc zero) zero v e = absurd (cc e)
held (suc zero) (suc zero) v e = inr (ground arith)
held (suc zero) (suc (suc j)) v e = absurd (cc e)
held (suc (suc i)) j v e = absurd (cc e)

graph-vertices : (v : Vertex) → InDag graph v → (first ≡ v) ⊎ (second ≡ v)
graph-vertices v in_v =
    let (row, _, e) =
      >>=-eq-some (row_of graph v.round) (λ row. cell graph.matrix row v.source) in_v in
    held row v.source v e

edges-InDag :
    (e : Vertex)
    → Among e (live_edges live graph first) ⊎ Among e (live_edges live graph second)
    → InDag graph e
unfolding live_edges get row_of cell
edges-InDag e (inl none_) = absurd none_
edges-InDag e (inr (inl same)) = subst (λ v. InDag graph v) same refl
edges-InDag e (inr (inr none_)) = absurd none_

graph-IsGraph : IsGraph live graph
unfolding row_of cell
graph-IsGraph = record {
  closed = λ v e in_v m. elim (graph-vertices v in_v) [
    | inl same ↦ edges-InDag e (inl (subst (λ u. Among e (live_edges live graph u)) (sym same) m))
    | inr same ↦ edges-InDag e (inr (subst (λ u. Among e (live_edges live graph u)) (sym same) m))
  ];
  orderable = λ v in_v. elim (graph-vertices v in_v) [
    | inl same ↦ (false, rw (← same) refl)
    | inr same ↦ (false, rw (← same) refl)
  ];
  visitable = λ v in_v. elim (graph-vertices v in_v) [
    | inl same ↦ (true, rw (← same) refl)
    | inr same ↦ (false, rw (← same) refl)
  ];
}

graph-IsSettled : IsSettled live graph graph.ordered
unfolding row_of cell
graph-IsSettled w e in_w ordered m = elim (graph-vertices w in_w) [
  | inl same ↦ absurd (cc (subst (λ u. slot graph graph.ordered u ≡ some true) (sym same) ordered))
  | inr same ↦ absurd (cc (subst (λ u. slot graph graph.ordered u ≡ some true) (sym same) ordered))
]

order_from-Reach_example :
    (o' : List (List Bool)) × (l' : Ledger) × (order_from host live second (graph, no_blocks)
      ≡ some (record graph { ordered = o' }, l'))
    × ((w : Vertex)
        → InDag graph w
        → (slot graph o' w ≡ some true)
          ↔ ((slot graph graph.ordered w ≡ some true) ⊎ Reach live graph second w))
    × IsSettled live graph o'
    × (l'.block_commits + unset o' ≡ 0 + unset graph.ordered)
unfolding row_of cell
order_from-Reach_example =
    order_from-Reach host live graph second no_blocks graph-IsGraph graph-IsSettled refl

path_exists-Trail_example :
    (answer : Bool) × (visited : List (List Bool)) × (path_exists live second first graph
      ≡ some (answer, record graph { visited = visited }))
    × ((answer ≡ true) ↔ Trail live graph first second)
unfolding row_of cell
path_exists-Trail_example = path_exists-Trail live graph second first graph-IsGraph refl

-- Identifiers are numbered as they are taken.
abbrev fresh : ℕ → ℕ
fresh n = n

abbrev idle : Run
idle = record {
  state = Replica.default 10 1;
  heap = [];
  ledger = no_blocks;
  effects = [];
  taken = 0;
}

-- The replica is alone: its genesis vertex is a quorum.
abbrev alone : Host
alone = record host { pool = 1 ∷ [] }

abbrev own : Vertex
own = record { ptr = 1; round = 0; source = 1; strong_edges = []; commands = [] }

abbrev events : List Event
events =
    receives alone ((1, own) ∷ []) no_blocks 1
      (bcb (certificate 1 (record { process_id = 1; message_id = 2 })))
    ∷ starts alone [] no_blocks
    ∷ []

abbrev advanced : Run
advanced = Option.get_or (run fresh idle events) idle

advanced-run : run fresh idle events ≡ some advanced
unfolding Replica.Handlers.on_message get Replica.Handlers.on_start insert set_cell
advanced-run = refl

proposals-Ascending_example :
    Ascending (rounds_of advanced.effects)
    × AllWithin advanced.state.round (rounds_of advanced.effects)
    × (0 ≤ advanced.state.round)
proposals-Ascending_example = proposals-Ascending fresh idle advanced events refl advanced-run

try_add_to_dag-depth_example :
    ((deeper : Vertex → Run → Option (Run × Bool))
      → try_add_to_dag alone fresh 2 second advanced
        ≡ attempt alone fresh (attempt alone fresh deeper) second advanced)
    × ((add : Vertex → Run → Option (Run × Bool))
        → ((u : Vertex) (s : Run) → add u s ≡ attempt alone fresh add u s)
        → add second advanced ≡ try_add_to_dag alone fresh 2 second advanced)
try_add_to_dag-depth_example = try_add_to_dag-depth alone fresh second advanced

-- A vertex over the second one.
abbrev third : Vertex
third = record { ptr = 3; round = 2; source = 1; strong_edges = 2 ∷ []; commands = [] }

graph-IsShaped : IsShaped graph
graph-IsShaped = record { matrix = refl; visited = refl; ordered = refl }

third-IsFree : IsFree graph third
unfolding row_of cell
third-IsFree u there = absurd (cc there)

third-edges : (e : Vertex) → Among e (live_edges live graph third) → InDag graph e
unfolding live_edges get row_of cell
third-edges e (inl same) = subst (λ v. InDag graph v) same refl
third-edges e (inr none_) = absurd none_

add_vertex-IsGraph_example :
    (d' : Dag) × (add_vertex third graph ≡ some d')
    × ((w : Vertex) → InDag d' w ↔ ((third ≡ w) ⊎ InDag graph w))
    × IsShaped d'
    × IsClosed live d'
    × IsGraph live d'
add_vertex-IsGraph_example =
    add_vertex-IsGraph live graph third graph-IsShaped graph-IsGraph.closed third-IsFree
      (omega arith) (omega arith) third-edges

gc-IsGraph_example :
    ((gc 5 graph).gc_offset ≡ max 0 (min 5 (0 + 2 - 1)))
    × ((w : Vertex) → InDag (gc 5 graph) w ↔ (InDag graph w × ((gc 5 graph).gc_offset ≤ w.round)))
    × IsShaped (gc 5 graph)
    × IsClosed live (gc 5 graph)
    × IsGraph live (gc 5 graph)
gc-IsGraph_example = gc-IsGraph live graph 5 graph-IsShaped graph-IsGraph.closed

graph-IsAlive : IsAlive live graph
unfolding get
graph-IsAlive = record {
  named = λ ptr v e. grind arith;
  held = λ v u e.
      let (row, _, e') =
        >>=-eq-some (row_of graph v.round) (λ row. cell graph.matrix row v.source) e in
      elim (held row v.source u e') [
        | inl same ↦ subst (λ w. get w.ptr live ≡ some w) same refl
        | inr same ↦ subst (λ w. get w.ptr live ≡ some w) same refl
      ];
}

all_known-IsGraph_example :
    (d' : Dag) × (add_vertex third graph ≡ some d')
    × ((w : Vertex) → InDag d' w ↔ ((third ≡ w) ⊎ InDag graph w))
    × IsShaped d'
    × IsClosed live d'
    × IsGraph live d'
unfolding all_known get index
all_known-IsGraph_example =
    all_known-IsGraph live graph third graph-IsAlive graph-IsShaped graph-IsGraph.closed
      third-IsFree (omega arith) (omega arith) refl

abbrev replica : Bullshark
replica = record idle.state { proc_num = 1; dag = graph }

get_anchor_returns_iff_example : ((0 ≤ 1) × (1 < length graph.matrix + 0)) ↔ (
    (anchor : Option Vertex) × (leader : ℕ) × (get_anchor replica 1 ≡ some anchor)
    × (cell graph.matrix (1 - 0) leader ≡ some anchor)
    × (1 ≤ leader)
    × (leader ≤ 1))
get_anchor_returns_iff_example = get_anchor_returns_iff replica 1 graph-IsShaped refl (omega arith)
