-- ===== src/Bullshark/Dag.antt =====
-- crates/bullshark/src/dag_utils.rs: the graph of vertices, by round and source. `none` stands for a
-- panic, which a round below the first kept one and an index out of range cause.
--
-- `ptr` is the address of a vertex, a weak reference is written as the address, and the heap holds
-- the vertices that some strong reference keeps alive.
pub mod Reach
pub mod Order
pub mod History
pub mod Shape
pub mod Growth
pub mod Collect
pub mod Visits
pub mod Search
pub mod Paths
use blsmr.Prelude.{
  ℕ, zero, suc, ◌+◌, ◌-◌, ◌*◌, ◌/◌, max, Bool, true, false, not, ◌&&◌, ◌||◌, Option, none, some,
  List, [], ◌∷◌, ◌++◌, eqb, ltb, leb, if◌then◌else◌, length, get_elem?, keep, filter_map, nat_eq,
  ◌>>=◌, map,
}
use blsmr.Map.{Map, get}
use blsmr.Host.{Host}
use blsmr.Submission.{SubmittedCommand, Ledger, count_block}
use blsmr.Bullshark.Cells.{cell, set_cell, unset, fill, rest}

pub record Vertex : Type 0 where
  pub ptr : ℕ
  pub round : ℕ
  pub source : ℕ
  pub strong_edges : List ℕ
  pub commands : List SubmittedCommand

abbrev pub Heap : Type 0
Heap = Map ℕ Vertex

abbrev pub same_vertex : Vertex → Vertex → Bool
same_vertex left right = eqb left.ptr right.ptr

-- `PartialOrd` of vertices, and its equality.
abbrev pub vertex_lt : Vertex → Vertex → Bool
vertex_lt a b = ltb a.round b.round || (eqb a.round b.round && ltb a.source b.source)

abbrev pub vertex_beq : Vertex → Vertex → Bool
vertex_beq a b = eqb a.round b.round && eqb a.source b.source

pub data VertexType : Type 0 where
  vertex : Vertex → VertexType
  genesis : Vertex → VertexType

pub record VertexMessage : Type 0 where
  pub proc_num : ℕ
  pub typ : VertexType

abbrev pub vertex_of : VertexType → Vertex
vertex_of (vertex v) = v
vertex_of (genesis v) = v

-- `Message::virtual_size`.
unfoldable pub virtual_size : VertexMessage → ℕ
virtual_size m = 8 + m.proc_num / 8 + 128 * length (vertex_of m.typ).strong_edges

-- `RoundBasedDAG`.
pub record Dag : Type 0 where
  pub proc_num : ℕ
  pub matrix : List (List (Option Vertex))
  pub visited : List (List Bool)
  pub ordered : List (List Bool)
  pub gc_offset : ℕ

abbrev pub default : Dag
default = record { proc_num = 0; matrix = []; visited = []; ordered = []; gc_offset = 0 }

unfoldable pub set_round_size : ℕ → Dag → Dag
set_round_size proc_num d = record d { proc_num = proc_num }

unfoldable pub current_allocated_rounds : Dag → ℕ
current_allocated_rounds d = length d.matrix + d.gc_offset

-- `saturating_sub`.
unfoldable pub current_max_allocated_round : Dag → ℕ
unfolding current_allocated_rounds
current_max_allocated_round d = current_allocated_rounds d - 1

unfoldable pub min_round : Dag → ℕ
min_round d = d.gc_offset

-- `RoundBasedDAG::round`.
unfoldable pub row_of : Dag → ℕ → Option ℕ
row_of d round = if leb d.gc_offset round then some (round - d.gc_offset) else none

unfoldable pub live_edges : Heap → Dag → Vertex → List Vertex
live_edges heap d v =
    keep (λ edge. leb d.gc_offset edge.round) (filter_map (λ edge. get edge heap) v.strong_edges)

unfoldable pub grow : ℕ → Dag → Dag
grow zero d = d
grow (suc rounds) d = grow rounds (record d {
  matrix = d.matrix ++ fill (d.proc_num + 1) none ∷ [];
  visited = d.visited ++ fill (d.proc_num + 1) false ∷ [];
  ordered = d.ordered ++ fill (d.proc_num + 1) false ∷ [];
})

-- `RoundBasedDAG::insert`.
unfoldable pub place : Vertex → Dag → Option Dag
unfolding row_of
place v d = do
  row ← row_of d v.round
  matrix ← set_cell d.matrix row v.source (some v)
  some (record d { matrix = matrix })

unfoldable pub add_vertex : Vertex → Dag → Option Dag
unfolding current_allocated_rounds grow place
add_vertex v d = place v (
    if leb (current_allocated_rounds d) v.round
    then grow (v.round + 1 - current_allocated_rounds d) d
    else d)

-- The rounds that `gc` drops, one for each pass of its loop; the fuel is the number of rounds.
unfoldable pub drop_rounds : ℕ → ℕ → Dag → Dag
drop_rounds zero keep_from d = d
drop_rounds (suc fuel) keep_from d =
    let dropped : Dag = drop_rounds fuel keep_from (record d {
      matrix = rest d.matrix;
      visited = rest d.visited;
      ordered = rest d.ordered;
      gc_offset = d.gc_offset + 1;
    }) in
    if ltb d.gc_offset keep_from && ltb 1 (length d.matrix) then dropped else d

unfoldable pub gc : ℕ → Dag → Dag
unfolding drop_rounds
gc keep_from d = drop_rounds (length d.matrix) keep_from d

unfoldable pub reset_visited : Dag → Dag
reset_visited d = record d { visited = map (λ row. map (λ _. false) row) d.visited }

-- `Index::index`.
unfoldable pub index : Dag → ℕ → Option (List (Option Vertex))
unfolding row_of
index d round = do row ← row_of d round; get_elem? d.matrix row

-- The most edges that a vertex of the heap has.
abbrev pub widest : Heap → ℕ
widest [] = 0
widest ((_, v) ∷ heap) = max (length v.strong_edges) (widest heap)

unfoldable pub order_loop : Host → Heap → ℕ → List Vertex → Dag × Ledger → Option (Dag × Ledger)
unfolding row_of live_edges
order_loop h heap zero queue (d, l) = none
order_loop h heap (suc fuel) [] (d, l) = some (d, l)
order_loop h heap (suc fuel) (current ∷ queue) (d, l) = do
  row ← row_of d current.round
  done ← cell d.ordered row current.source
  elim done [
    | true ↦ order_loop h heap fuel queue (d, l)
    | false ↦ do
      ordered ← set_cell d.ordered row current.source true
      order_loop h heap fuel (queue ++ live_edges heap d current)
          (record d { ordered = ordered }, count_block h current.commands l)
  ]

-- The edges of one vertex in `path_exists`: the answer if it is `true`, the vertices that are new to
-- the queue, and the cells that are visited.
unfoldable pub visit_edges :
    Dag → Vertex → List Vertex → List (List Bool) → Option (Bool × (List Vertex × List (List Bool)))
unfolding row_of
visit_edges d to [] visited = some (false, ([], visited))
visit_edges d to (edge ∷ edges) visited = elim (ltb edge.round to.round) [
  | true ↦ visit_edges d to edges visited
  | false ↦ elim (same_vertex edge to) [
    | true ↦ some (true, ([], visited))
    | false ↦ do
      row ← row_of d edge.round
      seen ← cell visited row edge.source
      elim seen [
        | true ↦ visit_edges d to edges visited
        | false ↦ do
          marked ← set_cell visited row edge.source true
          (found, (new, visited')) ← visit_edges d to edges marked
          some (found, (edge ∷ new, visited'))
      ]
  ]
]

unfoldable pub path_loop :
    Heap → Dag → Vertex → ℕ → List Vertex → List (List Bool) → Option (Bool × List (List Bool))
unfolding visit_edges live_edges
path_loop heap d to zero queue visited = none
path_loop heap d to (suc fuel) [] visited = some (false, visited)
path_loop heap d to (suc fuel) (current ∷ queue) visited = do
  (found, (new, visited')) ← visit_edges d to (live_edges heap d current) visited
  elim found [
    | true ↦ some (true, visited')
    | false ↦ path_loop heap d to fuel (queue ++ new) visited'
  ]

-- The fuel: every pass takes a vertex off the queue, and one that puts any on sets a cell.
unfoldable pub order_from : Host → Heap → Vertex → Dag × Ledger → Option (Dag × Ledger)
unfolding order_loop
order_from h heap v (d, l) =
    order_loop h heap (2 + unset d.ordered * max (length v.strong_edges) (widest heap)) (v ∷ [])
      (d, l)

unfoldable pub path_exists : Heap → Vertex → Vertex → Dag → Option (Bool × Dag)
unfolding row_of reset_visited path_loop
path_exists heap from to d = if same_vertex from to then some (true, d) else (do
  let fresh : Dag = reset_visited d
  row ← row_of d from.round
  marked ← set_cell fresh.visited row from.source true
  (found, visited) ← path_loop heap d to (2 + unset fresh.visited) (from ∷ []) marked
  some (found, record d { visited = visited }))
