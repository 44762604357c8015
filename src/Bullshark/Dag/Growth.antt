-- ===== src/Bullshark/Dag/Growth.antt =====
-- What adding a vertex makes of a graph.
use blsmr.Prelude.{
  ℕ, ◌+◌, ◌-◌, ◌<◌, ◌≤◌, ◌≡◌, refl, sym, ◌∙◌, subst, ◌⊎◌, ◌↔◌, inl, inr, ◌&&◌, Option, some, List,
  arith, eqb, leb, if◌then◌else◌, length, >>=-eq-some, Bool-cases,
}
use blsmr.Bullshark.Cells.{cell, set_cell, set_cell-returns, cell-set_cell}
use blsmr.Bullshark.Cells.Sizes.{Sized, Sized-returns, Sized-length, Sized-set_cell}
use blsmr.Bullshark.Dag.{
  Vertex, Heap, Dag, row_of, live_edges, grow, place, add_vertex, current_allocated_rounds,
}
use blsmr.Bullshark.Dag.Reach.{Among, slot, InDag, IsGraph, slot-set_new}
use blsmr.Bullshark.Dag.Shape.{IsShaped, IsClosed, closed-IsGraph, Extends, grow-Extends}

-- A round from the first kept one up to the last is a row.
row_of-within :
    (d : Dag) (round : ℕ) → d.gc_offset ≤ round → row_of d round ≡ some (round - d.gc_offset)
unfolding row_of
row_of-within d round kept = ground (arith, kept)

-- The place of a vertex is free, or the vertex is there.
abbrev pub IsFree : Dag → Vertex → Type 0
IsFree d v = (u : Vertex) → slot d d.matrix v ≡ some (some u) → u ≡ v

record Places (d d' : Dag) (v : Vertex) : Type 0 where
  shaped : IsShaped d'
  offset : d'.gc_offset ≡ d.gc_offset
  held : InDag d' v
  kept : (w : Vertex) → InDag d w → InDag d' w
  only : (w : Vertex) → InDag d' w → (v ≡ w) ⊎ InDag d w

module _ (d : Dag) (v : Vertex) (row : ℕ) (matrix : List (List (Option Vertex))) where
  place-only :
      (w : Vertex)
      → set_cell d.matrix row v.source (some v) ≡ some matrix
      → slot d matrix w ≡ some (some w)
      → (v ≡ w) ⊎ InDag d w
  place-only w set found =
      let (other, e1, e2) = >>=-eq-some (row_of d w.round) (λ r. cell matrix r w.source) found in
      let now = cell-set_cell d.matrix matrix row v.source other w.source (some v) set in
      elim (Bool-cases (eqb row other && eqb v.source w.source)) [
        | inl same ↦ inl (ground (arith, same, now, e2))
        | inr apart ↦ inr (rw e1 (ground (arith, apart, now, e2)))
      ]

  place-kept :
      (w : Vertex)
      → IsFree d v
      → row_of d v.round ≡ some row
      → set_cell d.matrix row v.source (some v) ≡ some matrix
      → InDag d w
      → slot d matrix w ≡ some (some w)
  place-kept w free e set found =
      let (other, e1, e2) = >>=-eq-some (row_of d w.round) (λ r. cell d.matrix r w.source) found in
      let now = cell-set_cell d.matrix matrix row v.source other w.source (some v) set in
      elim (Bool-cases (eqb row other && eqb v.source w.source)) [
        | inl same ↦
            let rows : row ≡ other = ground arith in
            let sources : v.source ≡ w.source = ground arith in
            let there : slot d d.matrix v ≡ some (some w) = rw (e, rows, sources) e2 in
            let equal : w ≡ v = free w there in rw e1 (ground (arith, now, same, equal))
        | inr apart ↦ rw e1 (ground (arith, apart, now, e2))
      ]

place-Places :
    (d : Dag) (v : Vertex)
    → IsShaped d
    → IsFree d v
    → d.gc_offset ≤ v.round
    → v.round < length d.matrix + d.gc_offset
    → v.source ≤ d.proc_num
    → (d' : Dag) × (place v d ≡ some d') × Places d d' v
unfolding place row_of
place-Places d v shaped free kept known narrow =
    let row = v.round - d.gc_offset in
    let w = d.proc_num + 1 in
    let n = length d.matrix in
    let e = row_of-within d v.round kept in
    let (held, here) =
      Sized-returns n w row v.source d.matrix shaped.matrix (omega (arith, kept, known))
        (omega (arith, narrow)) in
    let (matrix, set) = set_cell-returns d.matrix row v.source (some v) held here in
    let size = Sized-set_cell n w row v.source d.matrix matrix (some v) shaped.matrix set in
    let rows : length matrix ≡ n = Sized-length n w matrix size in
    (
      record d { matrix = matrix },
      rw (e, set) refl,
      record {
        shaped = record {
          matrix = subst (λ k. Sized k w matrix) (sym rows) size;
          visited = subst (λ k. Sized k w d.visited) (sym rows) shaped.visited;
          ordered = subst (λ k. Sized k w d.ordered) (sym rows) shaped.ordered;
        };
        offset = refl;
        held = slot-set_new d d.matrix matrix (some v) v row e set;
        kept = λ u in_u. place-kept d v row matrix u free e set in_u;
        only = λ u in_u. place-only d v row matrix u set in_u;
      },
    )

-- The graph in which the vertex has a row.
abbrev roomy : Vertex → Dag → Dag
roomy v d =
    if leb (current_allocated_rounds d) v.round
    then grow (v.round + 1 - current_allocated_rounds d) d
    else d

record Roomy (d d' : Dag) (v : Vertex) : Type 0 where
  more : ℕ
  extends : Extends d d' more
  row : v.round < length d'.matrix + d'.gc_offset

roomy-Roomy : (d : Dag) (v : Vertex) → IsShaped d → Roomy d (roomy v d) v
unfolding current_allocated_rounds grow
roomy-Roomy d v shaped = elim (Bool-cases (leb (length d.matrix + d.gc_offset) v.round)) [
  | inl short ↦
      let more : ℕ = v.round + 1 - (length d.matrix + d.gc_offset) in
      let extends = grow-Extends more d shaped in
      let le : length d.matrix + d.gc_offset ≤ v.round = ground (arith, short) in
      rw short (record {
        more = more;
        extends = extends;
        row = omega (arith, extends.rows, extends.offset, le);
      })
  | inr enough ↦
      rw enough
        (record { more = 0; extends = grow-Extends 0 d shaped; row = ground (arith, enough) })
]

live_edges-offset :
    (heap : Heap) (d d' : Dag) (v : Vertex)
    → d'.gc_offset ≡ d.gc_offset
    → live_edges heap d' v ≡ live_edges heap d v
unfolding live_edges
live_edges-offset heap d d' v same = rw same refl

-- Adding a vertex of a round that is kept, in a free place or once more, whose live edges lead to
-- vertices of the graph, returns. The graph then holds the vertex and what it held before, and
-- nothing else, its tables are of one shape, and the live edges of its vertices stay in it.
pub add_vertex-IsGraph :
    (heap : Heap) (d : Dag) (v : Vertex)
    → IsShaped d
    → IsClosed heap d
    → IsFree d v
    → d.gc_offset ≤ v.round
    → v.source ≤ d.proc_num
    → ((e : Vertex) → Among e (live_edges heap d v) → InDag d e)
    → (d' : Dag) × (add_vertex v d ≡ some d')
      × ((w : Vertex) → InDag d' w ↔ ((v ≡ w) ⊎ InDag d w))
      × IsShaped d'
      × IsClosed heap d'
      × IsGraph heap d'
unfolding add_vertex
add_vertex-IsGraph heap d v shaped closed free kept narrow edges =
    let room = roomy-Roomy d v shaped in
    let extends = room.extends in
    let (d', run, places) =
      place-Places (roomy v d) v extends.shaped (λ u there. free u ((extends.same v u).0 there))
        (omega (arith, kept, extends.offset)) room.row (omega (arith, narrow, extends.width)) in
    let only : (w : Vertex) → InDag d' w → (v ≡ w) ⊎ InDag d w = λ w in_w.
      elim (places.only w in_w) [
        | inl same ↦ inl same
        | inr before ↦ inr ((extends.same w w).0 before)
      ] in
    let within : (w : Vertex) → InDag d w → InDag d' w =
      λ w in_w. places.kept w ((extends.same w w).1 in_w) in
    let closed' : IsClosed heap d' = λ u e in_u m.
      let m' : Among e (live_edges heap d u) =
        subst (λ l. Among e l) (live_edges-offset heap d d' u (places.offset ∙ extends.offset)) m in
      elim (only u in_u) [
        | inl same ↦ within e (edges e (subst (λ x. Among e (live_edges heap d x)) (sym same) m'))
        | inr before ↦ within e (closed u e before m')
      ] in
    (
      d',
      run,
      λ w. (
        only w,
        λ reason. elim reason [
          | inl same ↦ subst (λ x. InDag d' x) same places.held
          | inr before ↦ within w before
        ],
      ),
      places.shaped,
      closed',
      closed-IsGraph heap d' places.shaped closed',
    )
