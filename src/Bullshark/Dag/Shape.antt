-- ===== src/Bullshark/Dag/Shape.antt =====
-- Graphs whose tables are of one shape, and what more rows make of them.
use blsmr.Prelude.{
  ℕ, zero, suc, ◌+◌, ◌≡◌, refl, ap, ◌∙◌, ◌↔◌, inl, inr, false, none, some, List, [], ◌∷◌, ◌++◌,
  arith, length, length-append, ◌>>=◌, >>=-eq-some,
}
use blsmr.Bullshark.Cells.{cell, fill}
use blsmr.Bullshark.Cells.Sizes.{
  Sized, Sized-returns, Sized-within, Sized-snoc, cell-snoc, cell-snoc_kept, get_elem?-fill,
}
use blsmr.Bullshark.Dag.{Vertex, Heap, Dag, row_of, live_edges, grow}
use blsmr.Bullshark.Dag.Reach.{Among, slot, InDag, IsGraph}

-- The three tables have as many rows, of one cell more than there are replicas.
pub record IsShaped (d : Dag) : Type 0 where
  pub matrix : Sized (length d.matrix) (d.proc_num + 1) d.matrix
  pub visited : Sized (length d.matrix) (d.proc_num + 1) d.visited
  pub ordered : Sized (length d.matrix) (d.proc_num + 1) d.ordered

-- A graph whose edges stay in it.
abbrev pub IsClosed : Heap → Dag → Type 0
IsClosed heap d = (v e : Vertex) → InDag d v → Among e (live_edges heap d v) → InDag d e

slot-Sized :
    {A B : Type 0} (d : Dag) (n w : ℕ) (g : List (List A)) (g' : List (List B)) (v : Vertex) (a : A)
    → Sized n w g
    → Sized n w g'
    → slot d g v ≡ some a
    → (b : B) × (slot d g' v ≡ some b)
slot-Sized d n w g g' v a size size' e =
    let (row, e1, e2) = >>=-eq-some (row_of d v.round) (λ r. cell g r v.source) e in
    let (lt, within) = Sized-within n w row v.source g a size e2 in
    let (b, held) = Sized-returns n w row v.source g' size' lt within in
    (b, ap (λ o. o >>= λ r. cell g' r v.source) e1 ∙ held)

pub closed-IsGraph : (heap : Heap) (d : Dag) → IsShaped d → IsClosed heap d → IsGraph heap d
closed-IsGraph heap d shaped closed =
    let n = length d.matrix in
    let w = d.proc_num + 1 in
    record {
      closed = closed;
      orderable = λ v in_v.
          slot-Sized d n w d.matrix d.ordered v (some v) shaped.matrix shaped.ordered in_v;
      visitable = λ v in_v.
          slot-Sized d n w d.matrix d.visited v (some v) shaped.matrix shaped.visited in_v;
    }

-- The graph `d'` holds what `d` does, in more rows.
pub record Extends (d d' : Dag) (more : ℕ) : Type 0 where
  pub shaped : IsShaped d'
  pub rows : length d'.matrix ≡ length d.matrix + more
  pub width : d'.proc_num ≡ d.proc_num
  pub offset : d'.gc_offset ≡ d.gc_offset
  pub same :
      (v u : Vertex) → (slot d' d'.matrix v ≡ some (some u)) ↔ (slot d d.matrix v ≡ some (some u))

-- One pass of the loop of `grow`.
abbrev grow_one : Dag → Dag
grow_one d = record d {
  matrix = d.matrix ++ fill (d.proc_num + 1) none ∷ [];
  visited = d.visited ++ fill (d.proc_num + 1) false ∷ [];
  ordered = d.ordered ++ fill (d.proc_num + 1) false ∷ [];
}

length-snoc : {A : Type 0} (xs : List A) (x : A) → length (xs ++ x ∷ []) ≡ suc (length xs)
length-snoc xs x = omega (arith, length-append xs (x ∷ []))

grow_one-Extends : (d : Dag) → IsShaped d → Extends d (grow_one d) 1
unfolding row_of
grow_one-Extends d shaped =
    let w = d.proc_num + 1 in
    let rows = length-snoc d.matrix (fill w none) in
    record {
      shaped = record {
        matrix = rw rows (Sized-snoc (length d.matrix) w d.matrix none shaped.matrix);
        visited = rw rows (Sized-snoc (length d.matrix) w d.visited false shaped.visited);
        ordered = rw rows (Sized-snoc (length d.matrix) w d.ordered false shaped.ordered);
      };
      rows = omega (arith, rows);
      width = refl;
      offset = refl;
      same = λ v u. (
        λ found.
            let (row, e1, e2) =
              >>=-eq-some (row_of d v.round) (λ r. cell (d.matrix ++ fill w none ∷ []) r v.source)
                found in
            elim (cell-snoc d.matrix (fill w none) row v.source (some u) e2) [
              | inl old ↦ rw e1 old
              | inr new_ ↦ absurd (cc (get_elem?-fill w v.source none (some u) new_))
            ],
        λ found.
            let (row, e1, e2) =
              >>=-eq-some (row_of d v.round) (λ r. cell d.matrix r v.source) found in
            rw e1 (cell-snoc_kept d.matrix (fill w none) row v.source (some u) e2),
      );
    }

pub grow-Extends : (more : ℕ) (d : Dag) → IsShaped d → Extends d (grow more d) more
unfolding grow
grow-Extends zero d shaped = record {
  shaped = shaped;
  rows = omega arith;
  width = refl;
  offset = refl;
  same = λ v u. (λ found. found, λ found. found);
}
grow-Extends (suc more) d shaped =
    let one = grow_one-Extends d shaped in
    let all_ = grow-Extends more (grow_one d) one.shaped in
    record {
      shaped = all_.shaped;
      rows = omega (arith, all_.rows, one.rows);
      width = all_.width;
      offset = all_.offset;
      same = λ v u. (
        λ found. (one.same v u).0 ((all_.same v u).0 found),
        λ found. (all_.same v u).1 ((one.same v u).1 found),
      );
    }
