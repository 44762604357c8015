-- ===== src/Bullshark/Dag/Paths.antt =====
-- When there is a path from a vertex to another.
use blsmr.Prelude.{
  ℕ, zero, suc, ◌+◌, ◌≡◌, refl, sym, subst, ◌↔◌, inl, inr, Bool, true, false, some, List, [], ◌∷◌,
  arith, get_elem?, map, >>=-eq-some, Bool-cases,
}
use blsmr.Bullshark.Cells.{cell, set_cell, set_cell-returns, unset, unset-set_cell}
use blsmr.Bullshark.Dag.{
  Vertex, Heap, Dag, row_of, same_vertex, path_loop, path_exists, reset_visited,
}
use blsmr.Bullshark.Dag.Reach.{slot, InDag, IsGraph, slot-set_new, slot-set_returns, slot-set_old}
use blsmr.Bullshark.Dag.Search.{Trail, found, Explored, path_loop-Trail}

row-reset :
    (row : List Bool) (j : ℕ) (b : Bool)
    → get_elem? row j ≡ some b
    → get_elem? (map (λ _. false) row) j ≡ some false
row-reset [] j b e = absurd (cc e)
row-reset (x ∷ row) zero b e = refl
row-reset (x ∷ row) (suc j) b e = row-reset row j b e

cell-reset :
    (g : List (List Bool)) (i j : ℕ) (b : Bool)
    → cell g i j ≡ some b
    → cell (map (λ row. map (λ _. false) row) g) i j ≡ some false
unfolding cell
cell-reset [] i j b e = absurd (cc e)
cell-reset (row ∷ g) zero j b e = row-reset row j b e
cell-reset (row ∷ g) (suc i) j b e = cell-reset g i j b e

module _ (heap : Heap) (d : Dag) (from to : Vertex) (graph : IsGraph heap d) where
  abbrev reset : List (List Bool)
  reset = map (λ row. map (λ _. false) row) d.visited

  reset-slot : (v : Vertex) → InDag d v → slot d reset v ≡ some false
  reset-slot v in_v =
      let (b, held) = graph.visitable v in_v in
      let (row, e, at_v) = >>=-eq-some (row_of d v.round) (λ r. cell d.visited r v.source) held in
      rw e (cell-reset d.visited row v.source b at_v)

  -- Where the search starts, only the first vertex is visited.
  start-Explored :
      (s : List (List Bool)) (row : ℕ)
      → InDag d from
      → same_vertex from to ≡ false
      → row_of d from.round ≡ some row
      → set_cell reset row from.source true ≡ some s
      → Explored heap d to (from ∷ []) s
  start-Explored s row in_from other e set =
      let first : (w : Vertex) → InDag d w → slot d s w ≡ some true → from ≡ w = λ w in_w seen.
        elim (slot-set_old d reset s true true from w row e in_from in_w set seen) [
          | inl same ↦ same
          | inr before ↦ absurd (cc (before, reset-slot w in_w))
        ] in
      record {
        cells = λ v in_v. slot-set_returns d reset s true false from v row set (reset-slot v in_v);
        apart = λ w in_w seen. subst (λ u. same_vertex u to ≡ false) (first w in_w seen) other;
        covered = λ w edge in_w seen m above. inl (inl (first w in_w seen));
      }

  search-Trail :
      InDag d from
      → same_vertex from to ≡ false
      → (row : ℕ) × (s : List (List Bool)) × (answer : Bool) × (visited : List (List Bool))
        × (row_of d from.round ≡ some row)
        × (set_cell reset row from.source true ≡ some s)
        × (path_loop heap d to (2 + unset reset) (from ∷ []) s ≡ some (answer, visited))
        × ((answer ≡ true) ↔ Trail heap d to from)
  search-Trail in_from other =
      let (row, e, at_from) =
        >>=-eq-some (row_of d from.round) (λ r. cell reset r from.source)
          (reset-slot from in_from) in
      let (s, set) = set_cell-returns reset row from.source true false at_from in
      let (answer, visited, run, sound, complete) =
        path_loop-Trail heap d to graph from (2 + unset reset) (from ∷ []) s
          (start-Explored s row in_from other e set)
          (λ v m. elim m [
            | inl same ↦
                (subst (λ u. InDag d u) same in_from, subst (λ u. Trail heap d to u) (sym same))
            | inr none_ ↦ absurd none_
          ])
          (omega (arith, unset-set_cell reset s row from.source at_from set)) in
      (
        row,
        s,
        answer,
        visited,
        e,
        set,
        run,
        (
          sound,
          λ trail. elim (Bool-cases answer) [
            | inl yes_ ↦ yes_
            | inr no_ ↦
                absurd
                  (complete no_ from in_from (slot-set_new d reset s true from row e set) trail)
          ],
        ),
      )

path_exists-search :
    (heap : Heap) (d : Dag) (from to : Vertex) (s visited : List (List Bool)) (answer : Bool)
    (row : ℕ)
    → same_vertex from to ≡ false
    → row_of d from.round ≡ some row
    → set_cell (map (λ row. map (λ _. false) row) d.visited) row from.source true ≡ some s
    → path_loop heap d to (2 + unset (map (λ row. map (λ _. false) row) d.visited)) (from ∷ []) s
      ≡ some (answer, visited)
    → path_exists heap from to d ≡ some (answer, record d { visited = visited })
unfolding path_exists reset_visited
path_exists-search heap d from to s visited answer row other e set run =
    ground (arith, other, e, set, run)

-- From a vertex of the graph the search returns, whatever the marks of an earlier search, and answers
-- true exactly if live edges lead from the vertex to the target and to no lower round than the
-- target's on the way. It changes the marks of visited cells only.
pub path_exists-Trail :
    (heap : Heap) (d : Dag) (from to : Vertex)
    → IsGraph heap d
    → InDag d from
    → (answer : Bool) × (visited : List (List Bool)) × (path_exists heap from to d
        ≡ some (answer, record d { visited = visited }))
      × ((answer ≡ true) ↔ Trail heap d to from)
unfolding path_exists
path_exists-Trail heap d from to graph in_from = elim (Bool-cases (same_vertex from to)) [
  | inl same ↦ (true, d.visited, ground (arith, same), (λ _. found same, λ _. refl))
  | inr other ↦
      let (row, s, answer, visited, e, set, run, iff) =
        search-Trail heap d from to graph in_from other in
      (answer, visited, path_exists-search heap d from to s visited answer row other e set run, iff)
]
