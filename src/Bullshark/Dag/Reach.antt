-- ===== src/Bullshark/Dag/Reach.antt =====
-- The vertices of a graph, what they lead to, and the cells that stand for them.
use blsmr.Prelude.{
  ℕ, ◌≤◌, ◌≡◌, subst, ◌⊎◌, inl, inr, Bool, ◌&&◌, Option, none, some, List, [], ◌∷◌, arith, eqb, leb,
  length, length-keep-le, filter_map, nat_eq, ◌>>=◌, Option-cases, Bool-cases, >>=-eq-some,
}
pub use blsmr.Bullshark.Members.{Among, Among-left, Among-right, Among-append, Among-keep}
use blsmr.Map.{get}
use blsmr.Bullshark.Cells.{cell, set_cell, cell-set_cell}
use blsmr.Bullshark.Dag.{Vertex, Heap, Dag, row_of, live_edges, widest}

-- What a list of cells holds at the place of a vertex.
abbrev pub slot {ℓ} : {A : Type ℓ} → Dag → List (List A) → Vertex → Option A
slot d g v = do row ← row_of d v.round; cell g row v.source

-- The vertex is the one that the graph holds at its place.
abbrev pub InDag : Dag → Vertex → Type 0
InDag d v = slot d d.matrix v ≡ some (some v)

-- The edges of every vertex of the graph that are live lead to vertices of the graph, and every
-- place of a vertex is one of the cells that are visited and ordered.
pub record IsGraph (heap : Heap) (d : Dag) : Type 0 where
  pub closed : (v e : Vertex) → InDag d v → Among e (live_edges heap d v) → InDag d e
  pub orderable : (v : Vertex) → InDag d v → (b : Bool) × (slot d d.ordered v ≡ some b)
  pub visitable : (v : Vertex) → InDag d v → (b : Bool) × (slot d d.visited v ≡ some b)

-- A vertex leads to another by live edges.
pub data Reach (heap : Heap) (d : Dag) : Vertex → Vertex → Type 0 where
  here : {v : Vertex} → Reach heap d v v
  via : {v e w : Vertex} → Among e (live_edges heap d v) → Reach heap d e w → Reach heap d v w

module _ {ℓ} {A : Type ℓ} (d : Dag) where
  -- Setting the cell of a vertex.
  pub slot-set_new :
      (g g' : List (List A)) (a : A) (v : Vertex) (row : ℕ)
      → row_of d v.round ≡ some row
      → set_cell g row v.source a ≡ some g'
      → slot d g' v ≡ some a
  slot-set_new g g' a v row e s =
      rw e (ground (arith, cell-set_cell g g' row v.source row v.source a s))

  pub slot-set_kept :
      (g g' : List (List A)) (a : A) (v w : Vertex) (row : ℕ)
      → set_cell g row v.source a ≡ some g'
      → slot d g w ≡ some a
      → slot d g' w ≡ some a
  slot-set_kept g g' a v w row s known =
      let (other, e1, e2) = >>=-eq-some (row_of d w.round) (λ r. cell g r w.source) known in
      rw e1 (ground (arith, cell-set_cell g g' row v.source other w.source a s))

  pub slot-set_returns :
      (g g' : List (List A)) (a b : A) (v w : Vertex) (row : ℕ)
      → set_cell g row v.source a ≡ some g'
      → slot d g w ≡ some b
      → (c : A) × (slot d g' w ≡ some c)
  slot-set_returns g g' a b v w row s found =
      let (other, e1, e2) = >>=-eq-some (row_of d w.round) (λ r. cell g r w.source) found in
      let set = cell-set_cell g g' row v.source other w.source a s in
      elim (Bool-cases (eqb row other && eqb v.source w.source)) [
        | inl same ↦ (a, rw e1 (ground (arith, set, same)))
        | inr apart ↦ (b, rw e1 (ground (arith, set, apart, e2)))
      ]

-- A cell that is set after another was is the same, or was set before.
pub slot-set_old {ℓ} :
    {A : Type ℓ} (d : Dag) (g g' : List (List A)) (a b : A) (v w : Vertex) (row : ℕ)
    → row_of d v.round ≡ some row
    → InDag d v
    → InDag d w
    → set_cell g row v.source a ≡ some g'
    → slot d g' w ≡ some b
    → (v ≡ w) ⊎ (slot d g w ≡ some b)
slot-set_old d g g' a b v w row e in_v in_w s found =
    let (other, e1, e2) = >>=-eq-some (row_of d w.round) (λ r. cell g' r w.source) found in
    elim (Bool-cases (eqb row other && eqb v.source w.source)) [
      | inl same ↦
          let rows : row ≡ other = ground arith in
          let sources : v.source ≡ w.source = ground arith in
          let at_v : cell d.matrix row v.source ≡ some (some v) =
            subst (λ o. (o >>= λ r. cell d.matrix r v.source) ≡ some (some v)) e in_v in
          let at_w : cell d.matrix other w.source ≡ some (some w) =
            subst (λ o. (o >>= λ r. cell d.matrix r w.source) ≡ some (some w)) e1 in_w in
          inl (cc (at_v, at_w, rows, sources))
      | inr apart ↦
          inr
            (rw e1 (ground (arith, apart, cell-set_cell g g' row v.source other w.source a s, e2)))
    ]

length-filter_map-le :
    {A B : Type 0} (f : A → Option B) (xs : List A) → length (filter_map f xs) ≤ length xs
length-filter_map-le f [] = omega arith
length-filter_map-le f (x ∷ xs) = ground (arith, length-filter_map-le f xs)

pub length-live_edges :
    (heap : Heap) (d : Dag) (v : Vertex) → length (live_edges heap d v) ≤ length v.strong_edges
unfolding live_edges
length-live_edges heap d v =
    let known = filter_map (λ edge. get edge heap) v.strong_edges in
    omega (
      arith,
      length-keep-le (λ edge. leb d.gc_offset edge.round) known,
      length-filter_map-le (λ edge. get edge heap) v.strong_edges,
    )

get-widest :
    (heap : Heap) (k : ℕ) (v : Vertex) → get k heap ≡ some v → length v.strong_edges ≤ widest heap
unfolding get
get-widest [] k v e = absurd (cc e)
get-widest ((j, w) ∷ heap) k v e = elim (Bool-cases (eqb j k)) [
  | inl same ↦ let held : w ≡ v = ground (arith, same) in rw (← held) (omega arith)
  | inr other ↦ omega (arith, get-widest heap k v (ground (arith, other)))
]

filter_map-widest :
    (heap : Heap) (edges : List ℕ) (e : Vertex)
    → Among e (filter_map (λ edge. get edge heap) edges)
    → length e.strong_edges ≤ widest heap
filter_map-widest heap [] e m = absurd m
filter_map-widest heap (edge ∷ edges) e m =
    let rest = filter_map (λ edge. get edge heap) edges in
    elim (Option-cases (get edge heap)) [
      | inl none_ ↦ filter_map-widest heap edges e (
          subst (λ o. Among e (elim o as (λ _. List Vertex) [ none ↦ rest | some y ↦ y ∷ rest ]))
            none_ m)
      | inr (v, found) ↦
          elim (subst
            (λ o. Among e (elim o as (λ _. List Vertex) [ none ↦ rest | some y ↦ y ∷ rest ])) found
            m) [
              | inl same ↦ rw (← same) (get-widest heap edge v found)
              | inr r ↦ filter_map-widest heap edges e r
            ]
    ]

-- A live edge leads to a vertex of the heap.
pub live_edges-widest :
    (heap : Heap) (d : Dag) (v e : Vertex)
    → Among e (live_edges heap d v)
    → length e.strong_edges ≤ widest heap
unfolding live_edges
live_edges-widest heap d v e m = filter_map-widest heap v.strong_edges e (
    Among-keep (λ edge. leb d.gc_offset edge.round) e
      (filter_map (λ edge. get edge heap) v.strong_edges) m)
