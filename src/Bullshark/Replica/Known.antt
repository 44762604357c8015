-- ===== src/Bullshark/Replica/Known.antt =====
-- The test on the edges of a vertex keeps the graph of a replica closed.
use blsmr.Prelude.{
  ℕ, ◌≤◌, ◌≡◌, sym, ap, ◌∙◌, subst, ◌⊎◌, ◌↔◌, inl, inr, true, Option, none, some, List, [], ◌∷◌,
  arith, eqb_iff, leb, get_elem?, filter_map, nat_eq, >>=-eq-some, Option-cases, Bool-cases,
}
use blsmr.Map.{get}
use blsmr.Bullshark.Cells.{cell}
use blsmr.Bullshark.Dag.{Vertex, Heap, Dag, same_vertex, index, row_of, live_edges, add_vertex}
use blsmr.Bullshark.Dag.Reach.{Among, Among-keep, slot, InDag, IsGraph}
use blsmr.Bullshark.Dag.Shape.{IsShaped, IsClosed}
use blsmr.Bullshark.Dag.Growth.{IsFree, add_vertex-IsGraph}
use blsmr.Bullshark.Replica.Advance.{all_known}

-- Vertices are found at their addresses, and those that the graph holds are alive.
pub record IsAlive (heap : Heap) (d : Dag) : Type 0 where
  pub named : (ptr : ℕ) (v : Vertex) → get ptr heap ≡ some v → v.ptr ≡ ptr
  pub held : (v u : Vertex) → slot d d.matrix v ≡ some (some u) → get u.ptr heap ≡ some u

module _ (heap : Heap) (d : Dag) (alive : IsAlive heap d) where
  -- The vertex that the graph holds at the place of another, with the same address, is the other.
  same-InDag :
      (ptr : ℕ) (v known : Vertex) (row : List (Option Vertex))
      → get ptr heap ≡ some v
      → index d v.round ≡ some row
      → get_elem? row v.source ≡ some (some known)
      → same_vertex v known ≡ true
      → InDag d v
  unfolding index cell
  same-InDag ptr v known row found at_round at_source same =
      let (i, e1, e2) = >>=-eq-some (row_of d v.round) (λ i. get_elem? d.matrix i) at_round in
      let there : slot d d.matrix v ≡ some (some known) = rw (e1, e2) at_source in
      let equal : v.ptr ≡ known.ptr = (eqb_iff v.ptr known.ptr).0 same in
      let mine : get v.ptr heap ≡ some v =
        subst (λ p. get p heap ≡ some v) (sym (alive.named ptr v found)) found in
      let theirs : get v.ptr heap ≡ some known =
        subst (λ p. get p heap ≡ some known) (sym equal) (alive.held v known there) in
      let one : some v ≡ some known = sym mine ∙ theirs in
      let vertices : known ≡ v = cc one in there ∙ ap (λ u. some (some u)) vertices

  all_known-InDag :
      (edges : List ℕ) (e : Vertex)
      → all_known heap d edges ≡ some true
      → Among e (filter_map (λ edge. get edge heap) edges)
      → InDag d e
  unfolding all_known
  all_known-InDag [] e test m = absurd m
  all_known-InDag (edge ∷ edges) e test m = elim (Option-cases (get edge heap)) [
    | inl none_ ↦ absurd (ground (arith, test, none_))
    | inr (v, found) ↦ elim (Option-cases (index d v.round)) [
      | inl none_ ↦ absurd (ground (arith, test, found, none_))
      | inr (row, at_round) ↦ elim (Option-cases (get_elem? row v.source)) [
        | inl none_ ↦ absurd (ground (arith, test, found, at_round, none_))
        | inr (none, at_source) ↦ absurd (ground (arith, test, found, at_round, at_source))
        | inr (some known, at_source) ↦ elim (Bool-cases (same_vertex v known)) [
          | inr other ↦ absurd (ground (arith, test, found, at_round, at_source, other))
          | inl same ↦
              elim (subst
                (λ o. Among e (elim o as (λ _. List Vertex) [
                  | none ↦ filter_map (λ edge. get edge heap) edges
                  | some y ↦ y ∷ filter_map (λ edge. get edge heap) edges
                ]))
                found m) [
                  | inl first ↦
                      subst (λ u. InDag d u) first
                        (same-InDag edge v known row found at_round at_source same)
                  | inr later ↦
                      all_known-InDag edges e
                        (ground (arith, test, found, at_round, at_source, same)) later
                ]
        ]
      ]
    ]
  ]

-- A vertex of a kept round that passes the replica's test on its edges, in a free place, can be added:
-- that returns a graph, which holds the vertex and what was there before, and nothing else, and which
-- the live edges of its vertices do not leave.
pub all_known-IsGraph :
    (heap : Heap) (d : Dag) (v : Vertex)
    → IsAlive heap d
    → IsShaped d
    → IsClosed heap d
    → IsFree d v
    → d.gc_offset ≤ v.round
    → v.source ≤ d.proc_num
    → all_known heap d v.strong_edges ≡ some true
    → (d' : Dag) × (add_vertex v d ≡ some d')
      × ((w : Vertex) → InDag d' w ↔ ((v ≡ w) ⊎ InDag d w))
      × IsShaped d'
      × IsClosed heap d'
      × IsGraph heap d'
unfolding live_edges
all_known-IsGraph heap d v alive shaped closed free kept narrow test =
    add_vertex-IsGraph heap d v shaped closed free kept narrow (λ e m.
      all_known-InDag heap d alive v.strong_edges e test (
        Among-keep (λ edge. leb d.gc_offset edge.round) e
          (filter_map (λ edge. get edge heap) v.strong_edges) m))
