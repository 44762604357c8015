-- ===== src/Bullshark/Dag/History.antt =====
-- Ordering from a vertex orders its causal history.
use blsmr.Prelude.{
  ◌+◌, ◌*◌, ◌≡◌, refl, sym, subst, ◌⊎◌, ◌↔◌, inl, inr, Bool, true, some, List, [], ◌∷◌, arith,
  length, max,
}
use blsmr.Host.{Host}
use blsmr.Submission.{Ledger}
use blsmr.Bullshark.Cells.{unset}
use blsmr.Bullshark.Dag.{Vertex, Heap, Dag, live_edges, widest, order_from}
use blsmr.Bullshark.Dag.Reach.{Among, slot, InDag, IsGraph, Reach, here, via}
use blsmr.Bullshark.Dag.Order.{Orders, order_loop-Orders}

-- Whatever an ordered vertex leads to is ordered.
abbrev pub IsSettled : Heap → Dag → List (List Bool) → Type 0
IsSettled heap d o =
    (w e : Vertex)
    → InDag d w
    → slot d o w ≡ some true
    → Among e (live_edges heap d w)
    → slot d o e ≡ some true

Reach-ordered :
    (heap : Heap) (d : Dag) (o : List (List Bool)) (v w : Vertex)
    → IsGraph heap d
    → IsSettled heap d o
    → InDag d v
    → slot d o v ≡ some true
    → Reach heap d v w
    → slot d o w ≡ some true
Reach-ordered heap d o v w graph settled in_v ordered here = ordered
Reach-ordered heap d o v w graph settled in_v ordered (via {e = e} m path) =
    Reach-ordered heap d o e w graph settled (graph.closed v e in_v m) (settled v e in_v ordered m)
      path

Orders-IsSettled :
    (heap : Heap) (d : Dag) (o o' : List (List Bool)) (queue : List Vertex)
    → IsSettled heap d o
    → Orders heap d o o' queue
    → IsSettled heap d o'
Orders-IsSettled heap d o o' queue settled orders w e in_w found m =
    elim (orders.closed w e in_w found m) [
      | inl before ↦ orders.kept e (settled w e in_w before m)
      | inr done ↦ done
    ]

-- Ordering from a vertex of the graph, where whatever an ordered vertex leads to is ordered, returns.
-- Then exactly those vertices are ordered that were before or to which the vertex leads by live
-- edges, whatever an ordered vertex leads to is ordered again, the number of committed blocks has
-- grown by that of the newly ordered cells, and nothing else of the graph has changed.
pub order_from-Reach :
    (h : Host) (heap : Heap) (d : Dag) (v : Vertex) (l : Ledger)
    → IsGraph heap d
    → IsSettled heap d d.ordered
    → InDag d v
    → (o' : List (List Bool)) × (l' : Ledger) × (order_from h heap v (d, l)
        ≡ some (record d { ordered = o' }, l'))
      × ((w : Vertex)
          → InDag d w
          → (slot d o' w ≡ some true) ↔ ((slot d d.ordered w ≡ some true) ⊎ Reach heap d v w))
      × IsSettled heap d o'
      × (l'.block_commits + unset o' ≡ l.block_commits + unset d.ordered)
unfolding order_from
order_from-Reach h heap d v l graph settled in_v =
    let most = max (length v.strong_edges) (widest heap) in
    let (o', l', run, orders, count) =
      order_loop-Orders heap d h (2 + unset d.ordered * most) most (v ∷ []) d.ordered l graph
        graph.orderable (omega arith)
        (λ u m. elim m [
          | inl same ↦ (subst (λ x. InDag d x) same in_v, rw (← same) (omega arith))
          | inr none_ ↦ absurd none_
        ])
        (omega arith) in
    let settled' = Orders-IsSettled heap d d.ordered o' (v ∷ []) settled orders in
    (
      o',
      l',
      run,
      λ w in_w. (
        λ found. elim (orders.only w in_w found) [
          | inl before ↦ inl before
          | inr (u, inl same, path) ↦ inr (subst (λ x. Reach heap d x w) (sym same) path)
          | inr (u, inr none_, path) ↦ absurd none_
        ],
        λ reason. elim reason [
          | inl before ↦ orders.kept w before
          | inr path ↦
              Reach-ordered heap d o' v w graph settled' in_v (orders.entered v (inl refl)) path
        ],
      ),
      settled',
      count,
    )
