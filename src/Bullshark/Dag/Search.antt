-- ===== src/Bullshark/Dag/Search.antt =====
-- What the loop of `path_exists` finds.
use blsmr.Prelude.{
  ℕ, zero, suc, ◌+◌, ◌<◌, ◌≤◌, ◌≡◌, refl, sym, ◌∙◌, subst, ◌⊎◌, inl, inr, Bool, true, false, some,
  List, [], ◌∷◌, ◌++◌, arith, length, length-append, Bool-cases,
}
use blsmr.Bullshark.Cells.{unset}
use blsmr.Bullshark.Dag.{Vertex, Heap, Dag, live_edges, same_vertex, visit_edges, path_loop}
use blsmr.Bullshark.Dag.Visits.{Visits, visit_edges-Visits}
use blsmr.Bullshark.Dag.Reach.{Among, Among-left, Among-right, Among-append, slot, InDag, IsGraph}

-- A way by live edges to a vertex, with no vertex of a lower round on it.
pub data Trail (heap : Heap) (d : Dag) (to : Vertex) : Vertex → Type 0 where
  found : {v : Vertex} → same_vertex v to ≡ true → Trail heap d to v
  via :
      {v e : Vertex}
      → Among e (live_edges heap d v)
      → to.round ≤ e.round
      → Trail heap d to e
      → Trail heap d to v

-- The vertices that are visited do not include the target, and their edges are visited too, but for
-- those of the vertices on the queue.
pub record Explored (heap : Heap) (d : Dag) (to : Vertex) (queue : List Vertex)
    (s : List (List Bool)) : Type 0 where
  pub cells : (v : Vertex) → InDag d v → (b : Bool) × (slot d s v ≡ some b)
  pub apart : (w : Vertex) → InDag d w → slot d s w ≡ some true → same_vertex w to ≡ false
  pub covered :
      (w e : Vertex)
      → InDag d w
      → slot d s w ≡ some true
      → Among e (live_edges heap d w)
      → to.round ≤ e.round
      → Among w queue ⊎ (slot d s e ≡ some true)

module _ (heap : Heap) (d : Dag) (to : Vertex) (graph : IsGraph heap d) where
  no-Trail :
      (s : List (List Bool)) (w : Vertex)
      → Explored heap d to [] s
      → InDag d w
      → slot d s w ≡ some true
      → Trail heap d to w
      → ⊥
  no-Trail s w explored in_w seen (found same) = cc (explored.apart w in_w seen, same)
  no-Trail s w explored in_w seen (via {e = e} m above trail) =
      elim (explored.covered w e in_w seen m above) [
        | inl none_ ↦ none_
        | inr next ↦ no-Trail s e explored (graph.closed w e in_w m) next trail
      ]

  Explored-step :
      (v : Vertex) (queue new : List Vertex) (s s' : List (List Bool))
      → InDag d v
      → Explored heap d to (v ∷ queue) s
      → Visits d to (live_edges heap d v) new s s' false
      → Explored heap d to (queue ++ new) s'
  Explored-step v queue new s s' in_v explored visits = record {
    cells = λ u in_u. let (b, held) = explored.cells u in_u in visits.cells u b held;
    apart = λ w in_w seen. elim (visits.back w in_w seen) [
      | inl before ↦ explored.apart w in_w before
      | inr m ↦ (visits.fresh w m).2
    ];
    covered = λ w e in_w seen m above. elim (visits.back w in_w seen) [
      | inl before ↦ elim (explored.covered w e in_w before m above) [
        | inl (inl same) ↦
            let edge : Among e (live_edges heap d v) =
              subst (λ u. Among e (live_edges heap d u)) (sym same) m in
            inr ((visits.miss e refl edge above).1)
        | inl (inr later) ↦ inl (Among-left w queue new later)
        | inr next ↦ inr (visits.kept e next)
      ]
      | inr new_ ↦ inl (Among-right w queue new new_)
    ];
  }

  path_loop-next :
      (v : Vertex) (queue new : List Vertex) (fuel : ℕ) (s s' : List (List Bool))
      → visit_edges d to (live_edges heap d v) s ≡ some (false, (new, s'))
      → path_loop heap d to (suc fuel) (v ∷ queue) s ≡ path_loop heap d to fuel (queue ++ new) s'
  unfolding path_loop
  path_loop-next v queue new fuel s s' run = rw run refl

  path_loop-hit :
      (v : Vertex) (queue new : List Vertex) (fuel : ℕ) (s s' : List (List Bool))
      → visit_edges d to (live_edges heap d v) s ≡ some (true, (new, s'))
      → path_loop heap d to (suc fuel) (v ∷ queue) s ≡ some (true, s')
  unfolding path_loop
  path_loop-hit v queue new fuel s s' run = rw run refl

  pub path_loop-Trail :
      (from : Vertex) (fuel : ℕ) (queue : List Vertex) (s : List (List Bool))
      → Explored heap d to queue s
      → ((v : Vertex) → Among v queue → InDag d v × (Trail heap d to v → Trail heap d to from))
      → length queue + unset s < fuel
      → (answer : Bool) × (s' : List (List Bool)) × (path_loop heap d to fuel queue s
          ≡ some (answer, s'))
        × (answer ≡ true → Trail heap d to from)
        × (answer ≡ false
            → (w : Vertex) → InDag d w
            → slot d s w ≡ some true
            → Trail heap d to w
            → ⊥)
  unfolding path_loop
  path_loop-Trail from zero queue s explored queued enough = absurd (omega (arith, enough))
  path_loop-Trail from (suc fuel) [] s explored queued enough =
      (false, s, refl, λ yes_. absurd (cc yes_), λ no_ w. no-Trail s w explored)
  path_loop-Trail from (suc fuel) (v ∷ queue) s explored queued enough =
      let (in_v, onward) = queued v (inl refl) in
      let (answer, new, s', run, visits) =
        visit_edges-Visits d to (live_edges heap d v) s
          (λ e m. let in_e = graph.closed v e in_v m in (in_e, explored.cells e in_e)) in
      elim (Bool-cases answer) [
        | inl yes_ ↦
            let (e, m, above, same) = visits.hit yes_ in
            (
              true,
              s',
              path_loop-hit v queue new fuel s s' (rw (← yes_) run),
              λ _. onward (via m above (found same)),
              λ no_. absurd (cc no_),
            )
        | inr no_ ↦
            let visits' : Visits d to (live_edges heap d v) new s s' false =
              subst (λ b. Visits d to (live_edges heap d v) new s s' b) no_ visits in
            let (answer', s'', run', sound, complete) =
              path_loop-Trail from fuel (queue ++ new) s'
                (Explored-step v queue new s s' in_v explored visits')
                (λ u m. elim (Among-append u queue new m) [
                  | inl later ↦ queued u (inr later)
                  | inr fresh ↦
                      let (edge, above, _) = visits.fresh u fresh in
                      (graph.closed v u in_v edge, λ trail. onward (via edge above trail))
                ])
                (omega (arith, enough, visits.count, length-append queue new)) in
            (
              answer',
              s'',
              path_loop-next v queue new fuel s s' (rw (← no_) run) ∙ run',
              sound,
              λ none_ w in_w seen. complete none_ w in_w (visits.kept w seen),
            )
      ]
