-- ===== src/Bullshark/Dag/Visits.antt =====
-- What visiting the edges of one vertex makes of the visited cells.
use blsmr.Prelude.{
  ℕ, ◌+◌, ◌≤◌, ◌≡◌, refl, sym, ◌∙◌, subst, ◌⊎◌, inl, inr, Bool, true, false, some, List, [], ◌∷◌,
  arith, length, ltb, >>=-eq-some, Bool-cases,
}
use blsmr.Bullshark.Cells.{cell, set_cell, set_cell-returns, unset, unset-set_cell}
use blsmr.Bullshark.Dag.{Vertex, Dag, row_of, same_vertex, visit_edges}
use blsmr.Bullshark.Dag.Reach.{
  Among, slot, InDag, slot-set_new, slot-set_kept, slot-set_returns, slot-set_old,
}

-- What visiting some edges makes of the visited cells, `s` before and `s'` after.
pub record Visits (d : Dag) (to : Vertex) (edges new : List Vertex) (s s' : List (List Bool))
    (answer : Bool) : Type 0 where
  pub hit :
      answer ≡ true
      → (e : Vertex) × Among e edges × (to.round ≤ e.round) × (same_vertex e to ≡ true)
  pub miss :
      (e : Vertex)
      → answer ≡ false
      → Among e edges
      → to.round ≤ e.round
      → (same_vertex e to ≡ false) × (slot d s' e ≡ some true)
  pub fresh :
      (e : Vertex) → Among e new → Among e edges × (to.round ≤ e.round) × (same_vertex e to ≡ false)
  pub kept : (w : Vertex) → slot d s w ≡ some true → slot d s' w ≡ some true
  pub back :
      (w : Vertex) → InDag d w → slot d s' w ≡ some true → (slot d s w ≡ some true) ⊎ Among w new
  pub cells : (w : Vertex) (b : Bool) → slot d s w ≡ some b → (c : Bool) × (slot d s' w ≡ some c)
  pub count : length new + unset s' ≡ unset s

module _ (d : Dag) (to : Vertex) where
  Visits-skip :
      (edge : Vertex) (edges new : List Vertex) (s s' : List (List Bool)) (answer : Bool)
      → (to.round ≤ edge.round → (same_vertex edge to ≡ false) × (slot d s edge ≡ some true))
      → Visits d to edges new s s' answer
      → Visits d to (edge ∷ edges) new s s' answer
  Visits-skip edge edges new s s' answer known rest = record {
    hit = λ yes_. let (e, m, above, same) = rest.hit yes_ in (e, inr m, above, same);
    miss = λ e no_ m above. elim m [
      | inl same ↦
          let (other, seen) = known (subst (λ x. to.round ≤ x.round) (sym same) above) in
          rw (← same) (other, rest.kept edge seen)
      | inr later ↦ rest.miss e no_ later above
    ];
    fresh = λ e m. let (among, high, apart) = rest.fresh e m in (inr among, high, apart);
    kept = rest.kept;
    back = rest.back;
    cells = rest.cells;
    count = rest.count;
  }

  Visits-mark :
      (edge : Vertex) (edges new : List Vertex) (s s1 s' : List (List Bool)) (answer : Bool)
      (row : ℕ)
      → row_of d edge.round ≡ some row
      → InDag d edge
      → to.round ≤ edge.round
      → same_vertex edge to ≡ false
      → cell s row edge.source ≡ some false
      → set_cell s row edge.source true ≡ some s1
      → Visits d to edges new s1 s' answer
      → Visits d to (edge ∷ edges) (edge ∷ new) s s' answer
  Visits-mark edge edges new s s1 s' answer row e in_edge above other unseen set rest = record {
    hit = λ yes_. let (e', m, above', same) = rest.hit yes_ in (e', inr m, above', same);
    miss = λ e' no_ m above'. elim m [
      | inl same ↦ rw (← same) (other, rest.kept edge (slot-set_new d s s1 true edge row e set))
      | inr later ↦ rest.miss e' no_ later above'
    ];
    fresh = λ e' m. elim m [
      | inl same ↦ rw (← same) (inl refl, above, other)
      | inr later ↦ let (among, high, apart) = rest.fresh e' later in (inr among, high, apart)
    ];
    kept = λ w known. rest.kept w (slot-set_kept d s s1 true edge w row set known);
    back = λ w in_w seen. elim (rest.back w in_w seen) [
      | inl now ↦ elim (slot-set_old d s s1 true true edge w row e in_edge in_w set now) [
        | inl same ↦ inr (inl same)
        | inr before ↦ inl before
      ]
      | inr m ↦ inr (inr m)
    ];
    cells = λ w b known.
        let (c, known1) = slot-set_returns d s s1 true b edge w row set known in
        rest.cells w c known1;
    count = omega (arith, rest.count, unset-set_cell s s1 row edge.source unseen set);
  }

  Visits-none : (s : List (List Bool)) → Visits d to [] [] s s false
  Visits-none s = record {
    hit = λ yes_. absurd (cc yes_);
    miss = λ e no_ m above. absurd m;
    fresh = λ e m. absurd m;
    kept = λ w known. known;
    back = λ w in_w seen. inl seen;
    cells = λ w b known. (b, known);
    count = omega arith;
  }

  Visits-hit :
      (edge : Vertex) (edges : List Vertex) (s : List (List Bool))
      → to.round ≤ edge.round
      → same_vertex edge to ≡ true
      → Visits d to (edge ∷ edges) [] s s true
  Visits-hit edge edges s above same = record {
    hit = λ yes_. (edge, inl refl, above, same);
    miss = λ e no_ m above'. absurd (cc no_);
    fresh = λ e m. absurd m;
    kept = λ w known. known;
    back = λ w in_w seen. inl seen;
    cells = λ w b known. (b, known);
    count = omega arith;
  }

  visit_edges-low :
      (edge : Vertex) (edges : List Vertex) (s : List (List Bool))
      → ltb edge.round to.round ≡ true
      → visit_edges d to (edge ∷ edges) s ≡ visit_edges d to edges s
  unfolding visit_edges
  visit_edges-low edge edges s low = ground (arith, low)

  visit_edges-hit :
      (edge : Vertex) (edges : List Vertex) (s : List (List Bool))
      → ltb edge.round to.round ≡ false
      → same_vertex edge to ≡ true
      → visit_edges d to (edge ∷ edges) s ≡ some (true, ([], s))
  unfolding visit_edges
  visit_edges-hit edge edges s high same = ground (arith, high, same)

  visit_edges-seen :
      (edge : Vertex) (edges : List Vertex) (s : List (List Bool)) (row : ℕ)
      → ltb edge.round to.round ≡ false
      → same_vertex edge to ≡ false
      → row_of d edge.round ≡ some row
      → cell s row edge.source ≡ some true
      → visit_edges d to (edge ∷ edges) s ≡ visit_edges d to edges s
  unfolding visit_edges row_of
  visit_edges-seen edge edges s row high other e old = ground (arith, high, other, e, old)

  visit_edges-mark :
      (edge : Vertex) (edges new : List Vertex) (s s1 s' : List (List Bool)) (answer : Bool)
      (row : ℕ)
      → ltb edge.round to.round ≡ false
      → same_vertex edge to ≡ false
      → row_of d edge.round ≡ some row
      → cell s row edge.source ≡ some false
      → set_cell s row edge.source true ≡ some s1
      → visit_edges d to edges s1 ≡ some (answer, (new, s'))
      → visit_edges d to (edge ∷ edges) s ≡ some (answer, (edge ∷ new, s'))
  unfolding visit_edges row_of
  visit_edges-mark edge edges new s s1 s' answer row high other e unseen set run =
      ground (arith, high, other, e, unseen, set, run)

  pub visit_edges-Visits :
      (edges : List Vertex) (s : List (List Bool))
      → ((e : Vertex) → Among e edges → InDag d e × ((b : Bool) × (slot d s e ≡ some b)))
      → (answer : Bool) × (new : List Vertex) × (s' : List (List Bool)) × (visit_edges d to edges s
          ≡ some (answer, (new, s')))
        × Visits d to edges new s s' answer
  visit_edges-Visits [] s known = (false, [], s, unfold visit_edges in refl, Visits-none s)
  visit_edges-Visits (edge ∷ edges) s known =
      let (in_edge, (b, held)) = known edge (inl refl) in
      let (row, e, marked) = >>=-eq-some (row_of d edge.round) (λ r. cell s r edge.source) held in
      elim (Bool-cases (ltb edge.round to.round)) [
        | inl low ↦
            let (answer, new, s', run, visits) =
              visit_edges-Visits edges s (λ e' m. known e' (inr m)) in
            (
              answer,
              new,
              s',
              visit_edges-low edge edges s low ∙ run,
              Visits-skip edge edges new s s' answer (λ above. absurd (ground (arith, low, above)))
                  visits,
            )
        | inr high ↦ elim (Bool-cases (same_vertex edge to)) [
          | inl same ↦ (
            true,
            [],
            s,
            visit_edges-hit edge edges s high same,
            Visits-hit edge edges s (ground (arith, high)) same,
          )
          | inr other ↦ elim (Bool-cases b) [
            | inl old ↦
                let (answer, new, s', run, visits) =
                  visit_edges-Visits edges s (λ e' m. known e' (inr m)) in
                (
                  answer,
                  new,
                  s',
                  visit_edges-seen edge edges s row high other e (rw (← old) marked) ∙ run,
                  Visits-skip edge edges new s s' answer (λ above. (other, rw (← old) held)) visits,
                )
            | inr new_ ↦
                let unseen : cell s row edge.source ≡ some false = rw (← new_) marked in
                let (s1, set) = set_cell-returns s row edge.source true false unseen in
                let (answer, new, s', run, visits) = visit_edges-Visits edges s1 (λ e' m.
                  let (in_e, (c, held')) = known e' (inr m) in
                  (in_e, slot-set_returns d s s1 true c edge e' row set held')) in
                (
                  answer,
                  edge ∷ new,
                  s',
                  visit_edges-mark edge edges new s s1 s' answer row high other e unseen set run,
                  Visits-mark edge edges new s s1 s' answer row e in_edge (ground (arith, high))
                      other unseen set visits,
                )
          ]
        ]
      ]
