-- ===== src/Bullshark/Replica/Depth.antt =====
-- How deep the calls of `try_add_to_dag` and `broadcast_vertex` go.
use blsmr.Prelude.{
  ℕ, zero, suc, sym, ◌∙◌, ◌≡◌, refl, ap, inl, inr, Bool, true, ◌&&◌, Option, some, arith, ltb, leb,
  if◌then◌else◌, ◌>>=◌, Option-cases,
}
use blsmr.Host.{Host}
use blsmr.Bullshark.Dag.{Vertex, Dag, add_vertex, vertex}
use blsmr.Bullshark.Replica.{Run, quorum_reached_for_round, start_timer, create_vertex}
use blsmr.Bullshark.Replica.Advance.{
  attempt, broadcast_vertex, catch_up, enter, try_add_to_dag, reliably, all_known, settle, with_dag,
}

module _ (h : Host) (fresh : ℕ → ℕ) where
  abbrev Add : Type 0
  Add = Vertex → Run → Option (Run × Bool)

  -- The vertex that is made is of the given round, and the replica's round stays.
  pub create_vertex-round :
      (round : ℕ) (r r1 : Run) (v : Vertex)
      → create_vertex h fresh round r ≡ some (v, r1)
      → (v.round ≡ round) × (r1.state.round ≡ r.state.round) × (r1.effects ≡ r.effects)
  unfolding create_vertex
  create_vertex-round zero r r1 v e = absurd (cc e)
  create_vertex-round (suc below) r r1 v e = ground (arith, e)

  -- Adding a vertex that is not ahead makes no further call.
  catch_up-behind :
      (add other : Add) (v : Vertex) (r : Run)
      → leb v.round r.state.round ≡ true
      → catch_up h fresh add v r ≡ catch_up h fresh other v r
  unfolding catch_up
  catch_up-behind add other v r behind = ground (arith, behind)

  enter-cong :
      (add other : Add) (v : Vertex) (r : Run)
      → ((dag : Dag)
          → catch_up h fresh add v (with_dag h fresh dag r)
            ≡ catch_up h fresh other v (with_dag h fresh dag r))
      → enter h fresh add v r ≡ enter h fresh other v r
  unfolding enter
  enter-cong add other v r same = elim (Option-cases (add_vertex v r.state.dag)) [
    | inl e ↦ rw e refl
    | inr (dag, e) ↦ rw e (ap (λ o. o >>= settle h fresh v) (same dag))
  ]

  attempt-behind :
      (add other : Add) (v : Vertex) (r : Run)
      → leb v.round r.state.round ≡ true
      → attempt h fresh add v r ≡ attempt h fresh other v r
  unfolding attempt
  attempt-behind add other v r behind = ground (
    arith,
    enter-cong add other v r (λ dag. catch_up-behind add other v (with_dag h fresh dag r) behind),
    Option-cases (all_known r.heap r.state.dag v.strong_edges),
  )

  broadcast_vertex-same :
      (add other : Add) (round : ℕ) (r : Run)
      → leb round r.state.round ≡ true
      → broadcast_vertex h fresh (attempt h fresh add) round r
        ≡ broadcast_vertex h fresh (attempt h fresh other) round r
  unfolding broadcast_vertex
  broadcast_vertex-same add other round r behind =
      elim (Option-cases (create_vertex h fresh round r)) [
        | inl e ↦ rw e refl
        | inr ((v, r1), e) ↦
            let (own, same, _) = create_vertex-round round r r1 v e in
            rw e (
              ap (λ o. o >>= (λ (added : Run × Bool). some (reliably h fresh (vertex v) added.0)))
                (attempt-behind add other v r1 (rw (own, same) behind)))
      ]

  catch_up-same :
      (add other : Add) (v : Vertex) (r : Run)
      → catch_up h fresh (attempt h fresh add) v r ≡ catch_up h fresh (attempt h fresh other) v r
  unfolding catch_up start_timer
  catch_up-same add other v r =
      let ahead : Run =
        start_timer h fresh (record r { state = record r.state { round = v.round } }) in
      let behind : leb v.round v.round ≡ true = ground arith in
      let same = broadcast_vertex-same add other v.round ahead behind in
      elim (Option-cases (quorum_reached_for_round r.state v.round)) [
        | inl e ↦ rw e refl
        | inr (reached, e) ↦
            rw e (ap (λ o. if reached && ltb r.state.round v.round then o else some r) same)
      ]

  -- What the body does does not depend on the function that the calls two levels below it reach.
  attempt-depth :
      (add other : Add) (v : Vertex) (r : Run)
      → attempt h fresh (attempt h fresh add) v r ≡ attempt h fresh (attempt h fresh other) v r
  unfolding attempt
  attempt-depth add other v r = ground (
    arith,
    enter-cong (attempt h fresh add) (attempt h fresh other) v r
        (λ dag. catch_up-same add other v (with_dag h fresh dag r)),
    Option-cases (all_known r.heap r.state.dag v.strong_edges),
  )

  -- The calls of `try_add_to_dag` are never deeper than two: its body inside its body gives the same
  -- result whatever stands for the calls that the inner one makes, so it makes none, and the model's
  -- fuel of two is never used up. So any function that satisfies the recursive equation of
  -- `try_add_to_dag` is the model's function.
  pub try_add_to_dag-depth :
      (v : Vertex) (r : Run)
      → ((deeper : Add)
          → try_add_to_dag h fresh 2 v r ≡ attempt h fresh (attempt h fresh deeper) v r)
        × ((add : Add)
            → ((u : Vertex) (s : Run) → add u s ≡ attempt h fresh add u s)
            → add v r ≡ try_add_to_dag h fresh 2 v r)
  unfolding try_add_to_dag
  try_add_to_dag-depth v r = (
    λ deeper. attempt-depth (try_add_to_dag h fresh zero) deeper v r,
    λ add fixed.
        fixed v r
        ∙ ap (λ f. attempt h fresh f v r) (λ i. λ u s. fixed u s i)
        ∙ sym (attempt-depth (try_add_to_dag h fresh zero) add v r),
  )
