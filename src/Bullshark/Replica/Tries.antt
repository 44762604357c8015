-- ===== src/Bullshark/Replica/Tries.antt =====
-- What one attempt to add a vertex, and entering a round, broadcast.
use blsmr.Prelude.{
  ℕ, suc, ◌-◌, ◌≤◌, ◌<◌, ◌≡◌, refl, sym, ap, ◌∙◌, subst, ◌⊎◌, inl, inr, Bool, true, false, Option,
  some, [], ◌∷◌, ◌++◌, arith, ltb, leb, ◌>>=◌, >>=-eq-some, Option-cases, Bool-cases,
}
use blsmr.Host.{Host}
use blsmr.Hotstuff.Ballots.{Ascending, Ascending-snoc, AllWithin-snoc}
use blsmr.Bullshark.Dag.{Vertex, vertex, add_vertex, min_round, current_max_allocated_round}
use blsmr.Bullshark.Replica.{Run, quorum_reached_for_round, start_timer, create_vertex}
use blsmr.Bullshark.Replica.Advance.{
  reliably, broadcast_vertex, catch_up, settle, enter, with_dag, unbuffer, all_known,
  try_add_to_dag,
}
use blsmr.Bullshark.Replica.Depth.{create_vertex-round}
use blsmr.Bullshark.Replica.Own.{
  rounds_of, IsOrderly, Same, Same-trans, reliably-rounds, start_timer-Same, settle-Same,
}

module _ (h : Host) (fresh : ℕ → ℕ) where
  -- Adding a vertex that is not ahead broadcasts no vertex.
  catch_up-Same :
      (add : Vertex → Run → Option (Run × Bool)) (v : Vertex) (r r' : Run)
      → leb v.round r.state.round ≡ true
      → catch_up h fresh add v r ≡ some r'
      → Same r r'
  unfolding catch_up
  catch_up-Same add v r r' behind e =
      elim (Option-cases (quorum_reached_for_round r.state v.round)) [
        | inl none_ ↦ absurd (ground (arith, e, none_))
        | inr (reached, e1) ↦
            let same : r ≡ r' = ground (arith, e, e1, behind) in rw (← same) (refl, refl)
      ]

  enter-Same :
      (add : Vertex → Run → Option (Run × Bool)) (v : Vertex) (r r' : Run) (b : Bool)
      → leb v.round r.state.round ≡ true
      → enter h fresh add v r ≡ some (r', b)
      → Same r r'
  unfolding enter
  enter-Same add v r r' b behind e =
      let (dag, e1, e2) =
        >>=-eq-some (add_vertex v r.state.dag)
          (λ dag. catch_up h fresh add v (with_dag h fresh dag r) >>= settle h fresh v) e in
      let (r1, e3, e4) =
        >>=-eq-some (catch_up h fresh add v (with_dag h fresh dag r)) (settle h fresh v) e2 in
      Same-trans r r1 r' (catch_up-Same add v (with_dag h fresh dag r) r1 behind e3)
        (settle-Same h fresh v r1 r' b e4)

  -- The ways in which `try_add_to_dag` returns.
  pub try_add_to_dag-cases :
      (fuel : ℕ) (v : Vertex) (r r' : Run) (b : Bool)
      → try_add_to_dag h fresh (suc fuel) v r ≡ some (r', b)
      → Same r r' ⊎ (enter h fresh (try_add_to_dag h fresh fuel) v r ≡ some (r', b))
  unfolding try_add_to_dag
  try_add_to_dag-cases fuel v r r' b e = elim (Bool-cases (leb v.round (min_round r.state.dag))) [
    | inl old ↦
        let same : unbuffer h fresh v r ≡ r' = ground (arith, e, old) in
        inl (rw (← same) (refl, refl))
    | inr new ↦ elim (Option-cases (all_known r.heap r.state.dag v.strong_edges)) [
      | inl none_ ↦
          let same : r ≡ r' = ground (arith, e, new, none_) in inl (rw (← same) (refl, refl))
      | inr (true, known) ↦
          elim (Bool-cases (ltb (current_max_allocated_round r.state.dag) (v.round - 1))) [
            | inl far ↦
                let same : r ≡ r' = ground (arith, e, new, far) in inl (rw (← same) (refl, refl))
            | inr near ↦ inr (ground (arith, e, new, near, known))
          ]
      | inr (false, known) ↦
          let same : r ≡ r' = ground (arith, e, new, known) in inl (rw (← same) (refl, refl))
    ]
  ]

  try_add_to_dag-Same :
      (fuel : ℕ) (v : Vertex) (r r' : Run) (b : Bool)
      → leb v.round r.state.round ≡ true
      → try_add_to_dag h fresh (suc fuel) v r ≡ some (r', b)
      → Same r r'
  try_add_to_dag-Same fuel v r r' b behind e = elim (try_add_to_dag-cases fuel v r r' b e) [
    | inl same ↦ same
    | inr entered ↦ enter-Same (try_add_to_dag h fresh fuel) v r r' b behind entered
  ]

  -- The vertex that is broadcast for a round is the only one.
  broadcast_vertex-rounds :
      (fuel round : ℕ) (r r' : Run)
      → leb round r.state.round ≡ true
      → broadcast_vertex h fresh (try_add_to_dag h fresh (suc fuel)) round r ≡ some r'
      → (rounds_of r'.effects ≡ rounds_of r.effects ++ round ∷ [])
        × (r'.state.round ≡ r.state.round)
  unfolding broadcast_vertex
  broadcast_vertex-rounds fuel round r r' behind e =
      let add = try_add_to_dag h fresh (suc fuel) in
      let ((v, r1), e1, e2) =
        >>=-eq-some (create_vertex h fresh round r)
          (λ (made : Vertex × Run).
            add made.0 made.1
            >>= (λ (added : Run × Bool). some (reliably h fresh (vertex made.0) added.0)))
          e in
      let ((r2, b), e3, e4) =
        >>=-eq-some (add v r1) (λ (added : Run × Bool). some (reliably h fresh (vertex v) added.0))
          e2 in
      let (own, kept, told) = create_vertex-round h fresh round r r1 v e1 in
      let same = try_add_to_dag-Same fuel v r1 r2 b (rw (own, kept) behind) e3 in
      let last : reliably h fresh (vertex v) r2 ≡ r' = ground (arith, e4) in
      let (sent, stays) = reliably-rounds h fresh (vertex v) r2 in
      (rw (← last) (sent ∙ rw (same.0, told, own) refl), rw (← last) (stays ∙ same.1 ∙ kept))

  -- Entering a later round and broadcasting its vertex.
  pub advance-IsOrderly :
      (fuel round : ℕ) (r r' : Run)
      → r.state.round < round
      → broadcast_vertex h fresh
          (try_add_to_dag h fresh (suc fuel))
          round
          (start_timer h fresh (record r { state = record r.state { round = round } }))
        ≡ some r'
      → IsOrderly r
      → IsOrderly r' × (r.state.round ≤ r'.state.round)
  unfolding start_timer
  advance-IsOrderly fuel round r r' later e orderly =
      let entered : Run =
        start_timer h fresh (record r { state = record r.state { round = round } }) in
      let quiet =
        start_timer-Same h fresh (record r { state = record r.state { round = round } }) in
      let (told, stays) = broadcast_vertex-rounds fuel round entered r' (ground arith) e in
      let all_told : rounds_of r'.effects ≡ rounds_of r.effects ++ round ∷ [] =
        told ∙ ap (λ l. l ++ round ∷ []) quiet.0 in
      (
        record {
          ascending =
              subst (λ l. Ascending l) (sym all_told)
                (Ascending-snoc r.state.round round (rounds_of r.effects) orderly.within
                  orderly.ascending later);
          within =
              rw (all_told, stays)
                (AllWithin-snoc r.state.round round (rounds_of r.effects) orderly.within
                  (omega (arith, later)));
        },
        omega (arith, later, stays),
      )
