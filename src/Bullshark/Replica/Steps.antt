-- ===== src/Bullshark/Replica/Steps.antt =====
-- The vertices that a replica makes while it adds vertices and advances.
use blsmr.Prelude.{
  ℕ, suc, ◌+◌, ◌-◌, ◌%◌, ◌≤◌, ◌≡◌, refl, inl, inr, Bool, true, false, ◌&&◌, none, some, List, [],
  ◌∷◌, arith, eqb, ltb, leb, if◌then◌else◌, nat_eq, ◌>>=◌, >>=-eq-some, Option-cases, Bool-cases,
}
use blsmr.Client.{cmd_id_eq}
use blsmr.Host.{Host}
use blsmr.Bullshark.Dag.{Vertex, VertexType, vertex, genesis, add_vertex, index}
use blsmr.Bullshark.Replica.{
  Run, quorum_reached_for_round, get_anchor, bad_vertex, quorum_size, flatten,
}
use blsmr.Bullshark.Replica.Anchors.{votes_for}
use blsmr.Bullshark.Replica.Advance.{
  catch_up, settle, enter, with_dag, try_add_to_dag, try_advance_round,
}
use blsmr.Bullshark.Replica.Handlers.{
  retry, add_or_buffer, advance_in_wave, on_vertex, deliver, remove_commands,
}
use blsmr.Bullshark.Replica.Own.{IsOrderly, Same, IsOrderly-Same, settle-Same}
use blsmr.Bullshark.Replica.Tries.{try_add_to_dag-cases, advance-IsOrderly}

-- The vertices stay in order, and the round does not fall.
abbrev pub Keeps : Run → Run → Type 0
Keeps r r' = IsOrderly r → IsOrderly r' × (r.state.round ≤ r'.state.round)

pub Keeps-trans : (r r1 r2 : Run) → Keeps r r1 → Keeps r1 r2 → Keeps r r2
Keeps-trans r r1 r2 a b orderly =
    let (orderly1, up1) = a orderly in
    let (orderly2, up2) = b orderly1 in (orderly2, omega (arith, up1, up2))

pub Same-Keeps : (r r' : Run) → Same r r' → Keeps r r'
Same-Keeps r r' same orderly = (IsOrderly-Same r r' same orderly, omega (arith, same.1))

module _ (h : Host) (fresh : ℕ → ℕ) where
  catch_up-Keeps :
      (fuel : ℕ) (v : Vertex) (r r' : Run)
      → catch_up h fresh (try_add_to_dag h fresh (suc fuel)) v r ≡ some r'
      → Keeps r r'
  unfolding catch_up
  catch_up-Keeps fuel v r r' e = elim (Option-cases (quorum_reached_for_round r.state v.round)) [
    | inl none_ ↦ absurd (ground (arith, e, none_))
    | inr (reached, e1) ↦ elim (Bool-cases (reached && ltb r.state.round v.round)) [
      | inl ahead ↦
          advance-IsOrderly h fresh fuel v.round r r' (ground (arith, ahead))
            (ground (arith, e, e1, ahead))
      | inr behind ↦
          let same : r ≡ r' = ground (arith, e, e1, behind) in
          Same-Keeps r r' (rw (← same) (refl, refl))
    ]
  ]

  try_add_to_dag-Keeps :
      (v : Vertex) (r r' : Run) (b : Bool)
      → try_add_to_dag h fresh 2 v r ≡ some (r', b)
      → Keeps r r'
  unfolding enter
  try_add_to_dag-Keeps v r r' b e = elim (try_add_to_dag-cases h fresh 1 v r r' b e) [
    | inl same ↦ Same-Keeps r r' same
    | inr entered ↦
        let add = try_add_to_dag h fresh 1 in
        let (dag, e1, e2) =
          >>=-eq-some (add_vertex v r.state.dag)
            (λ dag. catch_up h fresh add v (with_dag h fresh dag r) >>= settle h fresh v) entered in
        let (r1, e3, e4) =
          >>=-eq-some (catch_up h fresh add v (with_dag h fresh dag r)) (settle h fresh v) e2 in
        let start = with_dag h fresh dag r in
        Keeps-trans r start r' (Same-Keeps r start (refl, refl)) (
          Keeps-trans start r1 r' (catch_up-Keeps 0 v start r1 e3)
            (Same-Keeps r1 r' (settle-Same h fresh v r1 r' b e4)))
  ]

  pub try_advance_round-Keeps : (r r' : Run) → try_advance_round h fresh r ≡ some r' → Keeps r r'
  unfolding try_advance_round
  try_advance_round-Keeps r r' e =
      elim (Option-cases (quorum_reached_for_round r.state r.state.round)) [
        | inl none_ ↦ absurd (ground (arith, e, none_))
        | inr (true, e1) ↦
            advance-IsOrderly h fresh 1 (r.state.round + 1) r r' (omega arith)
              (ground (arith, e, e1))
        | inr (false, e1) ↦
            let same : r ≡ r' = ground (arith, e, e1) in Same-Keeps r r' (rw (← same) (refl, refl))
      ]

  retry-Keeps : (vs : List Vertex) (r r' : Run) → retry h fresh vs r ≡ some r' → Keeps r r'
  unfolding retry
  retry-Keeps [] r r' e =
      let same : r ≡ r' = ground (arith, e) in Same-Keeps r r' (rw (← same) (refl, refl))
  retry-Keeps (v ∷ vs) r r' e =
      let ((r1, b), e1, e2) =
        >>=-eq-some (try_add_to_dag h fresh 2 v r)
          (λ (added : Run × Bool). retry h fresh vs added.0) e in
      Keeps-trans r r1 r' (try_add_to_dag-Keeps v r r1 b e1) (retry-Keeps vs r1 r' e2)

  add_or_buffer-Keeps : (v : Vertex) (r r' : Run) → add_or_buffer h fresh v r ≡ some r' → Keeps r r'
  unfolding add_or_buffer
  add_or_buffer-Keeps v r r' e = elim (Option-cases (retry h fresh r.state.buffer r)) [
    | inl none_ ↦ absurd (ground (arith, e, none_))
    | inr (r1, e1) ↦ elim (Option-cases (try_add_to_dag h fresh 2 v r1)) [
      | inl none_ ↦ absurd (ground (arith, e, e1, none_))
      | inr ((r2, b), e2) ↦
          let same : Same r2 r' = (ground (arith, e, e1, e2), ground (arith, e, e1, e2)) in
          Keeps-trans r r1 r' (retry-Keeps r.state.buffer r r1 e1)
            (Keeps-trans r1 r2 r' (try_add_to_dag-Keeps v r1 r2 b e2) (Same-Keeps r2 r' same))
    ]
  ]

  -- A test, then the round advances or nothing happens.
  pub advance-if :
      (b : Bool) (r r' : Run)
      → (if b then try_advance_round h fresh r else some r) ≡ some r'
      → Keeps r r'
  advance-if true r r' e = try_advance_round-Keeps r r' e
  advance-if false r r' e =
      let same : r ≡ r' = ground (arith, e) in Same-Keeps r r' (rw (← same) (refl, refl))

  advance_in_wave-Keeps : (r r' : Run) → advance_in_wave h fresh r ≡ some r' → Keeps r r'
  unfolding advance_in_wave
  advance_in_wave-Keeps r r' e = elim (Bool-cases (eqb (r.state.round % 2) 0)) [
    | inl even ↦ elim (Option-cases (get_anchor r.state r.state.round)) [
      | inl none_ ↦ absurd (ground (arith, e, even, none_))
      | inr (none, e1) ↦ advance-if false r r' (ground (arith, e, even, e1))
      | inr (some anchor, e1) ↦ advance-if true r r' (ground (arith, e, even, e1))
    ]
    | inr odd ↦ elim (Option-cases (get_anchor r.state (r.state.round - 1))) [
      | inl none_ ↦ absurd (ground (arith, e, odd, none_))
      | inr (none, e1) ↦ advance-if false r r' (ground (arith, e, odd, e1))
      | inr (some anchor, e1) ↦ elim (Option-cases (index r.state.dag r.state.round)) [
        | inl none_ ↦ absurd (ground (arith, e, odd, e1, none_))
        | inr (row, e2) ↦
            let test = leb (quorum_size r.state.proc_num) (votes_for anchor (flatten row)) in
            advance-if test r r' (ground (arith, e, odd, e1, e2))
      ]
    ]
  ]

  on_vertex-Keeps :
      (from : ℕ) (v : Vertex) (r r' : Run) → on_vertex h fresh from v r ≡ some r' → Keeps r r'
  unfolding on_vertex
  on_vertex-Keeps from v r r' e =
      let start : Run = record r {
        state = record r.state {
          pending_commands = remove_commands v.commands r.state.pending_commands;
        };
      } in
      elim (Bool-cases (bad_vertex r.state v from)) [
        | inl bad ↦ advance-if false r r' (ground (arith, e, bad))
        | inr good ↦ elim (Option-cases (add_or_buffer h fresh v start)) [
          | inl none_ ↦ absurd (ground (arith, e, good, none_))
          | inr (r1, e1) ↦ Keeps-trans r start r' (Same-Keeps r start (refl, refl)) (
              Keeps-trans start r1 r' (add_or_buffer-Keeps v start r1 e1)
                (elim (Bool-cases (eqb r1.state.round v.round)) [
                  | inr other ↦ advance-if false r1 r' (ground (arith, e, good, e1, other))
                  | inl same ↦ elim (Bool-cases r1.state.wait) [
                    | inl waits ↦
                        advance_in_wave-Keeps r1 r' (ground (arith, e, good, e1, same, waits))
                    | inr hurries ↦
                        advance-if true r1 r' (ground (arith, e, good, e1, same, hurries))
                  ]
                ]))
        ]
      ]

  pub deliver-Keeps :
      (from : ℕ) (typ : VertexType) (r r' : Run) → deliver h fresh from typ r ≡ some r' → Keeps r r'
  unfolding deliver
  deliver-Keeps from (genesis v) r r' e = elim (Option-cases (add_vertex v r.state.dag)) [
    | inl none_ ↦ absurd (ground (arith, e, none_))
    | inr (dag, e1) ↦
        let start : Run = record r { state = record r.state { dag = dag } } in
        Keeps-trans r start r' (Same-Keeps r start (refl, refl))
          (try_advance_round-Keeps start r' (ground (arith, e, e1)))
  ]
  deliver-Keeps from (vertex v) r r' e = on_vertex-Keeps from v r r' e
