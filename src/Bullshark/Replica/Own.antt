-- ===== src/Bullshark/Replica/Own.antt =====
-- The rounds of the vertices that a replica makes and broadcasts.
use mathlib.Core.List.{append-nil, append_assoc}
use blsmr.Prelude.{
  ℕ, zero, suc, ◌+◌, ◌-◌, ◌≡◌, refl, sym, ap, ◌∙◌, subst, inl, inr, Bool, none, some, List, [], ◌∷◌,
  ◌++◌, arith, if◌then◌else◌, Option-cases,
}
use blsmr.Host.{Host}
use blsmr.Effect.{Effect, send, broadcast, timer}
use blsmr.Hotstuff.Ballots.{Ascending, AllWithin}
use blsmr.Bullshark.Broadcast.{initiate, signature, certificate, reliably_broadcast}
use blsmr.Bullshark.Dag.{Vertex, VertexType, vertex, genesis, path_exists}
use blsmr.Bullshark.Replica.{
  Bullshark, Run, Packet, submission, bcb, start_timer, get_leader_id, get_anchor,
}
use blsmr.Bullshark.Replica.Anchors.{
  try_ordering, order_anchors, collect_anchors, order_all, upgrade_all,
}
use blsmr.Bullshark.Replica.Advance.{reliably, settle, unbuffer}

-- The round of a vertex that is not a genesis vertex.
abbrev pub round_of : VertexType → List ℕ
round_of (vertex v) = v.round ∷ []
round_of (genesis v) = []

abbrev pub round_in : Effect Packet → List ℕ
round_in (broadcast (bcb (initiate id m))) = round_of m.typ
round_in (broadcast (bcb (signature id))) = []
round_in (broadcast (bcb (certificate n id))) = []
round_in (broadcast (submission c)) = []
round_in (send to m) = []
round_in (timer delay id) = []

-- The rounds of the vertices that are broadcast.
abbrev pub rounds_of : List (Effect Packet) → List ℕ
rounds_of [] = []
rounds_of (e ∷ effects) = round_in e ++ rounds_of effects

pub rounds_of-append :
    (xs ys : List (Effect Packet)) → rounds_of (xs ++ ys) ≡ rounds_of xs ++ rounds_of ys
rounds_of-append [] ys = refl
rounds_of-append (x ∷ xs) ys =
    ap (λ l. round_in x ++ l) (rounds_of-append xs ys)
    ∙ sym (append_assoc (round_in x) (rounds_of xs) (rounds_of ys))

pub rounds_of-quiet :
    (xs ys : List (Effect Packet)) → rounds_of ys ≡ [] → rounds_of (xs ++ ys) ≡ rounds_of xs
rounds_of-quiet xs ys e =
    rounds_of-append xs ys ∙ ap (λ l. rounds_of xs ++ l) e ∙ append-nil (rounds_of xs)

-- The rounds of the replica's vertices ascend strictly, up to its round.
pub record IsOrderly (r : Run) : Type 0 where
  pub ascending : Ascending (rounds_of r.effects)
  pub within : AllWithin r.state.round (rounds_of r.effects)

-- The same vertices were broadcast, in the same round.
abbrev pub Same : Run → Run → Type 0
Same r r' = (rounds_of r'.effects ≡ rounds_of r.effects) × (r'.state.round ≡ r.state.round)

pub IsOrderly-Same : (r r' : Run) → Same r r' → IsOrderly r → IsOrderly r'
IsOrderly-Same r r' (told, round) orderly = record {
  ascending = subst (λ l. Ascending l) (sym told) orderly.ascending;
  within = rw (told, round) orderly.within;
}

pub Same-trans : (r r1 r2 : Run) → Same r r1 → Same r1 r2 → Same r r2
Same-trans r r1 r2 a b = (b.0 ∙ a.0, b.1 ∙ a.1)

module _ (h : Host) (fresh : ℕ → ℕ) where
  pub reliably-rounds :
      (typ : VertexType) (r : Run)
      → (rounds_of (reliably h fresh typ r).effects ≡ rounds_of r.effects ++ round_of typ)
        × ((reliably h fresh typ r).state.round ≡ r.state.round)
  unfolding reliably reliably_broadcast
  reliably-rounds typ r = (
    rounds_of-append r.effects _ ∙ ap (λ l. rounds_of r.effects ++ l) (append-nil (round_of typ)),
    refl,
  )

  pub start_timer-Same : (r : Run) → Same r (start_timer h fresh r)
  unfolding start_timer
  start_timer-Same r = (rounds_of-quiet r.effects _ refl, refl)

  collect_anchors-round :
      (fuel round : ℕ) (r : Run) (anchor : Vertex) (s s' : Bullshark)
      → collect_anchors r.heap fuel anchor round s ≡ some s'
      → s'.round ≡ s.round
  unfolding collect_anchors
  collect_anchors-round zero round r anchor s s' e = absurd (cc e)
  collect_anchors-round (suc fuel) round r anchor s s' e =
      elim (Option-cases (get_anchor s round)) [
        | inl none_ ↦ ground (arith, e, none_)
        | inr (none, e1) ↦
            ground (arith, e, e1, collect_anchors-round fuel (round - 2) r anchor s s')
        | inr (some previous, e1) ↦ elim (Option-cases (path_exists r.heap anchor previous s.dag)) [
          | inl none_ ↦ ground (arith, e, e1, none_)
          | inr ((found, dag), e2) ↦ ground (
            arith,
            e,
            e1,
            e2,
            collect_anchors-round fuel (round - 2) r (if found then previous else anchor)
                (record s {
                  dag = dag;
                  ordered_anchors =
                      if found then previous ∷ s.ordered_anchors else s.ordered_anchors;
                })
                s',
          )
        ]
      ]

  order_anchors-Same : (v : Vertex) (r r' : Run) → order_anchors h v r ≡ some r' → Same r r'
  unfolding order_anchors
  order_anchors-Same v r r' e =
      let start : Bullshark = record r.state { ordered_anchors = v ∷ r.state.ordered_anchors } in
      elim (Option-cases (collect_anchors r.heap (v.round + 1) v (v.round - 2) start)) [
        | inl none_ ↦ absurd (ground (arith, e, none_))
        | inr (s, e1) ↦
            elim (Option-cases (order_all h r.heap s.ordered_anchors (s.dag, r.ledger))) [
              | inl none_ ↦ absurd (ground (arith, e, e1, none_))
              | inr ((dag, l), e2) ↦
                  let round = collect_anchors-round (v.round + 1) (v.round - 2) r v start s e1 in
                  (ground (arith, e, e1, e2), ground (arith, e, e1, e2, round))
            ]
      ]

  try_ordering-Same : (v : Vertex) (r r' : Run) → try_ordering h v r ≡ some r' → Same r r'
  unfolding try_ordering
  try_ordering-Same v r r' e = elim (Option-cases (get_anchor r.state (v.round - 2))) [
    | inl none_ ↦ (ground (arith, e, none_), ground (arith, e, none_))
    | inr (none, e1) ↦ (ground (arith, e, e1), ground (arith, e, e1))
    | inr (some anchor, e1) ↦ elim (Option-cases (upgrade_all r.heap v.strong_edges)) [
      | inl none_ ↦ (ground (arith, e, e1, none_), ground (arith, e, e1, none_))
      | inr (voters, e2) ↦
          let same = order_anchors-Same anchor r r' in
          (ground (arith, e, e1, e2, same), ground (arith, e, e1, e2, same))
    ]
  ]

  pub settle-Same :
      (v : Vertex) (r r' : Run) (b : Bool) → settle h fresh v r ≡ some (r', b) → Same r r'
  unfolding settle
  settle-Same v r r' b e =
      let r1 : Run = unbuffer h fresh v r in
      elim (Option-cases (get_leader_id r1.state v.round)) [
        | inl none_ ↦ absurd (ground (arith, e, none_))
        | inr (leader, e1) ↦ elim (Option-cases (try_ordering h v r1)) [
          | inl none_ ↦ (ground (arith, e, e1, none_), ground (arith, e, e1, none_))
          | inr (r2, e2) ↦
              let same = try_ordering-Same v r1 r2 e2 in
              (ground (arith, e, e1, e2, same.0), ground (arith, e, e1, e2, same.1))
        ]
      ]
