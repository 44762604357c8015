-- ===== src/Log/Scc/Visit.antt =====
-- `strongconnect` keeps the invariant, never panics, and ends within the fuel.
use blsmr.Prelude.{
  ℕ, zero, suc, ◌≤◌, min, ◌≡◌, refl, ap, sym, subst, ◌∙◌, inl, inr, true, false, Option, some, List,
  [], ◌∷◌, ◌++◌, arith, contains, contains-append, Bool-cases, Option-cases, eqb, eqb_iff,
}
use mathlib.Core.List.{append_assoc}
use blsmr.Client.{CmdId, cmd_id_eq, cmd_id_beq_iff}
use blsmr.Map.{get}
use blsmr.Log.{CmdLog}
use blsmr.Log.Closure.{extend}
use blsmr.Log.Closure.Walk.{contains-extend}
use blsmr.Log.Scc.{
  State, deps_of, open_node, merge, close_node, visit_dep, visit_deps, strongconnect,
}
use blsmr.Log.Scc.Invariant.{Chain, along, is_indexed, is_edge, unindexed, IsWf, Visited, Visiting}
use blsmr.Log.Scc.Chains.{stack_back, component_back, component_reached, component_high}
use blsmr.Log.Scc.Nodes.{open_node-Visiting, close_scc-Visited}
use blsmr.Log.Scc.Settle.{unindexed_mono, unindexed_lt, lowered, Visiting_skip, Visiting_stacked}
use blsmr.Log.Scc.Calls.{Visiting_call}

merge_lem :
    (v : CmdId) (low m : ℕ) (s : State)
    → get v s.low_link ≡ some low
    → merge v m s ≡ some (lowered v (min low m) s)
unfolding merge
merge_lem v low m s e = rw e refl

module _ (log : CmdLog) (node_set : List CmdId) (floor : ℕ) where
  -- What is asked of the recursive call: from a node without an index it returns, as `Visited` says.
  abbrev Visits : ℕ → (CmdId → State → Option State) → Type 0
  Visits fuel visit =
      (w : CmdId) (s : State)
      → IsWf log node_set floor s
      → contains node_set w ≡ true
      → is_indexed s w ≡ false
      → unindexed log node_set s ≤ fuel
      → ((t : CmdId) → contains s.stack t ≡ true → Chain log node_set t w)
      → (s' : State) × (visit w s ≡ some s') × Visited log node_set floor w s s'

  visit_dep_lem :
      (fuel : ℕ) (visit : CmdId → State → Option State)
      → Visits fuel visit
      → (v w : CmdId) (s s' : State) (seen : List CmdId) → Visiting log node_set floor v s seen s'
      → unindexed log node_set s' ≤ fuel
      → contains (deps_of log v) w ≡ true
      → (s'' : State) × (visit_dep node_set visit v w s' ≡ some s'')
        × Visiting log node_set floor v s (w ∷ seen) s''
        × (unindexed log node_set s'' ≤ fuel)
  unfolding visit_dep
  visit_dep_lem fuel visit visits v w s s' seen x h dep = elim (Bool-cases (contains node_set w)) [
    | inr out ↦ (s', rw out refl, Visiting_skip log node_set floor v w s s' seen x (λ m. cc), h)
    | inl here ↦ elim (Option-cases (get w s'.index)) [
      | inl new ↦
          let edge : is_edge log node_set v w ≡ true = ground arith in
          let (s1, e, y) =
            visits w s' x.wf here (ground arith) h
              (λ t m. along (stack_back log node_set floor v s s' seen x t m) edge) in
          let call = Visiting_call log node_set floor v w s s' s1 seen x y edge in
          let low_v : get v s1.low_link ≡ some x.low =
            y.extends.low v (
              ap (λ l. contains l v) x.stack
              ∙ ground (arith, contains-append x.segment (v ∷ s.stack) v, cmd_id_beq_iff v v))
            ∙ x.low_eq in
          (
            lowered v (min x.low y.low) s1,
            rw (here, new, e, y.low_eq) (merge_lem v x.low y.low s1 low_v),
            call,
            omega (arith, unindexed_mono log node_set s' s1 y.extends.index),
          )
      | inr (i, old) ↦ elim (Bool-cases (contains s'.on_stack w)) [
        | inl on ↦
            let stacked : contains s'.stack w ≡ true = ground (arith, x.wf.on_stack w) in
            (
              lowered v (min x.low i) s',
              rw (here, old, on) (merge_lem v x.low i s' x.low_eq),
              Visiting_stacked log node_set floor v w i s s' seen x old stacked (ground arith),
              h,
            )
        | inr off ↦ (
          s',
          rw (here, old, off) refl,
          Visiting_skip log node_set floor v w s s' seen x
              (λ m. inl (ground (arith, x.wf.on_stack w, x.wf.indexed w))),
          h,
        )
      ]
    ]
  ]

  visit_deps_lem :
      (fuel : ℕ) (visit : CmdId → State → Option State)
      → Visits fuel visit
      → (v : CmdId) (s : State) (ws seen : List CmdId) (s' : State)
      → Visiting log node_set floor v s seen s'
      → unindexed log node_set s' ≤ fuel
      → ((w : CmdId) → contains ws w ≡ true → contains (deps_of log v) w ≡ true)
      → (s'' : State) × (visit_deps node_set visit v ws s' ≡ some s'')
        × Visiting log node_set floor v s (extend seen ws) s''
  unfolding visit_deps extend
  visit_deps_lem fuel visit visits v s [] seen s' x h deps = (s', refl, x)
  visit_deps_lem fuel visit visits v s (w ∷ ws) seen s' x h deps =
      let (s1, e, x1, h1) =
        visit_dep_lem fuel visit visits v w s s' seen x h
          (deps w (ground (arith, cmd_id_beq_iff w w))) in
      let (s2, e2, x2) =
        visit_deps_lem fuel visit visits v s ws (w ∷ seen) s1 x1 h1
          (λ u m. deps u (ground arith)) in
      (s2, rw e e2, x2)

  close_node-Visited :
      (v : CmdId) (s s' : State) (seen : List CmdId)
      → IsWf log node_set floor s
      → ((t : CmdId) → is_edge log node_set v t ≡ true → contains seen t ≡ true)
      → Visiting log node_set floor v s seen s'
      → (s'' : State) × (close_node v s' ≡ some s'') × Visited log node_set floor v s s''
  unfolding close_node
  close_node-Visited v s s' seen wf all_seen x = elim (Bool-cases (eqb x.low s.counter)) [
    | inl closing ↦
        let (s'', e, y) =
          close_scc-Visited log node_set floor v s s' seen wf all_seen x
            ((eqb_iff x.low s.counter).0 closing) in
        (s'', rw (x.low_eq, x.own, closing) e, y)
    | inr open_ ↦ (
      s',
      rw (x.low_eq, x.own, open_) refl,
      record {
        wf = x.wf;
        extends = x.extends;
        segment = x.segment ++ v ∷ [];
        stack = x.stack ∙ sym (append_assoc x.segment (v ∷ []) s.stack);
        low = x.low;
        low_eq = x.low_eq;
        own = x.own;
        low_le = x.low_le;
        floor_le = x.floor_le;
        shut = elim x.falls [
          | inl closing ↦ absurd (ground arith)
          | inr falls ↦ inr (ground (arith, x.low_le), falls)
        ];
        high = component_high log node_set floor v s s' seen x;
        reached = component_reached log node_set floor v s s' seen x;
        back = component_back log node_set floor v s s' seen x;
        settled = λ u t m e. elim (Bool-cases (contains x.segment u)) [
          | inl above_ ↦ x.settled u t above_ e
          | inr other ↦
              let same : v ≡ u =
                ground (arith, contains-append x.segment (v ∷ []) u, cmd_id_beq_iff v u) in
              let edge : is_edge log node_set v t ≡ true =
                subst (λ w. is_edge log node_set w t ≡ true) (sym same) e in
              x.own_settled t (all_seen t edge) (ground arith)
        ];
      },
    )
  ]

  -- A call at a node without an index returns, with fuel for the nodes without one.
  pub strongconnect_lem : (fuel : ℕ) → Visits fuel (strongconnect log node_set fuel)
  unfolding strongconnect
  strongconnect_lem zero v s wf here new h below = absurd (
      omega (
        arith,
        unindexed_lt log node_set s (open_node v s) v x.extends.index here new
            (ground (arith, x.own)),
      ))
    where
      x : Visiting log node_set floor v s [] (open_node v s)
      x = open_node-Visiting log node_set floor v s wf here new below
  strongconnect_lem (suc fuel) v s wf here new h below =
      let x = open_node-Visiting log node_set floor v s wf here new below in
      let fewer =
        unindexed_lt log node_set s (open_node v s) v x.extends.index here new
          (ground (arith, x.own)) in
      let (s1, e1, x1) =
        visit_deps_lem fuel (strongconnect log node_set fuel) (strongconnect_lem fuel) v s
          (deps_of log v) [] (open_node v s) x (omega arith) (λ w m. m) in
      let (s2, e2, y) =
        close_node-Visited v s s1 (extend [] (deps_of log v)) wf
          (λ t e. ground (arith, contains-extend [] (deps_of log v) t)) x1 in
      (s2, rw (e1, e2) refl, y)
