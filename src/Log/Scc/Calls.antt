-- ===== src/Log/Scc/Calls.antt =====
-- How a recursive call of `strongconnect` that returned acts on the invariant.
use blsmr.Prelude.{
  ℕ, ◌<◌, ◌≤◌, min, ◌≡◌, ap, sym, subst, ◌∙◌, ◌⊎◌, inl, inr, true, some, List, ◌∷◌, ◌++◌, arith,
  contains, contains-append, Bool-cases, Option-cases,
}
use mathlib.Core.List.{append_assoc}
use blsmr.Client.{CmdId, cmd_id_eq, cmd_id_beq_iff}
use blsmr.Map.{get, insert, get-insert}
use blsmr.Log.{CmdLog}
use blsmr.Log.Scc.{State}
use blsmr.Log.Scc.Invariant.{
  Chain, stay, along, Chain-trans, Falls, is_edge, emitted, Settled, Visited, Visiting,
}
use blsmr.Log.Scc.Chains.{stack_back, stack_low, Falls-min}
use blsmr.Log.Scc.Settle.{lowered, Settled-later, Settled-lower, IsWf-low_link}

module _ (log : CmdLog) (node_set : List CmdId) (floor : ℕ) where
  -- A call at `w` has returned, and the low link of `v` takes its low link into account.
  pub Visiting_call :
      (v w : CmdId) (s s' s'' : State) (seen : List CmdId)
      → (x : Visiting log node_set floor v s seen s') → (y : Visited log node_set floor w s' s'')
      → is_edge log node_set v w ≡ true
      → Visiting log node_set floor v s (w ∷ seen) (lowered v (min x.low y.low) s'')
  Visiting_call v w s s' s'' seen x y edge =
      let low : ℕ = min x.low y.low in
      let here : contains s'.stack v ≡ true =
        ap (λ l. contains l v) x.stack
        ∙ ground (arith, contains-append x.segment (v ∷ s.stack) v, cmd_id_beq_iff v v) in
      let kept : (u : CmdId) → contains s.stack u ≡ true → contains s'.stack u ≡ true = λ u m.
        ap (λ l. contains l u) x.stack
        ∙ ground (arith, contains-append x.segment (v ∷ s.stack) u) in
      record {
        wf = IsWf-low_link log node_set floor s'' (insert v low s''.low_link) y.wf;
        extends = record {
          index = λ u i e. y.extends.index u i (x.extends.index u i e);
          low = λ u m. ground (
            arith,
            get-insert u v low s''.low_link,
            cmd_id_beq_iff v u,
            x.new,
            x.extends.low u m,
            y.extends.low u (kept u m),
          );
          emits = λ u e. y.extends.emits u (x.extends.emits u e);
        };
        new = x.new;
        segment = y.segment ++ x.segment;
        stack =
            y.stack
            ∙ ap (◌++◌ y.segment) x.stack
            ∙ sym (append_assoc y.segment x.segment (v ∷ s.stack));
        low = low;
        low_eq = ground (arith, get-insert v v low s''.low_link, cmd_id_beq_iff v v);
        own = y.extends.index v s.counter x.own;
        low_le = omega (arith, x.low_le);
        floor_le = omega (arith, x.floor_le, y.floor_le);
        settled = λ u t m e. elim (Bool-cases (contains y.segment u)) [
          | inl above_ ↦
              Settled-lower log node_set floor s'' y.low low t (omega arith)
                (y.settled u t above_ e)
          | inr other ↦
              Settled-later log node_set floor w s' s'' x.low low t y (omega arith)
                (x.settled u t (ground (arith, contains-append y.segment x.segment u)) e)
        ];
        below = x.below;
        falls = Falls-min log node_set v s s'' x.low y.low later_falls called_falls;
        high = λ u i m e. elim (Bool-cases (contains y.segment u)) [
          | inl above_ ↦ omega (arith, y.high u i above_ e, x.wf.fresh v s.counter x.own)
          | inr other ↦
              let old : contains x.segment u ≡ true =
                ground (arith, contains-append y.segment x.segment u) in
              kept_high u i old e
        ];
        reached = λ u m. elim (Bool-cases (contains y.segment u)) [
          | inl above_ ↦ Chain-trans log node_set (along stay edge) (y.reached u above_)
          | inr other ↦ x.reached u (ground (arith, contains-append y.segment x.segment u))
        ];
        back = λ u m. elim (Bool-cases (contains y.segment u)) [
          | inl above_ ↦ called_back u above_
          | inr other ↦ x.back u (ground (arith, contains-append y.segment x.segment u))
        ];
        own_settled = λ t m n. elim (Bool-cases (cmd_id_eq.beq w t)) [
          | inl e ↦
              subst (λ u. Settled log node_set s'' low u) ((cmd_id_beq_iff w t).0 e)
                (settled_self y (omega arith))
          | inr e ↦
              Settled-later log node_set floor w s' s'' x.low low t y (omega arith)
                (x.own_settled t (ground arith) n)
        ];
      }
    where
      later_falls : (x.low ≡ s.counter) ⊎ Falls log node_set v s s'' x.low
      later_falls = elim x.falls [
        | inl e ↦ inl e
        | inr (t, m, e, c) ↦ inr (t, m, y.extends.index t x.low e, c)
      ]

      -- What was indexed keeps its index, which is not below the counter of the call at `v`.
      kept_high :
          (u : CmdId) (i : ℕ)
          → contains x.segment u ≡ true
          → get u s''.index ≡ some i
          → s.counter ≤ i
      kept_high u i m e = elim (Option-cases (get u s'.index)) [
        | inl none_ ↦
            let on : contains s'.stack u ≡ true =
              ap (λ l. contains l u) x.stack
              ∙ ground (arith, contains-append x.segment (v ∷ s.stack) u) in
            absurd (ground (arith, x.wf.indexed u))
        | inr (j, some_) ↦ ground (arith, y.extends.index u j some_, x.high u j m some_)
      ]

      called_falls : y.low < x.low → Falls log node_set v s s'' y.low
      called_falls lt = elim y.shut [
        | inl (_, same) ↦ absurd (omega (arith, x.low_le, x.wf.fresh v s.counter x.own))
        | inr (_, (t, m, e, c)) ↦ (
          t,
          elim (Option-cases (get t s'.index)) [
            | inl none_ ↦ absurd (ground (arith, x.wf.indexed t))
            | inr (j, some_) ↦
                let same : j ≡ y.low = ground (arith, y.extends.index t j some_) in
                stack_low log node_set floor v s s' seen x t j m some_ (omega (arith, x.low_le))
          ],
          e,
          Chain-trans log node_set (along stay edge) c,
        )
      ]

      called_back : (u : CmdId) → contains y.segment u ≡ true → Chain log node_set u v
      called_back u m = elim y.shut [
        | inl (empty, _) ↦ absurd (cc (ap (λ l. contains l u) empty, m))
        | inr (_, (t, on, e, c)) ↦
            Chain-trans log node_set (y.back u m)
              (Chain-trans log node_set c (stack_back log node_set floor v s s' seen x t on))
      ]

      settled_self :
          (y : Visited log node_set floor w s' s'')
          → {low : ℕ} → low ≤ y.low
          → Settled log node_set s'' low w
      settled_self y h = elim (Bool-cases (emitted s'' w)) [
        | inl e ↦ inl e
        | inr e ↦
            inr (s'.counter, y.own, omega (arith, y.low_le), ground (arith, y.wf.indexed w, y.own))
      ]
