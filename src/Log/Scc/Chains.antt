-- ===== src/Log/Scc/Chains.antt =====
-- What leads where inside a call of `strongconnect`.
use blsmr.Prelude.{
  ℕ, ◌<◌, ◌≤◌, min, ◌≡◌, ap, subst, sym, ◌∙◌, ◌⊎◌, inl, inr, true, some, List, [], ◌∷◌, ◌++◌, arith,
  contains, contains-append, leb, Bool-cases,
}
use blsmr.Client.{CmdId, cmd_id_eq, cmd_id_beq_iff}
use blsmr.Map.{get}
use blsmr.Log.{CmdLog}
use blsmr.Log.Scc.{State}
use blsmr.Log.Scc.Invariant.{Chain, stay, Falls, Visiting}

module _ (log : CmdLog) (node_set : List CmdId) (floor : ℕ) (v : CmdId) (s s' : State)
    (seen : List CmdId) (x : Visiting log node_set floor v s seen s') where
  -- The commands above the old stack are `v` and those that it leads to and that lead to it.
  pub component_reached :
      (u : CmdId) → contains (x.segment ++ v ∷ []) u ≡ true → Chain log node_set v u
  component_reached u m = elim (Bool-cases (contains x.segment u)) [
    | inl above_ ↦ x.reached u above_
    | inr other ↦
        let same : v ≡ u =
          ground (arith, contains-append x.segment (v ∷ []) u, cmd_id_beq_iff v u) in
        subst (Chain log node_set v) same stay
  ]

  pub component_back :
      (u : CmdId) → contains (x.segment ++ v ∷ []) u ≡ true → Chain log node_set u v
  component_back u m = elim (Bool-cases (contains x.segment u)) [
    | inl above_ ↦ x.back u above_
    | inr other ↦
        let same : v ≡ u =
          ground (arith, contains-append x.segment (v ∷ []) u, cmd_id_beq_iff v u) in
        subst (λ w. Chain log node_set w v) same stay
  ]

  pub component_high :
      (u : CmdId) (i : ℕ)
      → contains (x.segment ++ v ∷ []) u ≡ true
      → get u s'.index ≡ some i
      → s.counter ≤ i
  component_high u i m e = elim (Bool-cases (contains x.segment u)) [
    | inl above_ ↦ x.high u i above_ e
    | inr other ↦
        let same : v ≡ u =
          ground (arith, contains-append x.segment (v ∷ []) u, cmd_id_beq_iff v u) in
        let own : get u s'.index ≡ some s.counter =
          subst (λ w. get w s'.index ≡ some s.counter) same x.own in
        ground arith
  ]

  stacked :
      (t : CmdId)
      → contains s'.stack t ≡ true
      → (contains (x.segment ++ v ∷ []) t ≡ true) ⊎ (contains s.stack t ≡ true)
  stacked t m =
      let all : contains (x.segment ++ v ∷ s.stack) t ≡ true =
        sym (ap (λ l. contains l t) x.stack) ∙ m in
      ground
        (arith, contains-append x.segment (v ∷ s.stack) t, contains-append x.segment (v ∷ []) t)

  -- Every command on the stack leads to `v`.
  pub stack_back : (t : CmdId) → contains s'.stack t ≡ true → Chain log node_set t v
  stack_back t m = elim (stacked t m) [
    | inl above_ ↦ component_back t above_
    | inr old ↦ x.below t old
  ]

  -- A command on the stack with an index from before the call was on the old stack.
  pub stack_low :
      (t : CmdId) (i : ℕ)
      → contains s'.stack t ≡ true
      → get t s'.index ≡ some i
      → i < s.counter
      → contains s.stack t ≡ true
  stack_low t i m e lt = elim (stacked t m) [
    | inl above_ ↦ absurd (omega (arith, component_high t i above_ e))
    | inr old ↦ old
  ]

-- The smaller of two low links.
pub Falls-min :
    (log : CmdLog) (node_set : List CmdId) (v : CmdId) (s s' : State) (low m : ℕ)
    → (low ≡ s.counter) ⊎ Falls log node_set v s s' low
    → (m < low → Falls log node_set v s s' m)
    → (min low m ≡ s.counter) ⊎ Falls log node_set v s s' (min low m)
Falls-min log node_set v s s' low m old new = elim (Bool-cases (leb low m)) [
  | inl first ↦
      let same : low ≡ min low m = ground arith in
      subst (λ k. (k ≡ s.counter) ⊎ Falls log node_set v s s' k) same old
  | inr second ↦
      let same : m ≡ min low m = ground arith in
      subst (λ k. (k ≡ s.counter) ⊎ Falls log node_set v s s' k) same (inr (new (ground arith)))
]
