-- ===== src/Log/Scc/Nodes.antt =====
-- The first and the last statements of `strongconnect`: a node is opened, and a component closed.
use blsmr.Prelude.{
  ℕ, ◌≡◌, refl, ap, sym, subst, ◌∙◌, inl, inr, true, false, not, ◌&&◌, ◌||◌, some, List, [], ◌∷◌,
  ◌++◌, arith, contains, contains-append, IsDistinct, append-IsDistinct, append-IsDistinct_split,
  Bool-cases, Option-cases,
}
use mathlib.Core.List.{append_assoc}
use blsmr.Client.{CmdId, cmd_id_eq, cmd_id_beq_iff}
use blsmr.Map.{get, get-insert}
use blsmr.HashSet
use blsmr.Log.{CmdLog}
use blsmr.Log.Scc.{State, open_node, pop_scc, close_scc}
use blsmr.Log.Scc.Invariant.{
  Chain, Chain-trans, AllConnected-snoc, concat, concat-snoc, emitted, is_indexed, is_edge,
  DepsFirst-snoc, IsWf, Settled, Visited, Visiting,
}
use blsmr.Log.Scc.Chains.{component_back, component_reached}

module _ (log : CmdLog) (node_set : List CmdId) (floor : ℕ) where
  pub open_node-Visiting :
      (v : CmdId) (s : State)
      → IsWf log node_set floor s
      → contains node_set v ≡ true
      → is_indexed s v ≡ false
      → ((t : CmdId) → contains s.stack t ≡ true → Chain log node_set t v)
      → Visiting log node_set floor v s [] (open_node v s)
  unfolding open_node
  open_node-Visiting v s wf here new below = record {
    wf = record {
      distinct = (ground (arith, wf.indexed v), wf.distinct);
      on_stack = λ w. ground (arith, HashSet.contains-insert v w s.on_stack, wf.on_stack w);
      indexed = λ w. ground (arith, get-insert w v s.counter s.index, wf.indexed w);
      fresh = λ w i e. ground (arith, get-insert w v s.counter s.index, wf.fresh w i);
      above = λ w i m e. ground (arith, get-insert w v s.counter s.index, wf.above w i, wf.counter);
      counter = omega (arith, wf.counter);
      apart = λ w m. ground (arith, wf.apart w, wf.indexed w, cmd_id_beq_iff v w);
      within =
          λ w m. ground (arith, get-insert w v s.counter s.index, wf.within w, cmd_id_beq_iff v w);
      once = wf.once;
      deps_first = wf.deps_first;
      connected = wf.connected;
    };
    extends = record {
      index = λ w i e. ground (arith, get-insert w v s.counter s.index, cmd_id_beq_iff v w);
      low = λ w m.
          ground (arith, get-insert w v s.counter s.low_link, cmd_id_beq_iff v w, wf.indexed w);
      emits = λ w e. e;
    };
    new = ground (arith, wf.indexed v);
    segment = [];
    stack = refl;
    low = s.counter;
    low_eq = ground (arith, get-insert v v s.counter s.low_link, cmd_id_beq_iff v v);
    own = ground (arith, get-insert v v s.counter s.index, cmd_id_beq_iff v v);
    low_le = omega arith;
    floor_le = wf.counter;
    settled = λ u t m e. cc;
    below = below;
    falls = inl refl;
    high = λ u i m e. cc;
    reached = λ u m. cc;
    back = λ u m. cc;
    own_settled = λ t m e. cc;
  }

-- Popping down to `v` yields the segment above it and `v`, and takes them off the set.
pop_scc_lem :
    (v : CmdId) (segment base on_stack scc : List CmdId)
    → contains segment v ≡ false
    → (on_stack' : List CmdId) × (pop_scc v (segment ++ v ∷ base) on_stack scc
        ≡ some (record { stack = base; on_stack = on_stack'; scc = scc ++ (segment ++ v ∷ []) }))
      × ((w : CmdId)
          → contains on_stack' w ≡ (not (contains (segment ++ v ∷ []) w) && contains on_stack w))
unfolding pop_scc
pop_scc_lem v [] base on_stack scc h = (
  HashSet.remove v on_stack,
  ground (arith, cmd_id_beq_iff v v),
  λ w. ground (arith, HashSet.contains-remove v w on_stack),
)
pop_scc_lem v (u ∷ segment) base on_stack scc h =
    let (on_stack', e, members) =
      pop_scc_lem v segment base (HashSet.remove u on_stack) (scc ++ u ∷ []) (ground arith) in
    (
      on_stack',
      ground (arith, e, append_assoc scc (u ∷ []) (segment ++ v ∷ []), cmd_id_beq_iff u v),
      λ w. ground (arith, members w, HashSet.contains-remove u w on_stack),
    )

-- The state in which the component of `v` is closed: its members are the segment and `v`.
module _ (log : CmdLog) (node_set : List CmdId) (floor : ℕ) (v : CmdId) (s s' : State)
    (seen : List CmdId) (wf : IsWf log node_set floor s)
    (all_seen : (t : CmdId) → is_edge log node_set v t ≡ true → contains seen t ≡ true)
    (x : Visiting log node_set floor v s seen s') (closing : x.low ≡ s.counter) where
  component : List CmdId
  component = x.segment ++ v ∷ []

  stack_split : s'.stack ≡ component ++ s.stack
  unfolding component
  stack_split = x.stack ∙ sym (append_assoc x.segment (v ∷ []) s.stack)

  split :
      IsDistinct component
      × IsDistinct s.stack
      × ((w : CmdId) → contains component w ≡ true → contains s.stack w ≡ false)
  split =
      append-IsDistinct_split component s.stack
        (subst (λ l. IsDistinct l) stack_split x.wf.distinct)

  on_stack : (w : CmdId) → contains s'.stack w ≡ (contains component w || contains s.stack w)
  on_stack w = ap (λ l. contains l w) stack_split ∙ contains-append component s.stack w

  -- What is settled is listed or in the component: what lies below has a smaller index.
  Settled-here :
      (t : CmdId) → Settled log node_set s' x.low t → (emitted s' t || contains component t) ≡ true
  Settled-here t (inl e) = ground arith
  Settled-here t (inr (i, e, le, m)) = elim (Option-cases (get t s.index)) [
    | inl none_ ↦ ground (arith, on_stack t, wf.indexed t)
    | inr (j, some_) ↦ ground (arith, on_stack t, x.extends.index t j some_, wf.fresh t j some_)
  ]

  edges_here :
      (u t : CmdId)
      → contains component u ≡ true
      → is_edge log node_set u t ≡ true
      → (emitted s' t || contains component t) ≡ true
  unfolding component
  edges_here u t m e = elim (Bool-cases (contains x.segment u)) [
    | inl above_ ↦ Settled-here t (x.settled u t above_ e)
    | inr other ↦
        let same : v ≡ u =
          ground (arith, contains-append x.segment (v ∷ []) u, cmd_id_beq_iff v u) in
        let edge : is_edge log node_set v t ≡ true =
          subst (λ w. is_edge log node_set w t ≡ true) (sym same) e in
        Settled-here t (x.own_settled t (all_seen t edge) (ground arith))
  ]

  closed : List CmdId → State
  closed on_stack' = record s' {
    stack = s.stack;
    on_stack = on_stack';
    sccs = s'.sccs ++ component ∷ [];
  }

  emitted-closed :
      (on_stack' : List CmdId) (w : CmdId)
      → emitted (closed on_stack') w ≡ (emitted s' w || contains component w)
  unfolding closed
  emitted-closed on_stack' w =
      rw (concat-snoc s'.sccs component) (contains-append (concat s'.sccs) component w)

  closed-IsWf :
      (on_stack' : List CmdId)
      → ((w : CmdId)
          → contains on_stack' w ≡ (not (contains component w) && contains s'.on_stack w))
      → IsWf log node_set floor (closed on_stack')
  unfolding closed component
  closed-IsWf on_stack' members = record {
    distinct = wf.distinct;
    on_stack = λ w. ground (arith, members w, x.wf.on_stack w, on_stack w, split.2 w);
    indexed = λ w. ground (arith, x.wf.indexed w, on_stack w, emitted-closed on_stack' w);
    fresh = x.wf.fresh;
    above = λ w i m. x.wf.above w i (ground (arith, on_stack w));
    counter = x.wf.counter;
    apart = λ w m. ground (arith, x.wf.apart w, on_stack w, split.2 w, emitted-closed on_stack' w);
    within = x.wf.within;
    once = rw (concat-snoc s'.sccs component) (
        append-IsDistinct (concat s'.sccs) component x.wf.once split.0
          (λ w m. ground (arith, x.wf.apart w, on_stack w)));
    deps_first =
        DepsFirst-snoc log node_set [] s'.sccs component x.wf.deps_first
          (λ u t m e. ground (arith, edges_here u t m e));
    connected = AllConnected-snoc log node_set s'.sccs component x.wf.connected (λ u t m n.
        Chain-trans log node_set (component_back log node_set floor v s s' seen x u m)
          (component_reached log node_set floor v s s' seen x t n));
  }

  pub close_scc-Visited :
      (s'' : State) × (close_scc v s' ≡ some s'') × Visited log node_set floor v s s''
  unfolding close_scc closed component
  close_scc-Visited =
      let lone : contains x.segment v ≡ false = ground (
        arith,
        (append-IsDistinct_split x.segment (v ∷ s.stack)
              (subst (λ l. IsDistinct l) x.stack x.wf.distinct)).2
            v,
        cmd_id_beq_iff v v,
      ) in
      let (on_stack', e, members) = pop_scc_lem v x.segment s.stack s'.on_stack [] lone in
      (
        closed on_stack',
        rw (x.stack, e) refl,
        record {
          wf = closed-IsWf on_stack' members;
          extends = record {
            index = x.extends.index;
            low = x.extends.low;
            emits = λ w m. ground (arith, x.extends.emits w m, emitted-closed on_stack' w);
          };
          segment = [];
          stack = refl;
          low = x.low;
          low_eq = x.low_eq;
          own = x.own;
          low_le = x.low_le;
          floor_le = x.floor_le;
          shut = inl (refl, closing);
          high = λ u i m e. cc;
          reached = λ u m. cc;
          back = λ u m. cc;
          settled = λ u t m e. cc;
        },
      )
