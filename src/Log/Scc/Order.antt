-- ===== src/Log/Scc/Order.antt =====
-- `tarjan_sccs` lists every node once, in strongly connected components, dependencies first.
use blsmr.Prelude.{
  ℕ, suc, ◌≤◌, ◌≡◌, refl, ap, ◌∙◌, inl, inr, true, false, some, List, [], ◌∷◌, ◌++◌, arith,
  contains, length, length-keep-le, IsDistinct, Option-cases, not,
}
use blsmr.Client.{CmdId, cmd_id_eq, cmd_id_beq_iff}
use blsmr.Map.{get}
use blsmr.Log.{CmdLog}
use blsmr.Log.Scc.{State, start, strongconnect, connect_all, tarjan_sccs}
use blsmr.Log.Scc.Invariant.{concat, is_indexed, DepsFirst, AllConnected, unindexed, IsWf}
use blsmr.Log.Scc.Settle.{unindexed_mono}
use blsmr.Log.Scc.Visit.{strongconnect_lem}

module _ (log : CmdLog) (node_set : List CmdId) where
  -- With nothing on the stack the floor is arbitrary.
  IsWf-floor :
      (low high : ℕ) (s : State)
      → s.stack ≡ []
      → high ≤ s.counter
      → IsWf log node_set low s
      → IsWf log node_set high s
  IsWf-floor low high s empty h wf = record {
    distinct = wf.distinct;
    on_stack = wf.on_stack;
    indexed = wf.indexed;
    fresh = wf.fresh;
    above = λ w i m e. cc (ap (λ l. contains l w) empty);
    counter = h;
    apart = wf.apart;
    within = wf.within;
    once = wf.once;
    deps_first = wf.deps_first;
    connected = wf.connected;
  }

  -- Between the calls of the outer loop the stack is empty.
  record Connected (s : State) : Type 0 where
    wf : IsWf log node_set 0 s
    stack : s.stack ≡ []

  connect_one :
      (fuel : ℕ) (v : CmdId) (s : State)
      → contains node_set v ≡ true
      → is_indexed s v ≡ false
      → unindexed log node_set s ≤ fuel
      → Connected s
      → (s' : State) × (strongconnect log node_set fuel v s ≡ some s')
        × Connected s'
        × (is_indexed s' v ≡ true)
        × ((w : CmdId) (i : ℕ) → get w s.index ≡ some i → get w s'.index ≡ some i)
  connect_one fuel v s here new h c =
      let (s', e, y) =
        strongconnect_lem log node_set s.counter fuel v s
          (IsWf-floor 0 s.counter s c.stack (omega arith) c.wf) here new h
          (λ t m. absurd (cc (ap (λ l. contains l t) c.stack, m))) in
      let empty : s'.stack ≡ [] = elim y.shut [
        | inl (shut, _) ↦ y.stack ∙ ap (λ l. l ++ s.stack) shut ∙ c.stack
        | inr (low, _) ↦ absurd (omega (arith, y.floor_le))
      ] in
      (
        s',
        e,
        record { wf = IsWf-floor s.counter 0 s' empty (omega arith) y.wf; stack = empty },
        ground (arith, y.own),
        y.extends.index,
      )

  indexed_later :
      (s s' : State) (w : CmdId)
      → ((i : ℕ) → get w s.index ≡ some i → get w s'.index ≡ some i)
      → is_indexed s w ≡ true
      → is_indexed s' w ≡ true
  indexed_later s s' w h e = elim (Option-cases (get w s.index)) [
    | inl none_ ↦ ground arith
    | inr (i, some_) ↦ ground (arith, h i some_)
  ]

  connect_all_lem :
      (fuel : ℕ) (nodes : List CmdId) (s : State)
      → ((w : CmdId) → contains nodes w ≡ true → contains node_set w ≡ true)
      → unindexed log node_set s ≤ fuel
      → Connected s
      → (s' : State) × (connect_all log node_set fuel nodes s ≡ some s')
        × Connected s'
        × ((w : CmdId) → contains nodes w ≡ true → is_indexed s' w ≡ true)
        × ((w : CmdId) (i : ℕ) → get w s.index ≡ some i → get w s'.index ≡ some i)
  unfolding connect_all
  connect_all_lem fuel [] s sub h c = (s, refl, c, λ w m. cc, λ w i e. e)
  connect_all_lem fuel (v ∷ nodes) s sub h c =
      let rest : (w : CmdId) → contains nodes w ≡ true → contains node_set w ≡ true =
        λ w m. sub w (ground arith) in
      elim (Option-cases (get v s.index)) [
        | inl new ↦
            let (s1, e1, c1, own, later1) =
              connect_one fuel v s (sub v (ground (arith, cmd_id_beq_iff v v))) (ground arith) h
                c in
            let (s2, e2, c2, all, later2) =
              connect_all_lem fuel nodes s1 rest
                (omega (arith, unindexed_mono log node_set s s1 later1)) c1 in
            (
              s2,
              rw (new, e1) e2,
              c2,
              λ w m. ground (arith, all w, indexed_later s1 s2 v (later2 v), cmd_id_beq_iff v w),
              λ w i e. later2 w i (later1 w i e),
            )
        | inr (j, old) ↦
            let (s2, e2, c2, all, later2) = connect_all_lem fuel nodes s rest h c in
            (
              s2,
              rw old e2,
              c2,
              λ w m. ground (arith, all w, later2 v j old, cmd_id_beq_iff v w),
              later2,
            )
      ]

-- Tarjan's algorithm returns on every log and list of nodes: no lookup misses, the stack is never
-- found empty, and the fuel lasts. Each node is in exactly one of the listed components, nothing
-- else is, no component has a dependency among the nodes that is listed after it, and the members of
-- a component all lead to one another through dependencies among the nodes.
pub tarjan_sccs-DepsFirst :
    (log : CmdLog) (nodes : List CmdId)
    → (sccs : List (List CmdId)) × (tarjan_sccs log nodes ≡ some sccs)
      × ((w : CmdId) → contains (concat sccs) w ≡ contains nodes w)
      × IsDistinct (concat sccs)
      × DepsFirst log nodes [] sccs
      × AllConnected log nodes sccs
unfolding tarjan_sccs get
tarjan_sccs-DepsFirst log nodes =
    let (s, e, c, all, later) =
      connect_all_lem log nodes (suc (length nodes)) nodes start (λ w m. m)
        (omega (arith, length-keep-le (λ w. not (is_indexed start w)) nodes))
        (record { wf = start_wf; stack = refl }) in
    (
      s.sccs,
      rw e refl,
      λ w. ground (arith, all w, c.wf.indexed w, c.wf.within w, ap (λ l. contains l w) c.stack),
      c.wf.once,
      c.wf.deps_first,
      c.wf.connected,
    )
  where
    start_wf : IsWf log nodes 0 start
    start_wf = record {
      distinct = tt;
      on_stack = λ w. refl;
      indexed = λ w. refl;
      fresh = λ w i e. cc;
      above = λ w i m e. cc;
      counter = omega arith;
      apart = λ w m. cc;
      within = λ w m. cc;
      once = tt;
      deps_first = tt;
      connected = tt;
    }
