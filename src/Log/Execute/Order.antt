-- ===== src/Log/Execute/Order.antt =====
-- `try_execute` runs the commands that the root awaits, dependencies first.
use blsmr.Prelude.{
  ◌≡◌, refl, ◌↔◌, inl, inr, Bool, true, false, ◌||◌, some, List, [], ◌∷◌, ◌++◌, arith, contains,
  contains-append, IsDistinct, contains-keep, Bool-cases, Option-cases,
}
use blsmr.Client.{CmdId, cmd_id_eq}
use blsmr.Map.{get}
use blsmr.Host.{Host}
use blsmr.Metrics.{Metrics}
use blsmr.Log.{CmdLog, entry_deps}
use blsmr.Log.Closure.{is_waiting, waiting_deps, collect_pending_closure}
use blsmr.Log.Closure.Waiting.{Awaits, root_itself, through, collect_pending_closure_iff}
use blsmr.Log.Scc.{deps_of}
use blsmr.Log.Scc.Invariant.{Chain, stay, along, AllConnected, concat, DepsFirst}
use blsmr.Log.Scc.Order.{tarjan_sccs-DepsFirst}
use blsmr.Log.Execute.{is_settled, execute_sccs, try_execute}
use blsmr.Log.Execute.Effects.{
  Executed, Executed-none, count_all, order, contains-order, order-IsDistinct, execute_sccs_lem,
}

module _ (log : CmdLog) where
  -- No member of a component waits for a command in a later one.
  abbrev pub WaitsFirst : List CmdId → List (List CmdId) → Type 0
  WaitsFirst before [] = Unit {0}
  WaitsFirst before (scc ∷ sccs) =
      ((u t : CmdId)
        → contains scc u ≡ true
        → contains (waiting_deps log u) t ≡ true
        → (contains before t || contains scc t) ≡ true)
      × WaitsFirst (before ++ scc) sccs

  waiting-deps :
      (u t : CmdId) → contains (waiting_deps log u) t ≡ true → contains (deps_of log u) t ≡ true
  waiting-deps u t m = elim (Option-cases (get u log.entries)) [
    | inl e ↦ ground arith
    | inr (entry, e) ↦ ground (arith, contains-keep (is_waiting log) (entry_deps entry) t)
  ]

  DepsFirst-WaitsFirst :
      (nodes before : List CmdId) (sccs : List (List CmdId))
      → ((u t : CmdId)
          → contains (concat sccs) u ≡ true
          → contains (waiting_deps log u) t ≡ true
          → contains nodes t ≡ true)
      → DepsFirst log nodes before sccs
      → WaitsFirst before sccs
  DepsFirst-WaitsFirst nodes before [] closed d = tt
  DepsFirst-WaitsFirst nodes before (scc ∷ sccs) closed d = (
    λ u t m w.
        d.0 u t m
          (ground (arith, waiting-deps u t w, closed u t, contains-append scc (concat sccs) u)),
    DepsFirst-WaitsFirst nodes (before ++ scc) sccs
        (λ u t m w. closed u t (ground (arith, contains-append scc (concat sccs) u)) w) d.1,
  )

  -- The members of each component await one another.
  abbrev pub AwaitEachOther : List (List CmdId) → Type 0
  AwaitEachOther [] = Unit {0}
  AwaitEachOther (scc ∷ sccs) =
      ((u t : CmdId) → contains scc u ≡ true → contains scc t ≡ true → Awaits log u t)
      × AwaitEachOther sccs

  -- What a command awaits that has not run is waiting, as is the command.
  Awaits-is_waiting :
      {root t : CmdId}
      → is_settled (get root log.entries) ≡ false
      → Awaits log root t
      → is_waiting log t ≡ true
  Awaits-is_waiting {root} live root_itself = elim (Option-cases (get root log.entries)) [
    | inl e ↦ ground arith
    | inr (entry, e) ↦ ground arith
  ]
  Awaits-is_waiting {t = t} live (through {id = id} a m) =
      elim (Option-cases (get id log.entries)) [
        | inl e ↦ ground arith
        | inr (entry, e) ↦ ground (arith, contains-keep (is_waiting log) (entry_deps entry) t)
      ]

  edge-waiting :
      (u t : CmdId)
      → contains (deps_of log u) t ≡ true
      → is_waiting log t ≡ true
      → contains (waiting_deps log u) t ≡ true
  edge-waiting u t m w = elim (Option-cases (get u log.entries)) [
    | inl e ↦ ground arith
    | inr (entry, e) ↦ ground (arith, contains-keep (is_waiting log) (entry_deps entry) t)
  ]

  -- Dependencies among nodes that are waiting are awaited.
  Chain-Awaits :
      (nodes : List CmdId)
      → ((t : CmdId) → contains nodes t ≡ true → is_waiting log t ≡ true)
      → {u t : CmdId} → Chain log nodes u t
      → Awaits log u t
  Chain-Awaits nodes waiting stay = root_itself
  Chain-Awaits nodes waiting (along {w = w} {t = t} c e) =
      through (Chain-Awaits nodes waiting c)
        (edge-waiting w t (ground arith) (waiting t (ground arith)))

  AllConnected-AwaitEachOther :
      (nodes : List CmdId) (sccs : List (List CmdId))
      → ((t : CmdId) → contains nodes t ≡ true → is_waiting log t ≡ true)
      → AllConnected log nodes sccs
      → AwaitEachOther sccs
  AllConnected-AwaitEachOther nodes [] waiting c = tt
  AllConnected-AwaitEachOther nodes (scc ∷ sccs) waiting c = (
    λ u t m n. Chain-Awaits nodes waiting (c.0 u t m n),
    AllConnected-AwaitEachOther nodes sccs waiting c.1,
  )

-- Executing a command that is in the log and has not run always returns. It runs exactly the
-- command and what it awaits, each once, in an order of components, and counts each in that order.
-- No component waits for a later one, and the members of a component all await one another. Nothing
-- else in the log changes but that these commands are executed.
pub try_execute_deps_first :
    (h : Host) (root : CmdId) (log : CmdLog) (m : Metrics)
    → is_settled (get root log.entries) ≡ false
    → (sccs : List (List CmdId)) × (log' : CmdLog) × (try_execute h root (log, m)
        ≡ some (log', count_all h log (order sccs) m))
      × ((id : CmdId) → (contains (order sccs) id ≡ true) ↔ Awaits log root id)
      × IsDistinct (order sccs)
      × WaitsFirst log [] sccs
      × AwaitEachOther log sccs
      × Executed (contains (order sccs)) log log'
unfolding try_execute
try_execute_deps_first h root log m live =
    let nodes : List CmdId = collect_pending_closure log root in
    let (awaited, distinct, sorted) = collect_pending_closure_iff log root in
    let (sccs, e, members, once, first, connected) = tarjan_sccs-DepsFirst log nodes in
    let (ran, counted) = execute_sccs_lem h sccs log m once in
    (
      sccs,
      (execute_sccs h sccs (log, m)).0,
      rw (live, e) (ground (arith, counted)),
      λ id. ground (arith, awaited id, members id, contains-order sccs id),
      order-IsDistinct sccs once,
      DepsFirst-WaitsFirst log nodes [] sccs
          (λ u t c w. (awaited t).1 (through ((awaited u).0 (ground (arith, members u))) w)) first,
      AllConnected-AwaitEachOther log nodes sccs
          (λ t n. Awaits-is_waiting log live ((awaited t).0 n)) connected,
      ran,
    )

-- Executing always returns, and runs only what the root awaits.
pub try_execute_total :
    (h : Host) (root : CmdId) (log : CmdLog) (m : Metrics)
    → (ran : CmdId → Bool) × (log' : CmdLog) × (m' : Metrics) × (try_execute h root (log, m)
        ≡ some (log', m'))
      × ((id : CmdId) → ran id ≡ true → Awaits log root id)
      × Executed ran log log'
unfolding try_execute
try_execute_total h root log m = elim (Bool-cases (is_settled (get root log.entries))) [
  | inl settled ↦ (λ _. false, log, m, rw settled refl, λ id e. cc, Executed-none log)
  | inr live ↦
      let (sccs, log', e, awaited, once, first, tied, ran) =
        try_execute_deps_first h root log m live in
      (contains (order sccs), log', count_all h log (order sccs) m, e, λ id. (awaited id).0, ran)
]
