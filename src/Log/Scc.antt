-- ===== src/Log/Scc.antt =====
-- crates/blsmr/src/log.rs, `tarjan_sccs`. `none` stands for a panic (an index that is missing, an
-- empty stack while a component is closed) or for fuel that ran out.
pub mod Invariant
pub mod Chains
pub mod Nodes
pub mod Settle
pub mod Calls
pub mod Visit
pub mod Order
use blsmr.Prelude.{
  ℕ, zero, suc, ◌+◌, min, Bool, true, false, Option, none, some, List, [], ◌∷◌, ◌++◌, if◌then◌else◌,
  contains, length, ◌==◌, eqb, ◌>>=◌,
}
use blsmr.Client.{CmdId, cmd_id_eq}
use blsmr.Map.{Map, get, insert}
use blsmr.HashSet
use blsmr.Log.{CmdLog, entry_deps}

pub record State : Type 0 where
  pub index : Map CmdId ℕ
  pub low_link : Map CmdId ℕ
  pub on_stack : List CmdId
  pub stack : List CmdId
  pub counter : ℕ
  pub sccs : List (List CmdId)

-- The first five statements of `strongconnect`. The head of `stack` is its top.
unfoldable pub open_node : CmdId → State → State
open_node v s = record s {
  index = insert v s.counter s.index;
  low_link = insert v s.counter s.low_link;
  counter = s.counter + 1;
  stack = v ∷ s.stack;
  on_stack = HashSet.insert v s.on_stack;
}

-- `s.low_link.insert(v, s.low_link[&v].min(m))`.
unfoldable pub merge : CmdId → ℕ → State → Option State
merge v m s = do
  low ← get v s.low_link
  some (record s { low_link = insert v (min low m) s.low_link })

-- The closing `loop`: what is left of the stack and of `on_stack`, and the component.
pub record Popped : Type 0 where
  pub stack : List CmdId
  pub on_stack : List CmdId
  pub scc : List CmdId

unfoldable pub pop_scc : CmdId → List CmdId → List CmdId → List CmdId → Option Popped
pop_scc v [] on_stack scc = none
pop_scc v (w ∷ stack) on_stack scc =
    let rest = pop_scc v stack (HashSet.remove w on_stack) (scc ++ w ∷ []) in
    if w == v
    then some (record { stack = stack; on_stack = HashSet.remove w on_stack; scc = scc ++ w ∷ [] })
    else rest

-- The component is taken off the stack and listed.
unfoldable pub close_scc : CmdId → State → Option State
unfolding pop_scc
close_scc v s = do
  popped ← pop_scc v s.stack s.on_stack []
  some (record s {
    stack = popped.stack;
    on_stack = popped.on_stack;
    sccs = s.sccs ++ popped.scc ∷ [];
  })

-- `if s.low_link[&v] == s.index[&v] { .. }`.
unfoldable pub close_node : CmdId → State → Option State
unfolding close_scc
close_node v s = do
  low ← get v s.low_link
  index ← get v s.index
  if eqb low index then close_scc v s else some s

module _ (node_set : List CmdId) where
  -- One round of the loop over the dependencies of `v`; `visit` is the recursive call.
  unfoldable pub visit_dep : (CmdId → State → Option State) → CmdId → CmdId → State → Option State
  unfolding merge
  visit_dep visit v w s =
      if contains node_set w
      then elim (get w s.index) [
        | none ↦ do s' ← visit w s; low ← get w s'.low_link; merge v low s'
        | some index ↦ if contains s.on_stack w then merge v index s else some s
      ]
      else some s

  unfoldable pub visit_deps :
      (CmdId → State → Option State) → CmdId → List CmdId → State → Option State
  unfolding visit_dep
  visit_deps visit v [] s = some s
  visit_deps visit v (w ∷ ws) s = do s' ← visit_dep visit v w s; visit_deps visit v ws s'

abbrev pub start : State
start = record { index = []; low_link = []; on_stack = []; stack = []; counter = 0; sccs = [] }

module _ (log : CmdLog) where
  -- The dependencies of `v`, none if it has no entry.
  abbrev pub deps_of : CmdId → List CmdId
  deps_of v = elim (get v log.entries) [ none ↦ [] | some entry ↦ entry_deps entry ]

  unfoldable pub strongconnect : List CmdId → ℕ → CmdId → State → Option State
  unfolding open_node visit_deps close_node
  strongconnect node_set zero v s = none
  strongconnect node_set (suc fuel) v s = do
    s' ← visit_deps node_set (strongconnect node_set fuel) v (deps_of v) (open_node v s)
    close_node v s'

  -- The loop over the nodes.
  unfoldable pub connect_all : List CmdId → ℕ → List CmdId → State → Option State
  unfolding strongconnect
  connect_all node_set fuel [] s = some s
  connect_all node_set fuel (v ∷ nodes) s = do
    s' ← elim (get v s.index) [ none ↦ strongconnect node_set fuel v s | some _ ↦ some s ]
    connect_all node_set fuel nodes s'

  -- A chain of calls enters each node once, so its length is at most the number of nodes.
  unfoldable pub tarjan_sccs : List CmdId → Option (List (List CmdId))
  unfolding connect_all
  tarjan_sccs nodes = do s ← connect_all nodes (suc (length nodes)) nodes start; some s.sccs
