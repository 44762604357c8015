-- ===== src/Log/Closure.antt =====
-- crates/blsmr/src/log.rs, `is_deps_closure_committed` and `collect_pending_closure`: the two walks
-- over dependencies with an explicit stack. The head of the list is the top of the stack. Each takes
-- fuel for its rounds: no more than the edges that it can still push and those on the stack.
pub mod Walk
pub mod Committed
pub mod Waiting
use blsmr.Prelude.{
  ℕ, zero, suc, ◌+◌, Bool, true, false, not, Option, none, some, List, [], ◌∷◌, if◌then◌else◌,
  contains, length, keep,
}
use blsmr.Client.{CmdId, cmd_id_eq}
use blsmr.Map.{Map, get}
use blsmr.Log.{Phase, Entry, CmdLog, entry_deps}
use blsmr.Sort.{sort}
use mathlib.Core.Option

-- `stack.extend(ids)`.
unfoldable pub extend : List CmdId → List CmdId → List CmdId
extend stack [] = stack
extend stack (id ∷ ids) = extend (id ∷ stack) ids

abbrev pub is_pending : Phase → Bool
is_pending Phase.pending = true
is_pending _ = false

-- The dependencies of the entries whose identifier is not in `seen`, counted.
unfoldable pub unseen_edges : Map CmdId Entry → List CmdId → ℕ
unseen_edges [] seen = 0
unseen_edges ((id, entry) ∷ m) seen =
    (if contains seen id then 0 else length (entry_deps entry)) + unseen_edges m seen

module _ (log : CmdLog) where
  -- The `while` loop; `none` means that the fuel ran out.
  unfoldable pub committed_loop : ℕ → List CmdId → List CmdId → Option Bool
  committed_loop zero stack seen = none
  committed_loop (suc fuel) [] seen = some true
  committed_loop (suc fuel) (id ∷ stack) seen =
      let skip = committed_loop fuel stack seen in
      let done = committed_loop fuel stack (id ∷ seen) in
      let expand =
        λ (entry : Entry). committed_loop fuel (extend stack (entry_deps entry)) (id ∷ seen) in
      if contains seen id
      then skip
      else if contains log.stable id
      then done
      else elim (get id log.entries) [
        | none ↦ some false
        | some entry ↦ elim (is_pending entry.phase) [ true ↦ some false | false ↦ expand entry ]
      ]

  abbrev pub walk_fuel : List CmdId → ℕ
  walk_fuel stack = suc (length stack + unseen_edges log.entries [])

  unfoldable pub is_deps_closure_committed : List CmdId → Bool
  unfolding committed_loop
  is_deps_closure_committed deps =
      Option.get_or (committed_loop (walk_fuel (extend [] deps)) (extend [] deps) []) false

  -- `entries.get(&dep).is_some_and(|entry| !entry.executed)`.
  abbrev pub is_waiting : CmdId → Bool
  is_waiting dep = elim (get dep log.entries) [ none ↦ false | some entry ↦ not entry.executed ]

  abbrev pub waiting_deps : CmdId → List CmdId
  waiting_deps id = elim (get id log.entries) [
    | none ↦ []
    | some entry ↦ keep is_waiting (entry_deps entry)
  ]

  unfoldable pub pending_loop : ℕ → List CmdId → List CmdId → Option (List CmdId)
  pending_loop zero stack seen = none
  pending_loop (suc fuel) [] seen = some seen
  pending_loop (suc fuel) (id ∷ stack) seen =
      let skip = pending_loop fuel stack seen in
      let expand = pending_loop fuel (extend stack (waiting_deps id)) (id ∷ seen) in
      if contains seen id then skip else expand

  unfoldable pub collect_pending_closure : CmdId → List CmdId
  unfolding pending_loop
  collect_pending_closure root =
      sort (Option.get_or (pending_loop (walk_fuel (root ∷ [])) (root ∷ []) []) [])
