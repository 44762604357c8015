-- ===== src/Tests/CommandLog.antt =====
-- The command log with two commands on one key that depend on each other.
use blsmr.Prelude.{
  ◌≡◌, refl, ◌⊎◌, ◌↔◌, true, false, not, ◌&&◌, some, List, [], ◌∷◌, contains, IsDistinct,
}
use blsmr.Client.{CmdId, cmd_id_eq}
use blsmr.Map
use blsmr.Map.{get}
use blsmr.HashSet
use blsmr.Sort
use blsmr.Log.Closure
use blsmr.Metrics.{Metrics}
use blsmr.Sort.Laws.{IsSorted}
use blsmr.Log.{CmdLog, empty, submit}
use blsmr.Log.Invariant.{IsWf, is_filed}
use blsmr.Log.Submit.{known_cmd, submit_answers}
use blsmr.Log.Closure.{is_deps_closure_committed, collect_pending_closure}
use blsmr.Log.Closure.Committed.{Leads, is_committed, is_deps_closure_committed_iff}
use blsmr.Log.Closure.Waiting.{Awaits, collect_pending_closure_iff}
use blsmr.Log.Scc.{tarjan_sccs}
use blsmr.Log.Scc.Invariant.{AllConnected, DepsFirst, concat}
use blsmr.Log.Scc.Order.{tarjan_sccs-DepsFirst}
use blsmr.Log.Execute.{try_execute}
use blsmr.Log.Execute.Effects.{Executed, count_all, order}
use blsmr.Log.Execute.Order.{AwaitEachOther, WaitsFirst, try_execute_deps_first}
use blsmr.Log.Promote.{mark_commit, commit}
use blsmr.Log.Promote.Newly.{is_newly}
use blsmr.Log.Promote.Invariant.{Promoted}
use blsmr.Log.Promote.Commit.{commit_promotes, mark_commit-IsWf}
use blsmr.Log.History.{here, next, submits, empty-IsWf, Reach-commit}
use mathlib.Core.Option
use blsmr.Tests.{put, set, put_cmd, set_cmd, host, host-IsIteration, no_metrics}

-- The first command is submitted, then the second.
abbrev put_filed : CmdLog
put_filed = (submit 0 empty put_cmd).0

abbrev both_filed : CmdLog
both_filed = (submit 3 put_filed set_cmd).0

put_filed-IsWf : IsWf put_filed
put_filed-IsWf = (submit_answers 0 empty put_cmd empty-IsWf).0

both_filed-IsWf : IsWf both_filed
both_filed-IsWf = (submit_answers 3 put_filed set_cmd put_filed-IsWf).0

-- Then the first is committed behind the second, which is still pending.
abbrev put_waits : CmdLog
put_waits = mark_commit 4 both_filed put (set ∷ [])

put_waits-IsWf : IsWf put_waits
unfolding submit get Map.insert Map.or_insert
put_waits-IsWf = mark_commit-IsWf 4 both_filed put (set ∷ []) refl both_filed-IsWf

set_is_conflict : (submit 3 put_filed set_cmd).1 ≡ put ∷ []
unfolding submit get Map.insert Map.or_insert
set_is_conflict = refl

not_closed : is_deps_closure_committed put_waits (set ∷ []) ≡ false
unfolding is_deps_closure_committed mark_commit submit Closure.extend get Map.insert Map.or_insert
not_closed = refl

-- Committing the second behind the first closes the cycle, and both become stable.
both_stable :
    Option.map (λ (log, m). log.stable) (commit host (put_waits, no_metrics) set (put ∷ []))
    ≡ some (put ∷ set ∷ [])
unfolding commit mark_commit submit get Map.insert Map.or_insert HashSet.insert
    is_deps_closure_committed Closure.extend Closure.unseen_edges try_execute tarjan_sccs
    collect_pending_closure Sort.sort Map.remove
both_stable = refl

submit_answers_example :
    IsWf both_filed
    × IsDistinct (submit 3 put_filed set_cmd).1
    × ((id : CmdId)
        → contains (submit 3 put_filed set_cmd).1 id
          ≡ (not (contains put_filed.stable set) && is_filed put_filed id 7))
    × (both_filed.stable ≡ put_filed.stable)
    × (both_filed.pending_commit ≡ put_filed.pending_commit)
    × ((contains put_filed.stable set ≡ false) ⊎ (both_filed ≡ put_filed))
    × ((contains put_filed.stable set ≡ true)
        ⊎ (known_cmd both_filed set ≡ some (Option.get_or (known_cmd put_filed set) set_cmd)))
    × ((id : CmdId) → (set ≡ id) ⊎ (get id both_filed.entries ≡ get id put_filed.entries))
submit_answers_example = submit_answers 3 put_filed set_cmd put_filed-IsWf

is_deps_closure_committed_iff_example :
    (is_deps_closure_committed put_waits (set ∷ []) ≡ true)
    ↔ ((id : CmdId) → Leads put_waits (set ∷ []) id → is_committed put_waits id ≡ true)
is_deps_closure_committed_iff_example = is_deps_closure_committed_iff put_waits (set ∷ [])

collect_pending_closure_iff_example :
    ((id : CmdId)
      → (contains (collect_pending_closure put_waits put) id ≡ true) ↔ Awaits put_waits put id)
    × IsDistinct (collect_pending_closure put_waits put)
    × IsSorted (collect_pending_closure put_waits put)
collect_pending_closure_iff_example = collect_pending_closure_iff put_waits put

tarjan_sccs-DepsFirst_example :
    (sccs : List (List CmdId)) × (tarjan_sccs put_waits (put ∷ set ∷ []) ≡ some sccs)
    × ((w : CmdId) → contains (concat sccs) w ≡ contains (put ∷ set ∷ []) w)
    × IsDistinct (concat sccs)
    × DepsFirst put_waits (put ∷ set ∷ []) [] sccs
    × AllConnected put_waits (put ∷ set ∷ []) sccs
tarjan_sccs-DepsFirst_example = tarjan_sccs-DepsFirst put_waits (put ∷ set ∷ [])

try_execute_deps_first_example :
    (sccs : List (List CmdId)) × (log' : CmdLog) × (try_execute host put (put_waits, no_metrics)
      ≡ some (log', count_all host put_waits (order sccs) no_metrics))
    × ((id : CmdId) → (contains (order sccs) id ≡ true) ↔ Awaits put_waits put id)
    × IsDistinct (order sccs)
    × WaitsFirst put_waits [] sccs
    × AwaitEachOther put_waits sccs
    × Executed (contains (order sccs)) put_waits log'
unfolding mark_commit submit get Map.insert Map.or_insert
try_execute_deps_first_example = try_execute_deps_first host put put_waits no_metrics refl

commit_promotes_example :
    (log' : CmdLog) × (m' : Metrics) × (commit host (put_waits, no_metrics) set (put ∷ [])
      ≡ some (log', m'))
    × Promoted (mark_commit 5 put_waits set (put ∷ [])) log'
    × IsWf log'
    × ((id : CmdId) → is_newly log' id ≡ false)
unfolding mark_commit submit get Map.insert Map.or_insert
commit_promotes_example =
    commit_promotes host put_waits no_metrics set (put ∷ []) host-IsIteration put_waits-IsWf refl

Reach-commit_example :
    IsWf both_filed
    × ((id : CmdId) → contains put_filed.stable id ≡ true → contains both_filed.stable id ≡ true)
    × ((log'' : CmdLog) × (m' : Metrics) × (commit host (both_filed, no_metrics) put []
          ≡ some (log'', m')))
Reach-commit_example =
    Reach-commit (next here (submits empty put_cmd 0)) (next here (submits put_filed set_cmd 3))
      host no_metrics put [] host-IsIteration
