-- ===== src/Log/Promote.antt =====
-- crates/blsmr/src/log.rs, `commit` and `promote_stable`. `none` stands for a panic.
pub mod Newly
pub mod Bucket
pub mod Loop
pub mod Invariant
pub mod Commit
use mathlib.Core.Option
use blsmr.Prelude.{
  ◌>>=◌, ℕ, Bool, true, false, not, Option, none, some, List, [], ◌∷◌, if◌then◌else◌, contains,
  keep, ◌==◌, eqb, nat_eq,
}
use blsmr.Client.{CmdId, Command, cmd_id_eq}
use blsmr.Map.{Map, get, insert, remove, or_insert}
use blsmr.HashSet
use blsmr.Host.{Host}
use blsmr.Metrics.{Metrics, record_latency}
use blsmr.Log.{Phase, Entry, CmdLog, entry_deps, new_entry}
use blsmr.Log.Closure.{is_deps_closure_committed}
use blsmr.Log.Execute.{try_execute}

-- The `filter` over the pending identifiers; `entries[id]` panics if there is no entry.
unfoldable pub filter_stable : CmdLog → List CmdId → Option (List CmdId)
filter_stable log [] = some []
filter_stable log (id ∷ ids) = do
  entry ← get id log.entries
  rest ← filter_stable log ids
  some (if is_deps_closure_committed log (entry_deps entry) then id ∷ rest else rest)

-- `bucket.retain(|&bucketed| bucketed != id)` in the bucket of the key, if there is one.
unfoldable pub retain_bucket : Option ℕ → CmdId → Map ℕ (List CmdId) → Map ℕ (List CmdId)
retain_bucket none id by_key = by_key
retain_bucket (some key) id by_key = elim (get key by_key) [
  | none ↦ by_key
  | some bucket ↦ insert key (keep (λ bucketed. not (bucketed == id)) bucket) by_key
]

-- The statements before `try_execute`, with the entry found.
unfoldable pub mark_stable : Host → CmdId → Entry → CmdLog × Metrics → CmdLog × Metrics
unfolding record_latency
mark_stable h id entry (log, m) = (
  record log {
    pending_commit = HashSet.remove id log.pending_commit;
    entries = insert id (record entry { phase = Phase.stable }) log.entries;
  },
  record_latency m (h.elapsed h.now entry.submitted_at) (eqb id.pid h.pid),
)

-- The statements after `try_execute`.
unfoldable pub retire : CmdId → Option ℕ → CmdLog → CmdLog
unfolding retain_bucket
retire id key log = record log {
  by_key = retain_bucket key id log.by_key;
  entries = remove id log.entries;
  stable = HashSet.insert id log.stable;
}

-- The body of the `for` loop.
unfoldable pub promote_one : Host → CmdId → CmdLog × Metrics → Option (CmdLog × Metrics)
unfolding mark_stable retire
promote_one h id (log, m) = do
  entry ← get id log.entries
  (log', m') ← try_execute h id (mark_stable h id entry (log, m))
  some (retire id (Option.map (λ cmd. cmd.key) entry.cmd) log', m')

unfoldable pub promote_all : Host → List CmdId → CmdLog × Metrics → Option (CmdLog × Metrics)
unfolding promote_one
promote_all h [] s = some s
promote_all h (id ∷ ids) s = do s' ← promote_one h id s; promote_all h ids s'

unfoldable pub promote_stable : Host → CmdLog × Metrics → Option (CmdLog × Metrics)
unfolding filter_stable promote_all
promote_stable h (log, m) = do
  newly_stable ← filter_stable log (h.iterate log.pending_commit)
  promote_all h newly_stable (log, m)

-- `(!deps.is_empty()).then_some(deps)`.
abbrev pub some_deps : List CmdId → Option (List CmdId)
some_deps [] = none
some_deps (id ∷ deps) = some (id ∷ deps)

-- The assignments of `commit` to the entry and to `pending_commit`.
unfoldable pub mark_commit : ℕ → CmdLog → CmdId → List CmdId → CmdLog
mark_commit now log cmd_id deps =
    let entry = Option.get_or (get cmd_id log.entries) (new_entry now) in
    record log {
      entries =
          insert cmd_id (record entry { deps = some_deps deps; phase = Phase.commit }) log.entries;
      pending_commit = HashSet.insert cmd_id log.pending_commit;
    }

unfoldable pub commit : Host → CmdLog × Metrics → CmdId → List CmdId → Option (CmdLog × Metrics)
unfolding mark_commit promote_stable
commit h (log, m) cmd_id deps =
    if contains log.stable cmd_id
    then some (log, m)
    else promote_stable h (mark_commit h.now log cmd_id deps, m)
