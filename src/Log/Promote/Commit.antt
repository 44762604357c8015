-- ===== src/Log/Promote/Commit.antt =====
-- `commit`: what it does to the log, on both of its branches.
use mathlib.Core.Option
use blsmr.Prelude.{
  ℕ, ◌≡◌, refl, inl, inr, true, false, some, List, arith, contains, Bool-cases, Option-cases,
}
use blsmr.Client.{CmdId, cmd_id_eq, cmd_id_beq_iff}
use blsmr.Map.{get, get-insert}
use blsmr.HashSet
use blsmr.Host.{Host, IsIteration}
use blsmr.Metrics.{Metrics}
use blsmr.Log.{Phase, Entry, CmdLog, new_entry}
use blsmr.Log.Invariant.{IsWf}
use blsmr.Log.Promote.{mark_commit, some_deps, commit}
use blsmr.Log.Promote.Newly.{is_newly}
use blsmr.Log.Promote.Invariant.{Promoted, promote_stable_lem}

-- The entry that `commit` writes.
abbrev committed_entry : ℕ → CmdLog → CmdId → List CmdId → Entry
committed_entry now log cmd_id deps =
    record (Option.get_or (get cmd_id log.entries) (new_entry now)) {
      deps = some_deps deps;
      phase = Phase.commit;
    }

pub mark_commit-IsWf :
    (now : ℕ) (log : CmdLog) (cmd_id : CmdId) (deps : List CmdId)
    → contains log.stable cmd_id ≡ false
    → IsWf log
    → IsWf (mark_commit now log cmd_id deps)
unfolding mark_commit
mark_commit-IsWf now log cmd_id deps new wf =
    let at =
      λ (id : CmdId). get-insert id cmd_id (committed_entry now log cmd_id deps) log.entries in
    record {
      pending = λ id.
          ground
            (arith, at id, HashSet.contains-insert cmd_id id log.pending_commit, wf.pending id);
      distinct = HashSet.insert-IsDistinct cmd_id log.pending_commit wf.distinct;
      live = λ id entry e. ground (arith, at id, wf.live id entry);
      idle = λ id entry e. elim (Option-cases (get cmd_id log.entries)) [
        | inl none_ ↦ ground (arith, at id, wf.idle id entry)
        | inr (old, some_) ↦ ground (arith, at id, wf.idle id entry, wf.idle cmd_id old some_)
      ];
      apart = λ id m. ground (arith, at id, wf.apart id, cmd_id_beq_iff cmd_id id);
      named = λ id entry cmd e k. elim (Option-cases (get cmd_id log.entries)) [
        | inl none_ ↦ ground (arith, at id, wf.named id entry cmd, cmd_id_beq_iff cmd_id id)
        | inr (old, some_) ↦ ground (
          arith,
          at id,
          wf.named id entry cmd,
          wf.named cmd_id old cmd some_,
          cmd_id_beq_iff cmd_id id,
        )
      ];
      buckets = λ key id. elim (Option-cases (get cmd_id log.entries)) [
        | inl none_ ↦ ground (arith, at id, wf.buckets key id, cmd_id_beq_iff cmd_id id)
        | inr (old, some_) ↦ ground (arith, at id, wf.buckets key id, cmd_id_beq_iff cmd_id id)
      ];
      once = wf.once;
    }

-- `commit` of a command that is not stable yet returns on every well-formed log, cyclic dependencies
-- included, whatever order the set of pending commands is iterated in. With the command marked as
-- committed, it makes stable exactly the committed commands whose dependencies all lead to stable or
-- committed ones; their entries are gone and every other entry is untouched, so nothing that is
-- still pending has been executed. The log stays well formed, and no pending command is ready then.
pub commit_promotes :
    (h : Host) (log : CmdLog) (m : Metrics) (cmd_id : CmdId) (deps : List CmdId)
    → IsIteration h
    → IsWf log
    → contains log.stable cmd_id ≡ false
    → (log' : CmdLog) × (m' : Metrics) × (commit h (log, m) cmd_id deps ≡ some (log', m'))
      × Promoted (mark_commit h.now log cmd_id deps) log'
      × IsWf log'
      × ((id : CmdId) → is_newly log' id ≡ false)
unfolding commit
commit_promotes h log m cmd_id deps it wf new =
    let (log', m', e, p, wf', done) =
      promote_stable_lem (mark_commit h.now log cmd_id deps)
        (mark_commit-IsWf h.now log cmd_id deps new wf) h m it in
    (log', m', rw (new, commit) e, p, wf', done)

-- On both branches `commit` returns, keeps the log well formed, and loses no stable command.
pub commit_total :
    (h : Host) (log : CmdLog) (m : Metrics) (cmd_id : CmdId) (deps : List CmdId)
    → IsIteration h
    → IsWf log
    → (log' : CmdLog) × (m' : Metrics) × (commit h (log, m) cmd_id deps ≡ some (log', m'))
      × IsWf log'
      × ((id : CmdId) → contains log.stable id ≡ true → contains log'.stable id ≡ true)
unfolding commit mark_commit
commit_total h log m cmd_id deps it wf = elim (Bool-cases (contains log.stable cmd_id)) [
  | inl old ↦ (log, m, rw old refl, wf, λ id s. s)
  | inr new ↦
      let (log', m', e, p, wf', done) = commit_promotes h log m cmd_id deps it wf new in
      (log', m', e, wf', λ id s. ground (arith, p.stable id))
]
