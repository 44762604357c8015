-- ===== src/Log/History.antt =====
-- The command log over its whole life: any sequence of its public operations, from the empty log.
use blsmr.Prelude.{ℕ, ◌≡◌, refl, ap, ◌∙◌, true, false, some, List, contains}
use blsmr.Client.{CmdId, Command, cmd_id_eq}
use blsmr.Map.{get}
use blsmr.Host.{Host, IsIteration}
use blsmr.Metrics.{Metrics}
use blsmr.Log.{CmdLog, empty, record_creation_at, submit}
use blsmr.Log.Invariant.{IsWf}
use blsmr.Log.Submit.{record_creation_at-IsWf, submit_answers}
use blsmr.Log.Promote.{commit}
use blsmr.Log.Promote.Commit.{commit_total}

-- One call. A replica records the creation of fresh commands only, so not of stable ones.
pub data Step : CmdLog → CmdLog → Type 0 where
  creates :
      (log : CmdLog) (cmd_id : CmdId) (now : ℕ)
      → contains log.stable cmd_id ≡ false
      → Step log (record_creation_at log cmd_id now)
  submits : (log : CmdLog) (cmd : Command) (now : ℕ) → Step log (submit now log cmd).0
  commits :
      (h : Host) (log log' : CmdLog) (m m' : Metrics) (cmd_id : CmdId) (deps : List CmdId)
      → IsIteration h
      → commit h (log, m) cmd_id deps ≡ some (log', m')
      → Step log log'

pub data Reach (log : CmdLog) : CmdLog → Type 0 where
  here : Reach log log
  next : {log' log'' : CmdLog} → Reach log log' → Step log' log'' → Reach log log''

pub empty-IsWf : IsWf empty
unfolding get
empty-IsWf = record {
  pending = λ id. refl;
  distinct = tt;
  live = λ id entry e. cc;
  idle = λ id entry e. cc;
  apart = λ id m. cc;
  named = λ id entry cmd e k. cc;
  buckets = λ key id. refl;
  once = λ key. tt;
}

-- Whatever a call of `commit` returned is what `commit_total` speaks of.
commit-IsWf :
    (h : Host) (log log' : CmdLog) (m m' : Metrics) (cmd_id : CmdId) (deps : List CmdId)
    → IsIteration h
    → commit h (log, m) cmd_id deps ≡ some (log', m')
    → IsWf log
    → IsWf log' × ((id : CmdId) → contains log.stable id ≡ true → contains log'.stable id ≡ true)
commit-IsWf h log log' m m' cmd_id deps it e wf =
    let (log1, m1, e1, wf1, mono) = commit_total h log m cmd_id deps it wf in
    let same : log1 ≡ log' = cc (e, e1) in rw (← same) (wf1, mono)

Step-IsWf :
    {log log' : CmdLog}
    → Step log log'
    → IsWf log
    → IsWf log' × ((id : CmdId) → contains log.stable id ≡ true → contains log'.stable id ≡ true)
unfolding record_creation_at
Step-IsWf (creates log cmd_id now new) wf =
    (record_creation_at-IsWf log cmd_id now new wf, λ id s. s)
Step-IsWf (submits log cmd now) wf =
    let (wf', distinct, answer, stable, pending, kept, recorded, others) =
      submit_answers now log cmd wf in
    (wf', λ id s. ap (λ l. contains l id) stable ∙ s)
Step-IsWf (commits h log log' m m' cmd_id deps it e) wf =
    commit-IsWf h log log' m m' cmd_id deps it e wf

-- After any calls the log is well formed, and what was stable before is stable still.
Reach-IsWf :
    {log log' : CmdLog}
    → Reach log log'
    → IsWf log
    → IsWf log' × ((id : CmdId) → contains log.stable id ≡ true → contains log'.stable id ≡ true)
Reach-IsWf here wf = (wf, λ id s. s)
Reach-IsWf (next r st) wf =
    let (wf1, mono1) = Reach-IsWf r wf in
    let (wf2, mono2) = Step-IsWf st wf1 in (wf2, λ id s. mono2 id (mono1 id s))

-- Every log that calls of `record_creation`, `submit` and `commit` make of the empty one, in which
-- `record_creation` is called only for identifiers that are not stable, is well formed, later such
-- calls keep what is stable, and the next `commit` returns.
pub Reach-commit :
    {log log' : CmdLog}
    → Reach empty log
    → Reach log log'
    → (h : Host) (m : Metrics) (cmd_id : CmdId) (deps : List CmdId) → IsIteration h
    → IsWf log'
      × ((id : CmdId) → contains log.stable id ≡ true → contains log'.stable id ≡ true)
      × ((log'' : CmdLog) × (m' : Metrics) × (commit h (log', m) cmd_id deps ≡ some (log'', m')))
Reach-commit {log} {log'} before after h m cmd_id deps it =
    let (wf, _) = Reach-IsWf before empty-IsWf in
    let (wf', mono) = Reach-IsWf after wf in
    let (log'', m', e, _, _) = commit_total h log' m cmd_id deps it wf' in
    (wf', mono, (log'', m', e))
