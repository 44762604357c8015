-- ===== src/Process/Total.antt =====
-- No message makes a replica panic.
use blsmr.Prelude.{
  ℕ, keep, not, ap, subst, sym, ◌≡◌, refl, Bool, true, false, some, List, [], ◌∷◌, ◌++◌, arith, inl,
  inr, Bool-cases, Option-cases, List-cases, eqb,
}
use blsmr.Client.{CmdId, cmd_id_eq}
use blsmr.Map.{get, insert, remove}
use blsmr.Host.{Host, IsIteration}
use blsmr.Metrics.{Metrics, record_path, record_decision}
use blsmr.Effect.{send_many}
use blsmr.Log.Invariant.{IsWf}
use blsmr.Log.Submit.{submit_answers}
use blsmr.Log.Promote.Commit.{commit_total}
use blsmr.Dds
use blsmr.Dds.{
  Dds, Res, Announce, req, res, commits, AnnounceStatus, Outcome, allow_fastpath, finish, on_res,
  is_ready, union_deps,
}
use blsmr.Consensus
use blsmr.Consensus.{QuorumStatus}
use blsmr.Process.{
  Run, Message, announce, quorum, decide, propose, handle_announce_status, handle_quorum_status,
  on_message, when_tracked, emit, arrival,
}

-- A quorum that is handed over has a response.
abbrev pub Answers : AnnounceStatus → Type 0
Answers AnnounceStatus.do_nothing = Unit
Answers (AnnounceStatus.quorum_ready ready) =
    (first : Res) × (rest : List Res) × (ready.quorum ≡ first ∷ rest)

allow_fastpath-total :
    (n : ℕ) (first : Res) (rest : List Res)
    → (fast : Bool) × (allow_fastpath n (first ∷ rest) ≡ some fast)
unfolding allow_fastpath
allow_fastpath-total n first rest = elim (Option-cases (allow_fastpath n (first ∷ rest))) [
  | inl none_ ↦ absurd (ground arith)
  | inr some_ ↦ some_
]

pub finish-total :
    (d : Dds) (cmd_id : CmdId) (first : Res) (rest : List Res)
    → (d' : Dds) × (status : AnnounceStatus) × (finish d cmd_id (first ∷ rest) ≡ some (d', status))
      × Answers status
      × (d'.log ≡ d.log)
unfolding finish
finish-total d cmd_id first rest =
    let (fast, e) = allow_fastpath-total d.peer_number first rest in
    (
      record d { pending_announce_quorums = remove cmd_id d.pending_announce_quorums },
      AnnounceStatus.quorum_ready (record { quorum = first ∷ rest; allow_fastpath = fast }),
      rw e refl,
      (first, rest, refl),
      refl,
    )

on_res-total :
    (d : Dds) (r : Res)
    → (d' : Dds) × (status : AnnounceStatus) × (on_res d r ≡ some (d', status))
      × Answers status
      × (d'.log ≡ d.log)
unfolding on_res
on_res-total d r = elim (Option-cases (get r.id d.pending_announce_quorums)) [
  | inl none_ ↦ (d, AnnounceStatus.do_nothing, rw (on_res, none_) refl, tt, refl)
  | inr (collected, e) ↦ elim (Bool-cases (is_ready d (collected ++ r ∷ []))) [
    | inr waits ↦ (
      record d {
        pending_announce_quorums = insert r.id (collected ++ r ∷ []) d.pending_announce_quorums;
      },
      AnnounceStatus.do_nothing,
      rw (on_res, e, waits) refl,
      tt,
      refl,
    )
    | inl ready ↦ elim (List-cases (collected ++ r ∷ [])) [
      | inl empty ↦ absurd (append-nonempty collected r empty)
      | inr (first, rest, whole) ↦
          let (d', status, done, answers, same) = finish-total d r.id first rest in
          (d', status, rw (on_res, e, ready, whole) done, answers, same)
    ]
  ]
]
  where
    append-nonempty : (l : List Res) (r : Res) → ¬ (l ++ r ∷ [] ≡ [])
    append-nonempty [] r e = cc e
    append-nonempty (x ∷ l) r e = cc e

dds_commit-total :
    (h : Host) (d : Dds) (m : Metrics) (cmd_id : CmdId) (deps : List CmdId)
    → IsIteration h
    → IsWf d.log
    → (d' : Dds) × (m' : Metrics) × (Dds.commit h d m cmd_id deps ≡ some (d', m')) × IsWf d'.log
unfolding Dds.commit
dds_commit-total h d m cmd_id deps it wf =
    let (log, m', e, wf', _) = commit_total h d.log m cmd_id deps it wf in
    (record d { log = log }, m', rw e refl, wf')

dds_on_message-total :
    (h : Host) (d : Dds) (m : Metrics) (from : ℕ) (a : Announce)
    → IsIteration h
    → IsWf d.log
    → (o : Outcome) × (Dds.on_message h d m from a ≡ some o) × Answers o.status × IsWf o.dds.log
unfolding Dds.on_message
dds_on_message-total h d m from (req cmd) it wf =
    (_, refl, tt, (submit_answers h.now d.log cmd wf).0)
dds_on_message-total h d m from (commits c) it wf =
    let (d', m', e, wf') = dds_commit-total h d m c.cmd_id c.deps it wf in
    (
      record { dds = d'; metrics = m'; effects = []; status = AnnounceStatus.do_nothing },
      rw e refl,
      tt,
      wf',
    )
dds_on_message-total h d m from (res r) it wf =
    let (d', status, e, answers, same) = on_res-total d r in
    (
      record { dds = d'; metrics = m; effects = []; status = status },
      rw e refl,
      answers,
      rw same wf,
    )

-- The replica after a decision, before it tells the others.
abbrev committed : Run → Dds → Metrics → Run
committed r d m = record r { state = record r.state { dds = d }; metrics = m }

decide-total :
    (h : Host) (r : Run) (cmd_id : CmdId) (deps : List CmdId)
    → IsIteration h
    → IsWf r.state.dds.log
    → (r' : Run) × (decide h r cmd_id deps ≡ some r') × IsWf r'.state.dds.log
unfolding decide
decide-total h r cmd_id deps it wf =
    let (d', m', e, wf') =
      dds_commit-total h r.state.dds (when_tracked r (record_decision r.metrics cmd_id deps)) cmd_id
        deps it wf in
    (
      emit announce
          (send_many (keep (λ pid. not (eqb pid h.pid)) h.pool)
            (commits (record { cmd_id = cmd_id; deps = deps })))
          (committed r d' m'),
      rw e refl,
      wf',
    )

quorum_ready-total :
    (hash : CmdId → ℕ → ℕ) (h : Host) (r : Run) (first : Res) (rest : List Res) (fast : Bool)
    → IsIteration h
    → IsWf r.state.dds.log
    → (r' : Run) × (handle_announce_status hash h r
          (AnnounceStatus.quorum_ready (record { quorum = first ∷ rest; allow_fastpath = fast }))
        ≡ some r')
      × IsWf r'.state.dds.log
unfolding handle_announce_status propose
quorum_ready-total hash h r first rest true it wf =
    decide-total h (record r { metrics = when_tracked r (record_path r.metrics first.id true) })
      first.id (union_deps (first ∷ rest)) it wf
quorum_ready-total hash h r first rest false it wf = (
  propose hash h (record r { metrics = when_tracked r (record_path r.metrics first.id false) })
      first.id (union_deps (first ∷ rest)),
  refl,
  wf,
)

pub handle_announce_status-total :
    (hash : CmdId → ℕ → ℕ) (h : Host) (r : Run) (status : AnnounceStatus)
    → IsIteration h
    → Answers status
    → IsWf r.state.dds.log
    → (r' : Run) × (handle_announce_status hash h r status ≡ some r') × IsWf r'.state.dds.log
unfolding handle_announce_status
handle_announce_status-total hash h r AnnounceStatus.do_nothing it answers wf = (r, refl, wf)
handle_announce_status-total hash h r (AnnounceStatus.quorum_ready ready) it (first, rest, e) wf =
    let (r', done, wf') = quorum_ready-total hash h r first rest ready.allow_fastpath it wf in
    let same : ready ≡ record { quorum = first ∷ rest; allow_fastpath = ready.allow_fastpath } =
      ap (λ l. record ready { quorum = l }) e in
    (
      r',
      subst (λ x. handle_announce_status hash h r (AnnounceStatus.quorum_ready x) ≡ some r')
          (sym same) done,
      wf',
    )

handle_quorum_status-total :
    (h : Host) (r : Run) (status : QuorumStatus)
    → IsIteration h
    → IsWf r.state.dds.log
    → (r' : Run) × (handle_quorum_status h r status ≡ some r') × IsWf r'.state.dds.log
unfolding handle_quorum_status
handle_quorum_status-total h r QuorumStatus.do_nothing it wf = (r, refl, wf)
handle_quorum_status-total h r (QuorumStatus.decided cmd_id deps) it wf =
    decide-total h r cmd_id deps it wf

arrival-IsWf : (r : Run) (a : Announce) → IsWf r.state.dds.log → IsWf (arrival r a).state.dds.log
arrival-IsWf r (req cmd) wf = wf
arrival-IsWf r (res x) wf = wf
arrival-IsWf r (commits c) wf = wf

-- Whatever message arrives from whomever, a replica whose log is well formed handles it without a
-- panic: what it looks up is there, no quorum that it hands over is empty, and a commit that it
-- makes returns. Its log is well formed afterwards.
pub on_message_total :
    (hash : CmdId → ℕ → ℕ) (h : Host) (r : Run) (from : ℕ) (message : Message)
    → IsIteration h
    → IsWf r.state.dds.log
    → (r' : Run) × (on_message hash h r from message ≡ some r') × IsWf r'.state.dds.log
unfolding on_message
on_message_total hash h r from (announce a) it wf =
    let r1 : Run = arrival r a in
    let (o, e, answers, wf') =
      dds_on_message-total h r1.state.dds r1.metrics from a it (arrival-IsWf r a wf) in
    let (r', done, wf'') =
      handle_announce_status-total hash h (emit announce o.effects (committed r1 o.dds o.metrics))
        o.status it answers wf' in
    (r', rw (e, done) refl, wf'')
on_message_total hash h r from (quorum q) it wf =
    let (q', out, status) = Consensus.on_message r.state.quorum from q in
    handle_quorum_status-total h
      (emit quorum out (record r { state = record r.state { quorum = q' } })) status it wf
