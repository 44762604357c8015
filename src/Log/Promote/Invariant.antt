-- ===== src/Log/Promote/Invariant.antt =====
-- `promote_stable` and `commit` always return, keep the log well formed, and promote exactly the
-- commands whose dependencies are committed.
use blsmr.Prelude.{
  ◌≡◌, ◌⊎◌, inl, inr, true, false, not, ◌&&◌, ◌||◌, none, some, List, [], arith, contains,
  if◌then◌else◌, Bool-cases, Option-cases,
}
use blsmr.Client.{CmdId, cmd_id_eq}
use blsmr.Map.{get}
use blsmr.Host.{Host, IsIteration}
use blsmr.Metrics.{Metrics}
use blsmr.Log.{Entry, CmdLog, entry_deps}
use blsmr.Log.Invariant.{IsWf}
use blsmr.Log.Closure.{is_deps_closure_committed}
use blsmr.Log.Closure.Committed.{
  Leads, direct, through, is_committed, is_deps_closure_committed_iff,
}
use blsmr.Log.Promote.{promote_stable}
use blsmr.Log.Promote.Newly.{is_newly, is_newly-closed, filter_stable_lem}
use blsmr.Log.Promote.Loop.{Promoting, promote_all-Promoting}

-- The newly stable commands leave the entries and `pending_commit` and become stable; every other
-- entry is as it was.
pub record Promoted (log log' : CmdLog) : Type 0 where
  pub entries :
      (id : CmdId) → get id log'.entries ≡ (if is_newly log id then none else get id log.entries)
  pub pending :
      (id : CmdId)
      → contains log'.pending_commit id ≡ (contains log.pending_commit id && not (is_newly log id))
  pub stable : (id : CmdId) → contains log'.stable id ≡ (contains log.stable id || is_newly log id)

module _ (log : CmdLog) (wf : IsWf log) where
  start-Promoting :
      (newly : List CmdId)
      → ((id : CmdId) → contains newly id ≡ is_newly log id)
      → Promoting log newly log
  start-Promoting newly members = record {
    ran = λ _. false;
    ran_newly = λ id e. cc;
    entries = λ id. elim (Option-cases (get id log.entries)) [
      | inl e ↦ ground (arith, members id)
      | inr (entry, e) ↦ ground (arith, members id)
    ];
    pending = λ id. ground (arith, members id);
    distinct = wf.distinct;
    stable = λ id. ground (arith, members id);
    buckets = λ key id. ground (arith, members id);
    once = wf.once;
  }

  finish-Promoted : (log' : CmdLog) → Promoting log [] log' → Promoted log log'
  finish-Promoted log' x = record {
    entries = λ id. elim (Option-cases (get id log.entries)) [
      | inl e ↦ ground (arith, x.entries id)
      | inr (entry, e) ↦ ground (arith, x.entries id, x.ran_newly id)
    ];
    pending = λ id. ground (arith, x.pending id);
    stable = λ id. ground (arith, x.stable id);
  }

  finish-IsWf : (log' : CmdLog) → Promoting log [] log' → IsWf log'
  finish-IsWf log' x =
      let p = finish-Promoted log' x in
      record {
        pending = λ id. ground (arith, p.entries id, p.pending id, wf.pending id);
        distinct = x.distinct;
        live = λ id entry e. ground (arith, p.entries id, wf.live id entry);
        idle = λ id entry e. ground (arith, p.entries id, wf.idle id entry);
        apart = λ id m. ground (arith, p.entries id, p.stable id, wf.apart id);
        named = λ id entry cmd e k. ground (arith, p.entries id, wf.named id entry cmd);
        buckets = λ key id. ground (arith, p.entries id, x.buckets key id, wf.buckets key id);
        once = x.once;
      }

  -- What the promotion leaves is not ready afterwards either: following the edges of what has
  -- become stable leads only to what is stable.
  module _ (log' : CmdLog) (p : Promoted log log') where
    newly-dep :
        (u t : CmdId) (entry : Entry)
        → is_newly log u ≡ true
        → get u log.entries ≡ some entry
        → contains (entry_deps entry) t ≡ true
        → contains log'.stable t ≡ true
    newly-dep u t entry n e m =
        let committed =
          (is_deps_closure_committed_iff log (entry_deps entry)).0 (ground arith) t (direct m) in
        elim (Option-cases (get t log.entries)) [
          | inl none_ ↦ ground (arith, p.stable t)
          | inr (entry', some_) ↦
              ground (arith, is_newly-closed log wf u t entry entry' n e m some_, p.stable t)
        ]

    Leads-later :
        (deps : List CmdId)
        → {t : CmdId} → Leads log deps t
        → Leads log' deps t ⊎ (contains log'.stable t ≡ true)
    Leads-later deps (direct m) = inl (direct m)
    Leads-later deps (through {id = u} {dep = t} {entry} l s e m) =
        elim (Bool-cases (is_newly log u)) [
          | inl n ↦ inr (newly-dep u t entry n e m)
          | inr old ↦ elim (Leads-later deps l) [
            | inl l' ↦ inl (
                through {entry = entry} l' (ground (arith, p.stable u))
                  (ground (arith, p.entries u)) m)
            | inr stable ↦ inr (ground (arith, p.stable u))
          ]
        ]

    is_committed_later : (id : CmdId) → is_committed log' id ≡ true → is_committed log id ≡ true
    is_committed_later id h = ground (arith, p.stable id, p.entries id, wf.pending id)

    not-is_newly : (id : CmdId) → is_newly log' id ≡ false
    not-is_newly id = elim (Bool-cases (is_newly log' id)) [
      | inr h ↦ h
      | inl h ↦ elim (Option-cases (get id log'.entries)) [
        | inl e ↦ ground arith
        | inr (entry, e) ↦
            let ready : is_deps_closure_committed log' (entry_deps entry) ≡ true = ground arith in
            let old : is_deps_closure_committed log (entry_deps entry) ≡ true =
              (is_deps_closure_committed_iff log (entry_deps entry)).1 λ t l.
                elim (Leads-later (entry_deps entry) l) [
                  | inl l' ↦
                      is_committed_later t
                        ((is_deps_closure_committed_iff log' (entry_deps entry)).0 ready t l')
                  | inr stable ↦ is_committed_later t (ground arith)
                ] in
            ground (arith, p.entries id, p.pending id)
      ]
    ]

  pub promote_stable_lem :
      (h : Host) (m : Metrics)
      → IsIteration h
      → (log' : CmdLog) × (m' : Metrics) × (promote_stable h (log, m) ≡ some (log', m'))
        × Promoted log log'
        × IsWf log'
        × ((id : CmdId) → is_newly log' id ≡ false)
  unfolding promote_stable
  promote_stable_lem h m it =
      let (newly, e, members, distinct) = filter_stable_lem h log it wf in
      let (log', m', e', x) =
        promote_all-Promoting log wf h newly log m distinct (λ id c. ground (arith, members id))
          (start-Promoting newly members) in
      let p = finish-Promoted log' x in
      (log', m', rw e e', p, finish-IsWf log' x, not-is_newly log' p)
