-- ===== src/Log/Promote/Newly.antt =====
-- The commands that a promotion makes stable, and that they are closed under dependencies.
use blsmr.Prelude.{
  ◌≡◌, refl, inl, inr, Bool, true, false, ◌&&◌, none, some, List, [], ◌∷◌, arith, contains,
  IsDistinct, keep, contains-keep, keep-IsDistinct, Option-cases,
}
use blsmr.Client.{CmdId, cmd_id_eq, cmd_id_beq_iff}
use blsmr.Map.{get}
use blsmr.Host.{Host, IsIteration}
use blsmr.Log.{Entry, CmdLog, entry_deps}
use blsmr.Log.Invariant.{IsWf}
use blsmr.Log.Closure.{is_deps_closure_committed, waiting_deps, is_waiting}
use blsmr.Log.Closure.Committed.{Leads, direct, through, is_deps_closure_committed_iff}
use blsmr.Log.Promote.{filter_stable}

-- The closure of the entry's dependencies is committed.
abbrev pub is_ready : CmdLog → CmdId → Bool
is_ready log id = elim (get id log.entries) [
  | none ↦ false
  | some entry ↦ is_deps_closure_committed log (entry_deps entry)
]

abbrev pub is_newly : CmdLog → CmdId → Bool
is_newly log id = contains log.pending_commit id && is_ready log id

filter_stable-keep :
    (log : CmdLog) (ids : List CmdId)
    → ((id : CmdId) → contains ids id ≡ true → contains log.pending_commit id ≡ true)
    → IsWf log
    → filter_stable log ids ≡ some (keep (is_ready log) ids)
unfolding filter_stable
filter_stable-keep log [] sub wf = refl
filter_stable-keep log (id ∷ ids) sub wf = ground (
  arith,
  sub id,
  cmd_id_beq_iff id id,
  wf.pending id,
  filter_stable-keep log ids (λ j m. sub j (ground arith)) wf,
)

-- The filter finds an entry for each identifier, and keeps those that are newly stable, once each.
pub filter_stable_lem :
    (h : Host) (log : CmdLog)
    → IsIteration h
    → IsWf log
    → (newly : List CmdId) × (filter_stable log (h.iterate log.pending_commit) ≡ some newly)
      × ((id : CmdId) → contains newly id ≡ is_newly log id)
      × IsDistinct newly
filter_stable_lem h log it wf = (
  keep (is_ready log) (h.iterate log.pending_commit),
  filter_stable-keep log (h.iterate log.pending_commit)
      (λ id m. ground (arith, it.members log.pending_commit id)) wf,
  λ id. ground (
    arith,
    contains-keep (is_ready log) (h.iterate log.pending_commit) id,
    it.members log.pending_commit id,
  ),
  keep-IsDistinct (is_ready log) (h.iterate log.pending_commit)
      (it.once log.pending_commit wf.distinct),
)

-- What is waited for is a dependency with an entry.
pub waiting_split :
    (log : CmdLog) (u t : CmdId)
    → contains (waiting_deps log u) t ≡ true
    → (entry : Entry) × (entry' : Entry) × (get u log.entries ≡ some entry)
      × (contains (entry_deps entry) t ≡ true)
      × (get t log.entries ≡ some entry')
waiting_split log u t m = elim (Option-cases (get u log.entries)) [
  | inl e ↦ ground arith
  | inr (entry, e) ↦ elim (Option-cases (get t log.entries)) [
    | inl e' ↦ ground (arith, contains-keep (is_waiting log) (entry_deps entry) t)
    | inr (entry', e') ↦
        (entry, entry', e, ground (arith, contains-keep (is_waiting log) (entry_deps entry) t), e')
  ]
]

module _ (log : CmdLog) (wf : IsWf log) where
  Leads-through :
      {deps : List CmdId} {u : CmdId} {entry : Entry}
      → Leads log deps u
      → contains log.stable u ≡ false
      → get u log.entries ≡ some entry
      → {t : CmdId} → Leads log (entry_deps entry) t
      → Leads log deps t
  Leads-through l s e (direct m) = through l s e m
  Leads-through l s e (through k s' e' m) = through (Leads-through l s e k) s' e' m

  -- A dependency of a newly stable command that has an entry is newly stable too.
  pub is_newly-closed :
      (u t : CmdId) (entry entry' : Entry)
      → is_newly log u ≡ true
      → get u log.entries ≡ some entry
      → contains (entry_deps entry) t ≡ true
      → get t log.entries ≡ some entry'
      → is_newly log t ≡ true
  is_newly-closed u t entry entry' n e m e' =
      let committed = (is_deps_closure_committed_iff log (entry_deps entry)).0 (ground arith) in
      let outside : contains log.stable t ≡ false = ground (arith, wf.apart t) in
      let leads : Leads log (entry_deps entry) t = direct m in
      let closure : is_deps_closure_committed log (entry_deps entry') ≡ true =
        (is_deps_closure_committed_iff log (entry_deps entry')).1
          (λ id l. committed id (Leads-through leads outside e' l)) in
      ground (arith, committed t leads, wf.live t entry' e', wf.pending t)
