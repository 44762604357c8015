-- ===== src/Log/Promote/Loop.antt =====
-- The loop of `promote_stable`: each newly stable command is executed and retired, and what it runs
-- is newly stable too.
use mathlib.Core.Option
use blsmr.Prelude.{
  ℕ, ◌≡◌, refl, ap, sym, subst, ◌∙◌, ◌≢◌, inl, inr, Bool, true, false, not, ◌&&◌, ◌||◌, Option,
  none, some, List, [], ◌∷◌, arith, contains, IsDistinct, ◌==◌, if◌then◌else◌, Bool-cases,
  Option-cases, eqb, nat_eq,
}
use blsmr.Client.{CmdId, cmd_id_eq, cmd_id_beq_iff}
use blsmr.Map.{get, insert, remove, get-insert, get-remove}
use blsmr.HashSet
use blsmr.Host.{Host}
use blsmr.Metrics.{Metrics}
use blsmr.Log.{Phase, Entry, CmdLog, entry_deps, bucket}
use blsmr.Log.Invariant.{IsWf, is_filed}
use blsmr.Log.Closure.Waiting.{Awaits, root_itself, through}
use blsmr.Log.Execute.Effects.{Executed, ran_entry}
use blsmr.Log.Execute.Order.{try_execute_total}
use blsmr.Log.Promote.{mark_stable, retire, promote_one, promote_all}
use blsmr.Log.Promote.Bucket.{contains-retain_bucket, retain_bucket-IsDistinct}
use blsmr.Log.Promote.Newly.{is_newly, is_newly-closed, waiting_split}

module _ (log : CmdLog) where
  -- Newly stable, and no longer among the commands that wait for the loop.
  abbrev pub is_gone : List CmdId → CmdId → Bool
  is_gone rest id = is_newly log id && not (contains rest id)

  -- The entry of `log`, executed if `ran` says so, and dropped when its command has been retired.
  abbrev pub entry_after : List CmdId → (CmdId → Bool) → CmdId → Option Entry
  entry_after rest ran id =
      if is_gone rest id then none else Option.map (ran_entry (ran id)) (get id log.entries)

  -- The log `c` in the loop, with `rest` still to be retired. What the loop has run is newly stable.
  pub record Promoting (rest : List CmdId) (c : CmdLog) : Type 0 where
    pub ran : CmdId → Bool
    pub ran_newly : (id : CmdId) → ran id ≡ true → is_newly log id ≡ true
    pub entries : (id : CmdId) → get id c.entries ≡ entry_after rest ran id
    pub pending :
        (id : CmdId)
        → contains c.pending_commit id ≡ (contains log.pending_commit id && not (is_gone rest id))
    pub distinct : IsDistinct c.pending_commit
    pub stable : (id : CmdId) → contains c.stable id ≡ (contains log.stable id || is_gone rest id)
    pub buckets :
        (key : ℕ) (id : CmdId)
        → contains (bucket c key) id ≡ (contains (bucket log key) id && not (is_gone rest id))
    pub once : (key : ℕ) → IsDistinct (bucket c key)

-- The log once the entry of `id` is marked.
abbrev marked : CmdLog → CmdId → Entry → CmdLog
marked c id entry = record c {
  pending_commit = HashSet.remove id c.pending_commit;
  entries = insert id (record entry { phase = Phase.stable }) c.entries;
}

module _ (log : CmdLog) (wf : IsWf log) where
  -- An entry in the loop is that of the log, but for `executed`.
  original :
      (rest : List CmdId) (c : CmdLog)
      → (x : Promoting log rest c) → (id : CmdId) (entry : Entry) → get id c.entries ≡ some entry
      → (entry' : Entry) × (get id log.entries ≡ some entry')
        × (entry_deps entry' ≡ entry_deps entry)
        × (entry'.cmd ≡ entry.cmd)
  original rest c x id entry e = elim (Option-cases (get id log.entries)) [
    | inl none_ ↦ ground (arith, x.entries id)
    | inr (entry', some_) ↦
        (entry', some_, ground (arith, x.entries id), ground (arith, x.entries id))
  ]

  marked_original :
      (rest : List CmdId) (c : CmdLog) (id : CmdId) (entry : Entry)
      → (x : Promoting log rest c) → get id c.entries ≡ some entry
      → (u : CmdId) (entry1 : Entry) → get u (marked c id entry).entries ≡ some entry1
      → (entry' : Entry) × (get u log.entries ≡ some entry')
        × (entry_deps entry' ≡ entry_deps entry1)
  marked_original rest c id entry x e u entry1 e1 = elim (Bool-cases (id == u)) [
    | inr apart ↦
        let (entry', a, b, _) =
          original rest c x u entry1
            (ground (arith, get-insert u id (record entry { phase = Phase.stable }) c.entries)) in
        (entry', a, b)
    | inl same_ ↦
        let same : id ≡ u = (cmd_id_beq_iff id u).0 same_ in
        let (entry', a, b, _) =
          original rest c x u entry (subst (λ w. get w c.entries ≡ some entry) same e) in
        (
          entry',
          a,
          b ∙ ground (arith, get-insert u id (record entry { phase = Phase.stable }) c.entries),
        )
  ]

  -- All that a newly stable command awaits is newly stable.
  Awaits-newly :
      (rest : List CmdId) (c : CmdLog) (id : CmdId) (entry : Entry)
      → Promoting log rest c
      → get id c.entries ≡ some entry
      → is_newly log id ≡ true
      → {w : CmdId} → Awaits (marked c id entry) id w
      → is_newly log w ≡ true
  Awaits-newly rest c id entry x e n root_itself = n
  Awaits-newly rest c id entry x e n (through {id = u} {dep = t} a m) =
      let (entry1, entry2, e1, d, e2) = waiting_split (marked c id entry) u t m in
      let (entry1', a1, b1) = marked_original rest c id entry x e u entry1 e1 in
      let (entry2', a2, b2) = marked_original rest c id entry x e t entry2 e2 in
      is_newly-closed log wf u t entry1' entry2' (Awaits-newly rest c id entry x e n a) a1
        (subst (λ l. contains l t ≡ true) (sym b1) d) a2

-- A command is retired after `ran` has been executed from the log in which it is marked.
module _ (log : CmdLog) (wf : IsWf log) (id : CmdId) (rest : List CmdId) (c : CmdLog)
    (entry : Entry) (lone : contains rest id ≡ false) (newly : is_newly log id ≡ true)
    (x : Promoting log (id ∷ rest) c) (found : get id c.entries ≡ some entry) (ran : CmdId → Bool)
    (c' : CmdLog) (ran_newly : (j : CmdId) → ran j ≡ true → is_newly log j ≡ true)
    (y : Executed ran (marked c id entry) c') where
  abbrev entry_key : Option ℕ
  entry_key = Option.map (λ cmd. cmd.key) entry.cmd

  entries_retired :
      (j : CmdId) → get j (remove id c'.entries) ≡ entry_after log rest (λ k. x.ran k || ran k) j
  entries_retired j = elim (Bool-cases (id == j)) [
    | inl same_ ↦
        let same : id ≡ j = (cmd_id_beq_iff id j).0 same_ in
        rw (← same, get-remove id id c'.entries) (ground (arith, cmd_id_beq_iff id id))
    | inr apart ↦ elim (Option-cases (get j log.entries)) [
      | inl none_ ↦ ground (
        arith,
        get-remove j id c'.entries,
        y.entries j,
        get-insert j id (record entry { phase = Phase.stable }) c.entries,
        x.entries j,
      )
      | inr (entry', some_) ↦ ground (
        arith,
        get-remove j id c'.entries,
        y.entries j,
        get-insert j id (record entry { phase = Phase.stable }) c.entries,
        x.entries j,
      )
    ]
  ]

  bucket_kept : (key : ℕ) → bucket c' key ≡ bucket c key
  bucket_kept key = ap (λ m. Option.get_or (get key m) []) y.by_key

  -- The identifier is in no bucket but that of its command's key.
  other_bucket : (key : ℕ) → entry_key ≢ some key → contains (bucket c' key) id ≡ false
  other_bucket key ne =
      let (entry', e, _, same) = original log wf (id ∷ rest) c x id entry found in
      let filed : is_filed log id key ≡ false = elim (Option-cases entry.cmd) [
        | inl none_ ↦ ground (arith)
        | inr (cmd, some_) ↦ elim (Bool-cases (eqb cmd.key key)) [
          | inl k ↦ absurd (ne (ground (arith)))
          | inr k ↦ ground (arith)
        ]
      ] in
      rw (bucket_kept key) (ground (arith, x.buckets key id, wf.buckets key id))

  retire-Promoting : Promoting log rest (retire id entry_key c')
  unfolding retire
  retire-Promoting = record {
    ran = λ j. x.ran j || ran j;
    ran_newly = λ j r. ground (arith, x.ran_newly j, ran_newly j);
    entries = entries_retired;
    pending = λ j.
        ap (λ l. contains l j) y.pending_commit
        ∙ ground (
          arith,
          HashSet.contains-remove id j c.pending_commit,
          x.pending j,
          cmd_id_beq_iff id j,
        );
    distinct =
        subst (λ l. IsDistinct l) (sym y.pending_commit)
          (HashSet.remove-IsDistinct id c.pending_commit x.distinct);
    stable = λ j.
        HashSet.contains-insert id j c'.stable
        ∙ ground (arith, ap (λ l. contains l j) y.stable, x.stable j, cmd_id_beq_iff id j);
    buckets = λ key j.
        contains-retain_bucket entry_key id c'.by_key key j (other_bucket key)
        ∙ ground
            (arith, ap (λ l. contains l j) (bucket_kept key), x.buckets key j, cmd_id_beq_iff id j);
    once = λ key.
        retain_bucket-IsDistinct entry_key id c'.by_key key
          (λ i. subst (λ l. IsDistinct l) (sym (bucket_kept i)) (x.once i));
  }

module _ (log : CmdLog) (wf : IsWf log) where
  -- One round of the loop returns.
  promote_one-Promoting :
      (h : Host) (id : CmdId) (rest : List CmdId) (c : CmdLog) (m : Metrics)
      → contains rest id ≡ false
      → is_newly log id ≡ true
      → Promoting log (id ∷ rest) c
      → (c' : CmdLog) × (m' : Metrics) × (promote_one h id (c, m) ≡ some (c', m'))
        × Promoting log rest c'
  unfolding promote_one
  promote_one-Promoting h id rest c m lone n x = elim (Option-cases (get id c.entries)) [
    | inl none_ ↦ absurd (elim (Option-cases (get id log.entries)) [
      | inl e ↦ ground (arith, wf.pending id)
      | inr (entry, e) ↦ ground (arith, x.entries id, cmd_id_beq_iff id id)
    ])
    | inr (entry, e) ↦
        let (ran, c1, m1, runs, awaited, y) =
          try_execute_total h id (mark_stable h id entry (c, m)).0
            (mark_stable h id entry (c, m)).1 in
        let runs_newly : (j : CmdId) → ran j ≡ true → is_newly log j ≡ true =
          λ j r. Awaits-newly log wf (id ∷ rest) c id entry x e n (awaited j r) in
        (
          retire id (Option.map (λ cmd. cmd.key) entry.cmd) c1,
          m1,
          rw (e, runs) refl,
          retire-Promoting log wf id rest c entry lone n x e ran c1 runs_newly y,
        )
  ]

  -- The whole loop returns.
  pub promote_all-Promoting :
      (h : Host) (rest : List CmdId) (c : CmdLog) (m : Metrics)
      → IsDistinct rest
      → ((id : CmdId) → contains rest id ≡ true → is_newly log id ≡ true)
      → Promoting log rest c
      → (c' : CmdLog) × (m' : Metrics) × (promote_all h rest (c, m) ≡ some (c', m'))
        × Promoting log [] c'
  unfolding promote_all
  promote_all-Promoting h [] c m d n x = (c, m, refl, x)
  promote_all-Promoting h (id ∷ rest) c m d n x =
      let (c1, m1, e1, x1) =
        promote_one-Promoting h id rest c m d.0 (n id (ground (arith, cmd_id_beq_iff id id))) x in
      let (c2, m2, e2, x2) =
        promote_all-Promoting h rest c1 m1 d.1 (λ j i. n j (ground arith)) x1 in
      (c2, m2, rw e1 e2, x2)
