-- ===== src/Log/Closure/Committed.antt =====
-- `is_deps_closure_committed` decides whether all commands that the dependencies lead to are
-- committed.
use blsmr.Prelude.{
  ℕ, zero, suc, ◌+◌, ◌<◌, ◌≡◌, refl, ◌≢◌, ◌↔◌, inl, inr, Bool, true, false, not, ◌||◌, none, some,
  List, [], ◌∷◌, arith, contains, length, Bool-cases, Option-cases,
}
use blsmr.Client.{CmdId, cmd_id_eq, cmd_id_beq_iff}
use blsmr.Map.{get}
use blsmr.Log.{Entry, CmdLog, entry_deps}
use blsmr.Log.Closure.{
  extend, unseen_edges, is_pending, committed_loop, walk_fuel, is_deps_closure_committed,
}
use blsmr.Log.Closure.Walk.{contains-extend, length-extend, unseen_edges_mono, unseen_edges_seen}

module _ (log : CmdLog) where
  -- Stable, or entered with the phase `Commit` or `Stable`.
  abbrev pub is_committed : CmdId → Bool
  is_committed id =
      contains log.stable id
      || elim (get id log.entries) [ none ↦ false | some entry ↦ not (is_pending entry.phase) ]

  -- The commands that the dependencies lead to. The edges of a stable command are not followed.
  pub data Leads (deps : List CmdId) : CmdId → Type 0 where
    direct : {id : CmdId} → contains deps id ≡ true → Leads deps id
    through :
        {id dep : CmdId} {entry : Entry}
        → Leads deps id
        → contains log.stable id ≡ false
        → get id log.entries ≡ some entry
        → contains (entry_deps entry) dep ≡ true
        → Leads deps dep

  committed_loop_total :
      (fuel : ℕ) (stack seen : List CmdId)
      → length stack + unseen_edges log.entries seen < fuel
      → committed_loop log fuel stack seen ≢ none
  unfolding committed_loop
  committed_loop_total zero stack seen h = elim h [ ]
  committed_loop_total (suc fuel) [] seen h = ground arith
  committed_loop_total (suc fuel) (id ∷ stack) seen h = elim (Option-cases (get id log.entries)) [
    | inl e ↦ ground (
      arith,
      committed_loop_total fuel stack seen,
      committed_loop_total fuel stack (id ∷ seen),
      unseen_edges_mono log.entries seen id,
    )
    | inr (entry, e) ↦ ground (
      arith,
      committed_loop_total fuel stack seen,
      committed_loop_total fuel stack (id ∷ seen),
      unseen_edges_mono log.entries seen id,
      unseen_edges_seen log.entries seen id entry,
      length-extend stack (entry_deps entry),
      committed_loop_total fuel (extend stack (entry_deps entry)) (id ∷ seen),
    )
  ]

  -- A command that the loop rejects is one that the stack leads to.
  committed_loop-false :
      (deps : List CmdId) (fuel : ℕ) (stack seen : List CmdId)
      → ((id : CmdId) → contains stack id ≡ true → Leads deps id)
      → committed_loop log fuel stack seen ≡ some false
      → (id : CmdId) × Leads deps id × (is_committed id ≡ false)
  unfolding committed_loop
  committed_loop-false deps zero stack seen from h = ground arith
  committed_loop-false deps (suc fuel) [] seen from h = ground arith
  committed_loop-false deps (suc fuel) (id ∷ stack) seen from h =
      let here = from id (ground (arith, cmd_id_beq_iff id id)) in
      let below : (j : CmdId) → contains stack j ≡ true → Leads deps j =
        λ j m. from j (ground arith) in
      elim (Bool-cases (contains seen id)) [
        | inl old ↦ committed_loop-false deps fuel stack seen below (ground arith)
        | inr new ↦ elim (Bool-cases (contains log.stable id)) [
          | inl done ↦ committed_loop-false deps fuel stack (id ∷ seen) below (ground arith)
          | inr open_ ↦ elim (Option-cases (get id log.entries)) [
            | inl e ↦ (id, here, ground arith)
            | inr (entry, e) ↦ elim (Bool-cases (is_pending entry.phase)) [
              | inl p ↦ (id, here, ground arith)
              | inr p ↦
                  committed_loop-false deps fuel (extend stack (entry_deps entry)) (id ∷ seen)
                    (λ j m. elim (Bool-cases (contains (entry_deps entry) j)) [
                      | inl edge ↦ through here open_ e edge
                      | inr other ↦
                          below j (ground (arith, contains-extend stack (entry_deps entry) j))
                    ])
                    (ground arith)
            ]
          ]
        ]
      ]

  -- What the loop has seen is committed, and its edges lead to what is seen or waits on the stack.
  record IsExplored (stack seen : List CmdId) : Type 0 where
    committed : (id : CmdId) → contains seen id ≡ true → is_committed id ≡ true
    closed :
        (id dep : CmdId) (entry : Entry)
        → contains seen id ≡ true
        → contains log.stable id ≡ false
        → get id log.entries ≡ some entry
        → contains (entry_deps entry) dep ≡ true
        → (contains seen dep || contains stack dep) ≡ true

  -- When the loop accepts, all that was seen or waited lies in a set that is explored whole.
  committed_loop-true :
      (fuel : ℕ) (stack seen : List CmdId)
      → IsExplored stack seen
      → committed_loop log fuel stack seen ≡ some true
      → (all : List CmdId) × IsExplored [] all
        × ((id : CmdId) → (contains seen id || contains stack id) ≡ true → contains all id ≡ true)
  unfolding committed_loop
  committed_loop-true zero stack seen x h = ground arith
  committed_loop-true (suc fuel) [] seen x h = (seen, x, λ id m. ground arith)
  committed_loop-true (suc fuel) (id ∷ stack) seen x h = elim (Bool-cases (contains seen id)) [
    | inl old ↦
        let (all, closed, within) =
          committed_loop-true fuel stack seen
            (record {
              committed = x.committed;
              closed = λ j dep entry a b c d.
                  ground (arith, x.closed j dep entry a b c d, cmd_id_beq_iff id dep);
            })
            (ground arith) in
        (all, closed, λ j m. ground (arith, within j, cmd_id_beq_iff id j))
    | inr new ↦ elim (Bool-cases (contains log.stable id)) [
      | inl done ↦
          let (all, closed, within) =
            committed_loop-true fuel stack (id ∷ seen)
              (record {
                committed = λ j m. ground (arith, x.committed j, cmd_id_beq_iff id j);
                closed = λ j dep entry a b c d.
                    ground (arith, x.closed j dep entry, cmd_id_beq_iff id j);
              })
              (ground arith) in
          (all, closed, λ j m. within j (ground arith))
      | inr open_ ↦ elim (Option-cases (get id log.entries)) [
        | inl e ↦ ground arith
        | inr (entry, e) ↦ elim (Bool-cases (is_pending entry.phase)) [
          | inl p ↦ ground arith
          | inr p ↦
              let (all, closed, within) =
                committed_loop-true fuel (extend stack (entry_deps entry)) (id ∷ seen)
                  (record {
                    committed = λ j m. ground (arith, x.committed j, cmd_id_beq_iff id j);
                    closed = λ j dep entry' a b c d. ground (
                      arith,
                      x.closed j dep entry',
                      cmd_id_beq_iff id j,
                      contains-extend stack (entry_deps entry) dep,
                    );
                  })
                  (ground arith) in
              (
                all,
                closed,
                λ j m. within j (ground (arith, contains-extend stack (entry_deps entry) j)),
              )
        ]
      ]
    ]
  ]

  closure_total :
      (deps : List CmdId)
      → committed_loop log (walk_fuel log (extend [] deps)) (extend [] deps) [] ≢ none
  closure_total deps = committed_loop_total _ _ _ (omega arith)

  Leads-committed :
      (deps all : List CmdId)
      → IsExplored [] all
      → ((id : CmdId) → contains deps id ≡ true → contains all id ≡ true)
      → {id : CmdId} → Leads deps id
      → contains all id ≡ true
  Leads-committed deps all x within (direct m) = within _ m
  Leads-committed deps all x within (through {id} {dep} {entry} l s e d) =
      ground (arith, x.closed id dep entry (Leads-committed deps all x within l) s e d)

  closure_sound :
      (deps : List CmdId)
      → is_deps_closure_committed log deps ≡ true
      → {id : CmdId} → Leads deps id
      → is_committed id ≡ true
  unfolding is_deps_closure_committed
  closure_sound deps h l =
      let (all, x, within) =
        committed_loop-true (walk_fuel log (extend [] deps)) (extend [] deps) []
          (record { committed = λ id m. cc; closed = λ id dep entry a b c d. cc }) (ground arith) in
      x.committed _ (
        Leads-committed deps all x (λ id m. within id (ground (arith, contains-extend [] deps id)))
          l)

  closure_complete :
      (deps : List CmdId)
      → ((id : CmdId) → Leads deps id → is_committed id ≡ true)
      → is_deps_closure_committed log deps ≡ true
  unfolding is_deps_closure_committed
  closure_complete deps all = elim (Option-cases (committed_loop log fuel stack [])) [
    | inl e ↦ absurd (closure_total deps e)
    | inr (true, e) ↦ rw e refl
    | inr (false, e) ↦
        let (id, l, bad) =
          committed_loop-false deps fuel stack []
            (λ j m. direct (ground (arith, contains-extend [] deps j))) e in
        cc (all id l)
  ]
    where
      stack : List CmdId
      stack = extend [] deps

      fuel : ℕ
      fuel = walk_fuel log stack

-- The walk accepts the dependencies exactly when every command that they lead to, through entries
-- that are not stable yet, is stable or has been committed. It ends on every log, cycles included.
pub is_deps_closure_committed_iff :
    (log : CmdLog) (deps : List CmdId)
    → (is_deps_closure_committed log deps ≡ true)
      ↔ ((id : CmdId) → Leads log deps id → is_committed log id ≡ true)
is_deps_closure_committed_iff log deps =
    (λ h id l. closure_sound log deps h l, closure_complete log deps)
