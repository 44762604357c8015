-- ===== src/Log/Closure/Waiting.antt =====
-- `collect_pending_closure` collects the root and the commands not yet executed that it waits for.
use blsmr.Prelude.{
  ℕ, zero, suc, ◌+◌, ◌<◌, ◌≡◌, refl, ◌↔◌, inl, inr, true, ◌||◌, some, List, [], ◌∷◌, arith,
  contains, length, length-keep-le, keep, Bool-cases, Option-cases, IsDistinct, subst,
}
use blsmr.Client.{CmdId, cmd_id_eq, cmd_id_beq_iff}
use blsmr.Map.{get}
use blsmr.Sort.{sort}
use blsmr.Sort.Laws.{contains-sort, sort-IsDistinct, sort-IsSorted, IsSorted}
use blsmr.Log.{CmdLog, entry_deps}
use blsmr.Log.Closure.{
  extend, unseen_edges, walk_fuel, is_waiting, waiting_deps, pending_loop, collect_pending_closure,
}
use blsmr.Log.Closure.Walk.{contains-extend, length-extend, unseen_edges_mono, unseen_edges_seen}

module _ (log : CmdLog) where
  -- The root, and what is reached from it through dependencies that have an entry and have not been
  -- executed.
  pub data Awaits (root : CmdId) : CmdId → Type 0 where
    root_itself : Awaits root root
    through :
        {id dep : CmdId}
        → Awaits root id
        → contains (waiting_deps log id) dep ≡ true
        → Awaits root dep

  pending_loop_total :
      (fuel : ℕ) (stack seen : List CmdId)
      → length stack + unseen_edges log.entries seen < fuel
      → (all : List CmdId) × (pending_loop log fuel stack seen ≡ some all)
  unfolding pending_loop
  pending_loop_total zero stack seen h = elim h [ ]
  pending_loop_total (suc fuel) [] seen h = (seen, refl)
  pending_loop_total (suc fuel) (id ∷ stack) seen h = elim (Bool-cases (contains seen id)) [
    | inl old ↦ rw old (pending_loop_total fuel stack seen (omega arith))
    | inr new ↦ rw new (
        pending_loop_total fuel (extend stack (waiting_deps log id)) (id ∷ seen)
          (elim (Option-cases (get id log.entries)) [
            | inl e ↦ ground (arith, unseen_edges_mono log.entries seen id, length-extend stack [])
            | inr (entry, e) ↦ ground (
              arith,
              unseen_edges_seen log.entries seen id entry,
              length-extend stack (keep (is_waiting log) (entry_deps entry)),
              length-keep-le (is_waiting log) (entry_deps entry),
            )
          ]))
  ]

  record IsExplored (root : CmdId) (stack seen : List CmdId) : Type 0 where
    sound : (id : CmdId) → (contains seen id || contains stack id) ≡ true → Awaits root id
    closed :
        (id dep : CmdId)
        → contains seen id ≡ true
        → contains (waiting_deps log id) dep ≡ true
        → (contains seen dep || contains stack dep) ≡ true
    distinct : IsDistinct seen

  pending_loop_explores :
      (root : CmdId) (fuel : ℕ) (stack seen all : List CmdId)
      → IsExplored root stack seen
      → pending_loop log fuel stack seen ≡ some all
      → IsExplored root [] all
        × ((id : CmdId) → (contains seen id || contains stack id) ≡ true → contains all id ≡ true)
  unfolding pending_loop
  pending_loop_explores root zero stack seen all x h = ground arith
  pending_loop_explores root (suc fuel) [] seen all x h =
      let e : seen ≡ all = ground arith in rw (← e) (x, λ id m. ground arith)
  pending_loop_explores root (suc fuel) (id ∷ stack) seen all x h =
      elim (Bool-cases (contains seen id)) [
        | inl old ↦
            let (y, within) =
              pending_loop_explores root fuel stack seen all
                (record {
                  sound = λ j m. x.sound j (ground arith);
                  closed = λ j dep a b. ground (arith, x.closed j dep a b, cmd_id_beq_iff id dep);
                  distinct = x.distinct;
                })
                (ground arith) in
            (y, λ j m. ground (arith, within j, cmd_id_beq_iff id j))
        | inr new ↦
            let (y, within) =
              pending_loop_explores root fuel (extend stack (waiting_deps log id)) (id ∷ seen) all
                (record {
                  sound = λ j m. elim (Bool-cases (contains (waiting_deps log id) j)) [
                    | inl edge ↦ through (x.sound id (ground (arith, cmd_id_beq_iff id id))) edge
                    | inr other ↦
                        x.sound j (ground (arith, contains-extend stack (waiting_deps log id) j))
                  ];
                  closed = λ j dep a b. ground (
                    arith,
                    x.closed j dep,
                    cmd_id_beq_iff id j,
                    contains-extend stack (waiting_deps log id) dep,
                  );
                  distinct = (new, x.distinct);
                })
                (ground arith) in
            (y, λ j m. within j (ground (arith, contains-extend stack (waiting_deps log id) j)))
      ]

  Awaits-explored :
      {root : CmdId} {all : List CmdId}
      → IsExplored root [] all
      → contains all root ≡ true
      → {id : CmdId} → Awaits root id
      → contains all id ≡ true
  Awaits-explored x here root_itself = here
  Awaits-explored x here (through {id} {dep} w d) =
      ground (arith, x.closed id dep (Awaits-explored x here w) d)

  -- The list that is sorted: distinct, and the commands that the root awaits.
  collected :
      (root : CmdId)
      → (all : List CmdId) × (collect_pending_closure log root ≡ sort all)
        × IsDistinct all
        × ((id : CmdId) → (contains all id ≡ true) ↔ Awaits root id)
  unfolding collect_pending_closure
  collected root =
      let (all, e) = pending_loop_total (walk_fuel log (root ∷ [])) (root ∷ []) [] (omega arith) in
      let (x, within) =
        pending_loop_explores root (walk_fuel log (root ∷ [])) (root ∷ []) [] all
          (record {
            sound = λ id m.
                let same : root ≡ id = ground (arith, cmd_id_beq_iff root id) in
                subst (Awaits root) same root_itself;
            closed = λ id dep a b. cc;
            distinct = tt;
          })
          e in
      (
        all,
        rw e refl,
        x.distinct,
        λ id. (
          λ m. x.sound id (ground arith),
          Awaits-explored x (within root (ground (arith, cmd_id_beq_iff root root))),
        ),
      )

-- The collected commands are the root and what it awaits, each once and in order. The walk ends on
-- every log, cycles included.
pub collect_pending_closure_iff :
    (log : CmdLog) (root : CmdId)
    → ((id : CmdId) → (contains (collect_pending_closure log root) id ≡ true) ↔ Awaits log root id)
      × IsDistinct (collect_pending_closure log root)
      × IsSorted (collect_pending_closure log root)
collect_pending_closure_iff log root =
    let (all, e, distinct, members) = collected log root in
    rw e (
      λ id. rw (contains-sort all id) (members id),
      sort-IsDistinct all distinct,
      sort-IsSorted all,
    )
