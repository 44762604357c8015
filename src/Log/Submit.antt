-- ===== src/Log/Submit.antt =====
-- crates/blsmr/src/log.rs, `record_creation` and `submit`: what they answer and keep.
use mathlib.Core.Option
use blsmr.Prelude.{
  ℕ, ◌≡◌, refl, ap, sym, subst, ◌∙◌, ◌⊎◌, ◌>>=◌, inl, inr, true, false, not, ◌&&◌, Option, none,
  some, List, [], ◌∷◌, ◌++◌, arith, contains, contains-append, IsDistinct, append-IsDistinct,
  filter_map, eqb, eqb_iff, nat_eq, ◌==◌, if◌then◌else◌, Bool-cases, Option-cases,
}
use blsmr.Client.{CmdId, Command, cmd_id_eq, cmd_id_beq_iff}
use blsmr.Map.{get, insert, or_insert, get-insert, get-or_insert}
use blsmr.Log.{
  Entry, CmdLog, new_entry, record_creation_at, live_cmd, bucket, conflicts, fill, submit,
}
use blsmr.Log.Invariant.{IsWf, is_filed}

-- An entry that is new to the log changes nothing that the invariant speaks of.
or_insert-IsWf :
    (log : CmdLog) (cmd_id : CmdId) (now : ℕ)
    → contains log.stable cmd_id ≡ false
    → IsWf log
    → IsWf (record log { entries = or_insert cmd_id (new_entry now) log.entries })
or_insert-IsWf log cmd_id now new wf =
    let at = λ (id : CmdId). get-or_insert id cmd_id (new_entry now) log.entries in
    record {
      pending = λ id. ground (arith, at id, wf.pending id, cmd_id_beq_iff cmd_id id);
      distinct = wf.distinct;
      live = λ id entry e. ground (arith, at id, wf.live id entry, cmd_id_beq_iff cmd_id id);
      idle = λ id entry e. ground (arith, at id, wf.idle id entry, cmd_id_beq_iff cmd_id id);
      apart = λ id m. ground (arith, at id, wf.apart id, cmd_id_beq_iff cmd_id id);
      named = λ id entry cmd e k.
          ground (arith, at id, wf.named id entry cmd, cmd_id_beq_iff cmd_id id);
      buckets = λ key id. ground (arith, at id, wf.buckets key id, cmd_id_beq_iff cmd_id id);
      once = wf.once;
    }

-- `record_creation` keeps the log well formed, for an identifier that is not stable.
pub record_creation_at-IsWf :
    (log : CmdLog) (cmd_id : CmdId) (now : ℕ)
    → contains log.stable cmd_id ≡ false
    → IsWf log
    → IsWf (record_creation_at log cmd_id now)
unfolding record_creation_at
record_creation_at-IsWf log cmd_id now new wf = or_insert-IsWf log cmd_id now new wf

-- The log with the command in its entry and at the end of its bucket.
abbrev filled : CmdLog → Command → Entry → CmdLog
filled log cmd entry = record log {
  entries = insert cmd.id (record entry { cmd = some cmd }) log.entries;
  by_key = insert cmd.key (bucket log cmd.key ++ cmd.id ∷ []) log.by_key;
}

module _ (log : CmdLog) (cmd : Command) (entry : Entry)
    (found : get cmd.id log.entries ≡ some entry) (empty : entry.cmd ≡ none) (wf : IsWf log) where
  at_entry :
      (id : CmdId)
      → get id (filled log cmd entry).entries
        ≡ (if cmd.id == id then some (record entry { cmd = some cmd }) else get id log.entries)
  at_entry id = get-insert id cmd.id (record entry { cmd = some cmd }) log.entries

  at_bucket :
      (key : ℕ)
      → bucket (filled log cmd entry) key
        ≡ (if eqb cmd.key key then bucket log cmd.key ++ cmd.id ∷ [] else bucket log key)
  at_bucket key =
      ground (arith, get-insert key cmd.key (bucket log cmd.key ++ cmd.id ∷ []) log.by_key)

  -- The command is in no bucket yet.
  outside : (key : ℕ) → contains (bucket log key) cmd.id ≡ false
  outside key = ground (arith, wf.buckets key cmd.id)

  filled-IsWf : IsWf (filled log cmd entry)
  filled-IsWf = record {
    pending = λ id. ground (arith, at_entry id, wf.pending id, cmd_id_beq_iff cmd.id id);
    distinct = wf.distinct;
    live = λ id e h. ground (arith, at_entry id, wf.live id e, wf.live cmd.id entry found);
    idle = λ id e h. ground (arith, at_entry id, wf.idle id e, wf.idle cmd.id entry found);
    apart = λ id m. ground (arith, at_entry id, wf.apart id, cmd_id_beq_iff cmd.id id);
    named = λ id e c h k. ground (arith, at_entry id, wf.named id e c, cmd_id_beq_iff cmd.id id);
    buckets = λ key id. elim (Bool-cases (eqb cmd.key key)) [
      | inl same_ ↦
          let same : cmd.key ≡ key = (eqb_iff cmd.key key).0 same_ in
          ap (λ l. contains l id) (at_bucket key)
          ∙ rw same_ (
              ground (
                arith,
                contains-append (bucket log cmd.key) (cmd.id ∷ []) id,
                at_entry id,
                wf.buckets cmd.key id,
                cmd_id_beq_iff cmd.id id,
                outside key,
              ))
      | inr apart ↦
          ap (λ l. contains l id) (at_bucket key)
          ∙ rw apart (
              ground (arith, at_entry id, wf.buckets key id, cmd_id_beq_iff cmd.id id, outside key))
    ];
    once = λ key. rw (at_bucket key) (elim (Bool-cases (eqb cmd.key key)) [
      | inl same ↦ rw same (
          append-IsDistinct (bucket log cmd.key) (cmd.id ∷ []) (wf.once cmd.key) (refl, tt)
            (λ id m. ground (arith, outside cmd.key, cmd_id_beq_iff cmd.id id)))
      | inr apart ↦ rw apart (wf.once key)
    ]);
  }

fill-IsWf :
    (log : CmdLog) (cmd : Command) (entry : Entry)
    → get cmd.id log.entries ≡ some entry
    → IsWf log
    → IsWf (fill log cmd entry)
fill-IsWf log cmd entry e wf = elim (Option-cases entry.cmd) [
  | inr (old, some_) ↦
      let same : fill log cmd entry ≡ log = ground arith in subst IsWf (sym same) wf
  | inl none_ ↦
      let same : fill log cmd entry ≡ filled log cmd entry = ground arith in
      subst IsWf (sym same) (filled-IsWf log cmd entry e none_ wf)
]

filter_map-some :
    (f : CmdId → Option CmdId) (l : List CmdId)
    → ((id : CmdId) → contains l id ≡ true → f id ≡ some id)
    → filter_map f l ≡ l
filter_map-some f [] h = refl
filter_map-some f (id ∷ l) h =
    let here = h id (ground (arith, cmd_id_beq_iff id id)) in
    let rest = filter_map-some f l (λ j m. h j (ground arith)) in ground arith

-- On a well-formed log no command of a bucket is dropped.
conflicts-bucket : (log : CmdLog) (key : ℕ) → IsWf log → conflicts log key ≡ bucket log key
conflicts-bucket log key wf =
    filter_map-some (λ id. live_cmd (get id log.entries)) (bucket log key)
      λ id m. elim (Option-cases (get id log.entries)) [
        | inl e ↦ ground (arith, wf.buckets key id)
        | inr (entry, e) ↦ elim (Option-cases entry.cmd) [
          | inl none_ ↦ ground (arith, wf.buckets key id)
          | inr (cmd, some_) ↦ ground (arith, wf.live id entry e, wf.named id entry cmd e some_)
        ]
      ]

-- The command of the log's entry, if there is one.
abbrev pub known_cmd : CmdLog → CmdId → Option Command
known_cmd log id = get id log.entries >>= (λ (entry : Entry). entry.cmd)

-- What `submit` makes of the entries: the first copy of a command that is not stable is recorded in
-- its entry, and every other entry is left alone.
submit-records :
    (now : ℕ) (log : CmdLog) (cmd : Command)
    → ((contains log.stable cmd.id ≡ false) ⊎ ((submit now log cmd).0 ≡ log))
      × ((contains log.stable cmd.id ≡ true)
          ⊎ (known_cmd (submit now log cmd).0 cmd.id
              ≡ some (Option.get_or (known_cmd log cmd.id) cmd)))
      × ((id : CmdId)
          → (cmd.id ≡ id) ⊎ (get id (submit now log cmd).0.entries ≡ get id log.entries))
unfolding submit
submit-records now log cmd =
    let entry : Entry = Option.get_or (get cmd.id log.entries) (new_entry now) in
    let entered = λ (id : CmdId). get-or_insert id cmd.id (new_entry now) log.entries in
    let mine = cmd_id_beq_iff cmd.id cmd.id in
    let made : CmdLog = record log { entries = or_insert cmd.id (new_entry now) log.entries } in
    elim (Bool-cases (contains log.stable cmd.id)) [
      | inl old ↦
          let same : (submit now log cmd).0 ≡ log = ground (arith, old) in
          (inr same, inl old, λ id. inr (ap (λ (l : CmdLog). get id l.entries) same))
      | inr new ↦ elim (Option-cases entry.cmd) [
        | inr (there, e) ↦
            let same : (submit now log cmd).0 ≡ made = ground (arith, new, e) in
            (
              inl new,
              inr (ap (λ l. known_cmd l cmd.id) same ∙ ground (arith, e, entered cmd.id, mine)),
              λ id. ground (arith, same, entered id, cmd_id_beq_iff cmd.id id),
            )
        | inl e ↦
            let put =
              λ (id : CmdId). get-insert id cmd.id (record entry { cmd = some cmd }) made.entries in
            let same : (submit now log cmd).0 ≡ filled made cmd entry = ground (arith, new, e) in
            (
              inl new,
              inr (ap (λ l. known_cmd l cmd.id) same ∙ ground (arith, e, put cmd.id, mine)),
              λ id. ground (arith, same, put id, entered id, cmd_id_beq_iff cmd.id id),
            )
      ]
    ]

submit-reports :
    (now : ℕ) (log : CmdLog) (cmd : Command)
    → IsWf log
    → let (log', answer) = submit now log cmd in
      IsWf log'
      × IsDistinct answer
      × ((id : CmdId)
          → contains answer id ≡ (not (contains log.stable cmd.id) && is_filed log id cmd.key))
      × (log'.stable ≡ log.stable)
      × (log'.pending_commit ≡ log.pending_commit)
unfolding submit
submit-reports now log cmd wf = elim (Bool-cases (contains log.stable cmd.id)) [
  | inl old ↦ rw old (wf, tt, λ id. refl, refl, refl)
  | inr new ↦
      let entry : Entry = Option.get_or (get cmd.id log.entries) (new_entry now) in
      let entered = or_insert-IsWf log cmd.id now new wf in
      rw new (
        fill-IsWf (record log { entries = or_insert cmd.id (new_entry now) log.entries }) cmd entry
            (ground (
              arith,
              get-or_insert cmd.id cmd.id (new_entry now) log.entries,
              cmd_id_beq_iff cmd.id cmd.id,
            ))
            entered,
        rw (conflicts-bucket log cmd.key wf) (wf.once cmd.key),
        λ id. ap (λ l. contains l id) (conflicts-bucket log cmd.key wf) ∙ wf.buckets cmd.key id,
        ground arith,
        ground arith,
      )
]

-- `submit` keeps the log well formed. For a command that is stable it changes nothing and reports no
-- conflicts. Otherwise the answer names, once each, exactly the commands with the same key that the
-- log knew and that are not stable; afterwards the log knows the command, as the first copy of it had
-- it, every other entry is the one before, and nothing becomes stable or committed.
pub submit_answers :
    (now : ℕ) (log : CmdLog) (cmd : Command)
    → IsWf log
    → let (log', answer) = submit now log cmd in
      IsWf log'
      × IsDistinct answer
      × ((id : CmdId)
          → contains answer id ≡ (not (contains log.stable cmd.id) && is_filed log id cmd.key))
      × (log'.stable ≡ log.stable)
      × (log'.pending_commit ≡ log.pending_commit)
      × ((contains log.stable cmd.id ≡ false) ⊎ (log' ≡ log))
      × ((contains log.stable cmd.id ≡ true)
          ⊎ (known_cmd log' cmd.id ≡ some (Option.get_or (known_cmd log cmd.id) cmd)))
      × ((id : CmdId) → (cmd.id ≡ id) ⊎ (get id log'.entries ≡ get id log.entries))
submit_answers now log cmd wf =
    let (wf', distinct, answer, stable, pending) = submit-reports now log cmd wf in
    let (kept, recorded, others) = submit-records now log cmd in
    (wf', distinct, answer, stable, pending, kept, recorded, others)
