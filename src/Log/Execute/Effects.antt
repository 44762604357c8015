-- ===== src/Log/Execute/Effects.antt =====
-- What executing a list of commands does to the log and to the metrics.
use mathlib.Core.Option
use blsmr.Prelude.{
  ◌≡◌, refl, ap, sym, ◌∙◌, inl, inr, Bool, true, false, ◌||◌, Option, none, some, List, [], ◌∷◌,
  ◌++◌, arith, contains, contains-append, IsDistinct, append-IsDistinct, append-IsDistinct_split,
  ◌==◌, if◌then◌else◌, Option-cases,
}
use blsmr.Client.{CmdId, cmd_id_eq, cmd_id_beq_iff}
use blsmr.Map.{get, get-insert}
use blsmr.Host.{Host}
use blsmr.Metrics.{Metrics}
use blsmr.Sort.{sort}
use blsmr.Sort.Laws.{contains-sort, sort-IsDistinct}
use blsmr.Log.{Entry, CmdLog}
use blsmr.Log.Scc.Invariant.{concat}
use blsmr.Log.Execute.{count_cmd, execute_one, execute_scc, execute_sccs}

-- The entry after its command has been executed, or left, if `ran` is false.
abbrev pub ran_entry : Bool → Entry → Entry
ran_entry ran entry = record entry { executed = entry.executed || ran }

-- The log with the entries of `ran` executed, and nothing else changed.
pub record Executed (ran : CmdId → Bool) (log log' : CmdLog) : Type 0 where
  pub entries :
      (id : CmdId) → get id log'.entries ≡ Option.map (ran_entry (ran id)) (get id log.entries)
  pub by_key : log'.by_key ≡ log.by_key
  pub pending_commit : log'.pending_commit ≡ log.pending_commit
  pub stable : log'.stable ≡ log.stable

-- The entry that stands for a command in the metrics: known, and not executed.
abbrev pub count_entry : Host → Metrics → Option Entry → Metrics
count_entry h m none = m
count_entry h m (some entry) = if entry.executed then m else count_cmd h m entry.cmd

-- The commands counted in the order of the list, each as the log has it at the start.
pub count_all : Host → CmdLog → List CmdId → Metrics → Metrics
count_all h log [] m = m
count_all h log (id ∷ ids) m = count_all h log ids (count_entry h m (get id log.entries))

pub Executed-none : (log : CmdLog) → Executed (λ _. false) log log
Executed-none log = record {
  entries = λ id. elim (Option-cases (get id log.entries)) [
    | inl e ↦ ground arith
    | inr (entry, e) ↦ ground arith
  ];
  by_key = refl;
  pending_commit = refl;
  stable = refl;
}

execute_one-Executed :
    (h : Host) (id : CmdId) (log : CmdLog) (m : Metrics)
    → Executed (λ j. id == j) log (execute_one h id (log, m)).0
unfolding execute_one
execute_one-Executed h id log m = record {
  entries = λ j. elim (Option-cases (get id log.entries)) [
    | inl e ↦ ground (arith, cmd_id_beq_iff id j)
    | inr (entry, e) ↦
        ground (
          arith,
          cmd_id_beq_iff id j,
          get-insert j id (record entry { executed = true }) log.entries,
        )
  ];
  by_key = ground arith;
  pending_commit = ground arith;
  stable = ground arith;
}

execute_one-count :
    (h : Host) (id : CmdId) (log : CmdLog) (m : Metrics)
    → (execute_one h id (log, m)).1 ≡ count_entry h m (get id log.entries)
unfolding execute_one
execute_one-count h id log m = elim (Option-cases (get id log.entries)) [
  | inl e ↦ ground arith
  | inr (entry, e) ↦ ground arith
]

pub Executed-trans :
    (p q : CmdId → Bool) (a b c : CmdLog)
    → Executed p a b
    → Executed q b c
    → Executed (λ id. p id || q id) a c
Executed-trans p q a b c x y = record {
  entries = λ id. elim (Option-cases (get id a.entries)) [
    | inl e ↦ ground (arith, x.entries id, y.entries id)
    | inr (entry, e) ↦ ground (arith, x.entries id, y.entries id)
  ];
  by_key = y.by_key ∙ x.by_key;
  pending_commit = y.pending_commit ∙ x.pending_commit;
  stable = y.stable ∙ x.stable;
}

execute_scc-Executed :
    (h : Host) (ids : List CmdId) (log : CmdLog) (m : Metrics)
    → Executed (contains ids) log (execute_scc h ids (log, m)).0
unfolding execute_scc
execute_scc-Executed h [] log m = Executed-none log
execute_scc-Executed h (id ∷ ids) log m =
    let s = execute_one h id (log, m) in
    Executed-trans (λ j. id == j) (contains ids) log s.0 (execute_scc h ids s).0
      (execute_one-Executed h id log m) (execute_scc-Executed h ids s.0 s.1)

count_all_cong :
    (h : Host) (log log' : CmdLog) (ids : List CmdId) (m : Metrics)
    → ((id : CmdId) → contains ids id ≡ true → get id log'.entries ≡ get id log.entries)
    → count_all h log' ids m ≡ count_all h log ids m
unfolding count_all
count_all_cong h log log' [] m same = refl
count_all_cong h log log' (id ∷ ids) m same = rw (same id (ground (arith, cmd_id_beq_iff id id))) (
    count_all_cong h log log' ids (count_entry h m (get id log.entries))
      (λ j n. same j (ground arith)))

-- What was not run keeps its entry.
kept :
    (p : CmdId → Bool) (log log' : CmdLog) (id : CmdId)
    → Executed p log log'
    → p id ≡ false
    → get id log'.entries ≡ get id log.entries
kept p log log' id x e = elim (Option-cases (get id log.entries)) [
  | inl none_ ↦ ground (arith, x.entries id)
  | inr (entry, some_) ↦ ground (arith, x.entries id)
]

execute_scc-count :
    (h : Host) (ids : List CmdId) (log : CmdLog) (m : Metrics)
    → IsDistinct ids
    → (execute_scc h ids (log, m)).1 ≡ count_all h log ids m
unfolding execute_scc count_all
execute_scc-count h [] log m d = refl
execute_scc-count h (id ∷ ids) log m d =
    let s = execute_one h id (log, m) in
    execute_scc-count h ids s.0 s.1 d.1
    ∙ count_all_cong h log s.0 ids s.1 (λ j n.
      kept (λ k. id == k) log s.0 j (execute_one-Executed h id log m)
        (ground (arith, cmd_id_beq_iff id j)))
    ∙ ap (count_all h log ids) (execute_one-count h id log m)

-- The order in which the components are run: each is sorted.
pub order : List (List CmdId) → List CmdId
order [] = []
order (scc ∷ sccs) = sort scc ++ order sccs

pub contains-order :
    (sccs : List (List CmdId)) (id : CmdId) → contains (order sccs) id ≡ contains (concat sccs) id
unfolding order
contains-order [] id = refl
contains-order (scc ∷ sccs) id = ground (
  arith,
  contains-append (sort scc) (order sccs) id,
  contains-append scc (concat sccs) id,
  contains-sort scc id,
  contains-order sccs id,
)

pub order-IsDistinct :
    (sccs : List (List CmdId)) → IsDistinct (concat sccs) → IsDistinct (order sccs)
unfolding order
order-IsDistinct [] d = tt
order-IsDistinct (scc ∷ sccs) d =
    let (first, rest, apart) = append-IsDistinct_split scc (concat sccs) d in
    append-IsDistinct (sort scc) (order sccs) (sort-IsDistinct scc first)
      (order-IsDistinct sccs rest)
      (λ w m. ground (arith, apart w, contains-sort scc w, contains-order sccs w))

execute_scc-append :
    (h : Host) (xs ys : List CmdId) (s : CmdLog × Metrics)
    → execute_scc h (xs ++ ys) s ≡ execute_scc h ys (execute_scc h xs s)
unfolding execute_scc
execute_scc-append h [] ys s = refl
execute_scc-append h (x ∷ xs) ys s = execute_scc-append h xs ys (execute_one h x s)

execute_sccs-order :
    (h : Host) (sccs : List (List CmdId)) (s : CmdLog × Metrics)
    → execute_sccs h sccs s ≡ execute_scc h (order sccs) s
unfolding execute_sccs order
execute_sccs-order h [] s = refl
execute_sccs-order h (scc ∷ sccs) s =
    execute_sccs-order h sccs (execute_scc h (sort scc) s)
    ∙ sym (execute_scc-append h (sort scc) (order sccs) s)

-- Running the components marks their members, and nothing else, and counts each member once, in
-- order.
pub execute_sccs_lem :
    (h : Host) (sccs : List (List CmdId)) (log : CmdLog) (m : Metrics)
    → IsDistinct (concat sccs)
    → Executed (contains (order sccs)) log (execute_sccs h sccs (log, m)).0
      × ((execute_sccs h sccs (log, m)).1 ≡ count_all h log (order sccs) m)
execute_sccs_lem h sccs log m d = rw (execute_sccs-order h sccs (log, m)) (
  execute_scc-Executed h (order sccs) log m,
  execute_scc-count h (order sccs) log m (order-IsDistinct sccs d),
)
