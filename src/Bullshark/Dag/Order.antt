-- ===== src/Bullshark/Dag/Order.antt =====
-- What the loop of `order_from` orders.
use blsmr.Prelude.{
  ℕ, zero, suc, ◌+◌, ◌*◌, ◌<◌, ◌≤◌, ◌≡◌, refl, sym, ap, ◌∙◌, subst, ◌⊎◌, inl, inr, Bool, true,
  false, some, List, [], ◌∷◌, ◌++◌, arith, length, length-append, >>=-eq-some, Bool-cases,
}
use blsmr.Host.{Host}
use blsmr.Submission.{SubmittedCommand, Ledger, count_block, mark_all, mark_committed}
use blsmr.Bullshark.Cells.{cell, set_cell, set_cell-returns, unset, unset-set_cell}
use blsmr.Bullshark.Dag.{Vertex, Heap, Dag, row_of, live_edges, widest, order_loop}
use blsmr.Bullshark.Dag.Reach.{
  Among, Among-left, Among-right, Among-append, slot, InDag, IsGraph, Reach, here, via,
  slot-set_new, slot-set_kept, slot-set_returns, slot-set_old, length-live_edges, live_edges-widest,
}

-- What is ordered, `o'`, when the queue is done, and what was before, `o`.
pub record Orders (heap : Heap) (d : Dag) (o o' : List (List Bool)) (queue : List Vertex)
    : Type 0 where
  pub kept : (w : Vertex) → slot d o w ≡ some true → slot d o' w ≡ some true
  pub entered : (w : Vertex) → Among w queue → slot d o' w ≡ some true
  pub closed :
      (w e : Vertex)
      → InDag d w
      → slot d o' w ≡ some true
      → Among e (live_edges heap d w)
      → (slot d o w ≡ some true) ⊎ (slot d o' e ≡ some true)
  pub only :
      (w : Vertex)
      → InDag d w
      → slot d o' w ≡ some true
      → (slot d o w ≡ some true) ⊎ ((v : Vertex) × Among v queue × Reach heap d v w)

mark_all-block_commits :
    (h : Host) (commands : List SubmittedCommand) (l : Ledger)
    → (mark_all h commands l).block_commits ≡ l.block_commits
unfolding mark_all mark_committed
mark_all-block_commits h [] l = refl
mark_all-block_commits h (c ∷ commands) l =
    mark_all-block_commits h commands (mark_committed h c l) ∙ ground arith

pub count_block-block_commits :
    (h : Host) (commands : List SubmittedCommand) (l : Ledger)
    → (count_block h commands l).block_commits ≡ l.block_commits + 1
unfolding count_block
count_block-block_commits h commands l = mark_all-block_commits h commands _

module _ (heap : Heap) (d : Dag) where
  -- A vertex that was ordered before is skipped.
  Orders-skip :
      (o o' : List (List Bool)) (v : Vertex) (queue : List Vertex)
      → slot d o v ≡ some true
      → Orders heap d o o' queue
      → Orders heap d o o' (v ∷ queue)
  Orders-skip o o' v queue done rest = record {
    kept = rest.kept;
    entered = λ w m. elim m [
      | inl same ↦ rest.kept w (subst (λ u. slot d o u ≡ some true) same done)
      | inr later ↦ rest.entered w later
    ];
    closed = rest.closed;
    only = λ w in_w found. elim (rest.only w in_w found) [
      | inl known ↦ inl known
      | inr (u, m, path) ↦ inr (u, inr m, path)
    ];
  }

  -- A vertex that is ordered now, and whose edges are put on the queue.
  Orders-step :
      (o o1 o' : List (List Bool)) (v : Vertex) (queue : List Vertex) (row : ℕ)
      → row_of d v.round ≡ some row
      → InDag d v
      → set_cell o row v.source true ≡ some o1
      → Orders heap d o1 o' (queue ++ live_edges heap d v)
      → Orders heap d o o' (v ∷ queue)
  Orders-step o o1 o' v queue row e in_v s rest =
      let back = λ (w : Vertex) (in_w : InDag d w) (found : slot d o1 w ≡ some true).
        slot-set_old d o o1 true true v w row e in_v in_w s found in
      record {
        kept = λ w known. rest.kept w (slot-set_kept d o o1 true v w row s known);
        entered = λ w m. elim m [
          | inl same ↦
              subst (λ u. slot d o' u ≡ some true) same
                (rest.kept v (slot-set_new d o o1 true v row e s))
          | inr later ↦ rest.entered w (Among-left w queue (live_edges heap d v) later)
        ];
        closed = λ w edge in_w found m. elim (rest.closed w edge in_w found m) [
          | inl now ↦ elim (back w in_w now) [
            | inl same ↦ inr (
                rest.entered edge (
                  Among-right edge queue (live_edges heap d v)
                    (subst (λ u. Among edge (live_edges heap d u)) (sym same) m)))
            | inr before ↦ inl before
          ]
          | inr done ↦ inr done
        ];
        only = λ w in_w found. elim (rest.only w in_w found) [
          | inl now ↦ elim (back w in_w now) [
            | inl same ↦ inr (v, inl refl, subst (λ u. Reach heap d v u) same here)
            | inr before ↦ inl before
          ]
          | inr (u, m, path) ↦ elim (Among-append u queue (live_edges heap d v) m) [
            | inl queued ↦ inr (u, inr queued, path)
            | inr edge ↦ inr (v, inl refl, via edge path)
          ]
        ];
      }

  order_loop-skip :
      (h : Host) (fuel : ℕ) (queue : List Vertex) (o : List (List Bool)) (l : Ledger) (v : Vertex)
      (row : ℕ)
      → row_of d v.round ≡ some row
      → cell o row v.source ≡ some true
      → order_loop h heap (suc fuel) (v ∷ queue) (record d { ordered = o }, l)
        ≡ order_loop h heap fuel queue (record d { ordered = o }, l)
  unfolding order_loop row_of
  order_loop-skip h fuel queue o l v row e old = rw (e, old) refl

  order_loop-take :
      (h : Host) (fuel : ℕ) (queue : List Vertex) (o o1 : List (List Bool)) (l : Ledger)
      (v : Vertex) (row : ℕ)
      → row_of d v.round ≡ some row
      → cell o row v.source ≡ some false
      → set_cell o row v.source true ≡ some o1
      → order_loop h heap (suc fuel) (v ∷ queue) (record d { ordered = o }, l)
        ≡ order_loop h heap fuel
            (queue ++ live_edges heap d v)
            (record d { ordered = o1 }, count_block h v.commands l)
  unfolding order_loop row_of live_edges
  order_loop-take h fuel queue o o1 l v row e new s = rw (e, new, s) refl

  -- Every vertex on the queue is in the graph, and has no more edges than `w`.
  abbrev pub Queued : ℕ → List Vertex → Type 0
  Queued w queue = (v : Vertex) → Among v queue → InDag d v × (length v.strong_edges ≤ w)

  -- With enough fuel the queue is worked off.
  pub order_loop-Orders :
      (h : Host) (fuel w : ℕ) (queue : List Vertex) (o : List (List Bool)) (l : Ledger)
      → IsGraph heap d
      → ((v : Vertex) → InDag d v → (b : Bool) × (slot d o v ≡ some b))
      → widest heap ≤ w
      → Queued w queue
      → length queue + unset o * w < fuel
      → (o' : List (List Bool)) × (l' : Ledger) × (order_loop h heap fuel queue
            (record d { ordered = o }, l)
          ≡ some (record d { ordered = o' }, l'))
        × Orders heap d o o' queue
        × (l'.block_commits + unset o' ≡ l.block_commits + unset o)
  unfolding order_loop
  order_loop-Orders h zero w queue o l graph cells wide queued enough =
      absurd (omega (arith, enough))
  order_loop-Orders h (suc fuel) w [] o l graph cells wide queued enough = (
    o,
    l,
    refl,
    record {
      kept = λ v known. known;
      entered = λ v m. absurd m;
      closed = λ v e in_v found m. inl found;
      only = λ v in_v found. inl found;
    },
    refl,
  )
  order_loop-Orders h (suc fuel) w (v ∷ queue) o l graph cells wide queued enough =
      let (in_v, narrow) = queued v (inl refl) in
      let (b, found) = cells v in_v in
      let (row, e, done) = >>=-eq-some (row_of d v.round) (λ r. cell o r v.source) found in
      elim (Bool-cases b) [
        | inl old ↦
            let already : cell o row v.source ≡ some true = rw (← old) done in
            let (o', l', run, orders, count) =
              order_loop-Orders h fuel w queue o l graph cells wide (λ u m. queued u (inr m))
                (omega (arith, enough)) in
            (
              o',
              l',
              order_loop-skip h fuel queue o l v row e already ∙ run,
              Orders-skip o o' v queue (rw (← old) found) orders,
              count,
            )
        | inr new ↦
            let open_ : cell o row v.source ≡ some false = rw (← new) done in
            let (o1, s) = set_cell-returns o row v.source true false open_ in
            let fewer = unset-set_cell o o1 row v.source open_ s in
            let (o', l', run, orders, count) =
              order_loop-Orders h fuel w (queue ++ live_edges heap d v) o1
                (count_block h v.commands l) graph
                (λ u in_u. slot-set_returns d o o1 true (cells u in_u).0 v u row s (cells u in_u).1)
                wide
                (λ u m. elim (Among-append u queue (live_edges heap d v) m) [
                  | inl later ↦ queued u (inr later)
                  | inr edge ↦ (
                    graph.closed v u in_v edge,
                    omega (arith, wide, live_edges-widest heap d v u edge),
                  )
                ])
                (omega (
                  arith,
                  enough,
                  narrow,
                  ap (λ (n : ℕ). n * w) fewer,
                  length-append queue (live_edges heap d v),
                  length-live_edges heap d v,
                )) in
            (
              o',
              l',
              order_loop-take h fuel queue o o1 l v row e open_ s ∙ run,
              Orders-step o o1 o' v queue row e in_v s orders,
              omega (arith, count, fewer, count_block-block_commits h v.commands l),
            )
      ]
