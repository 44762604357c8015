-- ===== src/Log/Scc/Settle.antt =====
-- How the steps inside `strongconnect` act on the invariant: a dependency that is settled, and a low
-- link that falls.
use blsmr.Prelude.{
  ℕ, ◌<◌, ◌≤◌, min, ◌≡◌, ap, sym, subst, ◌∙◌, ◌⊎◌, inl, inr, Bool, true, false, not, some, List, [],
  ◌∷◌, arith, contains, contains-append, length, keep, Bool-cases, Option-cases,
}
use blsmr.Client.{CmdId, cmd_id_eq, cmd_id_beq_iff}
use blsmr.Map.{Map, get, insert, get-insert}
use blsmr.Log.{CmdLog}
use blsmr.Log.Scc.{State}
use blsmr.Log.Scc.Invariant.{
  stay, along, Falls, is_edge, is_indexed, unindexed, IsWf, Settled, Visited, Visiting,
}
use blsmr.Log.Scc.Chains.{stack_low, Falls-min}

abbrev pub lowered : CmdId → ℕ → State → State
lowered v low s = record s { low_link = insert v low s.low_link }

length-keep_mono :
    (p q : CmdId → Bool) (l : List CmdId)
    → ((w : CmdId) → p w ≡ true → q w ≡ true)
    → length (keep p l) ≤ length (keep q l)
length-keep_mono p q [] h = omega arith
length-keep_mono p q (w ∷ l) h = ground (arith, h w, length-keep_mono p q l h)

length-keep_lt :
    (p q : CmdId → Bool) (l : List CmdId) (v : CmdId)
    → ((w : CmdId) → p w ≡ true → q w ≡ true)
    → contains l v ≡ true
    → p v ≡ false
    → q v ≡ true
    → length (keep p l) < length (keep q l)
length-keep_lt p q [] v h m pv qv = cc
length-keep_lt p q (w ∷ l) v h m pv qv = elim (Bool-cases (cmd_id_eq.beq w v)) [
  | inl e ↦
      let same : w ≡ v = (cmd_id_beq_iff w v).0 e in
      let pw : p w ≡ false = subst (λ u. p u ≡ false) (sym same) pv in
      let qw : q w ≡ true = subst (λ u. q u ≡ true) (sym same) qv in
      rw (pw, qw) (omega (arith, length-keep_mono p q l h))
  | inr e ↦ ground (arith, h w, length-keep_lt p q l v h (ground arith) pv qv)
]

module _ (log : CmdLog) (node_set : List CmdId) where
  pub unindexed_mono :
      (s s' : State)
      → ((w : CmdId) (i : ℕ) → get w s.index ≡ some i → get w s'.index ≡ some i)
      → unindexed log node_set s' ≤ unindexed log node_set s
  unindexed_mono s s' h =
      length-keep_mono (λ w. not (is_indexed s' w)) (λ w. not (is_indexed s w)) node_set
        λ w e. elim (Option-cases (get w s.index)) [
          | inl none_ ↦ ground arith
          | inr (i, some_) ↦ ground (arith, h w i some_)
        ]

  pub unindexed_lt :
      (s s' : State) (v : CmdId)
      → ((w : CmdId) (i : ℕ) → get w s.index ≡ some i → get w s'.index ≡ some i)
      → contains node_set v ≡ true
      → is_indexed s v ≡ false
      → is_indexed s' v ≡ true
      → unindexed log node_set s' < unindexed log node_set s
  unindexed_lt s s' v h m old new =
      length-keep_lt (λ w. not (is_indexed s' w)) (λ w. not (is_indexed s w)) node_set v
        (λ w e. elim (Option-cases (get w s.index)) [
          | inl none_ ↦ ground arith
          | inr (i, some_) ↦ ground (arith, h w i some_)
        ])
        m (ground arith) (ground arith)

module _ (log : CmdLog) (node_set : List CmdId) (floor : ℕ) where
  -- What was settled stays settled through a call, and under a smaller low link.
  pub Settled-later :
      (w : CmdId) (s s' : State) (low low' : ℕ) (t : CmdId)
      → Visited log node_set floor w s s'
      → low' ≤ low
      → Settled log node_set s low t
      → Settled log node_set s' low' t
  Settled-later w s s' low low' t y h (inl e) = inl (y.extends.emits t e)
  Settled-later w s s' low low' t y h (inr (i, e, le, m)) = inr (
    i,
    y.extends.index t i e,
    omega arith,
    ap (λ l. contains l t) y.stack ∙ contains-append y.segment s.stack t ∙ ground (arith, m),
  )

  pub Settled-lower :
      (s : State) (low low' : ℕ) (t : CmdId)
      → low' ≤ low
      → Settled log node_set s low t
      → Settled log node_set s low' t
  Settled-lower s low low' t h (inl e) = inl e
  Settled-lower s low low' t h (inr (i, e, le, m)) = inr (i, e, omega arith, m)

  -- The invariant says nothing of the low links.
  pub IsWf-low_link :
      (s : State) (low_link : Map CmdId ℕ)
      → IsWf log node_set floor s
      → IsWf log node_set floor (record s { low_link = low_link })
  IsWf-low_link s low_link wf = record {
    distinct = wf.distinct;
    on_stack = wf.on_stack;
    indexed = wf.indexed;
    fresh = wf.fresh;
    above = wf.above;
    counter = wf.counter;
    apart = wf.apart;
    within = wf.within;
    once = wf.once;
    deps_first = wf.deps_first;
    connected = wf.connected;
  }

  -- A dependency that is settled already.
  pub Visiting_skip :
      (v w : CmdId) (s s' : State) (seen : List CmdId)
      → (x : Visiting log node_set floor v s seen s')
      → (contains node_set w ≡ true → Settled log node_set s' x.low w)
      → Visiting log node_set floor v s (w ∷ seen) s'
  Visiting_skip v w s s' seen x h = record {
    wf = x.wf;
    extends = x.extends;
    new = x.new;
    segment = x.segment;
    stack = x.stack;
    low = x.low;
    low_eq = x.low_eq;
    own = x.own;
    low_le = x.low_le;
    floor_le = x.floor_le;
    settled = x.settled;
    below = x.below;
    falls = x.falls;
    high = x.high;
    reached = x.reached;
    back = x.back;
    own_settled = λ t m n. elim (Bool-cases (cmd_id_eq.beq w t)) [
      | inl e ↦
          let same : w ≡ t = (cmd_id_beq_iff w t).0 e in
          subst (λ u. Settled log node_set s' x.low u) same
            (h (subst (λ u. contains node_set u ≡ true) (sym same) n))
      | inr e ↦ x.own_settled t (ground arith) n
    ];
  }

  -- The low link of `v` falls.
  pub Visiting_lower :
      (v : CmdId) (low : ℕ) (s s' : State) (seen : List CmdId)
      → (x : Visiting log node_set floor v s seen s') → low ≤ x.low
      → floor ≤ low
      → (low ≡ s.counter) ⊎ Falls log node_set v s s' low
      → Visiting log node_set floor v s seen (lowered v low s')
  Visiting_lower v low s s' seen x le floor_le falls = record {
    wf = IsWf-low_link s' (insert v low s'.low_link) x.wf;
    extends = record {
      index = x.extends.index;
      low = λ u m.
          ground
            (arith, get-insert u v low s'.low_link, cmd_id_beq_iff v u, x.new, x.extends.low u m);
      emits = x.extends.emits;
    };
    new = x.new;
    segment = x.segment;
    stack = x.stack;
    low = low;
    low_eq = ground (arith, get-insert v v low s'.low_link, cmd_id_beq_iff v v);
    own = x.own;
    low_le = omega (arith, x.low_le);
    floor_le = floor_le;
    settled = λ u t m e. Settled-lower s' x.low low t le (x.settled u t m e);
    below = x.below;
    falls = falls;
    high = x.high;
    reached = x.reached;
    back = x.back;
    own_settled = λ t m n. Settled-lower s' x.low low t le (x.own_settled t m n);
  }

  -- The low link of `v` takes the index of a dependency on the stack into account.
  pub Visiting_stacked :
      (v w : CmdId) (i : ℕ) (s s' : State) (seen : List CmdId)
      → (x : Visiting log node_set floor v s seen s') → get w s'.index ≡ some i
      → contains s'.stack w ≡ true
      → is_edge log node_set v w ≡ true
      → Visiting log node_set floor v s (w ∷ seen) (lowered v (min x.low i) s')
  unfolding Visiting_lower
  Visiting_stacked v w i s s' seen x old stacked edge =
      Visiting_skip v w s (lowered v (min x.low i) s') seen
        (Visiting_lower v (min x.low i) s s' seen x (omega arith)
          (omega (arith, x.floor_le, x.wf.above w i stacked old))
          (Falls-min log node_set v s s' x.low i x.falls (λ lt. (
            w,
            stack_low log node_set floor v s s' seen x w i stacked old (omega (arith, x.low_le)),
            old,
            along stay edge,
          ))))
        (λ m. inr (i, old, omega arith, stacked))
