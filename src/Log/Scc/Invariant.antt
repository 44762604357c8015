-- ===== src/Log/Scc/Invariant.antt =====
-- The invariant of `tarjan_sccs`: what holds of its state between the steps of `strongconnect`.
use blsmr.Prelude.{
  ℕ, ◌<◌, ◌≤◌, ◌≡◌, ◌⊎◌, Bool, true, false, not, ◌&&◌, ◌||◌, none, some, List, [], ◌∷◌, ◌++◌, arith,
  contains, contains-append, length, keep, IsDistinct,
}
use mathlib.Core.List.{append-nil, append_assoc}
use blsmr.Client.{CmdId, cmd_id_eq}
use blsmr.Map.{get}
use blsmr.Log.{CmdLog}
use blsmr.Log.Scc.{State, deps_of}

abbrev pub concat : List (List CmdId) → List CmdId
concat [] = []
concat (scc ∷ sccs) = scc ++ concat sccs

pub concat-snoc :
    (sccs : List (List CmdId)) (scc : List CmdId) → concat (sccs ++ scc ∷ []) ≡ concat sccs ++ scc
concat-snoc [] scc = append-nil scc
concat-snoc (c ∷ sccs) scc = simp (concat-snoc sccs scc, append_assoc)

abbrev pub emitted : State → CmdId → Bool
emitted s w = contains (concat s.sccs) w

abbrev pub is_indexed : State → CmdId → Bool
is_indexed s w = elim (get w s.index) [ none ↦ false | some _ ↦ true ]

module _ (log : CmdLog) (node_set : List CmdId) where
  -- A dependency among the nodes.
  abbrev pub is_edge : CmdId → CmdId → Bool
  is_edge u t = contains (deps_of log u) t && contains node_set t

  -- Dependencies among the nodes that lead from one command to another.
  pub data Chain (u : CmdId) : CmdId → Type 0 where
    stay : Chain u u
    along : {w t : CmdId} → Chain u w → is_edge w t ≡ true → Chain u t

  pub Chain-trans : {u w t : CmdId} → Chain u w → Chain w t → Chain u t
  Chain-trans c stay = c
  Chain-trans c (along d e) = along (Chain-trans c d) e

  -- The members of each component lead to one another.
  abbrev pub AllConnected : List (List CmdId) → Type 0
  AllConnected [] = Unit {0}
  AllConnected (scc ∷ sccs) =
      ((u t : CmdId) → contains scc u ≡ true → contains scc t ≡ true → Chain u t)
      × AllConnected sccs

  pub AllConnected-snoc :
      (sccs : List (List CmdId)) (scc : List CmdId)
      → AllConnected sccs
      → ((u t : CmdId) → contains scc u ≡ true → contains scc t ≡ true → Chain u t)
      → AllConnected (sccs ++ scc ∷ [])
  AllConnected-snoc [] scc first last = (last, tt)
  AllConnected-snoc (c ∷ sccs) scc first last = (first.0, AllConnected-snoc sccs scc first.1 last)

  -- No component depends on a later one: what its members depend on is in it or in `before`, which
  -- collects the components already listed.
  abbrev pub DepsFirst : List CmdId → List (List CmdId) → Type 0
  DepsFirst before [] = Unit {0}
  DepsFirst before (scc ∷ sccs) =
      ((u t : CmdId)
        → contains scc u ≡ true
        → is_edge u t ≡ true
        → (contains before t || contains scc t) ≡ true)
      × DepsFirst (before ++ scc) sccs

  pub DepsFirst-snoc :
      (before : List CmdId) (sccs : List (List CmdId)) (scc : List CmdId)
      → DepsFirst before sccs
      → ((u t : CmdId)
          → contains scc u ≡ true
          → is_edge u t ≡ true
          → (contains before t || contains (concat sccs) t || contains scc t) ≡ true)
      → DepsFirst before (sccs ++ scc ∷ [])
  DepsFirst-snoc before [] scc first last = (λ u t m e. ground (arith, last u t m e), tt)
  DepsFirst-snoc before (c ∷ sccs) scc first last = (
    first.0,
    DepsFirst-snoc (before ++ c) sccs scc first.1 (λ u t m e.
        ground
          (arith, last u t m e, contains-append before c t, contains-append c (concat sccs) t)),
  )

  -- The nodes that have no index yet.
  abbrev pub unindexed : State → ℕ
  unindexed s = length (keep (λ w. not (is_indexed s w)) node_set)

  -- Every index on the stack is at least `floor`.
  pub record IsWf (floor : ℕ) (s : State) : Type 0 where
    pub distinct : IsDistinct s.stack
    pub on_stack : (w : CmdId) → contains s.on_stack w ≡ contains s.stack w
    pub indexed : (w : CmdId) → is_indexed s w ≡ (contains s.stack w || emitted s w)
    pub fresh : (w : CmdId) (i : ℕ) → get w s.index ≡ some i → i < s.counter
    pub above : (w : CmdId) (i : ℕ) → contains s.stack w ≡ true → get w s.index ≡ some i → floor ≤ i
    pub counter : floor ≤ s.counter
    pub apart : (w : CmdId) → contains s.stack w ≡ true → emitted s w ≡ false
    pub within : (w : CmdId) → is_indexed s w ≡ true → contains node_set w ≡ true
    pub once : IsDistinct (concat s.sccs)
    pub deps_first : DepsFirst [] s.sccs
    pub connected : AllConnected s.sccs

  -- `low` is the index of a command that was on the stack already and that `v` leads to.
  abbrev pub Falls : CmdId → State → State → ℕ → Type 0
  Falls v s s' low =
      (t : CmdId) × (contains s.stack t ≡ true) × (get t s'.index ≡ some low) × Chain v t

  -- `t` is in a component, or on the stack with an index of at least `low`.
  abbrev pub Settled : State → ℕ → CmdId → Type 0
  Settled s low t =
      (emitted s t ≡ true)
      ⊎ ((i : ℕ) × (get t s.index ≡ some i) × (low ≤ i) × (contains s.stack t ≡ true))

  -- A later state keeps the indices, the components, and the low links of what is on the stack.
  pub record Extends (s s' : State) : Type 0 where
    pub index : (w : CmdId) (i : ℕ) → get w s.index ≡ some i → get w s'.index ≡ some i
    pub low : (w : CmdId) → contains s.stack w ≡ true → get w s'.low_link ≡ get w s.low_link
    pub emits : (w : CmdId) → emitted s w ≡ true → emitted s' w ≡ true

  -- What the call at `v` makes of `s`: it leaves a segment above the old stack, empty if the
  -- component of `v` is closed, whose dependencies are settled and whose commands lead to `v` and
  -- `v` to them. If it is not empty, `v` leads to the old stack.
  pub record Visited (floor : ℕ) (v : CmdId) (s s' : State) : Type 0 where
    pub wf : IsWf floor s'
    pub extends : Extends s s'
    pub segment : List CmdId
    pub stack : s'.stack ≡ segment ++ s.stack
    pub low : ℕ
    pub low_eq : get v s'.low_link ≡ some low
    pub own : get v s'.index ≡ some s.counter
    pub low_le : low ≤ s.counter
    pub floor_le : floor ≤ low
    pub shut : ((segment ≡ []) × (low ≡ s.counter)) ⊎ ((low < s.counter) × Falls v s s' low)
    pub high :
        (u : CmdId) (i : ℕ) → contains segment u ≡ true → get u s'.index ≡ some i → s.counter ≤ i
    pub reached : (u : CmdId) → contains segment u ≡ true → Chain v u
    pub back : (u : CmdId) → contains segment u ≡ true → Chain u v
    pub settled : (u t : CmdId) → contains segment u ≡ true → is_edge u t ≡ true → Settled s' low t

  -- The state inside the call at `v`, which began in `s`, when the dependencies `seen` are done.
  pub record Visiting (floor : ℕ) (v : CmdId) (s : State) (seen : List CmdId) (s' : State)
      : Type 0 where
    pub wf : IsWf floor s'
    pub extends : Extends s s'
    pub new : contains s.stack v ≡ false
    pub segment : List CmdId
    pub stack : s'.stack ≡ segment ++ v ∷ s.stack
    pub low : ℕ
    pub low_eq : get v s'.low_link ≡ some low
    pub own : get v s'.index ≡ some s.counter
    pub low_le : low ≤ s.counter
    pub floor_le : floor ≤ low
    pub settled : (u t : CmdId) → contains segment u ≡ true → is_edge u t ≡ true → Settled s' low t
    pub below : (t : CmdId) → contains s.stack t ≡ true → Chain t v
    pub falls : (low ≡ s.counter) ⊎ Falls v s s' low
    pub high :
        (u : CmdId) (i : ℕ) → contains segment u ≡ true → get u s'.index ≡ some i → s.counter ≤ i
    pub reached : (u : CmdId) → contains segment u ≡ true → Chain v u
    pub back : (u : CmdId) → contains segment u ≡ true → Chain u v
    pub own_settled :
        (t : CmdId) → contains seen t ≡ true → contains node_set t ≡ true → Settled s' low t
