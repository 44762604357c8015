-- ===== src/Bullshark/Dag/Collect.antt =====
-- What garbage collection leaves of a graph.
use blsmr.Prelude.{
  ℕ, zero, suc, ◌+◌, ◌-◌, ◌<◌, ◌≤◌, ◌≡◌, min, max, refl, sym, ap, ◌∙◌, subst, ◌↔◌, inl, inr, true,
  ◌&&◌, List, [], ◌∷◌, arith, leb, ltb, if◌then◌else◌, length, keep, filter_map, nat_eq, Bool-cases,
}
use blsmr.Map.{get}
use blsmr.Bullshark.Cells.{cell, rest}
use blsmr.Bullshark.Cells.Sizes.{Sized, Sized-rest, cell-rest}
use blsmr.Bullshark.Dag.{Vertex, Heap, Dag, row_of, live_edges, drop_rounds, gc}
use blsmr.Bullshark.Dag.Reach.{Among, slot, InDag, IsGraph}
use blsmr.Bullshark.Dag.Shape.{IsShaped, IsClosed, closed-IsGraph}

-- One pass of the loop of `gc`.
abbrev drop_one : Dag → Dag
drop_one d = record d {
  matrix = rest d.matrix;
  visited = rest d.visited;
  ordered = rest d.ordered;
  gc_offset = d.gc_offset + 1;
}

-- The graph `d'` is what `d` holds from some round on.
record Drops (d d' : Dag) (offset : ℕ) : Type 0 where
  shaped : IsShaped d'
  offset_is : d'.gc_offset ≡ offset
  later : d.gc_offset ≤ d'.gc_offset
  same : (w : Vertex) → InDag d' w ↔ (InDag d w × (d'.gc_offset ≤ w.round))

length-rest : {A : Type 0} (n : ℕ) (xs : List A) → length xs ≡ suc n → length (rest xs) ≡ n
length-rest n [] e = absurd (omega (arith, e))
length-rest n (x ∷ xs) e = omega (arith, e)

InDag-round : (d : Dag) (w : Vertex) → InDag d w → d.gc_offset ≤ w.round
unfolding row_of
InDag-round d w in_w = elim (Bool-cases (leb d.gc_offset w.round)) [
  | inl kept ↦ ground (arith, kept)
  | inr gone ↦ absurd (ground (arith, gone, in_w))
]

slot-drop_one :
    (d : Dag) (w : Vertex)
    → d.gc_offset + 1 ≤ w.round
    → slot (drop_one d) (rest d.matrix) w ≡ slot d d.matrix w
unfolding row_of
slot-drop_one d w later =
    let next : suc (w.round - (d.gc_offset + 1)) ≡ w.round - d.gc_offset = omega (arith, later) in
    let dropped : leb (d.gc_offset + 1) w.round ≡ true = ground (arith, later) in
    let kept : leb d.gc_offset w.round ≡ true = ground (arith, later) in
    rw (dropped, kept)
      (cell-rest d.matrix (w.round - (d.gc_offset + 1)) w.source
        ∙ ap (λ i. cell d.matrix i w.source) next)

Sized-shrink :
    {A : Type 0} (m n k w : ℕ) (g : List (List A))
    → m ≡ suc n
    → k ≡ n
    → Sized m w g
    → Sized k w (rest g)
Sized-shrink m n k w g e e' size =
    subst (λ i. Sized i w (rest g)) (sym e') (Sized-rest n w g (subst (λ i. Sized i w g) e size))

drop_one-Drops :
    (d : Dag) (n : ℕ)
    → IsShaped d
    → length d.matrix ≡ suc n
    → Drops d (drop_one d) (d.gc_offset + 1)
drop_one-Drops d n shaped e =
    let w = d.proc_num + 1 in
    let fewer = length-rest n d.matrix e in
    let m = length d.matrix in
    let k = length (rest d.matrix) in
    record {
      shaped = record {
        matrix = Sized-shrink m n k w d.matrix e fewer shaped.matrix;
        visited = Sized-shrink m n k w d.visited e fewer shaped.visited;
        ordered = Sized-shrink m n k w d.ordered e fewer shaped.ordered;
      };
      offset_is = refl;
      later = omega arith;
      same = λ v. (
        λ in_v.
            let later = InDag-round (drop_one d) v in_v in
            (sym (slot-drop_one d v later) ∙ in_v, later),
        λ (in_v, later). slot-drop_one d v later ∙ in_v,
      );
    }

drop_rounds-Drops :
    (fuel keep_from : ℕ) (d : Dag)
    → IsShaped d
    → length d.matrix ≤ fuel
    → Drops d
        (drop_rounds fuel keep_from d)
        (max d.gc_offset (min keep_from (d.gc_offset + length d.matrix - 1)))
unfolding drop_rounds
drop_rounds-Drops zero keep_from d shaped enough = record {
  shaped = shaped;
  offset_is = omega (arith, enough);
  later = omega arith;
  same = λ w. (λ in_w. (in_w, InDag-round d w in_w), λ (in_w, _). in_w);
}
drop_rounds-Drops (suc fuel) keep_from d shaped enough =
    elim (Bool-cases (ltb d.gc_offset keep_from && ltb 1 (length d.matrix))) [
      | inr stays ↦ rw stays (record {
        shaped = shaped;
        offset_is = ground (arith, stays);
        later = omega arith;
        same = λ w. (λ in_w. (in_w, InDag-round d w in_w), λ (in_w, _). in_w);
      })
      | inl goes ↦
          let low : d.gc_offset < keep_from = ground (arith, goes) in
          let many : 1 < length d.matrix = ground (arith, goes) in
          let n : ℕ = length d.matrix - 1 in
          let size : length d.matrix ≡ suc n = omega (arith, many) in
          let one = drop_one-Drops d n shaped size in
          let fewer = length-rest n d.matrix size in
          let all_ =
            drop_rounds-Drops fuel keep_from (drop_one d) one.shaped
              (omega (arith, enough, fewer, size)) in
          rw goes (record {
            shaped = all_.shaped;
            offset_is = omega (arith, all_.offset_is, fewer, size, low, many);
            later = omega (arith, all_.later);
            same = λ w. (
              λ in_w.
                  let (before, kept) = (all_.same w).0 in_w in (((one.same w).0 before).0, kept),
              λ (in_w, kept).
                  (all_.same w).1 ((one.same w).1 (in_w, omega (arith, all_.later, kept)), kept),
            );
          })
    ]

keep-later :
    (low high : ℕ) (e : Vertex) (vs : List Vertex)
    → low ≤ high
    → Among e (keep (λ edge. leb high edge.round) vs)
    → Among e (keep (λ edge. leb low edge.round) vs) × (high ≤ e.round)
keep-later low high e [] le m = absurd m
keep-later low high e (v ∷ vs) le m = elim (Bool-cases (leb high v.round)) [
  | inl kept ↦
      let kept' : leb low v.round ≡ true = ground (arith, kept, le) in
      elim (subst
        (λ b. Among e (
          if b
          then v ∷ keep (λ edge. leb high edge.round) vs
          else keep (λ edge. leb high edge.round) vs))
        kept m) [
          | inl same ↦ (rw kept' (inl same), rw (← same) (ground (arith, kept)))
          | inr r ↦
              let (low_r, above) = keep-later low high e vs le r in (rw kept' (inr low_r), above)
        ]
  | inr gone ↦
      let (low_r, above) = keep-later low high e vs le (
        subst
          (λ b. Among e (
            if b
            then v ∷ keep (λ edge. leb high edge.round) vs
            else keep (λ edge. leb high edge.round) vs))
          gone m) in
      (
        elim (Bool-cases (leb low v.round)) [
          | inl kept ↦ rw kept (inr low_r)
          | inr gone' ↦ rw gone' low_r
        ],
        above,
      )
]

live_edges-later :
    (heap : Heap) (d d' : Dag) (v e : Vertex)
    → d.gc_offset ≤ d'.gc_offset
    → Among e (live_edges heap d' v)
    → Among e (live_edges heap d v) × (d'.gc_offset ≤ e.round)
unfolding live_edges
live_edges-later heap d d' v e le m =
    keep-later d.gc_offset d'.gc_offset e (filter_map (λ edge. get edge heap) v.strong_edges) le m

-- Garbage collection moves the first kept round up to the given one, or to the last round if that
-- is lower, and never down. The graph then holds exactly the vertices that it held of the kept
-- rounds, its tables are of one shape, and the live edges of its vertices stay in it.
pub gc-IsGraph :
    (heap : Heap) (d : Dag) (keep_from : ℕ)
    → IsShaped d
    → IsClosed heap d
    → ((gc keep_from d).gc_offset
        ≡ max d.gc_offset (min keep_from (d.gc_offset + length d.matrix - 1)))
      × ((w : Vertex)
          → InDag (gc keep_from d) w ↔ (InDag d w × ((gc keep_from d).gc_offset ≤ w.round)))
      × IsShaped (gc keep_from d)
      × IsClosed heap (gc keep_from d)
      × IsGraph heap (gc keep_from d)
unfolding gc
gc-IsGraph heap d keep_from shaped closed =
    let drops = drop_rounds-Drops (length d.matrix) keep_from d shaped (omega arith) in
    let closed' : IsClosed heap (gc keep_from d) = λ v e in_v m.
      let (in_v', _) = (drops.same v).0 in_v in
      let (m', kept) = live_edges-later heap d (gc keep_from d) v e drops.later m in
      (drops.same e).1 (closed v e in_v' m', kept) in
    (
      drops.offset_is,
      drops.same,
      drops.shaped,
      closed',
      closed-IsGraph heap (gc keep_from d) drops.shaped closed',
    )
