-- ===== src/Bullshark/Replica/Leaders.antt =====
-- Who leads a round, and when asking for its anchor panics.
use blsmr.Prelude.{
  ℕ, ◌+◌, ◌-◌, ◌%◌, ◌<◌, ◌≤◌, ◌≡◌, ◌∙◌, ◌↔◌, inl, inr, Option, some, arith, leb, length, get_elem?,
  Option-cases, Bool-cases,
}
use blsmr.Bullshark.Cells.{cell}
use blsmr.Bullshark.Cells.Sizes.{Sized-returns, Sized-within}
use blsmr.Bullshark.Dag.{Vertex, index, row_of}
use blsmr.Bullshark.Dag.Shape.{IsShaped}
use blsmr.Bullshark.Replica.{Bullshark, get_leader_id, get_anchor}

get_leader_id-within :
    (s : Bullshark) (round : ℕ)
    → 0 < s.proc_num
    → (leader : ℕ) × (get_leader_id s round ≡ some leader) × (1 ≤ leader) × (leader ≤ s.proc_num)
unfolding get_leader_id
get_leader_id-within s round some_ =
    (round % s.proc_num + 1, ground (arith, some_), omega arith, grind (arith, some_))

get_anchor-cell :
    (s : Bullshark) (round row leader : ℕ)
    → row_of s.dag round ≡ some row
    → get_leader_id s round ≡ some leader
    → get_anchor s round ≡ cell s.dag.matrix row leader
unfolding get_anchor index cell
get_anchor-cell s round row leader e lead = elim (Option-cases (get_elem? s.dag.matrix row)) [
  | inl none_ ↦ ground (arith, e, lead, none_)
  | inr (cells, found) ↦ ground (arith, e, lead, found)
]

get_anchor-kept :
    (s : Bullshark) (round : ℕ) (anchor : Option Vertex)
    → get_anchor s round ≡ some anchor
    → s.dag.gc_offset ≤ round
unfolding get_anchor index row_of
get_anchor-kept s round anchor found = elim (Bool-cases (leb s.dag.gc_offset round)) [
  | inl kept ↦ ground (arith, kept)
  | inr gone ↦ absurd (ground (arith, gone, found))
]

-- With replicas and tables of one shape, the anchor of a round is looked up without a panic exactly
-- if the round is a kept one. It is then what the graph holds in that round for a leader between 1
-- and the number of replicas, so never for replica 0.
pub get_anchor_returns_iff :
    (s : Bullshark) (round : ℕ)
    → IsShaped s.dag
    → s.dag.proc_num ≡ s.proc_num
    → 0 < s.proc_num
    → ((s.dag.gc_offset ≤ round) × (round < length s.dag.matrix + s.dag.gc_offset)) ↔ (
        (anchor : Option Vertex) × (leader : ℕ) × (get_anchor s round ≡ some anchor)
        × (cell s.dag.matrix (round - s.dag.gc_offset) leader ≡ some anchor)
        × (1 ≤ leader)
        × (leader ≤ s.proc_num))
unfolding row_of
get_anchor_returns_iff s round shaped width some_ =
    let d = s.dag in
    let n = length d.matrix in
    let w = d.proc_num + 1 in
    let (leader, lead, low, high) = get_leader_id-within s round some_ in
    (
      λ (kept, known).
          let e : row_of d round ≡ some (round - d.gc_offset) = ground (arith, kept) in
          let (anchor, held) =
            Sized-returns n w (round - d.gc_offset) leader d.matrix shaped.matrix
              (omega (arith, kept, known)) (omega (arith, high, width)) in
          (
            anchor,
            leader,
            get_anchor-cell s round (round - d.gc_offset) leader e lead ∙ held,
            held,
            low,
            high,
          ),
      λ (anchor, other, found, held, _, _).
          let (within, _) =
            Sized-within n w (round - d.gc_offset) other d.matrix anchor shaped.matrix held in
          let kept = get_anchor-kept s round anchor found in (kept, omega (arith, kept, within)),
    )
