-- ===== src/Quorum/Grid/Intersection.antt =====
-- Any two response sets that a witness grid accepts share at least as many replicas as its side.
use blsmr.Prelude.{
  ℕ, ◌+◌, ◌*◌, ◌<◌, ◌≤◌, ◌≡◌, ap, sym, subst, ◌∙◌, inl, inr, Bool, true, ◌&&◌, some, List, arith,
  length, get_or, contains, contains-keep, keep, keep-IsDistinct, IsDistinct, nat_eq,
}
use blsmr.HashSet.Size.{overlap, length-le_of_subset}
use blsmr.Quorum.Grid.{
  QuorumSystem, with_faults, cell, is_full_row, is_full_col, is_quorum, count_below,
}
use blsmr.Quorum.Grid.Sides.{side_count_enough, with_faults-IsWf}
use blsmr.Quorum.Grid.Counting.{
  all_below_at, count_below_mono, count_below_all, sum_below, le-sum_below, both_or_apart,
  sum_below_lower, count_rows, count_below-keep,
}

module _ (qs : QuorumSystem) (a b : List ℕ) where
  abbrev in_both : ℕ → Bool
  in_both pid = contains a pid && contains b pid

  -- The shared cells of a row.
  abbrev row_shared : ℕ → ℕ
  row_shared r = count_below qs.n (λ c. in_both (cell qs r c))

  row_a :
      (r : ℕ)
      → r < qs.n
      → is_full_row qs a r ≡ true
      → count_below qs.n (is_full_col qs b) ≤ row_shared r
  row_a r lt full =
      count_below_mono qs.n (is_full_col qs b) (λ c. in_both (cell qs r c))
        λ c lt' col. ground (
          arith,
          all_below_at qs.n (λ k. contains a (cell qs r k)) c full lt',
          all_below_at qs.n (λ k. contains b (cell qs k c)) r col lt,
        )

  row_b :
      (r : ℕ)
      → r < qs.n
      → is_full_row qs b r ≡ true
      → count_below qs.n (is_full_col qs a) ≤ row_shared r
  row_b r lt full =
      count_below_mono qs.n (is_full_col qs a) (λ c. in_both (cell qs r c))
        λ c lt' col. ground (
          arith,
          all_below_at qs.n (λ k. contains b (cell qs r k)) c full lt',
          all_below_at qs.n (λ k. contains a (cell qs k c)) r col lt,
        )

  row_ab : (r : ℕ) → is_full_row qs a r ≡ true → is_full_row qs b r ≡ true → row_shared r ≡ qs.n
  row_ab r fa fb =
      count_below_all qs.n (λ c. in_both (cell qs r c))
        λ c lt. ground (
          arith,
          all_below_at qs.n (λ k. contains a (cell qs r k)) c fa lt,
          all_below_at qs.n (λ k. contains b (cell qs r k)) c fb lt,
        )

  shared_cells :
      qs.n ≤ 2 * (qs.x * qs.x)
      → is_quorum qs a ≡ true
      → is_quorum qs b ≡ true
      → qs.n ≤ sum_below qs.n row_shared
  unfolding is_quorum
  shared_cells enough qa qb = elim (both_or_apart qs.n (is_full_row qs a) (is_full_row qs b)) [
    | inl (r, lt, fa, fb) ↦ omega (arith, row_ab r fa fb, le-sum_below qs.n row_shared r lt)
    | inr apart ↦
        let rows_a : qs.x ≤ count_below qs.n (is_full_row qs a) = ground arith in
        let rows_b : qs.x ≤ count_below qs.n (is_full_row qs b) = ground arith in
        let cols_a : qs.x ≤ count_below qs.n (is_full_col qs a) = ground arith in
        let cols_b : qs.x ≤ count_below qs.n (is_full_col qs b) = ground arith in
        let lower =
          sum_below_lower qs.n row_shared (is_full_row qs a) (is_full_row qs b) qs.x
            (λ r lt f. omega (arith, row_a r lt f)) (λ r lt f. omega (arith, row_b r lt f)) apart in
        add_up (count_below qs.n (is_full_row qs a)) (count_below qs.n (is_full_row qs b)) rows_a
          rows_b lower
  ]
    where
      add_up :
          (ra rb : ℕ)
          → qs.x ≤ ra
          → qs.x ≤ rb
          → qs.x * ra + qs.x * rb ≤ sum_below qs.n row_shared
          → qs.n ≤ sum_below qs.n row_shared
      add_up ra rb ha hb lower = grind arith

  -- The shared cells are the replicas of the pool that are in both sets.
  shared_pids :
      qs.n * qs.n ≡ length qs.flatten_grid
      → sum_below qs.n row_shared ≡ length (keep in_both qs.flatten_grid)
  shared_pids square =
      count_rows qs.n qs.n (λ i. in_both (get_or qs.flatten_grid i 0))
      ∙ ap (λ k. count_below k (λ i. in_both (get_or qs.flatten_grid i 0))) square
      ∙ count_below-keep qs.flatten_grid in_both

-- Two response sets that the witness grid of a pool accepts share at least as many distinct replicas
-- as the grid has rows, 3 f + 2 for a grid that tolerates f faults.
pub grid_overlap :
    (pool a b : List ℕ) (faults : ℕ) (qs : QuorumSystem)
    → IsDistinct pool
    → with_faults pool faults ≡ some qs
    → is_quorum qs a ≡ true
    → is_quorum qs b ≡ true
    → (qs.n * qs.n ≡ length pool) × (qs.n ≤ overlap a b)
grid_overlap pool a b faults qs d made qa qb =
    let (wf, grid) = with_faults-IsWf pool faults qs made in
    let enough : qs.n ≤ 2 * (qs.x * qs.x) = rw wf.side (side_count_enough qs.n) in
    let inside =
      length-le_of_subset (keep (in_both qs a b) qs.flatten_grid) (keep (contains b) a)
        (keep-IsDistinct (in_both qs a b) qs.flatten_grid (subst (λ l. IsDistinct l) (sym grid) d))
        (λ pid m. ground (
          arith,
          contains-keep (in_both qs a b) qs.flatten_grid pid,
          contains-keep (contains b) a pid,
        )) in
    (
      wf.square ∙ ap length grid,
      omega (arith, shared_cells qs a b enough qa qb, shared_pids qs a b wf.square),
    )
