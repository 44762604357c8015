-- ===== src/Quorum/Grid.antt =====
-- crates/quorum/src/grid.rs: witness grids. The pool is laid out as a square grid, and a quorum is
-- x full rows with x full columns.
pub mod Sides
pub mod Counting
pub mod Intersection
pub mod Choice
use blsmr.Prelude.{
  ℕ, zero, suc, ◌+◌, ◌-◌, ◌*◌, ◌/◌, ◌%◌, min, max, Bool, true, false, not, ◌&&◌, Option, none, some,
  List, [], ◌∷◌, ◌++◌, leb, eqb, if◌then◌else◌, length, take, contains, get_or, nat_eq,
}

-- `usize::isqrt`: the largest r with r * r ≤ n.
unfoldable pub isqrt : ℕ → ℕ
isqrt zero = 0
isqrt (suc n) = let r = isqrt n in if leb ((r + 1) * (r + 1)) (suc n) then r + 1 else r

-- `((3.0 * f) / 2.0 + 1.0).sqrt().ceil()` with f = (n - 2) / 3: 3 f / 2 + 1 is n / 2, which the
-- floating-point numbers hold exactly, so this is the least x with n ≤ 2 x².
unfoldable pub side_count : ℕ → ℕ
side_count zero = 0
side_count (suc n) = let x = side_count n in if leb (suc n) (2 * (x * x)) then x else x + 1

pub record QuorumSystem : Type 0 where
  pub flatten_grid : List ℕ
  pub n : ℕ
  pub quorum_buffer : List ℕ
  pub x : ℕ
  pub indices : List ℕ
  pub consensus_committee_size : ℕ

-- `0..n`.
unfoldable pub range : ℕ → List ℕ
range zero = []
range (suc n) = range n ++ n ∷ []

-- `none` is the failed assertion. The committee size wraps around at 2 ^ 64.
unfoldable pub with_faults : List ℕ → ℕ → Option QuorumSystem
with_faults pids faults =
    let size : ℕ = length pids in
    let n : ℕ = isqrt size in
    if eqb (n * n) size
    then some (record {
      flatten_grid = pids;
      n = n;
      quorum_buffer = [];
      x = side_count n;
      indices = range n;
      consensus_committee_size = min ((3 * faults + 1) % 0x1_0000_0000_0000_0000) size;
    })
    else none

-- `n - 2` wraps around for grids of side 0 and 1.
unfoldable pub new : List ℕ → Option QuorumSystem
unfolding with_faults
new pids =
    let n : ℕ = isqrt (length pids) in
    with_faults pids (max ((n + 0x1_0000_0000_0000_0000 - 2) % 0x1_0000_0000_0000_0000 / 3) 1)

abbrev pub idx : QuorumSystem → ℕ → ℕ → ℕ
idx qs row col = row * qs.n + col

-- `flatten_grid[idx(row, col)]`. The grid has n * n cells, so no read meets the default.
abbrev pub cell : QuorumSystem → ℕ → ℕ → ℕ
cell qs row col = get_or qs.flatten_grid (idx qs row col) 0

unfoldable pub size : QuorumSystem → ℕ
size qs = qs.x * isqrt (length qs.flatten_grid)

-- The inner loop over columns, and the loop over the chosen rows.
unfoldable pub row_cells : QuorumSystem → ℕ → List ℕ → List ℕ
row_cells qs r [] = []
row_cells qs r (c ∷ cs) = cell qs r c ∷ row_cells qs r cs

unfoldable pub push_rows : QuorumSystem → List ℕ → List ℕ
unfolding row_cells
push_rows qs [] = []
push_rows qs (r ∷ rs) = row_cells qs r (range qs.n) ++ push_rows qs rs

-- The inner loop over rows, which skips the chosen ones, and the loop over the chosen columns.
unfoldable pub col_cells : QuorumSystem → List ℕ → ℕ → List ℕ → List ℕ
col_cells qs row_indices c [] = []
col_cells qs row_indices c (r ∷ rs) =
    if contains row_indices r
    then col_cells qs row_indices c rs
    else cell qs r c ∷ col_cells qs row_indices c rs

unfoldable pub push_cols : QuorumSystem → List ℕ → List ℕ → List ℕ
unfolding col_cells
push_cols qs row_indices [] = []
push_cols qs row_indices (c ∷ cs) =
    col_cells qs row_indices c (range qs.n) ++ push_cols qs row_indices cs

-- The two arguments are what the generator makes of the two calls of `shuffle`.
unfoldable pub choose_random_quorum :
    (List ℕ → List ℕ) → (List ℕ → List ℕ) → QuorumSystem → QuorumSystem
unfolding push_rows push_cols
choose_random_quorum shuffle_rows shuffle_cols qs =
    let by_row : List ℕ = shuffle_rows qs.indices in
    let by_col : List ℕ = shuffle_cols by_row in
    let row_indices : List ℕ = take qs.x by_row in
    let col_indices : List ℕ = take qs.x by_col in
    record qs {
      indices = by_col;
      quorum_buffer = push_rows qs row_indices ++ push_cols qs row_indices col_indices;
    }

-- `(0..n).all(p)` and `(0..n).filter(p).count()`.
abbrev pub all_below : ℕ → (ℕ → Bool) → Bool
all_below zero p = true
all_below (suc n) p = p n && all_below n p

abbrev pub count_below : ℕ → (ℕ → Bool) → ℕ
count_below zero p = 0
count_below (suc n) p = (if p n then 1 else 0) + count_below n p

abbrev pub is_full_row : QuorumSystem → List ℕ → ℕ → Bool
is_full_row qs pids r = all_below qs.n (λ c. contains pids (cell qs r c))

abbrev pub is_full_col : QuorumSystem → List ℕ → ℕ → Bool
is_full_col qs pids c = all_below qs.n (λ r. contains pids (cell qs r c))

unfoldable pub is_quorum : QuorumSystem → List ℕ → Bool
is_quorum qs pids =
    leb qs.x (count_below qs.n (is_full_row qs pids))
    && leb qs.x (count_below qs.n (is_full_col qs pids))
