-- ===== src/Tests/Quorums.antt =====
-- Quorum systems of small pools.
use blsmr.Prelude.{
  not, ◌||◌, eqb, ◌+◌, ℕ, ◌*◌, ◌<◌, ◌≤◌, ◌≡◌, refl, true, some, List, [], ◌∷◌, arith, length,
  nat_eq,
}
use blsmr.HashSet.Size.{overlap}
use blsmr.Quorum.Thres
use blsmr.Quorum.Thres.Intersection.{IsResponders, dissemination_overlap, dissemination_short}
use blsmr.Quorum.Thres.Reach.{whole_pool_accepted, witnessing_overlap}
use blsmr.Quorum.Grid
use blsmr.Quorum.Grid.{with_faults}
use blsmr.Quorum.Grid.Sides.{IsWf, with_faults-IsWf}
use blsmr.Quorum.Grid.Intersection.{grid_overlap}
use blsmr.Quorum.Grid.Choice.{IsShuffle, choose_random_quorum_accepted}

abbrev four : List ℕ
four = 1 ∷ 2 ∷ 3 ∷ 4 ∷ []

abbrev first_three : List ℕ
first_three = 1 ∷ 2 ∷ 3 ∷ []

abbrev last_three : List ℕ
last_three = 2 ∷ 3 ∷ 4 ∷ []

first_three-IsResponders : IsResponders four first_three
first_three-IsResponders = record { distinct = ground arith; members = λ pid m. ground arith }

last_three-IsResponders : IsResponders four last_three
last_three-IsResponders = record { distinct = ground arith; members = λ pid m. ground arith }

dissemination_overlap_example : 1 < overlap first_three last_three
unfolding Thres.is_quorum Thres.new
dissemination_overlap_example =
    dissemination_overlap 1 four first_three last_three refl (omega arith) first_three-IsResponders
      last_three-IsResponders refl refl

-- The six replicas of the simulated dissemination systems.
dissemination_short_example :
    (Thres.is_quorum (Thres.new (1 ∷ 2 ∷ 3 ∷ 4 ∷ 5 ∷ 6 ∷ []) 3 2) (1 ∷ 2 ∷ 3 ∷ []) ≡ true)
    × (Thres.is_quorum (Thres.new (1 ∷ 2 ∷ 3 ∷ 4 ∷ 5 ∷ 6 ∷ []) 3 2) (4 ∷ 5 ∷ 6 ∷ []) ≡ true)
    × (overlap {A = ℕ} (1 ∷ 2 ∷ 3 ∷ []) (4 ∷ 5 ∷ 6 ∷ []) ≡ 0)
dissemination_short_example =
    dissemination_short 0 (1 ∷ 2 ∷ 3 ∷ []) [] (4 ∷ 5 ∷ 6 ∷ []) (ground arith) refl refl refl
      (omega arith)

whole_pool_accepted_example :
    (Thres.is_quorum (Thres.new four 3 2) four ≡ true)
    × (Thres.is_quorum (Thres.new four 5 4) four
        ≡ not (eqb (length four) 1 || (eqb (length four) 2 || eqb (length four) 6)))
whole_pool_accepted_example = whole_pool_accepted four (omega arith) (omega arith)

abbrev eleven : List ℕ
eleven = 1 ∷ 2 ∷ 3 ∷ 4 ∷ 5 ∷ 6 ∷ 7 ∷ 8 ∷ 9 ∷ 10 ∷ 11 ∷ []

eleven-IsResponders : IsResponders eleven eleven
eleven-IsResponders = record { distinct = ground arith; members = λ pid m. m }

witnessing_overlap_example : 3 * 2 + 5 ≤ overlap eleven eleven
unfolding Thres.is_quorum Thres.new
witnessing_overlap_example =
    witnessing_overlap 2 eleven eleven eleven refl (omega arith) eleven-IsResponders
      eleven-IsResponders refl refl

-- A grid of two rows and two columns; a quorum is a row with a column.
abbrev grid : Grid.QuorumSystem
grid = record {
  flatten_grid = four;
  n = 2;
  quorum_buffer = [];
  x = 1;
  indices = 0 ∷ 1 ∷ [];
  consensus_committee_size = 1;
}

grid_made : with_faults four 0 ≡ some grid
unfolding with_faults Grid.isqrt Grid.side_count Grid.range
grid_made = refl

grid_overlap_example : (2 * 2 ≡ length four) × (2 ≤ overlap first_three last_three)
unfolding Grid.is_quorum
grid_overlap_example =
    grid_overlap four first_three last_three 0 grid (ground arith) grid_made refl refl

unchanged-IsShuffle : IsShuffle (λ l. l)
unchanged-IsShuffle = record { members = λ l i. refl; once = λ l d. d }

choose_random_quorum_accepted_example :
    (Grid.is_quorum
        (Grid.choose_random_quorum (λ l. l) (λ l. l) grid)
        (Grid.choose_random_quorum (λ l. l) (λ l. l) grid).quorum_buffer
      ≡ true)
    × IsWf (Grid.choose_random_quorum (λ l. l) (λ l. l) grid)
choose_random_quorum_accepted_example =
    choose_random_quorum_accepted (λ l. l) (λ l. l) grid unchanged-IsShuffle unchanged-IsShuffle
      (with_faults-IsWf four 0 grid grid_made).0
