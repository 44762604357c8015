-- ===== src/Quorum/Grid/Sides.antt =====
-- The side of a grid and the number of rows and columns that a quorum takes.
use blsmr.Prelude.{
  ℕ, zero, suc, ◌+◌, ◌*◌, ◌<◌, ◌≤◌, ◌≡◌, refl, inl, inr, true, arith, leb, Bool-cases, List, [],
  ◌∷◌, ◌↔◌, some, subst, ltb, eqb, nat_eq, length, length-append, contains, contains-append,
  IsDistinct, append-IsDistinct,
}
use blsmr.Quorum.Grid.{QuorumSystem, isqrt, side_count, range, with_faults}

-- `side_count n` is the least x with n ≤ 2 x².
pub side_count_enough : (n : ℕ) → n ≤ 2 * (side_count n * side_count n)
unfolding side_count
side_count_enough zero = omega arith
side_count_enough (suc n) = elim (Bool-cases (leb (suc n) (2 * (side_count n * side_count n)))) [
  | inl h ↦ ground arith
  | inr h ↦ rw h (omega (arith, side_count_enough n))
]

pub side_count_least : (n x : ℕ) → n ≤ 2 * (x * x) → side_count n ≤ x
unfolding side_count
side_count_least zero x h = omega arith
side_count_least (suc n) x h = elim (Bool-cases (leb (suc n) (2 * (side_count n * side_count n)))) [
  | inl e ↦ rw e (side_count_least n x (omega arith))
  | inr e ↦ rw e (bigger (ground arith))
]
  where
    bigger : 2 * (side_count n * side_count n) < suc n → side_count n + 1 ≤ x
    bigger lt = grind arith

-- A quorum takes at most as many rows and columns as there are.
pub side_count-le : (n : ℕ) → side_count n ≤ n
side_count-le n = side_count_least n n (grind arith)

contains-range : (n i : ℕ) → contains (range n) i ≡ ltb i n
unfolding range
contains-range zero i = ground arith
contains-range (suc n) i = ground (arith, contains-append (range n) (n ∷ []) i, contains-range n i)

pub range-IsDistinct : (n : ℕ) → IsDistinct (range n)
unfolding range
range-IsDistinct zero = tt
range-IsDistinct (suc n) =
    append-IsDistinct (range n) (n ∷ []) (range-IsDistinct n) (refl, tt)
      (λ i m. ground (arith, contains-range n i))

pub length-range : (n : ℕ) → length (range n) ≡ n
unfolding range
length-range zero = refl
length-range (suc n) = omega (arith, length-append (range n) (n ∷ []), length-range n)

pub contains-range_iff : (n i : ℕ) → (contains (range n) i ≡ true) ↔ (i < n)
contains-range_iff n i = ground (arith, contains-range n i)

-- A square grid, and a permutation of the indices of its rows.
pub record IsWf (qs : QuorumSystem) : Type 0 where
  pub square : qs.n * qs.n ≡ length qs.flatten_grid
  pub side : qs.x ≡ side_count qs.n
  pub indices : (i : ℕ) → contains qs.indices i ≡ ltb i qs.n
  pub distinct : IsDistinct qs.indices

-- The constructor checks that the pool is a square.
pub with_faults-IsWf :
    (pool : List ℕ) (faults : ℕ) (qs : QuorumSystem)
    → with_faults pool faults ≡ some qs
    → IsWf qs × (qs.flatten_grid ≡ pool)
unfolding with_faults
with_faults-IsWf pool faults qs made =
    let n : ℕ = isqrt (length pool) in
    elim (Bool-cases (eqb (n * n) (length pool))) [
      | inr h ↦ ground arith
      | inl h ↦ (
        record {
          square = ground arith;
          side = ground arith;
          indices = λ i. ground (arith, contains-range n i);
          distinct =
              let same : range n ≡ qs.indices = ground arith in
              subst (λ l. IsDistinct l) same (range-IsDistinct n);
        },
        ground arith,
      )
    ]
