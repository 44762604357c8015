-- ===== src/Quorum/Grid/Choice.antt =====
-- The quorum that a witness grid chooses at random is one that it accepts.
use blsmr.Prelude.{
  ℕ, zero, suc, ◌+◌, ◌<◌, ◌≤◌, ◌≡◌, refl, ◌∙◌, inl, inr, Bool, true, false, List, [], ◌∷◌, ◌++◌,
  arith, length, take, contains, contains-append, contains-keep, keep, IsDistinct, nat_eq, ltb, eqb,
  eqb_iff, Bool-cases, if◌then◌else◌,
}
use blsmr.HashSet.Size.{length-le_of_subset}
use blsmr.Quorum.Grid.{
  QuorumSystem, range, cell, row_cells, push_rows, col_cells, push_cols, choose_random_quorum,
  count_below, is_full_row, is_full_col, is_quorum,
}
use blsmr.Quorum.Grid.Sides.{
  IsWf, side_count-le, length-range, range-IsDistinct, contains-range_iff,
}
use blsmr.Quorum.Grid.Counting.{all_below_intro}

-- What `shuffle` does to the indices: it only changes their order.
pub record IsShuffle (shuffle : List ℕ → List ℕ) : Type 0 where
  pub members : (l : List ℕ) (i : ℕ) → contains (shuffle l) i ≡ contains l i
  pub once : (l : List ℕ) → IsDistinct l → IsDistinct (shuffle l)

contains-take : (k : ℕ) (l : List ℕ) (i : ℕ) → contains (take k l) i ≡ true → contains l i ≡ true
contains-take zero l i m = cc
contains-take (suc k) [] i m = cc
contains-take (suc k) (a ∷ l) i m = ground (arith, contains-take k l i)

take-IsDistinct : (k : ℕ) (l : List ℕ) → IsDistinct l → IsDistinct (take k l)
take-IsDistinct zero l d = tt
take-IsDistinct (suc k) [] d = tt
take-IsDistinct (suc k) (a ∷ l) d = (ground (arith, contains-take k l a), take-IsDistinct k l d.1)

length-take : (k : ℕ) (l : List ℕ) → k ≤ length l → length (take k l) ≡ k
length-take zero l h = refl
length-take (suc k) [] h = absurd (omega arith)
length-take (suc k) (a ∷ l) h = omega (arith, length-take k l)

length-keep-range : (n : ℕ) (p : ℕ → Bool) → length (keep p (range n)) ≡ count_below n p
unfolding range
length-keep-range zero p = refl
length-keep-range (suc n) p = snoc (range n) (length-keep-range n p)
  where
    snoc :
        (l : List ℕ)
        → length (keep p l) ≡ count_below n p
        → length (keep p (l ++ n ∷ [])) ≡ count_below (suc n) p
    snoc l e = length-keep-snoc l ∙ ground arith
      where
        length-keep-snoc :
            (l : List ℕ)
            → length (keep p (l ++ n ∷ [])) ≡ length (keep p l) + (if p n then 1 else 0)
        length-keep-snoc [] = ground arith
        length-keep-snoc (a ∷ l) = ground (arith, length-keep-snoc l)

-- Distinct indices with a property are no more than all that have it.
length-le-count_below :
    (n : ℕ) (p : ℕ → Bool) (l : List ℕ)
    → IsDistinct l
    → ((i : ℕ) → contains l i ≡ true → (i < n) × (p i ≡ true))
    → length l ≤ count_below n p
length-le-count_below n p l d h = omega (
  arith,
  length-keep-range n p,
  length-le_of_subset l (keep p (range n)) d
      (λ i m. ground (arith, contains-keep p (range n) i, contains-range_iff n i, h i m)),
)

module _ (qs : QuorumSystem) where
  contains-row_cells :
      (r : ℕ) (cs : List ℕ) (c : ℕ)
      → contains cs c ≡ true
      → contains (row_cells qs r cs) (cell qs r c) ≡ true
  unfolding row_cells
  contains-row_cells r [] c m = cc
  contains-row_cells r (k ∷ cs) c m = elim (Bool-cases (eqb k c)) [
    | inl e ↦
        let same : k ≡ c = (eqb_iff k c).0 e in
        rw same (ground (arith, eqb_iff (cell qs r c) (cell qs r c)))
    | inr e ↦ ground (arith, contains-row_cells r cs c)
  ]

  contains-push_rows :
      (rs : List ℕ) (r c : ℕ)
      → contains rs r ≡ true
      → c < qs.n
      → contains (push_rows qs rs) (cell qs r c) ≡ true
  unfolding push_rows
  contains-push_rows [] r c m lt = cc
  contains-push_rows (k ∷ rs) r c m lt =
      contains-append (row_cells qs k (range qs.n)) (push_rows qs rs) (cell qs r c)
      ∙ elim (Bool-cases (eqb k r)) [
        | inl e ↦
            let same : k ≡ r = (eqb_iff k r).0 e in
            let here : contains (row_cells qs k (range qs.n)) (cell qs r c) ≡ true =
              rw same (contains-row_cells r (range qs.n) c ((contains-range_iff qs.n c).1 lt)) in
            ground arith
        | inr e ↦ ground (arith, contains-push_rows rs r c)
      ]

  contains-col_cells :
      (rows : List ℕ) (c : ℕ) (rs : List ℕ) (r : ℕ)
      → contains rows r ≡ false
      → contains rs r ≡ true
      → contains (col_cells qs rows c rs) (cell qs r c) ≡ true
  unfolding col_cells
  contains-col_cells rows c [] r out m = cc
  contains-col_cells rows c (k ∷ rs) r out m = elim (Bool-cases (eqb k r)) [
    | inl e ↦
        let same : k ≡ r = (eqb_iff k r).0 e in
        rw (same, out) (ground (arith, eqb_iff (cell qs r c) (cell qs r c)))
    | inr e ↦ ground (arith, contains-col_cells rows c rs r out)
  ]

  contains-push_cols :
      (rows cs : List ℕ) (r c : ℕ)
      → contains rows r ≡ false
      → contains cs c ≡ true
      → r < qs.n
      → contains (push_cols qs rows cs) (cell qs r c) ≡ true
  unfolding push_cols
  contains-push_cols rows [] r c out m lt = cc
  contains-push_cols rows (k ∷ cs) r c out m lt =
      contains-append (col_cells qs rows k (range qs.n)) (push_cols qs rows cs) (cell qs r c)
      ∙ elim (Bool-cases (eqb k c)) [
        | inl e ↦
            let same : k ≡ c = (eqb_iff k c).0 e in
            let here : contains (col_cells qs rows k (range qs.n)) (cell qs r c) ≡ true =
              rw same
                (contains-col_cells rows c (range qs.n) r out ((contains-range_iff qs.n r).1 lt)) in
            ground arith
        | inr e ↦ ground (arith, contains-push_cols rows cs r c out)
      ]

-- Indices in any order: a permutation of the rows of the grid.
record IsOrder (n : ℕ) (l : List ℕ) : Type 0 where
  indices : (i : ℕ) → contains l i ≡ ltb i n
  distinct : IsDistinct l

IsOrder-shuffle :
    (n : ℕ) (shuffle : List ℕ → List ℕ) (l : List ℕ)
    → IsShuffle shuffle
    → IsOrder n l
    → IsOrder n (shuffle l)
IsOrder-shuffle n shuffle l s o = record {
  indices = λ i. s.members l i ∙ o.indices i;
  distinct = s.once l o.distinct;
}

-- The first k of them are k distinct rows.
IsOrder-take :
    (n k : ℕ) (l : List ℕ)
    → k ≤ n
    → IsOrder n l
    → (length (take k l) ≡ k)
      × IsDistinct (take k l)
      × ((i : ℕ) → contains (take k l) i ≡ true → i < n)
IsOrder-take n k l le o =
    let enough =
      length-le_of_subset (range n) l (range-IsDistinct n)
        (λ i m. ground (arith, contains-range_iff n i, o.indices i)) in
    (
      length-take k l (omega (arith, length-range n)),
      take-IsDistinct k l o.distinct,
      λ i m. ground (arith, contains-take k l i, o.indices i),
    )

module _ (qs : QuorumSystem) (rows cols : List ℕ) where
  abbrev cells : List ℕ
  cells = push_rows qs rows ++ push_cols qs rows cols

  in_rows : (r c : ℕ) → contains rows r ≡ true → c < qs.n → contains cells (cell qs r c) ≡ true
  in_rows r c m lt =
      contains-append (push_rows qs rows) (push_cols qs rows cols) (cell qs r c)
      ∙ ground (arith, contains-push_rows qs rows r c m lt)

  in_cols :
      (r c : ℕ) → contains cols c ≡ true → r < qs.n → c < qs.n → contains cells (cell qs r c) ≡ true
  in_cols r c m lt lt' = elim (Bool-cases (contains rows r)) [
    | inl row ↦ in_rows r c row lt'
    | inr out ↦
        contains-append (push_rows qs rows) (push_cols qs rows cols) (cell qs r c)
        ∙ ground (arith, contains-push_cols qs rows cols r c out m lt)
  ]

  full_rows :
      (k : ℕ)
      → length rows ≡ k
      → IsDistinct rows
      → ((i : ℕ) → contains rows i ≡ true → i < qs.n)
      → k ≤ count_below qs.n (is_full_row qs cells)
  full_rows k len d inside = omega (
    arith,
    length-le-count_below qs.n (is_full_row qs cells) rows d
        (λ r m. (inside r m, all_below_intro qs.n _ (λ c lt. in_rows r c m lt))),
  )

  full_cols :
      (k : ℕ)
      → length cols ≡ k
      → IsDistinct cols
      → ((i : ℕ) → contains cols i ≡ true → i < qs.n)
      → k ≤ count_below qs.n (is_full_col qs cells)
  full_cols k len d inside = omega (
    arith,
    length-le-count_below qs.n (is_full_col qs cells) cols d
        (λ c m. (inside c m, all_below_intro qs.n _ (λ r lt. in_cols r c m lt (inside c m)))),
  )

-- Whatever the two shuffles do, the chosen quorum is accepted, and the grid is fit for the next
-- choice.
pub choose_random_quorum_accepted :
    (shuffle_rows shuffle_cols : List ℕ → List ℕ) (qs : QuorumSystem)
    → IsShuffle shuffle_rows
    → IsShuffle shuffle_cols
    → IsWf qs
    → let qs' = choose_random_quorum shuffle_rows shuffle_cols qs in
      (is_quorum qs' qs'.quorum_buffer ≡ true) × IsWf qs'
unfolding choose_random_quorum is_quorum
choose_random_quorum_accepted shuffle_rows shuffle_cols qs sr sc wf =
    let start : IsOrder qs.n qs.indices = record { indices = wf.indices; distinct = wf.distinct } in
    let by_row = IsOrder-shuffle qs.n shuffle_rows qs.indices sr start in
    let by_col = IsOrder-shuffle qs.n shuffle_cols (shuffle_rows qs.indices) sc by_row in
    let fits : qs.x ≤ qs.n = rw wf.side (side_count-le qs.n) in
    let rows : List ℕ = take qs.x (shuffle_rows qs.indices) in
    let cols : List ℕ = take qs.x (shuffle_cols (shuffle_rows qs.indices)) in
    let (len_r, d_r, in_r) = IsOrder-take qs.n qs.x (shuffle_rows qs.indices) fits by_row in
    let (len_c, d_c, in_c) =
      IsOrder-take qs.n qs.x (shuffle_cols (shuffle_rows qs.indices)) fits by_col in
    (
      ground (
        arith,
        full_rows qs rows cols qs.x len_r d_r in_r,
        full_cols qs rows cols qs.x len_c d_c in_c,
      ),
      record {
        square = wf.square;
        side = wf.side;
        indices = by_col.indices;
        distinct = by_col.distinct;
      },
    )
