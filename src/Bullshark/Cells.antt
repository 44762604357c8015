-- ===== src/Bullshark/Cells.antt =====
-- Rows of cells, as a `VecDeque` of vectors. `none` is an index out of range.
pub mod Sizes
use blsmr.Prelude.{
  ℕ, zero, suc, ◌+◌, ◌≡◌, refl, inl, inr, Bool, true, false, ◌&&◌, Option, none, some, List, [],
  ◌∷◌, arith, eqb, eqb_iff, if◌then◌else◌, get_elem?, ◌>>=◌, Bool-cases, >>=-eq-some,
}

-- The list with one element changed.
unfoldable pub update_at {ℓ} : {A : Type ℓ} → List A → ℕ → (A → Option A) → Option (List A)
update_at [] i f = none
update_at (x ∷ xs) zero f = do x' ← f x; some (x' ∷ xs)
update_at (x ∷ xs) (suc i) f = do xs' ← update_at xs i f; some (x ∷ xs')

-- `vec![a; n]`, and `pop_front`.
abbrev pub fill {ℓ} : {A : Type ℓ} → ℕ → A → List A
fill zero a = []
fill (suc n) a = a ∷ fill n a

abbrev pub rest {ℓ} : {A : Type ℓ} → List A → List A
rest [] = []
rest (x ∷ xs) = xs

module _ {ℓ} {A : Type ℓ} where
  -- `grid[i][j]`.
  unfoldable pub cell : List (List A) → ℕ → ℕ → Option A
  cell g i j = do row ← get_elem? g i; get_elem? row j

  -- `grid[i][j] = a`.
  unfoldable pub set_cell : List (List A) → ℕ → ℕ → A → Option (List (List A))
  unfolding update_at
  set_cell g i j a = update_at g i (λ row. update_at row j (λ _. some a))

  update_at-get :
      (xs xs' : List A) (i k : ℕ) (f : A → Option A)
      → update_at xs i f ≡ some xs'
      → get_elem? xs' k ≡ (if eqb i k then get_elem? xs i >>= f else get_elem? xs k)
  unfolding update_at
  update_at-get [] xs' i k f e = cc
  update_at-get (x ∷ xs) xs' zero k f e =
      let (x', e1, e2) = >>=-eq-some (f x) (λ x'. some (x' ∷ xs)) e in
      let same : x' ∷ xs ≡ xs' = ground arith in
      rw (← same) (elim k [ zero ↦ ground (arith, e1) | suc k ↦ ground arith ])
  update_at-get (x ∷ xs) xs' (suc i) zero f e =
      let (rest, e1, e2) = >>=-eq-some (update_at xs i f) (λ xs'. some (x ∷ xs')) e in
      let same : x ∷ rest ≡ xs' = ground arith in rw (← same) (ground arith)
  update_at-get (x ∷ xs) xs' (suc i) (suc k) f e =
      let (rest, e1, e2) = >>=-eq-some (update_at xs i f) (λ xs'. some (x ∷ xs')) e in
      let same : x ∷ rest ≡ xs' = ground arith in
      rw (← same) (ground (arith, update_at-get xs rest i k f e1))

  update_at-returns :
      (xs : List A) (i : ℕ) (f : A → Option A) (a b : A)
      → get_elem? xs i ≡ some a
      → f a ≡ some b
      → (xs' : List A) × (update_at xs i f ≡ some xs')
  unfolding update_at
  update_at-returns [] i f a b e e' = absurd (cc e)
  update_at-returns (x ∷ xs) zero f a b e e' =
      (b ∷ xs, (let same : x ≡ a = ground arith in rw (same, e') refl))
  update_at-returns (x ∷ xs) (suc i) f a b e e' =
      let (rest, e1) = update_at-returns xs i f a b e e' in (x ∷ rest, rw e1 refl)

  update_at-present :
      (xs xs' : List A) (i : ℕ) (f : A → Option A)
      → update_at xs i f ≡ some xs'
      → (a : A) × (b : A) × (get_elem? xs i ≡ some a) × (f a ≡ some b)
  unfolding update_at
  update_at-present [] xs' i f e = absurd (cc e)
  update_at-present (x ∷ xs) xs' zero f e =
      let (x', e1, e2) = >>=-eq-some (f x) (λ x'. some (x' ∷ xs)) e in (x, x', refl, e1)
  update_at-present (x ∷ xs) xs' (suc i) f e =
      let (rest, e1, e2) = >>=-eq-some (update_at xs i f) (λ xs'. some (x ∷ xs')) e in
      update_at-present xs rest i f e1

module _ {ℓ} {A : Type ℓ} where
  pub cell-set_cell :
      (g g' : List (List A)) (i j k m : ℕ) (a : A)
      → set_cell g i j a ≡ some g'
      → cell g' k m ≡ (if eqb i k && eqb j m then some a else cell g k m)
  unfolding cell set_cell
  cell-set_cell g g' i j k m a e =
      let f = λ (row : List A). update_at row j (λ _. some a) in
      let (row, row', e1, e2) = update_at-present g g' i f e in
      let (x, _, e3, _) = update_at-present row row' j (λ _. some a) e2 in
      elim (Bool-cases (eqb i k)) [
        | inl same ↦
            let ik : i ≡ k = (eqb_iff i k).0 same in
            let found : get_elem? g' k ≡ some row' =
              ground (arith, update_at-get g g' i k f e, same, e1, e2) in
            rw (found, same, ← ik, e1)
              (ground (arith, update_at-get row row' j m (λ _. some a) e2, e3))
        | inr other ↦
            let found : get_elem? g' k ≡ get_elem? g k =
              ground (arith, update_at-get g g' i k f e, other) in
            rw (found, other) refl
      ]

  pub set_cell-returns :
      (g : List (List A)) (i j : ℕ) (a b : A)
      → cell g i j ≡ some b
      → (g' : List (List A)) × (set_cell g i j a ≡ some g')
  unfolding cell set_cell
  set_cell-returns g i j a b e =
      let (row, e1, e2) = >>=-eq-some (get_elem? g i) (λ row. get_elem? row j) e in
      let (row', e3) = update_at-returns row j (λ _. some a) b a e2 refl in
      update_at-returns g i (λ row. update_at row j (λ _. some a)) row row' e1 e3

-- The cells of a row, and of all rows, that are not set.
abbrev pub unset_row : List Bool → ℕ
unset_row [] = 0
unset_row (b ∷ row) = (if b then 0 else 1) + unset_row row

abbrev pub unset : List (List Bool) → ℕ
unset [] = 0
unset (row ∷ g) = unset_row row + unset g

unset_row-update_at :
    (row row' : List Bool) (j : ℕ)
    → get_elem? row j ≡ some false
    → update_at row j (λ _. some true) ≡ some row'
    → unset_row row ≡ suc (unset_row row')
unfolding update_at
unset_row-update_at [] row' j e u = absurd (cc e)
unset_row-update_at (b ∷ row) row' zero e u =
    let same : true ∷ row ≡ row' = ground arith in rw (← same) (ground arith)
unset_row-update_at (b ∷ row) row' (suc j) e u =
    let (rest, e1, e2) = >>=-eq-some (update_at row j (λ _. some true)) (λ xs'. some (b ∷ xs')) u in
    let same : b ∷ rest ≡ row' = ground arith in
    rw (← same) (omega (arith, unset_row-update_at row rest j e e1))

pub unset-set_cell :
    (g g' : List (List Bool)) (i j : ℕ)
    → cell g i j ≡ some false
    → set_cell g i j true ≡ some g'
    → unset g ≡ suc (unset g')
unfolding cell set_cell update_at
unset-set_cell [] g' i j e u = absurd (cc e)
unset-set_cell (row ∷ g) g' zero j e u =
    let (row', e1, e2) = >>=-eq-some (update_at row j (λ _. some true)) (λ x'. some (x' ∷ g)) u in
    let same : row' ∷ g ≡ g' = ground arith in
    rw (← same) (omega (arith, unset_row-update_at row row' j e e1))
unset-set_cell (row ∷ g) g' (suc i) j e u =
    let (rest, e1, e2) = >>=-eq-some (set_cell g i j true) (λ xs'. some (row ∷ xs')) u in
    let same : row ∷ rest ≡ g' = ground arith in
    rw (← same) (omega (arith, unset-set_cell g rest i j e e1))
