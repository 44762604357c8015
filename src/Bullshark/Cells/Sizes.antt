-- ===== src/Bullshark/Cells/Sizes.antt =====
-- Rows of cells that are all as wide.
use blsmr.Prelude.{
  ℕ, zero, suc, ◌<◌, ◌≡◌, refl, ap, ◌⊎◌, inl, inr, Option, some, List, [], ◌∷◌, ◌++◌, arith, length,
  map, get_elem?, >>=-eq-some,
}
use blsmr.Bullshark.Cells.{cell, set_cell, update_at, fill, rest}

module _ {ℓ} {A : Type ℓ} where
  pub length-fill : (n : ℕ) (a : A) → length (fill n a) ≡ n
  length-fill zero a = refl
  length-fill (suc n) a = ap suc (length-fill n a)

  pub get_elem?-fill : (n j : ℕ) (a b : A) → get_elem? (fill n a) j ≡ some b → a ≡ b
  get_elem?-fill zero j a b e = absurd (cc e)
  get_elem?-fill (suc n) zero a b e = ground (arith, e)
  get_elem?-fill (suc n) (suc j) a b e = get_elem?-fill n j a b e

  get_elem?-returns : (xs : List A) (i : ℕ) → i < length xs → (a : A) × (get_elem? xs i ≡ some a)
  get_elem?-returns [] i lt = absurd (omega (arith, lt))
  get_elem?-returns (x ∷ xs) zero lt = (x, refl)
  get_elem?-returns (x ∷ xs) (suc i) lt = get_elem?-returns xs i (omega (arith, lt))

  get_elem?-within : (xs : List A) (i : ℕ) (a : A) → get_elem? xs i ≡ some a → i < length xs
  get_elem?-within [] i a e = absurd (cc e)
  get_elem?-within (x ∷ xs) zero a e = omega arith
  get_elem?-within (x ∷ xs) (suc i) a e = omega (arith, get_elem?-within xs i a e)

-- There are `n` rows of `w` cells.
abbrev pub Sized {ℓ} : {A : Type ℓ} → ℕ → ℕ → List (List A) → Type 0
Sized n w g = map length g ≡ fill n w

module _ {ℓ} {A : Type ℓ} where
  pub Sized-returns :
      (n w i j : ℕ) (g : List (List A))
      → Sized n w g
      → i < n
      → j < w
      → (a : A) × (cell g i j ≡ some a)
  unfolding cell
  Sized-returns zero w i j g size in_n in_w = absurd (omega (arith, in_n))
  Sized-returns (suc n) w i j [] size in_n in_w = absurd (cc size)
  Sized-returns (suc n) w zero j (row ∷ g) size in_n in_w =
      let wide : length row ≡ w = cc size in get_elem?-returns row j (omega (arith, in_w, wide))
  Sized-returns (suc n) w (suc i) j (row ∷ g) size in_n in_w =
      Sized-returns n w i j g (cc size) (omega (arith, in_n)) in_w

  pub Sized-within :
      (n w i j : ℕ) (g : List (List A)) (a : A)
      → Sized n w g
      → cell g i j ≡ some a
      → (i < n) × (j < w)
  unfolding cell
  Sized-within n w i j [] a size e = absurd (cc e)
  Sized-within zero w i j (row ∷ g) a size e = absurd (cc size)
  Sized-within (suc n) w zero j (row ∷ g) a size e =
      let wide : length row ≡ w = cc size in
      (omega arith, omega (arith, get_elem?-within row j a e, wide))
  Sized-within (suc n) w (suc i) j (row ∷ g) a size e =
      let (lt, within) = Sized-within n w i j g a (cc size) e in (omega (arith, lt), within)

  pub Sized-length : (n w : ℕ) (g : List (List A)) → Sized n w g → length g ≡ n
  Sized-length zero w [] size = refl
  Sized-length zero w (row ∷ g) size = absurd (cc size)
  Sized-length (suc n) w [] size = absurd (cc size)
  Sized-length (suc n) w (row ∷ g) size = ap suc (Sized-length n w g (cc size))

  pub Sized-snoc :
      (n w : ℕ) (g : List (List A)) (a : A) → Sized n w g → Sized (suc n) w (g ++ fill w a ∷ [])
  Sized-snoc zero w [] a size = ap (λ (k : ℕ). k ∷ []) (length-fill w a)
  Sized-snoc zero w (row ∷ g) a size = absurd (cc size)
  Sized-snoc (suc n) w [] a size = absurd (cc size)
  Sized-snoc (suc n) w (row ∷ g) a size =
      let wide : length row ≡ w = cc size in
      rw wide (ap (λ l. w ∷ l) (Sized-snoc n w g a (cc size)))

  pub Sized-rest : (n w : ℕ) (g : List (List A)) → Sized (suc n) w g → Sized n w (rest g)
  Sized-rest n w [] size = absurd (cc size)
  Sized-rest n w (row ∷ g) size = cc size

  length-update_at :
      (xs xs' : List A) (i : ℕ) (f : A → Option A)
      → update_at xs i f ≡ some xs'
      → length xs' ≡ length xs
  unfolding update_at
  length-update_at [] xs' i f e = absurd (cc e)
  length-update_at (x ∷ xs) xs' zero f e =
      let (x', e1, e2) = >>=-eq-some (f x) (λ x'. some (x' ∷ xs)) e in
      let same : x' ∷ xs ≡ xs' = ground arith in rw (← same) refl
  length-update_at (x ∷ xs) xs' (suc i) f e =
      let (tail, e1, e2) = >>=-eq-some (update_at xs i f) (λ xs'. some (x ∷ xs')) e in
      let same : x ∷ tail ≡ xs' = ground arith in
      rw (← same) (ap suc (length-update_at xs tail i f e1))

  -- A cell of the rows with one more is one of the rows, or of the new one.
  pub cell-snoc :
      (g : List (List A)) (row : List A) (i j : ℕ) (a : A)
      → cell (g ++ row ∷ []) i j ≡ some a
      → (cell g i j ≡ some a) ⊎ (get_elem? row j ≡ some a)
  unfolding cell
  cell-snoc [] row zero j a e = inr e
  cell-snoc [] row (suc i) j a e = absurd (cc e)
  cell-snoc (r ∷ g) row zero j a e = inl e
  cell-snoc (r ∷ g) row (suc i) j a e = cell-snoc g row i j a e

  pub cell-snoc_kept :
      (g : List (List A)) (row : List A) (i j : ℕ) (a : A)
      → cell g i j ≡ some a
      → cell (g ++ row ∷ []) i j ≡ some a
  unfolding cell
  cell-snoc_kept [] row i j a e = absurd (cc e)
  cell-snoc_kept (r ∷ g) row zero j a e = e
  cell-snoc_kept (r ∷ g) row (suc i) j a e = cell-snoc_kept g row i j a e

  pub cell-rest : (g : List (List A)) (i j : ℕ) → cell (rest g) i j ≡ cell g (suc i) j
  unfolding cell
  cell-rest [] i j = refl
  cell-rest (row ∷ g) i j = refl

module _ {ℓ} {A : Type ℓ} where
  pub Sized-set_cell :
      (n w i j : ℕ) (g g' : List (List A)) (a : A)
      → Sized n w g
      → set_cell g i j a ≡ some g'
      → Sized n w g'
  unfolding set_cell update_at
  Sized-set_cell n w i j [] g' a size e = absurd (cc e)
  Sized-set_cell n w zero j (row ∷ g) g' a size e =
      let (row', e1, e2) = >>=-eq-some (update_at row j (λ _. some a)) (λ x'. some (x' ∷ g)) e in
      let same : row' ∷ g ≡ g' = ground arith in
      rw (← same, length-update_at row row' j (λ _. some a) e1) size
  Sized-set_cell zero w (suc i) j (row ∷ g) g' a size e = absurd (cc size)
  Sized-set_cell (suc n) w (suc i) j (row ∷ g) g' a size e =
      let (tail, e1, e2) = >>=-eq-some (set_cell g i j a) (λ xs'. some (row ∷ xs')) e in
      let same : row ∷ tail ≡ g' = ground arith in
      let wide : length row ≡ w = cc size in
      rw (← same, wide) (ap (λ l. w ∷ l) (Sized-set_cell n w i j g tail a (cc size) e1))
