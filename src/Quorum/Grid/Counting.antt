-- ===== src/Quorum/Grid/Counting.antt =====
-- Counting over `0..n`, and over the cells of a grid that is laid out in a list.
use blsmr.Prelude.{
  ℕ, zero, suc, ◌+◌, ◌*◌, ◌<◌, ◌≤◌, ◌≡◌, refl, ◌⊎◌, inl, inr, ◌∙◌, Bool, true, false, ◌&&◌, List,
  [], ◌∷◌, arith, if◌then◌else◌, length, get_or, keep, Bool-cases,
}
use blsmr.Quorum.Grid.{all_below, count_below}

pub all_below_at : (n : ℕ) (p : ℕ → Bool) (i : ℕ) → all_below n p ≡ true → i < n → p i ≡ true
all_below_at zero p i h lt = absurd (omega arith)
all_below_at (suc n) p i h lt = ground (arith, all_below_at n p i)

pub all_below_intro : (n : ℕ) (p : ℕ → Bool) → ((i : ℕ) → i < n → p i ≡ true) → all_below n p ≡ true
all_below_intro zero p h = refl
all_below_intro (suc n) p h = ground (arith, h n, all_below_intro n p (λ i lt. h i (omega arith)))

pub count_below_mono :
    (n : ℕ) (p q : ℕ → Bool)
    → ((i : ℕ) → i < n → p i ≡ true → q i ≡ true)
    → count_below n p ≤ count_below n q
count_below_mono zero p q h = omega arith
count_below_mono (suc n) p q h =
    ground (arith, h n, count_below_mono n p q (λ i lt. h i (omega arith)))

pub count_below_all : (n : ℕ) (p : ℕ → Bool) → ((i : ℕ) → i < n → p i ≡ true) → count_below n p ≡ n
count_below_all zero p h = refl
count_below_all (suc n) p h = ground (arith, h n, count_below_all n p (λ i lt. h i (omega arith)))

abbrev pub sum_below : ℕ → (ℕ → ℕ) → ℕ
sum_below zero f = 0
sum_below (suc n) f = f n + sum_below n f

pub le-sum_below : (n : ℕ) (f : ℕ → ℕ) (i : ℕ) → i < n → f i ≤ sum_below n f
le-sum_below zero f i lt = absurd (omega arith)
le-sum_below (suc n) f i lt = ground (arith, le-sum_below n f i)

-- Either some index has both properties, or none has.
pub both_or_apart :
    (n : ℕ) (p q : ℕ → Bool)
    → ((i : ℕ) × (i < n) × (p i ≡ true) × (q i ≡ true)) ⊎ ((i : ℕ) → i < n → (p i && q i) ≡ false)
both_or_apart zero p q = inr (λ i lt. absurd (omega arith))
both_or_apart (suc n) p q = elim (both_or_apart n p q) [
  | inl (i, lt, a, b) ↦ inl (i, omega arith, a, b)
  | inr apart ↦ elim (Bool-cases (p n && q n)) [
    | inl h ↦ inl (n, omega arith, ground arith, ground arith)
    | inr h ↦ inr (λ i lt. last i lt h apart)
  ]
]
  where
    last :
        (i : ℕ)
        → i < suc n
        → (p n && q n) ≡ false
        → ((j : ℕ) → j < n → (p j && q j) ≡ false)
        → (p i && q i) ≡ false
    last i lt h apart = ground (arith, apart i)

-- Disjoint sets of rows of which each counts for x.
pub sum_below_lower :
    (n : ℕ) (f : ℕ → ℕ) (p q : ℕ → Bool) (x : ℕ)
    → ((i : ℕ) → i < n → p i ≡ true → x ≤ f i)
    → ((i : ℕ) → i < n → q i ≡ true → x ≤ f i)
    → ((i : ℕ) → i < n → (p i && q i) ≡ false)
    → x * count_below n p + x * count_below n q ≤ sum_below n f
sum_below_lower zero f p q x hp hq apart = omega arith
sum_below_lower (suc n) f p q x hp hq apart = ground (
  arith,
  hp n,
  hq n,
  apart n,
  sum_below_lower n f p q x (λ i lt. hp i (omega arith)) (λ i lt. hq i (omega arith))
      (λ i lt. apart i (omega arith)),
)

count_below-add :
    (m n k : ℕ) (p : ℕ → Bool)
    → k ≡ m + n
    → count_below k p ≡ count_below m p + count_below n (λ i. p (m + i))
count_below-add m zero k p e = let same : k ≡ m = omega arith in rw same (omega arith)
count_below-add m (suc n) k p e =
    let same : k ≡ suc (m + n) = omega arith in
    rw same (omega (arith, count_below-add m n (m + n) p refl))

-- The rows together are the cells up to the last one.
pub count_rows :
    (m n : ℕ) (p : ℕ → Bool)
    → sum_below m (λ r. count_below n (λ c. p (r * n + c))) ≡ count_below (m * n) p
count_rows zero n p = let e : 0 * n ≡ 0 = omega arith in rw e refl
count_rows (suc m) n p =
    omega (arith, count_rows m n p, count_below-add (m * n) n (suc m * n) p (omega arith))

count_below_shift :
    (n : ℕ) (p : ℕ → Bool)
    → count_below (suc n) p ≡ (if p 0 then 1 else 0) + count_below n (λ i. p (suc i))
count_below_shift zero p = omega arith
count_below_shift (suc n) p = omega (arith, count_below_shift n p)

-- The positions of a list at which an element passes are as many as the elements that pass.
pub count_below-keep :
    (l : List ℕ) (p : ℕ → Bool) → count_below (length l) (λ i. p (get_or l i 0)) ≡ length (keep p l)
count_below-keep [] p = refl
count_below-keep (a ∷ l) p =
    count_below_shift (length l) (λ i. p (get_or (a ∷ l) i 0))
    ∙ ground (arith, count_below-keep l p)
