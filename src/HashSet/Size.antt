-- ===== src/HashSet/Size.antt =====
-- The sizes of sets: a set within another is no larger, and two sets overlap by counting.
use blsmr.Prelude.{
  ℕ, ◌+◌, ◌<◌, ◌≤◌, ◌≡◌, inl, inr, Bool, true, not, List, [], ◌∷◌, ◌++◌, arith, Eq, length,
  length-append, contains, contains-append, keep, contains-keep, keep-IsDistinct, IsDistinct,
  append-IsDistinct, Bool-cases,
}
use blsmr.HashSet.{remove, contains-remove}

module _ {ℓ} {A : Type ℓ} ⦃e : Eq A⦄ where
  length-remove-le : (a : A) (s : List A) → length (remove a s) ≤ length s
  unfolding remove
  length-remove-le a [] = omega arith
  length-remove-le a (x ∷ s) = ground (arith, length-remove-le a s)

  length-remove-lt : (a : A) (s : List A) → contains s a ≡ true → length (remove a s) < length s
  unfolding remove
  length-remove-lt a [] m = cc
  length-remove-lt a (x ∷ s) m = ground (arith, length-remove-le a s, length-remove-lt a s)

  pub length-le_of_subset :
      (xs ys : List A)
      → IsDistinct xs
      → ((a : A) → contains xs a ≡ true → contains ys a ≡ true)
      → length xs ≤ length ys
  length-le_of_subset [] ys d sub = omega arith
  length-le_of_subset (x ∷ xs) ys d sub = omega (
    arith,
    length-remove-lt x ys (sub x (ground (arith, e.beq_iff x x))),
    length-le_of_subset xs (remove x ys) d.1
        (λ a m. ground (arith, contains-remove x a ys, sub a, e.beq_iff x a)),
  )

  -- A set within another of no greater size is all of it.
  pub contains_of_length-le :
      (xs ys : List A) (a : A)
      → IsDistinct xs
      → ((b : A) → contains xs b ≡ true → contains ys b ≡ true)
      → length ys ≤ length xs
      → contains ys a ≡ true
      → contains xs a ≡ true
  contains_of_length-le xs ys a d sub le m = elim (Bool-cases (contains xs a)) [
    | inl here ↦ here
    | inr out ↦ absurd (
        omega (
          arith,
          length-remove-lt a ys m,
          length-le_of_subset xs (remove a ys) d
              (λ b n. ground (arith, contains-remove a b ys, sub b, e.beq_iff a b)),
        ))
  ]

  length-keep-not :
      (p : A → Bool) (xs : List A)
      → length (keep p xs) + length (keep (λ a. not (p a)) xs) ≡ length xs
  length-keep-not p [] = omega arith
  length-keep-not p (x ∷ xs) = ground (arith, length-keep-not p xs)

  -- The members that two lists share, counted in the first.
  abbrev pub overlap : List A → List A → ℕ
  overlap xs ys = length (keep (contains ys) xs)

  -- Two sets within a third overlap by what does not fit beside each other.
  pub overlap_lem :
      (xs ys all : List A)
      → IsDistinct xs
      → IsDistinct ys
      → ((a : A) → contains xs a ≡ true → contains all a ≡ true)
      → ((a : A) → contains ys a ≡ true → contains all a ≡ true)
      → length xs + length ys ≤ length all + overlap xs ys
  overlap_lem xs ys all dx dy sx sy =
      let rest : List A = keep (λ a. not (contains ys a)) xs in
      let inside = λ (a : A). contains-keep (λ b. not (contains ys b)) xs a in
      let union =
        length-le_of_subset (rest ++ ys) all
          (append-IsDistinct rest ys (keep-IsDistinct (λ a. not (contains ys a)) xs dx) dy
            (λ a m. ground (arith, inside a)))
          (λ a m. ground (arith, contains-append rest ys a, inside a, sx a, sy a)) in
      omega (arith, union, length-append rest ys, length-keep-not (contains ys) xs)
