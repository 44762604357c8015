-- ===== src/HashSet.antt =====
-- Hash sets as lists without repetition: `contains` is that of lists.
pub mod Size
use blsmr.Prelude.{
  ℕ, suc, ◌+◌, ◌≡◌, refl, ap, ◌↔◌, inl, inr, Bool, true, false, not, ◌&&◌, ◌||◌, List, [], ◌∷◌,
  arith, Eq, ◌==◌, if◌then◌else◌, length, contains, IsDistinct, Bool-cases,
}

module _ {ℓ} {A : Type ℓ} ⦃e : Eq A⦄ where
  -- `insert`, which leaves a member where it is; its result is `!contains`.
  unfoldable pub insert : A → List A → List A
  insert a s = if contains s a then s else a ∷ s

  unfoldable pub remove : A → List A → List A
  remove a [] = []
  remove a (x ∷ s) = if x == a then remove a s else x ∷ remove a s

  pub contains-insert : (a b : A) (s : List A) → contains (insert a s) b ≡ (a == b || contains s b)
  unfolding insert
  contains-insert a b s = elim (Bool-cases (a == b)) [
    | inl h ↦ ground (arith, e.beq_iff a b)
    | inr h ↦ ground arith
  ]

  pub contains-remove :
      (a b : A) (s : List A) → contains (remove a s) b ≡ (not (a == b) && contains s b)
  unfolding remove
  contains-remove a b [] = ground arith
  contains-remove a b (x ∷ s) =
      ground (arith, e.beq_iff x a, e.beq_iff x b, e.beq_iff a b, contains-remove a b s)

  pub insert-IsDistinct : (a : A) (s : List A) → IsDistinct s → IsDistinct (insert a s)
  unfolding insert
  insert-IsDistinct a s d = ground arith

  pub remove-IsDistinct : (a : A) (s : List A) → IsDistinct s → IsDistinct (remove a s)
  unfolding remove
  remove-IsDistinct a [] d = tt
  remove-IsDistinct a (x ∷ s) d = ground (arith, contains-remove a x s, remove-IsDistinct a s)
