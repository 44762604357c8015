-- ===== src/Bullshark/Members.antt =====
-- The elements of a list whose type has no test of equality.
use blsmr.Prelude.{
  ◌≡◌, subst, ◌⊎◌, inl, inr, Bool, List, [], ◌∷◌, ◌++◌, if◌then◌else◌, keep, Bool-cases,
}

-- An element of a list.
abbrev pub Among : {A : Type 0} → A → List A → Type 0
Among a [] = ⊥
Among a (x ∷ xs) = (x ≡ a) ⊎ Among a xs

module _ {A : Type 0} where
  pub Among-left : (a : A) (xs ys : List A) → Among a xs → Among a (xs ++ ys)
  Among-left a [] ys m = absurd m
  Among-left a (x ∷ xs) ys (inl e) = inl e
  Among-left a (x ∷ xs) ys (inr m) = inr (Among-left a xs ys m)

  pub Among-right : (a : A) (xs ys : List A) → Among a ys → Among a (xs ++ ys)
  Among-right a [] ys m = m
  Among-right a (x ∷ xs) ys m = inr (Among-right a xs ys m)

  pub Among-append : (a : A) (xs ys : List A) → Among a (xs ++ ys) → Among a xs ⊎ Among a ys
  Among-append a [] ys m = inr m
  Among-append a (x ∷ xs) ys (inl e) = inl (inl e)
  Among-append a (x ∷ xs) ys (inr m) = elim (Among-append a xs ys m) [
    | inl left ↦ inl (inr left)
    | inr right ↦ inr right
  ]

  pub Among-keep : (p : A → Bool) (a : A) (xs : List A) → Among a (keep p xs) → Among a xs
  Among-keep p a [] m = m
  Among-keep p a (x ∷ xs) m = elim (Bool-cases (p x)) [
    | inl good ↦ elim (subst (λ b. Among a (if b then x ∷ keep p xs else keep p xs)) good m) [
      | inl e ↦ inl e
      | inr r ↦ inr (Among-keep p a xs r)
    ]
    | inr bad ↦
        inr
          (Among-keep p a xs (subst (λ b. Among a (if b then x ∷ keep p xs else keep p xs)) bad m))
  ]
