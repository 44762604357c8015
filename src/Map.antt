-- ===== src/Map.antt =====
-- Hash maps as association lists: `get`, `insert`, `remove` and `entry(..).or_insert_with(..)`.
pub mod Entries
use mathlib.Core.Option
use blsmr.Prelude.{
  ◌≤◌, ◌≡◌, refl, ◌↔◌, inl, inr, Bool, false, ◌||◌, Option, none, some, List, [], ◌∷◌, arith, Eq,
  ◌==◌, if◌then◌else◌, length, Option-cases,
}

abbrev pub Map {ℓ κ} : Type ℓ → Type κ → Type (ℓ ⊔ κ)
Map K V = List (K × V)

module _ {ℓ κ} {K : Type ℓ} {V : Type κ} ⦃e : Eq K⦄ where
  unfoldable pub get : K → Map K V → Option V
  get k [] = none
  get k ((j, v) ∷ m) = if j == k then some v else get k m

  unfoldable pub contains_key : K → Map K V → Bool
  contains_key k [] = false
  contains_key k ((j, v) ∷ m) = j == k || contains_key k m

  unfoldable pub insert : K → V → Map K V → Map K V
  insert k v [] = (k, v) ∷ []
  insert k v ((j, w) ∷ m) = if j == k then (k, v) ∷ m else (j, w) ∷ insert k v m

  unfoldable pub remove : K → Map K V → Map K V
  remove k [] = []
  remove k ((j, v) ∷ m) = if j == k then remove k m else (j, v) ∷ remove k m

  -- `entry(k).or_insert_with(|| v)`.
  unfoldable pub or_insert : K → V → Map K V → Map K V
  unfolding get insert
  or_insert k v m = elim (get k m) [ none ↦ insert k v m | some _ ↦ m ]

  pub get-insert :
      (j k : K) (v : V) (m : Map K V) → get j (insert k v m) ≡ (if k == j then some v else get j m)
  unfolding get insert
  get-insert j k v [] = refl
  get-insert j k v ((i, w) ∷ m) =
      ground (arith, e.beq_iff k j, e.beq_iff i k, e.beq_iff i j, get-insert j k v m)

  pub get-remove : (j k : K) (m : Map K V) → get j (remove k m) ≡ (if k == j then none else get j m)
  unfolding get remove
  get-remove j k [] = ground arith
  get-remove j k ((i, w) ∷ m) =
      ground (arith, e.beq_iff k j, e.beq_iff i k, e.beq_iff i j, get-remove j k m)

  pub get-or_insert :
      (j k : K) (v : V) (m : Map K V)
      → get j (or_insert k v m) ≡ (if k == j then some (Option.get_or (get k m) v) else get j m)
  unfolding or_insert
  get-or_insert j k v m = elim (Option-cases (get k m)) [
    | inl e ↦ ground (arith, get-insert j k v m)
    | inr (w, h) ↦ ground (arith, e.beq_iff k j)
  ]

  pub contains_key_lem : (k : K) (m : Map K V) → (contains_key k m ≡ false) ↔ (get k m ≡ none)
  unfolding get contains_key
  contains_key_lem k [] = ground arith
  contains_key_lem k ((j, v) ∷ m) = ground (arith, contains_key_lem k m)

  pub length-remove-le : (k : K) (m : Map K V) → length (remove k m) ≤ length m
  unfolding remove
  length-remove-le k [] = omega arith
  length-remove-le k ((j, v) ∷ m) = ground (arith, length-remove-le k m)
