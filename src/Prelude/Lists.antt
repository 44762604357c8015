-- ===== src/Prelude/Lists.antt =====
-- Lists measured by native numbers, and Boolean versions of the iterator methods.
use Prim.Native.Nat.{ℕ, zero, suc, ◌+◌, ◌≤◌}
use mathlib.Core.Path.{◌≡◌, refl}
use mathlib.Core.Bool.{Bool, true, false, ◌&&◌, ◌||◌}
use mathlib.Core.Option.{Option, none, some}
use mathlib.Core.Logic.{◌↔◌, inl, inr}
use mathlib.Core.List.{List, [], ◌∷◌, ◌++◌}
use native.Mathlib.Omega.{arith}
use blsmr.Prelude.Tests.{if◌then◌else◌, Eq, ◌==◌, Bool-cases}

module _ {ℓ} {A : Type ℓ} where
  abbrev pub length : List A → ℕ
  length [] = 0
  length (x ∷ xs) = suc (length xs)

  abbrev pub get_elem? : List A → ℕ → Option A
  get_elem? [] i = none
  get_elem? (x ∷ xs) zero = some x
  get_elem? (x ∷ xs) (suc i) = get_elem? xs i

  abbrev pub get_or : List A → ℕ → A → A
  get_or [] i d = d
  get_or (x ∷ xs) zero d = x
  get_or (x ∷ xs) (suc i) d = get_or xs i d

  abbrev pub take : ℕ → List A → List A
  take zero xs = []
  take (suc n) [] = []
  take (suc n) (x ∷ xs) = x ∷ take n xs

  -- `iter().filter(p)`, `iter().all(p)` and `iter().any(p)`.
  abbrev pub keep : (A → Bool) → List A → List A
  keep p [] = []
  keep p (x ∷ xs) = if p x then x ∷ keep p xs else keep p xs

  abbrev pub all : (A → Bool) → List A → Bool
  all p [] = true
  all p (x ∷ xs) = p x && all p xs

  abbrev pub any : (A → Bool) → List A → Bool
  any p [] = false
  any p (x ∷ xs) = p x || any p xs

  pub length-append : (xs ys : List A) → length (xs ++ ys) ≡ length xs + length ys
  length-append [] ys = omega arith
  length-append (x ∷ xs) ys = omega (arith, length-append xs ys)

  pub length-keep-le : (p : A → Bool) (xs : List A) → length (keep p xs) ≤ length xs
  length-keep-le p [] = omega arith
  length-keep-le p (x ∷ xs) = ground (arith, length-keep-le p xs)

module _ {ℓ} {A : Type ℓ} ⦃e : Eq A⦄ where
  -- `contains` of a slice.
  abbrev pub contains : List A → A → Bool
  contains [] a = false
  contains (x ∷ xs) a = x == a || contains xs a

  pub contains-append :
      (xs ys : List A) (a : A) → contains (xs ++ ys) a ≡ (contains xs a || contains ys a)
  contains-append [] ys a = refl
  contains-append (x ∷ xs) ys a = ground (arith, contains-append xs ys a)

  -- No element twice.
  abbrev pub IsDistinct : List A → Type 0
  IsDistinct [] = Unit {0}
  IsDistinct (x ∷ xs) = (contains xs x ≡ false) × IsDistinct xs

  pub contains-keep :
      (p : A → Bool) (l : List A) (a : A) → contains (keep p l) a ≡ (p a && contains l a)
  contains-keep p [] a = ground arith
  contains-keep p (x ∷ l) a = elim (Bool-cases (x == a)) [
    | inl h ↦
        let same : x ≡ a = (e.beq_iff x a).0 h in
        rw same (ground (arith, contains-keep p l a, e.beq_iff a a))
    | inr h ↦ ground (arith, contains-keep p l a)
  ]

  pub keep-IsDistinct : (p : A → Bool) (l : List A) → IsDistinct l → IsDistinct (keep p l)
  keep-IsDistinct p [] d = tt
  keep-IsDistinct p (x ∷ l) d = ground (arith, contains-keep p l x, keep-IsDistinct p l)

  -- Two lists without repetition that share nothing.
  pub append-IsDistinct :
      (xs ys : List A)
      → IsDistinct xs
      → IsDistinct ys
      → ((a : A) → contains xs a ≡ true → contains ys a ≡ false)
      → IsDistinct (xs ++ ys)
  append-IsDistinct [] ys dx dy apart = dy
  append-IsDistinct (x ∷ xs) ys dx dy apart = (
    ground (arith, contains-append xs ys x, apart x, e.beq_iff x x),
    append-IsDistinct xs ys dx.1 dy (λ a m. apart a (ground arith)),
  )

  -- The parts of a list without repetition have none either, and share nothing.
  pub append-IsDistinct_split :
      (xs ys : List A)
      → IsDistinct (xs ++ ys)
      → IsDistinct xs × IsDistinct ys × ((a : A) → contains xs a ≡ true → contains ys a ≡ false)
  append-IsDistinct_split [] ys d = (tt, d, λ a m. cc)
  append-IsDistinct_split (x ∷ xs) ys d =
      let (dx, dy, apart) = append-IsDistinct_split xs ys d.1 in
      (
        (ground (arith, contains-append xs ys x), dx),
        dy,
        λ a m. ground (arith, apart a, contains-append xs ys x, e.beq_iff x a),
      )

-- `iter().filter_map(f)`.
abbrev pub filter_map {ℓ κ} : {A : Type ℓ} {B : Type κ} → (A → Option B) → List A → List B
filter_map f [] = []
filter_map f (x ∷ xs) = elim (f x) [ none ↦ filter_map f xs | some y ↦ y ∷ filter_map f xs ]

-- `PartialEq` of slices.
module _ {ℓ} {A : Type ℓ} ⦃e : Eq A⦄ where
  abbrev pub list_beq : List A → List A → Bool
  list_beq [] [] = true
  list_beq [] (y ∷ ys) = false
  list_beq (x ∷ xs) [] = false
  list_beq (x ∷ xs) (y ∷ ys) = x == y && list_beq xs ys

  pub list_beq_iff : (xs ys : List A) → (list_beq xs ys ≡ true) ↔ (xs ≡ ys)
  list_beq_iff [] [] = ground arith
  list_beq_iff [] (y ∷ ys) = ground arith
  list_beq_iff (x ∷ xs) [] = ground arith
  list_beq_iff (x ∷ xs) (y ∷ ys) = ground (arith, e.beq_iff x y, list_beq_iff xs ys)

  instance abbrev pub list_eq : Eq (List A)
  list_eq = record { beq = list_beq; beq_iff = list_beq_iff }
