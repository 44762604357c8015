-- ===== src/Quorum/Thres/Intersection.antt =====
-- How far two accepted response sets of a threshold system overlap.
use blsmr.Prelude.{
  ℕ, ◌+◌, ◌*◌, ◌<◌, ◌≡◌, refl, Bool, true, false, List, [], ◌∷◌, ◌++◌, arith, length, length-append,
  contains, contains-append, keep, IsDistinct, append-IsDistinct_split, nat_eq,
}
use blsmr.HashSet.Size.{overlap, overlap_lem}
use blsmr.Quorum.Thres.{new, is_quorum}

-- Responses of distinct members of the pool.
pub record IsResponders (pool responders : List ℕ) : Type 0 where
  pub distinct : IsDistinct responders
  pub members : (pid : ℕ) → contains responders pid ≡ true → contains pool pid ≡ true

-- In a pool of 3 f + 1 replicas, fewer than 2 ^ 64, two response sets that a dissemination system
-- accepts share more than f replicas, so a correct one when f are faulty.
pub dissemination_overlap :
    (f : ℕ) (pool a b : List ℕ)
    → length pool ≡ 3 * f + 1
    → length pool < 0x1_0000_0000_0000_0000
    → IsResponders pool a
    → IsResponders pool b
    → is_quorum (new pool 3 2) a ≡ true
    → is_quorum (new pool 3 2) b ≡ true
    → f < overlap a b
unfolding is_quorum new
dissemination_overlap f pool a b n lt ra rb qa qb =
    let shared = overlap_lem a b pool ra.distinct rb.distinct ra.members rb.members in ground arith

length-keep-append :
    (p : ℕ → Bool) (xs ys : List ℕ)
    → length (keep p (xs ++ ys)) ≡ length (keep p xs) + length (keep p ys)
length-keep-append p [] ys = omega arith
length-keep-append p (x ∷ xs) ys = ground (arith, length-keep-append p xs ys)

length-keep_all :
    (p : ℕ → Bool) (xs : List ℕ)
    → ((a : ℕ) → contains xs a ≡ true → p a ≡ true)
    → length (keep p xs) ≡ length xs
length-keep_all p [] h = refl
length-keep_all p (x ∷ xs) h = ground (arith, h x, length-keep_all p xs (λ a m. h a (ground arith)))

length-keep_none :
    (p : ℕ → Bool) (xs : List ℕ)
    → ((a : ℕ) → contains xs a ≡ true → p a ≡ false)
    → length (keep p xs) ≡ 0
length-keep_none p [] h = refl
length-keep_none p (x ∷ xs) h =
    ground (arith, h x, length-keep_none p xs (λ a m. h a (ground arith)))

-- In a pool of 3 (f + 1) + 3 replicas, fewer than 2 ^ 64, which tolerates f + 1 faults, a
-- dissemination system accepts two response sets that share only f replicas: in a pool of 6, f is 0
-- and the two sets share none.
pub dissemination_short :
    (f : ℕ) (left middle right : List ℕ)
    → IsDistinct (left ++ (middle ++ right))
    → length left ≡ f + 3
    → length middle ≡ f
    → length right ≡ f + 3
    → length (left ++ (middle ++ right)) < 0x1_0000_0000_0000_0000
    → let qs = new (left ++ (middle ++ right)) 3 2 in
      (is_quorum qs (left ++ middle) ≡ true)
      × (is_quorum qs (middle ++ right) ≡ true)
      × (overlap (left ++ middle) (middle ++ right) ≡ f)
unfolding is_quorum new
dissemination_short f left middle right d l m r lt =
    let (_, inner, apart) = append-IsDistinct_split left (middle ++ right) d in
    let outside = length-keep_none (contains (middle ++ right)) left apart in
    let inside =
      length-keep_all (contains (middle ++ right)) middle
        (λ a k. ground (arith, contains-append middle right a)) in
    (
      ground (
        arith,
        length-append left (middle ++ right),
        length-append middle right,
        length-append left middle,
      ),
      ground (arith, length-append left (middle ++ right), length-append middle right),
      omega (arith, length-keep-append (contains (middle ++ right)) left middle),
    )
