-- ===== src/Sort/Laws.antt =====
-- What sorting and removing repetitions keep, and the order that they give.
use blsmr.Prelude.{
  ◌+◌, ◌≡◌, refl, true, false, ◌||◌, List, [], ◌∷◌, arith, contains, length, IsDistinct, Bool-cases,
  ◌==◌, inl, inr,
}
use blsmr.Client.{CmdId, cmd_id_lt, cmd_id_eq, cmd_id_beq_iff}
use blsmr.Sort.{insert_sorted, sort, dedup_after, dedup}

-- `a` is below every element.
abbrev pub Below : CmdId → List CmdId → Type 0
Below a [] = Unit {0}
Below a (b ∷ l) = (cmd_id_lt a b ≡ true) × Below a l

-- Strictly ascending.
abbrev pub IsAscending : List CmdId → Type 0
IsAscending [] = Unit {0}
IsAscending (a ∷ l) = Below a l × IsAscending l

-- No element is above a later one.
abbrev pub NotAbove : CmdId → List CmdId → Type 0
NotAbove a [] = Unit {0}
NotAbove a (b ∷ l) = (cmd_id_lt b a ≡ false) × NotAbove a l

abbrev pub IsSorted : List CmdId → Type 0
IsSorted [] = Unit {0}
IsSorted (a ∷ l) = NotAbove a l × IsSorted l

pub contains-insert_sorted :
    (a : CmdId) (l : List CmdId) (b : CmdId)
    → contains (insert_sorted a l) b ≡ (a == b || contains l b)
unfolding insert_sorted
contains-insert_sorted a [] b = refl
contains-insert_sorted a (c ∷ l) b = elim (Bool-cases (cmd_id_lt c a)) [
  | inl h ↦ ground (arith, contains-insert_sorted a l b)
  | inr h ↦ rw h refl
]

pub contains-sort : (l : List CmdId) (b : CmdId) → contains (sort l) b ≡ contains l b
unfolding sort
contains-sort [] b = refl
contains-sort (a ∷ l) b = rw (contains-insert_sorted a (sort l) b, contains-sort l b) refl

NotAbove-insert_sorted :
    (c a : CmdId) (l : List CmdId)
    → cmd_id_lt a c ≡ false
    → NotAbove c l
    → NotAbove c (insert_sorted a l)
unfolding insert_sorted
NotAbove-insert_sorted c a [] h s = (h, tt)
NotAbove-insert_sorted c a (b ∷ l) h s = elim (Bool-cases (cmd_id_lt b a)) [
  | inl e ↦ rw e (s.0, NotAbove-insert_sorted c a l h s.1)
  | inr e ↦ rw e (h, s)
]

NotAbove-trans :
    (a b : CmdId) (l : List CmdId) → cmd_id_lt b a ≡ false → NotAbove b l → NotAbove a l
NotAbove-trans a b [] h s = tt
NotAbove-trans a b (c ∷ l) h s = (ground arith, NotAbove-trans a b l h s.1)

insert_sorted-IsSorted : (a : CmdId) (l : List CmdId) → IsSorted l → IsSorted (insert_sorted a l)
unfolding insert_sorted
insert_sorted-IsSorted a [] s = (tt, tt)
insert_sorted-IsSorted a (b ∷ l) s = elim (Bool-cases (cmd_id_lt b a)) [
  | inl e ↦ rw e (NotAbove-insert_sorted b a l (ground arith) s.0, insert_sorted-IsSorted a l s.1)
  | inr e ↦ rw e ((e, NotAbove-trans a b l e s.0), s)
]

pub sort-IsSorted : (l : List CmdId) → IsSorted (sort l)
unfolding sort
sort-IsSorted [] = tt
sort-IsSorted (a ∷ l) = insert_sorted-IsSorted a (sort l) (sort-IsSorted l)

pub contains-dedup_after :
    (a : CmdId) (l : List CmdId) (b : CmdId)
    → (a == b || contains (dedup_after a l) b) ≡ (a == b || contains l b)
unfolding dedup_after
contains-dedup_after a [] b = refl
contains-dedup_after a (c ∷ l) b = elim (Bool-cases (c == a)) [
  | inl e ↦ rw e (
      ground (
        arith,
        contains-dedup_after a l b,
        cmd_id_beq_iff c a,
        cmd_id_beq_iff a b,
        cmd_id_beq_iff c b,
      ))
  | inr e ↦ rw e (ground (arith, contains-dedup_after c l b))
]

pub contains-dedup : (l : List CmdId) (b : CmdId) → contains (dedup l) b ≡ contains l b
unfolding dedup
contains-dedup [] b = refl
contains-dedup (a ∷ l) b = contains-dedup_after a l b

-- Below everything that is kept of a sorted list whose elements are not below `a`.
dedup_after-Below :
    (a : CmdId) (l : List CmdId)
    → NotAbove a l
    → IsSorted l
    → Below a (dedup_after a l) × IsAscending (dedup_after a l)
unfolding dedup_after
dedup_after-Below a [] n s = (tt, tt)
dedup_after-Below a (c ∷ l) n s = elim (Bool-cases (c == a)) [
  | inl e ↦ rw e (dedup_after-Below a l n.1 s.1)
  | inr e ↦
      let (below, ascending) = dedup_after-Below c l s.0 s.1 in
      let less : cmd_id_lt a c ≡ true = ground (arith, n.0) in
      rw e ((less, Below_trans a c (dedup_after c l) less below), (below, ascending))
]
  where
    Below_trans : (a b : CmdId) (l : List CmdId) → cmd_id_lt a b ≡ true → Below b l → Below a l
    Below_trans a b [] h s = tt
    Below_trans a b (c ∷ l) h s = (ground arith, Below_trans a b l h s.1)

pub dedup-IsAscending : (l : List CmdId) → IsSorted l → IsAscending (dedup l)
unfolding dedup
dedup-IsAscending [] s = tt
dedup-IsAscending (a ∷ l) s = dedup_after-Below a l s.0 s.1

insert_sorted-IsDistinct :
    (a : CmdId) (l : List CmdId)
    → contains l a ≡ false
    → IsDistinct l
    → IsDistinct (insert_sorted a l)
unfolding insert_sorted
insert_sorted-IsDistinct a [] n d = (refl, tt)
insert_sorted-IsDistinct a (b ∷ l) n d = elim (Bool-cases (cmd_id_lt b a)) [
  | inl e ↦ rw e (
    ground (arith, contains-insert_sorted a l b, cmd_id_beq_iff a b, cmd_id_beq_iff b a),
    insert_sorted-IsDistinct a l (ground arith) d.1,
  )
  | inr e ↦ rw e (n, d)
]

pub sort-IsDistinct : (l : List CmdId) → IsDistinct l → IsDistinct (sort l)
unfolding sort
sort-IsDistinct [] d = tt
sort-IsDistinct (a ∷ l) d =
    insert_sorted-IsDistinct a (sort l) (rw (contains-sort l a) d.0) (sort-IsDistinct l d.1)

length-insert_sorted : (a : CmdId) (l : List CmdId) → length (insert_sorted a l) ≡ length l + 1
unfolding insert_sorted
length-insert_sorted a [] = omega arith
length-insert_sorted a (b ∷ l) = ground (arith, length-insert_sorted a l)

pub length-sort : (l : List CmdId) → length (sort l) ≡ length l
unfolding sort
length-sort [] = refl
length-sort (a ∷ l) = omega (arith, length-insert_sorted a (sort l), length-sort l)
