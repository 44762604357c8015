-- ===== src/Dds/FastPath.antt =====
-- What the fast path takes for granted once `allow_fastpath` grants it.
use blsmr.Prelude.{
  ℕ, ◌≡◌, ◌∙◌, Bool, true, ◌&&◌, ◌||◌, some, List, [], ◌∷◌, arith, eqb, eqb_iff, length, all, any,
  contains, IsDistinct,
}
use blsmr.Client.{CmdId, cmd_id_eq, cmd_id_beq_iff}
use blsmr.HashSet.Size.{contains_of_length-le}
use blsmr.Dds.{Res, allow_fastpath, union_deps}
use blsmr.Dds.Union.{union_deps-IsAscending}

-- Each response lists a conflict once.
abbrev pub Distinct : List Res → Type 0
Distinct [] = Unit
Distinct (r ∷ quorum) = IsDistinct r.conflicts × Distinct quorum

-- Every response reports the conflicts of the first one.
abbrev pub AllReport : Res → List Res → Type 0
AllReport first [] = Unit
AllReport first (r ∷ quorum) =
    ((id : CmdId) → contains r.conflicts id ≡ contains first.conflicts id) × AllReport first quorum

abbrev agrees : Res → Res → Bool
agrees first r =
    eqb (length r.conflicts) (length first.conflicts) && all (contains first.conflicts) r.conflicts

contains_of_all :
    (l s : List CmdId) (id : CmdId)
    → all (contains s) l ≡ true
    → contains l id ≡ true
    → contains s id ≡ true
contains_of_all (a ∷ l) s id h m = ground (arith, contains_of_all l s id, cmd_id_beq_iff a id)
contains_of_all [] s id h m = ground arith

-- Two lists without duplicates of one length, one inside the other, have the same members.
agrees-same :
    (first r : Res) (id : CmdId)
    → IsDistinct r.conflicts
    → agrees first r ≡ true
    → contains r.conflicts id ≡ contains first.conflicts id
agrees-same first r id distinct h =
    let inside = λ (b : CmdId). contains_of_all r.conflicts first.conflicts b (ground arith) in
    let le = eqb_iff (length r.conflicts) (length first.conflicts) in
    ground (
      arith,
      inside id,
      contains_of_length-le r.conflicts first.conflicts id distinct inside (ground (arith, le)),
    )

any_of_agrees :
    (first : Res) (rest : List Res) (id : CmdId)
    → Distinct rest
    → all (agrees first) rest ≡ true
    → (contains first.conflicts id || any (λ r. contains r.conflicts id) rest)
      ≡ contains first.conflicts id
any_of_agrees first [] id d h = ground arith
any_of_agrees first (r ∷ rest) id d h = ground (
  arith,
  agrees-same first r id d.0 (ground arith),
  any_of_agrees first rest id d.1 (ground arith),
)

unanimous-AllReport :
    (first : Res) (rest : List Res)
    → Distinct rest
    → all (agrees first) rest ≡ true
    → AllReport first rest
unanimous-AllReport first [] d h = tt
unanimous-AllReport first (r ∷ rest) d h = (
  λ id. agrees-same first r id d.0 (ground arith),
  unanimous-AllReport first rest d.1 (ground arith),
)

-- When the fast path is granted to the responses of a quorum that each list a conflict once, the
-- quorum has the size of the whole peer group, every response reports the same set of conflicts,
-- and that set is what all of them together report, so that the dependencies of the fast path are
-- those of the slow path.
pub fast_path_unanimous :
    (peer_number : ℕ) (first : Res) (rest : List Res)
    → Distinct (first ∷ rest)
    → allow_fastpath peer_number (first ∷ rest) ≡ some true
    → (length (first ∷ rest) ≡ peer_number)
      × AllReport first rest
      × ((id : CmdId) → contains (union_deps (first ∷ rest)) id ≡ contains first.conflicts id)
unfolding allow_fastpath
fast_path_unanimous peer_number first rest d e =
    let unanimous : all (agrees first) rest ≡ true = ground arith in
    (
      ground (arith, eqb_iff (length (first ∷ rest)) peer_number),
      unanimous-AllReport first rest d.1 unanimous,
      λ id.
          (union_deps-IsAscending (first ∷ rest)).1 id ∙ any_of_agrees first rest id d.1 unanimous,
    )
