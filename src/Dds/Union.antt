-- ===== src/Dds/Union.antt =====
-- What the leader proposes when the replicas do not agree: the union of their conflicts.
use blsmr.Prelude.{◌≡◌, refl, List, [], ◌∷◌, arith, any, contains, contains-append}
use blsmr.Client.{CmdId, cmd_id_eq}
use blsmr.Sort.{sort}
use blsmr.Sort.Laws.{contains-sort, sort-IsSorted, contains-dedup, dedup-IsAscending, IsAscending}
use blsmr.Dds.{Res, all_conflicts, union_deps}

contains-all_conflicts :
    (quorum : List Res) (id : CmdId)
    → contains (all_conflicts quorum) id ≡ any (λ r. contains r.conflicts id) quorum
contains-all_conflicts [] id = refl
contains-all_conflicts (r ∷ quorum) id =
    ground (
      arith,
      contains-append r.conflicts (all_conflicts quorum) id,
      contains-all_conflicts quorum id,
    )

-- The dependencies of a slow command are in strictly ascending order, so the same list at every
-- replica that holds the same responses, and they are the commands that some response reports.
pub union_deps-IsAscending :
    (quorum : List Res)
    → IsAscending (union_deps quorum)
      × ((id : CmdId) → contains (union_deps quorum) id ≡ any (λ r. contains r.conflicts id) quorum)
unfolding union_deps
union_deps-IsAscending quorum =
    let gathered = all_conflicts quorum in
    (
      dedup-IsAscending (sort gathered) (sort-IsSorted gathered),
      λ id.
          rw (contains-dedup (sort gathered) id, contains-sort gathered id)
            (contains-all_conflicts quorum id),
    )
