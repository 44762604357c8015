-- ===== src/Sort.antt =====
-- `sort`, `sort_unstable` and `dedup` of the standard library at the derived order of `CmdId`.
pub mod Laws
use blsmr.Prelude.{List, [], ◌∷◌, if◌then◌else◌, ◌==◌}
use blsmr.Client.{CmdId, cmd_id_lt, cmd_id_eq}

unfoldable pub insert_sorted : CmdId → List CmdId → List CmdId
insert_sorted a [] = a ∷ []
insert_sorted a (b ∷ l) = if cmd_id_lt b a then b ∷ insert_sorted a l else a ∷ b ∷ l

unfoldable pub sort : List CmdId → List CmdId
unfolding insert_sorted
sort [] = []
sort (a ∷ l) = insert_sorted a (sort l)

-- `dedup` keeps the first of each run of equal elements.
unfoldable pub dedup_after : CmdId → List CmdId → List CmdId
dedup_after a [] = []
dedup_after a (b ∷ l) = if b == a then dedup_after a l else b ∷ dedup_after b l

unfoldable pub dedup : List CmdId → List CmdId
unfolding dedup_after
dedup [] = []
dedup (a ∷ l) = a ∷ dedup_after a l
