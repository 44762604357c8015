-- ===== src/Quorum/Thres/Reach.antt =====
-- Whether a threshold quorum can be reached at all.
use blsmr.Prelude.{ℕ, ◌+◌, ◌*◌, ◌<◌, ◌≤◌, ◌≡◌, true, not, ◌||◌, List, arith, eqb, length, nat_eq}
use blsmr.HashSet.Size.{overlap, overlap_lem}
use blsmr.Quorum.Thres.{new, size, is_quorum}
use blsmr.Quorum.Thres.Intersection.{IsResponders}

-- With responses of its whole pool, which is not empty and has fewer than 2 ^ 64 replicas, a
-- dissemination system always has a quorum; a witnessing system has one unless the pool has 1, 2 or
-- 6 replicas.
pub whole_pool_accepted :
    (pool : List ℕ)
    → 1 ≤ length pool
    → length pool < 0x1_0000_0000_0000_0000
    → (is_quorum (new pool 3 2) pool ≡ true)
      × (is_quorum (new pool 5 4) pool
          ≡ not (eqb (length pool) 1 || (eqb (length pool) 2 || eqb (length pool) 6)))
unfolding is_quorum new size
whole_pool_accepted pool some_ lt = (ground arith, ground arith)

-- In a pool of 5 f + 1 replicas, fewer than 2 ^ 64, two response sets that a witnessing system
-- accepts share at least 3 f + 5 replicas.
pub witnessing_overlap :
    (f : ℕ) (pool a b : List ℕ)
    → length pool ≡ 5 * f + 1
    → length pool < 0x1_0000_0000_0000_0000
    → IsResponders pool a
    → IsResponders pool b
    → is_quorum (new pool 5 4) a ≡ true
    → is_quorum (new pool 5 4) b ≡ true
    → 3 * f + 5 ≤ overlap a b
unfolding is_quorum new
witnessing_overlap f pool a b n lt ra rb qa qb =
    let shared = overlap_lem a b pool ra.distinct rb.distinct ra.members rb.members in ground arith
