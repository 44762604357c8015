-- ===== src/Log/Promote/Bucket.antt =====
-- Taking a stable command out of the bucket of its key.
use mathlib.Core.Option
use blsmr.Prelude.{
  ℕ, ◌≡◌, ◌≢◌, inl, inr, false, not, ◌&&◌, Option, none, some, List, [], arith, contains,
  contains-keep, keep, keep-IsDistinct, IsDistinct, nat_eq, eqb, eqb_iff, ◌==◌, if◌then◌else◌,
  Bool-cases, Option-cases,
}
use blsmr.Client.{CmdId, cmd_id_eq, cmd_id_beq_iff}
use blsmr.Map.{Map, get, get-insert}
use blsmr.Log.Promote.{retain_bucket}

abbrev pub bucket_of : Map ℕ (List CmdId) → ℕ → List CmdId
bucket_of by_key key = Option.get_or (get key by_key) []

bucket-retain :
    (key : ℕ) (id : CmdId) (by_key : Map ℕ (List CmdId)) (k : ℕ)
    → bucket_of (retain_bucket (some key) id by_key) k
      ≡ (if eqb key k then keep (λ b. not (b == id)) (bucket_of by_key k) else bucket_of by_key k)
unfolding retain_bucket
bucket-retain key id by_key k = elim (Option-cases (get key by_key)) [
  | inl e ↦ ground (arith, eqb_iff key k)
  | inr (bucket, e) ↦
      ground (arith, eqb_iff key k, get-insert k key (keep (λ b. not (b == id)) bucket) by_key)
]

-- The identifier leaves its bucket, and is in no other.
pub contains-retain_bucket :
    (key : Option ℕ) (id : CmdId) (by_key : Map ℕ (List CmdId)) (k : ℕ) (j : CmdId)
    → (key ≢ some k → contains (bucket_of by_key k) id ≡ false)
    → contains (bucket_of (retain_bucket key id by_key) k) j
      ≡ (contains (bucket_of by_key k) j && not (id == j))
unfolding retain_bucket
contains-retain_bucket none id by_key k j other =
    let out = other (λ e. cc) in ground (arith, cmd_id_beq_iff id j)
contains-retain_bucket (some key) id by_key k j other = elim (Bool-cases (eqb key k)) [
  | inr apart ↦
      let out = other (λ e. ground (arith, eqb_iff key k)) in
      rw (bucket-retain key id by_key k, apart) (ground (arith, cmd_id_beq_iff id j))
  | inl same ↦
      rw
        (
          bucket-retain key id by_key k,
          same,
          contains-keep (λ b. not (b == id)) (bucket_of by_key k) j,
        )
        (ground (arith, cmd_id_beq_iff id j, cmd_id_beq_iff j id))
]

pub retain_bucket-IsDistinct :
    (key : Option ℕ) (id : CmdId) (by_key : Map ℕ (List CmdId)) (k : ℕ)
    → ((i : ℕ) → IsDistinct (bucket_of by_key i))
    → IsDistinct (bucket_of (retain_bucket key id by_key) k)
unfolding retain_bucket
retain_bucket-IsDistinct none id by_key k once = once k
retain_bucket-IsDistinct (some key) id by_key k once =
    rw (bucket-retain key id by_key k) (elim (Bool-cases (eqb key k)) [
      | inl same ↦ rw same (keep-IsDistinct (λ b. not (b == id)) (bucket_of by_key k) (once k))
      | inr apart ↦ rw apart (once k)
    ])
