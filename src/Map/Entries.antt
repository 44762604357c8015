-- ===== src/Map/Entries.antt =====
-- Properties of all entries of a map.
use blsmr.Prelude.{◌≡◌, Eq, ◌==◌, Bool, true, some, [], ◌∷◌, arith, keep, Bool-cases, inl, inr}
use blsmr.Map.{Map, get, insert, remove}

-- Every entry of a map satisfies `P`.
abbrev pub Entries {ℓ κ} : {K : Type κ} {V : Type ℓ} → (K → V → Type 0) → Map K V → Type 0
Entries P [] = Unit {0}
Entries P ((k, v) ∷ m) = P k v × Entries P m

module _ {ℓ κ} {K : Type κ} {V : Type ℓ} ⦃e : Eq K⦄ where
  pub Entries-insert :
      (P : K → V → Type 0) (k : K) (v : V) (m : Map K V)
      → P k v
      → Entries P m
      → Entries P (insert k v m)
  unfolding insert
  Entries-insert P k v [] p es = (p, tt)
  Entries-insert P k v ((j, w) ∷ m) p es = elim (Bool-cases (j == k)) [
    | inl same ↦ rw same (p, es.1)
    | inr other ↦ rw other (es.0, Entries-insert P k v m p es.1)
  ]

  pub Entries-get :
      (P : K → V → Type 0) (m : Map K V) (k : K) (v : V) → Entries P m → get k m ≡ some v → P k v
  unfolding get
  Entries-get P [] k v es found = cc
  Entries-get P ((j, w) ∷ m) k v es found = elim (Bool-cases (j == k)) [
    | inl same ↦
        let key : j ≡ k = (e.beq_iff j k).0 same in
        let value : w ≡ v = ground (arith, same) in rw (← key) (rw (← value) es.0)
    | inr other ↦ Entries-get P m k v es.1 (ground (arith, other))
  ]

  pub Entries-remove :
      (P : K → V → Type 0) (k : K) (m : Map K V) → Entries P m → Entries P (remove k m)
  unfolding remove
  Entries-remove P k [] es = tt
  Entries-remove P k ((j, w) ∷ m) es = elim (Bool-cases (j == k)) [
    | inl same ↦ rw same (Entries-remove P k m es.1)
    | inr other ↦ rw other (es.0, Entries-remove P k m es.1)
  ]

module _ {ℓ κ} {K : Type κ} {V : Type ℓ} where
  -- Where some entries are dropped, the others may be known to pass the test.
  pub Entries-keep :
      (P R : K → V → Type 0) (p : K × V → Bool) (m : Map K V)
      → ((k : K) (v : V) → p (k, v) ≡ true → P k v → R k v)
      → Entries P m
      → Entries R (keep p m)
  Entries-keep P R p [] f es = tt
  Entries-keep P R p ((k, v) ∷ m) f es = elim (Bool-cases (p (k, v))) [
    | inl good ↦ rw good (f k v good es.0, Entries-keep P R p m f es.1)
    | inr bad ↦ rw bad (Entries-keep P R p m f es.1)
  ]

  pub Entries-mono :
      (P R : K → V → Type 0) (m : Map K V)
      → ((k : K) (v : V) → P k v → R k v)
      → Entries P m
      → Entries R m
  Entries-mono P R [] f es = tt
  Entries-mono P R ((k, v) ∷ m) f es = (f k v es.0, Entries-mono P R m f es.1)
