-- ===== src/Ssa/Update.antt =====
-- Reading a map after one write.
use wasm2go.Prelude.{ℕ, true, false, ◌==◌, ==_iff, ◌≡◌, refl, Bool-cases, inl, inr}
use wasm2go.Ssa.Func.{update}

module _ {ℓ} {A : Type ℓ} (m : ℕ → A) (k : ℕ) (v : A) where
  pub update-same : (j : ℕ) → (j == k) ≡ true → update m k v j ≡ v
  update-same j e = rw e refl

  pub update-other : (j : ℕ) → (j == k) ≡ false → update m k v j ≡ m j
  update-other j e = rw e refl

  pub update-at : update m k v k ≡ v
  update-at = update-same k ((==_iff k k).1 refl)

  -- What holds of the old value and of the new one holds of the map's.
  pub update-split {κ} : (P : A → Type κ) (j : ℕ) → P v → P (m j) → P (update m k v j)
  update-split P j new old = elim (Bool-cases (j == k)) [
    | inl e ↦ rw (update-same j e) new
    | inr e ↦ rw (update-other j e) old
  ]

  -- A write that relates the old value to the new one relates the two maps everywhere.
  pub update-related {κ} :
      (R : A → A → Type κ) → ((a : A) → R a a) → R (m k) v → (j : ℕ) → R (m j) (update m k v j)
  update-related R same h j = elim (Bool-cases (j == k)) [
    | inl e ↦ rw (update-same j e, (==_iff j k).0 e) h
    | inr e ↦ rw (update-other j e) (same (m j))
  ]
