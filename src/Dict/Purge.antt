-- ===== src/Dict/Purge.antt =====
-- Loops that collect keys of a dictionary by a test and pop each of them.
use iot_cloud_commissioning.Prelude.{
  ◌≤◌, ◌≡◌, refl, Bool, false, Option, none, some, List, [], ◌∷◌, arith, Eq, ◌==◌, if◌then◌else◌,
  length, inl, inr, Bool-cases, any,
}
use iot_cloud_commissioning.Dict.{Dict, get, put, remove, get-put, get-remove}
use iot_cloud_commissioning.Dict.Size.{length-remove-le}

abbrev pub unless {κ} : {A : Type κ} → (A → Bool) → Option A → Option A
unless p none = none
unless p (some a) = if p a then none else some a

abbrev pub holds {κ} : {A : Type κ} → (A → Bool) → Option A → Bool
holds p none = false
holds p (some a) = p a

module _ {ℓ κ} {K : Type ℓ} {V : Type κ} where
  unfoldable pub keys_where : (K → V → Bool) → Dict K V → List K
  keys_where p [] = []
  keys_where p ((k, v) ∷ d) = let rest = keys_where p d in if p k v then k ∷ rest else rest

module _ {ℓ κ} {K : Type ℓ} {V : Type κ} ⦃e : Eq K⦄ where
  -- No key stands twice: what a Python dictionary gives for nothing.
  pub data Distinct : Dict K V → Type (ℓ ⊔ κ) where
    none_yet : Distinct []
    fresh : {k : K} {v : V} {d : Dict K V} → get d k ≡ none → Distinct d → Distinct ((k, v) ∷ d)

module _ {ℓ κ} {K : Type ℓ} {V : Type κ} ⦃e : Eq K⦄ where
  unfoldable pub remove_each : List K → Dict K V → Dict K V
  remove_each [] d = d
  remove_each (k ∷ ks) d = remove_each ks (remove d k)

  unfoldable pub purge : (K → V → Bool) → Dict K V → Dict K V
  unfolding remove_each keys_where
  purge p d = remove_each (keys_where p d) d

  pub get-remove_each :
      (ks : List K) (d : Dict K V) (k : K)
      → get (remove_each ks d) k ≡ (if any (λ j. j == k) ks then none else get d k)
  unfolding remove_each
  get-remove_each [] d k = refl
  get-remove_each (j ∷ ks) d k = ground (arith, get-remove_each ks (remove d j) k, get-remove d j k)

  pub length-remove_each-le : (ks : List K) (d : Dict K V) → length (remove_each ks d) ≤ length d
  unfolding remove_each
  length-remove_each-le [] d = omega arith
  length-remove_each-le (k ∷ ks) d =
      omega (arith, length-remove_each-le ks (remove d k), length-remove-le d k)

  pub length-purge-le : (p : K → V → Bool) (d : Dict K V) → length (purge p d) ≤ length d
  unfolding purge
  length-purge-le p d = length-remove_each-le (keys_where p d) d

  any-keys_where :
      (p : K → V → Bool) (d : Dict K V) (k : K)
      → Distinct d
      → any (λ j. j == k) (keys_where p d) ≡ holds (p k) (get d k)
  unfolding get keys_where
  any-keys_where p [] k h = refl
  any-keys_where p ((j, v) ∷ d) k (fresh new h) =
      ground (arith, any-keys_where p d k h, e.eqb_iff j k)

  -- Exactly the entries that pass the test are gone.
  pub get-purge :
      (p : K → V → Bool) (d : Dict K V) (k : K)
      → Distinct d
      → get (purge p d) k ≡ unless (p k) (get d k)
  unfolding purge
  get-purge p d k h = ground (arith, get-remove_each (keys_where p d) d k, any-keys_where p d k h)

  pub Distinct-put : (d : Dict K V) (k : K) (v : V) → Distinct d → Distinct (put d k v)
  unfolding put get
  Distinct-put [] k v h = fresh refl none_yet
  Distinct-put ((j, w) ∷ d) k v (fresh new h) = elim (Bool-cases (j == k)) [
    | inl same ↦ rw same (fresh (ground (arith, e.eqb_iff j k)) h)
    | inr other ↦ rw other (
        fresh (ground (arith, get-put d k j v, e.eqb_iff j k, e.eqb_iff k j))
          (Distinct-put d k v h))
  ]

  pub Distinct-remove : (d : Dict K V) (k : K) → Distinct d → Distinct (remove d k)
  unfolding remove
  Distinct-remove [] k h = none_yet
  Distinct-remove ((j, w) ∷ d) k (fresh new h) = elim (Bool-cases (j == k)) [
    | inl same ↦ rw same (Distinct-remove d k h)
    | inr other ↦ rw other (fresh (ground (arith, get-remove d k j)) (Distinct-remove d k h))
  ]

  pub Distinct-remove_each : (ks : List K) (d : Dict K V) → Distinct d → Distinct (remove_each ks d)
  unfolding remove_each
  Distinct-remove_each [] d h = h
  Distinct-remove_each (k ∷ ks) d h = Distinct-remove_each ks (remove d k) (Distinct-remove d k h)

  pub Distinct-purge : (p : K → V → Bool) (d : Dict K V) → Distinct d → Distinct (purge p d)
  unfolding purge
  Distinct-purge p d h = Distinct-remove_each (keys_where p d) d h
