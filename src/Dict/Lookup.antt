-- ===== src/Dict/Lookup.antt =====
-- Lookups after one write, at the key and at other keys.
use iot_cloud_commissioning.Prelude.{
  ◌≡◌, refl, sym, ◌≢◌, ◌⊎◌, inl, inr, none, some, arith, Eq, ◌==◌, eq_self, eq_iff, eq_false_of_ne,
  Bool-cases, ap, ◌∙◌,
}
use iot_cloud_commissioning.Dict.{Dict, get, put, remove, get-put, get-remove}

module _ {ℓ κ} {K : Type ℓ} {V : Type κ} ⦃e : Eq K⦄ where
  pub get-put_at : (d : Dict K V) (k : K) (v : V) → get (put d k v) k ≡ some v
  get-put_at d k v = rw (get-put, eq_self k) refl

  pub get-put_off : (d : Dict K V) (k j : K) (v : V) → k ≢ j → get (put d k v) j ≡ get d j
  get-put_off d k j v h = rw (get-put, eq_false_of_ne h) refl

  pub get-remove_at : (d : Dict K V) (k : K) → get (remove d k) k ≡ none
  get-remove_at d k = rw (get-remove, eq_self k) refl

  pub get-remove_off : (d : Dict K V) (k j : K) → k ≢ j → get (remove d k) j ≡ get d j
  get-remove_off d k j h = rw (get-remove, eq_false_of_ne h) refl

  -- What is found after a removal stood there before, under another key.
  pub get-remove-some :
      (d : Dict K V) (k j : K) (v : V) → get (remove d k) j ≡ some v → (k ≢ j) × (get d j ≡ some v)
  get-remove-some d k j v h =
      let apart : k ≢ j =
        λ same. none_some (sym (get-remove_at d k) ∙ ap (get (remove d k)) same ∙ h) in
      (apart, sym (get-remove_off d k j apart) ∙ h)
    where
      none_some : {v : V} → none ≡ some v → ⊥
      none_some p = cc p

module _ {ℓ} {K : Type ℓ} ⦃e : Eq K⦄ where
  -- Two keys are the same or apart.
  pub key_cases : (k j : K) → (k ≡ j) ⊎ (k ≢ j)
  key_cases k j = elim (Bool-cases (k == j)) [
    | inl same ↦ inl ((eq_iff k j).0 same)
    | inr apart ↦ inr (λ same. ground (arith, eq_iff k j, same, apart))
  ]
