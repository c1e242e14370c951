-- ===== src/Dict/Size.antt =====
-- How many entries a dictionary has, and that its keys are distinct.
use iot_cloud_commissioning.Prelude.{◌+◌, ◌≤◌, ◌≡◌, none, some, [], ◌∷◌, arith, Eq, length}
use iot_cloud_commissioning.Dict.{Dict, get, put, remove}

module _ {ℓ κ} {K : Type ℓ} {V : Type κ} ⦃e : Eq K⦄ where
  pub length-put_new :
      (d : Dict K V) (k : K) (v : V) → get d k ≡ none → length (put d k v) ≡ length d + 1
  unfolding get put
  length-put_new [] k v h = omega arith
  length-put_new ((j, w) ∷ d) k v h = ground (arith, length-put_new d k v)

  pub length-put_old :
      (d : Dict K V) (k : K) (v u : V) → get d k ≡ some u → length (put d k v) ≡ length d
  unfolding get put
  length-put_old [] k v u h = cc
  length-put_old ((j, w) ∷ d) k v u h = ground (arith, length-put_old d k v u)

  pub length-remove-le : (d : Dict K V) (k : K) → length (remove d k) ≤ length d
  unfolding remove
  length-remove-le [] k = omega arith
  length-remove-le ((j, w) ∷ d) k = ground (arith, length-remove-le d k)
