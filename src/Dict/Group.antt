-- ===== src/Dict/Group.antt =====
-- `grouped.setdefault(key(x), []).append(x)` in a loop: entries by key, in order of appearance.
use iot_cloud_commissioning.Prelude.{
  ◌≡◌, refl, ◌∙◌, true, false, Option, none, some, List, [], ◌∷◌, ◌++◌, arith, Eq, ◌==◌,
  if◌then◌else◌, keep, or_else, ap, sym, Bool-cases, inl, inr, ◌⊎◌, In,
}
use mathlib.Core.List.{append-nil, append_assoc}
use iot_cloud_commissioning.Dict.{Dict, get, put, get-put}
use iot_cloud_commissioning.Dict.Purge.{Distinct, none_yet, fresh, Distinct-put}

abbrev pub nonempty {κ} : {A : Type κ} → List A → Option (List A)
nonempty [] = none
nonempty (x ∷ xs) = some (x ∷ xs)

-- The entries of a key: those that were there, then the new ones.
abbrev joined {κ} : {A : Type κ} → Option (List A) → List A → Option (List A)
joined none ys = nonempty ys
joined (some xs) ys = some (xs ++ ys)

joined-nil {κ} : {A : Type κ} (o : Option (List A)) → o ≡ joined o []
joined-nil none = refl
joined-nil (some xs) = ap some (sym (append-nil xs))

joined-cons {κ} :
    {A : Type κ} (o : Option (List A)) (x : A) (ys : List A)
    → joined (some (or_else o [] ++ x ∷ [])) ys ≡ joined o (x ∷ ys)
joined-cons none x ys = refl
joined-cons (some xs) x ys = ap some (append_assoc xs (x ∷ []) ys)

module _ {ℓ κ} {K : Type ℓ} {A : Type κ} ⦃e : Eq K⦄ where
  unfoldable pub add_to_group : (A → K) → Dict K (List A) → A → Dict K (List A)
  add_to_group key d x = put d (key x) (or_else (get d (key x)) [] ++ x ∷ [])

  unfoldable pub group_onto : (A → K) → Dict K (List A) → List A → Dict K (List A)
  unfolding add_to_group
  group_onto key d [] = d
  group_onto key d (x ∷ xs) = group_onto key (add_to_group key d x) xs

  unfoldable pub group_by : (A → K) → List A → Dict K (List A)
  unfolding group_onto
  group_by key xs = group_onto key [] xs

  get-add_to_group :
      (key : A → K) (d : Dict K (List A)) (x : A) (k : K)
      → get (add_to_group key d x) k
        ≡ (if key x == k then some (or_else (get d k) [] ++ x ∷ []) else get d k)
  unfolding add_to_group
  get-add_to_group key d x k = elim (Bool-cases (key x == k)) [
    | inl h ↦
        rw (get-put, h)
          (ap (λ j. some (or_else (get d j) [] ++ x ∷ [])) ((e.eqb_iff (key x) k).0 h))
    | inr h ↦ rw (get-put, h) refl
  ]

  get-group_onto :
      (key : A → K) (d : Dict K (List A)) (xs : List A) (k : K)
      → get (group_onto key d xs) k ≡ joined (get d k) (keep (λ x. key x == k) xs)
  unfolding group_onto
  get-group_onto key d [] k = joined-nil (get d k)
  get-group_onto key d (x ∷ xs) k =
      get-group_onto key (add_to_group key d x) xs k ∙ grown (Bool-cases (key x == k))
    where
      grown :
          ((key x == k) ≡ true) ⊎ ((key x == k) ≡ false)
          → joined (get (add_to_group key d x) k) (keep (λ x. key x == k) xs)
            ≡ joined (get d k) (keep (λ x. key x == k) (x ∷ xs))
      grown (inl h) = rw (get-add_to_group, h) (joined-cons (get d k) x (keep (λ x. key x == k) xs))
      grown (inr h) = rw (get-add_to_group, h) refl

  -- The group of a key holds the entries with that key, each once and in their order.
  pub get-group_by :
      (key : A → K) (xs : List A) (k : K)
      → get (group_by key xs) k ≡ nonempty (keep (λ x. key x == k) xs)
  unfolding group_by get
  get-group_by key xs k = get-group_onto key [] xs k

module _ {K : Type 0} {A : Type 0} ⦃e : Eq K⦄ where
  group_onto-Distinct :
      (key : A → K) (d : Dict K (List A)) (xs : List A)
      → Distinct d
      → Distinct (group_onto key d xs)
  unfolding group_onto add_to_group
  group_onto-Distinct key d [] h = h
  group_onto-Distinct key d (x ∷ xs) h =
      group_onto-Distinct key (add_to_group key d x) xs (Distinct-put d (key x) _ h)

  pub group_by-Distinct : (key : A → K) (xs : List A) → Distinct (group_by key xs)
  unfolding group_by
  group_by-Distinct key xs = group_onto-Distinct key [] xs none_yet

module _ {K : Type 0} {V : Type 0} ⦃e : Eq K⦄ where
  -- An entry of the list is what a lookup of its key finds.
  pub get-In : (d : Dict K V) (k : K) (v : V) → Distinct d → In (k, v) d → get d k ≡ some v
  unfolding get
  get-In [] k v h m = elim m [ ]
  get-In ((j, w) ∷ d) k v (fresh new h) (inl m) = ground (arith, e.eqb_iff j k)
  get-In ((j, w) ∷ d) k v (fresh new h) (inr m) = ground (arith, get-In d k v h m, e.eqb_iff j k)

  pub In-get : (d : Dict K V) (k : K) (v : V) → get d k ≡ some v → In (k, v) d
  unfolding get
  In-get [] k v h = cc
  In-get ((j, w) ∷ d) k v h = elim (Bool-cases (j == k)) [
    | inl t ↦ inl (ground (arith, e.eqb_iff j k))
    | inr t ↦ inr (In-get d k v (ground arith))
  ]
