-- ===== src/Prelude/Members.antt =====
-- Membership, and lists of equal length that are related entry by entry.
use mathlib.Core.Path.{◌≡◌, refl, ap, ◌∙◌, subst}
use mathlib.Core.Logic.{◌⊎◌, inl, inr}
use mathlib.Core.Bool.{Bool, true, false}
use mathlib.Core.List.{List, [], ◌∷◌, map}
use iot_cloud_commissioning.Prelude.Tests.{Bool-cases}
use iot_cloud_commissioning.Prelude.Lists.{All, keep}

module _ {A : Type 0} where
  abbrev pub In : A → List A → Type 0
  In a [] = ⊥
  In a (x ∷ xs) = (a ≡ x) ⊎ In a xs

  abbrev pub NoRepeats : List A → Type 0
  NoRepeats [] = Unit
  NoRepeats (x ∷ xs) = (¬ In x xs) × NoRepeats xs

  abbrev pub Pointwise : (A → A → Type 0) → List A → List A → Type 0
  Pointwise R [] [] = Unit
  Pointwise R (x ∷ xs) (y ∷ ys) = R x y × Pointwise R xs ys
  Pointwise R [] (y ∷ ys) = ⊥
  Pointwise R (x ∷ xs) [] = ⊥

module _ {A : Type 0} where
  pub All-In {κ} : (P : A → Type κ) {a : A} (xs : List A) → All P xs → In a xs → P a
  All-In P [] h m = elim m [ ]
  All-In P {a} (x ∷ xs) h (inl e) = subst_at P e h.0
    where
      subst_at : (P : A → Type κ) → a ≡ x → P x → P a
      subst_at P e p = rw e p
  All-In P (x ∷ xs) h (inr m) = All-In P xs h.1 m

  pub All-intro {κ} : (P : A → Type κ) (xs : List A) → ((a : A) → In a xs → P a) → All P xs
  All-intro P [] f = tt
  All-intro P (x ∷ xs) f = (f x (inl refl), All-intro P xs (λ a m. f a (inr m)))

  pub keep-eq-nil : (p : A → Bool) (xs : List A) → keep p xs ≡ [] → All (λ a. p a ≡ false) xs
  keep-eq-nil p [] h = tt
  keep-eq-nil p (x ∷ xs) h = elim (Bool-cases (p x)) [
    | inl e ↦ absurd (cons_nil (rw e at h))
    | inr e ↦ (e, keep-eq-nil p xs (rw e at h))
  ]
    where
      cons_nil : {x : A} {xs : List A} → (x ∷ xs) ≡ [] → ⊥
      cons_nil e = cc

  pub keep-nil : (p : A → Bool) (xs : List A) → All (λ a. p a ≡ false) xs → keep p xs ≡ []
  keep-nil p [] h = refl
  keep-nil p (x ∷ xs) h = rw h.0 (keep-nil p xs h.1)

  -- If one entry passes the test, it is the entry.
  pub keep-eq-one :
      (p : A → Bool) (a : A) (xs : List A) → keep p xs ≡ a ∷ [] → All (λ x. p x ≡ true → x ≡ a) xs
  keep-eq-one p a [] h = tt
  keep-eq-one p a (x ∷ xs) h = elim (Bool-cases (p x)) [
    | inl e ↦ keep_hit e (rw e at h)
    | inr e ↦ (λ t. cc, keep-eq-one p a xs (rw e at h))
  ]
    where
      tail_nil : {x a : A} {xs : List A} → (x ∷ xs) ≡ (a ∷ []) → xs ≡ []
      tail_nil e = cc

      head_eq : {x a : A} {xs : List A} → (x ∷ xs) ≡ (a ∷ []) → x ≡ a
      head_eq e = cc

      keep_hit :
          p x ≡ true
          → (x ∷ keep p xs) ≡ (a ∷ [])
          → (p x ≡ true → x ≡ a) × All (λ x. p x ≡ true → x ≡ a) xs
      keep_hit t e = (
        λ _. head_eq e,
        All-intro _ xs (λ y m q. cc (q, All-In _ xs (keep-eq-nil p xs (tail_nil e)) m)),
      )

  pub In-keep : (p : A → Bool) (a : A) (xs : List A) → In a xs → p a ≡ true → In a (keep p xs)
  In-keep p a [] m t = m
  In-keep p a (x ∷ xs) (inl e) t = rw (← e, t) (inl refl)
  In-keep p a (x ∷ xs) (inr m) t = elim (Bool-cases (p x)) [
    | inl e ↦ rw e (inr (In-keep p a xs m t))
    | inr e ↦ rw e (In-keep p a xs m t)
  ]

  pub Pointwise-map :
      (R : A → A → Type 0) (f : A → A) (xs : List A)
      → All (λ a. R a (f a)) xs
      → Pointwise R xs (map f xs)
  Pointwise-map R f [] h = tt
  Pointwise-map R f (x ∷ xs) h = (h.0, Pointwise-map R f xs h.1)

  -- One more change of every row.
  pub Pointwise-map_after :
      (R : A → A → Type 0) (f : A → A)
      → ((a b c : A) → R a b → R b c → R a c)
      → (xs ys : List A) → Pointwise R xs ys
      → All (λ a. R a (f a)) ys
      → Pointwise R xs (map f ys)
  Pointwise-map_after R f trans [] [] h k = tt
  Pointwise-map_after R f trans (x ∷ xs) [] h k = h
  Pointwise-map_after R f trans [] (y ∷ ys) h k = h
  Pointwise-map_after R f trans (x ∷ xs) (y ∷ ys) h k =
      (trans x y (f y) h.0 k.0, Pointwise-map_after R f trans xs ys h.1 k.1)

module _ {A B : Type 0} where
  pub In-map : (f : A → B) (a : A) (xs : List A) → In a xs → In (f a) (map f xs)
  In-map f a [] m = elim m [ ]
  In-map f a (x ∷ xs) (inl e) = inl (ap f e)
  In-map f a (x ∷ xs) (inr m) = inr (In-map f a xs m)

module _ {A : Type 0} where
  pub In-keep_inv : (p : A → Bool) (a : A) (xs : List A) → In a (keep p xs) → In a xs × (p a ≡ true)
  In-keep_inv p a [] m = elim m [ ]
  In-keep_inv p a (x ∷ xs) m = elim (Bool-cases (p x)) [
    | inl e ↦ kept e (subst (In a) {y = x ∷ keep p xs} (rw e refl) m) (In-keep_inv p a xs)
    | inr e ↦
        let (n, t) = In-keep_inv p a xs (subst (In a) {y = keep p xs} (rw e refl) m) in (inr n, t)
  ]
    where
      kept :
          p x ≡ true
          → In a (x ∷ keep p xs)
          → (In a (keep p xs) → In a xs × (p a ≡ true))
          → In a (x ∷ xs) × (p a ≡ true)
      kept e (inl k) rest = (inl k, ap p k ∙ e)
      kept e (inr n) rest = let (o, t) = rest n in (inr o, t)

  pub map-cong_In :
      {B : Type 0} (f g : A → B) (xs : List A)
      → ((a : A) → In a xs → f a ≡ g a)
      → map f xs ≡ map g xs
  map-cong_In f g [] h = refl
  map-cong_In f g (x ∷ xs) h = cc (h x (inl refl), map-cong_In f g xs (λ a m. h a (inr m)))

  pub map-map_eq :
      {B C : Type 0} (f : A → B) (g : B → C) (h : A → C) (xs : List A)
      → ((a : A) → g (f a) ≡ h a)
      → map g (map f xs) ≡ map h xs
  map-map_eq f g h [] e = refl
  map-map_eq f g h (x ∷ xs) e = cc (e x, map-map_eq f g h xs e)

  pub map_same : (f : A → A) (xs : List A) → ((a : A) → f a ≡ a) → map f xs ≡ xs
  map_same f [] e = refl
  map_same f (x ∷ xs) e = cc (e x, map_same f xs e)

module _ {A B : Type 0} where
  -- Entries with the same key are the same, where keys do not repeat.
  pub In-unique :
      (f : A → B) (a b : A) (xs : List A)
      → NoRepeats (map f xs)
      → In a xs
      → In b xs
      → f a ≡ f b
      → a ≡ b
  In-unique f a b [] h m n e = elim m [ ]
  In-unique f a b (x ∷ xs) h (inl p) (inl q) e = cc (p, q)
  In-unique f a b (x ∷ xs) h (inl p) (inr n) e =
      absurd (h.0 (subst (λ k. In k (map f xs)) (cc (e, p)) (In-map f b xs n)))
  In-unique f a b (x ∷ xs) h (inr m) (inl q) e =
      absurd (h.0 (subst (λ k. In k (map f xs)) (cc (e, q)) (In-map f a xs m)))
  In-unique f a b (x ∷ xs) h (inr m) (inr n) e = In-unique f a b xs h.1 m n e
