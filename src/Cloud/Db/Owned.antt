-- ===== src/Cloud/Db/Owned.antt =====
-- Tables whose rows belong to gateways, and what a change made for one gateway leaves alone.
use iot_cloud_commissioning.Prelude.{
  ◌≡◌, ◌≢◌, refl, ◌∙◌, sym, subst, In, Bool, true, some, List, [], ◌∷◌, ◌++◌, String, arith, All,
  All-append, Pointwise, Bool-cases, inl, inr,
}
use iot_cloud_commissioning.Cloud.Db.{Session, change_first, first_where}

module _ {A : Type 0} (owner : A → String) where
  -- The row stays with its gateway, and it is as it was unless that is `gateway`.
  abbrev pub Foreign : String → A → A → Type 0
  Foreign gateway a b = (owner b ≡ owner a) × (owner a ≢ gateway → b ≡ a)

  pub Foreign-refl : (gateway : String) (a : A) → Foreign gateway a a
  Foreign-refl gateway a = (refl, λ h. refl)

  pub Foreign-trans :
      (gateway : String) (a b c : A)
      → Foreign gateway a b
      → Foreign gateway b c
      → Foreign gateway a c
  Foreign-trans gateway a b c (e, h) (f, k) = (f ∙ e, λ n. k (λ g. n (sym e ∙ g)) ∙ h n)

  -- A row of `gateway` may change in any way that keeps its owner.
  pub Foreign-own :
      (gateway : String) (a b : A) → owner b ≡ owner a → owner a ≡ gateway → Foreign gateway a b
  Foreign-own gateway a b e g = (e, λ n. absurd (n g))

  pub Pointwise-Foreign-refl : (gateway : String) (xs : List A) → Pointwise (Foreign gateway) xs xs
  Pointwise-Foreign-refl gateway [] = tt
  Pointwise-Foreign-refl gateway (x ∷ xs) =
      (Foreign-refl gateway x, Pointwise-Foreign-refl gateway xs)

  pub Pointwise-Foreign-trans :
      (gateway : String) (xs ys zs : List A)
      → Pointwise (Foreign gateway) xs ys
      → Pointwise (Foreign gateway) ys zs
      → Pointwise (Foreign gateway) xs zs
  Pointwise-Foreign-trans gateway [] [] [] h k = tt
  Pointwise-Foreign-trans gateway [] [] (z ∷ zs) h k = k
  Pointwise-Foreign-trans gateway [] (y ∷ ys) zs h k = elim h [ ]
  Pointwise-Foreign-trans gateway (x ∷ xs) [] zs h k = elim h [ ]
  Pointwise-Foreign-trans gateway (x ∷ xs) (y ∷ ys) [] h k = elim k [ ]
  Pointwise-Foreign-trans gateway (x ∷ xs) (y ∷ ys) (z ∷ zs) h k =
      (Foreign-trans gateway x y z h.0 k.0, Pointwise-Foreign-trans gateway xs ys zs h.1 k.1)

  pub change_first-Foreign :
      (gateway : String) (p : A → Bool) (f : A → A)
      → ((a : A) → p a ≡ true → Foreign gateway a (f a))
      → (xs : List A) → Pointwise (Foreign gateway) xs (change_first p f xs)
  change_first-Foreign gateway p f h [] = tt
  change_first-Foreign gateway p f h (x ∷ xs) = elim (Bool-cases (p x)) [
    | inl e ↦ rw e (h x e, Pointwise-Foreign-refl gateway xs)
    | inr e ↦ rw e (Foreign-refl gateway x, change_first-Foreign gateway p f h xs)
  ]

  -- What a session does for `gateway`: foreign rows stay, and what it adds is that gateway's.
  pub record Isolated (gateway : String) (before : List A) (after : Session A) : Type 0 where
    pub kept : Pointwise (Foreign gateway) before after.stored
    pub own : All (λ a. owner a ≡ gateway) after.added

  pub Isolated-refl :
      (gateway : String) (xs : List A) → Isolated gateway xs (record { stored = xs; added = [] })
  Isolated-refl gateway xs = record { kept = Pointwise-Foreign-refl gateway xs; own = tt }

  pub Isolated-change :
      (gateway : String) (before : List A) (s : Session A) (p : A → Bool) (f : A → A)
      → ((a : A) → p a ≡ true → Foreign gateway a (f a))
      → Isolated gateway before s
      → Isolated gateway before (record s { stored = change_first p f s.stored })
  Isolated-change gateway before s p f h k = record {
    kept =
        Pointwise-Foreign-trans gateway before s.stored _ k.kept
          (change_first-Foreign gateway p f h s.stored);
    own = k.own;
  }

  pub Isolated-add :
      (gateway : String) (before : List A) (s : Session A) (a : A)
      → owner a ≡ gateway
      → Isolated gateway before s
      → Isolated gateway before (record s { added = s.added ++ a ∷ [] })
  Isolated-add gateway before s a e k = record {
    kept = k.kept;
    own = All-append (λ x. owner x ≡ gateway) s.added (a ∷ []) k.own (e, tt);
  }

module _ {A : Type 0} where
  pub first_where-eq-some :
      (p : A → Bool) (xs : List A) (a : A) → first_where p xs ≡ some a → In a xs × (p a ≡ true)
  first_where-eq-some p [] a h = cc
  first_where-eq-some p (x ∷ xs) a h = elim (Bool-cases (p x)) [
    | inl e ↦ let same : x ≡ a = ground arith in (inl (sym same), subst (λ b. p b ≡ true) same e)
    | inr e ↦ let (m, k) = first_where-eq-some p xs a (ground arith) in (inr m, k)
  ]

  -- A change of the row that the lookup finds.
  pub change_first-found :
      (owner : A → String) (gateway : String) (p : A → Bool) (f : A → A)
      → ((a : A) → owner (f a) ≡ owner a)
      → (xs : List A) (a : A) → first_where p xs ≡ some a
      → owner a ≡ gateway
      → Pointwise (Foreign owner gateway) xs (change_first p f xs)
  change_first-found owner gateway p f k [] a h g = tt
  change_first-found owner gateway p f k (x ∷ xs) a h g = elim (Bool-cases (p x)) [
    | inl e ↦
        let same : x ≡ a = ground arith in
        rw e (
          Foreign-own owner gateway x (f x) (k x) (subst (λ b. owner b ≡ gateway) (sym same) g),
          Pointwise-Foreign-refl owner gateway xs,
        )
    | inr e ↦
        rw e (
          Foreign-refl owner gateway x,
          change_first-found owner gateway p f k xs a (ground arith) g,
        )
  ]
