-- ===== src/Cloud/Mapping/Counts.antt =====
-- How many points hold a role, before and after a change of some.
use iot_cloud_commissioning.Prelude.{
  ℕ, ◌+◌, ◌≤◌, ◌≡◌, refl, sym, ap, ◌∙◌, ◌⊎◌, inl, inr, Bool, true, false, not, ◌&&◌, ◌||◌, In, List,
  [], ◌∷◌, String, if◌then◌else◌, length, keep, any, ◌==◌, string_eq, eq_iff, is_some, arith,
}
use iot_cloud_commissioning.Cloud.Db.{update_where}
use iot_cloud_commissioning.Cloud.Mapping.{
  MappingTemplateRule, MappedPoint, bears_role, bound, labelled,
}

abbrev pub bit : Bool → ℕ
bit true = 1
bit false = 0

abbrev pub count : (MappedPoint → Bool) → List MappedPoint → ℕ
count t [] = 0
count t (p ∷ ps) = bit (t p) + count t ps

-- No two points of the device have the same role, whether they are enabled or not.
abbrev pub IsSingle : String → List MappedPoint → Type 0
IsSingle device ps = (role : String) → count (bears_role device role) ps ≤ 1

count-keep : (t : MappedPoint → Bool) (ps : List MappedPoint) → count t ps ≡ length (keep t ps)
count-keep t [] = refl
count-keep t (p ∷ ps) = by_test (t p) (count-keep t ps)
  where
    by_test :
        (b : Bool)
        → count t ps ≡ length (keep t ps)
        → (bit b + count t ps) ≡ length (if b then p ∷ keep t ps else keep t ps)
    by_test true ih = omega (arith, ih)
    by_test false ih = omega (arith, ih)

count-any : (t : MappedPoint → Bool) (ps : List MappedPoint) → any t ps ≡ false → count t ps ≡ 0
count-any t [] h = refl
count-any t (p ∷ ps) h = by_test (t p) h (count-any t ps)
  where
    by_test :
        (b : Bool)
        → (b || any t ps) ≡ false
        → (any t ps ≡ false → count t ps ≡ 0)
        → (bit b + count t ps) ≡ 0
    by_test true h ih = cc h
    by_test false h ih = omega (arith, ih h)

pub count-same :
    (t m : MappedPoint → Bool) (change : MappedPoint → MappedPoint) (ps : List MappedPoint)
    → ((p : MappedPoint) → t (change p) ≡ t p)
    → count t (update_where m change ps) ≡ count t ps
count-same t m change [] same = refl
count-same t m change (p ∷ ps) same = by_test (m p) (count-same t m change ps same)
  where
    by_test :
        (b : Bool)
        → count t (update_where m change ps) ≡ count t ps
        → (bit (t (if b then change p else p)) + count t (update_where m change ps))
          ≡ bit (t p) + count t ps
    by_test true ih = rw same (omega (arith, ih))
    by_test false ih = omega (arith, ih)

-- A change that makes holders of the rows it is for, of which none was one.
pub count-more :
    (t m : MappedPoint → Bool) (change : MappedPoint → MappedPoint) (ps : List MappedPoint)
    → ((p : MappedPoint) → In p (keep m ps) → t p ≡ false)
    → ((p : MappedPoint) → t (change p) ≡ true)
    → count t (update_where m change ps) ≡ count t ps + length (keep m ps)
count-more t m change [] free made = omega arith
count-more t m change (p ∷ ps) free made = by_test (m p) free (count-more t m change ps)
  where
    after : List MappedPoint
    after = update_where m change ps

    by_test :
        (b : Bool)
        → ((q : MappedPoint)
            → In q (let rest = keep m ps in if b then p ∷ rest else rest)
            → t q ≡ false)
        → (((q : MappedPoint) → In q (keep m ps) → t q ≡ false)
            → ((q : MappedPoint) → t (change q) ≡ true)
            → count t after ≡ count t ps + length (keep m ps))
        → (bit (t (if b then change p else p)) + count t after)
          ≡ bit (t p) + count t ps + length (let rest = keep m ps in if b then p ∷ rest else rest)
    by_test true free ih =
        let e = ih (λ q m. free q (inr m)) made in rw (made p, free p (inl refl)) (omega (arith, e))
    by_test false free ih = let e = ih free made in omega (arith, e)

-- A change that gives the role only where it may makes at most so many more holders of it.
count-update_where :
    (t m : MappedPoint → Bool) (change : MappedPoint → MappedPoint) (given : Bool)
    (ps : List MappedPoint)
    → ((p : MappedPoint) → (t (change p) ≡ true) → (t p ≡ true) ⊎ (given ≡ true))
    → count t (update_where m change ps) ≤ count t ps + (if given then count m ps else 0)
count-update_where t m change given [] may = omega arith
count-update_where t m change given (p ∷ ps) may =
    by_test (m p) (t p) given refl (may p) (count-update_where t m change given ps may)
  where
    after : Bool → MappedPoint
    after b = if b then change p else p

    rest : List MappedPoint
    rest = update_where m change ps

    by_change :
        (was is g : Bool)
        → (is ≡ true → (was ≡ true) ⊎ (g ≡ true))
        → count t rest ≤ count t ps + (if g then count m ps else 0)
        → bit is + count t rest ≤ bit was + count t ps + (if g then 1 + count m ps else 0)
    by_change was false true may ih = omega arith
    by_change was false false may ih = omega arith
    by_change true true true may ih = omega arith
    by_change true true false may ih = omega arith
    by_change false true true may ih = omega arith
    by_change false true false may ih = elim (may refl) [ inl e ↦ cc e | inr e ↦ cc e ]

    by_test :
        (b was g : Bool)
        → t p ≡ was
        → (t (change p) ≡ true → (was ≡ true) ⊎ (g ≡ true))
        → count t rest ≤ count t ps + (if g then count m ps else 0)
        → bit (t (after b)) + count t rest
          ≤ bit was + count t ps + (if g then bit b + count m ps else 0)
    by_test true was g e may ih = by_change was (t (change p)) g may ih
    by_test false was true e may ih = rw e (omega arith)
    by_test false was false e may ih = rw e (omega arith)

module _ (device : String) (now : ℕ) where
  bears_role-labelled :
      (rule : MappingTemplateRule) (role : String) (p : MappedPoint)
      → bears_role device role (labelled rule now p) ≡ bears_role device role p
  bears_role-labelled rule role p =
      by_test (not (is_some p.display_label) && is_some rule.display_label)
    where
      by_test :
          (b : Bool)
          → bears_role device role
              (if b then record p { display_label = rule.display_label; updated_at = now } else p)
            ≡ bears_role device role p
      by_test true = refl
      by_test false = refl

  pub IsSingle-labelled :
      (rule : MappingTemplateRule) (m : MappedPoint → Bool) (ps : List MappedPoint)
      → IsSingle device ps
      → IsSingle device (update_where m (labelled rule now) ps)
  IsSingle-labelled rule m ps single role =
      let le =
        count-update_where (bears_role device role) m (labelled rule now) false ps
          (λ p h. inl (sym (bears_role-labelled rule role p) ∙ h)) in
      omega (arith, le, single role)

  pub IsSingle-bound :
      (rule : MappingTemplateRule) (m : MappedPoint → Bool) (p : MappedPoint)
      (ps : List MappedPoint)
      → keep m ps ≡ p ∷ []
      → any (bears_role device rule.logical_role) ps ≡ false
      → IsSingle device ps
      → IsSingle device (update_where m (bound rule now) ps)
  IsSingle-bound rule m p ps one free single role = by_role (rule.logical_role == role) refl (
      count-update_where (bears_role device role) m (bound rule now) (rule.logical_role == role) ps
        (λ q h. inr (second (q.saved_device_id == device) (rule.logical_role == role) h)))
    where
      second : (a b : Bool) → (a && b) ≡ true → b ≡ true
      second true b h = h
      second false b h = cc h

      by_role :
          (b : Bool)
          → (rule.logical_role == role) ≡ b
          → count (bears_role device role) (update_where m (bound rule now) ps)
            ≤ count (bears_role device role) ps + (if b then count m ps else 0)
          → count (bears_role device role) (update_where m (bound rule now) ps) ≤ 1
      by_role true e le =
          let none_before : count (bears_role device role) ps ≡ 0 =
            ap (λ r. count (bears_role device r) ps) (sym ((eq_iff rule.logical_role role).0 e))
            ∙ count-any (bears_role device rule.logical_role) ps free in
          let sole : count m ps ≡ 1 = count-keep m ps ∙ ap length one in
          omega (arith, le, none_before, sole)
      by_role false e le = omega (arith, le, single role)
