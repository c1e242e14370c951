-- ===== src/Cloud/Mapping/Unique.antt =====
-- The unique index on the device and the role of a point, from how many points hold a role.
use iot_cloud_commissioning.Prelude.{
  ◌+◌, ◌≤◌, ◌≡◌, refl, Bool, true, false, not, ◌&&◌, ◌||◌, Option, none, some, eq_self, List, [],
  ◌∷◌, String, any, ◌==◌, string_eq, arith,
}
use iot_cloud_commissioning.Cloud.Mapping.{
  MappedPoint, role_is, has_role, bears_role, has_twin, repeats_role,
}
use iot_cloud_commissioning.Cloud.Mapping.Counts.{bit, count, IsSingle}

-- A disabled point of the device that kept the role.
abbrev pub keeps_role : String → String → MappedPoint → Bool
keeps_role device role p =
    p.saved_device_id == device && (not p.enabled && role_is role p.logical_role)

any-count : (t : MappedPoint → Bool) (ps : List MappedPoint) → count t ps ≡ 0 → any t ps ≡ false
any-count t [] h = refl
any-count t (p ∷ ps) h = by_test (t p) h (any-count t ps)
  where
    by_test :
        (b : Bool)
        → (bit b + count t ps) ≡ 0
        → (count t ps ≡ 0 → any t ps ≡ false)
        → (b || any t ps) ≡ false
    by_test true h ih = absurd (omega (arith, h))
    by_test false h ih = ih (omega (arith, h))

-- Where no two points share a role, the unique index holds.
pub repeats_role-IsSingle :
    (device : String) (ps : List MappedPoint) → IsSingle device ps → repeats_role device ps ≡ false
unfolding repeats_role
repeats_role-IsSingle device [] single = refl
repeats_role-IsSingle device (p ∷ ps) single =
    by_role (p.saved_device_id == device) p.logical_role single
      (repeats_role-IsSingle device ps (λ role. omega (arith, single role)))
  where
    by_role :
        (b : Bool) (role : Option String)
        → ((r : String) → bit (b && role_is r role) + count (bears_role device r) ps ≤ 1)
        → repeats_role device ps ≡ false
        → (b && has_twin device role ps || repeats_role device ps) ≡ false
    by_role false role h ih = ih
    by_role true none h ih = ih
    by_role true (some r) h ih =
        let le : bit (r == r) + count (bears_role device r) ps ≤ 1 = h r in
        let none_else : count (bears_role device r) ps ≡ 0 = omega (arith, rw eq_self at le) in
        rw (any-count (bears_role device r) ps none_else) ih

-- An enabled holder and a disabled holder are all the holders there can be.
pub any-bears_role :
    (device role : String) (ps : List MappedPoint)
    → any (has_role device role) ps ≡ false
    → any (keeps_role device role) ps ≡ false
    → any (bears_role device role) ps ≡ false
any-bears_role device role [] h k = refl
any-bears_role device role (p ∷ ps) h k =
    by_tests (p.saved_device_id == device) p.enabled (role_is role p.logical_role) h k
      (any-bears_role device role ps)
  where
    by_tests :
        (d e r : Bool)
        → (((d && e) && r) || any (has_role device role) ps) ≡ false
        → ((d && (not e && r)) || any (keeps_role device role) ps) ≡ false
        → (any (has_role device role) ps ≡ false
            → any (keeps_role device role) ps ≡ false
            → any (bears_role device role) ps ≡ false)
        → ((d && r) || any (bears_role device role) ps) ≡ false
    by_tests false e r h k ih = ih h k
    by_tests true true true h k ih = cc h
    by_tests true true false h k ih = ih h k
    by_tests true false true h k ih = cc k
    by_tests true false false h k ih = ih h k
