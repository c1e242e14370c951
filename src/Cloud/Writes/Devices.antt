-- ===== src/Cloud/Writes/Devices.antt =====
-- The devices on which a batch has commands, and the jobs that are made for them.
use iot_cloud_commissioning.Prelude.{
  ℕ, ◌≡◌, ◌↔◌, refl, Bool, true, false, ◌&&◌, List, [], ◌∷◌, map, if◌then◌else◌, keep, In,
  NoRepeats, ◌==◌, arith, is_some, nat_beq, any, ◌||◌,
}
use iot_cloud_commissioning.Dict.{Dict, get}
use iot_cloud_commissioning.Dict.Group.{nonempty}
use iot_cloud_commissioning.Dict.Purge.{Distinct, fresh}
use iot_cloud_commissioning.Json.{ℤ, int_eq, int_beq_iff}
use iot_cloud_commissioning.Cloud.Db.{EdgeJob, BacnetWriteCommand}

-- One job for each device, in their order.
abbrev pub AreJobs : (ℤ → EdgeJob → Type 0) → List ℤ → List EdgeJob → Type 0
AreJobs IsJob [] [] = Unit
AreJobs IsJob (d ∷ ds) (j ∷ js) = IsJob d j × AreJobs IsJob ds js
AreJobs IsJob _ _ = ⊥

abbrev pub devices_of : Dict ℤ (List BacnetWriteCommand) → List ℤ
devices_of groups = map (λ (g : ℤ × List BacnetWriteCommand). g.0) groups

pub In-devices_of :
    (groups : Dict ℤ (List BacnetWriteCommand)) (d : ℤ)
    → (In d (devices_of groups)) ↔ (is_some (get groups d) ≡ true)
unfolding get
In-devices_of [] d = ground arith
In-devices_of ((e, cs) ∷ groups) d =
    ground (arith, In-devices_of groups d, int_beq_iff e d, int_beq_iff d e)

pub devices_of-NoRepeats :
    (groups : Dict ℤ (List BacnetWriteCommand)) → Distinct groups → NoRepeats (devices_of groups)
devices_of-NoRepeats [] h = tt
devices_of-NoRepeats ((d, cs) ∷ groups) (fresh new h) =
    (λ m. ground (arith, In-devices_of groups d, new, m), devices_of-NoRepeats groups h)

pub keep-batch_commands :
    (batch : ℕ) (device : ℤ) (cs : List BacnetWriteCommand)
    → keep (λ c. c.device_instance == device) (keep (λ c. nat_beq c.batch_id batch) cs)
      ≡ keep (λ c. nat_beq c.batch_id batch && c.device_instance == device) cs
keep-batch_commands batch device [] = refl
keep-batch_commands batch device (c ∷ cs) =
    by_tests (nat_beq c.batch_id batch) (c.device_instance == device) refl
      (keep-batch_commands batch device cs)
  where
    same : List BacnetWriteCommand
    same = keep (λ c. nat_beq c.batch_id batch && c.device_instance == device) cs

    by_tests :
        (a b : Bool)
        → (c.device_instance == device) ≡ b
        → keep (λ c. c.device_instance == device) (keep (λ c. nat_beq c.batch_id batch) cs) ≡ same
        → keep
            (λ c. c.device_instance == device)
            (let rest = keep (λ c. nat_beq c.batch_id batch) cs in if a then c ∷ rest else rest)
          ≡ (if a && b then c ∷ same else same)
    by_tests true true e ih = rw (e, ih) refl
    by_tests true false e ih = rw (e, ih) refl
    by_tests false b e ih = ih

pub any-keep :
    (t : BacnetWriteCommand → Bool) (cs : List BacnetWriteCommand)
    → is_some (nonempty (keep t cs)) ≡ true
    → any t cs ≡ true
any-keep t [] h = cc h
any-keep t (c ∷ cs) h = by_test (t c) h (any-keep t cs)
  where
    by_test :
        (b : Bool)
        → is_some (nonempty (let rest = keep t cs in if b then c ∷ rest else rest)) ≡ true
        → (is_some (nonempty (keep t cs)) ≡ true → any t cs ≡ true)
        → (b || any t cs) ≡ true
    by_test true h ih = refl
    by_test false h ih = ih h
