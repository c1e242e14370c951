-- ===== src/Cloud/Jobs/Oldest.antt =====
-- The order in which a gateway's waiting jobs are handed out.
use iot_cloud_commissioning.Prelude.{
  ◌≡◌, refl, ◌⊎◌, inl, inr, Bool, true, false, Option, none, some, List, [], ◌∷◌, String, arith,
  if◌then◌else◌, All, All-map_imp, In, Bool-cases, ◌∙◌, subst, sym,
}
use iot_cloud_commissioning.Cloud.Db.{EdgeJob}
use iot_cloud_commissioning.Cloud.Jobs.{is_waiting, earlier, first_of_two, next_waiting}

pub earlier_trans :
    (a b c : EdgeJob) → earlier a b ≡ false → earlier b c ≡ false → earlier a c ≡ false
unfolding earlier
earlier_trans a b c h k = ground arith

earlier_irrefl : (a : EdgeJob) → earlier a a ≡ false
unfolding earlier
earlier_irrefl a = ground arith

earlier_asym : (a b : EdgeJob) → earlier a b ≡ true → earlier b a ≡ false
unfolding earlier
earlier_asym a b h = ground arith

-- No waiting row of the list stands before `job`.
abbrev pub IsFirst : String → EdgeJob → List EdgeJob → Type 0
IsFirst gateway job = All (λ j. is_waiting gateway j ≡ true → earlier j job ≡ false)

first_of_two_cases :
    (job other : EdgeJob)
    → ((first_of_two job (some other) ≡ other) × (earlier other job ≡ true))
      ⊎ ((first_of_two job (some other) ≡ job) × (earlier other job ≡ false))
unfolding first_of_two
first_of_two_cases job other = elim (Bool-cases (earlier other job)) [
  | inl e ↦ inl (rw e refl, e)
  | inr e ↦ inr (rw e refl, e)
]

abbrev Picked : String → List EdgeJob → EdgeJob → Type 0
Picked gateway jobs job = In job jobs × (is_waiting gateway job ≡ true) × IsFirst gateway job jobs

first_of_two-Picked :
    (gateway : String) (job other : EdgeJob) (jobs : List EdgeJob)
    → is_waiting gateway job ≡ true
    → Picked gateway jobs other
    → Picked gateway (job ∷ jobs) (first_of_two job (some other))
first_of_two-Picked gateway job other jobs w p = elim (first_of_two_cases job other) [
  | inl (e, lt) ↦
      subst (Picked gateway (job ∷ jobs)) (sym e)
        (inr p.0, p.1, ((λ _. earlier_asym other job lt), p.2))
  | inr (e, ge) ↦ subst (Picked gateway (job ∷ jobs)) (sym e) (
    inl refl,
    w,
    (
      (λ _. earlier_irrefl job),
      All-map_imp _ _ (λ j k v. earlier_trans j other job (k v) ge) jobs p.2,
    ),
  )
]

none_waiting-IsFirst :
    (gateway : String) (job : EdgeJob) (jobs : List EdgeJob)
    → All (λ j. is_waiting gateway j ≡ false) jobs
    → IsFirst gateway job jobs
none_waiting-IsFirst gateway job jobs h = All-map_imp _ _ (λ j e w. cc (e, w)) jobs h

-- With nothing handed out, nothing waits.
pub next_waiting-none :
    (gateway : String) (jobs : List EdgeJob)
    → next_waiting gateway jobs ≡ none
    → All (λ j. is_waiting gateway j ≡ false) jobs
unfolding next_waiting
next_waiting-none gateway [] h = tt
next_waiting-none gateway (job ∷ jobs) h =
    (ground arith, next_waiting-none gateway jobs (ground arith))

skip-Picked :
    (gateway : String) (job j : EdgeJob) (jobs : List EdgeJob)
    → is_waiting gateway j ≡ false
    → Picked gateway jobs job
    → Picked gateway (j ∷ jobs) job
skip-Picked gateway job j jobs w p = (inr p.0, p.1, ((λ v. cc), p.2))

some_eq {ℓ} : {A : Type ℓ} {a b : A} → some a ≡ some b → a ≡ b
some_eq e = cc

-- What is picked waits for the gateway, stands in the table, and no waiting row is before it.
pub next_waiting-some :
    (gateway : String) (jobs : List EdgeJob) (job : EdgeJob)
    → next_waiting gateway jobs ≡ some job
    → In job jobs × (is_waiting gateway job ≡ true) × IsFirst gateway job jobs
unfolding next_waiting
next_waiting-some gateway [] job h = cc
next_waiting-some gateway (j ∷ jobs) job h =
    pick (is_waiting gateway j) refl (next_waiting gateway jobs) refl h
      (next_waiting-some gateway jobs)
  where
    pick :
        (b : Bool)
        → is_waiting gateway j ≡ b
        → (o : Option EdgeJob) → next_waiting gateway jobs ≡ o
        → (if b then some (first_of_two j o) else o) ≡ some job
        → ((k : EdgeJob) → next_waiting gateway jobs ≡ some k → Picked gateway jobs k)
        → Picked gateway (j ∷ jobs) job
    pick false w o e k ih = skip-Picked gateway job j jobs w (ih job (e ∙ k))
    pick true w none e k ih = subst (Picked gateway (j ∷ jobs)) (some_eq k) (
      inl refl,
      w,
      (
        (λ _. earlier_irrefl j),
        none_waiting-IsFirst gateway j jobs (next_waiting-none gateway jobs e),
      ),
    )
    pick true w (some other) e k ih =
        subst (Picked gateway (j ∷ jobs)) (some_eq k)
          (first_of_two-Picked gateway j other jobs w (ih other e))
