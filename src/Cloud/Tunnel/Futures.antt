-- ===== src/Cloud/Tunnel/Futures.antt =====
-- Lookups of futures after some are finished: what is done stays, and what is missing stays missing.
use iot_cloud_commissioning.Prelude.{
  ℕ, ◌≡◌, refl, Bool, true, Option, none, some, [], ◌∷◌, String, arith, nat_beq, nat_eq,
  nat_beq_iff, string_eq,
}
use iot_cloud_commissioning.Dict.{Dict, get, put, get-put}
use iot_cloud_commissioning.Cloud.Tunnel.{Outcome, finish, fail_each}

abbrev settled : Bool → Outcome → Option (Option Outcome) → Option (Option Outcome)
settled true o (some none) = some (some o)
settled _ o x = x

pub get-finish :
    (o : Outcome) (fs : Dict ℕ (Option Outcome)) (f j : ℕ)
    → get (finish o fs f) j ≡ settled (nat_beq f j) o (get fs j)
unfolding finish
get-finish o fs f j = by_state (get fs f) refl
  where
    by_state :
        (x : Option (Option Outcome))
        → get fs f ≡ x
        → get
            (elim x as (λ _. Dict ℕ (Option Outcome)) [ some none ↦ put fs f (some o) | _ ↦ fs ])
            j
          ≡ settled (nat_beq f j) o (get fs j)
    by_state none e = ground (arith, nat_beq_iff f j)
    by_state (some (some p)) e = ground (arith, nat_beq_iff f j)
    by_state (some none) e = ground (arith, nat_beq_iff f j, get-put fs f j (some o))

-- What is done stays, and no future appears out of nothing.
pub record Settles (fs gs : Dict ℕ (Option Outcome)) : Type 0 where
  pub kept : (f : ℕ) (o : Outcome) → get fs f ≡ some (some o) → get gs f ≡ some (some o)
  pub absent : (f : ℕ) → get fs f ≡ none → get gs f ≡ none

Settles-refl : (fs : Dict ℕ (Option Outcome)) → Settles fs fs
Settles-refl fs = record { kept = λ f o h. h; absent = λ f h. h }

Settles-trans : {fs gs hs : Dict ℕ (Option Outcome)} → Settles fs gs → Settles gs hs → Settles fs hs
Settles-trans h k = record {
  kept = λ f o e. k.kept f o (h.kept f o e);
  absent = λ f e. k.absent f (h.absent f e);
}

finish-Settles : (o : Outcome) (fs : Dict ℕ (Option Outcome)) (f : ℕ) → Settles fs (finish o fs f)
finish-Settles o fs f = record {
  kept = λ j p h. ground (arith, get-finish o fs f j);
  absent = λ j h. ground (arith, get-finish o fs f j);
}

pub fail_each-Settles :
    (pending : Dict String ℕ) (fs : Dict ℕ (Option Outcome)) → Settles fs (fail_each pending fs)
unfolding fail_each
fail_each-Settles [] fs = Settles-refl fs
fail_each-Settles ((_, f) ∷ pending) fs =
    Settles-trans (finish-Settles Outcome.unavailable fs f)
      (fail_each-Settles pending (finish Outcome.unavailable fs f))
