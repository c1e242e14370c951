-- ===== src/Cloud/Readings/Owner.antt =====
-- A reading that a gateway reports changes only points of that gateway.
use iot_cloud_commissioning.Prelude.{
  ℕ, ◌≡◌, refl, Option, none, some, List, [], ◌∷◌, String, arith, Pointwise, Bool-cases, inl, inr,
  ◌==◌, string_eq, eq_iff, subst,
}
use iot_cloud_commissioning.Json.{Value, Fields, as_dict}
use iot_cloud_commissioning.Cloud.Db.{SavedBacnetPoint}
use iot_cloud_commissioning.Cloud.Db.Owned.{
  Foreign, Foreign-own, Foreign-refl, Pointwise-Foreign-refl, Pointwise-Foreign-trans,
  change_first-Foreign,
}
use iot_cloud_commissioning.Cloud.Http.{ok, ok-injective, or_refuse, >>=-eq-ok}
use iot_cloud_commissioning.Cloud.Readings.{
  has_id, if_own, reading, bulk_reading, save_reading, save_read, save_entry, save_value, save_bulk,
}
use iot_cloud_commissioning.Cloud.Tree.Isolation.{point_owner}

abbrev pub SameOwners : String → List SavedBacnetPoint → List SavedBacnetPoint → Type 0
SameOwners gateway = Pointwise (Foreign point_owner gateway)

pub if_own-Foreign :
    (gateway : String) (f : SavedBacnetPoint → SavedBacnetPoint)
    → ((p : SavedBacnetPoint) → (f p).gateway_id ≡ p.gateway_id)
    → (p : SavedBacnetPoint) → Foreign point_owner gateway p (if_own gateway f p)
if_own-Foreign gateway f k p = elim (Bool-cases (p.gateway_id == gateway)) [
  | inl e ↦
      rw e (
        Foreign-own point_owner gateway p (f p) (k p) (ground (arith, eq_iff p.gateway_id gateway)))
  | inr e ↦ rw e (Foreign-refl point_owner gateway p)
]

bulk_reading_owner :
    (str : Value → String) (now : ℕ) (entry : Fields) (p : SavedBacnetPoint)
    → (bulk_reading str now entry p).gateway_id ≡ p.gateway_id
unfolding bulk_reading
bulk_reading_owner str now entry p = ground arith

module _ (tree_id : String → Option String) (str : Value → String) (gateway : String)
    (now : ℕ) where
  save_reading-SameOwners :
      (points : List SavedBacnetPoint) (id : Option String) (value : Option Value)
      (after : List SavedBacnetPoint)
      → save_reading tree_id str gateway now points id value ≡ ok after
      → SameOwners gateway points after
  unfolding save_reading
  save_reading-SameOwners points (some id) (some value) after h =
      let (point_id, _, k) = >>=-eq-ok (or_refuse (tree_id id) 404 "Record not found") _ h in
      subst (SameOwners gateway points) (ok-injective k) (
        change_first-Foreign point_owner gateway (has_id point_id)
          (if_own gateway (reading str now value))
          (λ p _. if_own-Foreign gateway (reading str now value) (λ _. refl) p) points)
  save_reading-SameOwners points none value after h =
      subst (SameOwners gateway points) (ok-injective h)
        (Pointwise-Foreign-refl point_owner gateway points)
  save_reading-SameOwners points (some id) none after h =
      subst (SameOwners gateway points) (ok-injective h)
        (Pointwise-Foreign-refl point_owner gateway points)

  pub save_read-SameOwners :
      (points : List SavedBacnetPoint) (request result : Fields) (after : List SavedBacnetPoint)
      → save_read tree_id str gateway now points request result ≡ ok after
      → SameOwners gateway points after
  unfolding save_read
  save_read-SameOwners points request result after h = save_reading-SameOwners points _ _ after h

  save_entry-SameOwners :
      (points : List SavedBacnetPoint) (entry : Fields) (id : Option String)
      (after : List SavedBacnetPoint)
      → save_entry tree_id str gateway now points entry id ≡ ok after
      → SameOwners gateway points after
  unfolding save_entry
  save_entry-SameOwners points entry none after h =
      subst (SameOwners gateway points) (ok-injective h)
        (Pointwise-Foreign-refl point_owner gateway points)
  save_entry-SameOwners points entry (some id) after h =
      let (point_id, _, k) = >>=-eq-ok (or_refuse (tree_id id) 404 "Record not found") _ h in
      subst (SameOwners gateway points) (ok-injective k) (
        change_first-Foreign point_owner gateway (has_id point_id)
          (if_own gateway (bulk_reading str now entry))
          (λ p _.
            if_own-Foreign gateway (bulk_reading str now entry) (bulk_reading_owner str now entry)
              p)
          points)

  save_value-SameOwners :
      (points : List SavedBacnetPoint) (o : Option Fields) (after : List SavedBacnetPoint)
      → save_value tree_id str gateway now points o ≡ ok after
      → SameOwners gateway points after
  unfolding save_value
  save_value-SameOwners points none after h =
      subst (SameOwners gateway points) (ok-injective h)
        (Pointwise-Foreign-refl point_owner gateway points)
  save_value-SameOwners points (some entry) after h = save_entry-SameOwners points entry _ after h

  pub save_bulk-SameOwners :
      (values : List Value) (points : List SavedBacnetPoint) (after : List SavedBacnetPoint)
      → save_bulk tree_id str gateway now points values ≡ ok after
      → SameOwners gateway points after
  unfolding save_bulk
  save_bulk-SameOwners [] points after h =
      subst (SameOwners gateway points) (ok-injective h)
        (Pointwise-Foreign-refl point_owner gateway points)
  save_bulk-SameOwners (v ∷ vs) points after h =
      let (rest, e, k) =
        >>=-eq-ok (save_value tree_id str gateway now points (as_dict (some v))) _ h in
      Pointwise-Foreign-trans point_owner gateway points rest after
        (save_value-SameOwners points _ rest e) (save_bulk-SameOwners vs rest after k)
