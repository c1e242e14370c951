-- ===== src/Cloud/Results/Isolation.antt =====
-- What a gateway that reports a job result can change: its own job and its own tree.
use iot_cloud_commissioning.Prelude.{
  ℕ, ◌≡◌, refl, sym, ◌∙◌, subst, Option, none, some, List, [], ◌∷◌, ◌++◌, String, arith, All,
  All-In, Bool-cases, inl, inr, ◌==◌, string_eq, eq_iff, Pointwise,
}
use iot_cloud_commissioning.Json.{Items, members}
use iot_cloud_commissioning.Cloud.Db.{
  Db, SavedBacnetPoint, SavedBacnetDevice, Session, first_where, change_first,
}
use iot_cloud_commissioning.Cloud.Db.Owned.{
  first_where-eq-some, change_first-found, Foreign, Foreign-trans, Isolated, Isolated-refl,
  Pointwise-Foreign-refl,
}
use iot_cloud_commissioning.Cloud.Http.{Response, ok, ok-injective, refuse_if, ◌>>◌, >>=-eq-ok}
use iot_cloud_commissioning.Cloud.Tree.{load_points, mark_device_seen}
use iot_cloud_commissioning.Cloud.Tree.Isolation.{
  device_owner, point_owner, Placed, discover-Isolated, load_points-Isolated,
}
use iot_cloud_commissioning.Cloud.Readings.Owner.{SameOwners}
use iot_cloud_commissioning.Cloud.Results.{save_discovery, clashes, load_device_points}

module _ {A : Type 0} (owner : A → String) (gateway : String) where
  -- Rows of other gateways stay as they are, and every further row is this gateway's.
  abbrev pub OnlyOwn : List A → List A → Type 0
  OnlyOwn [] ys = All (λ y. owner y ≡ gateway) ys
  OnlyOwn (x ∷ xs) [] = ⊥
  OnlyOwn (x ∷ xs) (y ∷ ys) = Foreign owner gateway x y × OnlyOwn xs ys

  OnlyOwn-added :
      (xs ys zs : List A)
      → Pointwise (Foreign owner gateway) xs ys
      → All (λ z. owner z ≡ gateway) zs
      → OnlyOwn xs (ys ++ zs)
  OnlyOwn-added [] [] zs h k = k
  OnlyOwn-added [] (y ∷ ys) zs h k = elim h [ ]
  OnlyOwn-added (x ∷ xs) [] zs h k = elim h [ ]
  OnlyOwn-added (x ∷ xs) (y ∷ ys) zs h k = (h.0, OnlyOwn-added xs ys zs h.1 k)

  pub OnlyOwn-Isolated :
      (before : List A) (s : Session A)
      → Isolated owner gateway before s
      → OnlyOwn before (s.stored ++ s.added)
  OnlyOwn-Isolated before s h = OnlyOwn-added before s.stored s.added h.kept h.own

  pub OnlyOwn-Pointwise : (xs ys : List A) → Pointwise (Foreign owner gateway) xs ys → OnlyOwn xs ys
  OnlyOwn-Pointwise [] [] h = tt
  OnlyOwn-Pointwise [] (y ∷ ys) h = elim h [ ]
  OnlyOwn-Pointwise (x ∷ xs) [] h = elim h [ ]
  OnlyOwn-Pointwise (x ∷ xs) (y ∷ ys) h = (h.0, OnlyOwn-Pointwise xs ys h.1)

  pub OnlyOwn-refl : (xs : List A) → OnlyOwn xs xs
  OnlyOwn-refl xs = OnlyOwn-Pointwise xs xs (Pointwise-Foreign-refl owner gateway xs)

  own_rows :
      (xs ys : List A)
      → All (λ x. owner x ≡ gateway) xs
      → OnlyOwn xs ys
      → All (λ y. owner y ≡ gateway) ys
  own_rows [] ys h k = k
  own_rows (x ∷ xs) [] h k = elim k [ ]
  own_rows (x ∷ xs) (y ∷ ys) h k = (k.0.0 ∙ h.0, own_rows xs ys h.1 k.1)

  OnlyOwn-trans : (xs ys zs : List A) → OnlyOwn xs ys → OnlyOwn ys zs → OnlyOwn xs zs
  OnlyOwn-trans [] ys zs h k = own_rows ys zs h k
  OnlyOwn-trans (x ∷ xs) [] zs h k = elim h [ ]
  OnlyOwn-trans (x ∷ xs) (y ∷ ys) [] h k = elim k [ ]
  OnlyOwn-trans (x ∷ xs) (y ∷ ys) (z ∷ zs) h k =
      (Foreign-trans owner gateway x y z h.0 k.0, OnlyOwn-trans xs ys zs h.1 k.1)

-- One request of `gateway` leaves the jobs as they are in `db`, and the trees of others alone.
pub record OnlyTree (gateway : String) (db after : Db) : Type 0 where
  pub jobs : after.jobs ≡ db.jobs
  pub devices : OnlyOwn device_owner gateway db.devices after.devices
  pub points : OnlyOwn point_owner gateway db.points after.points

pub OnlyTree-refl : (gateway : String) (db : Db) → OnlyTree gateway db db
OnlyTree-refl gateway db = record {
  jobs = refl;
  devices = OnlyOwn-refl device_owner gateway db.devices;
  points = OnlyOwn-refl point_owner gateway db.points;
}

pub OnlyTree-trans :
    (gateway : String) (a b c : Db)
    → OnlyTree gateway a b
    → OnlyTree gateway b c
    → OnlyTree gateway a c
OnlyTree-trans gateway a b c h k = record {
  jobs = k.jobs ∙ h.jobs;
  devices = OnlyOwn-trans device_owner gateway a.devices b.devices c.devices h.devices k.devices;
  points = OnlyOwn-trans point_owner gateway a.points b.points c.points h.points k.points;
}

pub OnlyTree-points :
    (gateway : String) (db : Db) (points : List SavedBacnetPoint)
    → SameOwners gateway db.points points
    → OnlyTree gateway db (record db { points = points })
OnlyTree-points gateway db points h = record {
  jobs = refl;
  devices = OnlyOwn-refl device_owner gateway db.devices;
  points = OnlyOwn-Pointwise point_owner gateway db.points points h;
}

pub save_discovery-OnlyTree :
    (gateway : String) (now : ℕ) (fresh : ℕ → String) (db : Db) (o : Option Items)
    → OnlyTree gateway db (save_discovery gateway now fresh db o)
unfolding save_discovery
save_discovery-OnlyTree gateway now fresh db none = OnlyTree-refl gateway db
save_discovery-OnlyTree gateway now fresh db (some items) = record {
  jobs = refl;
  devices = OnlyOwn-Isolated device_owner gateway db.devices _ (
      discover-Isolated gateway now fresh db.devices (members items) _
        (Isolated-refl device_owner gateway db.devices));
  points = OnlyOwn-refl point_owner gateway db.points;
}

-- Every device's points belong to the device's gateway.
abbrev pub AllPlaced : Db → Type 0
AllPlaced db = All (λ d. Placed d db.points) db.devices

pub load_device_points-OnlyTree :
    (gateway : String) (now : ℕ) (fresh : ℕ → String) (db : Db) (o : Option SavedBacnetDevice)
    (items : Option Items) (after : Db)
    → ((device : SavedBacnetDevice)
        → o ≡ some device
        → first_where (λ d. d.id == device.id) db.devices ≡ some device)
    → AllPlaced db
    → load_device_points gateway now fresh db o items ≡ ok after
    → OnlyTree gateway db after
unfolding load_device_points
load_device_points-OnlyTree gateway now fresh db none items after found placed h =
    subst (OnlyTree gateway db) (ok-injective h) (OnlyTree-refl gateway db)
load_device_points-OnlyTree gateway now fresh db (some device) none after found placed h =
    subst (OnlyTree gateway db) (ok-injective h) (OnlyTree-refl gateway db)
load_device_points-OnlyTree gateway now fresh db (some device) (some items) after found placed h =
    elim (Bool-cases (device.gateway_id == gateway)) [
      | inl e ↦
          let own : device.gateway_id ≡ gateway =
            ground (arith, eq_iff device.gateway_id gateway) in
          subst (λ g. OnlyTree g db after) own
            (loaded (subst (λ g. attempt g ≡ ok after) (sym own) (ground arith)))
      | inr e ↦ subst (OnlyTree gateway db) (ok-injective (ground arith)) (OnlyTree-refl gateway db)
    ]
  where
    rows : String → Session SavedBacnetPoint
    rows g =
        load_points g now fresh device (record { stored = db.points; added = [] }) (members items)

    attempt : String → Response Db
    attempt g =
        refuse_if (clashes (rows g).added) 500 "Internal Server Error"
        >> ok (record db {
          devices = change_first (λ d. d.id == device.id) (mark_device_seen now) db.devices;
          points = (rows g).stored ++ (rows g).added;
        })

    loaded : attempt device.gateway_id ≡ ok after → OnlyTree device.gateway_id db after
    loaded k =
        let (_, _, l) =
          >>=-eq-ok (refuse_if (clashes (rows device.gateway_id).added) 500 "Internal Server Error")
            _ k in
        let here =
          first_where-eq-some (λ d. d.id == device.id) db.devices device (found device refl) in
        let kept = load_points-Isolated now fresh device db.points (members items) _ (
          Isolated-refl point_owner device.gateway_id db.points,
          All-In (λ d. Placed d db.points) db.devices placed here.0,
        ) in
        subst (OnlyTree device.gateway_id db) (ok-injective l) (record {
          jobs = refl;
          devices = OnlyOwn-Pointwise device_owner device.gateway_id db.devices _ (
              change_first-found device_owner device.gateway_id (λ d. d.id == device.id)
                (mark_device_seen now) (λ d. unfold mark_device_seen in refl) db.devices device
                (found device refl) refl);
          points = OnlyOwn-Isolated point_owner device.gateway_id db.points _ kept.0;
        })
