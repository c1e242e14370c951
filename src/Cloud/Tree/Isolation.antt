-- ===== src/Cloud/Tree/Isolation.antt =====
-- A discovery or a load of points for one gateway leaves every other gateway's tree alone.
use iot_cloud_commissioning.Prelude.{
  ℕ, ◌≡◌, refl, sym, ◌∙◌, Pointwise, Bool, true, Option, none, some, List, [], ◌∷◌, String, arith,
  string_eq, eq_iff, All, Bool-cases, inl, inr,
}
use iot_cloud_commissioning.Json.{ℤ, Value, Fields}
use iot_cloud_commissioning.Cloud.Db.{SavedBacnetDevice, SavedBacnetPoint, Session, change_first}
use iot_cloud_commissioning.Cloud.Db.Owned.{
  Foreign, Foreign-own, Foreign-refl, Pointwise-Foreign-refl, Pointwise-Foreign-trans, Isolated,
  Isolated-change, Isolated-add,
}
use iot_cloud_commissioning.Cloud.Tree.{
  is_device, save_found, discover_item, point_found, load_item, new_device, seen_again, save_device,
  discover, is_point, new_point, loaded_again, save_point, load_points,
}

abbrev pub device_owner : SavedBacnetDevice → String
device_owner d = d.gateway_id

abbrev pub point_owner : SavedBacnetPoint → String
point_owner p = p.gateway_id

module _ (gateway : String) (now : ℕ) (fresh : ℕ → String) (before : List SavedBacnetDevice) where
  save_found-Isolated :
      (s : Session SavedBacnetDevice) (item : Fields) (n : ℤ) (o : Option SavedBacnetDevice)
      → Isolated device_owner gateway before s
      → Isolated device_owner gateway before (save_found gateway now fresh s item n o)
  unfolding save_found
  save_found-Isolated s item n none h =
      Isolated-add device_owner gateway before s _ (unfold new_device in refl) h
  save_found-Isolated s item n (some _) h =
      Isolated-change device_owner gateway before s (is_device gateway n) (seen_again now item) own
        h
    where
      own :
          (d : SavedBacnetDevice)
          → is_device gateway n d ≡ true
          → Foreign device_owner gateway d (seen_again now item d)
      own d e =
          Foreign-own device_owner gateway d (seen_again now item d) (unfold seen_again in refl)
            (ground (arith, eq_iff d.gateway_id gateway))

  save_device-Isolated :
      (s : Session SavedBacnetDevice) (item : Fields) (n : Option ℤ)
      → Isolated device_owner gateway before s
      → Isolated device_owner gateway before (save_device gateway now fresh s item n)
  unfolding save_device
  save_device-Isolated s item none h = h
  save_device-Isolated s item (some n) h = save_found-Isolated s item n _ h

  discover_item-Isolated :
      (s : Session SavedBacnetDevice) (o : Option Fields)
      → Isolated device_owner gateway before s
      → Isolated device_owner gateway before (discover_item gateway now fresh s o)
  unfolding discover_item
  discover_item-Isolated s none h = h
  discover_item-Isolated s (some item) h = save_device-Isolated s item _ h

  pub discover-Isolated :
      (items : List Value) (s : Session SavedBacnetDevice)
      → Isolated device_owner gateway before s
      → Isolated device_owner gateway before (discover gateway now fresh s items)
  unfolding discover
  discover-Isolated [] s h = h
  discover-Isolated (v ∷ vs) s h = discover-Isolated vs _ (discover_item-Isolated s _ h)

-- The points of a device belong to the device's gateway.
abbrev pub Placed : SavedBacnetDevice → List SavedBacnetPoint → Type 0
Placed device = All (λ p. p.saved_device_id ≡ device.id → p.gateway_id ≡ device.gateway_id)

-- An entry change that only reaches placed points of the device.
change_device_rows-Foreign :
    (device : SavedBacnetDevice) (p : SavedBacnetPoint → Bool)
    (f : SavedBacnetPoint → SavedBacnetPoint)
    → ((a : SavedBacnetPoint) → p a ≡ true → a.saved_device_id ≡ device.id)
    → ((a : SavedBacnetPoint)
        → ((f a).gateway_id ≡ a.gateway_id) × ((f a).saved_device_id ≡ a.saved_device_id))
    → (xs : List SavedBacnetPoint) → Placed device xs
    → Pointwise (Foreign point_owner device.gateway_id) xs (change_first p f xs)
      × Placed device (change_first p f xs)
change_device_rows-Foreign device p f h k [] l = (tt, tt)
change_device_rows-Foreign device p f h k (x ∷ xs) l = elim (Bool-cases (p x)) [
  | inl e ↦ rw e (
    (
      Foreign-own point_owner device.gateway_id x (f x) (k x).0 (l.0 (h x e)),
      Pointwise-Foreign-refl point_owner device.gateway_id xs,
    ),
    ((λ m. (k x).0 ∙ l.0 (sym (k x).1 ∙ m)), l.1),
  )
  | inr e ↦
      let (a, b) = change_device_rows-Foreign device p f h k xs l.1 in
      rw e ((Foreign-refl point_owner device.gateway_id x, a), (l.0, b))
]

module _ (now : ℕ) (fresh : ℕ → String) (device : SavedBacnetDevice)
    (before : List SavedBacnetPoint) where
  -- Isolated, and the device's points are still placed.
  abbrev pub IsolatedPlaced : Session SavedBacnetPoint → Type 0
  IsolatedPlaced s = Isolated point_owner device.gateway_id before s × Placed device s.stored

  point_found-Isolated :
      (s : Session SavedBacnetPoint) (item : Fields) (kind : String) (n : ℤ)
      (o : Option SavedBacnetPoint)
      → IsolatedPlaced s
      → IsolatedPlaced (point_found device.gateway_id now fresh device s item kind n o)
  unfolding point_found
  point_found-Isolated s item kind n none (h, l) =
      (Isolated-add point_owner device.gateway_id before s _ (unfold new_point in refl) h, l)
  point_found-Isolated s item kind n (some _) (h, l) =
      let (a, b) =
        change_device_rows-Foreign device (is_point device.id kind n) (loaded_again now item)
          (λ p e. ground (arith, eq_iff p.saved_device_id device.id))
          (λ p. unfold loaded_again in (refl, refl)) s.stored l in
      (
        record {
          kept = Pointwise-Foreign-trans point_owner device.gateway_id before s.stored _ h.kept a;
          own = h.own;
        },
        b,
      )

  save_point-Isolated :
      (s : Session SavedBacnetPoint) (item : Fields) (kind : Option String) (n : Option ℤ)
      → IsolatedPlaced s
      → IsolatedPlaced (save_point device.gateway_id now fresh device s item kind n)
  unfolding save_point
  save_point-Isolated s item none n h = h
  save_point-Isolated s item (some kind) none h = h
  save_point-Isolated s item (some kind) (some n) h = point_found-Isolated s item kind n _ h

  load_item-Isolated :
      (s : Session SavedBacnetPoint) (o : Option Fields)
      → IsolatedPlaced s
      → IsolatedPlaced (load_item device.gateway_id now fresh device s o)
  unfolding load_item
  load_item-Isolated s none h = h
  load_item-Isolated s (some item) h = save_point-Isolated s item _ _ h

  pub load_points-Isolated :
      (items : List Value) (s : Session SavedBacnetPoint)
      → IsolatedPlaced s
      → IsolatedPlaced (load_points device.gateway_id now fresh device s items)
  unfolding load_points
  load_points-Isolated [] s h = h
  load_points-Isolated (v ∷ vs) s h = load_points-Isolated vs _ (load_item-Isolated s _ h)
