-- ===== src/Cloud/Retirement/Workload.antt =====
-- A retired point is never part of what a gateway is told to sample.
use iot_cloud_commissioning.Prelude.{
  ℕ, ◌≡◌, refl, sym, ap, ◌∙◌, Bool, true, false, not, ◌&&◌, ◌||◌, Option, List, [], ◌∷◌, map,
  String, if◌then◌else◌, keep, ◌==◌, string_eq, eq_iff, eq_self, Bool-cases, inl, inr,
}
use iot_cloud_commissioning.Cloud.Http.{Response, ok, ◌>>◌, >>=-eq-ok, ok-injective}
use iot_cloud_commissioning.Cloud.Db.{SavedBacnetPoint}
use iot_cloud_commissioning.Cloud.Access.{is_in}
use iot_cloud_commissioning.Cloud.Retirement.{
  PointTrendConfig, TrendTables, Removal, normal_ids, disabled, disable_trend_configs_for_points,
  retired, retire_points, check_each, ids_of, remove_found, ui_bulk_remove_points, is_sampled,
  is_listed, edge_list_trend_configs,
}

true-ne-false : true ≡ false → ⊥
true-ne-false h = cc h

and_false : (b : Bool) → (b && false) ≡ false
and_false true = refl
and_false false = refl

and_true : (b : Bool) → (b && true) ≡ b
and_true true = refl
and_true false = refl

-- A point that is looked for is enabled after the retirement when it was, and is not retired.
is_sampled-retire_points :
    (ids : List String) (now : ℕ) (points : List SavedBacnetPoint) (id : String)
    → is_sampled (retire_points ids now points) id ≡ (is_sampled points id && not (is_in id ids))
unfolding retire_points
is_sampled-retire_points ids now [] id = refl
is_sampled-retire_points ids now (p ∷ ps) id =
    ap (λ b. b || is_sampled (retire_points ids now ps) id)
      (changed (is_in p.id ids && p.enabled) ∙ matched (p.id == id) refl)
    ∙ ap (λ b. ((p.id == id && p.enabled) && not (is_in id ids)) || b)
        (is_sampled-retire_points ids now ps id)
    ∙ spread (p.id == id && p.enabled) (is_sampled ps id) (is_in id ids)
  where
    spread : (a b n : Bool) → ((a && not n) || (b && not n)) ≡ ((a || b) && not n)
    spread true true true = refl
    spread true false true = refl
    spread true b false = refl
    spread false b n = refl

    changed :
        (b : Bool)
        → ((if b then retired now p else p).id == id && (if b then retired now p else p).enabled)
          ≡ (p.id == id && (not b && p.enabled))
    changed true = refl
    changed false = refl

    cases : (n en : Bool) → (not (n && en) && en) ≡ (en && not n)
    cases true true = refl
    cases true false = refl
    cases false true = refl
    cases false false = refl

    matched :
        (same : Bool)
        → (p.id == id) ≡ same
        → (same && (not (is_in p.id ids && p.enabled) && p.enabled))
          ≡ ((same && p.enabled) && not (is_in id ids))
    matched false e = refl
    matched true e =
        cases (is_in p.id ids) p.enabled
        ∙ ap (λ i. p.enabled && not (is_in i ids)) ((eq_iff p.id id).0 e)

-- An id of a point that was found is one that was asked for.
found_ids :
    (ids : List String) (points : List SavedBacnetPoint) (id : String)
    → is_in id ids ≡ false
    → is_in id (ids_of (keep (λ p. is_in p.id ids) points)) ≡ false
found_ids ids [] id h = refl
found_ids ids (p ∷ ps) id h = by_test (is_in p.id ids) refl (found_ids ids ps id h)
  where
    apart : is_in p.id ids ≡ true → (p.id == id) ≡ false
    apart t = elim (Bool-cases (p.id == id)) [
      | inl e ↦ absurd (true-ne-false (sym t ∙ ap (λ i. is_in i ids) ((eq_iff p.id id).0 e) ∙ h))
      | inr e ↦ e
    ]

    by_test :
        (b : Bool)
        → is_in p.id ids ≡ b
        → is_in id (ids_of (keep (λ p. is_in p.id ids) ps)) ≡ false
        → is_in id (
            ids_of (if b then p ∷ keep (λ p. is_in p.id ids) ps else keep (λ p. is_in p.id ids) ps))
          ≡ false
    by_test true t rest = cc (apart t, rest)
    by_test false t rest = rest

-- The workload after the removal is the one before without the points that were asked for.
workload :
    (ids found : List String) (now : ℕ) (points : List SavedBacnetPoint) (gateway : String)
    (configs : List PointTrendConfig)
    → ((id : String) → is_in id ids ≡ false → is_in id found ≡ false)
    → keep
        (is_listed (retire_points ids now points) gateway)
        (disable_trend_configs_for_points found now configs)
      ≡ keep (λ c. not (is_in c.point_id ids)) (keep (is_listed points gateway) configs)
unfolding disable_trend_configs_for_points
workload ids found now points gateway [] part = refl
workload ids found now points gateway (c ∷ cs) part =
    by_asked (is_in c.point_id ids) refl (workload ids found now points gateway cs part)
  where
    after : List SavedBacnetPoint
    after = retire_points ids now points

    step : Bool → PointTrendConfig
    step b = if b then disabled now c else c

    rest : List PointTrendConfig
    rest = keep (is_listed after gateway) (disable_trend_configs_for_points found now cs)

    before : List PointTrendConfig
    before = keep (is_listed points gateway) cs

    unlisted :
        is_sampled after c.point_id ≡ false → (b : Bool) → is_listed after gateway (step b) ≡ false
    unlisted h true = cc (h, and_false (c.gateway_id == gateway && false))
    unlisted h false = cc (h, and_false (c.gateway_id == gateway && c.enabled))

    dropped :
        (listed : Bool)
        → is_in c.point_id ids ≡ true
        → keep (λ c. not (is_in c.point_id ids)) before
          ≡ keep (λ c. not (is_in c.point_id ids)) (if listed then c ∷ before else before)
    dropped true asked = rw asked refl
    dropped false asked = refl

    kept :
        (listed : Bool)
        → is_in c.point_id ids ≡ false
        → rest ≡ keep (λ c. not (is_in c.point_id ids)) before
        → (if listed then c ∷ rest else rest)
          ≡ keep (λ c. not (is_in c.point_id ids)) (if listed then c ∷ before else before)
    kept true other ih = rw other (ap (◌∷◌ c) ih)
    kept false other ih = ih

    by_asked :
        (asked : Bool)
        → is_in c.point_id ids ≡ asked
        → rest ≡ keep (λ c. not (is_in c.point_id ids)) before
        → keep (is_listed after gateway) (disable_trend_configs_for_points found now (c ∷ cs))
          ≡ keep (λ c. not (is_in c.point_id ids)) (keep (is_listed points gateway) (c ∷ cs))
    by_asked true e ih =
        let gone : is_sampled after c.point_id ≡ false =
          is_sampled-retire_points ids now points c.point_id
          ∙ ap (λ n. is_sampled points c.point_id && not n) e
          ∙ and_false (is_sampled points c.point_id) in
        ap (λ b. if b then step (is_in c.point_id found && c.enabled) ∷ rest else rest)
          (unlisted gone (is_in c.point_id found && c.enabled))
        ∙ ih
        ∙ dropped (is_listed points gateway c) e
    by_asked false e ih =
        let same : step (is_in c.point_id found && c.enabled) ≡ c =
          ap (λ b. step (b && c.enabled)) (part c.point_id e) in
        let listed : is_listed after gateway c ≡ is_listed points gateway c =
          ap (λ b. (c.gateway_id == gateway && c.enabled) && b)
            (is_sampled-retire_points ids now points c.point_id
              ∙ ap (λ n. is_sampled points c.point_id && not n) e
              ∙ and_true (is_sampled points c.point_id)) in
        ap (λ d. if is_listed after gateway d then d ∷ rest else rest) same
        ∙ ap (λ b. if b then c ∷ rest else rest) listed
        ∙ kept (is_listed points gateway c) e ih

-- After points were removed, the list of what a gateway is told to sample is the list from before
-- without the points that were asked for, in the same order, for each gateway and whatever its
-- rows of configuration are: a retired point is never sampled and no other point is lost.
pub edge_list_trend_configs-removed :
    (tree_id : String → Option String) (access : String → Response (Unit {0}))
    (point_ids : List String) (now : ℕ) (gateway : String) (t : TrendTables) (r : Removal)
    (requested : List (String × String))
    → normal_ids tree_id point_ids ≡ ok requested
    → ui_bulk_remove_points tree_id access point_ids now t ≡ ok r
    → (before : List PointTrendConfig) × (edge_list_trend_configs gateway gateway t ≡ ok before)
      × (edge_list_trend_configs gateway gateway r.tables
          ≡ ok (
              keep
                (λ c. not (is_in c.point_id (map (λ (q : String × String). q.1) requested)))
                before))
unfolding ui_bulk_remove_points remove_found edge_list_trend_configs
edge_list_trend_configs-removed tree_id access point_ids now gateway t r requested normal e = (
  keep (is_listed t.points gateway) t.configs,
  rw (eq_self gateway) refl,
  rw (eq_self gateway) (
      ap (λ (q : Removal). ok (keep (is_listed q.tables.points gateway) q.tables.configs))
        (sym removed)
      ∙ ap ok (
          workload ids (ids_of (keep (λ p. is_in p.id ids) t.points)) now t.points gateway t.configs
            (found_ids ids t.points))),
)
  where
    ids : List String
    ids = map (λ (q : String × String). q.1) requested

    removed : remove_found requested now t ≡ r
    removed =
        let (ids', normal', e1) =
          >>=-eq-ok (normal_ids tree_id point_ids)
            (λ q.
              check_each access
                (keep (λ p. is_in p.id (map (λ (o : String × String). o.1) q)) t.points)
              >> ok (remove_found q now t))
            e in
        let (_, allowed, e2) =
          >>=-eq-ok
            (check_each access
              (keep (λ p. is_in p.id (map (λ (o : String × String). o.1) ids')) t.points))
            (λ _. ok (remove_found ids' now t)) e1 in
        ap (λ q. remove_found q now t) (ok-injective (sym normal ∙ normal')) ∙ ok-injective e2
