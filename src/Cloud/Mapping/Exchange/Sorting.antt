-- ===== src/Cloud/Mapping/Exchange/Sorting.antt =====
-- The rules of a mapping template in the order of their roles.
use iot_cloud_commissioning.Prelude.{
  ◌≡◌, refl, ap, ◌∙◌, Bool, true, false, ◌||◌, List, [], ◌∷◌, String, arith, if◌then◌else◌, any,
  All, ◌==◌, string_eq, eq_iff,
}
use iot_cloud_commissioning.Cloud.Writes.{has_repeats}
use iot_cloud_commissioning.Cloud.Mapping.{MappingTemplateRule}
use iot_cloud_commissioning.Cloud.Mapping.Exchange.{roles_of, text_leb, insert, sort}

eq_sym : (a b : String) → (a == b) ≡ (b == a)
eq_sym a b = ground (arith, eq_iff a b, eq_iff b a)

-- What the order of the rules does not change.
All-insert :
    (P : MappingTemplateRule → Type 0) (r : MappingTemplateRule) (xs : List MappingTemplateRule)
    → P r
    → All P xs
    → All P (insert r xs)
unfolding insert
All-insert P r [] h hs = (h, tt)
All-insert P r (x ∷ xs) h hs =
    by_order (text_leb r.logical_role x.logical_role) (All-insert P r xs h hs.1)
  where
    by_order : (b : Bool) → All P (insert r xs) → All P (if b then r ∷ x ∷ xs else x ∷ insert r xs)
    by_order true rest = (h, hs)
    by_order false rest = (hs.0, rest)

pub All-sort :
    (P : MappingTemplateRule → Type 0) (rs : List MappingTemplateRule) → All P rs → All P (sort rs)
unfolding sort
All-sort P [] hs = tt
All-sort P (r ∷ rs) hs = All-insert P r (sort rs) hs.0 (All-sort P rs hs.1)

any-insert :
    (s : String) (r : MappingTemplateRule) (xs : List MappingTemplateRule)
    → any (λ t. t == s) (roles_of (insert r xs))
      ≡ (r.logical_role == s || any (λ t. t == s) (roles_of xs))
unfolding insert
any-insert s r [] = refl
any-insert s r (x ∷ xs) = ground (arith, any-insert s r xs)

has_repeats-insert :
    (r : MappingTemplateRule) (xs : List MappingTemplateRule)
    → has_repeats (roles_of (insert r xs))
      ≡ (any (λ t. t == r.logical_role) (roles_of xs) || has_repeats (roles_of xs))
unfolding insert has_repeats
has_repeats-insert r [] = refl
has_repeats-insert r (x ∷ xs) =
    by_order (text_leb r.logical_role x.logical_role) (any-insert x.logical_role r xs)
      (has_repeats-insert r xs)
  where
    here : Bool
    here = any (λ t. t == x.logical_role) (roles_of xs)

    there : Bool
    there = any (λ t. t == r.logical_role) (roles_of xs)

    again : Bool
    again = has_repeats (roles_of xs)

    exchange : (b c d e : Bool) → ((b || c) || (d || e)) ≡ ((b || d) || (c || e))
    exchange true c d e = refl
    exchange false true true e = refl
    exchange false true false e = refl
    exchange false false d e = refl

    by_order :
        (b : Bool)
        → any (λ t. t == x.logical_role) (roles_of (insert r xs))
          ≡ (r.logical_role == x.logical_role || here)
        → has_repeats (roles_of (insert r xs)) ≡ (there || again)
        → has_repeats (roles_of (if b then r ∷ x ∷ xs else x ∷ insert r xs))
          ≡ ((x.logical_role == r.logical_role || there) || (here || again))
    by_order true e ih = refl
    by_order false e ih =
        ap (λ b. b || has_repeats (roles_of (insert r xs))) e
        ∙ ap (λ b. (r.logical_role == x.logical_role || here) || b) ih
        ∙ ap (λ b. (b || here) || (there || again)) (eq_sym r.logical_role x.logical_role)
        ∙ exchange (x.logical_role == r.logical_role) here there again

any-sort :
    (s : String) (rs : List MappingTemplateRule)
    → any (λ t. t == s) (roles_of (sort rs)) ≡ any (λ t. t == s) (roles_of rs)
unfolding sort
any-sort s [] = refl
any-sort s (r ∷ rs) = any-insert s r (sort rs) ∙ ap (λ b. r.logical_role == s || b) (any-sort s rs)

pub has_repeats-sort :
    (rs : List MappingTemplateRule) → has_repeats (roles_of (sort rs)) ≡ has_repeats (roles_of rs)
unfolding sort has_repeats
has_repeats-sort [] = refl
has_repeats-sort (r ∷ rs) =
    has_repeats-insert r (sort rs)
    ∙ ap (λ b. any (λ t. t == r.logical_role) (roles_of (sort rs)) || b) (has_repeats-sort rs)
    ∙ ap (λ b. b || has_repeats (roles_of rs)) (any-sort r.logical_role rs)
