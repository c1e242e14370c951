-- ===== src/Cloud/Http.antt =====
-- How a route handler of cloud-api/app/main.py ends: with a value, or by `HTTPException`, of
-- which the status code and the fixed part of the detail are kept.
use iot_cloud_commissioning.Prelude.{
  ℕ, Bool, true, false, Option, none, some, String, ◌≡◌, refl, arith,
}

pub data Response {ℓ} (A : Type ℓ) : Type ℓ where
  ok : A → Response A
  http_error : ℕ → String → Response A

-- `if test: raise HTTPException(code, detail)`
abbrev pub refuse_if : Bool → ℕ → String → Response (Unit {0})
refuse_if true code detail = http_error code detail
refuse_if false code detail = ok tt

abbrev pub or_refuse {ℓ} : {A : Type ℓ} → Option A → ℕ → String → Response A
or_refuse none code detail = http_error code detail
or_refuse (some a) code detail = ok a

-- The handler goes on with the value, unless it has raised.
infixl 5 ◌>>=◌ ◌>>◌
abbrev pub ◌>>=◌ {ℓ κ} : {A : Type ℓ} {B : Type κ} → Response A → (A → Response B) → Response B
http_error code detail >>= go_on = http_error code detail
ok value >>= go_on = go_on value

abbrev pub ◌>>◌ {ℓ} : {B : Type ℓ} → Response (Unit {0}) → Response B → Response B
check >> go_on = check >>= λ _. go_on

-- A chain that ends well has a first step that did.
pub >>=-eq-ok {ℓ κ} :
    {A : Type ℓ} {B : Type κ} {result : B} (first : Response A) (go_on : A → Response B)
    → (first >>= go_on) ≡ ok result
    → (value : A) × (first ≡ ok value) × (go_on value ≡ ok result)
>>=-eq-ok (http_error code detail) go_on ended = cc
>>=-eq-ok (ok value) go_on ended = (value, refl, ended)

pub refuse_if-eq-ok :
    (b : Bool) (code : ℕ) (detail : String) {u : Unit {0}}
    → refuse_if b code detail ≡ ok u
    → b ≡ false
refuse_if-eq-ok true code detail h = cc
refuse_if-eq-ok false code detail h = refl

pub or_refuse-eq-ok {ℓ} :
    {A : Type ℓ} (o : Option A) (code : ℕ) (detail : String) {a : A}
    → or_refuse o code detail ≡ ok a
    → o ≡ some a
or_refuse-eq-ok none code detail h = cc
or_refuse-eq-ok (some x) code detail h = ground arith

pub ok-injective {ℓ} : {A : Type ℓ} {a b : A} → ok a ≡ ok b → a ≡ b
ok-injective h = ground arith
