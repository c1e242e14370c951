-- ===== src/Json.antt =====
-- JSON values as Python's `json` and FastAPI hand them over: `dict[str, object]` payloads.
-- A floating-point number is kept as its text; nothing in the code computes with it.
use iot_cloud_commissioning.Prelude.{
  ℕ, ◌≡◌, ◌↔◌, Bool, true, false, Option, none, some, List, [], ◌∷◌, String, arith, Eq, ◌==◌,
  nat_beq, if◌then◌else◌, string_eq,
}

-- `negsuc n` is -(n + 1).
pub data ℤ : Type 0 where
  pos : ℕ → ℤ
  negsuc : ℕ → ℤ

abbrev pub int_beq : ℤ → ℤ → Bool
int_beq (pos a) (pos b) = nat_beq a b
int_beq (negsuc a) (negsuc b) = nat_beq a b
int_beq _ _ = false

pub int_beq_iff : (a b : ℤ) → (int_beq a b ≡ true) ↔ (a ≡ b)
int_beq_iff (pos a) (pos b) = ground arith
int_beq_iff (negsuc a) (negsuc b) = ground arith
int_beq_iff (pos a) (negsuc b) = ground arith
int_beq_iff (negsuc a) (pos b) = ground arith

instance abbrev pub int_eq : Eq ℤ
int_eq = record { eqb = int_beq; eqb_iff = int_beq_iff }

mutual
  pub data Value : Type 0 where
    null : Value
    bool : Bool → Value
    int : ℤ → Value
    float : String → Value
    text : String → Value
    list : Items → Value
    dict : Fields → Value

  pub data Items : Type 0 where
    nil : Items
    cons : Value → Items → Items

  pub data Fields : Type 0 where
    end : Fields
    field : String → Value → Fields → Fields

-- The members of a JSON array.
unfoldable pub members : Items → List Value
members nil = []
members (cons v vs) = v ∷ members vs

-- `payload.get(name)`: `none` for a missing key.
unfoldable pub get_field : Fields → String → Option Value
get_field end name = none
get_field (field k v fs) name = if k == name then some v else get_field fs name

-- `isinstance(value, dict)` and the like, with the value on success.
abbrev pub as_dict : Option Value → Option Fields
as_dict (some (dict fs)) = some fs
as_dict _ = none

abbrev pub as_list : Option Value → Option Items
as_list (some (list vs)) = some vs
as_list _ = none

abbrev pub as_text : Option Value → Option String
as_text (some (text s)) = some s
as_text _ = none

-- `isinstance(value, int) and not isinstance(value, bool)`.
abbrev pub as_int : Option Value → Option ℤ
as_int (some (int n)) = some n
as_int _ = none

-- `value is True`.
abbrev pub is_true : Option Value → Bool
is_true (some (bool b)) = b
is_true _ = false
