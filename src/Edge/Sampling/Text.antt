-- ===== src/Edge/Sampling/Text.antt =====
-- `_safe_error` of edge-agent/iot_cx_agent/trends.py: one line of at most 1000 characters.
use Prim.Native.Char.{code}
use Prim.Native.String.{String}
use iot_cloud_commissioning.Prelude.{ℕ, zero, suc, Option, none, some, nat_beq, if◌then◌else◌}

-- `str.replace("\n", " ")`
unfoldable pub one_line : String → String
one_line String.[] = ""
one_line (String.◌∷◌ c s) =
    let rest = one_line s in
    if nat_beq (code c) b'\n' then String.◌∷◌ " " rest else String.◌∷◌ c rest

-- `s[:n]`
unfoldable pub first_chars : ℕ → String → String
first_chars zero s = ""
first_chars (suc n) String.[] = ""
first_chars (suc n) (String.◌∷◌ c s) = String.◌∷◌ c (first_chars n s)

unfoldable pub safe_error : Option String → String
unfolding one_line first_chars
safe_error none = ""
safe_error (some error) = first_chars 1000 (one_line error)
