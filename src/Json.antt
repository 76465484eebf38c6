-- ===== src/Json.antt =====
-- The values that `json.loads` returns, and the tests that the program makes on them.
use scgrep.Prelude.{
  zero, ℤ, pos, Bool, true, false, not, Option, none, some, List, [], ◌∷◌, if◌then◌else◌, is_empty,
}
use scgrep.Text.{Text, text_eq}

-- A float is kept as what the program reads from it: `int(x)` rounds towards zero, and `not x` asks
-- whether it is zero. `Infinity` and `NaN` are accepted by `json.loads`.
mutual
  pub data Json : Type 0 where
    null infinity not_a_number : Json
    bool : Bool → Json
    int : ℤ → Json
    float : (truncated : ℤ) → (is_zero : Bool) → Json
    str : Text → Json
    arr : Items → Json
    obj : Fields → Json

  pub data Items : Type 0 where
    nil : Items
    cons : Json → Items → Items

  pub data Fields : Type 0 where
    end : Fields
    field : Text → Json → Fields → Fields

later : Option Json → Option Json → Option Json
later none here = here
later (some w) here = some w

-- d.get(key); a repeated key has its last value, as in the dict that `json.loads` builds.
pub get_field : Text → Fields → Option Json
unfolding later
get_field key end = none
get_field key (field k v rest) = later (get_field key rest) (if text_eq k key then some v else none)

-- d.get(key) with its default None
unfoldable pub get_or_null : Text → Fields → Json
unfolding get_field
get_or_null key fields = elim (get_field key fields) [ none ↦ null | some v ↦ v ]

-- bool(v)
unfoldable pub truthy : Json → Bool
truthy null = false
truthy infinity = true
truthy not_a_number = true
truthy (bool b) = b
truthy (int (pos zero)) = false
truthy (int _) = true
truthy (float t is_zero) = not is_zero
truthy (str s) = not (is_empty s)
truthy (arr nil) = false
truthy (arr (cons v vs)) = true
truthy (obj end) = false
truthy (obj (field k v fs)) = true

-- v is None
abbrev pub is_null : Json → Bool
is_null null = true
is_null _ = false

abbrev pub items : Items → List Json
items nil = []
items (cons v vs) = v ∷ items vs
