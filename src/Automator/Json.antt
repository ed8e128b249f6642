-- ===== src/Automator/Json.antt =====
-- What `json.loads` returns: the values of Config.Value over JSON's scalars, with Python's
-- comparisons and truth tests on them. `R` is the type of a `float`.
use bowerbird.Base.{
  String, str_eq, Bool, true, false, not, if◌then◌else◌, ◌≡◌, Option, none, some, arith,
}
use bowerbird.Base.Int.{ℤ, pos, negsuc, eq_ℤ}
use bowerbird.Config.Value.{Value, scalar, array, nil, cons, table, Fields, end, field, get, put}

pub data Scalar (R : Type 0) : Type 0 where
  null : Scalar R
  boolean : Bool → Scalar R
  int : ℤ → Scalar R
  real : R → Scalar R
  text : String → Scalar R

abbrev pub Json : Type 0 → Type 0
Json R = Value (Scalar R)

abbrev pub Object : Type 0 → Type 0
Object R = Fields (Scalar R)

module _ {R : Type 0} where
  -- `d.get(key) == s`, for a text
  abbrev pub is_text : String → Option (Json R) → Bool
  is_text s (some (scalar (text t))) = str_eq t s
  is_text s _ = false

  -- `isinstance(value, dict)`
  abbrev pub is_dict : Json R → Bool
  is_dict (table fs) = true
  is_dict _ = false

pub eq_ℤ-self : (n : ℤ) → eq_ℤ n n ≡ true
eq_ℤ-self (pos n) = ground arith
eq_ℤ-self (negsuc n) = ground arith

-- Writing back what a key holds changes nothing.
pub put_same :
    {S : Type 0} (key : String) (v : Value S) (fs : Fields S)
    → get key fs ≡ some v
    → put key v fs ≡ fs
unfolding get put
put_same key v end h = cc
put_same key v (field j w fs) h = ground (arith, put_same key v fs)

-- `truthy` is `bool(x)` of a float, and `shown_as` is `str(value)`.
module _ {R : Type 0} (truthy : R → Bool) (shown_as : Json R → String) where
  -- `bool(value)`, where `none` is None.
  unfoldable pub is_truthy : Option (Json R) → Bool
  is_truthy none = false
  is_truthy (some (scalar null)) = false
  is_truthy (some (scalar (boolean b))) = b
  is_truthy (some (scalar (int n))) = not (eq_ℤ n (pos 0))
  is_truthy (some (scalar (real x))) = truthy x
  is_truthy (some (scalar (text String.[]))) = false
  is_truthy (some (scalar (text (String.◌∷◌ c s)))) = true
  is_truthy (some (array nil)) = false
  is_truthy (some (array (cons v vs))) = true
  is_truthy (some (table end)) = false
  is_truthy (some (table (field key v fs))) = true

  -- `str(value or "")`
  unfoldable pub text_or_empty : Option (Json R) → String
  text_or_empty none = ""
  text_or_empty (some (scalar null)) = ""
  text_or_empty (some (scalar (boolean b))) = if b then "True" else ""
  text_or_empty (some (scalar (int n))) = if eq_ℤ n (pos 0) then "" else shown_as (scalar (int n))
  text_or_empty (some (scalar (real x))) = if truthy x then shown_as (scalar (real x)) else ""
  text_or_empty (some (scalar (text s))) = s
  text_or_empty (some (array nil)) = ""
  text_or_empty (some (array (cons v vs))) = shown_as (array (cons v vs))
  text_or_empty (some (table end)) = ""
  text_or_empty (some (table (field key v fs))) = shown_as (table (field key v fs))
