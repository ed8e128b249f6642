-- ===== src/Bench/Json.antt =====
-- What `json.load` returns in a summary file, with Python's `int`, `float` and `or` on it.
use bowerbird.Base.{
  ℕ, String, str_eq, Bool, true, false, not, Option, none, some, List, [], ◌∷◌, if◌then◌else◌,
  Result, ok, err, type_error, key_error,
}
use bowerbird.Base.Int.{ℤ, pos, eq_ℤ}

-- The operations of Python's `float` that the gates use, and the conversions from texts.
pub record Floats : Type 1 where
  pub Real : Type 0
  -- The literal n / 100.
  pub hundredths : ℕ → Real
  -- `bool(x)`, `x == n`, and `x < n`
  pub truthy : Real → Bool
  pub equals : Real → ℤ → Bool
  pub less : Real → ℤ → Bool
  -- `int(x)`, which raises on an infinity and on a NaN; `int(text)`; `float(n)`; `float(text)`
  pub truncate : Real → Result ℤ
  pub int_of_text : String → Result ℤ
  pub of_int : ℤ → Result Real
  pub of_text : String → Result Real
  -- `n * x`, `n / m` and `x / m`
  pub times : ℤ → Real → Result Real
  pub divide : ℤ → ℤ → Result Real
  pub scale : Real → ℤ → Real
  -- `(x - 1.0) * 100.0` and `(x - 1) * 100`
  pub percent : Real → Real

-- A nested list or `dict` counts only as empty or not.
pub data Json (R : Type 0) : Type 0 where
  null : Json R
  boolean : Bool → Json R
  int : ℤ → Json R
  real : R → Json R
  text : String → Json R
  container : Bool → Json R

abbrev pub Dict : Type 0 → Type 0
Dict R = List (String × Json R)

-- A path given to the gate: absent, not to be opened or decoded, another value, or a `dict`.
pub data Source (R : Type 0) : Type 0 where
  absent : Source R
  undecodable : Source R
  other_value : Source R
  object : Dict R → Source R

module _ {R : Type 0} where
  -- `data.get(key)`, where a JSON null is a value.
  unfoldable pub get : String → Dict R → Option (Json R)
  get key [] = none
  get key ((j, v) ∷ d) = if str_eq j key then some v else get key d

  abbrev pub or_default : Option (Json R) → Json R → Json R
  or_default none v = v
  or_default (some v) _ = v

  -- `data.get(key, default)`
  abbrev pub get_or : String → Json R → Dict R → Json R
  get_or key default d = or_default (get key d) default

  abbrev pub required : Option (Json R) → Result (Json R)
  required none = err key_error
  required (some v) = ok v

  -- `data[key]`
  abbrev pub item : String → Dict R → Result (Json R)
  item key d = required (get key d)

module _ (F : Floats) where
  open F use {Real, truthy, equals, truncate, int_of_text, of_int, of_text}

  unfoldable pub is_truthy : Json Real → Bool
  is_truthy null = false
  is_truthy (boolean b) = b
  is_truthy (int n) = not (eq_ℤ n (pos 0))
  is_truthy (real x) = truthy x
  is_truthy (text String.[]) = false
  is_truthy (text (String.◌∷◌ _ _)) = true
  is_truthy (container full) = full

  -- `value or default`
  abbrev pub or_else : Json Real → Json Real → Json Real
  or_else value default = if is_truthy value then value else default

  -- `value == 1`
  unfoldable pub is_one : Json Real → Bool
  is_one (boolean b) = b
  is_one (int n) = eq_ℤ n (pos 1)
  is_one (real x) = equals x (pos 1)
  is_one _ = false

  -- `int(value)`
  unfoldable pub to_int : Json Real → Result ℤ
  to_int null = err type_error
  to_int (boolean b) = ok (pos (if b then 1 else 0))
  to_int (int n) = ok n
  to_int (real x) = truncate x
  to_int (text s) = int_of_text s
  to_int (container _) = err type_error

  -- `float(value)`
  unfoldable pub to_float : Json Real → Result Real
  to_float null = err type_error
  to_float (boolean b) = of_int (pos (if b then 1 else 0))
  to_float (int n) = of_int n
  to_float (real x) = ok x
  to_float (text s) = of_text s
  to_float (container _) = err type_error
