-- ===== src/Config/Value.antt =====
-- What `tomllib` returns, and Python's `dict` operations on its tables.
use bowerbird.Base.{
  String, str_eq, ◌≡◌, refl, Option, none, some, List, [], ◌∷◌, arith, if◌then◌else◌, eq_iff,
}

-- A scalar is a string, a number, a Boolean or a date; their type is the parameter `S`.
mutual
  pub data Value (S : Type 0) : Type 0 where
    scalar : S → Value S
    array : Items S → Value S
    table : Fields S → Value S

  pub data Items (S : Type 0) : Type 0 where
    nil : Items S
    cons : Value S → Items S → Items S

  -- The entries of a `dict`, in insertion order.
  pub data Fields (S : Type 0) : Type 0 where
    end : Fields S
    field : String → Value S → Fields S → Fields S

module _ {S : Type 0} where
  abbrev pub to_list : Items S → List (Value S)
  to_list nil = []
  to_list (cons v vs) = v ∷ to_list vs

  abbrev pub of_list : List (Value S) → Items S
  of_list [] = nil
  of_list (v ∷ vs) = cons v (of_list vs)

  pub to_list-of_list : (vs : List (Value S)) → to_list (of_list vs) ≡ vs
  to_list-of_list [] = refl
  to_list-of_list (v ∷ vs) = rw (to_list-of_list vs)

  -- `d.get(key)`; TOML has no null, so `none` is an absent key.
  unfoldable pub get : String → Fields S → Option (Value S)
  get key end = none
  get key (field j v fs) = if str_eq j key then some v else get key fs

  -- `d[key] = value`: an old key keeps its place, a new one goes to the end.
  unfoldable pub put : String → Value S → Fields S → Fields S
  put key v end = field key v end
  put key v (field j w fs) = if str_eq j key then field j v fs else field j w (put key v fs)

  pub get-put :
      (j key : String) (v : Value S) (fs : Fields S)
      → get j (put key v fs) ≡ (if str_eq key j then some v else get j fs)
  unfolding get put
  get-put j key v end = refl
  get-put j key v (field i w fs) =
      ground (arith, eq_iff key j, eq_iff i key, eq_iff i j, get-put j key v fs)
