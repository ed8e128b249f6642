-- ===== src/Base/Raise.antt =====
-- Python's exceptions as values.
use bowerbird.Base.Lists.{All}
use mathlib.Core.Path.{◌≡◌, refl, subst, ap, ◌∙◌}
use mathlib.Core.List.{List, [], ◌∷◌}

-- The exception classes that the modelled code raises or lets through.
pub data Exception : Type 0 where
  type_error value_error key_error overflow_error os_error index_error : Exception
  attribute_error policy_error : Exception

pub data Result {ℓ} (V : Type ℓ) : Type ℓ where
  err : Exception → Result V
  ok : V → Result V

pub ok-injective {ℓ} : {V : Type ℓ} {v w : V} → ok v ≡ ok w → v ≡ w
ok-injective same = cc

-- The next statement runs on the value, unless an exception is on its way.
infixl 5 ◌>>=◌
abbrev pub ◌>>=◌ {ℓ μ} : {V : Type ℓ} {W : Type μ} → Result V → (V → Result W) → Result W
err exception >>= next = err exception
ok v >>= next = next v

-- Statements that end with a value have each had one.
pub >>=-eq-ok {ℓ μ} :
    {V : Type ℓ} {W : Type μ} (first : Result V) (next : V → Result W) {w : W}
    → (first >>= next) ≡ ok w
    → (v : V) × (first ≡ ok v) × (next v ≡ ok w)
>>=-eq-ok (err exception) next h = cc
>>=-eq-ok (ok v) next h = (v, refl, h)

pub >>=-ok {ℓ μ} :
    {V : Type ℓ} {W : Type μ} (first : Result V) (next : V → Result W) {v : V} {r : Result W}
    → first ≡ ok v
    → next v ≡ r
    → (first >>= next) ≡ r
>>=-ok (err exception) next h k = cc
>>=-ok (ok v) next h k = ap next (ok-injective h) ∙ k

-- A `for` loop whose body may raise.
abbrev pub foldl {ℓ κ} : {A : Type ℓ} {B : Type κ} → (B → A → Result B) → B → List A → Result B
foldl step b [] = ok b
foldl step b (x ∷ xs) = step b x >>= λ b'. foldl step b' xs

-- What every step keeps on the listed elements, the loop keeps.
pub foldl_inv {ℓ κ μ ν} :
    {A : Type ℓ} {B : Type κ} (P : B → Type μ) (Q : A → Type ν) (step : B → A → Result B)
    → ((b : B) (x : A) (b' : B) → P b → Q x → step b x ≡ ok b' → P b')
    → (xs : List A) (b : B) {r : B} → All Q xs
    → P b
    → foldl step b xs ≡ ok r
    → P r
foldl_inv P Q step keep [] b q h e = subst P (cc) h
foldl_inv P Q step keep (x ∷ xs) b q h e =
    let (b', first, rest) = >>=-eq-ok (step b x) (λ c. foldl step c xs) e in
    foldl_inv P Q step keep xs b' q.1 (keep b x b' h q.0 first) rest

-- A step that always succeeds and keeps the invariant makes a loop that succeeds.
pub foldl_total {ℓ κ μ ν} :
    {A : Type ℓ} {B : Type κ} (P : B → Type μ) (Q : A → Type ν) (step : B → A → Result B)
    → ((b : B) (x : A) → P b → Q x → (b' : B) × (step b x ≡ ok b') × P b')
    → (xs : List A) (b : B) → All Q xs
    → P b
    → (r : B) × (foldl step b xs ≡ ok r) × P r
foldl_total P Q step keep [] b q h = (b, refl, h)
foldl_total P Q step keep (x ∷ xs) b q h =
    let (b', first, h') = keep b x h q.0 in
    let (r, rest, k) = foldl_total P Q step keep xs b' q.1 h' in (r, rw first rest, k)
