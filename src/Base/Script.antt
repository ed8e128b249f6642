-- ===== src/Base/Script.antt =====
-- A Python script as a state monad: it goes on with a value, leaves by `sys.exit`, or by an
-- exception that nothing catches. The state is what the script may change: its output so far.
use Prim.Native.Nat.{ℕ}
use Prim.Native.String.{String}
use bowerbird.Base.Raise.{Exception, Result, ok, err}

pub data Run {ℓ} (W : Type ℓ) (A : Type ℓ) : Type ℓ where
  done : A → W → Run W A
  exited : ℕ → W → Run W A
  raised : Exception → W → Run W A

abbrev pub Script {ℓ} : Type ℓ → Type ℓ → Type ℓ
Script W A = W → Run W A

abbrev pub after {ℓ} : {W A B : Type ℓ} → Run W A → (A → Script W B) → Run W B
after (done a w) f = f a w
after (exited n w) f = exited n w
after (raised e w) f = raised e w

abbrev pub pure {ℓ} : {W A : Type ℓ} → A → Script W A
pure a w = done a w

-- `sys.exit(n)`
abbrev pub exit {ℓ} : {W A : Type ℓ} → ℕ → Script W A
exit n w = exited n w

abbrev pub lift {ℓ} : {W A : Type ℓ} → Result A → Script W A
lift (ok a) w = done a w
lift (err e) w = raised e w

-- The exit status of the process, where `main` returns one or nothing. Python exits with 1
-- on an exception that nothing catches.
abbrev pub status {ℓ} : {W A : Type ℓ} → (A → ℕ) → Run W A → ℕ
status code (done a w) = code a
status code (exited n w) = n
status code (raised e w) = 1

abbrev pub state {ℓ} : {W A : Type ℓ} → Run W A → W
state (done a w) = w
state (exited n w) = w
state (raised e w) = w

-- A line on standard output or on standard error.
pub data Line : Type 0 where
  out : String → Line
  note : String → Line
