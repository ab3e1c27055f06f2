-- ===== src/Prelude/Results.antt =====
-- What a fallible Rust function does. `bail` is an `Err` of anyhow, `panic` a failed assertion, a
-- failed `unwrap`, a slice index out of range or an arithmetic underflow, `out_of_bounds` a raw
-- pointer that reads past the end of its buffer, and `out_of_fuel` a recursion cut short.
use mathlib.Core.Path.{◌≡◌, refl}
use mathlib.Core.Bool.{Bool, true, false}
use mathlib.Core.Option.{Option, none, some}

pub data Failure : Type 0 where
  bail panic out_of_bounds out_of_fuel : Failure

pub data Result {ℓ} (Value : Type ℓ) : Type ℓ where
  err : Failure → Result Value
  ok : Value → Result Value

-- The value of an option, or the failure that its absence causes.
abbrev pub or_fail {ℓ} : {A : Type ℓ} → Option A → Failure → Result A
or_fail none failure = err failure
or_fail (some a) failure = ok a

-- The `?` of Rust: the rest of a block runs on the value, and a failure ends the block.
infixl 5 ◌>>=◌
abbrev pub ◌>>=◌ {ℓ ℓ'} :
    {Value : Type ℓ} {Next : Type ℓ'} → Result Value → (Value → Result Next) → Result Next
err failure >>= rest = err failure
ok value >>= rest = rest value

-- `assert!`
abbrev pub guard : Bool → Failure → Result (Unit {0})
guard false failure = err failure
guard true failure = ok tt

infixl 5 ◌>>◌
abbrev pub ◌>>◌ {ℓ} : {Next : Type ℓ} → Result (Unit {0}) → Result Next → Result Next
first >> second = first >>= λ done. second

-- A block that succeeds got the value that its rest succeeds on.
pub >>=-eq-ok {ℓ ℓ'} :
    {Value : Type ℓ} {Next : Type ℓ'} (first : Result Value) (rest : Value → Result Next) {b : Next}
    → (first >>= rest) ≡ ok b
    → (value : Value) × (first ≡ ok value) × (rest value ≡ ok b)
>>=-eq-ok (err failure) rest h = cc
>>=-eq-ok (ok value) rest h = (value, refl, h)

pub or_fail-ok :
    {A : Type 0} (o : Option A) {a : A} (failure : Failure) → or_fail o failure ≡ ok a → o ≡ some a
or_fail-ok none failure h = cc
or_fail-ok (some b) failure h = cc
