-- ===== src/Result.antt =====
-- What a Python call that may raise returns, and the `do` notation for it.
use ha_marstek_ble.Prelude.{Bool, true, false, Option, none, some, ◌≡◌, refl}

-- The exception classes that the modelled code raises or lets through.
pub data Error : Type 0 where
  value_error type_error struct_error index_error attribute_error bleak_error : Error

-- A returned value or a raised exception.
pub data Result {ℓ} (T : Type ℓ) : Type ℓ where
  err : Error → Result T
  ok : T → Result T

infixl 5 ◌>>=◌ ◌>>◌
-- An exception skips the statements after it.
abbrev pub ◌>>=◌ {ℓ κ} : {T : Type ℓ} {U : Type κ} → Result T → (T → Result U) → Result U
err exception >>= next = err exception
ok returned >>= next = next returned

abbrev pub ◌>>◌ {ℓ} : {U : Type ℓ} → Result (Unit {0}) → Result U → Result U
check >> rest = check >>= λ (_ : Unit {0}). rest

-- `if test: raise e`
abbrev pub raise_if : Bool → Error → Result (Unit {0})
raise_if true e = err e
raise_if false e = ok tt

abbrev pub or_raise {ℓ} : {A : Type ℓ} → Option A → Error → Result A
or_raise none e = err e
or_raise (some a) e = ok a

-- What a chain returns, its first call returned a value for.
pub >>=-ok {ℓ κ} :
    {T : Type ℓ} {U : Type κ} (m : Result T) (next : T → Result U) (u : U)
    → (m >>= next) ≡ ok u
    → (t : T) × (m ≡ ok t) × (next t ≡ ok u)
>>=-ok (ok t) next u h = (t, refl, h)
>>=-ok (err e) next u h = absurd cc

pub raise_if-ok : (b : Bool) (e : Error) → raise_if b e ≡ ok tt → b ≡ false
raise_if-ok true e h = absurd cc
raise_if-ok false e h = refl
