-- ===== src/Base/Results.antt =====
-- Rust's `Result`, its `?` as a bind, and the conversion of an error that `?` makes.
use mathlib.Core.Path.{◌≡◌, refl}
use mathlib.Core.Logic.{◌⊎◌, inl, inr}
use mathlib.Core.Bool.{Bool, true, false}
use mathlib.Core.Option.{Option, none, some}

pub data Result {ℓ} (E : Type 0) (A : Type ℓ) : Type ℓ where
  ok : A → Result E A
  err : E → Result E A

-- How a function that may panic fails: with an error that it returns, or by the panic.
pub data Failure (E : Type 0) : Type 0 where
  returned : E → Failure E
  panic : Failure E

module _ {E : Type 0} where
  infixl 5 ◌>>=◌ ◌>>◌
  abbrev pub ◌>>=◌ {ℓ κ} : {A : Type ℓ} {B : Type κ} → Result E A → (A → Result E B) → Result E B
  ok a >>= f = f a
  err e >>= f = err e

  abbrev pub ◌>>◌ {ℓ} : {B : Type ℓ} → Result E (Unit {0}) → Result E B → Result E B
  m >> k = m >>= λ _. k

  -- `if !test { return Err(e) }`
  abbrev pub ensure : Bool → E → Result E (Unit {0})
  ensure true e = ok tt
  ensure false e = err e

  abbrev pub ok_or {ℓ} : {A : Type ℓ} → Option A → E → Result E A
  ok_or none e = err e
  ok_or (some a) e = ok a

abbrev pub map_err {ℓ} : {E F : Type 0} {A : Type ℓ} → (E → F) → Result E A → Result F A
map_err f (ok a) = ok a
map_err f (err e) = err (f e)

pub Result-cases {ℓ} :
    {E : Type 0} {A : Type ℓ} (r : Result E A) → ((a : A) × (r ≡ ok a)) ⊎ ((e : E) × (r ≡ err e))
Result-cases (ok a) = inl (a, refl)
Result-cases (err e) = inr (e, refl)

-- What a successful step says of its parts.
pub >>=-eq-ok {ℓ κ} :
    {E : Type 0} {A : Type ℓ} {B : Type κ} (r : Result E A) (k : A → Result E B) {out : B}
    → (r >>= k) ≡ ok out
    → (a : A) × (r ≡ ok a) × (k a ≡ ok out)
>>=-eq-ok (err failure) k e = cc
>>=-eq-ok (ok value) k e = (value, refl, e)

pub ensure-eq-ok : {E : Type 0} (test : Bool) (e : E) → ensure test e ≡ ok tt → test ≡ true
ensure-eq-ok true e h = refl
ensure-eq-ok false e h = cc

pub ok-injective {ℓ} :
    {E : Type 0} {A : Type ℓ} {a b : A} → ◌≡◌ {A = Result E A} (ok a) (ok b) → a ≡ b
ok-injective h = cc

abbrev pub map_ok {ℓ κ} : {E : Type 0} {A : Type ℓ} {B : Type κ} → (A → B) → Result E A → Result E B
map_ok f (ok a) = ok (f a)
map_ok f (err e) = err e
