-- ===== src/Base/Exceptions.antt =====
-- A call of a JavaScript function returns a value or throws.
use mathlib.Core.Path.{◌≡◌, refl}
use mathlib.Core.Option.{Option, none, some}
use mathlib.Core.List.{List, [], ◌∷◌}
use ton_sdk.Base.Strings.{Text, codes}

-- `type_error` is the engine's, at a member of `undefined`; `range_error` is the engine's too, at
-- a recursion deeper than the call stack; the other two are the messages of `requiredRefEnum`.
pub data Error : Type 0 where
  type_error range_error : Error
  not_registered : Text → Error
  not_an_enum : Text → Error

pub data Outcome {ℓ} (A : Type ℓ) : Type ℓ where
  returns : A → Outcome A
  throws : Error → Outcome A

infixl 5 ◌>>=◌
abbrev pub ◌>>=◌ {ℓ κ} : {A : Type ℓ} {B : Type κ} → Outcome A → (A → Outcome B) → Outcome B
returns a >>= f = f a
throws e >>= f = throws e

pub returns-injective {ℓ} : {A : Type ℓ} {a b : A} → returns a ≡ returns b → a ≡ b
returns-injective h = cc

pub >>=-eq-returns {ℓ κ} :
    {A : Type ℓ} {B : Type κ} (m : Outcome A) (f : A → Outcome B) {b : B}
    → (m >>= f) ≡ returns b
    → (a : A) × (m ≡ returns a) × (f a ≡ returns b)
>>=-eq-returns (returns a) f h = (a, refl, h)
>>=-eq-returns (throws e) f h = cc

-- Reading a member of a value that may be `undefined`.
abbrev pub required {ℓ} : {A : Type ℓ} → Option A → Outcome A
required none = throws type_error
required (some a) = returns a

-- `${x}` of a value that may be `undefined`.
abbrev pub printed : Option Text → Text
printed none = codes "undefined"
printed (some s) = s

-- `xs.map(f)` where `f` may throw: the first exception ends it.
unfoldable pub map_all {ℓ κ} :
    {A : Type ℓ} {B : Type κ} → (A → Outcome B) → List A → Outcome (List B)
map_all f [] = returns []
map_all f (x ∷ xs) = f x >>= λ y. map_all f xs >>= λ ys. returns (y ∷ ys)
