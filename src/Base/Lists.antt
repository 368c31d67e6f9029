-- ===== src/Base/Lists.antt =====
-- Lists measured by native numbers, and predicates on lists.
use Prim.Native.Nat.{ℕ, zero, suc, ◌+◌}
use mathlib.Core.Bool.{Bool, false, ◌||◌}
use mathlib.Core.Option.{Option, none, some}
use mathlib.Core.Logic.{◌⊎◌, inl, inr}
use mathlib.Core.Path.{◌≡◌, refl}
use mathlib.Core.List.{List, [], ◌∷◌, ◌++◌, map, append_assoc}
use native.Mathlib.Omega.{arith}

module _ {ℓ} {A : Type ℓ} where
  abbrev pub length : List A → ℕ
  length [] = 0
  length (x ∷ xs) = suc (length xs)

  pub length-append : (xs ys : List A) → length (xs ++ ys) ≡ length xs + length ys
  length-append [] ys = omega arith
  length-append (x ∷ xs) ys = omega (arith, length-append xs ys)

  abbrev pub concat : List (List A) → List A
  concat [] = []
  concat (x ∷ xs) = x ++ concat xs

  pub concat-append : (xs ys : List (List A)) → concat (xs ++ ys) ≡ concat xs ++ concat ys
  concat-append [] ys = refl
  concat-append (x ∷ xs) ys = simp (concat-append xs, append_assoc)

module _ {ℓ κ} {A : Type ℓ} where
  -- `P` holds of every element.
  abbrev pub All : (A → Type κ) → List A → Type κ
  All P [] = Unit
  All P (x ∷ xs) = P x × All P xs

  pub All-append : (P : A → Type κ) (xs ys : List A) → All P xs → All P ys → All P (xs ++ ys)
  All-append P [] ys h k = k
  All-append P (x ∷ xs) ys h k = (h.0, All-append P xs ys h.1 k)

  pub All-map : (P Q : A → Type κ) → ((x : A) → P x → Q x) → (xs : List A) → All P xs → All Q xs
  All-map P Q f [] h = tt
  All-map P Q f (x ∷ xs) h = (f x h.0, All-map P Q f xs h.1)

module _ {ℓ} {A : Type ℓ} where
  -- `x` is in the list, at the place that the derivation gives.
  pub data Occurs (x : A) : List A → Type ℓ where
    here : {xs : List A} → Occurs x (x ∷ xs)
    there : {y : A} {xs : List A} → Occurs x xs → Occurs x (y ∷ xs)

-- `xs.some(p)`.
abbrev pub any_of {ℓ} : {A : Type ℓ} → (A → Bool) → List A → Bool
any_of p [] = false
any_of p (x ∷ xs) = p x || any_of p xs

-- `xs[i]`: `none` is `undefined`.
abbrev pub get_elem? {ℓ} : {A : Type ℓ} → List A → ℕ → Option A
get_elem? [] i = none
get_elem? (x ∷ xs) zero = some x
get_elem? (x ∷ xs) (suc i) = get_elem? xs i

module _ {ℓ} {A : Type ℓ} where
  pub Occurs-append_left : {x : A} {xs : List A} (ys : List A) → Occurs x xs → Occurs x (xs ++ ys)
  Occurs-append_left ys here = here
  Occurs-append_left ys (there o) = there (Occurs-append_left ys o)

  pub Occurs-append_right : {x : A} {ys : List A} (xs : List A) → Occurs x ys → Occurs x (xs ++ ys)
  Occurs-append_right [] o = o
  Occurs-append_right (y ∷ xs) o = there (Occurs-append_right xs o)

  pub Occurs-map {κ} :
      {B : Type κ} (f : A → B) {x : A} {xs : List A} → Occurs x xs → Occurs (f x) (map f xs)
  Occurs-map f here = here
  Occurs-map f (there o) = there (Occurs-map f o)

  pub Occurs-cons : {x y : A} {ys : List A} → Occurs x (y ∷ ys) → (x ≡ y) ⊎ Occurs x ys
  Occurs-cons here = inl refl
  Occurs-cons (there o) = inr o
