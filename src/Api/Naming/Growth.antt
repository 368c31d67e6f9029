-- ===== src/Api/Naming/Growth.antt =====
-- How long an identifier in snake case is.
use ton_sdk.Base.{
  ℕ, ◌+◌, Text, [], ◌∷◌, is_upper, is_lower, to_lower, to_upper, if◌then◌else◌, length,
  length-append, ◌≡◌, ◌<◌, ◌≤◌, ◌*◌, arith, ◌∙◌,
}
use ton_sdk.Api.Naming.{snake_round, snake_loop, pascal_to_snake, underscore}

-- The number of capital letters.
abbrev pub capitals : Text → ℕ
capitals [] = 0
capitals (c ∷ s) = (if is_upper c then 1 else 0) + capitals s

-- Behind its first letter, the text grows by a letter and, before a capital, an underscore.
length-snake_round :
    (c d : ℕ) (s : Text)
    → length (snake_round c (d ∷ s)) ≡ length s + 2 + (if is_upper c then 1 else 0)
unfolding snake_round to_lower to_upper is_upper is_lower
length-snake_round c d s =
    ground
      (arith, length-append s (underscore ∷ to_lower c ∷ []), length-append s (to_lower c ∷ []))

capitals-le : (s : Text) → capitals s ≤ length s
capitals-le [] = omega arith
capitals-le (c ∷ s) = ground (arith, capitals-le s)

length-snake_loop :
    (name snake : Text)
    → 0 < length snake
    → length (snake_loop name snake) ≡ length snake + length name + capitals name
unfolding snake_loop
length-snake_loop [] snake h = omega arith
length-snake_loop (c ∷ name) [] h = absurd (omega arith)
length-snake_loop (c ∷ name) (d ∷ s) h =
    let e = length-snake_round c d s in
    length-snake_loop name (snake_round c (d ∷ s)) (omega arith) ∙ omega arith

snake_round-first : (c : ℕ) → length (snake_round c []) ≡ 1
unfolding snake_round
snake_round-first c = ground arith

-- With the case mappings of ASCII, the identifier in snake case has a unit for each unit of the
-- name, and one more for each capital letter behind the first: no more than twice the length less
-- one.
pub length-pascal_to_snake :
    (c : ℕ) (name : Text)
    → (length (pascal_to_snake (c ∷ name)) ≡ length (c ∷ name) + capitals name)
      × (length (pascal_to_snake (c ∷ name)) + 1 ≤ 2 * length (c ∷ name))
unfolding pascal_to_snake snake_loop
length-pascal_to_snake c name =
    let e = snake_round-first c in
    let q = length-snake_loop name (snake_round c []) (omega arith) in
    let b = capitals-le name in (omega arith, omega arith)
