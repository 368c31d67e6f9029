-- ===== src/Api/Naming.antt =====
-- tools/api.ts, the static methods of `Code` that turn an identifier from one case style to
-- another.
pub mod RoundTrip
pub mod Growth
use ton_sdk.Base.{
  ℕ, Text, Bool, true, false, not, ◌&&◌, List, [], ◌∷◌, ◌++◌, map, concat, ◌==◌, if◌then◌else◌,
  to_lower, to_upper, join, codes, ◌≡◌, refl,
}

unfoldable pub upper_first : Text → Text
upper_first [] = []
upper_first (c ∷ s) = to_upper c ∷ s

unfoldable pub lower_first : Text → Text
lower_first [] = []
lower_first (c ∷ s) = to_lower c ∷ s

unfoldable pub pascal : List Text → Text
unfolding upper_first
pascal words = join [] (map upper_first words)

unfoldable pub camel : List Text → Text
unfolding pascal lower_first
camel words = lower_first (pascal words)

abbrev pub underscore : ℕ
underscore = b'_'

abbrev is_empty : Text → Bool
is_empty [] = true
is_empty (c ∷ s) = false

-- One round of the loop of `pascalToSnake`: `c` is `name[i]`, and `snake` the text so far.
unfoldable pub snake_round : ℕ → Text → Text
snake_round c snake =
    let lower = to_lower c in
    if not (lower == to_upper lower) && not (c == lower) && not (is_empty snake)
    then snake ++ underscore ∷ lower ∷ []
    else snake ++ lower ∷ []

unfoldable pub snake_loop : Text → Text → Text
snake_loop [] snake = snake
snake_loop (c ∷ name) snake = snake_loop name (snake_round c snake)

unfoldable pub pascal_to_snake : Text → Text
unfolding snake_loop snake_round
pascal_to_snake name = snake_loop name []

abbrev pub sample_name : Text
sample_name = codes "GetSigningBox2"

snake_sample : pascal_to_snake sample_name ≡ codes "get_signing_box2"
unfolding pascal_to_snake to_lower to_upper
snake_sample = refl
