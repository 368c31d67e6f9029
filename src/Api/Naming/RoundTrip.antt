-- ===== src/Api/Naming/RoundTrip.antt =====
-- `pascal` of the words of a snake-case name, against `pascalToSnake`.
use ton_sdk.Base.{
  ℕ, Text, true, false, List, [], ◌∷◌, ◌++◌, ◌≡◌, ◌≢◌, refl, if◌then◌else◌, to_lower, to_upper,
  is_upper, is_lower, join, split, push, arith, split-cons, append_assoc, append-nil,
  to_upper-to_lower, Lacks, Bool-cases, inl, inr, sym, split_at_sep, split-push,
}
use ton_sdk.Api.Naming.{upper_first, pascal, underscore, snake_round, snake_loop, pascal_to_snake}

-- What comes first is no lower-case letter.
abbrev pub StartsNoLower : Text → Type 0
StartsNoLower [] = Unit
StartsNoLower (c ∷ s) = is_lower c ≡ false

-- What one round of the loop appends, once `snake` is not empty.
unfoldable spell_char : ℕ → Text
spell_char c = if is_upper c then underscore ∷ to_lower c ∷ [] else c ∷ []

unfoldable spell : Text → Text
spell [] = []
spell (c ∷ s) = spell_char c ++ spell s

snake_round-cons :
    (c d : ℕ) (snake : Text) → snake_round c (d ∷ snake) ≡ d ∷ (snake ++ spell_char c)
unfolding snake_round spell_char to_lower to_upper
snake_round-cons c d snake = ground arith

snake_loop-spell :
    (s : Text) (d : ℕ) (snake : Text) → snake_loop s (d ∷ snake) ≡ d ∷ snake ++ spell s
unfolding spell snake_loop
snake_loop-spell [] d snake = simp append-nil
snake_loop-spell (c ∷ s) d snake =
    rw (snake_round-cons c d snake, snake_loop-spell s d (snake ++ spell_char c)) (rw append_assoc)

-- The first character gets no separator.
snake_round-nil : (c : ℕ) → snake_round c [] ≡ to_lower c ∷ []
unfolding snake_round to_lower to_upper
snake_round-nil c = ground arith

-- The words of what is behind the first character, joined again.
abbrev resume : List Text → Text
resume [] = []
resume (w ∷ ws) = w ++ pascal ws

pascal-cons : (w : Text) (ws : List Text) → pascal (w ∷ ws) ≡ upper_first w ++ pascal ws
unfolding pascal join
pascal-cons w [] = sym (append-nil _)
pascal-cons w (v ∷ ws) = refl

to_lower-ne-underscore : (c : ℕ) → is_upper c ≡ true → to_lower c ≢ underscore
unfolding to_lower is_upper
to_lower-ne-underscore c h = ground arith

pascal-push :
    (c : ℕ) (w : Text) (ws : List Text)
    → to_upper (to_lower c) ≡ c
    → pascal (push (to_lower c) (w ∷ ws)) ≡ c ∷ resume (w ∷ ws)
pascal-push c w ws e = rw pascal-cons (unfold upper_first in rw e)

resume-split : (s : Text) → Lacks underscore s → resume (split underscore (spell s)) ≡ s
unfolding spell spell_char
resume-split [] h = unfold split pascal join in refl
resume-split (c ∷ s) h =
    let (w, ws, e) = split-cons underscore (spell s) in
    let ih : resume (w ∷ ws) ≡ s = rw e at (resume-split s h.1) in
    elim (Bool-cases (is_upper c)) [
      | inl up ↦
          rw (up, split_at_sep, split-push _ _ _ (to_lower-ne-underscore c up), e)
            (rw (pascal-push c w ws (to_upper-to_lower c up), ih))
      | inr low ↦ rw (low, split-push _ _ _ h.0, e, ih)
    ]

-- The first character of a name that starts with no lower-case letter.
first_char :
    (c : ℕ)
    → c ≢ underscore
    → is_lower c ≡ false
    → (to_lower c ≢ underscore) × (to_upper (to_lower c) ≡ c)
unfolding to_lower to_upper is_upper is_lower
first_char c h k = ground arith

-- With the case mappings of ASCII, a name that starts with no lower-case letter and holds no
-- underscore is the Pascal case of the words of its snake case.
pub pascal-split-pascal_to_snake :
    (name : Text)
    → Lacks underscore name
    → StartsNoLower name
    → pascal (split underscore (pascal_to_snake name)) ≡ name
unfolding pascal_to_snake
pascal-split-pascal_to_snake [] h k = unfold split pascal join in refl
pascal-split-pascal_to_snake (c ∷ s) h k =
    let (ne, back) = first_char c h.0 k in
    let (w, ws, e) = split-cons underscore (spell s) in
    let rest : resume (w ∷ ws) ≡ s = rw e at (resume-split s h.1) in
    rw (snake_round-nil c, snake_loop-spell s (to_lower c) [], split-push _ _ _ ne, e)
      (rw (pascal-push c w ws back, rest))
