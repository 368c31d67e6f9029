-- ===== src/Ts/Names/Literal.antt =====
-- A field name that the generator writes stands for that name in TypeScript.
use ton_sdk.Base.{
  in_range, ◌&&◌, ℕ, Text, Bool, true, false, Option, none, some, [], ◌∷◌, ◌++◌, if◌then◌else◌,
  ◌==◌, split, join, join-split, replace_all, ◌≡◌, ◌≢◌, refl, arith, Bool-cases, inl, inr, ◌||◌,
  All,
}
use ton_sdk.Ts.Names.{
  all_ident_chars, is_valid_ident_char, is_valid_ident_first_char, is_valid_ident, quote, backslash,
  fix_field_name,
}

-- A line terminator cannot stand in a quoted literal.
abbrev is_line_end : ℕ → Bool
is_line_end c = c == 10 || c == 13

abbrev prepend : ℕ → Option Text → Option Text
prepend c none = none
prepend c (some s) = some (c ∷ s)

-- What ECMAScript takes for an identifier, of the ASCII characters.
abbrev starts_identifier : ℕ → Bool
starts_identifier c = in_range b'a' b'z' c || in_range b'A' b'Z' c || c == b'_' || c == b'$'

abbrev goes_on : ℕ → Bool
goes_on c = starts_identifier c || in_range b'0' b'9' c

abbrev all_go_on : Text → Bool
all_go_on [] = true
all_go_on (c ∷ s) = goes_on c && all_go_on s

abbrev is_identifier : Text → Bool
is_identifier [] = false
is_identifier (c ∷ s) = starts_identifier c && all_go_on s

-- The closing quote ends the text.
abbrev closing : Text → Option Text
closing [] = some []
closing (c ∷ s) = none

-- What follows a backslash: of the escapes of ECMAScript only `\'` is read, and any other gives
-- `none`. `rest` is the reading of what follows it.
abbrev escaped_char : ℕ → Option Text → Option Text
escaped_char c rest = if c == quote then prepend c rest else none

abbrev plain_char : ℕ → Text → Option Text → Option Text → Option Text
plain_char c s rest after =
    if c == quote
    then closing s
    else if c == backslash
    then after
    else if is_line_end c
    then none
    else prepend c rest

-- The reading of a single-quoted literal behind its opening quote; the flag is set behind a
-- backslash.
read_literal : Bool → Text → Option Text
read_literal escaped [] = none
read_literal true (c ∷ s) = escaped_char c (read_literal false s)
read_literal false (c ∷ s) = plain_char c s (read_literal false s) (read_literal true s)

-- The name that a member of an object type has, as it is written before the colon.
pub member_name : Text → Option Text
unfolding read_literal
member_name [] = none
member_name (c ∷ s) =
    if c == quote
    then read_literal false s
    else if is_identifier (c ∷ s)
    then some (c ∷ s)
    else none

-- A unit that the generator copies into a literal without harm.
abbrev pub IsPlain : ℕ → Type 0
IsPlain c = (c ≢ backslash) × (c ≢ 10) × (c ≢ 13)

abbrev hidden : Text → Text
hidden = replace_all (backslash ∷ quote ∷ []) quote

read_literal-hidden :
    (s : Text) → All IsPlain s → read_literal false (hidden s ++ quote ∷ []) ≡ some s
unfolding replace_all read_literal
read_literal-hidden [] h = refl
read_literal-hidden (c ∷ s) h = ground (arith, read_literal-hidden s h.1)

all_ident_chars-all_go_on : (s : Text) → all_ident_chars s ≡ true → all_go_on s ≡ true
unfolding all_ident_chars is_valid_ident_first_char is_valid_ident_char
all_ident_chars-all_go_on [] h = refl
all_ident_chars-all_go_on (c ∷ s) h = ground (arith, all_ident_chars-all_go_on s)

-- What the generator takes for an identifier is one.
is_valid_ident-is_identifier : (s : Text) → is_valid_ident s ≡ true → is_identifier s ≡ true
unfolding is_valid_ident is_valid_ident_first_char
is_valid_ident-is_identifier [] h = cc
is_valid_ident-is_identifier (c ∷ s) h = ground (arith, all_ident_chars-all_go_on s)

is_identifier-ne-quote : (c : ℕ) (s : Text) → is_identifier (c ∷ s) ≡ true → (c == quote) ≡ false
is_identifier-ne-quote c s h = ground arith

-- A member of an object type is named by an identifier of ASCII letters, digits, `_` and `$` that
-- begins with no digit, or by a single-quoted literal. What a field is written as names a member of
-- the field's name, if the name holds no backslash and no line end.
pub member_name-fix_field_name :
    (name : Text) → All IsPlain name → member_name (fix_field_name name) ≡ some name
unfolding member_name fix_field_name
member_name-fix_field_name [] h = unfold split join in refl
member_name-fix_field_name (c ∷ s) h = elim (Bool-cases (is_valid_ident (c ∷ s))) [
  | inl e ↦
      let i = is_valid_ident-is_identifier (c ∷ s) e in rw (e, is_identifier-ne-quote c s i, i)
  | inr e ↦
      rw (e, join-split (backslash ∷ quote ∷ []) quote (c ∷ s)) (read_literal-hidden (c ∷ s) h)
]
