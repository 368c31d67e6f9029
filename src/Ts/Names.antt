-- ===== src/Ts/Names.antt =====
-- tools/ts-code.ts: how names are written, `fixFieldName`, `typeName` and `getRefName`.
pub mod Literal
use ton_sdk.Base.{
  ℕ, zero, suc, Text, Bool, true, false, ◌&&◌, ◌||◌, Option, none, some, List, [], ◌∷◌, ◌++◌,
  if◌then◌else◌, in_range, ◌==◌, codes, split, join, printed, get_elem?, Outcome, required, ◌>>=◌,
  returns, ◌≡◌, refl,
}
use ton_sdk.Api.Types.{ApiType, ref}

unfoldable pub is_valid_ident_first_char : ℕ → Bool
is_valid_ident_first_char c = in_range b'A' b'Z' c || in_range b'a' b'z' c || c == b'_'

unfoldable pub is_valid_ident_char : ℕ → Bool
unfolding is_valid_ident_first_char
is_valid_ident_char c = is_valid_ident_first_char c || in_range b'0' b'9' c

-- The loop of `fixFieldName`; `break` leaves the flag false.
unfoldable pub all_ident_chars : Text → Bool
unfolding is_valid_ident_char
all_ident_chars [] = true
all_ident_chars (c ∷ s) =
    let rest = all_ident_chars s in if is_valid_ident_char c then rest else false

-- `isValidIdent`.
unfoldable pub is_valid_ident : Text → Bool
unfolding all_ident_chars
is_valid_ident [] = false
is_valid_ident (c ∷ s) = is_valid_ident_first_char c && all_ident_chars s

abbrev pub quote : ℕ
quote = b'\''

abbrev pub backslash : ℕ
backslash = b'\\'

-- A single-quoted literal, its quotes behind backslashes.
unfoldable pub quoted : Text → Text
quoted name = quote ∷ (join (backslash ∷ quote ∷ []) (split quote name) ++ quote ∷ [])

unfoldable pub fix_field_name : Text → Text
unfolding is_valid_ident quoted
fix_field_name name = if is_valid_ident name then name else quoted name

-- `parts[parts.length - 1]`: a split has a last part.
abbrev pub last_part : List Text → Text
last_part [] = []
last_part (w ∷ []) = w
last_part (w ∷ v ∷ ws) = last_part (v ∷ ws)

unfoldable pub type_name : Text → Text
type_name full_name = last_part (split b'.' full_name)

-- `getRefName`, as a template prints it: `undefined` where the reference has no dot.
unfoldable pub ref_name_of : ApiType → Text
ref_name_of (ref name) = printed (get_elem? (split b'.' name) 1)
ref_name_of _ = []

unfoldable pub get_ref_name : Option ApiType → Outcome Text
unfolding ref_name_of
get_ref_name o = do t ← required o; returns (ref_name_of t)

abbrev pub odd_name : Text
odd_name = codes "it's-2"

fix_odd : fix_field_name odd_name ≡ codes "'it\\'s-2'"
unfolding fix_field_name split join
fix_odd = refl
