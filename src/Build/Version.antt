-- ===== src/Build/Version.antt =====
-- ton_client/build-lib.js: the version of the library, read from the text of Cargo.toml by
-- `/^\s*version\s*=\s*['"]([0-9.]+)['"]\s*$/gm.exec`. Every part of the pattern is greedy, and what
-- follows a part cannot begin with what the part takes, so nothing is gained by giving units back:
-- but at the end, where `\s*$` wants a line's end behind any number of spaces.
pub mod Digits
pub mod Line
use ton_sdk.Base.{
  Text, ℕ, Bool, true, false, Option, none, some, List, [], ◌∷◌, ◌++◌, if◌then◌else◌, ◌==◌, ◌&&◌,
  ◌||◌, codes, in_range, starts_with, drop, length, Outcome, returns, required, ◌>>=◌, split, join,
  ◌≡◌, refl,
}
use ton_sdk.Build.Options.{is_line_terminator}

-- `\s`.
unfoldable pub is_space : ℕ → Bool
is_space c =
    c == 32
    || in_range 9 13 c
    || c == 160
    || c == 5760
    || in_range 8192 8202 c
    || c == 8232
    || c == 8233
    || c == 8239
    || c == 8287
    || c == 12288
    || c == 65279

-- `\s*`.
unfoldable pub skip_spaces : Text → Text
unfolding is_space
skip_spaces [] = []
skip_spaces (c ∷ s) = let rest = skip_spaces s in if is_space c then rest else c ∷ s

-- A literal of the pattern: what follows it.
abbrev pub expect : Text → Text → Option Text
expect p s = if starts_with p s then some (drop (length p) s) else none

-- `['"]`.
abbrev pub expect_quote : Text → Option Text
expect_quote [] = none
expect_quote (c ∷ s) = if c == b'\'' || c == b'"' then some s else none

-- `[0-9.]`.
unfoldable pub is_version_char : ℕ → Bool
is_version_char c = in_range b'0' b'9' c || c == b'.'

-- `([0-9.]*)`, and what follows it.
unfoldable pub take_version : Text → Text × Text
unfolding is_version_char
take_version [] = ([], [])
take_version (c ∷ s) =
    let rest = take_version s in if is_version_char c then (c ∷ rest.0, rest.1) else ([], c ∷ s)

-- `\s*$`.
unfoldable pub ends_line : Text → Bool
unfolding is_space is_line_terminator
ends_line [] = true
ends_line (c ∷ s) = is_line_terminator c || (is_space c && ends_line s)

abbrev pub and_then {ℓ κ} : {A : Type ℓ} {B : Type κ} → Option A → (A → Option B) → Option B
and_then none f = none
and_then (some a) f = f a

-- From the opening quote on.
abbrev pub closed_version : Text × Text → Option Text
closed_version ([], s) = none
closed_version (c ∷ v, s) =
    and_then (expect_quote s) λ t. if ends_line t then some (c ∷ v) else none

-- A match at the beginning of a line: what the parentheses hold.
unfoldable pub match_version : Text → Option Text
unfolding skip_spaces take_version ends_line
match_version s = and_then (expect (codes "version") (skip_spaces s)) λ t.
    and_then (expect (codes "=") (skip_spaces t))
      λ u. and_then (expect_quote (skip_spaces u)) λ v. closed_version (take_version v)

abbrev pub or_later : Option Text → Option Text → Option Text
or_later (some v) later = some v
or_later none later = later

-- `exec`: the first match; `^` matches at the beginning and behind a line's end.
unfoldable pub find_version : Bool → Text → Option Text
unfolding match_version is_line_terminator
find_version at_line [] = none
find_version at_line (c ∷ s) =
    or_later (if at_line then match_version (c ∷ s) else none)
      (find_version (is_line_terminator c) s)

-- `tomlVersion`: a member of the `null` of a failed match is read. What was matched is not empty,
-- so `|| ''` comes to nothing.
unfoldable pub toml_version : Text → Outcome Text
unfolding find_version
toml_version toml = required (find_version true toml)

-- `version`.
unfoldable pub version_of : Text → Outcome Text
unfolding toml_version
version_of toml = do v ← toml_version toml; returns (join (codes "_") (split b'.' v))

version_sample :
    version_of (codes "[package]\nname = 'v'\n  version = \"1.31.0\" \nedition = \"2018\"\n")
    ≡ returns (codes "1_31_0")
unfolding version_of split join
version_sample = refl
