-- ===== src/Build/Version/Line.antt =====
-- The line of Cargo.toml that the version is read from.
use ton_sdk.Base.{
  Text, Bool, true, false, none, some, [], ◌∷◌, ◌++◌, codes, returns, required, ◌>>=◌, split, join,
  All, Bool-cases, inl, inr, ◌≡◌, ◌≢◌, refl, arith, ◌∙◌, ap,
}
use ton_sdk.Build.Options.{is_line_terminator}
use ton_sdk.Build.Version.{
  is_space, expect, is_version_char, take_version, ends_line, closed_version, skip_spaces,
  match_version, find_version, toml_version, version_of,
}
use ton_sdk.Build.Version.Digits.{IsVersionText}

-- The line that cargo writes, and what follows it.
abbrev pub version_line : Text → Text → Text
version_line v rest = codes "version = \"" ++ (v ++ b'"' ∷ rest)

take_version-append :
    (v s : Text)
    → All (λ c. is_version_char c ≡ true) v
    → take_version (v ++ b'"' ∷ s) ≡ (v, b'"' ∷ s)
unfolding take_version
take_version-append [] s h = refl
take_version-append (c ∷ v) s h = rw (h.0, take_version-append v s h.1)

closed_version-line :
    (v s : Text) → v ≢ [] → ends_line s ≡ true → closed_version (v, b'"' ∷ s) ≡ some v
closed_version-line [] s n e = absurd (n refl)
closed_version-line (c ∷ v) s n e = rw e

match_version-line :
    (v s : Text) → IsVersionText v → ends_line s ≡ true → match_version (version_line v s) ≡ some v
unfolding match_version
match_version-line v s (n, h) e =
    ap closed_version (take_version-append v s h) ∙ closed_version-line v s n e

-- At the beginning of a line there is text before the line's end, and it does not begin with `v`.
abbrev IsOther : Text → Type 0
IsOther [] = ⊥
IsOther (c ∷ s) = c ≢ b'v'

abbrev pub HasNoVersion : Bool → Text → Type 0
HasNoVersion at_line [] = Unit
HasNoVersion false (c ∷ s) = HasNoVersion (is_line_terminator c) s
HasNoVersion true (c ∷ s) = IsOther (skip_spaces (c ∷ s)) × HasNoVersion (is_line_terminator c) s

-- The next unit begins a line.
abbrev pub at_line_after : Bool → Text → Bool
at_line_after at_line [] = at_line
at_line_after at_line (c ∷ s) = at_line_after (is_line_terminator c) s

skip_spaces-append :
    (t rest : Text) → IsOther (skip_spaces t) → skip_spaces (t ++ rest) ≡ skip_spaces t ++ rest
unfolding skip_spaces
skip_spaces-append [] rest h = absurd h
skip_spaces-append (c ∷ t) rest h = elim (Bool-cases (is_space c)) [
  | inl e ↦ rw e (skip_spaces-append t rest (rw e at h))
  | inr e ↦ rw e
]

expect-IsOther : (t rest : Text) → IsOther t → expect (codes "version") (t ++ rest) ≡ none
expect-IsOther [] rest h = absurd h
expect-IsOther (c ∷ t) rest h = ground arith

match_version-IsOther : (t rest : Text) → IsOther (skip_spaces t) → match_version (t ++ rest) ≡ none
unfolding match_version
match_version-IsOther t rest h =
    rw (skip_spaces-append t rest h, expect-IsOther (skip_spaces t) rest h)

find_version-append :
    (b : Bool) (before rest : Text)
    → HasNoVersion b before
    → find_version b (before ++ rest) ≡ find_version (at_line_after b before) rest
unfolding find_version
find_version-append b [] rest h = refl
find_version-append false (c ∷ s) rest h = find_version-append (is_line_terminator c) s rest h
find_version-append true (c ∷ s) rest (h, k) =
    rw (match_version-IsOther (c ∷ s) rest h) (find_version-append (is_line_terminator c) s rest k)

find_version-line :
    (v rest : Text)
    → IsVersionText v
    → ends_line rest ≡ true
    → find_version true (version_line v rest) ≡ some v
unfolding find_version
find_version-line v rest n e = rw (match_version-line v rest n e)

-- Where the text before it ends with a line's end, and has no line that is blank or whose first
-- unit besides spaces is `v`, the line `version = "…"` gives the version, with each dot replaced by
-- an underscore, whatever follows its line.
pub version_of-line :
    (before v rest : Text)
    → HasNoVersion true before
    → at_line_after true before ≡ true
    → IsVersionText v
    → ends_line rest ≡ true
    → version_of (before ++ version_line v rest) ≡ returns (join (codes "_") (split b'.' v))
unfolding version_of toml_version
version_of-line before v rest h a n e =
    let line = version_line v rest in
    ap (λ o. required o >>= λ w. returns (join (codes "_") (split b'.' w)))
      (find_version-append true before line h
        ∙ ap (λ b. find_version b line) a
        ∙ find_version-line v rest n e)
