-- ===== src/Build/Version/Digits.antt =====
-- What a version is made of.
use ton_sdk.Base.{
  Text, ℕ, Bool, true, false, Option, none, some, [], ◌∷◌, if◌then◌else◌, ◌==◌, ◌||◌, codes,
  in_range, returns, required, ◌>>=◌, split, join, replace_all, join-split, All, Bool-cases, inl,
  inr, ◌≡◌, ◌≢◌, refl, sym, ◌∙◌, subst, arith, ◌>>=◌, ◌⊎◌, returns-injective,
}
use ton_sdk.Build.Version.{
  expect, expect_quote, is_version_char, take_version, ends_line, and_then, closed_version,
  skip_spaces, match_version, or_later, find_version, toml_version, version_of,
}
use ton_sdk.Build.Options.{is_line_terminator}

abbrev pub IsVersionText : Text → Type 0
IsVersionText v = (v ≢ []) × All (λ c. is_version_char c ≡ true) v

take_version-All : (s : Text) → All (λ c. is_version_char c ≡ true) (take_version s).0
unfolding take_version
take_version-All [] = tt
take_version-All (c ∷ s) = elim (Bool-cases (is_version_char c)) [
  | inl h ↦ rw h (h, take_version-All s)
  | inr h ↦ rw h tt
]

and_then-eq-some {ℓ κ} :
    {A : Type ℓ} {B : Type κ} (o : Option A) (f : A → Option B) {b : B}
    → and_then o f ≡ some b
    → (a : A) × (o ≡ some a) × (f a ≡ some b)
and_then-eq-some none f h = cc
and_then-eq-some (some a) f h = (a, refl, h)

closed_version-some : (w s : Text) {v : Text} → closed_version (w, s) ≡ some v → (w ≡ v) × (v ≢ [])
closed_version-some [] s h = cc
closed_version-some (c ∷ w) s h =
    let (t, p, q) =
      and_then-eq-some (expect_quote s) (λ t. if ends_line t then some (c ∷ w) else none) h in
    elim (Bool-cases (ends_line t)) [
      | inl e ↦ let k = rw e at q in (cc, λ n. cc)
      | inr e ↦ let k = rw e at q in cc
    ]

match_version-IsVersionText : (s : Text) {v : Text} → match_version s ≡ some v → IsVersionText v
unfolding match_version
match_version-IsVersionText s {v} h =
    let (t, _, h1) = and_then-eq-some (expect (codes "version") (skip_spaces s)) _ h in
    let (u, _, h2) = and_then-eq-some (expect (codes "=") (skip_spaces t)) _ h1 in
    let (w, _, h3) = and_then-eq-some (expect_quote (skip_spaces u)) _ h2 in
    let (e, n) = closed_version-some (take_version w).0 (take_version w).1 h3 in
    (n, subst (All (λ c. is_version_char c ≡ true)) e (take_version-All w))

or_later-some :
    (b : Bool) (o later : Option Text) {v : Text}
    → or_later (if b then o else none) later ≡ some v
    → (o ≡ some v) ⊎ (later ≡ some v)
or_later-some false o later h = inr h
or_later-some true none later h = inr h
or_later-some true (some w) later h = inl h

find_version-IsVersionText :
    (b : Bool) (s : Text) {v : Text} → find_version b s ≡ some v → IsVersionText v
unfolding find_version
find_version-IsVersionText b [] h = cc
find_version-IsVersionText b (c ∷ s) h =
    elim (or_later-some b (match_version (c ∷ s)) (find_version (is_line_terminator c) s) h) [
      | inl m ↦ match_version-IsVersionText (c ∷ s) m
      | inr m ↦ find_version-IsVersionText (is_line_terminator c) s m
    ]

-- A unit of a file name that the version takes part in.
abbrev pub is_name_char : ℕ → Bool
is_name_char c = in_range b'0' b'9' c || c == b'_'

replace_all-is_name_char :
    (w : Text)
    → All (λ c. is_version_char c ≡ true) w
    → All (λ c. is_name_char c ≡ true) (replace_all (codes "_") b'.' w)
unfolding replace_all is_version_char
replace_all-is_name_char [] h = tt
replace_all-is_name_char (c ∷ w) (h, k) = elim (Bool-cases (c == b'.')) [
  | inl e ↦ rw e (refl, replace_all-is_name_char w k)
  | inr e ↦ rw e (ground arith, replace_all-is_name_char w k)
]

replace_all-ne : (sub : Text) (sep : ℕ) (w : Text) → sub ≢ [] → w ≢ [] → replace_all sub sep w ≢ []
unfolding replace_all
replace_all-ne sub sep [] h k = k
replace_all-ne [] sep (c ∷ w) h k = absurd (h refl)
replace_all-ne (d ∷ sub) sep (c ∷ w) h k = elim (Bool-cases (c == sep)) [
  | inl e ↦ rw e (λ q. cc)
  | inr e ↦ rw e (λ q. cc)
]

joined_version :
    (o : Option Text) {v : Text}
    → (required o >>= λ w. returns (join (codes "_") (split b'.' w))) ≡ returns v
    → (w : Text) × (o ≡ some w) × (replace_all (codes "_") b'.' w ≡ v)
joined_version none h = cc
joined_version (some w) h = (w, refl, sym (join-split (codes "_") b'.' w) ∙ returns-injective h)

-- Whatever Cargo.toml holds: a version that the script reads from it is not empty and is made of
-- digits and underscores, so the names of the archives that are made with it are file names.
pub version_of_chars :
    (toml v : Text) → version_of toml ≡ returns v → (v ≢ []) × All (λ c. is_name_char c ≡ true) v
unfolding version_of toml_version
version_of_chars toml v h =
    let (w, e, q) = joined_version (find_version true toml) h in
    let (n, k) = find_version-IsVersionText true toml e in
    subst (λ t. (t ≢ []) × All (λ c. is_name_char c ≡ true) t) q
      (replace_all-ne (codes "_") b'.' w (λ u. cc) n, replace_all-is_name_char w k)
