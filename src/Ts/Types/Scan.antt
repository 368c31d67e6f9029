-- ===== src/Ts/Types/Scan.antt =====
-- A reader of brackets and bars: whether a text is well bracketed, and whether it has a bar
-- outside all brackets, as a union type has.
use ton_sdk.Base.{
  ℕ, Text, Bool, true, false, ◌&&◌, ◌||◌, Option, none, some, List, [], ◌∷◌, ◌++◌, if◌then◌else◌,
  ◌==◌, ◌≡◌, refl, arith, All, join, ==_refl, split, push, split-cons, Bool-cases, inl, inr, subst,
  All-append, ap, ◌∙◌,
}

pub data CharClass : Type 0 where
  plain bar closes : CharClass
  opens : ℕ → CharClass

unfoldable pub char_class : ℕ → CharClass
char_class c =
    if c == b'('
    then opens b')'
    else if c == b'['
    then opens b']'
    else if c == b'{'
    then opens b'}'
    else if c == b')' || c == b']' || c == b'}'
    then closes
    else if c == b'|'
    then bar
    else plain

-- The brackets still to be closed, and whether a bar was met outside all brackets.
abbrev pub Scan : Type 0
Scan = Option (List ℕ × Bool)

abbrev is_top : List ℕ → Bool
is_top [] = true
is_top (k ∷ st) = false

abbrev close : ℕ → List ℕ → Bool → Scan
close c [] b = none
close c (k ∷ st) b = if k == c then some (st, b) else none

abbrev scan_char : ℕ → CharClass → List ℕ → Bool → Scan
scan_char c plain st b = some (st, b)
scan_char c bar st b = some (st, b || is_top st)
scan_char c (opens k) st b = some (k ∷ st, b)
scan_char c closes st b = close c st b

-- One unit of text; `none` is the state after a bracket that does not match.
unfoldable pub advance : ℕ → Scan → Scan
advance c none = none
advance c (some (st, b)) = scan_char c (char_class c) st b

unfoldable pub scan : Text → Scan → Scan
scan [] x = x
scan (c ∷ s) x = scan s (advance c x)

pub scan-append : (s t : Text) (x : Scan) → scan (s ++ t) x ≡ scan t (scan s x)
unfolding scan
scan-append [] t x = refl
scan-append (c ∷ s) t x = scan-append s t (advance c x)

-- The text is well bracketed, and `u` says whether it has a bar outside its brackets.
abbrev pub Reads : Text → Bool → Type 0
Reads s u = (st : List ℕ) (b : Bool) → scan s (some (st, b)) ≡ some (st, b || (u && is_top st))

pub Reads-append : (s t : Text) (u v : Bool) → Reads s u → Reads t v → Reads (s ++ t) (u || v)
Reads-append s t u v h k st b =
    rw (scan-append s t (some (st, b)), h st b, k st (b || (u && is_top st))) (ground arith)

advance-opens :
    (o c : ℕ) (st : List ℕ) (b : Bool)
    → char_class o ≡ opens c
    → advance o (some (st, b)) ≡ some (c ∷ st, b)
unfolding advance
advance-opens o c st b e = ap (λ k. scan_char o k st b) e

advance-closes :
    (c : ℕ) (st : List ℕ) (b : Bool)
    → char_class c ≡ closes
    → advance c (some (c ∷ st, b)) ≡ some (st, b)
unfolding advance
advance-closes c st b e = ap (λ k. scan_char c k (c ∷ st) b) e ∙ rw (==_refl c)

pub advance-plain :
    (c : ℕ) (st : List ℕ) (b : Bool)
    → char_class c ≡ plain
    → advance c (some (st, b)) ≡ some (st, b)
unfolding advance
advance-plain c st b e = ap (λ k. scan_char c k st b) e

-- A pair of brackets hides the bars within.
pub Reads-wrap :
    (o c : ℕ) (s : Text) (u : Bool)
    → char_class o ≡ opens c
    → char_class c ≡ closes
    → Reads s u
    → Reads (o ∷ (s ++ c ∷ [])) false
unfolding scan
Reads-wrap o c s u eo ec h st b =
    let inside : scan s (some (c ∷ st, b)) ≡ some (c ∷ st, b) = h (c ∷ st) b ∙ ground arith in
    ap (scan (s ++ c ∷ [])) (advance-opens o c st b eo)
    ∙ scan-append s (c ∷ []) (some (c ∷ st, b))
    ∙ ap (scan (c ∷ [])) inside
    ∙ advance-closes c st b ec
    ∙ ground arith

-- Text with no bracket and no bar.
abbrev pub IsClean : Text → Type 0
IsClean = All (λ c. char_class c ≡ plain)

pub Reads-IsClean : (s : Text) → IsClean s → Reads s false
unfolding scan
Reads-IsClean [] h st b = ground arith
Reads-IsClean (c ∷ s) h st b = rw (advance-plain c st b h.0) (Reads-IsClean s h.1 st b)

pub Reads-append_false : (s t : Text) → Reads s false → Reads t false → Reads (s ++ t) false
Reads-append_false s t h k = Reads-append s t false false h k

-- A clean text in front of another changes nothing, and so behind it.
pub Reads-after : (s t : Text) (u : Bool) → IsClean s → Reads t u → Reads (s ++ t) u
Reads-after s t u h k = Reads-append s t false u (Reads-IsClean s h) k

pub Reads-before : (s t : Text) (u : Bool) → Reads s u → IsClean t → Reads (s ++ t) u
Reads-before s t u h k =
    subst (Reads (s ++ t)) (ground arith) (Reads-append s t u false h (Reads-IsClean t k))

IsClean-push :
    (c : ℕ) (w : Text) (ws : List Text)
    → char_class c ≡ plain
    → All IsClean (w ∷ ws)
    → All IsClean (push c (w ∷ ws))
IsClean-push c w ws h k = ((h, k.0), k.1)

pub IsClean-split : (sep : ℕ) (s : Text) → IsClean s → All IsClean (split sep s)
unfolding split
IsClean-split sep [] h = (tt, tt)
IsClean-split sep (c ∷ s) h =
    let (w, ws, e) = split-cons sep s in
    let ih : All IsClean (w ∷ ws) = subst (All IsClean) e (IsClean-split sep s h.1) in
    elim (Bool-cases (c == sep)) [
      | inl q ↦ rw (q, e) (tt, ih)
      | inr q ↦ rw (q, e) (IsClean-push c w ws h.0 ih)
    ]

pub IsClean-join :
    (sep : Text) (ws : List Text) → IsClean sep → All IsClean ws → IsClean (join sep ws)
unfolding join
IsClean-join sep [] h k = tt
IsClean-join sep (w ∷ []) h k = k.0
IsClean-join sep (w ∷ v ∷ ws) h k =
    All-append _ w _ k.0 (All-append _ sep _ h (IsClean-join sep (v ∷ ws) h k.1))

-- The text is well bracketed.
abbrev pub IsBalanced : Text → Type 0
IsBalanced s = (u : Bool) × Reads s u

pub IsBalanced-join :
    (sep : Text) (ws : List Text) → IsClean sep → All IsBalanced ws → IsBalanced (join sep ws)
unfolding join
IsBalanced-join sep [] h k = (false, Reads-IsClean [] tt)
IsBalanced-join sep (w ∷ []) h k = k.0
IsBalanced-join sep (w ∷ v ∷ ws) h k =
    let (u, r) = k.0 in
    let (u', r') = IsBalanced-join sep (v ∷ ws) h k.1 in
    (u || u', Reads-append w _ u u' r (Reads-after sep (join sep (v ∷ ws)) u' h r'))

abbrev is_plain : CharClass → Bool
is_plain plain = true
is_plain _ = false

unfoldable pub is_clean : Text → Bool
is_clean [] = true
is_clean (c ∷ s) = is_plain (char_class c) && is_clean s

-- For a literal, by evaluation.
pub IsClean-of : (s : Text) → is_clean s ≡ true → IsClean s
unfolding is_clean
IsClean-of [] h = tt
IsClean-of (c ∷ s) h = (ground arith, IsClean-of s (ground arith))
