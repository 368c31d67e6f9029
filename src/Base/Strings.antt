-- ===== src/Base/Strings.antt =====
-- Text as JavaScript sees it: a list of UTF-16 code units. The case mappings are those of the
-- ASCII letters, of which the identifiers of an API description are made.
use Prim.Native.Nat.{ℕ, zero, suc, ◌+◌, ◌-◌}
use Prim.Native.Char.{code}
use Prim.Native.String.{String}
use mathlib.Core.Path.{◌≡◌, refl}
use mathlib.Core.Logic.{◌≢◌, ◌↔◌, inl, inr}
use mathlib.Core.Bool.{Bool, true, false, ◌&&◌}
use mathlib.Core.Option.{some}
use mathlib.Core.List.{List, [], ◌∷◌, ◌++◌}
use native.Mathlib.Omega.{arith}
use ton_sdk.Base.Tests.{◌==◌, if◌then◌else◌, in_range, Bool-cases, ==_refl, ==_iff}
use ton_sdk.Base.Lists.{All, get_elem?}

abbrev pub Text : Type 0
Text = List ℕ

-- The code points of a literal: its code units, below U+10000.
abbrev pub codes : String → Text
codes String.[] = []
codes (String.◌∷◌ c s) = code c ∷ codes s

-- `a === b`.
unfoldable pub same : Text → Text → Bool
same [] [] = true
same [] (d ∷ b) = false
same (c ∷ a) [] = false
same (c ∷ a) (d ∷ b) = c == d && same a b

pub same_iff : (a b : Text) → (same a b ≡ true) ↔ (a ≡ b)
unfolding same
same_iff [] [] = (λ _. refl, λ _. refl)
same_iff [] (d ∷ b) = (λ h. cc, λ h. cc)
same_iff (c ∷ a) [] = (λ h. cc, λ h. cc)
same_iff (c ∷ a) (d ∷ b) = ground (arith, same_iff a b)

pub same_refl : (a : Text) → same a a ≡ true
same_refl a = (same_iff a a).1 refl

-- `s.startsWith(prefix)`, of the prefix and the text.
abbrev pub starts_with : Text → Text → Bool
starts_with [] s = true
starts_with (c ∷ p) [] = false
starts_with (c ∷ p) (d ∷ s) = c == d && starts_with p s

-- `s.substr(n)`.
abbrev pub drop : ℕ → Text → Text
drop zero s = s
drop (suc n) [] = []
drop (suc n) (c ∷ s) = drop n s

unfoldable pub is_upper : ℕ → Bool
is_upper c = in_range b'A' b'Z' c

unfoldable pub is_lower : ℕ → Bool
is_lower c = in_range b'a' b'z' c

-- `c.toLowerCase()` and `c.toUpperCase()`.
unfoldable pub to_lower : ℕ → ℕ
unfolding is_upper
to_lower c = if is_upper c then c + 32 else c

unfoldable pub to_upper : ℕ → ℕ
unfolding is_lower
to_upper c = if is_lower c then c - 32 else c

pub to_upper-to_lower : (c : ℕ) → is_upper c ≡ true → to_upper (to_lower c) ≡ c
unfolding to_upper to_lower
to_upper-to_lower c h = ground arith

pub to_lower-to_upper : (c : ℕ) → is_lower c ≡ true → to_lower (to_upper c) ≡ c
unfolding to_upper to_lower
to_lower-to_upper c h = ground arith

pub to_upper_id : (c : ℕ) → is_lower c ≡ false → to_upper c ≡ c
unfolding to_upper
to_upper_id c h = rw h

-- A piece grows at its front; `split` never gives the empty list.
abbrev pub push : ℕ → List Text → List Text
push c [] = (c ∷ []) ∷ []
push c (w ∷ ws) = (c ∷ w) ∷ ws

-- `s.split(c)`, at a separator of one unit.
unfoldable pub split : ℕ → Text → List Text
split sep [] = [] ∷ []
split sep (c ∷ s) = let rest = split sep s in if c == sep then [] ∷ rest else push c rest

-- `parts.join(sep)`.
unfoldable pub join : Text → List Text → Text
join sep [] = []
join sep (w ∷ []) = w
join sep (w ∷ v ∷ ws) = w ++ (sep ++ join sep (v ∷ ws))

-- The text holds no unit `b`.
abbrev pub Lacks : ℕ → Text → Type 0
Lacks b = All (λ c. c ≢ b)

pub split_at_sep : (sep : ℕ) (s : Text) → split sep (sep ∷ s) ≡ [] ∷ split sep s
unfolding split
split_at_sep sep s = rw (==_refl sep)

pub split-push : (sep c : ℕ) (s : Text) → c ≢ sep → split sep (c ∷ s) ≡ push c (split sep s)
unfolding split
split-push sep c s h = ground arith

pub split-Lacks : (sep : ℕ) (s : Text) → Lacks sep s → split sep s ≡ s ∷ []
unfolding split
split-Lacks sep [] h = refl
split-Lacks sep (c ∷ s) h = ground (arith, split-Lacks sep s h.1)

-- A text without the separator, in front of the separator, is the first piece.
pub split-append : (sep : ℕ) (s t : Text) → Lacks sep s → split sep (s ++ sep ∷ t) ≡ s ∷ split sep t
unfolding split
split-append sep [] t h = ground arith
split-append sep (c ∷ s) t h = ground (arith, split-append sep s t h.1)

pub split-cons : (sep : ℕ) (s : Text) → (w : Text) × (ws : List Text) × (split sep s ≡ w ∷ ws)
unfolding split
split-cons sep [] = ([], [], refl)
split-cons sep (c ∷ s) = go (c == sep) (split-cons sep s)
  where
    go :
        (b : Bool)
        → (w : Text) × (ws : List Text) × (split sep s ≡ w ∷ ws)
        → (w : Text) × (ws : List Text) × ((if b then [] ∷ split sep s else push c (split sep s))
            ≡ w ∷ ws)
    go true _ = ([], split sep s, refl)
    go false (w, ws, e) = (c ∷ w, ws, rw e)

module _ (sub : Text) where
  -- Every separator replaced by `sub`.
  unfoldable pub replace_all : ℕ → Text → Text
  replace_all sep [] = []
  replace_all sep (c ∷ s) = (if c == sep then sub else c ∷ []) ++ replace_all sep s

  join-push : (c : ℕ) (ps : List Text) → join sub (push c ps) ≡ c ∷ join sub ps
  unfolding join
  join-push c [] = refl
  join-push c (w ∷ []) = refl
  join-push c (w ∷ v ∷ ws) = refl

  join-cons : (w : Text) (ws : List Text) → join sub ([] ∷ w ∷ ws) ≡ sub ++ join sub (w ∷ ws)
  unfolding join
  join-cons w ws = refl

  join_skip : (sep : ℕ) (s : Text) → join sub ([] ∷ split sep s) ≡ sub ++ join sub (split sep s)
  join_skip sep s = let (w, ws, e) = split-cons sep s in rw e (join-cons w ws)

  -- `s.split(sep).join(sub)` replaces every separator.
  pub join-split : (sep : ℕ) (s : Text) → join sub (split sep s) ≡ replace_all sep s
  unfolding split replace_all
  join-split sep [] = unfold join in refl
  join-split sep (c ∷ s) = elim (Bool-cases (c == sep)) [
    | inl e ↦ rw (e, join_skip sep s, join-split sep s)
    | inr e ↦ rw (e, join-push c (split sep s), join-split sep s)
  ]

-- A text with a separator in it has a second piece.
pub split_second :
    (sep : ℕ) (s t : Text) → (p : Text) × (get_elem? (split sep (s ++ sep ∷ t)) 1 ≡ some p)
split_second sep [] t = let (w, ws, e) = split-cons sep t in (w, rw (split_at_sep sep t, e))
split_second sep (c ∷ s) t = elim (Bool-cases (c == sep)) [
  | inl e ↦
      let (w, ws, q) = split-cons sep (s ++ sep ∷ t) in
      (w, rw ((==_iff c sep).0 e, split_at_sep sep, q))
  | inr e ↦
      let (w, ws, q) = split-cons sep (s ++ sep ∷ t) in
      let (p, r) = split_second sep s t in
      (p, rw (split-push sep c _ (λ i. cc ((==_iff c sep).1 i)), q) (rw q at r))
]
