-- ===== src/Ts/Balance.antt =====
-- What the brackets of a text do to the brackets that are open before it.
use ton_sdk.Base.{
  ℕ, Text, Bool, false, Option, none, some, List, [], ◌∷◌, ◌++◌, concat, join, ◌≡◌, ap, All,
}
use ton_sdk.Ts.Types.Scan.{Scan, scan, scan-append, Reads-IsClean, IsClean, IsBalanced}

-- The brackets still to be closed.
abbrev pub open_brackets : Scan → Option (List ℕ)
open_brackets none = none
open_brackets (some (st, b)) = some st

-- Where the brackets `start` are open, innermost first, the text leaves `end` open in their place,
-- and it closes no bracket that stands further out.
pub record Turns (s : Text) (start end : List ℕ) : Type 0 where
  pub run :
      (st : List ℕ) (b : Bool) → open_brackets (scan s (some (start ++ st, b))) ≡ some (end ++ st)

-- The text is well bracketed, whatever stands around it.
abbrev pub Balances : Text → Type 0
Balances s = Turns s [] []

open_at : (x : Scan) (st : List ℕ) → open_brackets x ≡ some st → (b : Bool) × (x ≡ some (st, b))
open_at none st h = cc
open_at (some (st', b)) st h = (b, cc)

pub Turns-append :
    (s : Text) {t : Text} {start mid end : List ℕ}
    → Turns s start mid
    → Turns t mid end
    → Turns (s ++ t) start end
Turns-append s {t} {start} {mid} {end} h k = record {
  run = λ st b.
      let (b', e) = open_at (scan s (some (start ++ st, b))) (mid ++ st) (h.run st b) in
      rw (scan-append s t (some (start ++ st, b)), e) (k.run st b');
}

-- What is well bracketed is so within more brackets.
pub Balances-within : (s : Text) {ks : List ℕ} → Balances s → Turns s ks ks
Balances-within s {ks} h = record { run = λ st b. h.run (ks ++ st) b }

pub IsBalanced-Turns : (s : Text) {ks : List ℕ} → IsBalanced s → Turns s ks ks
IsBalanced-Turns s {ks} (u, r) = record { run = λ st b. ap open_brackets (r (ks ++ st) b) }

pub IsClean-Turns : (s : Text) {ks : List ℕ} → IsClean s → Turns s ks ks
IsClean-Turns s h = IsBalanced-Turns s (false, Reads-IsClean s h)

-- A clean text in front, and one that is well bracketed.
pub after_clean :
    (s : Text) {t : Text} {start end : List ℕ}
    → IsClean s
    → Turns t start end
    → Turns (s ++ t) start end
after_clean s h k = Turns-append s (IsClean-Turns s h) k

pub after_balanced :
    (s : Text) {t : Text} {start end : List ℕ}
    → Balances s
    → Turns t start end
    → Turns (s ++ t) start end
after_balanced s h k = Turns-append s (Balances-within s h) k

pub Balances-concat : (ts : List Text) → All Balances ts → Balances (concat ts)
Balances-concat [] h = IsClean-Turns [] tt
Balances-concat (t ∷ ts) h = after_balanced t h.0 (Balances-concat ts h.1)

pub Balances-join :
    (sep : Text) (ts : List Text) → IsClean sep → All Balances ts → Balances (join sep ts)
unfolding join
Balances-join sep [] h k = IsClean-Turns [] tt
Balances-join sep (t ∷ []) h k = k.0
Balances-join sep (t ∷ u ∷ ts) h k =
    after_balanced t k.0 (after_clean sep h (Balances-join sep (u ∷ ts) h k.1))
