-- ===== src/Build/Options/Words.antt =====
-- The options that the reader finds in the words that spell them, and the words that it refuses.
use ton_sdk.Base.{
  Text, Bool, true, false, Option, none, some, List, [], ◌∷◌, ◌++◌, ◌&&◌, not, codes, starts_with,
  ap, drop, ◌>>=◌, Outcome, get_elem?, returns, throws, type_error, ◌≡◌, ◌≢◌, ◌↔◌, refl, ◌∙◌, All,
  Lacks, concat, map, any_of, same, same_iff, arith, Bool-cases, inl, inr, ◌⊎◌,
}
use ton_sdk.Build.Options.{
  Value, on, given, Settings, is_line_terminator, first_line, name_and_value, option_name, assign,
  set_by_next, set_option, option_step, options_loop, parse_options,
}

-- An option as it is spelled: alone, with `=`, or with its value in the next word.
pub data Setting : Type 0 where
  flag : Text → Setting
  inline spaced : Text → Text → Setting

unfoldable pub words : Setting → List Text
words (flag n) = (codes "--" ++ n) ∷ []
words (inline n v) = (codes "--" ++ (n ++ b'=' ∷ v)) ∷ []
words (spaced n v) = (codes "--" ++ n) ∷ v ∷ []

unfoldable pub bound : Setting → Text × Value
bound (flag n) = (n, on)
bound (inline n v) = (n, given v)
bound (spaced n v) = (n, given v)

abbrev pub IsName : Text → Type 0
IsName n = (n ≢ []) × Lacks b'=' n × (n ≢ codes "__proto__")

abbrev pub IsSetting : Setting → Type 0
IsSetting (flag n) = IsName n
IsSetting (inline n v) = IsName n × (v ≢ []) × All (λ c. is_line_terminator c ≡ false) v
IsSetting (spaced n v) = IsName n × (v ≢ []) × (starts_with (codes "-") v ≡ false)

abbrev pub onto : Settings → List Setting → Settings
onto acc [] = acc
onto acc (s ∷ ss) = onto (bound s ∷ acc) ss

first_line_id : (v : Text) → All (λ c. is_line_terminator c ≡ false) v → first_line v ≡ v
unfolding first_line
first_line_id [] h = refl
first_line_id (c ∷ v) h = rw (h.0, first_line_id v h.1)

name_and_value-Lacks : (n : Text) → Lacks b'=' n → name_and_value n ≡ (n, none)
unfolding name_and_value
name_and_value-Lacks [] h = refl
name_and_value-Lacks (c ∷ n) h = ground (arith, name_and_value-Lacks n h.1)

name_and_value-append :
    (n v : Text) → Lacks b'=' n → name_and_value (n ++ b'=' ∷ v) ≡ (n, some (first_line v))
unfolding name_and_value
name_and_value-append [] v h = refl
name_and_value-append (c ∷ n) v h = ground (arith, name_and_value-append n v h.1)

assign_lem :
    (n : Text) (v : Value) (acc : Settings) → n ≢ codes "__proto__" → assign n v acc ≡ (n, v) ∷ acc
unfolding assign
assign_lem n v acc h = elim (Bool-cases (same n (codes "__proto__"))) [
  | inl e ↦ absurd (h ((same_iff n (codes "__proto__")).0 e))
  | inr e ↦ rw e
]

-- What follows a word: nothing, the empty word, or another option.
set_by_next-on : (n : Text) (acc : Settings) → IsName n → set_by_next n none acc ≡ (n, on) ∷ acc
unfolding set_by_next
set_by_next-on [] acc h = absurd (h.0 refl)
set_by_next-on (c ∷ n) acc h = assign_lem (c ∷ n) on acc h.2

set_by_next-option :
    (n w : Text) (acc : Settings)
    → IsName n
    → set_by_next n (some (codes "--" ++ w)) acc ≡ (n, on) ∷ acc
unfolding set_by_next
set_by_next-option [] w acc h = absurd (h.0 refl)
set_by_next-option (c ∷ n) w acc h = assign_lem (c ∷ n) on acc h.2

set_by_next-given :
    (n v : Text) (acc : Settings)
    → IsName n
    → v ≢ []
    → starts_with (codes "-") v ≡ false
    → set_by_next n (some v) acc ≡ (n, given v) ∷ acc
unfolding set_by_next
set_by_next-given [] v acc h k q = absurd (h.0 refl)
set_by_next-given (c ∷ n) [] acc h k q = absurd (k refl)
set_by_next-given (c ∷ n) (d ∷ v) acc h k q = rw q (assign_lem (c ∷ n) (given (d ∷ v)) acc h.2)

set_option-none :
    (name n : Text) (next : Option Text) (acc : Settings)
    → set_option name n none next acc ≡ set_by_next name next acc
unfolding set_option
set_option-none name [] next acc = refl
set_option-none name (c ∷ n) next acc = refl

option_step-name :
    (n : Text) (next : Option Text) (acc : Settings)
    → IsName n
    → option_step (codes "--" ++ n) next acc ≡ returns (set_by_next n next acc)
unfolding option_step option_name
option_step-name n next acc h = rw (name_and_value-Lacks n h.1, set_option-none n n next acc)

set_option-given :
    (name n v : Text) (next : Option Text) (acc : Settings)
    → IsName n
    → v ≢ []
    → set_option name n (some v) next acc ≡ (n, given v) ∷ acc
unfolding set_option
set_option-given name [] v next acc h k = absurd (h.0 refl)
set_option-given name (c ∷ n) [] next acc h k = absurd (k refl)
set_option-given name (c ∷ n) (d ∷ v) next acc h k = assign_lem (c ∷ n) (given (d ∷ v)) acc h.2

option_step-inline :
    (n v : Text) (next : Option Text) (acc : Settings)
    → IsSetting (inline n v)
    → option_step (codes "--" ++ (n ++ b'=' ∷ v)) next acc ≡ returns ((n, given v) ∷ acc)
unfolding option_step option_name
option_step-inline n v next acc (h, k, l) = rw (
  name_and_value-append n v h.1,
  first_line_id v l,
  set_option-given (n ++ b'=' ∷ v) n v next acc h k,
)

option_step_skip :
    (v : Text) (next : Option Text) (acc : Settings)
    → starts_with (codes "-") v ≡ false
    → option_step v next acc ≡ returns acc
unfolding option_step
option_step_skip v next acc h = rw h

-- No word is left, or an option is the next.
abbrev StartsOption : List Text → Type 0
StartsOption [] = Unit
StartsOption (w ∷ ws) = (t : Text) × (w ≡ codes "--" ++ t)

words-StartsOption : (ss : List Setting) → StartsOption (concat (map words ss))
unfolding words
words-StartsOption [] = tt
words-StartsOption (flag n ∷ ss) = (n, refl)
words-StartsOption (inline n v ∷ ss) = (n ++ b'=' ∷ v, refl)
words-StartsOption (spaced n v ∷ ss) = (n, refl)

set_by_next-StartsOption :
    (n : Text) (rest : List Text) (acc : Settings)
    → IsName n
    → StartsOption rest
    → set_by_next n (get_elem? rest 0) acc ≡ (n, on) ∷ acc
set_by_next-StartsOption n [] acc h o = set_by_next-on n acc h
set_by_next-StartsOption n (w ∷ ws) acc h (t, e) = rw (e, set_by_next-option n t acc h)

-- The loop, behind a round.
abbrev go_on : List Text → Outcome Settings → Outcome Settings
go_on rest o = o >>= λ a. options_loop rest a

options_loop-words :
    (s : Setting) (rest : List Text) (acc : Settings)
    → IsSetting s
    → StartsOption rest
    → options_loop (words s ++ rest) acc ≡ options_loop rest (bound s ∷ acc)
unfolding options_loop words bound
options_loop-words (flag n) rest acc h o = ap (go_on rest) (
    option_step-name n (get_elem? rest 0) acc h
    ∙ ap returns (set_by_next-StartsOption n rest acc h o))
options_loop-words (inline n v) rest acc h o =
    ap (go_on rest) (option_step-inline n v (get_elem? rest 0) acc h)
options_loop-words (spaced n v) rest acc (h, k, l) o =
    ap (go_on (v ∷ rest))
      (option_step-name n (some v) acc h ∙ ap returns (set_by_next-given n v acc h k l))
    ∙ ap (go_on rest) (option_step_skip v (get_elem? rest 0) ((n, given v) ∷ acc) l)

options_loop-concat :
    (ss : List Setting) (acc : Settings)
    → All IsSetting ss
    → options_loop (concat (map words ss)) acc ≡ returns (onto acc ss)
options_loop-concat [] acc h = unfold options_loop in refl
options_loop-concat (s ∷ ss) acc h =
    options_loop-words s (concat (map words ss)) acc h.0 (words-StartsOption ss)
    ∙ options_loop-concat ss (bound s ∷ acc) h.1

-- An option is spelled `--name`, `--name=value` or `--name value`. When every name is neither
-- empty nor `__proto__` and has no `=`, every value is not empty, an inline value has no line end,
-- and a value in a word of its own does not begin with `-`, the reader finds the options that were
-- spelled, all of them, and nothing else: the latest stands first.
pub parse_options-words :
    (ss : List Setting)
    → All IsSetting ss
    → parse_options (concat (map words ss)) ≡ returns (onto [] ss)
unfolding parse_options
parse_options-words ss h = options_loop-concat ss [] h

-- A word that begins with one dash.
unfoldable pub is_short : Text → Bool
is_short w = starts_with (codes "-") w && not (starts_with (codes "--") w)

option_step-cases :
    (w : Text) (next : Option Text) (acc : Settings)
    → ((is_short w ≡ true) × (option_step w next acc ≡ throws type_error))
      ⊎ ((is_short w ≡ false) × (a : Settings) × (option_step w next acc ≡ returns a))
unfolding is_short option_step option_name
option_step-cases w next acc = elim (Bool-cases (starts_with (codes "-") w)) [
  | inl e ↦ elim (Bool-cases (starts_with (codes "--") w)) [
    | inl q ↦
        let name = drop 2 w in
        let pair = name_and_value name in
        inr (rw (e, q), set_option name pair.0 pair.1 next acc, rw (e, q))
    | inr q ↦ inl (rw (e, q), rw (e, q))
  ]
  | inr e ↦ inr (rw e, acc, rw e)
]

options_loop-throws :
    (argv : List Text) (acc : Settings)
    → (options_loop argv acc ≡ throws type_error) ↔ (any_of is_short argv ≡ true)
unfolding options_loop
options_loop-throws [] acc = (λ h. cc, λ h. cc)
options_loop-throws (w ∷ ws) acc = elim (option_step-cases w (get_elem? ws 0) acc) [
  | inl (s, e) ↦ rw (s, e) (λ _. refl, λ _. refl)
  | inr (s, a, e) ↦ rw (s, e) (options_loop-throws ws a)
]

-- The reader throws a TypeError exactly when one of the words, the values included, begins with
-- one dash only.
pub parse_options-throws_iff :
    (argv : List Text) → (parse_options argv ≡ throws type_error) ↔ (any_of is_short argv ≡ true)
unfolding parse_options
parse_options-throws_iff argv = options_loop-throws argv []
