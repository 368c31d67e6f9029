-- ===== src/Build/Options/Last.antt =====
-- What `getOption` answers after the options that were spelled: the reader as a lookup of the last
-- one of each name.
use ton_sdk.Base.{
  Occurs, here, there, any_of, Bool-cases, inl, inr, same_iff, same_refl, subst, sym, true, Text,
  Option, none, some, List, [], ◌∷◌, map, concat, same, returns, ◌≡◌, refl, All, if◌then◌else◌,
}
use ton_sdk.Build.Options.{
  object_members, Answer, own, inherited, missing, or_inherited, read_option, Value, Settings,
  option_of, parse_options,
}
use ton_sdk.Build.Options.Words.{Setting, words, bound, onto, IsSetting, parse_options-words}

-- The value that the last option of the name was given, and `v` where none has the name.
unfoldable pub last_value : Text → Option Value → List Setting → Option Value
last_value opt v [] = v
last_value opt v (s ∷ ss) = last_value opt (if same (bound s).0 opt then some (bound s).1 else v) ss

option_of-onto :
    (opt : Text) (acc : Settings) (ss : List Setting)
    → option_of (onto acc ss) opt ≡ last_value opt (option_of acc opt) ss
unfolding last_value option_of
option_of-onto opt acc [] = refl
option_of-onto opt acc (s ∷ ss) = option_of-onto opt (bound s ∷ acc) ss

-- What `options` answers to a name of which the last value is known: where there is none, a member
-- of every object, or nothing.
pub data Answers (opt : Text) : Option Value → Answer → Type 0 where
  by_value : {v : Value} → Answers opt (some v) (own v)
  by_object : Occurs opt object_members → Answers opt none inherited
  by_none : (Occurs opt object_members → ⊥) → Answers opt none missing

any_of-same : (n : Text) (ns : List Text) → any_of (same n) ns ≡ true → Occurs n ns
any_of-same n [] h = cc
any_of-same n (m ∷ ns) h = elim (Bool-cases (same n m)) [
  | inl e ↦ subst (λ x. Occurs x (m ∷ ns)) (sym ((same_iff n m).0 e)) here
  | inr e ↦ there (any_of-same n ns (rw e at h))
]

Occurs-any_of : (n : Text) {ns : List Text} → Occurs n ns → any_of (same n) ns ≡ true
Occurs-any_of n (here {xs}) = rw (same_refl n)
Occurs-any_of n (there {y} {xs} o) = elim (Bool-cases (same n y)) [
  | inl e ↦ rw e
  | inr e ↦ rw e (Occurs-any_of n o)
]

or_inherited-Answers : (opt : Text) (o : Option Value) → Answers opt o (or_inherited opt o)
or_inherited-Answers opt (some v) = by_value
or_inherited-Answers opt none = elim (Bool-cases (any_of (same opt) object_members)) [
  | inl e ↦ rw e (by_object (any_of-same opt object_members e))
  | inr e ↦ rw e (by_none (λ o. let q = Occurs-any_of opt o in cc))
]

-- An option is spelled `--name`, `--name=value` or `--name value`. When every name is neither
-- empty nor `__proto__` and has no `=`, every value is not empty, an inline value has no line end,
-- and a value in a word of its own does not begin with `-`, the reader succeeds, and what
-- `options` answers to any name afterwards is the value of the last option of that name. Where
-- none has the name, that is what every object inherits under it, if it is the name of a member of
-- `Object.prototype`, and nothing if it is not.
pub read_option-parse_options :
    (ss : List Setting)
    → All IsSetting ss
    → (acc : Settings) × (parse_options (concat (map words ss)) ≡ returns acc)
      × ((opt : Text) → Answers opt (last_value opt none ss) (read_option acc opt))
unfolding option_of read_option
read_option-parse_options ss h = (
  onto [] ss,
  parse_options-words ss h,
  λ opt.
      subst (λ o. Answers opt o (or_inherited opt (option_of (onto [] ss) opt)))
        (option_of-onto opt [] ss) (or_inherited-Answers opt (option_of (onto [] ss) opt)),
)
