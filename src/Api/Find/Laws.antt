-- ===== src/Api/Find/Laws.antt =====
-- What `findType` finds.
use ton_sdk.Base.{
  Text, none, some, List, [], ◌∷◌, same, same_iff, Occurs, here, there, ◌≡◌, ◌≢◌, inl, inr,
  Bool-cases, arith, Option-cases, refl, sym, same_refl, ◌↔◌, ap, ◌∙◌,
}
use ton_sdk.Api.Types.{Api, ApiModule, ApiField}
use ton_sdk.Api.Find.{qualified, find_in, find_in_modules, find_type}

-- The type `t` stands in the module `owner` of the list.
pub record Declares (ms : List ApiModule) (owner : ApiModule) (t : ApiField) : Type 0 where
  pub in_modules : Occurs owner ms
  pub in_types : Occurs t owner.types

find_in_sound :
    (m : ApiModule) (ts : List ApiField) (name : Text) (t : ApiField)
    → find_in m ts name ≡ some t
    → Occurs t ts × (name ≡ qualified m t)
unfolding find_in
find_in_sound m [] name t h = cc
find_in_sound m (u ∷ ts) name t h = elim (Bool-cases (same name (qualified m u))) [
  | inl e ↦ let hit : u ≡ t = ground arith in rw (← hit) (here, (same_iff name (qualified m u)).0 e)
  | inr e ↦ let (o, q) = find_in_sound m ts name t (rw e at h) in (there o, q)
]

find_in_complete :
    (m : ApiModule) {t : ApiField} {ts : List ApiField}
    → Occurs t ts
    → find_in m ts (qualified m t) ≢ none
unfolding find_in
find_in_complete m {t} here = rw (same_refl (qualified m t)) (λ e. cc)
find_in_complete m {t} (there {y} {xs} o) = ground (arith, find_in_complete m o)

find_in_modules_sound :
    (ms : List ApiModule) (name : Text) (t : ApiField)
    → find_in_modules ms name ≡ some t
    → (m : ApiModule) × Declares ms m t × (name ≡ qualified m t)
unfolding find_in_modules
find_in_modules_sound [] name t h = cc
find_in_modules_sound (m ∷ ms) name t h = elim (Option-cases (find_in m m.types name)) [
  | inl e ↦
      let (m', d, q) = find_in_modules_sound ms name t (rw e at h) in
      (m', record { in_modules = there d.in_modules; in_types = d.in_types }, q)
  | inr (u, e) ↦
      let hit : find_in m m.types name ≡ some t = ground arith in
      let (o, q) = find_in_sound m m.types name t hit in
      (m, record { in_modules = here; in_types = o }, q)
]

find_in_modules_complete :
    (t : ApiField) {m : ApiModule} {ms : List ApiModule}
    → Occurs m ms
    → Occurs t m.types
    → find_in_modules ms (qualified m t) ≢ none
unfolding find_in_modules
find_in_modules_complete t {m} (here {xs}) o = ground (arith, find_in_complete m o)
find_in_modules_complete t (there w) o = ground (arith, find_in_modules_complete t w o)

-- What is found is declared by a module of the API, and its qualified name is the one asked for.
pub find_type_sound :
    (api : Api) (name : Text) (t : ApiField)
    → find_type api name ≡ some t
    → (m : ApiModule) × Declares api.modules m t × (name ≡ qualified m t)
unfolding find_type
find_type_sound api name t h = find_in_modules_sound api.modules name t h

-- Nothing is found exactly when no module of the API declares a type of that qualified name.
pub find_type-none_iff :
    (api : Api) (name : Text)
    → (find_type api name ≡ none)
      ↔ ((m : ApiModule) (t : ApiField) → Declares api.modules m t → name ≢ qualified m t)
unfolding find_type
find_type-none_iff api name = (
  λ h m t d e. find_in_modules_complete t d.in_modules d.in_types (rw e at h),
  λ h. elim (Option-cases (find_in_modules api.modules name)) [
    | inl e ↦ e
    | inr (t, e) ↦ let (m, d, q) = find_in_modules_sound api.modules name t e in absurd (h m t d q)
  ],
)

-- No two declarations of the API have one qualified name.
abbrev pub HasUniqueNames : Api → Type 0
HasUniqueNames api =
    (m n : ApiModule) (t u : ApiField)
    → Declares api.modules m t
    → Declares api.modules n u
    → qualified m t ≡ qualified n u
    → t ≡ u

-- Where no two types share a qualified name, each declared type is found by its own.
pub find_type-qualified :
    (api : Api) (m : ApiModule) (t : ApiField)
    → HasUniqueNames api
    → Declares api.modules m t
    → find_type api (qualified m t) ≡ some t
find_type-qualified api m t unique d = elim (Option-cases (find_type api (qualified m t))) [
  | inl e ↦ absurd ((find_type-none_iff api (qualified m t)).0 e m t d refl)
  | inr (u, e) ↦
      let (n, d', q) = find_type_sound api (qualified m t) u e in
      e ∙ ap some (sym (unique m n t u d d' q))
]
