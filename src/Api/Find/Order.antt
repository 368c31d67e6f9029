-- ===== src/Api/Find/Order.antt =====
-- `findType` as a finite map from qualified names, which forgets the order of the declarations.
use ton_sdk.Base.{Text, some, Occurs, Option-cases, inl, inr, ◌≡◌, ◌↔◌, sym, ◌∙◌, ap}
use ton_sdk.Api.Types.{Api, ApiModule, ApiField}
use ton_sdk.Api.Find.{find_type, qualified}
use ton_sdk.Api.Find.Laws.{
  Declares, HasUniqueNames, find_type_sound, find_type-none_iff, find_type-qualified,
}

-- The type that the API declares under a qualified name.
abbrev pub DeclaresAs : Api → Text → ApiField → Type 0
DeclaresAs api name t = (m : ApiModule) × Declares api.modules m t × (name ≡ qualified m t)

-- Where no two types share a qualified name, `findType` is the finite map of the declarations: it
-- finds a type under a name exactly when a module of the API declares it under that name.
pub find_type-DeclaresAs :
    (api : Api) (name : Text) (t : ApiField)
    → HasUniqueNames api
    → (find_type api name ≡ some t) ↔ DeclaresAs api name t
find_type-DeclaresAs api name t unique = (
  λ h. find_type_sound api name t h,
  λ (m, d, e). ap (find_type api) e ∙ find_type-qualified api m t unique d,
)

-- The same modules, in any order and as often as one likes.
abbrev pub SameModules : Api → Api → Type 0
SameModules api other = (m : ApiModule) → Occurs m api.modules ↔ Occurs m other.modules

Declares-other :
    (api other : Api) {m : ApiModule} {t : ApiField}
    → SameModules api other
    → Declares api.modules m t
    → Declares other.modules m t
Declares-other api other {m} s d = record {
  in_modules = (s m).0 d.in_modules;
  in_types = d.in_types;
}

-- Where no two types share a qualified name, the order of the modules of the API makes no
-- difference to what `findType` finds.
pub find_type-SameModules :
    (api other : Api) (name : Text)
    → HasUniqueNames api
    → SameModules api other
    → find_type other name ≡ find_type api name
find_type-SameModules api other name unique s = elim (Option-cases (find_type other name)) [
  | inl e ↦
      e
      ∙ sym (
          (find_type-none_iff api name).1
            (λ m t d. (find_type-none_iff other name).0 e m t (Declares-other api other s d)))
  | inr (t, e) ↦
      let (m, d, q) = find_type_sound other name t e in
      let back = Declares-other other api (λ n. ((s n).1, (s n).0)) d in
      e ∙ sym ((find_type-DeclaresAs api name t unique).1 (m, back, q))
]
