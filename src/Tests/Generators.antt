-- ===== src/Tests/Generators.antt =====
-- The theorems on whole runs of the generators, applied to the small APIs of the other tests.
use ton_sdk.Base.{
  ℕ, ◌+◌, ◌*◌, ◌≤◌, ◌<◌, Text, false, none, some, List, [], ◌∷◌, concat, codes, join, split, same,
  length, Occurs, returns, throws, range_error, map_all, ◌≡◌, ◌≢◌, ◌↔◌, refl, subst, arith,
  Bool-cases, inl, inr, ◌⊎◌, Occurs-cons, here, there, sym, ◌∙◌,
}
use ton_sdk.Api.Types.{
  Api, ApiModule, ApiFunction, ApiField, ApiFields, ApiType, undocumented, string, optional, struct,
  field, no_fields, more_fields, field_type,
}
use ton_sdk.Api.Naming.{pascal_to_snake}
use ton_sdk.Api.Naming.Growth.{capitals, length-pascal_to_snake}
use ton_sdk.Api.Find.{find_type, qualified}
use ton_sdk.Api.Find.Laws.{Declares, HasUniqueNames}
use ton_sdk.Api.Find.Order.{DeclaresAs, find_type-DeclaresAs, find_type-SameModules}
use ton_sdk.Api.Info.{FunctionInfo, get_function_info}
use ton_sdk.Ts.Types.{members}
use ton_sdk.Ts.Constructors.{constructor_params}
use ton_sdk.Ts.Constructors.Params.{constructor_params-struct}
use ton_sdk.Ts.Modules.{app_object_code, app_object_loop}
use ton_sdk.Ts.Modules.Ready.{Returns, IsReady}
use ton_sdk.Ts.Modules.Complete.{app_object_loop-Returns}
use ton_sdk.Docs.Types.Depth.{Follows, FollowsIn, by_ref, by_optional, by_variant, first, later}
use ton_sdk.Docs.Modules.{collect_objects}
use ton_sdk.Docs.Modules.Objects.{CoversNames, app_object_loop-collects}
use ton_sdk.Index.{docs, binding, done}
use ton_sdk.Index.Stack.{docs_ends}
use ton_sdk.Index.Whole.{WritesWhole, CanBind, binding-WritesWhole}
use ton_sdk.Tests.{api, signing_box, register_box}
use ton_sdk.Tests.Docs.{small_api, small_type, small_module, small_parsed, slash_between}

length-pascal_to_snake_example :
    (length (pascal_to_snake (codes "GetKey")) ≡ length (codes "GetKey") + capitals (codes "etKey"))
    × (length (pascal_to_snake (codes "GetKey")) + 1 ≤ 2 * length (codes "GetKey"))
length-pascal_to_snake_example = length-pascal_to_snake b'G' (codes "etKey")

abbrev two_members : ApiFields
two_members =
    more_fields (field (codes "a") undocumented (optional string))
      (more_fields (field (codes "b-c") undocumented string) no_fields)

constructor_params-struct_example :
    constructor_params (struct two_members) ≡ join (codes ", ") (members two_members [] false)
constructor_params-struct_example = constructor_params-struct two_members

abbrev once_documented : ApiField → ℕ
once_documented (field n d (struct fs)) = 0
once_documented (field n d _) = 1

some_field : {f g : ApiField} → some f ≡ some g → f ≡ g
some_field h = cc

found_once :
    (name : Text) (g : ApiField) → find_type small_api name ≡ some g → once_documented g ≡ 0
unfolding find_type qualified
found_once name g h = elim (Bool-cases (same name (codes "box.Handle"))) [
  | inl e ↦
      let q : small_type ≡ g = some_field (rw e at h) in subst (λ x. once_documented x ≡ 0) q refl
  | inr e ↦ let q = rw e at h in cc
]

mutual
  Follows-once : (g : ApiField) (t : ApiType) → Follows small_api g t → once_documented g ≡ 0
  Follows-once g t (by_ref {name} e) = found_once name g e
  Follows-once g t (by_optional {t = u} p) = Follows-once g u p
  Follows-once g t (by_variant {vs} p) = FollowsIn-once g vs p

  FollowsIn-once :
      (g : ApiField) (vs : ApiFields) → FollowsIn small_api g vs → once_documented g ≡ 0
  FollowsIn-once g vs (first {t} p) = Follows-once g t p
  FollowsIn-once g vs (later {vs = ws} p) = FollowsIn-once g ws p

leads_once :
    (f g : ApiField) → Follows small_api g (field_type f) → once_documented g < once_documented f
leads_once (field n d t) g (by_ref {name} e) = let q = found_once name g e in omega arith
leads_once (field n d t) g (by_optional {t = u} p) = let q = Follows-once g u p in omega arith
leads_once (field n d t) g (by_variant {vs} p) = let q = FollowsIn-once g vs p in omega arith

docs_ends_example :
    (docs (codes "/home/u") slash_between small_api 1 (codes "out")).ending ≢ throws range_error
docs_ends_example =
    docs_ends (codes "/home/u") slash_between small_api small_api 1 (codes "out") once_documented
      small_parsed leads_once (λ t g p. let q = Follows-once g t p in omega arith)

abbrev registering : List ApiFunction
registering = register_box (some string) ∷ register_box (some string) ∷ []

abbrev registered_info : FunctionInfo
registered_info = record {
  params = none;
  has_response_handler = false;
  app_object = some signing_box;
}

registered-IsReady : IsReady api (register_box (some string))
unfolding get_function_info find_type qualified same split
registered-IsReady = ((registered_info, refl), string, refl)

objects_made : Returns (app_object_loop api registering ([], []))
objects_made =
    app_object_loop-Returns api registering ([], []) (registered-IsReady, (registered-IsReady, tt))

app_object_loop-collects_example :
    (os : List ApiModule) × (cs : List Text) × (collect_objects api registering [] ≡ returns os)
    × (map_all (app_object_code api) os ≡ returns cs)
    × (objects_made.0.1 ≡ concat cs)
    × CoversNames api registering os
app_object_loop-collects_example =
    app_object_loop-collects api registering objects_made.0 objects_made.1

-- A second module, to stand behind the first or before it.
abbrev other_type : ApiField
other_type = field (codes "Key") undocumented string

abbrev other_module : ApiModule
other_module = record {
  name = codes "key";
  doc = undocumented;
  types = other_type ∷ [];
  functions = [];
}

abbrev pair_api : Api
pair_api = record { version = codes "1"; modules = small_module ∷ other_module ∷ [] }

abbrev swapped_api : Api
swapped_api = record { version = codes "1"; modules = other_module ∷ small_module ∷ [] }

only {ℓ} : {A : Type ℓ} {x y : A} → Occurs x (y ∷ []) → x ≡ y
only o = elim (Occurs-cons o) [ inl e ↦ e | inr k ↦ elim k [ ] ]

pair_cases :
    (m : ApiModule) (t : ApiField)
    → Declares pair_api.modules m t
    → ((m ≡ small_module) × (t ≡ small_type)) ⊎ ((m ≡ other_module) × (t ≡ other_type))
pair_cases m t d = elim (Occurs-cons d.in_modules) [
  | inl e ↦ inl (e, only (subst (λ (n : ApiModule). Occurs t n.types) e d.in_types))
  | inr o ↦ inr (only o, only (subst (λ (n : ApiModule). Occurs t n.types) (only o) d.in_types))
]

pair_distinct : qualified small_module small_type ≢ qualified other_module other_type
unfolding qualified
pair_distinct = λ q. cc

qualified_both : {m n : ApiModule} {t u : ApiField} → m ≡ n → t ≡ u → qualified m t ≡ qualified n u
qualified_both e q = cc

pair-HasUniqueNames : HasUniqueNames pair_api
pair-HasUniqueNames m n t u d c q = elim (pair_cases m t d) [
  | inl a ↦ elim (pair_cases n u c) [
    | inl b ↦ a.1 ∙ sym b.1
    | inr b ↦ absurd (pair_distinct (sym (qualified_both a.0 a.1) ∙ (q ∙ qualified_both b.0 b.1)))
  ]
  | inr a ↦ elim (pair_cases n u c) [
    | inl b ↦
        absurd (pair_distinct (sym (qualified_both b.0 b.1) ∙ (sym q ∙ qualified_both a.0 a.1)))
    | inr b ↦ a.1 ∙ sym b.1
  ]
]

find_type-DeclaresAs_example :
    (find_type pair_api (codes "key.Key") ≡ some other_type)
    ↔ DeclaresAs pair_api (codes "key.Key") other_type
find_type-DeclaresAs_example =
    find_type-DeclaresAs pair_api (codes "key.Key") other_type pair-HasUniqueNames

swap_ends : (m x y : ApiModule) → Occurs m (x ∷ y ∷ []) → Occurs m (y ∷ x ∷ [])
swap_ends m x y o = elim (Occurs-cons o) [
  | inl e ↦ there (subst (λ n. Occurs n (x ∷ [])) (sym e) here)
  | inr k ↦ subst (λ n. Occurs n (y ∷ x ∷ [])) (sym (only k)) here
]

find_type-SameModules_example :
    find_type swapped_api (codes "box.Handle") ≡ find_type pair_api (codes "box.Handle")
find_type-SameModules_example =
    find_type-SameModules pair_api swapped_api (codes "box.Handle") pair-HasUniqueNames
      (λ m. (swap_ends m small_module other_module, swap_ends m other_module small_module))

binding-WritesWhole_example :
    WritesWhole
      (codes "/home/u")
      slash_between
      (codes "out")
      api
      (binding (codes "/home/u") slash_between api (codes "ts") (codes "out"))
    × (((binding (codes "/home/u") slash_between api (codes "ts") (codes "out")).ending
          ≡ returns done)
        ↔ ((codes "ts" ≡ codes "ts") × CanBind api))
binding-WritesWhole_example =
    binding-WritesWhole (codes "/home/u") slash_between (codes "out") api (codes "ts")
