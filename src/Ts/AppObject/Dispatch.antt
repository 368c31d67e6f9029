-- ===== src/Ts/AppObject/Dispatch.antt =====
-- Requests reach the right method of an app object.
use ton_sdk.Base.{
  Text, Bool, false, Option, none, some, List, [], ◌∷◌, map, ◌≡◌, refl, All, Lacks, subst, sym,
  get_elem?, returns, arith, not, any_of, same,
}
use ton_sdk.Api.Types.{
  Api, ApiModule, ApiFunction, ApiField, ApiFields, ApiType, field_name, to_list,
}
use ton_sdk.Api.Naming.{underscore}
use ton_sdk.Api.Naming.RoundTrip.{StartsNoLower, pascal-split-pascal_to_snake}
use ton_sdk.Api.Info.{object_functions, variant_function, find_variant, get_app_object}
use ton_sdk.Api.Info.Object.{is_some}
use ton_sdk.Api.Info.Errors.{NamesEnum, NamesEnum-unique, get_app_object_sound}
use ton_sdk.Ts.AppObject.{case_label, is_notify}

-- A variant's name as Rust writes it: it starts with no lower-case letter and has no underscore.
abbrev pub IsPascal : Text → Type 0
IsPascal name = Lacks underscore name × StartsNoLower name

abbrev pub IsPascalField : ApiField → Type 0
IsPascalField v = IsPascal (field_name v)

case_labels-object_functions :
    (obj : Text) (vs rs : List ApiField)
    → All IsPascalField vs
    → map case_label (object_functions obj vs rs) ≡ map field_name vs
unfolding object_functions variant_function case_label
case_labels-object_functions obj [] rs h = refl
case_labels-object_functions obj (v ∷ vs) rs h = rw (
  pascal-split-pascal_to_snake (field_name v) h.0.0 h.0.1,
  case_labels-object_functions obj vs rs h.1,
)

-- With the case mappings of ASCII, the cases of the generated `switch (params.type)` are the names
-- of the variants of the parameters' enum, in their order, where these names are in Pascal case:
-- each request is dispatched by the `type` that its variant has.
pub case_labels-get_app_object :
    (api : Api) (args : List ApiType) (obj : ApiModule) (ps : ApiFields)
    → get_app_object api args ≡ returns obj
    → NamesEnum api (get_elem? args 0) ps
    → All IsPascalField (to_list ps)
    → map case_label obj.functions ≡ map field_name (to_list ps)
case_labels-get_app_object api args obj ps h n pascal_names =
    let (ps', rs, np, nr, e) = get_app_object_sound api args obj h in
    let q : ps' ≡ ps = NamesEnum-unique api _ ps' ps np n in
    subst (λ o. map case_label o.functions ≡ map field_name (to_list ps)) (sym e)
      (rw q (case_labels-object_functions obj.name (to_list ps) (to_list rs) pascal_names))

abbrev pub notifies : ApiFunction → Bool
notifies f = elim f.result [ none ↦ false | some t ↦ is_notify t ]

abbrev pub has_variant : List ApiField → ApiField → Bool
has_variant rs v = any_of (λ r. same (field_name r) (field_name v)) rs

notifies-variant_function :
    (obj : Text) (v : ApiField) (r : Option ApiField)
    → notifies (variant_function obj v r) ≡ not (is_some r)
unfolding is_notify variant_function
notifies-variant_function obj v none = refl
notifies-variant_function obj v (some r) = ground arith

is_some-find_variant :
    (v : ApiField) (rs : List ApiField)
    → is_some (find_variant (field_name v) rs) ≡ has_variant rs v
unfolding find_variant
is_some-find_variant v [] = refl
is_some-find_variant v (r ∷ rs) = ground (arith, is_some-find_variant v rs)

notifies-object_functions :
    (obj : Text) (vs rs : List ApiField)
    → map notifies (object_functions obj vs rs) ≡ map (λ v. not (has_variant rs v)) vs
unfolding object_functions
notifies-object_functions obj [] rs = refl
notifies-object_functions obj (v ∷ vs) rs = rw (
  notifies-variant_function obj v (find_variant (field_name v) rs),
  is_some-find_variant v rs,
  notifies-object_functions obj vs rs,
)

-- A method of an app object is generated as a notification, which returns nothing and sets no
-- result, exactly when the results' enum has no variant of the name of the method's variant.
pub notifies-get_app_object :
    (api : Api) (args : List ApiType) (obj : ApiModule) (ps rs : ApiFields)
    → get_app_object api args ≡ returns obj
    → NamesEnum api (get_elem? args 0) ps
    → NamesEnum api (get_elem? args 1) rs
    → map notifies obj.functions ≡ map (λ v. not (has_variant (to_list rs) v)) (to_list ps)
notifies-get_app_object api args obj ps rs h np nr =
    let (ps', rs', np', nr', e) = get_app_object_sound api args obj h in
    let p : ps' ≡ ps = NamesEnum-unique api _ ps' ps np' np in
    let r : rs' ≡ rs = NamesEnum-unique api _ rs' rs nr' nr in
    subst (λ o. map notifies o.functions ≡ map (λ v. not (has_variant (to_list rs) v)) (to_list ps))
      (sym e) (rw (p, r, notifies-object_functions obj.name (to_list ps) (to_list rs)))
