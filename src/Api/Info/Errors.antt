-- ===== src/Api/Info/Errors.antt =====
-- When `getAppObject` throws.
use ton_sdk.Base.{
  drop, Text, Option, none, some, List, codes, returns, get_elem?, ◌≡◌, ◌↔◌, refl, split_second,
  >>=-eq-returns, subst, ap,
}
use ton_sdk.Api.Types.{
  Api, ApiModule, ApiField, ApiFields, ApiType, Documented, ref, field, enum_of_types, to_list,
}
use ton_sdk.Api.Find.{find_type, qualified}
use ton_sdk.Api.Find.Laws.{find_type_sound}
use ton_sdk.Api.Info.{checked_enum, required_ref_enum, object_of, get_app_object, object_name}

abbrev pub params_label : Text
params_label = codes "ParamsOf"

abbrev pub result_label : Text
result_label = codes "ResultOf"

-- A type argument that is a reference to an enum of types of the API, with those variants.
pub record NamesEnum (api : Api) (arg : Option ApiType) (variants : ApiFields) : Type 0 where
  pub name : Text
  pub own_name : Text
  pub doc : Documented
  pub is_ref : arg ≡ some (ref name)
  pub found : find_type api name ≡ some (field own_name doc (enum_of_types variants))

-- The variants are determined by the argument.
pub NamesEnum-unique :
    (api : Api) (arg : Option ApiType) (vs ws : ApiFields)
    → NamesEnum api arg vs
    → NamesEnum api arg ws
    → vs ≡ ws
NamesEnum-unique api arg vs ws n m = cc (n.is_ref, m.is_ref, n.found, m.found)

checked_enum_sound :
    (label : Text) (o : Option ApiField) (vs : ApiFields)
    → checked_enum label o ≡ returns vs
    → (n : Text) × (d : Documented) × (o ≡ some (field n d (enum_of_types vs)))
unfolding checked_enum
checked_enum_sound label none vs h = cc
checked_enum_sound label (some (field n d (enum_of_types ws))) vs h = (n, d, cc)
checked_enum_sound label (some (field n d t)) vs h = cc

pub NamesEnum-required :
    (api : Api) (arg : Option ApiType) (label : Text) (vs : ApiFields)
    → required_ref_enum api arg label ≡ returns vs
    → NamesEnum api arg vs
unfolding required_ref_enum
NamesEnum-required api none label vs h = cc
NamesEnum-required api (some (ref name)) label vs h =
    let (n, d, e) = checked_enum_sound label (find_type api name) vs h in
    record { name = name; own_name = n; doc = d; is_ref = refl; found = e }
NamesEnum-required api (some t) label vs h = cc

required-NamesEnum :
    (api : Api) (arg : Option ApiType) (label : Text) (vs : ApiFields)
    → NamesEnum api arg vs
    → required_ref_enum api arg label ≡ returns vs
unfolding required_ref_enum
required-NamesEnum api arg label vs n = rw n.is_ref (ap (checked_enum label) n.found)

-- The name of a type that the API has holds a dot, so `split('.')[1]` is there.
object_name-NamesEnum :
    (api : Api) (arg : Option ApiType) (vs : ApiFields)
    → NamesEnum api arg vs
    → (s : Text) × (object_name arg ≡ returns s)
unfolding object_name qualified
object_name-NamesEnum api arg vs n =
    let (m, d, q) = find_type_sound api n.name _ n.found in
    let (p, e) = split_second b'.' m.name n.own_name in (drop 8 p, rw (n.is_ref, q, e))

-- The parts that an app object was made of.
pub get_app_object_sound :
    (api : Api) (args : List ApiType) (obj : ApiModule)
    → get_app_object api args ≡ returns obj
    → (ps rs : ApiFields) × NamesEnum api (get_elem? args 0) ps
      × NamesEnum api (get_elem? args 1) rs
      × (obj ≡ object_of obj.name (to_list ps) (to_list rs))
unfolding get_app_object
get_app_object_sound api args obj h =
    let (ps, hp, h₁) = >>=-eq-returns (required_ref_enum api (get_elem? args 0) params_label) _ h in
    let (rs, hr, h₂) =
      >>=-eq-returns (required_ref_enum api (get_elem? args 1) result_label) _ h₁ in
    let (name, _, h₃) = >>=-eq-returns (object_name (get_elem? args 0)) _ h₂ in
    let same : object_of name (to_list ps) (to_list rs) ≡ obj = cc in
    (
      ps,
      rs,
      NamesEnum-required api _ _ ps hp,
      NamesEnum-required api _ _ rs hr,
      subst (λ o. o ≡ object_of o.name (to_list ps) (to_list rs)) same refl,
    )

-- An app object is made exactly when the first two type arguments refer to enums of types that
-- the API declares. In particular the member of `undefined` that the source might read at
-- `split('.')[1]` is never read.
pub get_app_object-returns_iff :
    (api : Api) (args : List ApiType)
    → ((obj : ApiModule) × (get_app_object api args ≡ returns obj)) ↔ (
        (ps : ApiFields) × (rs : ApiFields) × NamesEnum api (get_elem? args 0) ps
        × NamesEnum api (get_elem? args 1) rs)
get_app_object-returns_iff api args = (
  λ (obj, h). let (ps, rs, np, nr, _) = get_app_object_sound api args obj h in (ps, rs, np, nr),
  λ (ps, rs, np, nr).
      let (name, e) = object_name-NamesEnum api (get_elem? args 0) ps np in
      (
        object_of name (to_list ps) (to_list rs),
        unfold get_app_object in
            rw (
              required-NamesEnum api (get_elem? args 0) params_label ps np,
              required-NamesEnum api (get_elem? args 1) result_label rs nr,
              e,
            ),
      ),
)
