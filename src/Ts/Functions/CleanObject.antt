-- ===== src/Ts/Functions/CleanObject.antt =====
-- The app objects of an API with clean names have clean names.
use ton_sdk.Base.{
  Text, Bool, true, false, Option, none, some, List, [], ◌∷◌, if◌then◌else◌, codes, split,
  get_elem?, ◌≡◌, refl, ap, sym, ◌∙◌, subst, All, All-append, returns, returns-injective, required,
  >>=-eq-returns, same, Bool-cases, inl, inr,
}
use ton_sdk.Api.Types.{
  Api, ApiModule, ApiField, ApiFields, ApiType, field, field_name, field_type, ref, to_list,
  undocumented,
}
use ton_sdk.Api.Info.{
  get_app_object, required_ref_enum, object_name, object_types, object_functions, variant_types,
  variant_function, variant_result, pushed_type, find_variant, has_fields, is_empty_struct,
  params_type_name, result_type_name,
}
use ton_sdk.Api.Info.Errors.{NamesEnum, NamesEnum-required, params_label, result_label}
use ton_sdk.Ts.Types.Scan.{char_class, is_clean, IsClean, IsClean-of, IsClean-split}
use ton_sdk.Ts.Types.Clean.{IsCleanType, IsCleanField, IsClean-append}
use ton_sdk.Ts.Functions.Balance.{IsCleanFunction, IsCleanModule}
use ton_sdk.Ts.Functions.CleanNames.{
  IsCleanField-name, IsCleanField-doc, IsCleanField-renamed, IsClean-drop, IsClean-get_elem,
  IsClean-pascal_to_snake, IsClean-find_type, AreClean-to_list, undocumented-IsClean,
}

-- What an argument that names an enum tells of its own name and of the variants.
IsClean-NamesEnum :
    (api : Api) (arg : Option ApiType) (vs : ApiFields)
    → All IsCleanModule api.modules
    → (n : NamesEnum api arg vs) → IsClean n.name × All IsCleanField (to_list vs)
IsClean-NamesEnum api arg vs h n =
    let (k, c) = IsClean-find_type api n.name _ h n.found in (k, AreClean-to_list vs c.2)

IsClean-required :
    (o : Option Text) (s : Text)
    → ((w : Text) → o ≡ some w → IsClean w)
    → required o ≡ returns s
    → IsClean s
IsClean-required none s h e = cc
IsClean-required (some w) s h e = subst IsClean (returns-injective e) (h w refl)

IsClean-object_name :
    (name s : Text) → IsClean name → object_name (some (ref name)) ≡ returns s → IsClean s
unfolding object_name
IsClean-object_name name s h e =
    let (last, e₁, e₂) = >>=-eq-returns (required (get_elem? (split b'.' name) 1)) _ e in
    subst IsClean (returns-injective e₂) (
      IsClean-drop 8 last (
        IsClean-required (get_elem? (split b'.' name) 1) last
          (λ w q. IsClean-get_elem (split b'.' name) 1 q (IsClean-split b'.' name h)) e₁))

IsClean-params_type_name :
    (obj : Text) (v : ApiField) → IsClean obj → IsCleanField v → IsClean (params_type_name obj v)
unfolding params_type_name is_clean char_class
IsClean-params_type_name obj v h k =
    IsClean-append (codes "ParamsOf") _ (IsClean-of (codes "ParamsOf") refl)
      (IsClean-append obj (field_name v) h (IsCleanField-name v k))

IsClean-result_type_name :
    (obj : Text) (v : ApiField) → IsClean obj → IsCleanField v → IsClean (result_type_name obj v)
unfolding result_type_name is_clean char_class
IsClean-result_type_name obj v h k =
    IsClean-append (codes "ResultOf") _ (IsClean-of (codes "ResultOf") refl)
      (IsClean-append obj (field_name v) h (IsCleanField-name v k))

AreClean-pushed_type :
    (name : Text) (v : ApiField)
    → IsClean name
    → IsCleanField v
    → All IsCleanField (pushed_type name v)
unfolding pushed_type
AreClean-pushed_type name v h k = elim (Bool-cases (has_fields (field_type v))) [
  | inl e ↦ rw e (IsCleanField-renamed v name h k, tt)
  | inr e ↦ rw e tt
]

abbrev IsCleanVariant : Option ApiField → Type 0
IsCleanVariant none = Unit
IsCleanVariant (some v) = IsCleanField v

IsClean-find_variant :
    (name : Text) (vs : List ApiField) → All IsCleanField vs → IsCleanVariant (find_variant name vs)
unfolding find_variant
IsClean-find_variant name [] h = tt
IsClean-find_variant name (v ∷ vs) h = elim (Bool-cases (same (field_name v) name)) [
  | inl e ↦ rw e h.0
  | inr e ↦ rw e (IsClean-find_variant name vs h.1)
]

AreClean-variant_types :
    (obj : Text) (v : ApiField) (r : Option ApiField)
    → IsClean obj
    → IsCleanField v
    → IsCleanVariant r
    → All IsCleanField (variant_types obj v r)
unfolding variant_types
AreClean-variant_types obj v none h k l =
    AreClean-pushed_type (params_type_name obj v) v (IsClean-params_type_name obj v h k) k
AreClean-variant_types obj v (some r) h k l =
    All-append IsCleanField (pushed_type (params_type_name obj v) v) _
      (AreClean-pushed_type (params_type_name obj v) v (IsClean-params_type_name obj v h k) k)
      (AreClean-pushed_type (result_type_name obj v) r (IsClean-result_type_name obj v h k) l)

IsCleanType-variant_result :
    (obj : Text) (v : ApiField) (r : Option ApiField)
    → IsClean obj
    → IsCleanField v
    → IsCleanType (variant_result obj v r)
unfolding variant_result
IsCleanType-variant_result obj v none h k = tt
IsCleanType-variant_result obj v (some r) h k = elim (Bool-cases (is_empty_struct (field_type r))) [
  | inl e ↦ rw e tt
  | inr e ↦ rw e (IsClean-result_type_name obj v h k)
]

AreClean-variant_params :
    (obj : Text) (v : ApiField) (b : Bool)
    → IsClean obj
    → IsCleanField v
    → All IsCleanField
        (if b then field (codes "params") undocumented (ref (params_type_name obj v)) ∷ [] else [])
unfolding is_clean char_class
AreClean-variant_params obj v true h k = (
  (IsClean-of (codes "params") refl, undocumented-IsClean, IsClean-params_type_name obj v h k),
  tt,
)
AreClean-variant_params obj v false h k = tt

IsClean-variant_function :
    (obj : Text) (v : ApiField) (r : Option ApiField)
    → IsClean obj
    → IsCleanField v
    → IsCleanFunction (variant_function obj v r)
unfolding variant_function
IsClean-variant_function obj v r h k = record {
  name = IsClean-pascal_to_snake (field_name v) (IsCleanField-name v k);
  doc = IsCleanField-doc v k;
  params = AreClean-variant_params obj v (has_fields (field_type v)) h k;
  result = IsCleanType-variant_result obj v r h k;
}

AreClean-object_types :
    (obj : Text) (vs rs : List ApiField)
    → IsClean obj
    → All IsCleanField vs
    → All IsCleanField rs
    → All IsCleanField (object_types obj vs rs)
unfolding object_types
AreClean-object_types obj [] rs h k l = tt
AreClean-object_types obj (v ∷ vs) rs h k l =
    All-append IsCleanField (variant_types obj v (find_variant (field_name v) rs)) _
      (AreClean-variant_types obj v _ h k.0 (IsClean-find_variant (field_name v) rs l))
      (AreClean-object_types obj vs rs h k.1 l)

AreClean-object_functions :
    (obj : Text) (vs rs : List ApiField)
    → IsClean obj
    → All IsCleanField vs
    → All IsCleanFunction (object_functions obj vs rs)
unfolding object_functions
AreClean-object_functions obj [] rs h k = tt
AreClean-object_functions obj (v ∷ vs) rs h k = (
  IsClean-variant_function obj v (find_variant (field_name v) rs) h k.0,
  AreClean-object_functions obj vs rs h k.1,
)

pub IsClean-get_app_object :
    (api : Api) (args : List ApiType) (obj : ApiModule)
    → All IsCleanModule api.modules
    → get_app_object api args ≡ returns obj
    → IsCleanModule obj
unfolding get_app_object
IsClean-get_app_object api args obj h e =
    let (ps, hp, h₁) = >>=-eq-returns (required_ref_enum api (get_elem? args 0) params_label) _ e in
    let (rs, hr, h₂) =
      >>=-eq-returns (required_ref_enum api (get_elem? args 1) result_label) _ h₁ in
    let (name, hn, h₃) = >>=-eq-returns (object_name (get_elem? args 0)) _ h₂ in
    let np = NamesEnum-required api (get_elem? args 0) params_label ps hp in
    let nr = NamesEnum-required api (get_elem? args 1) result_label rs hr in
    let (k, cp) = IsClean-NamesEnum api (get_elem? args 0) ps h np in
    let (_, cr) = IsClean-NamesEnum api (get_elem? args 1) rs h nr in
    let own = IsClean-object_name np.name name k (ap object_name (sym np.is_ref) ∙ hn) in
    subst IsCleanModule (returns-injective h₃) (record {
      name = own;
      doc = undocumented-IsClean;
      types = AreClean-object_types name (to_list ps) (to_list rs) own cp cr;
      functions = AreClean-object_functions name (to_list ps) (to_list rs) own cp;
    })
