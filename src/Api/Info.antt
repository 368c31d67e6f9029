-- ===== src/Api/Info.antt =====
-- tools/api.ts, `Code.getAppObject` and `Code.getFunctionInfo`.
pub mod Object
pub mod Errors
pub mod Closed
use ton_sdk.Base.{
  drop, Text, Bool, true, false, Option, none, some, List, [], ◌∷◌, ◌++◌, if◌then◌else◌, codes,
  same, Outcome, returns, throws, Error, type_error, not_registered, not_an_enum, required,
  get_elem?, ◌>>=◌, split, ◌&&◌, ℕ, zero, suc,
}
use ton_sdk.Api.Types.{
  Api, ApiModule, ApiFunction, ApiType, ApiTypes, ApiField, ApiFields, types_to_list, to_list,
  field_name, field_doc, field_type, renamed, generic, ref, struct, enum_of_types, none_type, field,
  no_fields, more_fields, undocumented, Documented,
}
use ton_sdk.Api.Find.{find_type}
use ton_sdk.Api.Naming.{pascal_to_snake}

-- `ApiFunctionInfo`.
pub record FunctionInfo : Type 0 where
  pub params : Option ApiField
  pub has_response_handler : Bool
  pub app_object : Option ApiModule

-- `type.type === ApiTypeIs.Ref ? this.findType(type.ref_name) : null`.
unfoldable pub referred : Api → ApiType → Option ApiField
referred api (ref name) = find_type api name
referred api _ = none

unfoldable pub checked_enum : Text → Option ApiField → Outcome ApiFields
checked_enum label none = throws (not_registered label)
checked_enum label (some (field n d (enum_of_types variants))) = returns variants
checked_enum label (some (field n d _)) = throws (not_an_enum label)

-- `requiredRefEnum`, in `getAppObject`.
unfoldable pub required_ref_enum : Api → Option ApiType → Text → Outcome ApiFields
unfolding referred checked_enum
required_ref_enum api none label = throws type_error
required_ref_enum api (some t) label = checked_enum label (referred api t)

-- `obj.name`: what stands behind `ParamsOf` in the first reference.
unfoldable pub object_name : Option ApiType → Outcome Text
object_name none = throws type_error
object_name (some (ref name)) = do
  last ← required (get_elem? (split b'.' name) 1)
  returns (drop 8 last)
object_name (some _) = returns []

-- `resultEnum.enum_types.find(x => x.name === params.name)`.
unfoldable pub find_variant : Text → List ApiField → Option ApiField
find_variant name [] = none
find_variant name (v ∷ vs) = if same (field_name v) name then some v else find_variant name vs

-- A struct with at least one field.
unfoldable pub has_fields : ApiType → Bool
has_fields (struct (more_fields f fs)) = true
has_fields _ = false

abbrev pub is_empty_struct : ApiType → Bool
is_empty_struct (struct no_fields) = true
is_empty_struct _ = false

unfoldable pub params_type_name : Text → ApiField → Text
params_type_name obj v = codes "ParamsOf" ++ (obj ++ field_name v)

unfoldable pub result_type_name : Text → ApiField → Text
result_type_name obj v = codes "ResultOf" ++ (obj ++ field_name v)

-- What one round of the loop pushes to `obj.types`.
unfoldable pub pushed_type : Text → ApiField → List ApiField
unfolding has_fields
pushed_type name v = if has_fields (field_type v) then renamed v name ∷ [] else []

unfoldable pub variant_types : Text → ApiField → Option ApiField → List ApiField
unfolding pushed_type params_type_name result_type_name
variant_types obj params none = pushed_type (params_type_name obj params) params
variant_types obj params (some result) =
    pushed_type (params_type_name obj params) params
    ++ pushed_type (result_type_name obj params) result

unfoldable pub variant_result : Text → ApiField → Option ApiField → ApiType
unfolding result_type_name
variant_result obj params none = ref []
variant_result obj params (some r) =
    if is_empty_struct (field_type r) then none_type else ref (result_type_name obj params)

-- What one round pushes to `obj.functions`.
unfoldable pub variant_function : Text → ApiField → Option ApiField → ApiFunction
unfolding variant_result has_fields params_type_name
variant_function obj params result = record {
  name = pascal_to_snake (field_name params);
  doc = field_doc params;
  params =
      if has_fields (field_type params)
      then field (codes "params") undocumented (ref (params_type_name obj params)) ∷ []
      else [];
  result = some (variant_result obj params result);
}

-- The loop over the variants of the parameters' enum.
unfoldable pub object_types : Text → List ApiField → List ApiField → List ApiField
unfolding variant_types find_variant
object_types obj [] results = []
object_types obj (v ∷ vs) results =
    variant_types obj v (find_variant (field_name v) results) ++ object_types obj vs results

unfoldable pub object_functions : Text → List ApiField → List ApiField → List ApiFunction
unfolding variant_function find_variant
object_functions obj [] results = []
object_functions obj (v ∷ vs) results =
    variant_function obj v (find_variant (field_name v) results) ∷ object_functions obj vs results

-- `obj`, when the loop has ended.
abbrev pub object_of : Text → List ApiField → List ApiField → ApiModule
object_of name variants results = record {
  name = name;
  doc = undocumented;
  types = object_types name variants results;
  functions = object_functions name variants results;
}

unfoldable pub get_app_object : Api → List ApiType → Outcome ApiModule
unfolding required_ref_enum object_name object_types object_functions
get_app_object api args = do
  params ← required_ref_enum api (get_elem? args 0) (codes "ParamsOf")
  results ← required_ref_enum api (get_elem? args 1) (codes "ResultOf")
  name ← object_name (get_elem? args 0)
  returns (object_of name (to_list params) (to_list results))

-- The first `if` of the loop: an `Arc` of `Request` is a response handler.
unfoldable pub is_request_ref : ApiType → Bool
is_request_ref (ref name) = same name (codes "Request")
is_request_ref _ = false

unfoldable pub arc_param : ApiType → FunctionInfo → Outcome FunctionInfo
unfolding is_request_ref
arc_param (generic name args) info =
    if same name (codes "Arc")
    then (do
      arg ← required (get_elem? (types_to_list args) 0)
      returns (if is_request_ref arg then record info { has_response_handler = true } else info))
    else returns info
arc_param _ info = returns info

unfoldable pub params_param : ApiField → FunctionInfo → FunctionInfo
params_param p info =
    if same (field_name p) (codes "params") then record info { params = some p } else info

-- The second `if`: an `AppObject`, or else the parameter named `params`.
unfoldable pub object_param : Api → ApiField → ApiType → FunctionInfo → Outcome FunctionInfo
unfolding get_app_object params_param
object_param api p (generic name args) info =
    if same name (codes "AppObject")
    then (do
      obj ← get_app_object api (types_to_list args)
      returns (record info { app_object = some obj }))
    else returns (params_param p info)
object_param api p _ info = returns (params_param p info)

-- The loop of `getFunctionInfo`.
unfoldable pub info_loop : Api → List ApiField → FunctionInfo → Outcome FunctionInfo
unfolding arc_param object_param
info_loop api [] info = returns info
info_loop api (p ∷ ps) info = do
  i ← arc_param (field_type p) info
  j ← object_param api p (field_type p) i
  info_loop api ps j

unfoldable pub get_function_info : Api → ApiFunction → Outcome FunctionInfo
unfolding info_loop
get_function_info api func =
    info_loop api func.params
      (record { params = none; has_response_handler = false; app_object = none })
