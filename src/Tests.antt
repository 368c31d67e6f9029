-- ===== src/Tests.antt =====
-- Runs at concrete inputs: a part of the API of the repository, and the theorems applied to it.
pub mod Docs
pub mod Build
pub mod Script
pub mod Parallel
pub mod Generators
pub mod Brackets
use ton_sdk.Base.{
  Text, true, false, not, Option, none, some, List, [], ◌∷◌, ◌++◌, map, codes, split, All,
  get_elem?, Outcome, returns, throws, range_error, join, here, to_lower, ◌≡◌, ◌≢◌, ◌↔◌, refl,
  arith, any_of, same, is_lower,
}
use ton_sdk.Api.Types.{
  Api, ApiModule, ApiFunction, ApiField, ApiFields, ApiType, ApiTypes, Documented, undocumented,
  ref, string, optional, array, struct, enum_of_types, generic, field, no_fields, more_fields,
  no_types, more_types, field_name, field_type, none_type, to_list,
}
use ton_sdk.Api.Naming.{pascal, pascal_to_snake, underscore}
use ton_sdk.Api.Naming.RoundTrip.{pascal-split-pascal_to_snake}
use ton_sdk.Api.Find.{find_type, qualified}
use ton_sdk.Api.Find.Laws.{Declares, find_type_sound, find_type-none_iff}
use ton_sdk.Api.Parse.{parse_api}
use ton_sdk.Api.Parse.Laws.{UnwrapsApi, parse_api-UnwrapsApi}
use ton_sdk.Api.Info.{FunctionInfo, get_app_object, object_of, get_function_info}
use ton_sdk.Api.Info.Errors.{NamesEnum, get_app_object-returns_iff}
use ton_sdk.Api.Info.Object.{
  is_some, is_handler, is_app_object, is_params, IsNamedParams, get_function_info_sound,
}
use ton_sdk.Api.Info.Closed.{IsClosed, get_app_object-IsClosed}
use ton_sdk.Ts.Names.{fix_field_name, odd_name, type_name}
use ton_sdk.Ts.Names.Literal.{member_name, member_name-fix_field_name}
use ton_sdk.Ts.JsDoc.{element_js_doc}
use ton_sdk.Ts.JsDoc.Closes.{stays_open, element_js_doc_closes}
use ton_sdk.Ts.Types.{type, type_def, step}
use ton_sdk.Ts.Types.Scan.{scan, advance, char_class, is_clean, Reads, IsClean-of}
use ton_sdk.Ts.Types.Clean.{IsCleanType, IsCleanField}
use ton_sdk.Ts.Types.Union.{has_bar, type-Reads, type_def-Reads}
use ton_sdk.Docs.Marks.{func_ref, type_ref}
use ton_sdk.Docs.Types.{document}
use ton_sdk.Docs.Types.Depth.{
  Follows, FollowsIn, by_ref, by_optional, by_variant, first, later, document-Ends,
  document-ne-returns,
}
use ton_sdk.Docs.Functions.{function_heading, type_heading}
use ton_sdk.Docs.Modules.{module_page}
use ton_sdk.Docs.Modules.Links.{Contains, module_page-function, module_page-type}
use ton_sdk.Index.{docs, done, resolve_dir}
use ton_sdk.Index.Links.{AreLinked, docs-AreLinked}
use ton_sdk.Ts.AppObject.{case_label}
use ton_sdk.Ts.AppObject.Dispatch.{
  IsPascalField, notifies, has_variant, case_labels-get_app_object, notifies-get_app_object,
}

abbrev documented : Text → Documented
documented s = record { summary = some s; description = none }

abbrev string_field : Text → ApiField
string_field name = field name undocumented string

abbrev one_field : Text → ApiType
one_field name = struct (more_fields (string_field name) no_fields)

-- `crypto.ParamsOfAppSigningBox`, with a notification added.
abbrev params_variants : ApiFields
params_variants = more_fields (field (codes "GetPublicKey") undocumented (struct no_fields)) (
    more_fields (field (codes "Sign") undocumented (one_field (codes "unsigned")))
      (more_fields (field (codes "Log") undocumented (one_field (codes "msg"))) no_fields))

abbrev result_variants : ApiFields
result_variants =
    more_fields (field (codes "GetPublicKey") undocumented (one_field (codes "public_key")))
      (more_fields (field (codes "Sign") undocumented (one_field (codes "signature"))) no_fields)

abbrev params_enum : ApiField
params_enum = field (codes "ParamsOfAppSigningBox") undocumented (enum_of_types params_variants)

abbrev result_enum : ApiField
result_enum = field (codes "ResultOfAppSigningBox") undocumented (enum_of_types result_variants)

abbrev object_args : ApiTypes
object_args =
    more_types (ref (codes "crypto.ParamsOfAppSigningBox"))
      (more_types (ref (codes "crypto.ResultOfAppSigningBox")) no_types)

abbrev args : List ApiType
args = ref (codes "crypto.ParamsOfAppSigningBox") ∷ ref (codes "crypto.ResultOfAppSigningBox") ∷ []

abbrev client_result : ApiType → ApiType
client_result t = generic (codes "ClientResult") (more_types t no_types)

abbrev register_box : Option ApiType → ApiFunction
register_box t = record {
  name = codes "register_signing_box";
  doc = documented (codes "Register an application implemented signing box.");
  params =
      field (codes "context") undocumented
        (generic (codes "Arc") (more_types (ref (codes "ClientContext")) no_types))
      ∷ field (codes "app_object") undocumented (generic (codes "AppObject") object_args)
      ∷ [];
  result = t;
}

abbrev crypto : Option ApiType → ApiModule
crypto t = record {
  name = codes "crypto";
  doc = documented (codes "Crypto functions.");
  types = params_enum ∷ result_enum ∷ [];
  functions = register_box t ∷ [];
}

abbrev json : Api
json = record {
  version = codes "1.30.0";
  modules = crypto (some (client_result (ref (codes "crypto.RegisteredSigningBox")))) ∷ [];
}

abbrev api : Api
api = record {
  version = codes "1.30.0";
  modules = crypto (some (ref (codes "crypto.RegisteredSigningBox"))) ∷ [];
}

abbrev signing_box : ApiModule
signing_box = object_of (codes "AppSigningBox") (to_list params_variants) (to_list result_variants)

parsed : parse_api json ≡ returns api
unfolding parse_api same
parsed = refl

made : get_app_object api args ≡ returns signing_box
unfolding get_app_object find_type qualified same split
made = refl

params_named : NamesEnum api (some (ref (codes "crypto.ParamsOfAppSigningBox"))) params_variants
unfolding find_type qualified same
params_named = record {
  name = codes "crypto.ParamsOfAppSigningBox";
  own_name = codes "ParamsOfAppSigningBox";
  doc = undocumented;
  is_ref = refl;
  found = refl;
}

results_named : NamesEnum api (some (ref (codes "crypto.ResultOfAppSigningBox"))) result_variants
unfolding find_type qualified same
results_named = record {
  name = codes "crypto.ResultOfAppSigningBox";
  own_name = codes "ResultOfAppSigningBox";
  doc = undocumented;
  is_ref = refl;
  found = refl;
}

pascal_names : All IsPascalField (to_list params_variants)
unfolding is_lower
pascal_names = ((omega arith, refl), ((omega arith, refl), ((omega arith, refl), tt)))

case_labels-get_app_object_example :
    map case_label signing_box.functions ≡ map field_name (to_list params_variants)
case_labels-get_app_object_example =
    case_labels-get_app_object api args signing_box params_variants made params_named pascal_names

notifies-get_app_object_example :
    map notifies signing_box.functions
    ≡ map (λ v. not (has_variant (to_list result_variants) v)) (to_list params_variants)
notifies-get_app_object_example =
    notifies-get_app_object api args signing_box params_variants result_variants made params_named
      results_named

get_app_object-IsClosed_example : All (IsClosed signing_box.types) signing_box.functions
get_app_object-IsClosed_example =
    get_app_object-IsClosed api args signing_box result_variants made results_named (tt, (tt, tt))

get_app_object-returns_iff_example :
    ((obj : ApiModule) × (get_app_object api args ≡ returns obj)) ↔ (
      (ps : ApiFields) × (rs : ApiFields) × NamesEnum api (get_elem? args 0) ps
      × NamesEnum api (get_elem? args 1) rs)
get_app_object-returns_iff_example = get_app_object-returns_iff api args

pascal-split-pascal_to_snake_example :
    pascal (split underscore (pascal_to_snake (codes "GetSigningBox2"))) ≡ codes "GetSigningBox2"
unfolding is_lower
pascal-split-pascal_to_snake_example =
    pascal-split-pascal_to_snake (codes "GetSigningBox2") (omega arith) refl

find_type-none_iff_example : (find_type api (codes "crypto.Value") ≡ none) ↔ (
    (m : ApiModule) (t : ApiField)
    → Declares api.modules m t
    → codes "crypto.Value" ≢ qualified m t)
find_type-none_iff_example = find_type-none_iff api (codes "crypto.Value")

parse_api-UnwrapsApi_example : (parse_api json ≡ returns api) ↔ UnwrapsApi json api
parse_api-UnwrapsApi_example = parse_api-UnwrapsApi json api

abbrev box_info : FunctionInfo
box_info = record { params = none; has_response_handler = false; app_object = some signing_box }

box_function : ApiFunction
box_function = register_box none

informed : get_function_info api box_function ≡ returns box_info
unfolding get_function_info box_function find_type qualified same split
informed = refl

get_function_info_sound_example :
    (box_info.has_response_handler ≡ any_of (λ p. is_handler (field_type p)) box_function.params)
    × (is_some box_info.params ≡ any_of is_params box_function.params)
    × IsNamedParams box_info.params
    × (is_some box_info.app_object ≡ any_of (λ p. is_app_object (field_type p)) box_function.params)
get_function_info_sound_example = get_function_info_sound api box_function box_info informed

member_name-fix_field_name_example : member_name (fix_field_name odd_name) ≡ some odd_name
member_name-fix_field_name_example = member_name-fix_field_name odd_name (omega arith)

element_js_doc_closes_example :
    (body : Text) × (element_js_doc (documented (codes "a * b / c")) step ≡ body ++ codes "*/")
    × (stays_open false (body ++ codes "*") ≡ true)
unfolding stays_open
element_js_doc_closes_example =
    element_js_doc_closes (documented (codes "a * b / c")) step (omega arith) refl tt

-- `Vec<Option<DecodedMessageBody>>`.
abbrev item : ApiType
item = ref (codes "abi.DecodedMessageBody")

item_IsClean : IsCleanType item
unfolding is_clean char_class
item_IsClean = IsClean-of (codes "abi.DecodedMessageBody") refl

type-Reads_example : Reads (type (optional item) [] true) (has_bar (optional item))
type-Reads_example = type-Reads (optional item) [] true item_IsClean tt

abbrev item_doc : Documented
item_doc = documented (codes "Decoded bodies (a | b).")

item_doc_Reads : Reads (codes "Decoded bodies (a | b).") false
unfolding scan advance char_class
item_doc_Reads st b = ground arith

item_field_IsClean : IsCleanField (field (codes "Out") item_doc (optional item))
unfolding is_clean char_class
item_field_IsClean = (
  IsClean-of (codes "Out") refl,
  record { summary = item_doc_Reads; description = tt },
  item_IsClean,
)

out_messages : type (array (optional item)) [] false ≡ codes "DecodedMessageBody | null[]"
unfolding type split same type_name
out_messages = refl
