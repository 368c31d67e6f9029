-- ===== src/Docs/Functions.antt =====
-- tools/docs.ts, class `Docs`: the sections on functions, types and app objects. `depth` is the
-- number of references that may be followed one within another.
use ton_sdk.Base.{
  ℕ, Text, Bool, true, false, ◌||◌, Option, none, some, List, [], ◌∷◌, ◌++◌, map, concat,
  if◌then◌else◌, codes, same, Outcome, returns, required, map_all, ◌>>=◌,
}
use ton_sdk.Api.Types.{
  Api, ApiModule, ApiFunction, ApiType, ApiField, ApiFields, ref, enum_of_types, field, field_name,
  field_type, no_fields, more_fields,
}
use ton_sdk.Api.Find.{find_type}
use ton_sdk.Api.Naming.{lower_first}
use ton_sdk.Api.Info.{FunctionInfo, get_function_info}
use ton_sdk.Ts.Types.{type_def}
use ton_sdk.Ts.Constructors.{constructor_params}
use ton_sdk.Ts.Functions.{function_interface}
use ton_sdk.Ts.AppObject.{app_object_interface}
use ton_sdk.Docs.Marks.{doc_of}
use ton_sdk.Docs.Types.{doc_type, document}

-- The loop over `module.types`. Its other test, `moduleType === type`, holds of no reference: a
-- parameter or a result is not an object of that list.
unfoldable pub own_type : Text → List ApiField → Option ApiField
own_type name [] = none
own_type name (t ∷ ts) = if same (field_name t) name then some t else own_type name ts

abbrev pub or_own : Option ApiField → Option ApiField → Option ApiField
or_own (some t) own = some t
or_own none own = own

unfoldable pub resolve_ref : Api → ApiModule → ApiType → Option ApiField
unfolding own_type
resolve_ref api owner (ref name) = or_own (find_type api name) (own_type name owner.types)
resolve_ref api owner _ = none

-- A code block of the binding's language.
abbrev pub code_block : Text → Text
code_block code = codes "```ts\n" ++ (code ++ codes "\n```")

abbrev pub optional_def : Option ApiField → Text
optional_def none = []
optional_def (some t) = type_def t false ++ codes "\n"

-- `this.type(t, "")`, if there is a `t`.
unfoldable pub optional_type : Api → ℕ → Option ApiField → Outcome Text
unfolding document
optional_type api depth none = returns []
optional_type api depth (some t) = doc_type api (document api depth) (field_type t)

abbrev pub handler_line : Bool → Text
handler_line true =
    codes
      "- `responseHandler`?: _[ResponseHandler](modules.md#responsehandler)_ – additional responses handler."
handler_line false = []

abbrev pub is_there : Option ApiField → Bool
is_there none = false
is_there (some t) = true

abbrev pub resolved_params : Api → ApiModule → Option ApiField → Option ApiField
resolved_params api owner none = none
resolved_params api owner (some p) = resolve_ref api owner (field_type p)

abbrev pub function_heading : ApiFunction → Text
function_heading f = codes "## " ++ (f.name ++ codes "\n\n")

-- What stands below the heading, when its parts are there.
unfoldable pub function_body :
    ApiFunction → FunctionInfo → Option ApiField → Option ApiField → Text → Text → Text → Text
unfolding doc_of
function_body func info params result code params_text result_text =
    doc_of func.doc
    ++ (code_block (optional_def params ++ (optional_def result ++ code))
        ++ (codes "\n"
            ++ ((if is_there params || info.has_response_handler
                  then codes "### Parameters\n"
                    ++ (params_text ++ handler_line info.has_response_handler)
                  else [])
                ++ (if is_there result then codes "\n\n### Result\n\n" ++ result_text else []))))

unfoldable pub function_section : Api → ℕ → ApiModule → ApiFunction → Outcome Text
unfolding resolve_ref optional_type function_interface get_function_info function_body
function_section api depth owner func = do
  info ← get_function_info api func
  let params = resolved_params api owner info.params
  t ← required func.result
  let result = resolve_ref api owner t
  code ← function_interface api func
  params_text ← optional_type api depth params
  result_text ← optional_type api depth result
  returns
      (function_heading func ++ function_body func info params result code params_text result_text)

-- `enumVariantConstructors`; the parameters are collected as the binding's generator does.
unfoldable pub constructor_line : Text → ApiField → Text
constructor_line enum_name (field n d t) =
    codes "\nfunction "
    ++ (lower_first enum_name
        ++ (n
            ++ (codes "(" ++ (constructor_params t ++ (codes "): " ++ (enum_name ++ codes ";"))))))

unfoldable pub constructor_lines : Text → ApiFields → Text
unfolding constructor_line
constructor_lines enum_name no_fields = []
constructor_lines enum_name (more_fields v vs) =
    constructor_line enum_name v ++ constructor_lines enum_name vs

unfoldable pub enum_variant_constructors : Text → ApiFields → Text
unfolding constructor_lines
enum_variant_constructors enum_name vs =
    codes "Variant constructors:\n\n```ts" ++ (constructor_lines enum_name vs ++ codes "\n```")

abbrev pub constructors_of : Text → ApiType → Text
constructors_of n (enum_of_types vs) = codes "\n\n" ++ enum_variant_constructors n vs
constructors_of n _ = []

abbrev pub type_heading : ApiField → Text
type_heading t = codes "## " ++ (field_name t ++ codes "\n")

unfoldable pub type_body : ApiField → Text → Text
unfolding enum_variant_constructors doc_of
type_body (field n d t) text =
    doc_of d
    ++ (codes "```ts\n"
        ++ (type_def (field n d t) false ++ (codes "```\n" ++ (text ++ constructors_of n t))))

unfoldable pub type_section : Api → ℕ → ApiField → Outcome Text
unfolding document type_body
type_section api depth t = do
  text ← doc_type api (document api depth) (field_type t)
  returns (type_heading t ++ type_body t text)

unfoldable pub app_object_section : Api → ℕ → ApiModule → Outcome Text
unfolding function_section app_object_interface map_all
app_object_section api depth obj = do
  code ← app_object_interface api obj
  functions ← map_all (function_section api depth obj) obj.functions
  returns (
      codes "## "
      ++ (obj.name
          ++ (codes "\n"
              ++ (doc_of obj.doc
                  ++ (codes "\n"
                      ++ (code_block code ++ concat (map (λ s. codes "\n\n" ++ s) functions)))))))
