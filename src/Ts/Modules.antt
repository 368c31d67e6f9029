-- ===== src/Ts/Modules.antt =====
-- tools/ts-code.ts: a module of the binding, and the whole binding.
pub mod Ready
pub mod Balance
pub mod Complete
use ton_sdk.Base.{
  Text, true, Option, none, some, List, [], ◌∷◌, ◌++◌, map, concat, if◌then◌else◌, codes, same,
  any_of, Outcome, returns, map_all, ◌>>=◌,
}
use ton_sdk.Api.Types.{
  Api, ApiModule, ApiFunction, ApiField, enum_of_types, field, field_name, field_type,
}
use ton_sdk.Api.Naming.{upper_first}
use ton_sdk.Api.Info.{get_function_info}
use ton_sdk.Ts.Names.{ref_name_of, get_ref_name}
use ton_sdk.Ts.JsDoc.{js_doc, js_doc_start, js_doc_end, element_js_doc}
use ton_sdk.Ts.Types.{step, type_def}
use ton_sdk.Ts.Constructors.{type_variant_constructors}
use ton_sdk.Ts.Functions.{function_impl}
use ton_sdk.Ts.AppObject.{app_object_interface, app_object_dispatch_impl}

-- One round of the loop over the types.
unfoldable pub exported_type : ApiField → Text
unfolding type_def type_variant_constructors
exported_type (field n d (enum_of_types vs)) =
    codes "\nexport "
    ++ (type_def (field n d (enum_of_types vs)) true ++ type_variant_constructors n vs)
exported_type t = codes "\nexport " ++ type_def t true

unfoldable pub app_object_code : Api → ApiModule → Outcome Text
unfolding app_object_interface app_object_dispatch_impl
app_object_code api obj = do
  decl ← app_object_interface api obj
  impl ← app_object_dispatch_impl obj
  returns (decl ++ (codes "\n" ++ impl))

-- One round of the loop over `generatedAppObjects`: the names seen, and the text so far.
unfoldable pub app_object_round :
    Api → Option ApiModule → List Text × Text → Outcome (List Text × Text)
unfolding app_object_code
app_object_round api none s = returns s
app_object_round api (some obj) s =
    if any_of (same obj.name) s.0
    then returns s
    else (do code ← app_object_code api obj; returns (obj.name ∷ s.0, s.1 ++ code))

unfoldable pub app_object_loop :
    Api → List ApiFunction → List Text × Text → Outcome (List Text × Text)
unfolding app_object_round get_function_info
app_object_loop api [] s = returns s
app_object_loop api (f ∷ fs) s = do
  info ← get_function_info api f
  s' ← app_object_round api info.app_object s
  app_object_loop api fs s'

unfoldable pub param_doc : Option ApiField → Text
unfolding ref_name_of
param_doc none = []
param_doc (some p) =
    js_doc [] step
    ++ js_doc (codes "@param {" ++ (ref_name_of (field_type p) ++ (codes "} " ++ field_name p)))
        step

-- One round of the loop over the functions.
unfoldable pub module_function : Api → ApiModule → ApiFunction → Outcome Text
unfolding param_doc get_ref_name function_impl get_function_info
module_function api owner func = do
  info ← get_function_info api func
  result ← get_ref_name func.result
  impl ← function_impl api owner func
  returns (
      js_doc_start func.doc step
      ++ (param_doc info.params
          ++ (js_doc (codes "@returns " ++ result) step ++ (js_doc_end step ++ impl))))

unfoldable pub class_head : ApiModule → Text
unfolding upper_first
class_head m =
    codes "\nexport class "
    ++ (upper_first m.name
        ++ codes
            "Module {\n    client: IClient;\n\n    constructor(client: IClient) {\n        this.client = client;\n    }\n")

unfoldable pub module_code : Api → ApiModule → Outcome Text
unfolding exported_type app_object_loop module_function class_head map_all
module_code api m = do
  objects ← app_object_loop api m.functions ([], [])
  functions ← map_all (module_function api m) m.functions
  returns (
      codes "// "
      ++ (m.name
          ++ (codes " module\n\n"
              ++ (concat (map exported_type m.types)
                  ++ (objects.1
                      ++ (element_js_doc m.doc []
                          ++ (class_head m ++ (concat functions ++ codes "}\n\n"))))))))

-- `MODULES_HEADER`.
abbrev pub modules_header : Text
modules_header =
    codes
      "\nimport {ResponseHandler} from \"./bin\";\n\ninterface IClient {\n    request(\n        functionName: string,\n        functionParams?: any,\n        responseHandler?: ResponseHandler\n    ): Promise<any>;\n    resolve_app_request(app_request_id: number | null, result: any): Promise<void>;\n    reject_app_request(app_request_id: number | null, error: any): Promise<void>;\n}\n"

unfoldable pub modules_code : Api → Outcome Text
unfolding module_code
modules_code api = do
  ms ← map_all (module_code api) api.modules
  returns (codes "\n" ++ (modules_header ++ (codes "\n" ++ (concat ms ++ codes "\n"))))
