-- ===== src/Ts/Functions.antt =====
-- tools/ts-code.ts: the declaration and the body of a function.
pub mod Balance
pub mod CleanNames
pub mod CleanObject
pub mod CleanInfo
use ton_sdk.Base.{
  Text, Bool, true, false, Option, none, some, List, [], ◌∷◌, ◌++◌, map, codes, join, Outcome,
  returns, required, ◌>>=◌,
}
use ton_sdk.Api.Types.{Api, ApiModule, ApiFunction, ApiField, field_name, field_type}
use ton_sdk.Api.Info.{FunctionInfo, get_function_info}
use ton_sdk.Ts.Types.{type}

abbrev pub params_decl : Option ApiField → List Text
params_decl none = []
params_decl (some p) = (field_name p ++ (codes ": " ++ type (field_type p) [] false)) ∷ []

abbrev pub object_decl : Option ApiModule → Bool → List Text
object_decl (some obj) handler = (codes "obj: " ++ obj.name) ∷ []
object_decl none true = codes "responseHandler?: ResponseHandler" ∷ []
object_decl none false = []

unfoldable pub params_decls : FunctionInfo → List Text
unfolding type
params_decls info = params_decl info.params ++ object_decl info.app_object info.has_response_handler

-- `type(func.result, "")`: the engine throws where the result is `undefined`.
unfoldable pub result_type : ApiFunction → Outcome Text
unfolding type
result_type f = do t ← required f.result; returns (type t [] false)

-- The parameters of `functionInterface`, each on a line.
abbrev pub param_lines : List Text → Text
param_lines [] = []
param_lines (d ∷ ds) =
    codes "\n"
    ++ (join (codes "\n") (map (λ p. codes "    " ++ (p ++ codes ",")) (d ∷ ds)) ++ codes "\n")

unfoldable pub function_interface : Api → ApiFunction → Outcome Text
unfolding params_decls result_type get_function_info
function_interface api func = do
  info ← get_function_info api func
  result ← result_type func
  returns (
      codes "function "
      ++ (func.name
          ++ (codes "("
              ++ (param_lines (params_decls info)
                  ++ (codes "): Promise<" ++ (result ++ codes ">;"))))))

-- The callback that hands a request to the app object: 3 is a request, 4 a notification.
unfoldable pub dispatch_callback : ApiModule → Text
dispatch_callback obj =
    codes
      "(params: any, responseType: number) => {\n            if (responseType === 3) {\n                dispatch"
    ++ (obj.name
        ++ (codes
              "(obj, params.request_data, params.app_request_id, this.client);\n            } else if (responseType === 4) {\n                dispatch"
            ++ (obj.name ++ codes "(obj, params, null, this.client);\n            }\n        }")))

-- `calls.push("undefined")`, in place of the parameters that are not there.
abbrev pub undefined_arg : Option ApiField → List Text
undefined_arg none = codes "undefined" ∷ []
undefined_arg (some p) = []

abbrev pub params_arg : Option ApiField → List Text
params_arg none = []
params_arg (some p) = field_name p ∷ []

abbrev pub handler_args : FunctionInfo → Option ApiModule → Bool → List Text
handler_args info (some obj) handler = undefined_arg info.params ++ (dispatch_callback obj ∷ [])
handler_args info none true = undefined_arg info.params ++ (codes "responseHandler" ∷ [])
handler_args info none false = []

-- `calls`: the arguments of `client.request`.
unfoldable pub request_args : ApiModule → ApiFunction → FunctionInfo → List Text
unfolding dispatch_callback
request_args owner func info =
    (codes "'" ++ (owner.name ++ (codes "." ++ (func.name ++ codes "'"))))
    ∷ (params_arg info.params ++ handler_args info info.app_object info.has_response_handler)

-- The text of `functionImpl`, when its parts are there.
abbrev pub impl_text : ApiFunction → List Text → Text → List Text → Text
impl_text func decls result args =
    codes "\n    "
    ++ (func.name
        ++ (codes "("
            ++ (join (codes ", ") decls
                ++ (codes "): Promise<"
                    ++ (result
                        ++ (codes "> {\n        return this.client.request("
                            ++ (join (codes ", ") args ++ codes ");\n    }\n")))))))

unfoldable pub function_impl : Api → ApiModule → ApiFunction → Outcome Text
unfolding params_decls result_type request_args get_function_info
function_impl api owner func = do
  info ← get_function_info api func
  result ← result_type func
  returns (impl_text func (params_decls info) result (request_args owner func info))
