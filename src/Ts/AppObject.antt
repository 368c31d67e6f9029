-- ===== src/Ts/AppObject.antt =====
-- tools/ts-code.ts: the interface of an app object, and the dispatch of requests to it.
pub mod Dispatch
pub mod Balance
use ton_sdk.Base.{
  Text, Bool, true, false, not, Option, none, some, List, [], ◌∷◌, ◌++◌, map, concat, if◌then◌else◌,
  codes, join, split, Outcome, returns, throws, required, map_all, ◌>>=◌, ◌≡◌, refl,
}
use ton_sdk.Api.Types.{Api, ApiModule, ApiFunction, ApiField, ApiType, ref, none_type}
use ton_sdk.Api.Naming.{pascal, underscore}
use ton_sdk.Api.Info.{FunctionInfo, get_function_info}
use ton_sdk.Ts.Types.{type, type_def}
use ton_sdk.Ts.Functions.{params_decls}

-- `isNotify`: the result is the empty reference.
unfoldable pub is_notify : ApiType → Bool
is_notify (ref []) = true
is_notify _ = false

-- One round of the loop of `appObjectInterface`.
unfoldable pub method_decl : Api → ApiFunction → Outcome Text
unfolding is_notify params_decls get_function_info
method_decl api f = do
  result ← required f.result
  info ← get_function_info api f
  returns (
      codes "\n    "
      ++ (f.name
          ++ (codes "("
              ++ (join (codes ", ") (params_decls info)
                  ++ (codes ")"
                      ++ ((if not (is_notify result)
                            then codes ": Promise<" ++ (type result [] false ++ codes ">")
                            else codes ": void")
                          ++ codes ","))))))

unfoldable pub app_object_interface : Api → ApiModule → Outcome Text
unfolding method_decl type_def map_all
app_object_interface api obj = do
  methods ← map_all (method_decl api) obj.functions
  returns (
      concat (map (λ t. codes "\n" ++ type_def t false) obj.types)
      ++ (codes "\nexport interface "
          ++ (obj.name ++ (codes " {" ++ (concat methods ++ codes "\n}")))))

-- `assignment`.
unfoldable pub assignment : ApiType → Text
unfolding is_notify
assignment none_type = codes "await "
assignment t = if not (is_notify t) then codes "result = await " else []

-- The label of a function's case: `TSCode.pascal(f.name.split("_"))`.
unfoldable pub case_label : ApiFunction → Text
unfolding pascal
case_label f = pascal (split underscore f.name)

abbrev pub call_args : List ApiField → Text
call_args [] = []
call_args (p ∷ ps) = codes "params"

-- One round of the loop of `appObjectDispatchImpl`.
unfoldable pub dispatch_case : ApiFunction → Outcome Text
unfolding case_label assignment
dispatch_case f = do
  result ← required f.result
  returns (
      codes "\n            case '"
      ++ (case_label f
          ++ (codes "':\n                "
              ++ (assignment result
                  ++ (codes "obj."
                      ++ (f.name
                          ++ (codes "("
                              ++ (call_args f.params ++ codes ");\n                break;"))))))))

unfoldable pub app_object_dispatch_impl : ApiModule → Outcome Text
unfolding dispatch_case map_all
app_object_dispatch_impl obj = do
  cases ← map_all dispatch_case obj.functions
  returns (
      codes "\nasync function dispatch"
      ++ (obj.name
          ++ (codes "(obj: "
              ++ (obj.name
                  ++ (codes ", params: ParamsOf"
                      ++ (obj.name
                          ++ (codes
                                ", app_request_id: number | null, client: IClient) {\n    try {\n        let result = {};\n        switch (params.type) {"
                              ++ (concat cases
                                  ++ codes
                                      "\n        }\n        client.resolve_app_request(app_request_id, { type: params.type, ...result });\n    }\n    catch (error) {\n        client.reject_app_request(app_request_id, error);\n    }\n}"))))))))
