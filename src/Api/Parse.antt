-- ===== src/Api/Parse.antt =====
-- tools/api.ts, `parseApi`: the results of the functions are taken out of `ClientResult`. The map
-- `types` that it fills is read by nothing, and the back pointers that it sets are the arguments
-- `owner` of this model.
pub mod Laws
use ton_sdk.Base.{
  Text, Option, none, some, List, [], ◌∷◌, if◌then◌else◌, codes, same, Outcome, returns, throws,
  required, get_elem?, map_all, ◌>>=◌,
}
use ton_sdk.Api.Types.{Api, ApiModule, ApiFunction, ApiType, ApiTypes, types_to_list, generic}

-- The new `func.result`: `none` is the `undefined` that `generic_args[0]` may be.
unfoldable pub unwrap_result : ApiType → Option ApiType
unwrap_result (generic name args) =
    if same name (codes "ClientResult")
    then get_elem? (types_to_list args) 0
    else some (generic name args)
unwrap_result t = some t

unfoldable pub parse_function : ApiFunction → Outcome ApiFunction
unfolding unwrap_result
parse_function f = do t ← required f.result; returns (record f { result = unwrap_result t })

unfoldable pub parse_module : ApiModule → Outcome ApiModule
unfolding parse_function map_all
parse_module m = do fs ← map_all parse_function m.functions; returns (record m { functions = fs })

unfoldable pub parse_api : Api → Outcome Api
unfolding parse_module
parse_api json = do ms ← map_all parse_module json.modules; returns (record json { modules = ms })
