-- ===== src/Api/Find.antt =====
-- tools/api.ts, `Code.findType`: the first type of the API whose qualified name is asked for.
pub mod Laws
pub mod Order
use ton_sdk.Base.{Text, Option, none, some, List, [], ◌∷◌, ◌++◌, if◌then◌else◌, codes, same}
use ton_sdk.Api.Types.{Api, ApiModule, ApiField, field_name}

-- `${module.name}.${type.name}`.
unfoldable pub qualified : ApiModule → ApiField → Text
qualified module' t = module'.name ++ (codes "." ++ field_name t)

-- The inner loop.
unfoldable pub find_in : ApiModule → List ApiField → Text → Option ApiField
find_in module' [] name = none
find_in module' (t ∷ ts) name =
    if same name (qualified module' t) then some t else find_in module' ts name

abbrev pub or_else : Option ApiField → Option ApiField → Option ApiField
or_else none o = o
or_else (some t) o = some t

-- The outer loop; the `return` of the inner one ends it.
unfoldable pub find_in_modules : List ApiModule → Text → Option ApiField
unfolding find_in
find_in_modules [] name = none
find_in_modules (m ∷ ms) name = or_else (find_in m m.types name) (find_in_modules ms name)

unfoldable pub find_type : Api → Text → Option ApiField
unfolding find_in_modules
find_type api name = find_in_modules api.modules name
