-- ===== src/Docs/Modules.antt =====
-- tools/docs.ts, class `Docs`: the page of a module, and the index of all modules.
pub mod Links
pub mod Stack
pub mod Objects
use ton_sdk.Base.{
  ℕ, Text, Bool, true, false, Option, none, some, List, [], ◌∷◌, ◌++◌, map, concat, if◌then◌else◌,
  codes, same, any_of, Outcome, returns, throws, map_all, ◌>>=◌,
}
use ton_sdk.Api.Types.{Api, ApiModule, ApiFunction, ApiField, field_doc}
use ton_sdk.Api.Info.{FunctionInfo, get_function_info}
use ton_sdk.Docs.Marks.{summary_of, doc_of, module_file, func_ref, type_ref, app_object_type_ref}
use ton_sdk.Docs.Functions.{function_section, type_section, app_object_section}

-- One round of the loop that collects app objects: those of a name seen before are passed over.
abbrev pub add_object : Option ApiModule → List ApiModule → List ApiModule
add_object none objs = objs
add_object (some obj) objs =
    if any_of (λ o. same obj.name o.name) objs then objs else objs ++ obj ∷ []

unfoldable pub collect_objects : Api → List ApiFunction → List ApiModule → Outcome (List ApiModule)
unfolding get_function_info
collect_objects api [] objs = returns objs
collect_objects api (f ∷ fs) objs = do
  info ← get_function_info api f
  collect_objects api fs (add_object info.app_object objs)

unfoldable pub func_entry : Option ApiModule → ApiFunction → Text
unfolding func_ref summary_of
func_entry m f = func_ref f m ++ (summary_of f.doc ++ codes "\n\n")

unfoldable pub type_entry : ApiField → Text
unfolding type_ref summary_of
type_entry t = type_ref t none ++ (summary_of (field_doc t) ++ codes "\n\n")

unfoldable pub object_entry : ApiModule → Text
unfolding app_object_type_ref summary_of
object_entry t = app_object_type_ref t none ++ (summary_of t.doc ++ codes "\n\n")

-- A list of sections, each behind an empty line.
abbrev pub sections : List Text → Text
sections ss = concat (map (λ s. s ++ codes "\n\n") ss)

abbrev pub page_head : ApiModule → Text
page_head m =
    codes "# Module " ++ (m.name ++ (codes "\n\n" ++ (doc_of m.doc ++ codes "\n## Functions\n")))

-- What is added to the page, in order, when its sections are there.
abbrev pub page_parts : ApiModule → List ApiModule → List Text → List Text → List Text → List Text
page_parts m objs functions types objects =
    page_head m
    ∷ concat (map (func_entry none) m.functions)
    ∷ codes "## Types\n"
    ∷ concat (map type_entry m.types)
    ∷ concat (map object_entry objs)
    ∷ codes "\n# Functions\n"
    ∷ sections functions
    ∷ codes "# Types\n"
    ∷ sections types
    ∷ sections objects
    ∷ []

unfoldable pub page : ApiModule → List ApiModule → List Text → List Text → List Text → Text
unfolding func_entry type_entry object_entry doc_of
page m objs functions types objects = concat (page_parts m objs functions types objects)

unfoldable pub module_page : Api → ℕ → ApiModule → Outcome Text
unfolding page collect_objects map_all
module_page api depth m = do
  objs ← collect_objects api m.functions []
  functions ← map_all (function_section api depth m) m.functions
  types ← map_all (type_section api depth) m.types
  objects ← map_all (app_object_section api depth) objs
  returns (page m objs functions types objects)

abbrev pub common_types : Text
common_types =
    codes
      "# Common Types\n## ResponseHandler\n```ts\ntype ResponseHandler = (params: any, responseType: number) => void;\n```\n\nHandles additional function responses.\n\nWhere:\n- `params`: _any_ – Response parameters. Actual type depends on API function. \n- `responseType`: _number_ – Function specific response type.\n\n"

unfoldable pub module_index : ApiModule → Text
unfolding func_entry module_file summary_of
module_index m =
    codes "## ["
    ++ (m.name
        ++ (codes "]("
            ++ (module_file m
                ++ (codes ")"
                    ++ (summary_of m.doc
                        ++ (codes "\n\n" ++ concat (map (func_entry (some m)) m.functions)))))))

unfoldable pub modules_page : Api → Text
unfolding module_index
modules_page api = common_types ++ (codes "# Modules\n" ++ concat (map module_index api.modules))
