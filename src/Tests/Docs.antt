-- ===== src/Tests/Docs.antt =====
-- The documentation generator at concrete inputs.
use ton_sdk.Base.{
  Text, none, some, [], ◌∷◌, ◌++◌, codes, split, returns, throws, join, Occurs-cons, inl, inr,
  to_lower, ◌≡◌, ◌≢◌, refl, same, same_iff, true, false,
}
use ton_sdk.Api.Types.{
  Api, ApiModule, ApiFunction, ApiField, ApiType, Documented, undocumented, ref, string, struct,
  field, no_fields, more_fields, none_type,
}
use ton_sdk.Api.Find.{find_type, qualified}
use ton_sdk.Api.Parse.{parse_api}
use ton_sdk.Docs.Marks.{module_file}
use ton_sdk.Docs.Types.{document, type_fields}
use ton_sdk.Docs.Types.Depth.{Follows, by_ref, document-ne-returns}
use ton_sdk.Docs.Functions.{function_section, type_section}
use ton_sdk.Docs.Modules.{module_page}
use ton_sdk.Index.{docs, docs_of, done, resolve_dir}
use ton_sdk.Index.Disk.{AreDistinct, all_pages, Holds, docs-Holds}
use ton_sdk.Index.Links.{AreLinked, docs-AreLinked}

abbrev record_doc : Text → Documented
record_doc s = record { summary = some s; description = none }

abbrev one_member : Text → ApiType
one_member name = struct (more_fields (field name undocumented string) no_fields)

-- A type that is an alias of a reference to itself.
abbrev alias : ApiField
alias = field (codes "Alias") undocumented (ref (codes "loop.Alias"))

abbrev alias_api : Api
alias_api = record {
  version = codes "1";
  modules =
      record { name = codes "loop"; doc = undocumented; types = alias ∷ []; functions = [] } ∷ [];
}

alias_leads_back : Follows alias_api alias (ref (codes "loop.Alias"))
unfolding find_type qualified same
alias_leads_back = by_ref refl

document-ne-returns_example : document alias_api 1000 alias ≢ returns []
document-ne-returns_example = document-ne-returns alias_api alias 1000 [] alias_leads_back

-- A module with one function and one type.
abbrev pub small_function : ApiFunction
small_function = record {
  name = codes "remove";
  doc = record_doc (codes "Removes it.");
  params = field (codes "params") undocumented (ref (codes "box.Handle")) ∷ [];
  result = some none_type;
}

abbrev pub small_type : ApiField
small_type = field (codes "Handle") undocumented (one_member (codes "id"))

abbrev pub small_module : ApiModule
small_module = record {
  name = codes "box";
  doc = undocumented;
  types = small_type ∷ [];
  functions = small_function ∷ [];
}

abbrev pub small_api : Api
small_api = record { version = codes "1"; modules = small_module ∷ [] }

small_page : Text
small_page = elim (module_page small_api 5 small_module) [ returns text ↦ text | throws e ↦ [] ]

small_page_made : module_page small_api 5 small_module ≡ returns small_page
unfolding small_page module_page find_type qualified same split join to_lower function_section
    type_fields type_section
small_page_made = refl

abbrev pub slash_between : Text → Text → Text
slash_between a b = a ++ (codes "/" ++ b)

small_done :
    (docs (codes "/home/u") slash_between small_api 5 (codes "~/out")).ending ≡ returns done
unfolding docs docs_of parse_api module_page find_type qualified same split join to_lower
    function_section type_fields type_section
small_done = refl

pub small_parsed : parse_api small_api ≡ returns small_api
unfolding parse_api same
small_parsed = refl

docs-AreLinked_example :
    AreLinked slash_between small_api
      (resolve_dir (codes "/home/u") slash_between (codes "~/out"))
      (docs (codes "/home/u") slash_between small_api 5 (codes "~/out")).files
docs-AreLinked_example =
    docs-AreLinked (codes "/home/u") slash_between small_api small_api 5 (codes "~/out")
      small_parsed small_done

small_paths : AreDistinct (
    all_pages
      (codes "/home/u")
      slash_between
      small_api
      (resolve_dir (codes "/home/u") slash_between (codes "~/out")))
unfolding module_file resolve_dir same
small_paths = (
  (λ o. elim (Occurs-cons o) [
    | inl e ↦ (let q : false ≡ true = (same_iff _ _).1 e in cc)
    | inr k ↦ elim k [ ]
  ]),
  ((λ o. elim o [ ]), tt),
)

docs-Holds_example :
    Holds
      (codes "/home/u")
      slash_between
      small_api
      5
      (resolve_dir (codes "/home/u") slash_between (codes "~/out"))
      (docs (codes "/home/u") slash_between small_api 5 (codes "~/out")).files
docs-Holds_example =
    docs-Holds (codes "/home/u") slash_between small_api small_api 5 (codes "~/out") small_parsed
      small_paths small_done
