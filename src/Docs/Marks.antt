-- ===== src/Docs/Marks.antt =====
-- tools/docs.ts: the functions above class `Docs`, which write summaries, descriptions and links.
use ton_sdk.Base.{Text, Option, none, some, [], ◌++◌, map, codes, split, join, to_lower}
use ton_sdk.Api.Types.{Documented, truthy, ApiModule, ApiFunction, ApiField, field_name}

abbrev pub summary_text : Option Text → Text
summary_text none = []
summary_text (some s) = codes " – " ++ s

unfoldable pub summary_of : Documented → Text
summary_of d = summary_text (truthy d.summary)

abbrev pub line_break : Text
line_break = codes "<br>"

abbrev pub description_text : Option Text → Text
description_text none = []
description_text (some s) = line_break ++ (join line_break (split 10 s) ++ codes "\n")

unfoldable pub description_of : Documented → Text
description_of d = description_text (truthy d.description)

abbrev pub paragraph : Option Text → Text
paragraph none = []
paragraph (some s) = s ++ codes "\n\n"

unfoldable pub doc_of : Documented → Text
doc_of d = paragraph (truthy d.summary) ++ paragraph (truthy d.description)

unfoldable pub module_file : ApiModule → Text
module_file m = codes "mod_" ++ (m.name ++ codes ".md")

-- `[name](file#anchor)`; the anchor is the name in lower case.
unfoldable pub link : Text → Text → Text
link name file =
    codes "[" ++ (name ++ (codes "](" ++ (file ++ (codes "#" ++ (map to_lower name ++ codes ")")))))

abbrev pub file_of : Option ApiModule → Text
file_of none = []
file_of (some m) = module_file m

unfoldable pub func_ref : ApiFunction → Option ApiModule → Text
unfolding link module_file
func_ref f m = link f.name (file_of m)

unfoldable pub type_ref : ApiField → Option ApiModule → Text
unfolding link module_file
type_ref t m = link (field_name t) (file_of m)

unfoldable pub app_object_type_ref : ApiModule → Option ApiModule → Text
unfolding link module_file
app_object_type_ref t m = link t.name (file_of m)
