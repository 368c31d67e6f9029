-- ===== src/Ts/JsDoc.antt =====
-- tools/ts-code.ts: documentation comments.
pub mod Closes
pub mod Brackets
use ton_sdk.Base.{Text, Option, none, some, List, [], ◌∷◌, ◌++◌, map, codes, split, join, ◌≡◌, refl}
use ton_sdk.Api.Types.{Documented, truthy}

abbrev pub newline : Text
newline = 10 ∷ []

abbrev pub doc_line : Text → Text → Text
doc_line indent x = indent ++ (codes " * " ++ x)

unfoldable pub js_doc : Text → Text → Text
js_doc text indent = newline ++ join newline (map (doc_line indent) (split 10 text))

-- The two `if`s of `jsDocStart`.
unfoldable pub summary_doc : Option Text → Text → Text
unfolding js_doc
summary_doc none indent = []
summary_doc (some s) indent = js_doc s indent

unfoldable pub description_doc : Option Text → Text → Text
unfolding js_doc
description_doc none indent = []
description_doc (some d) indent =
    js_doc [] indent ++ (js_doc (codes "@remarks") indent ++ js_doc d indent)

unfoldable pub js_doc_start : Documented → Text → Text
unfolding summary_doc description_doc
js_doc_start element indent =
    newline
    ++ (indent
        ++ (codes "/**"
            ++ (summary_doc (truthy element.summary) indent
                ++ description_doc (truthy element.description) indent)))

unfoldable pub js_doc_end : Text → Text
js_doc_end indent = newline ++ (indent ++ codes " */")

unfoldable pub element_js_doc : Documented → Text → Text
unfolding js_doc_start js_doc_end
element_js_doc element indent = js_doc_start element indent ++ js_doc_end indent

doc_sample :
    element_js_doc (record { summary = some (codes "Sum"); description = none }) (codes "  ")
    ≡ codes "\n  /**\n   * Sum\n   */"
unfolding element_js_doc join split
doc_sample = refl
