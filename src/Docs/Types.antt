-- ===== src/Docs/Types.antt =====
-- tools/docs.ts, class `Docs`: how types are documented. A reference is documented by the type
-- that it leads to, so the recursion of `type` need not end: `document` counts the references
-- that are followed one within another, and throws `range_error` where they are too many.
pub mod Depth
use ton_sdk.Base.{
  ℕ, zero, suc, Text, Bool, true, false, Option, none, some, List, [], ◌∷◌, ◌++◌, map, concat,
  if◌then◌else◌, codes, split, join, same, to_lower, Outcome, returns, throws, Error, range_error,
  type_error, ◌>>=◌, ◌≡◌, refl,
}
use ton_sdk.Api.Types.{
  field_type as type_of, Api, ApiType, ApiField, ApiFields, ApiTypes, ApiConst, Documented, ref,
  none_type, any, boolean, string, number, big_int, optional, array, struct, enum_of_consts,
  enum_of_types, generic, field, no_fields, more_fields, no_types, more_types,
}
use ton_sdk.Api.Find.{find_type}
use ton_sdk.Api.Naming.{lower_first}
use ton_sdk.Ts.Types.{const_variant, type_def}
use ton_sdk.Ts.Constructors.{constructor_params}
use ton_sdk.Docs.Marks.{summary_of, description_of, doc_of}

-- A reference of two parts is a link, and any other is itself.
abbrev pub ref_parts_link : Text → List Text → Text
ref_parts_link name (m ∷ t ∷ []) =
    codes "[" ++ (t ++ (codes "](mod_" ++ (m ++ (codes ".md#" ++ (map to_lower t ++ codes ")")))))
ref_parts_link name _ = name

unfoldable pub field_type : ApiType → Outcome Text
field_type (ref name) =
    returns
      (if same name (codes "Value") then codes "any" else ref_parts_link name (split b'.' name))
field_type (optional t) = field_type t >>= λ s. returns (s ++ codes "?")
field_type (struct fs) = returns (codes "struct")
field_type (enum_of_types vs) = returns (codes "enum")
field_type (enum_of_consts cs) = returns (codes "const")
field_type (array t) = field_type t >>= λ s. returns (s ++ codes "[]")
field_type string = returns (codes "string")
field_type any = returns (codes "any")
field_type boolean = returns (codes "boolean")
field_type (number n s) = returns (codes "number")
field_type (generic name no_types) = throws type_error
field_type (generic name (more_types t ts)) =
    field_type t >>= λ s. returns (name ++ (codes "<" ++ (s ++ codes ">")))
field_type (big_int n s) = returns (codes "bigint")
field_type none_type = returns (codes "void")

-- The text of a field, when the text of its type is there.
abbrev pub field_line : Text → Text → Documented → Text → Text
field_line name opt d type_text =
    codes "- `"
    ++ (name
        ++ (codes "`"
            ++ (opt
                ++ (codes ": _"
                    ++ (type_text
                        ++ (codes "_" ++ (summary_of d ++ (codes "\n" ++ description_of d))))))))

unfoldable pub doc_field : ApiField → Outcome Text
unfolding field_type
doc_field (field n d (optional t)) = field_type t >>= λ s. returns (field_line n (codes "?") d s)
doc_field (field n d t) = field_type t >>= λ s. returns (field_line n [] d s)

unfoldable pub type_fields : ApiFields → Outcome Text
unfolding doc_field
type_fields no_fields = returns []
type_fields (more_fields f fs) = do
  line ← doc_field f
  lines ← type_fields fs
  returns (line ++ lines)

unfoldable pub doc_const : ApiConst → Text
unfolding const_variant
doc_const c =
    codes "- `"
    ++ (const_variant [] c
        ++ (codes "`" ++ (summary_of c.doc ++ (codes "\n" ++ description_of c.doc))))

unfoldable pub doc_enum_of_consts : List ApiConst → Text
unfolding doc_const
doc_enum_of_consts cs = codes "One of the following value:\n\n" ++ concat (map doc_const cs)

abbrev pub when_type : Text → Documented → Text → Text
when_type name d body =
    codes "When _type_ is _'" ++ (name ++ (codes "'_\n\n" ++ (doc_of d ++ body)))

module _ (api : Api) (follow : ApiField → Outcome Text) where
  -- `follow` documents the type that a reference leads to.
  abbrev pub followed : Text → Option ApiField → Outcome Text
  followed name none = returns (codes "_" ++ (name ++ codes "_"))
  followed name (some f) = follow f

  unfoldable mutual
    pub doc_type : ApiType → Outcome Text
    doc_type (ref name) = followed name (find_type api name)
    doc_type (optional t) = doc_type t >>= λ s. returns (codes "Optional value of:\n\n" ++ s)
    doc_type (struct fs) = type_fields fs
    doc_type (enum_of_types vs) = doc_variants vs >>= λ ss.
        returns (codes "Depends on value of the  `type` field.\n\n" ++ join (codes "\n") ss)
    doc_type (enum_of_consts cs) = returns (doc_enum_of_consts cs)
    doc_type _ = returns []

    pub doc_variant : ApiField → Outcome Text
    doc_variant (field n d (struct no_fields)) = returns (when_type n d [])
    doc_variant (field n d (struct (more_fields f fs))) =
        type_fields (more_fields f fs) >>= λ s. returns (when_type n d (codes "\n" ++ s))
    doc_variant (field n d none_type) = returns (when_type n d (codes "`" ++ (n ++ codes "`")))
    doc_variant (field n d t) = doc_type t >>= λ s. returns (when_type n d s)

    pub doc_variants : ApiFields → Outcome (List Text)
    doc_variants no_fields = returns []
    doc_variants (more_fields v vs) =
        doc_variant v >>= λ s. doc_variants vs >>= λ ss. returns (s ∷ ss)

-- `this.type(refType)` for the type that a reference leads to, on a stack of `depth` references.
unfoldable pub document : Api → ℕ → ApiField → Outcome Text
unfolding doc_type
document api zero f = throws range_error
document api (suc depth) f = doc_type api (document api depth) (type_of f)
