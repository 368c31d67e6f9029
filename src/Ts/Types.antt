-- ===== src/Ts/Types.antt =====
-- tools/ts-code.ts, class `TSCode`: how types, fields and variants are written. `include_doc` is
-- false where the source leaves the argument out.
pub mod Scan
pub mod Clean
pub mod Pieces
pub mod Union
use ton_sdk.Base.{
  Text, Bool, true, false, ◌||◌, List, [], ◌∷◌, ◌++◌, map, if◌then◌else◌, codes, join, same, ◌≡◌,
  refl, Option, none, some, split,
}
use ton_sdk.Api.Types.{
  ApiType, ApiField, ApiFields, ApiConst, ApiConstValue, Documented, none_value, bool_value,
  string_value, number_value, ref, none_type, any, boolean, string, number, big_int, optional,
  array, struct, enum_of_consts, enum_of_types, generic, field, no_fields, more_fields, field_name,
  uint,
}
use ton_sdk.Ts.Names.{fix_field_name, type_name}
use ton_sdk.Ts.JsDoc.{newline, element_js_doc}

-- `INDENT`.
abbrev pub step : Text
step = codes "    "

unfoldable pub const_value : ApiConst → ApiConstValue → Text
const_value c (string_value v) = codes "\"" ++ (v ++ codes "\"")
const_value c none_value = codes "\"" ++ (c.name ++ codes "\"")
const_value c (bool_value v) = v
const_value c (number_value v) = v

unfoldable pub const_variant : Text → ApiConst → Text
unfolding const_value
const_variant indent c = indent ++ (c.name ++ (codes " = " ++ const_value c c.value))

abbrev pub is_any_ref : Text → Bool
is_any_ref name = same name (codes "Value") || same name (codes "API")

abbrev pub ref_type : Text → Text
ref_type name = if is_any_ref name then codes "any" else type_name name

-- A list of members between braces, each on its line.
abbrev pub braced : List Text → Text → Text
braced members indent =
    codes "{\n" ++ (join (codes ",\n") members ++ (newline ++ (indent ++ codes "}")))

-- The text of a field: its type is written already, and `mark` is `?` or nothing.
unfoldable pub member : Text → Text → Documented → Text → Bool → Text → Text
member name mark doc indent include_doc type_text =
    (if include_doc then element_js_doc doc indent ++ newline else [])
    ++ (indent ++ (fix_field_name name ++ (mark ++ (codes ": " ++ type_text))))

-- The discriminator of a variant of an enum of types.
abbrev pub tag : Text → Text → Text
tag name indent = newline ++ (indent ++ (codes "    type: '" ++ (name ++ codes "'")))

abbrev pub ref_variant : Text → Text → Text → Text
ref_variant name ref_name indent =
    codes "({"
    ++ (tag name indent
        ++ (newline ++ (indent ++ (codes "} & " ++ (type_name ref_name ++ codes ")")))))

abbrev pub struct_variant : Text → Text → Text → Text
struct_variant name decl indent =
    codes "{" ++ (tag name indent ++ (decl ++ (newline ++ (indent ++ codes "}"))))

-- `fieldsDecl`.
abbrev pub fields_decl : List Text → Text
fields_decl [] = []
fields_decl (m ∷ ms) = newline ++ join (codes ",\n") (m ∷ ms)

-- `members` and `variants` are the two `map`s, over `ApiField[]`.
unfoldable mutual
  unfolding const_variant

  pub type : ApiType → Text → Bool → Text
  type none_type indent doc = codes "void"
  type (ref name) indent doc = ref_type name
  type (optional t) indent doc = type t indent doc ++ codes " | null"
  type (struct fs) indent doc = braced (members fs (indent ++ step) doc) indent
  type (enum_of_types vs) indent doc = join (codes " | ") (variants vs indent doc)
  type (array t) indent doc = type t indent false ++ codes "[]"
  type (enum_of_consts cs) indent doc = braced (map (const_variant (indent ++ step)) cs) indent
  type (big_int n s) indent doc = codes "bigint"
  type any indent doc = codes "any"
  type string indent doc = codes "string"
  type (number n s) indent doc = codes "number"
  type boolean indent doc = codes "boolean"
  type (generic name args) indent doc = codes "Generic"

  pub type_field : ApiField → Text → Bool → Text
  type_field (field n d (optional t)) indent doc =
      member n (codes "?") d indent doc (type t indent false)
  type_field (field n d t) indent doc = member n [] d indent doc (type t indent false)

  pub type_variant : ApiField → Text → Bool → Text
  type_variant (field n d (ref r)) indent doc = ref_variant n r indent
  type_variant (field n d (struct fs)) indent doc =
      struct_variant n (fields_decl (members fs (indent ++ step) doc)) indent
  type_variant (field n d none_type) indent doc = codes "'" ++ (n ++ codes "'")
  type_variant (field n d t) indent doc = type t indent false

  pub members : ApiFields → Text → Bool → List Text
  members no_fields indent doc = []
  members (more_fields f fs) indent doc = type_field f indent doc ∷ members fs indent doc

  pub variants : ApiFields → Text → Bool → List Text
  variants no_fields indent doc = []
  variants (more_fields v vs) indent doc = type_variant v indent doc ∷ variants vs indent doc

abbrev pub is_enum_of_consts : ApiType → Bool
is_enum_of_consts (enum_of_consts cs) = true
is_enum_of_consts _ = false

unfoldable pub type_def : ApiField → Bool → Text
unfolding type
type_def (field n d t) include_doc =
    (if is_enum_of_consts t then codes "enum " ++ n else codes "type " ++ (n ++ codes " ="))
    ++ (codes " " ++ (type t [] include_doc ++ newline))
