-- ===== src/Api/Types.antt =====
-- tools/api.ts, the types `Api` to `ApiError`: an API description as api.json holds it. Where the
-- source intersects records (`ApiField = ApiType & { name … }`), a constructor pairs the parts.
use ton_sdk.Base.{ℕ, Text, Option, none, some, List, [], ◌∷◌}

-- `summary?` and `description?`; a missing one and a null one are both `none`.
pub record Documented : Type 0 where
  pub summary : Option Text
  pub description : Option Text

abbrev pub undocumented : Documented
undocumented = record { summary = none; description = none }

-- `text ? … : …`: the empty string is falsy too.
abbrev pub truthy : Option Text → Option Text
truthy none = none
truthy (some []) = none
truthy (some (c ∷ s)) = some (c ∷ s)

pub data ApiConstValue : Type 0 where
  none_value : ApiConstValue
  bool_value : Text → ApiConstValue
  string_value : Text → ApiConstValue
  number_value : Text → ApiConstValue

pub record ApiConst : Type 0 where
  pub name : Text
  pub doc : Documented
  pub value : ApiConstValue

pub data ApiNumberType : Type 0 where
  uint int float : ApiNumberType

-- `ApiFields` is `ApiField[]` and `ApiTypes` is `ApiType[]`, inside a type.
mutual
  pub data ApiType : Type 0 where
    ref : Text → ApiType
    none_type any boolean string : ApiType
    number : ApiNumberType → ℕ → ApiType
    big_int : ApiNumberType → ℕ → ApiType
    optional : ApiType → ApiType
    array : ApiType → ApiType
    struct : ApiFields → ApiType
    enum_of_consts : List ApiConst → ApiType
    enum_of_types : ApiFields → ApiType
    generic : Text → ApiTypes → ApiType

  pub data ApiField : Type 0 where
    field : Text → Documented → ApiType → ApiField

  pub data ApiFields : Type 0 where
    no_fields : ApiFields
    more_fields : ApiField → ApiFields → ApiFields

  pub data ApiTypes : Type 0 where
    no_types : ApiTypes
    more_types : ApiType → ApiTypes → ApiTypes

abbrev pub field_name : ApiField → Text
field_name (field n d t) = n

abbrev pub field_doc : ApiField → Documented
field_doc (field n d t) = d

abbrev pub field_type : ApiField → ApiType
field_type (field n d t) = t

-- `{...f, name}`.
abbrev pub renamed : ApiField → Text → ApiField
renamed (field n d t) m = field m d t

abbrev pub to_list : ApiFields → List ApiField
to_list no_fields = []
to_list (more_fields f fs) = f ∷ to_list fs

abbrev pub of_list : List ApiField → ApiFields
of_list [] = no_fields
of_list (f ∷ fs) = more_fields f (of_list fs)

abbrev pub types_to_list : ApiTypes → List ApiType
types_to_list no_types = []
types_to_list (more_types t ts) = t ∷ types_to_list ts

-- `result` is `none` where `parseApi` leaves `undefined`. The back pointer `module` is not stored: who needs the owner of a function takes it as an argument.
pub record ApiFunction : Type 0 where
  pub name : Text
  pub doc : Documented
  pub params : List ApiField
  pub result : Option ApiType

pub record ApiModule : Type 0 where
  pub name : Text
  pub doc : Documented
  pub types : List ApiField
  pub functions : List ApiFunction

pub record Api : Type 0 where
  pub version : Text
  pub modules : List ApiModule
