-- ===== src/Docs/Tuples.antt =====
-- tools/docs.ts, class `Docs`: `tupleFields` and `structFields`, which no other method calls.
use ton_sdk.Base.{Option, some, Outcome, returns, throws, type_error, codes}
use ton_sdk.Api.Types.{
  Api, ApiType, ApiField, ApiFields, ref, struct, field, no_fields, more_fields, renamed,
}
use ton_sdk.Api.Find.{find_type}

-- Both branches return the fields.
unfoldable pub struct_fields : ApiFields → ApiFields
struct_fields fs = fs

-- The only field of the result, where the inner type is no struct.
abbrev pub value_field : ApiField → ApiFields
value_field inner = more_fields (renamed inner (codes "value")) no_fields

unfoldable pub referred_fields : ApiField → Option ApiField → ApiFields
unfolding struct_fields
referred_fields inner (some (field n d (struct fs))) = struct_fields fs
referred_fields inner _ = value_field inner

unfoldable pub inner_fields : Api → ApiField → ApiType → ApiFields
unfolding referred_fields struct_fields
inner_fields api inner (ref name) = referred_fields inner (find_type api name)
inner_fields api inner (struct fs) = struct_fields fs
inner_fields api inner _ = value_field inner

-- Without a field, a member of `undefined` is read.
unfoldable pub tuple_fields : Api → ApiFields → Outcome ApiFields
unfolding inner_fields
tuple_fields api no_fields = throws type_error
tuple_fields api (more_fields (field n d t) fs) = returns (inner_fields api (field n d t) t)
