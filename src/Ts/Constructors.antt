-- ===== src/Ts/Constructors.antt =====
-- tools/ts-code.ts, `typeVariantConstructors`: a function for each variant of an enum of types.
pub mod Params
pub mod Balance
use ton_sdk.Base.{Text, false, List, [], ◌∷◌, ◌++◌, codes}
use ton_sdk.Api.Types.{
  ApiType, ApiField, ApiFields, ref, struct, field, no_fields, more_fields, field_name,
}
use ton_sdk.Api.Naming.{lower_first}
use ton_sdk.Ts.Names.{fix_field_name, type_name}
use ton_sdk.Ts.Types.{members}

-- `if (params !== "") { params += ", "; }`.
abbrev pub comma_after : Text → Text
comma_after [] = []
comma_after (c ∷ s) = (c ∷ s) ++ codes ", "

-- The loop over the fields: `params` so far, and the texts of the fields that are left.
unfoldable pub params_loop : Text → List Text → Text
params_loop params [] = params
params_loop params (m ∷ ms) = params_loop (comma_after params ++ m) ms

unfoldable pub property_lines : ApiFields → Text
property_lines no_fields = []
property_lines (more_fields f fs) =
    codes "        " ++ (fix_field_name (field_name f) ++ (codes ",\n" ++ property_lines fs))

unfoldable pub constructor_params : ApiType → Text
unfolding params_loop
constructor_params (ref name) = codes "params: " ++ type_name name
constructor_params (struct fs) = params_loop [] (members fs [] false)
constructor_params _ = []

unfoldable pub constructor_properties : ApiType → Text
unfolding property_lines
constructor_properties (ref name) = codes "        ...params,\n"
constructor_properties (struct fs) = property_lines fs
constructor_properties _ = []

-- One round of the loop over the variants.
unfoldable pub variant_constructor : Text → ApiField → Text
unfolding constructor_params constructor_properties lower_first
variant_constructor enum_name (field n d t) =
    codes "\nexport function "
    ++ (lower_first enum_name
        ++ (n
            ++ (codes "("
                ++ (constructor_params t ++ (codes "): " ++ (enum_name ++ codes " {\n"))))))
    ++ codes "    return {\n"
    ++ (codes "        type: '" ++ (n ++ codes "',\n"))
    ++ constructor_properties t
    ++ codes "    };\n"
    ++ codes "}\n"

unfoldable pub type_variant_constructors : Text → ApiFields → Text
unfolding variant_constructor
type_variant_constructors enum_name no_fields = []
type_variant_constructors enum_name (more_fields v vs) =
    variant_constructor enum_name v ++ type_variant_constructors enum_name vs
