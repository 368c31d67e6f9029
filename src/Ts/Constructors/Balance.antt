-- ===== src/Ts/Constructors/Balance.antt =====
-- The texts of a type and of its variants' constructors are well bracketed.
use ton_sdk.Base.{
  ℕ, Text, Bool, false, [], ◌∷◌, ◌++◌, codes, ◌≡◌, refl, All-map, arith, to_lower, to_upper,
}
use ton_sdk.Api.Types.{ApiType, ApiField, ApiFields, ref, struct, field, no_fields, more_fields}
use ton_sdk.Api.Naming.{lower_first, upper_first}
use ton_sdk.Ts.Names.{fix_field_name, type_name}
use ton_sdk.Ts.Types.{members, type_def}
use ton_sdk.Ts.Types.Scan.{scan, advance, char_class, is_clean, IsClean, IsClean-of, plain}
use ton_sdk.Ts.Types.Clean.{
  IsCleanType, IsCleanField, AreCleanFields, IsClean-append, IsClean-fix_field_name,
  IsClean-type_name,
}
use ton_sdk.Ts.Types.Union.{type_def-Reads, IsBalanced-members, has_bar}
use ton_sdk.Ts.Balance.{
  Turns, Balances, Turns-append, IsBalanced-Turns, IsClean-Turns, after_clean, after_balanced,
  Balances-join,
}
use ton_sdk.Ts.Constructors.Params.{constructor_params-struct}
use ton_sdk.Ts.Constructors.{
  constructor_params, constructor_properties, property_lines, variant_constructor,
  type_variant_constructors,
}

pub plain-to_lower : (c : ℕ) → char_class c ≡ plain → char_class (to_lower c) ≡ plain
unfolding char_class to_lower
plain-to_lower c h = ground arith

plain-to_upper : (c : ℕ) → char_class c ≡ plain → char_class (to_upper c) ≡ plain
unfolding char_class to_upper
plain-to_upper c h = ground arith

pub IsClean-lower_first : (s : Text) → IsClean s → IsClean (lower_first s)
unfolding lower_first
IsClean-lower_first [] h = tt
IsClean-lower_first (c ∷ s) h = (plain-to_lower c h.0, h.1)

pub IsClean-upper_first : (s : Text) → IsClean s → IsClean (upper_first s)
unfolding upper_first
IsClean-upper_first [] h = tt
IsClean-upper_first (c ∷ s) h = (plain-to_upper c h.0, h.1)

constructor_params-Balances : (t : ApiType) → IsCleanType t → Balances (constructor_params t)
unfolding constructor_params is_clean char_class
constructor_params-Balances (ref name) h =
    after_clean (codes "params: ") (IsClean-of (codes "params: ") refl)
      (IsClean-Turns (type_name name) (IsClean-type_name name h))
constructor_params-Balances (struct fs) h = rw (constructor_params-struct fs) (
    Balances-join (codes ", ") (members fs [] false) (IsClean-of (codes ", ") refl) (
      All-map _ Balances (λ s b. IsBalanced-Turns s b) (members fs [] false)
        (IsBalanced-members fs [] false h tt)))
constructor_params-Balances t h = IsClean-Turns [] tt

property_lines-IsClean : (fs : ApiFields) → AreCleanFields fs → IsClean (property_lines fs)
unfolding property_lines is_clean char_class
property_lines-IsClean no_fields h = tt
property_lines-IsClean (more_fields (field n d t) fs) h =
    IsClean-append (codes "        ") _ (IsClean-of (codes "        ") refl) (
      IsClean-append (fix_field_name n) _ (IsClean-fix_field_name n h.0.0) (
        IsClean-append (codes ",\n") _ (IsClean-of (codes ",\n") refl)
          (property_lines-IsClean fs h.1)))

constructor_properties-IsClean : (t : ApiType) → IsCleanType t → IsClean (constructor_properties t)
unfolding constructor_properties is_clean char_class
constructor_properties-IsClean (ref name) h = IsClean-of (codes "        ...params,\n") refl
constructor_properties-IsClean (struct fs) h = property_lines-IsClean fs h
constructor_properties-IsClean t h = tt

variant_constructor-Balances :
    (enum_name : Text) (v : ApiField)
    → IsClean enum_name
    → IsCleanField v
    → Balances (variant_constructor enum_name v)
unfolding variant_constructor scan advance char_class is_clean
variant_constructor-Balances enum_name (field n d t) he h =
    Turns-append _ {mid = b'}' ∷ []}
      (Turns-append _ {mid = b'}' ∷ b'}' ∷ []}
        (Turns-append _ {mid = b'}' ∷ b'}' ∷ []}
          (Turns-append _ {mid = b'}' ∷ b'}' ∷ []}
            (Turns-append _ {mid = b'}' ∷ []} head (record { run = λ st b. refl }))
            (after_clean (codes "        type: '") (IsClean-of (codes "        type: '") refl)
              (after_clean n h.0 (IsClean-Turns (codes "',\n") (IsClean-of (codes "',\n") refl)))))
          (IsClean-Turns (constructor_properties t) (constructor_properties-IsClean t h.2)))
        (record { run = λ st b. refl }))
      (record { run = λ st b. refl })
  where
    head :
        Turns
          (codes "\nexport function "
            ++ (lower_first enum_name
                ++ (n
                    ++ (codes "("
                        ++ (constructor_params t
                            ++ (codes "): " ++ (enum_name ++ codes " {\n")))))))
          []
          (b'}' ∷ [])
    head = after_clean (codes "\nexport function ") (IsClean-of (codes "\nexport function ") refl) (
        after_clean (lower_first enum_name) (IsClean-lower_first enum_name he) (
          after_clean n h.0 (
            Turns-append (codes "(") {mid = b')' ∷ []} (record { run = λ st b. refl })
              (after_balanced (constructor_params t) (constructor_params-Balances t h.2) (
                Turns-append (codes "): ") {mid = []} (record { run = λ st b. refl })
                  (after_clean enum_name he (record { run = λ st b. refl })))))))

-- The constructors of the variants are well bracketed.
pub type_variant_constructors-Balances :
    (enum_name : Text) (vs : ApiFields)
    → IsClean enum_name
    → AreCleanFields vs
    → Balances (type_variant_constructors enum_name vs)
unfolding type_variant_constructors
type_variant_constructors-Balances enum_name no_fields he h = IsClean-Turns [] tt
type_variant_constructors-Balances enum_name (more_fields v vs) he h =
    after_balanced (variant_constructor enum_name v)
      (variant_constructor-Balances enum_name v he h.0)
      (type_variant_constructors-Balances enum_name vs he h.1)

pub type_def-Balances : (f : ApiField) (doc : Bool) → IsCleanField f → Balances (type_def f doc)
type_def-Balances (field n d t) doc h =
    IsBalanced-Turns (type_def (field n d t) doc) (has_bar t, type_def-Reads n d t doc h)
