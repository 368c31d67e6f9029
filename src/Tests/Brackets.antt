-- ===== src/Tests/Brackets.antt =====
-- The brackets of the binding of the small API.
use ton_sdk.Base.{Text, true, false, none, some, [], ◌∷◌, codes, split, same, All, refl, ◌≡◌}
use ton_sdk.Api.Types.{
  ApiType, undocumented, ref, string, struct, enum_of_types, field, no_fields, generic, more_types,
  no_types,
}
use ton_sdk.Api.Find.{find_type, qualified}
use ton_sdk.Api.Info.{FunctionInfo, get_function_info}
use ton_sdk.Ts.Types.Scan.{char_class, is_clean, IsClean-of, Reads-IsClean}
use ton_sdk.Ts.Types.Clean.{IsCleanDoc, IsCleanField, IsCleanType}
use ton_sdk.Ts.Balance.{Balances}
use ton_sdk.Ts.Functions.Balance.{IsCleanFunction, IsCleanModule}
use ton_sdk.Ts.Modules.{modules_code}
use ton_sdk.Ts.Modules.Ready.{Returns, IsReady}
use ton_sdk.Ts.Modules.Complete.{modules_code-returns_iff}
use ton_sdk.Ts.Modules.Balance.{modules_code-Balances}
use ton_sdk.Tests.{
  api, register_box, signing_box, params_variants, result_variants, params_enum, result_enum,
  one_field, object_args,
}

no_doc : IsCleanDoc undocumented
no_doc = record { summary = tt; description = tt }

bare :
    (n : Text) (t : ApiType)
    → is_clean n ≡ true
    → IsCleanType t
    → IsCleanField (field n undocumented t)
bare n t h k = (IsClean-of n h, no_doc, k)

-- A variant that is a struct with one text.
one_bare :
    (n m : Text)
    → is_clean n ≡ true
    → is_clean m ≡ true
    → IsCleanField (field n undocumented (one_field m))
one_bare n m h k = bare n (one_field m) h (bare m string k tt, tt)

types_clean : All IsCleanField (params_enum ∷ result_enum ∷ [])
unfolding is_clean char_class
types_clean = (
  bare (codes "ParamsOfAppSigningBox") (enum_of_types params_variants) refl (
    bare (codes "GetPublicKey") (struct no_fields) refl tt,
    (
      one_bare (codes "Sign") (codes "unsigned") refl refl,
      (one_bare (codes "Log") (codes "msg") refl refl, tt),
    ),
  ),
  (
    bare (codes "ResultOfAppSigningBox") (enum_of_types result_variants) refl (
      one_bare (codes "GetPublicKey") (codes "public_key") refl refl,
      (one_bare (codes "Sign") (codes "signature") refl refl, tt),
    ),
    tt,
  ),
)

abbrev box_ref : ApiType
box_ref = ref (codes "crypto.RegisteredSigningBox")

abbrev context_type : ApiType
context_type = generic (codes "Arc") (more_types (ref (codes "ClientContext")) no_types)

function_clean : IsCleanFunction (register_box (some box_ref))
unfolding is_clean char_class
function_clean = record {
  name = IsClean-of (codes "register_signing_box") refl;
  doc = record {
    summary =
        Reads-IsClean (codes "Register an application implemented signing box.")
          (IsClean-of (codes "Register an application implemented signing box.") refl);
    description = tt;
  };
  params = (
    bare (codes "context") context_type refl tt,
    (bare (codes "app_object") (generic (codes "AppObject") object_args) refl tt, tt),
  );
  result = IsClean-of (codes "crypto.RegisteredSigningBox") refl;
}

api_clean : All IsCleanModule api.modules
unfolding is_clean char_class
api_clean = (
  record {
    name = IsClean-of (codes "crypto") refl;
    doc = record {
      summary =
          Reads-IsClean (codes "Crypto functions.") (IsClean-of (codes "Crypto functions.") refl);
      description = tt;
    };
    types = types_clean;
    functions = (function_clean, tt);
  },
  tt,
)

abbrev box_info : FunctionInfo
box_info = record { params = none; has_response_handler = false; app_object = some signing_box }

box-IsReady : IsReady api (register_box (some box_ref))
unfolding get_function_info find_type qualified same split
box-IsReady = ((box_info, refl), box_ref, refl)

binding_made : Returns (modules_code api)
binding_made = (modules_code-returns_iff api).1 ((box-IsReady, tt), tt)

modules_code-Balances_example : Balances binding_made.0
modules_code-Balances_example = modules_code-Balances api binding_made.0 api_clean binding_made.1
