-- ===== src/Ts/Modules/Balance.antt =====
-- The whole binding is well bracketed.
use ton_sdk.Base.{
  Text, false, true, Option, none, some, List, [], ◌∷◌, ◌++◌, map, concat, codes, any_of, same, ◌≡◌,
  refl, subst, All, returns, returns-injective, map_all, >>=-eq-returns, Bool-cases, inl, inr,
  required,
}
use ton_sdk.Api.Types.{Api, ApiModule, ApiFunction, ApiField, ApiType, enum_of_types, field}
use ton_sdk.Api.Naming.{upper_first}
use ton_sdk.Api.Info.{get_function_info}
use ton_sdk.Ts.Names.{ref_name_of, get_ref_name}
use ton_sdk.Ts.JsDoc.{js_doc, js_doc_start, js_doc_end, element_js_doc}
use ton_sdk.Ts.Types.{step, type_def}
use ton_sdk.Ts.Types.Scan.{scan, advance, char_class, is_clean, IsClean, IsClean-of}
use ton_sdk.Ts.Types.Clean.{
  IsCleanField, IsClean-append, IsClean-js_doc, Reads-js_doc_start, IsClean-js_doc_end,
  Reads-element_js_doc,
}
use ton_sdk.Ts.Balance.{
  Turns, Balances, Turns-append, IsBalanced-Turns, IsClean-Turns, after_clean, after_balanced,
  Balances-concat,
}
use ton_sdk.Ts.JsDoc.Brackets.{Turns-js_doc}
use ton_sdk.Ts.Constructors.Balance.{
  type_def-Balances, type_variant_constructors-Balances, IsClean-upper_first,
}
use ton_sdk.Ts.Functions.{function_impl}
use ton_sdk.Ts.Functions.Balance.{
  IsCleanFunction, IsCleanModule, IsCleanResult, IsCleanParams, IsCleanObject, IsCleanType-required,
  function_impl-Balances,
}
use ton_sdk.Ts.Functions.CleanInfo.{get_function_info-IsCleanInfo}
use ton_sdk.Ts.Functions.CleanNames.{IsClean-ref_name_of}
use ton_sdk.Ts.AppObject.{app_object_interface, app_object_dispatch_impl}
use ton_sdk.Ts.AppObject.Balance.{
  map_all-Balances, app_object_interface-Balances, app_object_dispatch_impl-Balances,
}
use ton_sdk.Ts.Modules.{
  exported_type, app_object_code, app_object_round, app_object_loop, param_doc, module_function,
  class_head, module_code, modules_code, modules_header,
}

exported_type-Balances : (t : ApiField) → IsCleanField t → Balances (exported_type t)
unfolding exported_type is_clean char_class
exported_type-Balances (field n d (enum_of_types vs)) h =
    after_clean (codes "\nexport ") (IsClean-of (codes "\nexport ") refl) (
      after_balanced (type_def (field n d (enum_of_types vs)) true)
        (type_def-Balances (field n d (enum_of_types vs)) true h)
        (type_variant_constructors-Balances n vs h.0 h.2))
exported_type-Balances t h =
    after_clean (codes "\nexport ") (IsClean-of (codes "\nexport ") refl)
      (type_def-Balances t true h)

exported_types-Balances :
    (ts : List ApiField) → All IsCleanField ts → Balances (concat (map exported_type ts))
exported_types-Balances [] h = IsClean-Turns [] tt
exported_types-Balances (t ∷ ts) h =
    after_balanced (exported_type t) (exported_type-Balances t h.0) (exported_types-Balances ts h.1)

step-IsClean : IsClean step
unfolding is_clean char_class
step-IsClean = IsClean-of step refl

param_doc-Balances : (o : Option ApiField) → IsCleanParams o → Balances (param_doc o)
unfolding param_doc scan advance char_class is_clean
param_doc-Balances none h = IsClean-Turns [] tt
param_doc-Balances (some (field n d t)) h =
    after_clean (js_doc [] step) (IsClean-js_doc [] step step-IsClean tt) (
      Turns-js_doc step step-IsClean (codes "@param {" ++ (ref_name_of t ++ (codes "} " ++ n))) (
        Turns-append (codes "@param {") {mid = b'}' ∷ []} (record { run = λ st b. refl })
          (after_clean (ref_name_of t) (IsClean-ref_name_of t h.2)
            (Turns-append (codes "} ") (record { run = λ st b. refl }) (IsClean-Turns n h.0)))))

get_ref_name-IsClean :
    (o : Option ApiType) (s : Text) → IsCleanResult o → get_ref_name o ≡ returns s → IsClean s
unfolding get_ref_name
get_ref_name-IsClean o s h e =
    let (t, et, e₁) = >>=-eq-returns (required o) _ e in
    subst IsClean (returns-injective e₁) (IsClean-ref_name_of t (IsCleanType-required o et h))

class_head-Turns : (m : ApiModule) → IsClean m.name → Turns (class_head m) [] (b'}' ∷ [])
unfolding class_head scan advance char_class is_clean
class_head-Turns m h =
    after_clean (codes "\nexport class ") (IsClean-of (codes "\nexport class ") refl) (
      after_clean (upper_first m.name) (IsClean-upper_first m.name h)
        (record { run = λ st b. refl }))

module _ (api : Api) (clean : All IsCleanModule api.modules) where
  app_object_code-Balances :
      (obj : ApiModule) (text : Text)
      → IsCleanModule obj
      → app_object_code api obj ≡ returns text
      → Balances text
  unfolding app_object_code is_clean char_class
  app_object_code-Balances obj text k e =
      let (decl, ed, e₁) = >>=-eq-returns (app_object_interface api obj) _ e in
      let (impl, ei, e₂) = >>=-eq-returns (app_object_dispatch_impl obj) _ e₁ in
      subst Balances (returns-injective e₂) (
        after_balanced decl (app_object_interface-Balances api obj decl clean k ed) (
          after_clean (codes "\n") (IsClean-of (codes "\n") refl)
            (app_object_dispatch_impl-Balances obj impl k ei)))

  app_object_round-Balances :
      (o : Option ApiModule) (s s' : List Text × Text)
      → IsCleanObject o
      → app_object_round api o s ≡ returns s'
      → Balances s.1
      → Balances s'.1
  unfolding app_object_round
  app_object_round-Balances none s s' k e h = subst (λ x. Balances x.1) (returns-injective e) h
  app_object_round-Balances (some obj) s s' k e h = elim (Bool-cases (any_of (same obj.name) s.0)) [
    | inl q ↦ subst (λ x. Balances x.1) (returns-injective (rw q at e)) h
    | inr q ↦
        let (code, ec, e₁) = >>=-eq-returns (app_object_code api obj) _ (rw q at e) in
        subst (λ x. Balances x.1) (returns-injective e₁)
          (after_balanced s.1 h (app_object_code-Balances obj code k ec))
  ]

  app_object_loop-Balances :
      (fs : List ApiFunction) (s s' : List Text × Text)
      → All IsCleanFunction fs
      → app_object_loop api fs s ≡ returns s'
      → Balances s.1
      → Balances s'.1
  unfolding app_object_loop
  app_object_loop-Balances [] s s' k e h = subst (λ x. Balances x.1) (returns-injective e) h
  app_object_loop-Balances (f ∷ fs) s s' k e h =
      let (info, ei, e₁) = >>=-eq-returns (get_function_info api f) _ e in
      let (r, er, e₂) = >>=-eq-returns (app_object_round api info.app_object s) _ e₁ in
      let ci = get_function_info-IsCleanInfo api f info clean k.0 ei in
      app_object_loop-Balances fs r s' k.1 e₂
        (app_object_round-Balances info.app_object s r ci.object er h)

  module_function-Balances :
      (owner : ApiModule) (f : ApiFunction) (text : Text)
      → IsClean owner.name
      → IsCleanFunction f
      → module_function api owner f ≡ returns text
      → Balances text
  unfolding module_function is_clean char_class
  module_function-Balances owner f text h k e =
      let (info, ei, e₁) = >>=-eq-returns (get_function_info api f) _ e in
      let (result, er, e₂) = >>=-eq-returns (get_ref_name f.result) _ e₁ in
      let (impl, em, e₃) = >>=-eq-returns (function_impl api owner f) _ e₂ in
      let ci = get_function_info-IsCleanInfo api f info clean k ei in
      let cr = get_ref_name-IsClean f.result result k.result er in
      subst Balances (returns-injective e₃) (
        after_balanced (js_doc_start f.doc step)
          (IsBalanced-Turns (js_doc_start f.doc step)
            (false, Reads-js_doc_start f.doc step k.doc step-IsClean))
          (after_balanced (param_doc info.params) (param_doc-Balances info.params ci.params) (
            after_clean (js_doc (codes "@returns " ++ result) step)
              (IsClean-js_doc (codes "@returns " ++ result) step step-IsClean (
                IsClean-append (codes "@returns ") result (IsClean-of (codes "@returns ") refl) cr))
              (after_clean (js_doc_end step) (IsClean-js_doc_end step step-IsClean)
                (function_impl-Balances api owner f info impl ei em h k ci)))))

  module_code-Balances :
      (m : ApiModule) (text : Text)
      → IsCleanModule m
      → module_code api m ≡ returns text
      → Balances text
  unfolding module_code scan advance char_class is_clean
  module_code-Balances m text k e =
      let (objects, eo, e₁) = >>=-eq-returns (app_object_loop api m.functions ([], [])) _ e in
      let (fs, ef, e₂) = >>=-eq-returns (map_all (module_function api m) m.functions) _ e₁ in
      let co =
        app_object_loop-Balances m.functions ([], []) objects k.functions eo
          (IsClean-Turns [] tt) in
      let cf =
        map_all-Balances IsCleanFunction (module_function api m)
          (λ f s c q. module_function-Balances m f s k.name c q) m.functions fs k.functions ef in
      subst Balances (returns-injective e₂) (
        after_clean (codes "// ") (IsClean-of (codes "// ") refl) (
          after_clean m.name k.name (
            after_clean (codes " module\n\n") (IsClean-of (codes " module\n\n") refl) (
              after_balanced (concat (map exported_type m.types))
                (exported_types-Balances m.types k.types)
                (after_balanced objects.1 co (
                  after_balanced (element_js_doc m.doc [])
                    (IsBalanced-Turns (element_js_doc m.doc [])
                      (false, Reads-element_js_doc m.doc [] k.doc tt))
                    (Turns-append (class_head m) (class_head-Turns m k.name) (
                      after_balanced (concat fs) (Balances-concat fs cf)
                        (record { run = λ st b. refl })))))))))

header-Balances : Balances modules_header
unfolding scan advance char_class
header-Balances = record { run = λ st b. refl }

-- Where the names and constants of the API hold no bracket and no bar, and its comments are well
-- bracketed with no bar outside their brackets, the text of the whole binding is well bracketed: each closing bracket matches the innermost one that is open,
-- and none is left open at the end.
pub modules_code-Balances :
    (api : Api) (text : Text)
    → All IsCleanModule api.modules
    → modules_code api ≡ returns text
    → Balances text
unfolding modules_code is_clean char_class
modules_code-Balances api text h e =
    let (ms, em, e₁) = >>=-eq-returns (map_all (module_code api) api.modules) _ e in
    let cm =
      map_all-Balances IsCleanModule (module_code api)
        (λ m s c q. module_code-Balances api h m s c q) api.modules ms h em in
    subst Balances (returns-injective e₁) (
      after_clean (codes "\n") (IsClean-of (codes "\n") refl) (
        after_balanced modules_header header-Balances (
          after_clean (codes "\n") (IsClean-of (codes "\n") refl) (
            after_balanced (concat ms) (Balances-concat ms cm)
              (IsClean-Turns (codes "\n") (IsClean-of (codes "\n") refl))))))
