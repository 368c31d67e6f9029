-- ===== src/Docs/Modules/Stack.antt =====
-- What the pages need of the call stack: only the documentation of types goes deep.
use ton_sdk.Base.{
  ℕ, Text, Option, none, some, List, [], ◌∷◌, codes, get_elem?, Outcome, required, map_all,
  Bool-cases, inl, inr, same, split, drop,
}
use ton_sdk.Api.Types.{
  Api, ApiModule, ApiFunction, ApiType, ApiField, field, field_type, generic, ref, types_to_list,
  enum_of_types,
}
use ton_sdk.Api.Info.{
  FunctionInfo, checked_enum, required_ref_enum, referred, object_name, get_app_object, arc_param,
  object_param, info_loop, get_function_info,
}
use ton_sdk.Ts.Functions.{result_type, function_interface}
use ton_sdk.Ts.AppObject.{method_decl, app_object_interface}
use ton_sdk.Docs.Types.{doc_type, document}
use ton_sdk.Docs.Types.Depth.{Follows, Ends, Ends-bind, returning-Ends, doc_type-Ends}
use ton_sdk.Docs.Functions.{
  resolve_ref, optional_type, resolved_params, function_section, type_section, app_object_section,
}
use ton_sdk.Docs.Modules.{collect_objects, add_object, module_page}

required-Ends : {A : Type 0} (o : Option A) → Ends (required o)
required-Ends none = λ q. cc
required-Ends (some a) = λ q. cc

map_all-Ends :
    {A B : Type 0} (f : A → Outcome B) (xs : List A) → ((x : A) → Ends (f x)) → Ends (map_all f xs)
unfolding map_all
map_all-Ends f [] h = λ q. cc
map_all-Ends f (x ∷ xs) h =
    Ends-bind (f x) _ (h x)
      (λ y. returning-Ends (map_all f xs) (λ ys. y ∷ ys) (map_all-Ends f xs h))

checked_enum-Ends : (label : Text) (o : Option ApiField) → Ends (checked_enum label o)
unfolding checked_enum
checked_enum-Ends label none = λ q. cc
checked_enum-Ends label (some (field n d (enum_of_types vs))) = λ q. cc
checked_enum-Ends label (some (field n d _)) = λ q. cc

required_ref_enum-Ends :
    (api : Api) (o : Option ApiType) (label : Text) → Ends (required_ref_enum api o label)
unfolding required_ref_enum
required_ref_enum-Ends api none label = λ q. cc
required_ref_enum-Ends api (some t) label = checked_enum-Ends label (referred api t)

object_name-Ends : (o : Option ApiType) → Ends (object_name o)
unfolding object_name
object_name-Ends none = λ q. cc
object_name-Ends (some (ref name)) =
    returning-Ends (required (get_elem? (split b'.' name) 1)) (drop 8) (required-Ends _)
object_name-Ends (some _) = λ q. cc

get_app_object-Ends : (api : Api) (args : List ApiType) → Ends (get_app_object api args)
unfolding get_app_object
get_app_object-Ends api args =
    Ends-bind (required_ref_enum api (get_elem? args 0) _) _ (required_ref_enum-Ends api _ _) λ ps.
      Ends-bind (required_ref_enum api (get_elem? args 1) _) _ (required_ref_enum-Ends api _ _)
        λ rs. returning-Ends (object_name (get_elem? args 0)) _ (object_name-Ends _)

arc_param-Ends : (t : ApiType) (info : FunctionInfo) → Ends (arc_param t info)
unfolding arc_param
arc_param-Ends (generic name args) info = elim (Bool-cases (same name (codes "Arc"))) [
  | inl e ↦ rw e (returning-Ends (required (get_elem? (types_to_list args) 0)) _ (required-Ends _))
  | inr e ↦ rw e (λ q. cc)
]
arc_param-Ends _ info = λ q. cc

object_param-Ends :
    (api : Api) (p : ApiField) (t : ApiType) (info : FunctionInfo)
    → Ends (object_param api p t info)
unfolding object_param
object_param-Ends api p (generic name args) info =
    elim (Bool-cases (same name (codes "AppObject"))) [
      | inl e ↦
          rw e
            (returning-Ends (get_app_object api (types_to_list args)) _ (get_app_object-Ends api _))
      | inr e ↦ rw e (λ q. cc)
    ]
object_param-Ends api p _ info = λ q. cc

info_loop-Ends :
    (api : Api) (ps : List ApiField) (info : FunctionInfo) → Ends (info_loop api ps info)
unfolding info_loop
info_loop-Ends api [] info = λ q. cc
info_loop-Ends api (p ∷ ps) info =
    Ends-bind (arc_param (field_type p) info) _ (arc_param-Ends (field_type p) info) λ i.
      Ends-bind (object_param api p (field_type p) i) _ (object_param-Ends api p (field_type p) i)
        λ j. info_loop-Ends api ps j

get_function_info-Ends : (api : Api) (f : ApiFunction) → Ends (get_function_info api f)
unfolding get_function_info
get_function_info-Ends api f = info_loop-Ends api f.params _

function_interface-Ends : (api : Api) (f : ApiFunction) → Ends (function_interface api f)
unfolding function_interface result_type
function_interface-Ends api f =
    Ends-bind (get_function_info api f) _ (get_function_info-Ends api f) λ info.
      returning-Ends (result_type f) _ (returning-Ends (required f.result) _ (required-Ends _))

method_decl-Ends : (api : Api) (f : ApiFunction) → Ends (method_decl api f)
unfolding method_decl
method_decl-Ends api f =
    Ends-bind (required f.result) _ (required-Ends _)
      λ r. returning-Ends (get_function_info api f) _ (get_function_info-Ends api f)

app_object_interface-Ends : (api : Api) (obj : ApiModule) → Ends (app_object_interface api obj)
unfolding app_object_interface
app_object_interface-Ends api obj =
    returning-Ends (map_all (method_decl api) obj.functions) _
      (map_all-Ends (method_decl api) obj.functions (method_decl-Ends api))

collect_objects-Ends :
    (api : Api) (fs : List ApiFunction) (objs : List ApiModule) → Ends (collect_objects api fs objs)
unfolding collect_objects
collect_objects-Ends api [] objs = λ q. cc
collect_objects-Ends api (f ∷ fs) objs =
    Ends-bind (get_function_info api f) _ (get_function_info-Ends api f)
      λ info. collect_objects-Ends api fs (add_object info.app_object objs)

-- The stack is deep enough for each declared type that a documentation leads to.
module _ (api : Api) (depth : ℕ)
    (deep : (t : ApiType) (g : ApiField) → Follows api g t → Ends (document api depth g)) where
  optional_type-Ends : (o : Option ApiField) → Ends (optional_type api depth o)
  unfolding optional_type
  optional_type-Ends none = λ q. cc
  optional_type-Ends (some t) =
      doc_type-Ends api (document api depth) (field_type t) (deep (field_type t))

  function_section-Ends : (m : ApiModule) (f : ApiFunction) → Ends (function_section api depth m f)
  unfolding function_section
  function_section-Ends m f =
      Ends-bind (get_function_info api f) _ (get_function_info-Ends api f) λ info.
        let params = resolved_params api m info.params in
        Ends-bind (required f.result) _ (required-Ends f.result) λ t.
          let result = resolve_ref api m t in
          Ends-bind (function_interface api f) _ (function_interface-Ends api f) λ code.
            Ends-bind (optional_type api depth params) _ (optional_type-Ends params)
              λ p. returning-Ends (optional_type api depth result) _ (optional_type-Ends result)

  type_section-Ends : (t : ApiField) → Ends (type_section api depth t)
  unfolding type_section
  type_section-Ends t =
      returning-Ends (doc_type api (document api depth) (field_type t)) _
        (doc_type-Ends api (document api depth) (field_type t) (deep (field_type t)))

  app_object_section-Ends : (obj : ApiModule) → Ends (app_object_section api depth obj)
  unfolding app_object_section
  app_object_section-Ends obj =
      Ends-bind (app_object_interface api obj) _ (app_object_interface-Ends api obj) λ code.
        returning-Ends (map_all (function_section api depth obj) obj.functions) _
          (map_all-Ends (function_section api depth obj) obj.functions (function_section-Ends obj))

  pub module_page-Ends : (m : ApiModule) → Ends (module_page api depth m)
  unfolding module_page
  module_page-Ends m =
      Ends-bind (collect_objects api m.functions []) _ (collect_objects-Ends api m.functions [])
        λ objs.
          Ends-bind (map_all (function_section api depth m) m.functions) _
            (map_all-Ends (function_section api depth m) m.functions (function_section-Ends m))
            λ fs.
              Ends-bind (map_all (type_section api depth) m.types) _
                (map_all-Ends (type_section api depth) m.types type_section-Ends)
                λ ts.
                  returning-Ends (map_all (app_object_section api depth) objs) _
                    (map_all-Ends (app_object_section api depth) objs app_object_section-Ends)
