-- ===== src/Api/Info/Object.antt =====
-- What `getFunctionInfo` collects from the parameters of a function.
use ton_sdk.Base.{
  Option, none, some, List, [], ◌∷◌, codes, returns, refl, ◌≡◌, ◌||◌, ◌&&◌, not, arith, Bool, true,
  false, same, same_iff, subst, any_of, >>=-eq-returns,
}
use ton_sdk.Api.Types.{
  Api, ApiFunction, ApiField, ApiType, no_types, more_types, ref, generic, types_to_list,
  field_name, field_type,
}
use ton_sdk.Api.Info.{
  FunctionInfo, is_request_ref, arc_param, params_param, object_param, info_loop, get_function_info,
}

abbrev pub is_some {ℓ} : {A : Type ℓ} → Option A → Bool
is_some none = false
is_some (some a) = true

abbrev pub first_is_request : List ApiType → Bool
first_is_request [] = false
first_is_request (ref name ∷ ts) = same name (codes "Request")
first_is_request (t ∷ ts) = false

-- A parameter of type `Arc<Request>`.
abbrev pub is_handler : ApiType → Bool
is_handler (generic name args) = same name (codes "Arc") && first_is_request (types_to_list args)
is_handler _ = false

-- A parameter of type `AppObject<…>`.
abbrev pub is_app_object : ApiType → Bool
is_app_object (generic name args) = same name (codes "AppObject")
is_app_object _ = false

-- A parameter with the name `params`, of any other type.
abbrev pub is_params : ApiField → Bool
is_params p = same (field_name p) (codes "params") && not (is_app_object (field_type p))

is_request_ref-first :
    (t : ApiType) (ts : List ApiType) → is_request_ref t ≡ first_is_request (t ∷ ts)
unfolding is_request_ref
is_request_ref-first (ref name) ts = refl
is_request_ref-first t ts = refl

pub arc_param_handler :
    (t : ApiType) (i j : FunctionInfo)
    → arc_param t i ≡ returns j
    → (j.has_response_handler ≡ (i.has_response_handler || is_handler t))
      × (j.params ≡ i.params)
      × (j.app_object ≡ i.app_object)
unfolding arc_param
arc_param_handler (generic name no_types) i j h = ground arith
arc_param_handler (generic name (more_types t ts)) i j h =
    ground (arith, is_request_ref-first t (types_to_list ts))
arc_param_handler t i j h = ground arith

object_param_lem :
    (api : Api) (p : ApiField) (t : ApiType) (i j : FunctionInfo)
    → object_param api p t i ≡ returns j
    → (j.has_response_handler ≡ i.has_response_handler)
      × (is_some j.params
          ≡ (is_some i.params || (same (field_name p) (codes "params") && not (is_app_object t))))
      × (is_some j.app_object ≡ (is_some i.app_object || is_app_object t))
unfolding object_param params_param
object_param_lem api p (generic name args) i j h = ground arith
object_param_lem api p t i j h = ground arith

-- A parameter with the name `params`, if any.
abbrev pub IsNamedParams : Option ApiField → Type 0
IsNamedParams none = Unit
IsNamedParams (some p) = field_name p ≡ codes "params"

object_param-IsNamedParams :
    (api : Api) (p : ApiField) (t : ApiType) (i j : FunctionInfo)
    → IsNamedParams i.params
    → object_param api p t i ≡ returns j
    → IsNamedParams j.params
unfolding object_param params_param
object_param-IsNamedParams api p (generic name args) i j k h =
    ground (arith, same_iff (field_name p) (codes "params"))
object_param-IsNamedParams api p t i j k h =
    ground (arith, same_iff (field_name p) (codes "params"))

-- What the information `j` adds to `i` by the parameters `ps`.
record Adds (ps : List ApiField) (i j : FunctionInfo) : Type 0 where
  handler :
      j.has_response_handler
      ≡ (i.has_response_handler || any_of (λ p. is_handler (field_type p)) ps)
  params : is_some j.params ≡ (is_some i.params || any_of is_params ps)
  object :
      is_some j.app_object ≡ (is_some i.app_object || any_of (λ p. is_app_object (field_type p)) ps)
  named : IsNamedParams i.params → IsNamedParams j.params

info_loop-Adds :
    (api : Api) (ps : List ApiField) (i k : FunctionInfo)
    → info_loop api ps i ≡ returns k
    → Adds ps i k
unfolding info_loop
info_loop-Adds api [] i k h =
    let e : i ≡ k = cc in
    subst (Adds [] i) e (record {
      handler = ground arith;
      params = ground arith;
      object = ground arith;
      named = λ n. n;
    })
info_loop-Adds api (p ∷ ps) i l h =
    let t = field_type p in
    let (j, hj, h₁) = >>=-eq-returns (arc_param t i) _ h in
    let (k, hk, h₂) = >>=-eq-returns (object_param api p t j) _ h₁ in
    let first = arc_param_handler t i j hj in
    let second = object_param_lem api p t j k hk in
    let rest = info_loop-Adds api ps k l h₂ in
    record {
      handler = ground arith;
      params = ground arith;
      object = ground arith;
      named = λ n. rest.named (object_param-IsNamedParams api p t j k (rw first.1 n) hk);
    }

-- The information says that there is a response handler exactly when a parameter is an
-- `Arc<Request>`, has parameters exactly when a parameter other than an `AppObject` is named
-- `params`, with that name, and has an app object exactly when a parameter is an `AppObject`.
pub get_function_info_sound :
    (api : Api) (f : ApiFunction) (info : FunctionInfo)
    → get_function_info api f ≡ returns info
    → (info.has_response_handler ≡ any_of (λ p. is_handler (field_type p)) f.params)
      × (is_some info.params ≡ any_of is_params f.params)
      × IsNamedParams info.params
      × (is_some info.app_object ≡ any_of (λ p. is_app_object (field_type p)) f.params)
unfolding get_function_info
get_function_info_sound api f info h =
    let adds = info_loop-Adds api f.params _ info h in
    (adds.handler, adds.params, adds.named tt, adds.object)
