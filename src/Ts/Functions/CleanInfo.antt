-- ===== src/Ts/Functions/CleanInfo.antt =====
-- What an API with clean names finds about a function has clean names too.
use ton_sdk.Base.{
  some, List, [], ◌∷◌, codes, ◌≡◌, subst, All, returns, returns-injective, ◌>>=◌, >>=-eq-returns,
  same, Bool-cases, inl, inr,
}
use ton_sdk.Api.Types.{
  Api, ApiFunction, ApiField, ApiType, field_name, field_type, generic, types_to_list,
}
use ton_sdk.Api.Info.{
  FunctionInfo, get_function_info, info_loop, arc_param, object_param, params_param, get_app_object,
}
use ton_sdk.Api.Info.Object.{arc_param_handler}
use ton_sdk.Ts.Types.Clean.{IsCleanField}
use ton_sdk.Ts.Functions.Balance.{IsCleanFunction, IsCleanModule, IsCleanInfo}
use ton_sdk.Ts.Functions.CleanObject.{IsClean-get_app_object}

IsCleanInfo-arc_param :
    (t : ApiType) (i j : FunctionInfo) → arc_param t i ≡ returns j → IsCleanInfo i → IsCleanInfo j
IsCleanInfo-arc_param t i j e h =
    let (_, p, o) = arc_param_handler t i j e in
    record { params = rw p h.params; object = rw o h.object }

params_param-IsCleanInfo :
    (p : ApiField) (i : FunctionInfo)
    → IsCleanField p
    → IsCleanInfo i
    → IsCleanInfo (params_param p i)
unfolding params_param
params_param-IsCleanInfo p i k h = elim (Bool-cases (same (field_name p) (codes "params"))) [
  | inl e ↦ rw e (record { params = k; object = h.object })
  | inr e ↦ rw e h
]

generic_param-IsCleanInfo :
    (api : Api) (args : List ApiType) (i j : FunctionInfo)
    → All IsCleanModule api.modules
    → (get_app_object api args >>= λ obj. returns (record i { app_object = some obj })) ≡ returns j
    → IsCleanInfo i
    → IsCleanInfo j
generic_param-IsCleanInfo api args i j h e k =
    let (obj, e₁, e₂) = >>=-eq-returns (get_app_object api args) _ e in
    subst IsCleanInfo (returns-injective e₂)
      (record { params = k.params; object = IsClean-get_app_object api args obj h e₁ })

object_param-IsCleanInfo :
    (api : Api) (p : ApiField) (t : ApiType) (i j : FunctionInfo)
    → All IsCleanModule api.modules
    → IsCleanField p
    → object_param api p t i ≡ returns j
    → IsCleanInfo i
    → IsCleanInfo j
unfolding object_param
object_param-IsCleanInfo api p (generic name args) i j h k e c =
    elim (Bool-cases (same name (codes "AppObject"))) [
      | inl q ↦ generic_param-IsCleanInfo api (types_to_list args) i j h (rw q at e) c
      | inr q ↦ subst IsCleanInfo (returns-injective (rw q at e)) (params_param-IsCleanInfo p i k c)
    ]
object_param-IsCleanInfo api p t i j h k e c =
    subst IsCleanInfo (returns-injective e) (params_param-IsCleanInfo p i k c)

info_loop-IsCleanInfo :
    (api : Api) (ps : List ApiField) (i j : FunctionInfo)
    → All IsCleanModule api.modules
    → All IsCleanField ps
    → info_loop api ps i ≡ returns j
    → IsCleanInfo i
    → IsCleanInfo j
unfolding info_loop
info_loop-IsCleanInfo api [] i j h k e c = subst IsCleanInfo (returns-injective e) c
info_loop-IsCleanInfo api (p ∷ ps) i j h k e c =
    let t = field_type p in
    let (a, ea, e₁) = >>=-eq-returns (arc_param t i) _ e in
    let (b, eb, e₂) = >>=-eq-returns (object_param api p t a) _ e₁ in
    let ca = IsCleanInfo-arc_param t i a ea c in
    info_loop-IsCleanInfo api ps b j h k.1 e₂ (object_param-IsCleanInfo api p t a b h k.0 eb ca)

-- The information on a function with clean names, in an API with clean names, has clean names.
pub get_function_info-IsCleanInfo :
    (api : Api) (f : ApiFunction) (info : FunctionInfo)
    → All IsCleanModule api.modules
    → IsCleanFunction f
    → get_function_info api f ≡ returns info
    → IsCleanInfo info
unfolding get_function_info
get_function_info-IsCleanInfo api f info h k e =
    info_loop-IsCleanInfo api f.params _ info h k.params e (record { params = tt; object = tt })
