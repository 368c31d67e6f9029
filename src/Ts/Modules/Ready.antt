-- ===== src/Ts/Modules/Ready.antt =====
-- What a function needs for its code to be generated. The methods of app objects have it.
use ton_sdk.Base.{
  Text, Option, some, List, [], ◌∷◌, codes, same, Outcome, returns, map_all, ◌>>=◌, >>=-eq-returns,
  returns-injective, All, Bool-cases, inl, inr, ◌≡◌, refl, sym, ◌∙◌, ap, arith, subst,
}
use ton_sdk.Api.Types.{
  Api, ApiModule, ApiFunction, ApiType, ApiField, field_name, field_type, generic, to_list,
  types_to_list,
}
use ton_sdk.Api.Info.{
  FunctionInfo, has_fields, variant_function, find_variant, object_functions, get_app_object,
  arc_param, params_param, object_param, info_loop, get_function_info,
}
use ton_sdk.Api.Info.Object.{arc_param_handler}
use ton_sdk.Api.Info.Errors.{get_app_object_sound}

-- The call does not throw.
abbrev pub Returns {ℓ} : {A : Type ℓ} → Outcome A → Type ℓ
Returns {A} m = (a : A) × (m ≡ returns a)

some_injective {ℓ} : {A : Type ℓ} {a b : A} → some a ≡ some b → a ≡ b
some_injective h = cc

module _ {ℓ} {A B : Type ℓ} where
  pub Returns-bind :
      (m : Outcome A) (k : A → Outcome B)
      → Returns m
      → ((a : A) → m ≡ returns a → Returns (k a))
      → Returns (m >>= k)
  Returns-bind m k (a, e) h = let (b, q) = h a e in (b, ap (λ o. o >>= k) e ∙ q)

  pub Returns-returning :
      (m : Outcome A) (g : A → B) → Returns m → Returns (m >>= λ a. returns (g a))
  Returns-returning m g (a, e) = (g a, ap (λ o. o >>= λ b. returns (g b)) e)

  pub Returns-map_all :
      (f : A → Outcome B) (xs : List A) → All (λ x. Returns (f x)) xs → Returns (map_all f xs)
  unfolding map_all
  Returns-map_all f [] h = ([], refl)
  Returns-map_all f (x ∷ xs) ((b, e), h) =
      let (bs, q) = Returns-map_all f xs h in (b ∷ bs, rw (e, q))

  pub map_all-All :
      (f : A → Outcome B) (xs : List A) → Returns (map_all f xs) → All (λ x. Returns (f x)) xs
  unfolding map_all
  map_all-All f [] h = tt
  map_all-All f (x ∷ xs) (bs, e) =
      let (b, p, h₁) = >>=-eq-returns (f x) _ e in
      let (cs, q, h₂) = >>=-eq-returns (map_all f xs) _ h₁ in ((b, p), map_all-All f xs (cs, q))

module _ (api : Api) where
  -- Its information is found, and it has a result.
  abbrev pub IsReady : ApiFunction → Type 0
  IsReady f = Returns (get_function_info api f) × (t : ApiType) × (f.result ≡ some t)

  variant_function-IsReady :
      (obj : Text) (v : ApiField) (r : Option ApiField) → IsReady (variant_function obj v r)
  unfolding variant_function get_function_info info_loop arc_param object_param
  variant_function-IsReady obj v r = elim (Bool-cases (has_fields (field_type v))) [
    | inl e ↦ rw e ((_, refl), _, refl)
    | inr e ↦ rw e ((_, refl), _, refl)
  ]

  object_functions-IsReady :
      (obj : Text) (vs rs : List ApiField) → All IsReady (object_functions obj vs rs)
  unfolding object_functions
  object_functions-IsReady obj [] rs = tt
  object_functions-IsReady obj (v ∷ vs) rs = (
    variant_function-IsReady obj v (find_variant (field_name v) rs),
    object_functions-IsReady obj vs rs,
  )

  -- The methods of an app object are ready.
  abbrev pub HasReady : FunctionInfo → Type 0
  HasReady i = (obj : ApiModule) → i.app_object ≡ some obj → All IsReady obj.functions

  get_app_object-IsReady :
      (args : List ApiType) (obj : ApiModule)
      → get_app_object api args ≡ returns obj
      → All IsReady obj.functions
  get_app_object-IsReady args obj h =
      let (ps, rs, _, _, e) = get_app_object_sound api args obj h in
      subst (λ o. All IsReady o.functions) (sym e)
        (object_functions-IsReady obj.name (to_list ps) (to_list rs))

  params_param-app_object :
      (p : ApiField) (i : FunctionInfo) → (params_param p i).app_object ≡ i.app_object
  unfolding params_param
  params_param-app_object p i = ground arith

  HasReady-eq : (i j : FunctionInfo) → j.app_object ≡ i.app_object → HasReady i → HasReady j
  HasReady-eq i j e h obj q = h obj (sym e ∙ q)

  params_param-HasReady :
      (p : ApiField) (i k : FunctionInfo)
      → returns (params_param p i) ≡ returns k
      → HasReady i
      → HasReady k
  params_param-HasReady p i k h r =
      HasReady-eq i k
        (ap (λ o. o.app_object) (sym (returns-injective h)) ∙ params_param-app_object p i) r

  object_param-HasReady :
      (p : ApiField) (t : ApiType) (i k : FunctionInfo)
      → object_param api p t i ≡ returns k
      → HasReady i
      → HasReady k
  unfolding object_param
  object_param-HasReady p (generic name args) i k h r =
      elim (Bool-cases (same name (codes "AppObject"))) [
        | inl e ↦
            let (obj, q, h₁) =
              >>=-eq-returns (get_app_object api (types_to_list args)) _ (rw e at h) in
            λ o w.
              subst (λ x. All IsReady x.functions)
                (some_injective (ap (λ x. x.app_object) (returns-injective h₁) ∙ w))
                (get_app_object-IsReady (types_to_list args) obj q)
        | inr e ↦ params_param-HasReady p i k (rw e at h) r
      ]
  object_param-HasReady p t i k h r = params_param-HasReady p i k h r

  info_loop-HasReady :
      (ps : List ApiField) (i k : FunctionInfo)
      → info_loop api ps i ≡ returns k
      → HasReady i
      → HasReady k
  unfolding info_loop
  info_loop-HasReady [] i k h r = subst HasReady (returns-injective h) r
  info_loop-HasReady (p ∷ ps) i l h r =
      let t = field_type p in
      let (j, hj, h₁) = >>=-eq-returns (arc_param t i) _ h in
      let (k, hk, h₂) = >>=-eq-returns (object_param api p t j) _ h₁ in
      info_loop-HasReady ps k l h₂
        (object_param-HasReady p t j k hk (HasReady-eq i j (arc_param_handler t i j hj).2 r))

  pub get_function_info-HasReady :
      (f : ApiFunction) (info : FunctionInfo)
      → get_function_info api f ≡ returns info
      → HasReady info
  unfolding get_function_info
  get_function_info-HasReady f info h = info_loop-HasReady f.params _ info h (λ obj e. cc)
