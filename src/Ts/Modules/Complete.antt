-- ===== src/Ts/Modules/Complete.antt =====
-- When the binding is generated, and when the generator throws.
use ton_sdk.Base.{
  Text, Option, none, some, List, [], ◌∷◌, any_of, same, returns, required, map_all, ◌>>=◌,
  >>=-eq-returns, All, All-map, Bool-cases, inl, inr, ◌≡◌, ◌↔◌, refl,
}
use ton_sdk.Api.Types.{Api, ApiModule, ApiFunction, ApiType}
use ton_sdk.Api.Info.{get_function_info}
use ton_sdk.Ts.Names.{ref_name_of, get_ref_name}
use ton_sdk.Ts.Functions.{result_type, function_impl}
use ton_sdk.Ts.AppObject.{
  method_decl, app_object_interface, dispatch_case, app_object_dispatch_impl,
}
use ton_sdk.Ts.Modules.{
  app_object_code, app_object_round, app_object_loop, module_function, module_code, modules_code,
}
use ton_sdk.Ts.Modules.Ready.{
  Returns, Returns-bind, Returns-returning, Returns-map_all, map_all-All, IsReady,
  get_function_info-HasReady,
}

module _ (api : Api) where
  Returns-required : {A : Type 0} (o : Option A) {a : A} → o ≡ some a → Returns (required o)
  Returns-required o {a} e = (a, rw e)

  method_decl-Returns : (f : ApiFunction) → IsReady api f → Returns (method_decl api f)
  unfolding method_decl
  method_decl-Returns f (i, t, q) =
      Returns-bind (required f.result) _ (Returns-required f.result q)
        λ r _. Returns-returning (get_function_info api f) _ i

  dispatch_case-Returns : (f : ApiFunction) → IsReady api f → Returns (dispatch_case f)
  unfolding dispatch_case
  dispatch_case-Returns f (_, t, q) =
      Returns-returning (required f.result) _ (Returns-required f.result q)

  app_object_code-Returns :
      (obj : ApiModule) → All (IsReady api) obj.functions → Returns (app_object_code api obj)
  unfolding app_object_code app_object_interface app_object_dispatch_impl
  app_object_code-Returns obj h =
      let methods = Returns-map_all (method_decl api) obj.functions (
        All-map (IsReady api) (λ f. Returns (method_decl api f)) method_decl-Returns obj.functions
          h) in
      let cases = Returns-map_all dispatch_case obj.functions (
        All-map (IsReady api) (λ f. Returns (dispatch_case f)) dispatch_case-Returns obj.functions
          h) in
      Returns-bind (app_object_interface api obj) _
        (Returns-returning (map_all (method_decl api) obj.functions) _ methods)
        λ decl _.
          Returns-returning (app_object_dispatch_impl obj) _
            (Returns-returning (map_all dispatch_case obj.functions) _ cases)

  object_round-Returns :
      (obj : ApiModule) (s : List Text × Text)
      → All (IsReady api) obj.functions
      → Returns (app_object_round api (some obj) s)
  unfolding app_object_round
  object_round-Returns obj s h = elim (Bool-cases (any_of (same obj.name) s.0)) [
    | inl e ↦ (s, rw e)
    | inr e ↦ rw e (Returns-returning (app_object_code api obj) _ (app_object_code-Returns obj h))
  ]

  app_object_round-Returns :
      (o : Option ApiModule) (s : List Text × Text)
      → ((obj : ApiModule) → o ≡ some obj → All (IsReady api) obj.functions)
      → Returns (app_object_round api o s)
  app_object_round-Returns none s r = (s, unfold app_object_round in refl)
  app_object_round-Returns (some obj) s r = object_round-Returns obj s (r obj refl)

  pub app_object_loop-Returns :
      (fs : List ApiFunction) (s : List Text × Text)
      → All (IsReady api) fs
      → Returns (app_object_loop api fs s)
  unfolding app_object_loop
  app_object_loop-Returns [] s h = (s, refl)
  app_object_loop-Returns (f ∷ fs) s (((info, e), t, q), h) =
      Returns-bind (get_function_info api f) _ (info, e)
        λ i p.
          Returns-bind (app_object_round api i.app_object s) _
            (app_object_round-Returns i.app_object s (get_function_info-HasReady api f i p))
            λ s' _. app_object_loop-Returns fs s' h

  function_impl-Returns :
      (m : ApiModule) (f : ApiFunction) → IsReady api f → Returns (function_impl api m f)
  unfolding function_impl result_type
  function_impl-Returns m f (i, t, q) = Returns-bind (get_function_info api f) _ i λ info _.
      Returns-returning (result_type f) _
        (Returns-returning (required f.result) _ (Returns-required f.result q))

  module_function-Returns :
      (m : ApiModule) (f : ApiFunction) → IsReady api f → Returns (module_function api m f)
  unfolding module_function get_ref_name
  module_function-Returns m f (i, t, q) = Returns-bind (get_function_info api f) _ i λ info _.
      Returns-bind (get_ref_name f.result) _
        (Returns-returning (required f.result) _ (Returns-required f.result q))
        λ r _. Returns-returning (function_impl api m f) _ (function_impl-Returns m f (i, t, q))

  required-some :
      (o : Option ApiType) {r : Text}
      → (required o >>= λ t. returns (ref_name_of t)) ≡ returns r
      → (t : ApiType) × (o ≡ some t)
  required-some none q = cc
  required-some (some t) q = (t, refl)

  module_function-IsReady :
      (m : ApiModule) (f : ApiFunction) → Returns (module_function api m f) → IsReady api f
  unfolding module_function get_ref_name
  module_function-IsReady m f (code, h) =
      let (info, e, h₁) = >>=-eq-returns (get_function_info api f) _ h in
      let (r, e', h₂) = >>=-eq-returns (get_ref_name f.result) _ h₁ in
      let (t, q) = required-some f.result e' in ((info, e), t, q)

  abbrev pub IsReadyModule : ApiModule → Type 0
  IsReadyModule m = All (IsReady api) m.functions

  module_code-Returns : (m : ApiModule) → IsReadyModule m → Returns (module_code api m)
  unfolding module_code
  module_code-Returns m h =
      Returns-bind (app_object_loop api m.functions ([], [])) _
        (app_object_loop-Returns m.functions ([], []) h)
        λ objects _. Returns-returning (map_all (module_function api m) m.functions) _ (
          Returns-map_all (module_function api m) m.functions (
            All-map (IsReady api) (λ f. Returns (module_function api m f))
              (module_function-Returns m) m.functions h))

  module_code-IsReady : (m : ApiModule) → Returns (module_code api m) → IsReadyModule m
  unfolding module_code
  module_code-IsReady m (code, h) =
      let (objects, _, h₁) = >>=-eq-returns (app_object_loop api m.functions ([], [])) _ h in
      let (fs, e, _) = >>=-eq-returns (map_all (module_function api m) m.functions) _ h₁ in
      All-map (λ f. Returns (module_function api m f)) (IsReady api) (module_function-IsReady m)
        m.functions (map_all-All (module_function api m) m.functions (fs, e))

  -- The binding is generated exactly when every function of every module has a result and its
  -- information is found; in particular the methods of the app objects never make the generator
  -- throw.
  pub modules_code-returns_iff : Returns (modules_code api) ↔ All IsReadyModule api.modules
  unfolding modules_code
  modules_code-returns_iff = (
    λ (code, h).
        let (cs, e, _) = >>=-eq-returns (map_all (module_code api) api.modules) _ h in
        All-map (λ m. Returns (module_code api m)) IsReadyModule module_code-IsReady api.modules
          (map_all-All (module_code api) api.modules (cs, e)),
    λ h. Returns-returning (map_all (module_code api) api.modules) _ (
        Returns-map_all (module_code api) api.modules (
          All-map IsReadyModule (λ m. Returns (module_code api m)) module_code-Returns api.modules
            h)),
  )
