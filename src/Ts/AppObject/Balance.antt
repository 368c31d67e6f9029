-- ===== src/Ts/AppObject/Balance.antt =====
-- The interface of an app object, and its dispatch, are well bracketed.
use ton_sdk.Base.{
  Text, Bool, true, false, not, List, [], ◌∷◌, ◌++◌, map, concat, if◌then◌else◌, codes, join, split,
  ◌≡◌, refl, subst, All, Outcome, returns, returns-injective, required, map_all, >>=-eq-returns,
}
use ton_sdk.Api.Types.{Api, ApiModule, ApiFunction, ApiField, ApiType, none_type}
use ton_sdk.Api.Naming.{pascal, upper_first, underscore}
use ton_sdk.Api.Info.{get_function_info}
use ton_sdk.Ts.Types.{type, type_def}
use ton_sdk.Ts.Types.Scan.{
  scan, advance, char_class, is_clean, IsClean, IsClean-of, IsClean-split, IsClean-join,
}
use ton_sdk.Ts.Types.Clean.{IsCleanType, IsCleanField}
use ton_sdk.Ts.Balance.{
  Balances, Turns-append, IsClean-Turns, after_clean, after_balanced, Balances-join,
  Balances-concat,
}
use ton_sdk.Ts.Constructors.Balance.{type_def-Balances, IsClean-upper_first}
use ton_sdk.Ts.Functions.{params_decls}
use ton_sdk.Ts.Functions.Balance.{
  IsCleanFunction, IsCleanModule, Balances-type, params_decls-Balances, IsCleanType-required,
}
use ton_sdk.Ts.Functions.CleanInfo.{get_function_info-IsCleanInfo}
use ton_sdk.Ts.AppObject.{
  is_notify, method_decl, app_object_interface, assignment, case_label, call_args, dispatch_case,
  app_object_dispatch_impl,
}

result_decl-Balances :
    (b : Bool) (t : ApiType)
    → IsCleanType t
    → Balances (if b then codes ": Promise<" ++ (type t [] false ++ codes ">") else codes ": void")
unfolding is_clean char_class
result_decl-Balances true t h =
    after_clean (codes ": Promise<") (IsClean-of (codes ": Promise<") refl) (
      after_balanced (type t [] false) (Balances-type t [] false h tt)
        (IsClean-Turns (codes ">") (IsClean-of (codes ">") refl)))
result_decl-Balances false t h = IsClean-Turns (codes ": void") (IsClean-of (codes ": void") refl)

method_decl-Balances :
    (api : Api) (f : ApiFunction) (text : Text)
    → All IsCleanModule api.modules
    → IsCleanFunction f
    → method_decl api f ≡ returns text
    → Balances text
unfolding method_decl scan advance char_class is_clean
method_decl-Balances api f text h k e =
    let (t, et, e₁) = >>=-eq-returns (required f.result) _ e in
    let (info, ei, e₂) = >>=-eq-returns (get_function_info api f) _ e₁ in
    let ci = get_function_info-IsCleanInfo api f info h k ei in
    let ct = IsCleanType-required f.result et k.result in
    subst Balances (returns-injective e₂) (
      after_clean (codes "\n    ") (IsClean-of (codes "\n    ") refl) (
        after_clean f.name k.name (
          Turns-append (codes "(") {mid = b')' ∷ []} (record { run = λ st b. refl })
            (after_balanced (join (codes ", ") (params_decls info))
              (Balances-join (codes ", ") (params_decls info) (IsClean-of (codes ", ") refl)
                (params_decls-Balances info ci))
              (Turns-append (codes ")") {mid = []} (record { run = λ st b. refl })
                (after_balanced _ (result_decl-Balances (not (is_notify t)) t ct)
                  (IsClean-Turns (codes ",") (IsClean-of (codes ",") refl))))))))

-- The texts that are made of the elements of a list are well bracketed when each is.
pub map_all-Balances {ℓ} :
    {A : Type ℓ} (P : A → Type 0) (f : A → Outcome Text)
    → ((x : A) (s : Text) → P x → f x ≡ returns s → Balances s)
    → (xs : List A) (ts : List Text) → All P xs
    → map_all f xs ≡ returns ts
    → All Balances ts
unfolding map_all
map_all-Balances P f g [] ts h e = subst (All Balances) (returns-injective e) tt
map_all-Balances P f g (x ∷ xs) ts h e =
    let (s, es, e₁) = >>=-eq-returns (f x) _ e in
    let (ss, ess, e₂) = >>=-eq-returns (map_all f xs) _ e₁ in
    subst (All Balances) (returns-injective e₂) (g x s h.0 es, map_all-Balances P f g xs ss h.1 ess)

type_defs-Balances :
    (ts : List ApiField)
    → All IsCleanField ts
    → Balances (concat (map (λ t. codes "\n" ++ type_def t false) ts))
unfolding is_clean char_class
type_defs-Balances [] h = IsClean-Turns [] tt
type_defs-Balances (t ∷ ts) h =
    after_clean (codes "\n") (IsClean-of (codes "\n") refl) (
      after_balanced (type_def t false) (type_def-Balances t false h.0) (type_defs-Balances ts h.1))

pub app_object_interface-Balances :
    (api : Api) (obj : ApiModule) (text : Text)
    → All IsCleanModule api.modules
    → IsCleanModule obj
    → app_object_interface api obj ≡ returns text
    → Balances text
unfolding app_object_interface scan advance char_class is_clean
app_object_interface-Balances api obj text h k e =
    let (ms, em, e₁) = >>=-eq-returns (map_all (method_decl api) obj.functions) _ e in
    let cm =
      map_all-Balances IsCleanFunction (method_decl api)
        (λ f s c q. method_decl-Balances api f s h c q) obj.functions ms k.functions em in
    subst Balances (returns-injective e₁) (
      after_balanced (concat (map (λ t. codes "\n" ++ type_def t false) obj.types))
        (type_defs-Balances obj.types k.types)
        (after_clean (codes "\nexport interface ") (IsClean-of (codes "\nexport interface ") refl) (
          after_clean obj.name k.name (
            Turns-append (codes " {") {mid = b'}' ∷ []} (record { run = λ st b. refl })
              (after_balanced (concat ms) (Balances-concat ms cm)
                (record { run = λ st b. refl }))))))

awaits-IsClean : (b : Bool) → IsClean (if b then codes "result = await " else [])
unfolding is_clean char_class
awaits-IsClean true = IsClean-of (codes "result = await ") refl
awaits-IsClean false = tt

assignment-IsClean : (t : ApiType) → IsClean (assignment t)
unfolding assignment is_notify is_clean char_class
assignment-IsClean none_type = IsClean-of (codes "await ") refl
assignment-IsClean t = awaits-IsClean (not (is_notify t))

words-IsClean : (ws : List Text) → All IsClean ws → All IsClean (map upper_first ws)
words-IsClean [] h = tt
words-IsClean (w ∷ ws) h = (IsClean-upper_first w h.0, words-IsClean ws h.1)

case_label-IsClean : (f : ApiFunction) → IsClean f.name → IsClean (case_label f)
unfolding case_label pascal
case_label-IsClean f h =
    IsClean-join [] (map upper_first (split underscore f.name)) tt
      (words-IsClean (split underscore f.name) (IsClean-split underscore f.name h))

call_args-IsClean : (ps : List ApiField) → IsClean (call_args ps)
unfolding is_clean char_class
call_args-IsClean [] = tt
call_args-IsClean (p ∷ ps) = IsClean-of (codes "params") refl

dispatch_case-Balances :
    (f : ApiFunction) (text : Text)
    → IsClean f.name
    → dispatch_case f ≡ returns text
    → Balances text
unfolding dispatch_case scan advance char_class is_clean
dispatch_case-Balances f text k e =
    let (t, et, e₁) = >>=-eq-returns (required f.result) _ e in
    subst Balances (returns-injective e₁) (
      after_clean (codes "\n            case '") (IsClean-of (codes "\n            case '") refl) (
        after_clean (case_label f) (case_label-IsClean f k) (
          after_clean (codes "':\n                ")
            (IsClean-of (codes "':\n                ") refl)
            (after_clean (assignment t) (assignment-IsClean t) (
              after_clean (codes "obj.") (IsClean-of (codes "obj.") refl) (
                after_clean f.name k (
                  Turns-append (codes "(") {mid = b')' ∷ []} (record { run = λ st b. refl })
                    (after_clean (call_args f.params) (call_args-IsClean f.params)
                      (record { run = λ st b. refl })))))))))

pub app_object_dispatch_impl-Balances :
    (obj : ApiModule) (text : Text)
    → IsCleanModule obj
    → app_object_dispatch_impl obj ≡ returns text
    → Balances text
unfolding app_object_dispatch_impl scan advance char_class is_clean
app_object_dispatch_impl-Balances obj text k e =
    let (cs, ec, e₁) = >>=-eq-returns (map_all dispatch_case obj.functions) _ e in
    let cc' =
      map_all-Balances IsCleanFunction dispatch_case
        (λ f s c q. dispatch_case-Balances f s c.name q) obj.functions cs k.functions ec in
    subst Balances (returns-injective e₁) (
      after_clean (codes "\nasync function dispatch")
        (IsClean-of (codes "\nasync function dispatch") refl)
        (after_clean obj.name k.name (
          Turns-append (codes "(obj: ") {mid = b')' ∷ []} (record { run = λ st b. refl })
            (after_clean obj.name k.name (
              after_clean (codes ", params: ParamsOf")
                (IsClean-of (codes ", params: ParamsOf") refl)
                (after_clean obj.name k.name (
                  Turns-append
                    (codes
                      ", app_request_id: number | null, client: IClient) {\n    try {\n        let result = {};\n        switch (params.type) {")
                    {mid = b'}' ∷ b'}' ∷ b'}' ∷ []} (record { run = λ st b. refl })
                    (after_balanced (concat cs) (Balances-concat cs cc')
                      (record { run = λ st b. refl })))))))))
