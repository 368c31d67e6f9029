-- ===== src/Ts/Functions/Balance.antt =====
-- The text of a function of the binding is well bracketed.
use ton_sdk.Base.{
  Text, Bool, true, false, Option, none, some, List, [], ◌∷◌, codes, join, ◌≡◌, refl, sym, ◌∙◌,
  subst, All, All-append, returns, returns-injective, required, >>=-eq-returns,
}
use ton_sdk.Api.Types.{Api, ApiModule, ApiFunction, ApiField, ApiType, field}
use ton_sdk.Api.Info.{FunctionInfo, get_function_info}
use ton_sdk.Ts.Types.{type}
use ton_sdk.Ts.Types.Scan.{scan, advance, char_class, is_clean, IsClean, IsClean-of}
use ton_sdk.Ts.Types.Clean.{IsCleanDoc, IsCleanType, IsCleanField}
use ton_sdk.Ts.Types.Union.{type-Reads, has_bar}
use ton_sdk.Ts.Balance.{
  Balances, Turns-append, IsBalanced-Turns, IsClean-Turns, after_clean, after_balanced,
  Balances-join,
}
use ton_sdk.Ts.Functions.{
  params_decls, params_decl, object_decl, dispatch_callback, request_args, handler_args, params_arg,
  undefined_arg, function_impl, result_type, impl_text,
}

abbrev pub IsCleanResult : Option ApiType → Type 0
IsCleanResult none = Unit
IsCleanResult (some t) = IsCleanType t

-- Every name and constant of the function is free of brackets and bars, and every comment is well
-- bracketed with no bar outside its brackets.
pub record IsCleanFunction (f : ApiFunction) : Type 0 where
  pub name : IsClean f.name
  pub doc : IsCleanDoc f.doc
  pub params : All IsCleanField f.params
  pub result : IsCleanResult f.result

-- The same for all that a module declares.
pub record IsCleanModule (m : ApiModule) : Type 0 where
  pub name : IsClean m.name
  pub doc : IsCleanDoc m.doc
  pub types : All IsCleanField m.types
  pub functions : All IsCleanFunction m.functions

abbrev pub IsCleanParams : Option ApiField → Type 0
IsCleanParams none = Unit
IsCleanParams (some p) = IsCleanField p

abbrev pub IsCleanObject : Option ApiModule → Type 0
IsCleanObject none = Unit
IsCleanObject (some obj) = IsCleanModule obj

-- The same for what the information on a function names.
pub record IsCleanInfo (info : FunctionInfo) : Type 0 where
  pub params : IsCleanParams info.params
  pub object : IsCleanObject info.app_object

pub Balances-type :
    (t : ApiType) (indent : Text) (doc : Bool)
    → IsCleanType t
    → IsClean indent
    → Balances (type t indent doc)
Balances-type t indent doc h k =
    IsBalanced-Turns (type t indent doc) (has_bar t, type-Reads t indent doc h k)

params_decl-Balances : (o : Option ApiField) → IsCleanParams o → All Balances (params_decl o)
unfolding is_clean char_class
params_decl-Balances none h = tt
params_decl-Balances (some (field n d t)) h = (
  after_clean n h.0
      (after_clean (codes ": ") (IsClean-of (codes ": ") refl) (Balances-type t [] false h.2 tt)),
  tt,
)

object_decl-Balances :
    (o : Option ApiModule) (b : Bool) → IsCleanObject o → All Balances (object_decl o b)
unfolding is_clean char_class
object_decl-Balances (some obj) b h = (
  after_clean (codes "obj: ") (IsClean-of (codes "obj: ") refl) (IsClean-Turns obj.name h.name),
  tt,
)
object_decl-Balances none true h = (
  IsClean-Turns (codes "responseHandler?: ResponseHandler")
      (IsClean-of (codes "responseHandler?: ResponseHandler") refl),
  tt,
)
object_decl-Balances none false h = tt

pub params_decls-Balances :
    (info : FunctionInfo) → IsCleanInfo info → All Balances (params_decls info)
unfolding params_decls
params_decls-Balances info h =
    All-append Balances (params_decl info.params) _ (params_decl-Balances info.params h.params)
      (object_decl-Balances info.app_object info.has_response_handler h.object)

dispatch_callback-Balances : (obj : ApiModule) → IsClean obj.name → Balances (dispatch_callback obj)
unfolding dispatch_callback scan advance char_class
dispatch_callback-Balances obj h =
    Turns-append
      (codes
        "(params: any, responseType: number) => {\n            if (responseType === 3) {\n                dispatch")
      {mid = b'}' ∷ b'}' ∷ []} (record { run = λ st b. refl })
      (after_clean obj.name h (
        Turns-append
          (codes
            "(obj, params.request_data, params.app_request_id, this.client);\n            } else if (responseType === 4) {\n                dispatch")
          {mid = b'}' ∷ b'}' ∷ []} (record { run = λ st b. refl })
          (after_clean obj.name h (record { run = λ st b. refl }))))

undefined_arg-Balances : (o : Option ApiField) → All Balances (undefined_arg o)
unfolding is_clean char_class
undefined_arg-Balances none =
    (IsClean-Turns (codes "undefined") (IsClean-of (codes "undefined") refl), tt)
undefined_arg-Balances (some p) = tt

-- The argument that hands the requests on, in front of which a missing parameter is written out.
handler_args-Balances :
    (info : FunctionInfo) (o : Option ApiModule) (b : Bool)
    → IsCleanObject o
    → All Balances (handler_args info o b)
unfolding is_clean char_class
handler_args-Balances info (some obj) b h =
    All-append Balances (undefined_arg info.params) _ (undefined_arg-Balances info.params)
      (dispatch_callback-Balances obj h.name, tt)
handler_args-Balances info none true h =
    All-append Balances (undefined_arg info.params) _ (undefined_arg-Balances info.params)
      (IsClean-Turns (codes "responseHandler") (IsClean-of (codes "responseHandler") refl), tt)
handler_args-Balances info none false h = tt

params_arg-Balances : (o : Option ApiField) → IsCleanParams o → All Balances (params_arg o)
params_arg-Balances none h = tt
params_arg-Balances (some (field n d t)) h = (IsClean-Turns n h.0, tt)

request_args-Balances :
    (owner : ApiModule) (f : ApiFunction) (info : FunctionInfo)
    → IsClean owner.name
    → IsClean f.name
    → IsCleanInfo info
    → All Balances (request_args owner f info)
unfolding request_args is_clean char_class
request_args-Balances owner f info h k c = (
  after_clean (codes "'") (IsClean-of (codes "'") refl) (
      after_clean owner.name h (
        after_clean (codes ".") (IsClean-of (codes ".") refl)
          (after_clean f.name k (IsClean-Turns (codes "'") (IsClean-of (codes "'") refl))))),
  All-append Balances (params_arg info.params) _ (params_arg-Balances info.params c.params)
      (handler_args-Balances info info.app_object info.has_response_handler c.object),
)

pub IsCleanType-required :
    (o : Option ApiType) {t : ApiType} → required o ≡ returns t → IsCleanResult o → IsCleanType t
IsCleanType-required none e k = cc
IsCleanType-required (some u) e k = subst IsCleanType (returns-injective e) k

result_type-Balances :
    (f : ApiFunction) (result : Text)
    → result_type f ≡ returns result
    → IsCleanResult f.result
    → Balances result
unfolding result_type
result_type-Balances f result h k =
    let (t, e, h₁) = >>=-eq-returns (required f.result) _ h in
    subst Balances (returns-injective h₁)
      (Balances-type t [] false (IsCleanType-required f.result e k) tt)

-- The brackets of a function's text, when the texts within are well bracketed.
impl_text-Balances :
    (f : ApiFunction) (decls args : List Text) (result : Text)
    → IsClean f.name
    → All Balances decls
    → All Balances args
    → Balances result
    → Balances (impl_text f decls result args)
unfolding scan advance char_class is_clean
impl_text-Balances f decls args result h hd ha hr =
    after_clean (codes "\n    ") (IsClean-of (codes "\n    ") refl) (
      after_clean f.name h (
        Turns-append (codes "(") {mid = b')' ∷ []} (record { run = λ st b. refl })
          (after_balanced (join (codes ", ") decls)
            (Balances-join (codes ", ") decls (IsClean-of (codes ", ") refl) hd)
            (Turns-append (codes "): Promise<") {mid = []} (record { run = λ st b. refl })
              (after_balanced result hr (
                Turns-append (codes "> {\n        return this.client.request(")
                  {mid = b')' ∷ b'}' ∷ []} (record { run = λ st b. refl })
                  (after_balanced (join (codes ", ") args)
                    (Balances-join (codes ", ") args (IsClean-of (codes ", ") refl) ha)
                    (record { run = λ st b. refl }))))))))

-- The text of a function is well bracketed.
pub function_impl-Balances :
    (api : Api) (owner : ApiModule) (f : ApiFunction) (info : FunctionInfo) (text : Text)
    → get_function_info api f ≡ returns info
    → function_impl api owner f ≡ returns text
    → IsClean owner.name
    → IsCleanFunction f
    → IsCleanInfo info
    → Balances text
unfolding function_impl
function_impl-Balances api owner f info text e h ho hf hi =
    let (i, e', h₁) = >>=-eq-returns (get_function_info api f) _ h in
    let same_info : info ≡ i = returns-injective (sym e ∙ e') in
    let ci = subst IsCleanInfo same_info hi in
    let (r, e'', h₂) = >>=-eq-returns (result_type f) _ h₁ in
    subst Balances (returns-injective h₂) (
      impl_text-Balances f (params_decls i) (request_args owner f i) r hf.name
        (params_decls-Balances i ci) (request_args-Balances owner f i ho hf.name ci)
        (result_type-Balances f r e'' hf.result))
