-- ===== src/Api/Parse/Laws.antt =====
-- What `parseApi` changes, and what it leaves alone.
use ton_sdk.Base.{
  codes, none, Option, get_elem?, same, same_iff, Bool-cases, inl, inr, ◌≢◌, ◌↔◌, sym,
  returns-injective, Text, some, List, [], ◌∷◌, Outcome, returns, ◌≡◌, refl, subst, required, ap,
  ◌∙◌, map_all, >>=-eq-returns,
}
use ton_sdk.Api.Types.{
  Api, ApiModule, ApiFunction, ApiField, ApiType, ApiTypes, generic, no_types, more_types,
  types_to_list,
}
use ton_sdk.Api.Find.{find_type, find_in, find_in_modules, qualified}
use ton_sdk.Api.Parse.{unwrap_result, parse_function, parse_module, parse_api}

-- The result `p` is the result `o` taken out of `ClientResult`: its first argument, which may be
-- missing, where it is one, and otherwise what it was.
pub data UnwrapsResult (o p : Option ApiType) : Type 0 where
  taken_out :
      (t : ApiType) (ts : ApiTypes)
      → o ≡ some (generic (codes "ClientResult") (more_types t ts))
      → p ≡ some t
      → UnwrapsResult o p
  nothing_in : o ≡ some (generic (codes "ClientResult") no_types) → p ≡ none → UnwrapsResult o p
  kept :
      (t : ApiType)
      → ((args : ApiTypes) → t ≢ generic (codes "ClientResult") args)
      → o ≡ some t
      → p ≡ some t
      → UnwrapsResult o p

generic_name : {n m : Text} {as' bs : ApiTypes} → generic n as' ≡ generic m bs → n ≡ m
generic_name h = cc

UnwrapsResult-unwrap_result : (t : ApiType) → UnwrapsResult (some t) (unwrap_result t)
unfolding unwrap_result
UnwrapsResult-unwrap_result (generic name args) =
    elim (Bool-cases (same name (codes "ClientResult"))) [
      | inl e ↦ rw (e, (same_iff name (codes "ClientResult")).0 e) (by_args args)
      | inr e ↦ rw e (
          kept (generic name args)
            (λ as' q. let k = (same_iff name (codes "ClientResult")).1 (generic_name q) in cc) refl
            refl)
    ]
  where
    by_args :
        (ts : ApiTypes)
        → UnwrapsResult (some (generic (codes "ClientResult") ts)) (get_elem? (types_to_list ts) 0)
    by_args no_types = nothing_in refl refl
    by_args (more_types t ts) = taken_out t ts refl refl
UnwrapsResult-unwrap_result t = kept t (λ as' q. cc) refl refl

unwrap_result-kept :
    (t : ApiType)
    → ((args : ApiTypes) → t ≢ generic (codes "ClientResult") args)
    → unwrap_result t ≡ some t
unfolding unwrap_result
unwrap_result-kept (generic name args) h = elim (Bool-cases (same name (codes "ClientResult"))) [
  | inl e ↦ absurd (h args (ap (λ n. generic n args) ((same_iff name (codes "ClientResult")).0 e)))
  | inr e ↦ rw e
]
unwrap_result-kept t h = refl

unwrap_result-UnwrapsResult :
    (o p : Option ApiType)
    → UnwrapsResult o p
    → (t : ApiType) × (o ≡ some t) × (p ≡ unwrap_result t)
unfolding unwrap_result same
unwrap_result-UnwrapsResult o p (taken_out t ts e q) = (_, e, q)
unwrap_result-UnwrapsResult o p (nothing_in e q) = (_, e, q)
unwrap_result-UnwrapsResult o p (kept t h e q) = (t, e, q ∙ sym (unwrap_result-kept t h))

-- `g` is `f` with its result taken out of `ClientResult`.
pub record Unwraps (f g : ApiFunction) : Type 0 where
  pub same_name : g.name ≡ f.name
  pub same_doc : g.doc ≡ f.doc
  pub same_params : g.params ≡ f.params
  pub result : UnwrapsResult f.result g.result

-- Two lists of one length, whose elements are related in order.
pub data Pairwise {ℓ} {A : Type ℓ} (R : A → A → Type 0) : List A → List A → Type ℓ where
  nil : Pairwise R [] []
  cons : {x y : A} {xs ys : List A} → R x y → Pairwise R xs ys → Pairwise R (x ∷ xs) (y ∷ ys)

map_all-Pairwise {ℓ} :
    {A : Type ℓ} (R : A → A → Type 0) (f : A → Outcome A)
    → ((x y : A) → f x ≡ returns y → R x y)
    → (xs ys : List A) → map_all f xs ≡ returns ys
    → Pairwise R xs ys
unfolding map_all
map_all-Pairwise R f k [] [] h = nil
map_all-Pairwise R f k [] (y ∷ ys) h = cc
map_all-Pairwise R f k (x ∷ xs) ys h =
    let (y, e, h₁) = >>=-eq-returns (f x) _ h in
    let (zs, e', h₂) = >>=-eq-returns (map_all f xs) _ h₁ in
    let q : y ∷ zs ≡ ys = cc in
    subst (Pairwise R (x ∷ xs)) q (cons (k x y e) (map_all-Pairwise R f k xs zs e'))

Pairwise-map_all {ℓ} :
    {A : Type ℓ} (R : A → A → Type 0) (f : A → Outcome A)
    → ((x y : A) → R x y → f x ≡ returns y)
    → {xs ys : List A} → Pairwise R xs ys
    → map_all f xs ≡ returns ys
unfolding map_all
Pairwise-map_all R f k nil = refl
Pairwise-map_all R f k (cons {x} {y} r rs) = rw (k x y r, Pairwise-map_all R f k rs)

parse_function-Unwraps : (f g : ApiFunction) → parse_function f ≡ returns g → Unwraps f g
unfolding parse_function
parse_function-Unwraps f g h =
    let (t, e, h₁) = >>=-eq-returns (required f.result) _ h in
    let of_some : f.result ≡ some t = required-some f.result e in
    subst (Unwraps f) (returns-injective h₁) (record {
      same_name = refl;
      same_doc = refl;
      same_params = refl;
      result =
          subst (λ o. UnwrapsResult o (unwrap_result t)) (sym of_some)
            (UnwrapsResult-unwrap_result t);
    })
  where
    required-some : (o : Option ApiType) {t : ApiType} → required o ≡ returns t → o ≡ some t
    required-some none h = cc
    required-some (some u) h = cc

Unwraps-parse_function : (f g : ApiFunction) → Unwraps f g → parse_function f ≡ returns g
unfolding parse_function
Unwraps-parse_function f g u =
    let (t, e, q) = unwrap_result-UnwrapsResult f.result g.result u.result in
    let whole : record f { result = unwrap_result t } ≡ g =
      cc (u.same_name, u.same_doc, u.same_params, q) in
    rw e (ap returns whole)

-- `n` is `m` with the results of its functions unwrapped.
pub record UnwrapsModule (m n : ApiModule) : Type 0 where
  pub same_name : n.name ≡ m.name
  pub same_doc : n.doc ≡ m.doc
  pub same_types : n.types ≡ m.types
  pub functions : Pairwise Unwraps m.functions n.functions

parse_module-Unwraps : (m n : ApiModule) → parse_module m ≡ returns n → UnwrapsModule m n
unfolding parse_module
parse_module-Unwraps m n h =
    let (fs, e, h₁) = >>=-eq-returns (map_all parse_function m.functions) _ h in
    subst (UnwrapsModule m) (returns-injective h₁) (record {
      same_name = refl;
      same_doc = refl;
      same_types = refl;
      functions = map_all-Pairwise Unwraps parse_function parse_function-Unwraps m.functions fs e;
    })

Unwraps-parse_module : (m n : ApiModule) → UnwrapsModule m n → parse_module m ≡ returns n
unfolding parse_module
Unwraps-parse_module m n u =
    let whole : record m { functions = n.functions } ≡ n =
      cc (u.same_name, u.same_doc, u.same_types) in
    rw (Pairwise-map_all Unwraps parse_function Unwraps-parse_function u.functions)
      (ap returns whole)

-- The API `api` is `json` with the result of each function taken out of `ClientResult`, and
-- nothing else changed: the modules, their types and their functions are the same, in order.
pub record UnwrapsApi (json api : Api) : Type 0 where
  pub same_version : api.version ≡ json.version
  pub modules : Pairwise UnwrapsModule json.modules api.modules

parse_api-Unwraps : (json api : Api) → parse_api json ≡ returns api → UnwrapsApi json api
unfolding parse_api
parse_api-Unwraps json api h =
    let (ms, e, h₁) = >>=-eq-returns (map_all parse_module json.modules) _ h in
    subst (UnwrapsApi json) (returns-injective h₁) (record {
      same_version = refl;
      modules = map_all-Pairwise UnwrapsModule parse_module parse_module-Unwraps json.modules ms e;
    })

Unwraps-parse_api : (json api : Api) → UnwrapsApi json api → parse_api json ≡ returns api
unfolding parse_api
Unwraps-parse_api json api u =
    let whole : record json { modules = api.modules } ≡ api = cc u.same_version in
    rw (Pairwise-map_all UnwrapsModule parse_module Unwraps-parse_module u.modules)
      (ap returns whole)

-- Parsing gives an API exactly when each function has a result and that API is the one read, with
-- the result of each function taken out of `ClientResult` and all else as it was: a result
-- `ClientResult<T, …>` becomes `T`, a `ClientResult` without arguments leaves none, and any other
-- result is kept.
pub parse_api-UnwrapsApi : (json api : Api) → (parse_api json ≡ returns api) ↔ UnwrapsApi json api
parse_api-UnwrapsApi json api = (parse_api-Unwraps json api, Unwraps-parse_api json api)

find_in-same :
    (m n : ApiModule) (ts : List ApiField) (name : Text)
    → n.name ≡ m.name
    → find_in n ts name ≡ find_in m ts name
unfolding find_in qualified
find_in-same m n [] name e = refl
find_in-same m n (t ∷ ts) name e = rw (e, find_in-same m n ts name e)

find_in_modules-same :
    {ms ns : List ApiModule} (name : Text)
    → Pairwise UnwrapsModule ms ns
    → find_in_modules ns name ≡ find_in_modules ms name
unfolding find_in_modules
find_in_modules-same name nil = refl
find_in_modules-same name (cons {x = m} {y = n} u us) =
    let first : find_in n n.types name ≡ find_in m m.types name =
      ap (λ ts. find_in n ts name) u.same_types ∙ find_in-same m n m.types name u.same_name in
    rw (first, find_in_modules-same name us)

-- Parsing does not change what `findType` finds.
pub find_type-parse_api :
    (json api : Api) (name : Text)
    → parse_api json ≡ returns api
    → find_type api name ≡ find_type json name
unfolding find_type
find_type-parse_api json api name h =
    find_in_modules-same name (parse_api-Unwraps json api h).modules
