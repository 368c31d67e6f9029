-- ===== src/Index/Whole.antt =====
-- The command `binding` writes the whole binding or nothing.
use ton_sdk.Base.{
  Text, [], ◌∷◌, All, codes, same, same_iff, Outcome, returns, throws, Bool-cases, inl, inr, ◌⊎◌,
  ◌≡◌, ◌≢◌, ◌↔◌, refl, sym, returns-injective, ◌∙◌, subst,
}
use ton_sdk.Api.Types.{Api}
use ton_sdk.Api.Parse.{parse_api}
use ton_sdk.Ts.Modules.{modules_code}
use ton_sdk.Ts.Modules.Ready.{Returns}
use ton_sdk.Ts.Modules.Complete.{IsReadyModule, modules_code-returns_iff}
use ton_sdk.Index.{File, Run, done, on_page, on_parse, file_in, resolve_dir, binding_of, binding}

-- The API is parsed, and every function's code can be generated.
abbrev pub CanBind : Api → Type 0
CanBind json = (api : Api) × (parse_api json ≡ returns api) × All (IsReadyModule api) api.modules

module _ (home : Text) (resolve : Text → Text → Text) (out : Text) where
  -- The file that holds the binding.
  abbrev pub binding_file : Text → File
  binding_file text = file_in home resolve (resolve_dir home resolve out) (codes "modules.ts") text

  -- The run has written the text that `modules` gives for the parsed API, as one file, and is
  -- done; or it has written nothing and is not.
  abbrev pub WritesWhole : Api → Run → Type 0
  WritesWhole json r =
      ((api : Api) × (text : Text) × (parse_api json ≡ returns api)
        × (modules_code api ≡ returns text)
        × (r.files ≡ binding_file text ∷ [])
        × (r.ending ≡ returns done))
      ⊎ ((r.files ≡ []) × (r.ending ≢ returns done))

  page-WritesWhole :
      (json api : Api) (o : Outcome Text)
      → parse_api json ≡ returns api
      → modules_code api ≡ o
      → WritesWhole json
          (on_page (λ text. record { files = binding_file text ∷ []; ending = returns done }) [] o)
  page-WritesWhole json api (returns text) p e = inl (api, text, p, e, refl, refl)
  page-WritesWhole json api (throws x) p e = inr (refl, λ q. cc)

  page-done :
      (o : Outcome Text)
      → ((on_page
            (λ text. record { files = binding_file text ∷ []; ending = returns done })
            []
            o).ending
          ≡ returns done)
        ↔ Returns o
  page-done (returns text) = (λ _. (text, refl), λ _. refl)
  page-done (throws e) = (λ q. cc, λ (t, q). cc)

  of_api-WritesWhole :
      (language : Text) (json api : Api)
      → parse_api json ≡ returns api
      → WritesWhole json (binding_of home resolve language out api)
  unfolding binding_of
  of_api-WritesWhole language json api p = elim (Bool-cases (same language (codes "ts"))) [
    | inl e ↦
        rw (e, (same_iff language (codes "ts")).0 e)
          (page-WritesWhole json api (modules_code api) p refl)
    | inr e ↦ rw e (inr (refl, λ q. cc))
  ]

  of_api-done :
      (language : Text) (api : Api)
      → ((binding_of home resolve language out api).ending ≡ returns done)
        ↔ ((language ≡ codes "ts") × Returns (modules_code api))
  unfolding binding_of
  of_api-done language api = elim (Bool-cases (same language (codes "ts"))) [
    | inl e ↦
        rw (e, (same_iff language (codes "ts")).0 e)
          (
            λ h. (refl, (page-done (modules_code api)).0 h),
            λ r. (page-done (modules_code api)).1 r.1,
          )
    | inr e ↦ rw e (λ h. cc, λ r. let q = (same_iff language (codes "ts")).1 r.0 in cc)
  ]

  parsed-done :
      (json : Api) (language : Text) (o : Outcome Api)
      → parse_api json ≡ o
      → ((on_parse (binding_of home resolve language out) o).ending ≡ returns done)
        ↔ ((language ≡ codes "ts") × CanBind json)
  parsed-done json language (returns api) p = (
    λ h.
        let b = (of_api-done language api).0 h in
        (b.0, (api, p, (modules_code-returns_iff api).0 b.1)),
    λ c.
        let (a, q, r) = c.1 in
        let e : a ≡ api = returns-injective (sym q ∙ p) in
        (of_api-done language api).1 (
          c.0,
          (modules_code-returns_iff api).1 (subst (λ a. All (IsReadyModule a) a.modules) e r),
        ),
  )
  parsed-done json language (throws x) p =
      (λ h. cc, λ c. let (a, q, r) = c.1 in absurd (cc (sym p ∙ q)))

  parsed-WritesWhole :
      (language : Text) (json : Api) (o : Outcome Api)
      → parse_api json ≡ o
      → WritesWhole json (on_parse (binding_of home resolve language out) o)
  parsed-WritesWhole language json (returns api) p = of_api-WritesWhole language json api p
  parsed-WritesWhole language json (throws e) p = inr (refl, λ q. cc)

  -- The command `binding` writes one file, `modules.ts`, with the text that `modules` gives for
  -- the parsed API, and is done; or it writes nothing and is not. And it is done exactly when the
  -- language is `ts`, the API can be parsed, and every function of the parsed API has a result and
  -- its information is found.
  pub binding-WritesWhole :
      (json : Api) (language : Text)
      → WritesWhole json (binding home resolve json language out)
        × (((binding home resolve json language out).ending ≡ returns done)
            ↔ ((language ≡ codes "ts") × CanBind json))
  unfolding binding
  binding-WritesWhole json language = (
    parsed-WritesWhole language json (parse_api json) refl,
    parsed-done json language (parse_api json) refl,
  )
