-- ===== src/Index/Stack.antt =====
-- The command `docs` does not run out of call stack.
use ton_sdk.Base.{
  ℕ, ◌<◌, Text, List, [], ◌∷◌, ◌++◌, Outcome, returns, throws, range_error, ◌≡◌, ◌≢◌, ap, sym,
  subst,
}
use ton_sdk.Api.Types.{Api, ApiModule, ApiType, ApiField, field_type}
use ton_sdk.Api.Parse.{parse_api}
use ton_sdk.Docs.Types.Depth.{Follows, Ends, document-Ends}
use ton_sdk.Docs.Modules.{module_page}
use ton_sdk.Docs.Modules.Stack.{module_page-Ends}
use ton_sdk.Index.{
  page_file, File, Run, Ending, on_page, on_parse, file_in, docs_loop, docs_of, docs,
}

on_page-Ends :
    (go : Text → Run) (files : List File) (o : Outcome Text)
    → Ends o
    → ((t : Text) → Ends (go t).ending)
    → Ends (on_page go files o).ending
on_page-Ends go files (returns t) h k = k t
on_page-Ends go files (throws e) h k = λ q. h (ap (λ o. rethrown o) q)
  where
    rethrown : Outcome Ending → Outcome Text
    rethrown (returns e) = throws range_error
    rethrown (throws e) = throws e

module _ (home : Text) (resolve : Text → Text → Text) where
  docs_loop-Ends :
      (api : Api) (depth : ℕ) (dir : Text) (ms : List ApiModule) (files : List File)
      → ((m : ApiModule) → Ends (module_page api depth m))
      → Ends (docs_loop home resolve api depth dir ms files).ending
  unfolding docs_loop
  docs_loop-Ends api depth dir [] files h = λ q. cc
  docs_loop-Ends api depth dir (m ∷ ms) files h =
      on_page-Ends _ files (module_page api depth m) (h m) λ t.
        docs_loop-Ends api depth dir ms (files ++ file_in home resolve dir (page_file m) t ∷ []) h

  -- Where every type that the documentation of a type leads to is of a lower rank than that type,
  -- and of a rank below the stack's depth, the command `docs` never overflows the call stack.
  pub docs_ends :
      (json api : Api) (depth : ℕ) (out : Text) (rank : ApiField → ℕ)
      → parse_api json ≡ returns api
      → ((f g : ApiField) → Follows api g (field_type f) → rank g < rank f)
      → ((t : ApiType) (g : ApiField) → Follows api g t → rank g < depth)
      → (docs home resolve json depth out).ending ≢ throws range_error
  unfolding docs docs_of
  docs_ends json api depth out rank p falls low =
      subst (λ o. Ends (on_parse (docs_of home resolve depth out) o).ending) (sym p)
        (docs_loop-Ends api depth _ api.modules _
          (module_page-Ends api depth (λ t g h. document-Ends api rank falls depth g (low t g h))))
