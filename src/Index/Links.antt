-- ===== src/Index/Links.antt =====
-- Every link of the index page leads to a section of a page that the command has written.
use ton_sdk.Base.{
  ℕ, Text, some, List, [], ◌∷◌, ◌++◌, map, to_lower, concat, codes, Outcome, returns, throws, ◌≡◌,
  refl, ap, subst, sym, ◌∙◌, Occurs, here, Occurs-append_left, Occurs-append_right, Occurs-cons,
  inl, inr, Occurs-map,
}
use ton_sdk.Api.Types.{Api, ApiModule, ApiFunction}
use ton_sdk.Api.Parse.{parse_api}
use ton_sdk.Docs.Marks.{module_file, func_ref, summary_of, link}
use ton_sdk.Docs.Modules.{func_entry, module_index, module_page, modules_page, common_types}
use ton_sdk.Docs.Modules.Links.{
  Contains, Contains-right, Contains-start, Contains-concat, module_page-function,
}
use ton_sdk.Index.{
  page_file, File, Run, done, on_page, resolve_dir, file_in, docs_loop, docs, docs_of, on_parse,
}

in_index :
    (m : ApiModule) (s : Text)
    → Contains (concat (map (func_entry (some m)) m.functions)) s
    → Contains (module_index m) s
unfolding module_index
in_index m s c = Contains-right (codes "## [") _ s (
    Contains-right m.name _ s (
      Contains-right (codes "](") _ s (
        Contains-right (module_file m) _ s (
          Contains-right (codes ")") _ s
            (Contains-right (summary_of m.doc) _ s (Contains-right (codes "\n\n") _ s c))))))

modules_page-Contains :
    (api : Api) (m : ApiModule) (f : ApiFunction)
    → Occurs m api.modules
    → Occurs f m.functions
    → Contains (modules_page api) (func_ref f (some m))
unfolding modules_page func_entry
modules_page-Contains api m f o o' =
    let s = func_ref f (some m) in
    let entries : Contains (concat (map (func_entry (some m)) m.functions)) s =
      Contains-concat s (func_entry (some m) f) (Occurs-map (func_entry (some m)) o')
        (Contains-start s _) in
    Contains-right common_types _ s (
      Contains-right (codes "# Modules\n") _ s
        (Contains-concat s (module_index m) (Occurs-map module_index o) (in_index m s entries)))

-- A run that ends as it should has made its page.
pub on_page-done :
    (go : Text → Run) (files : List File) (o : Outcome Text)
    → (on_page go files o).ending ≡ returns done
    → (text : Text) × (o ≡ returns text) × (on_page go files o ≡ go text)
on_page-done go files (returns text) h = (text, refl, refl)
on_page-done go files (throws e) h = cc

module _ (home : Text) (resolve : Text → Text → Text) where
  -- The file of the module was written with its page.
  abbrev pub WritesPage : Api → ℕ → Text → List File → ApiModule → Type 0
  WritesPage api depth dir files m =
      (text : Text) × (module_page api depth m ≡ returns text)
      × Occurs (file_in home resolve dir (page_file m) text) files

  -- Every module's page is written, and no file is lost.
  pub record Writes (api : Api) (depth : ℕ) (dir : Text) (ms : List ApiModule)
      (before after : List File) : Type 0 where
    pub kept : (x : File) → Occurs x before → Occurs x after
    pub pages : (m : ApiModule) → Occurs m ms → WritesPage api depth dir after m

  page_of :
      (api : Api) (depth : ℕ) (dir : Text) (m : ApiModule) (ms : List ApiModule)
      (files after : List File) (text : Text)
      → module_page api depth m ≡ returns text
      → Writes api depth dir ms (files ++ file_in home resolve dir (page_file m) text ∷ []) after
      → (n : ApiModule) → Occurs n (m ∷ ms)
      → WritesPage api depth dir after n
  page_of api depth dir m ms files after text e rest n o = elim (Occurs-cons o) [
    | inl q ↦ rw q (text, e, rest.kept _ (Occurs-append_right files here))
    | inr o' ↦ rest.pages n o'
  ]

  pub docs_loop-Writes :
      (api : Api) (depth : ℕ) (dir : Text) (ms : List ApiModule) (files : List File)
      → (docs_loop home resolve api depth dir ms files).ending ≡ returns done
      → Writes api depth dir ms files (docs_loop home resolve api depth dir ms files).files
  unfolding docs_loop
  docs_loop-Writes api depth dir [] files h = record {
    kept = λ x o. o;
    pages = λ m o. no_module m o;
  }
    where
      no_module : (m : ApiModule) → Occurs m [] → WritesPage api depth dir files m
      no_module m o = elim o [ ]
  docs_loop-Writes api depth dir (m ∷ ms) files h =
      let go : Text → Run = λ text.
        docs_loop home resolve api depth dir ms
          (files ++ file_in home resolve dir (page_file m) text ∷ []) in
      let (text, e, q) = on_page-done go files (module_page api depth m) h in
      let rest =
        docs_loop-Writes api depth dir ms
          (files ++ file_in home resolve dir (page_file m) text ∷ [])
          (ap (λ (r : Run). r.ending) (sym q) ∙ h) in
      subst (λ (r : Run). Writes api depth dir (m ∷ ms) files r.files) (sym q)
        (record {
          kept = λ x o. rest.kept x (Occurs-append_left _ o);
          pages = page_of api depth dir m ms files _ text e rest;
        })

-- The name of the file of a module.
abbrev pub page_name : Text → Text
page_name module' = codes "mod_" ++ (module' ++ codes ".md")

-- A Markdown link to the section of that title of a file: the anchor of a section is its title in
-- lower case.
abbrev pub link_to : Text → Text → Text
link_to title file =
    codes "["
    ++ (title ++ (codes "](" ++ (file ++ (codes "#" ++ (map to_lower title ++ codes ")")))))

-- The first lines of a section: its title, as a heading of the second level.
abbrev pub section_start : Text → Text
section_start title = codes "## " ++ (title ++ codes "\n\n")

abbrev pub file_at : (Text → Text → Text) → Text → Text → Text → File
file_at resolve dir name text = record { path = resolve dir name; text = text }

-- The index page is among the files, and it has for every function of the API a link to the
-- section of the function's name in the file of its module, which is among them too, with a page
-- that has that section.
pub record AreLinked (resolve : Text → Text → Text) (api : Api) (dir : Text) (files : List File)
    : Type 0 where
  pub index : Occurs (file_at resolve dir (codes "modules.md") (modules_page api)) files
  pub links :
      (m : ApiModule) (f : ApiFunction)
      → Occurs m api.modules
      → Occurs f m.functions
      → Contains (modules_page api) (link_to f.name (page_name m.name))
        × ((text : Text) × Occurs (file_at resolve dir (page_name m.name) text) files
            × Contains text (section_start f.name))

docs_of-AreLinked :
    (home : Text) (resolve : Text → Text → Text) (api : Api) (depth : ℕ) (out : Text)
    → (docs_of home resolve depth out api).ending ≡ returns done
    → AreLinked resolve api
        (resolve_dir home resolve out)
        (docs_of home resolve depth out api).files
unfolding docs_of file_in page_file func_ref link module_file
docs_of-AreLinked home resolve api depth out h =
    let dir = resolve_dir home resolve out in
    let w =
      docs_loop-Writes home resolve api depth dir api.modules
        (file_in home resolve dir (codes "modules.md") (modules_page api) ∷ []) h in
    record {
      index = w.kept _ here;
      links = λ m f o o'.
          let (text, e, i) = w.pages m o in
          (
            modules_page-Contains api m f o o',
            (text, i, (module_page-function api depth m text f e o').1),
          );
    }

-- Where the command `docs` ends as it should, the index page is written to `modules.md`, and for
-- every function of the API it holds the link `[name](mod_<module>.md#<name in lower case>)`, and
-- the file that the link names is written, with a page that holds the section `## name`.
pub docs-AreLinked :
    (home : Text) (resolve : Text → Text → Text) (json api : Api) (depth : ℕ) (out : Text)
    → parse_api json ≡ returns api
    → (docs home resolve json depth out).ending ≡ returns done
    → AreLinked resolve api (resolve_dir home resolve out) (docs home resolve json depth out).files
unfolding docs
docs-AreLinked home resolve json api depth out e h =
    let same_run : docs home resolve json depth out ≡ docs_of home resolve depth out api =
      ap (on_parse (docs_of home resolve depth out)) e in
    subst (λ (r : Run). AreLinked resolve api (resolve_dir home resolve out) r.files) (sym same_run)
      (docs_of-AreLinked home resolve api depth out (ap (λ (r : Run). r.ending) (sym same_run) ∙ h))
