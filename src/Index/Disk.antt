-- ===== src/Index/Disk.antt =====
-- What the folder holds when the command `docs` has ended.
use ton_sdk.Base.{
  ℕ, Text, none, some, Option, List, [], ◌∷◌, ◌++◌, map, map-append, append_assoc, append-nil,
  codes, same, same_iff, same_refl, if◌then◌else◌, returns, ◌≡◌, refl, ap, subst, sym, ◌∙◌, Occurs,
  here, there, Bool-cases, inl, inr,
}
use ton_sdk.Api.Types.{Api, ApiModule}
use ton_sdk.Api.Parse.{parse_api}
use ton_sdk.Docs.Marks.{module_file}
use ton_sdk.Docs.Modules.{module_page, modules_page}
use ton_sdk.Index.{
  page_file, File, Run, done, resolve_dir, file_in, docs_loop, docs, docs_of, on_parse,
}
use ton_sdk.Index.Links.{docs_loop-Writes, on_page-done}

abbrev unless_later : Option Text → Option Text → Option Text
unless_later (some t) o = some t
unless_later none o = o

-- What a path holds after the files were written in their order: the last text counts.
unfoldable pub read_file : Text → List File → Option Text
read_file path [] = none
read_file path (x ∷ xs) =
    unless_later (read_file path xs) (if same x.path path then some x.text else none)

abbrev pub paths : List File → List Text
paths files = map (λ (x : File). x.path) files

abbrev pub AreDistinct : List Text → Type 0
AreDistinct [] = Unit
AreDistinct (p ∷ ps) = (Occurs p ps → ⊥) × AreDistinct ps

paths-append :
    (files : List File) (x : File) (ps : List Text)
    → paths (files ++ x ∷ []) ++ ps ≡ paths files ++ x.path ∷ ps
paths-append files x ps = simp (map-append, append_assoc)

read_file-none :
    (path : Text) (xs : List File) → (Occurs path (paths xs) → ⊥) → read_file path xs ≡ none
unfolding read_file
read_file-none path [] h = refl
read_file-none path (x ∷ xs) h = elim (Bool-cases (same x.path path)) [
  | inl e ↦
      let q : path ≡ x.path = sym ((same_iff x.path path).0 e) in
      absurd (h (subst (λ p. Occurs p (x.path ∷ paths xs)) (sym q) here))
  | inr e ↦ rw (read_file-none path xs (λ o. h (there o)), e)
]

read_file-Occurs :
    {x : File} {xs : List File}
    → Occurs x xs
    → AreDistinct (paths xs)
    → read_file x.path xs ≡ some x.text
unfolding read_file
read_file-Occurs {x} (here {xs}) h = rw (read_file-none x.path xs h.0, same_refl x.path)
read_file-Occurs {x} (there {y} {xs} o) h = rw (read_file-Occurs o h.1)

module _ (home : Text) (resolve : Text → Text → Text) where
  -- The paths that the loop adds.
  abbrev pub pages : Text → List ApiModule → List Text
  pages dir ms = map (λ m. resolve dir (module_file m)) ms

  docs_loop-paths :
      (api : Api) (depth : ℕ) (dir : Text) (ms : List ApiModule) (files : List File)
      → (docs_loop home resolve api depth dir ms files).ending ≡ returns done
      → paths (docs_loop home resolve api depth dir ms files).files ≡ paths files ++ pages dir ms
  unfolding docs_loop file_in page_file module_file
  docs_loop-paths api depth dir [] files h = sym (append-nil (paths files))
  docs_loop-paths api depth dir (m ∷ ms) files h =
      let go : Text → Run = λ text.
        docs_loop home resolve api depth dir ms
          (files ++ file_in home resolve dir (page_file m) text ∷ []) in
      let (text, e, q) = on_page-done go files (module_page api depth m) h in
      let rest =
        docs_loop-paths api depth dir ms (files ++ file_in home resolve dir (page_file m) text ∷ [])
          (ap (λ (r : Run). r.ending) (sym q) ∙ h) in
      ap (λ (r : Run). paths r.files) q ∙ rest ∙ paths-append files _ (pages dir ms)

  -- The paths of the index and of the modules' pages.
  abbrev pub all_pages : Api → Text → List Text
  all_pages api dir = resolve dir (codes "modules.md") ∷ pages dir api.modules

  -- Nothing but the index and the modules' pages is written, each once, and each is there to read.
  pub record Holds (api : Api) (depth : ℕ) (dir : Text) (files : List File) : Type 0 where
    pub exactly : paths files ≡ all_pages api dir
    pub index : read_file (resolve dir (codes "modules.md")) files ≡ some (modules_page api)
    pub module_pages :
        (m : ApiModule)
        → Occurs m api.modules
        → (page : Text) × (module_page api depth m ≡ returns page)
          × (read_file (resolve dir (module_file m)) files ≡ some page)

  docs_of-Holds :
      (api : Api) (depth : ℕ) (out : Text)
      → AreDistinct (all_pages api (resolve_dir home resolve out))
      → (docs_of home resolve depth out api).ending ≡ returns done
      → Holds api depth (resolve_dir home resolve out) (docs_of home resolve depth out api).files
  unfolding docs_of file_in page_file module_file
  docs_of-Holds api depth out distinct h =
      let dir = resolve_dir home resolve out in
      let index = file_in home resolve dir (codes "modules.md") (modules_page api) in
      let w = docs_loop-Writes home resolve api depth dir api.modules (index ∷ []) h in
      let all = docs_loop-paths api depth dir api.modules (index ∷ []) h in
      let apart = subst AreDistinct (sym all) distinct in
      record {
        exactly = all;
        index = read_file-Occurs (w.kept index here) apart;
        module_pages = λ m o. let (page, e, k) = w.pages m o in (page, e, read_file-Occurs k apart);
      }

  -- Where the command `docs` ends as it should and no two of its files have one path, it has
  -- written the index and the pages of the modules of the API, in their order and nothing else,
  -- and afterwards the index's path holds the index, and each module's path the page of that
  -- module.
  pub docs-Holds :
      (json api : Api) (depth : ℕ) (out : Text)
      → parse_api json ≡ returns api
      → AreDistinct (all_pages api (resolve_dir home resolve out))
      → (docs home resolve json depth out).ending ≡ returns done
      → Holds api depth (resolve_dir home resolve out) (docs home resolve json depth out).files
  unfolding docs
  docs-Holds json api depth out e distinct h =
      let same_run : docs home resolve json depth out ≡ docs_of home resolve depth out api =
        ap (on_parse (docs_of home resolve depth out)) e in
      subst (λ (r : Run). Holds api depth (resolve_dir home resolve out) r.files) (sym same_run)
        (docs_of-Holds api depth out distinct (ap (λ (r : Run). r.ending) (sym same_run) ∙ h))
