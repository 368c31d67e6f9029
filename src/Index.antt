-- ===== src/Index.antt =====
-- tools/index.ts: the commands `docs` and `binding`. `home` is os.homedir(), and `resolve` is
-- path.resolve of two paths; `commander`, which reads the options, is not part of the program.
pub mod Links
pub mod References
pub mod Disk
pub mod Stack
pub mod Whole
use ton_sdk.Base.{
  starts_with, drop, ℕ, Text, Bool, true, false, ◌&&◌, Option, none, some, List, [], ◌∷◌, ◌++◌,
  if◌then◌else◌, codes, same, ◌==◌, Outcome, returns, throws, ◌>>=◌,
}
use ton_sdk.Api.Types.{Api, ApiModule}
use ton_sdk.Api.Parse.{parse_api}
use ton_sdk.Ts.Modules.{modules_code}
use ton_sdk.Docs.Modules.{modules_page, module_page}

-- A text that was written to a path.
pub record File : Type 0 where
  pub path : Text
  pub text : Text

-- How a command ends: with an exception, by `process.exit(1)`, or as it should.
pub data Ending : Type 0 where
  done exited : Ending

-- A command that stops early has written its first files all the same.
pub record Run : Type 0 where
  pub files : List File
  pub ending : Outcome Ending

-- What follows a page: the rest of the run, or its end.
abbrev pub on_page : (Text → Run) → List File → Outcome Text → Run
on_page go files (returns text) = go text
on_page go files (throws e) = record { files = files; ending = throws e }

-- `parseApi` comes before anything is written.
abbrev pub on_parse : (Api → Run) → Outcome Api → Run
on_parse go (returns api) = go api
on_parse go (throws e) = record { files = []; ending = throws e }

-- `mod_${module.name}.md`.
unfoldable pub page_file : ApiModule → Text
page_file m = codes "mod_" ++ (m.name ++ codes ".md")

module _ (home : Text) (resolve : Text → Text → Text) where
  unfoldable pub resolve_dir : Text → Text
  resolve_dir out = if starts_with (codes "~/") out then resolve home (drop 2 out) else out

  unfoldable pub file_in : Text → Text → Text → File
  file_in dir name text = record { path = resolve dir name; text = text }

  -- The loop over the modules: the files written so far, and the modules that are left.
  unfoldable pub docs_loop : Api → ℕ → Text → List ApiModule → List File → Run
  unfolding page_file
  docs_loop api depth dir [] files = record { files = files; ending = returns done }
  docs_loop api depth dir (m ∷ ms) files =
      on_page (λ text. docs_loop api depth dir ms (files ++ file_in dir (page_file m) text ∷ []))
        files (module_page api depth m)

  -- The command behind `parseApi`.
  unfoldable pub docs_of : ℕ → Text → Api → Run
  unfolding docs_loop
  docs_of depth out api =
      docs_loop api depth (resolve_dir out) api.modules
        (file_in (resolve_dir out) (codes "modules.md") (modules_page api) ∷ [])

  unfoldable pub docs : Api → ℕ → Text → Run
  docs json depth out = on_parse (docs_of depth out) (parse_api json)

  -- `codeFromLanguage` parses first, and knows one language.
  unfoldable pub binding_of : Text → Text → Api → Run
  binding_of language out api =
      if same language (codes "ts")
      then on_page
          (λ text. record {
            files = file_in (resolve_dir out) (codes "modules." ++ language) text ∷ [];
            ending = returns done;
          })
          [] (modules_code api)
      else record { files = []; ending = returns exited }

  unfoldable pub binding : Api → Text → Text → Run
  unfolding binding_of
  binding json language out = on_parse (binding_of language out) (parse_api json)
