-- ===== src/Build/Script.antt =====
-- ton_client/build.js, with postBuild, gz and main of ton_client/build-lib.js: the effects of the
-- build in their order. `resolve`, `base_name`, `ext_name` and `dir_name` are node's path.resolve
-- (of a first segment and the others), path.basename, path.extname and path.dirname; `root` is the
-- working directory, `script_dir` is __dirname, and `version` is read from Cargo.toml.
pub mod Order
pub mod Packs
use ton_sdk.Base.{
  Text, ℕ, Bool, true, false, not, ◌&&◌, Option, none, some, List, [], ◌∷◌, ◌++◌, if◌then◌else◌,
  ◌==◌, codes, same,
}
use ton_sdk.Build.Options.{Value, on, given, is_set}

pub data Action : Type 0 where
  log : Text → Action
  -- A process that the script waits for.
  spawn : Text → List Text → Action
  delete_folder make_folder make_missing : Text → Action
  copy gzip : Text → Text → Action
  -- `fs.chmodSync(dst, 0o666)`.
  chmod : Text → Action

-- The effects of a piece of the script, and whether it throws when they are done.
pub record Script : Type 0 where
  pub actions : List Action
  pub crashes : Bool

abbrev pub act : List Action → Script
act effects = record { actions = effects; crashes = false }

abbrev pub crash : Script
crash = record { actions = []; crashes = true }

infixl 5 ◌>>◌
unfoldable pub ◌>>◌ : Script → Script → Script
s >> t = if s.crashes then s else record { actions = s.actions ++ t.actions; crashes = t.crashes }

-- `src.replace('{}', by)`: the first occurrence.
unfoldable pub replace_braces : Text → Text → Text
replace_braces [] by = []
replace_braces (c ∷ []) by = c ∷ []
replace_braces (c ∷ d ∷ s) by =
    let rest = replace_braces (d ∷ s) by in if c == b'{' && d == b'}' then by ++ s else c ∷ rest

-- A file that cargo makes, and what its name in bin/ ends in.
pub record Artifact : Type 0 where
  pub src : Text
  pub suffix : Text

abbrev pub artifact : Text → Text → Artifact
artifact s e = record { src = s; suffix = e }

abbrev pub linux_names : Text → List Artifact
linux_names arch = if same arch (codes "x64") then artifact (codes "lib{}.so") [] ∷ [] else []

abbrev pub win32_names : Text → List Artifact
win32_names arch =
    if same arch (codes "x64")
    then artifact (codes "{}.dll.lib") (codes "_lib")
      ∷ artifact (codes "{}.dll") (codes "_dll")
      ∷ []
    else []

abbrev pub darwin_names : Text → List Artifact
darwin_names arch =
    if same arch (codes "x64")
    then artifact (codes "lib{}.dylib") [] ∷ []
    else if same arch (codes "arm64")
    then artifact (codes "lib{}.dylib") (codes "_arm64") ∷ []
    else []

-- `platformNames[platform][arch] || []`: `none` when the platform is no key of the table.
unfoldable pub platform_names : Text → Text → Option (List Artifact)
platform_names platform arch =
    if same platform (codes "linux")
    then some (linux_names arch)
    else if same platform (codes "win32")
    then some (win32_names arch)
    else if same platform (codes "darwin")
    then some (darwin_names arch)
    else none

abbrev pub target_of : Text → List Text
target_of file =
    codes ".." ∷ codes "target" ∷ codes "release" ∷ replace_braces file (codes "ton_client") ∷ []

abbrev last_of : List Text → Text
last_of [] = []
last_of (x ∷ []) = x
last_of (x ∷ y ∷ xs) = last_of (y ∷ xs)

abbrev pub cargo_build : Action
cargo_build = spawn (codes "cargo") (codes "build" ∷ codes "--release" ∷ [])

abbrev pub cargo_update : Action
cargo_update = spawn (codes "cargo") (codes "update" ∷ [])

abbrev pub bin : (Text → List Text → Text) → Text → Text
bin resolve root = resolve root (codes "bin" ∷ [])

module _ (resolve : Text → List Text → Text) (base_name ext_name dir_name : Text → Text)
    (root script_dir version : Text) (verbose dev_out : Option Value) where
  abbrev pub root_path : List Text → Text
  root_path items = resolve root items

  abbrev pub log_verbose : Text → Script
  log_verbose t = act (if is_set verbose then log t ∷ [] else [])

  unfoldable pub append_file_name_if_missing : Text → Text → Text
  append_file_name_if_missing path name =
      if not (same (ext_name path) []) then path else resolve path (name ∷ [])

  unfoldable pub post_build : List Text → Text → Script
  unfolding ◌>>◌
  post_build target platform =
      let lib = root_path target in
      let fixed = codes "@loader_path/" ++ base_name lib in
      if same platform (codes "darwin")
      then log_verbose (codes "Fix lib:" ++ (lib ++ (codes " using id:" ++ fixed)))
        >> act (spawn (codes "install_name_tool") (codes "-id" ∷ fixed ∷ lib ∷ []) ∷ [])
      else act []

  abbrev pub copy_to : Text → Text → Script
  copy_to src dst = act (make_missing (dir_name dst) ∷ copy src dst ∷ [])

  -- The copy of `gz`, where `devPath` is given: path.resolve throws at `true`.
  unfoldable pub dev_copy : List Text → List Text → Option Value → Script
  unfolding append_file_name_if_missing
  dev_copy src dev_path none =
      copy_to (root_path src) (append_file_name_if_missing (resolve [] dev_path) (last_of src))
  dev_copy src dev_path (some on) = crash
  dev_copy src dev_path (some (given out)) =
      copy_to (root_path src) (append_file_name_if_missing (resolve out dev_path) (last_of src))

  unfoldable pub gz : List Text → Text → List Text → Script
  unfolding dev_copy ◌>>◌
  gz src dst dev_path =
      let src_path = root_path src in
      let dst_path = root_path (codes "bin" ∷ dst ∷ []) ++ codes ".gz" in
      dev_copy src dev_path dev_out
      >> log_verbose (codes "Gzip src:" ++ (src_path ++ (codes " to dst:" ++ dst_path)))
      >> act (gzip src_path dst_path ∷ chmod dst_path ∷ [])

  -- The name of an artifact in bin/.
  abbrev pub bin_name : Text → Artifact → Text
  bin_name platform a = codes "tonclient_" ++ (version ++ (codes "_" ++ (platform ++ a.suffix)))

  -- The loop over the artifacts.
  unfoldable pub pack : Text → List Artifact → Script
  unfolding post_build gz ◌>>◌
  pack platform [] = act []
  pack platform (a ∷ todo) =
      post_build (target_of a.src) platform
      >> gz (target_of a.src) (bin_name platform a) (script_dir ∷ codes "build" ∷ [])
      >> pack platform todo

  unfoldable pub pack_all : Text → Option (List Artifact) → Script
  unfolding pack
  pack_all platform none = crash
  pack_all platform (some artifacts) = pack platform artifacts

  -- The function that build.js gives to `main`.
  unfoldable pub build : Text → Text → Script
  unfolding pack_all ◌>>◌
  build platform arch =
      act (if not (is_set dev_out) then cargo_update ∷ [] else [])
      >> act (cargo_build ∷ delete_folder (bin resolve root) ∷ make_folder (bin resolve root) ∷ [])
      >> pack_all platform (platform_names platform arch)

-- How the script ends: by itself, or with the exit code 1, which `process.exit(1)` gives and also an
-- exception that nothing catches, as the one of an input that `gz` cannot read.
pub data Exit : Type 0 where
  finished exit_one : Exit

-- What has been begun, and the end.
pub record Trace : Type 0 where
  pub begun : List Action
  pub exit : Exit

abbrev pub prepend : Action → Trace → Trace
prepend a t = record t { begun = a ∷ t.begun }

-- `main`, when `works` tells which effects succeed: the first that fails is the last.
unfoldable pub run_actions : (Action → Bool) → List Action → Exit → Trace
run_actions works [] end = record { begun = []; exit = end }
run_actions works (a ∷ todo) end =
    let rest = run_actions works todo end in
    if works a then prepend a rest else record { begun = a ∷ []; exit = exit_one }

unfoldable pub main : (Action → Bool) → Script → Trace
unfolding run_actions
main works s = run_actions works s.actions (if s.crashes then exit_one else finished)
