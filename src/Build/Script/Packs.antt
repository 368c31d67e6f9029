-- ===== src/Build/Script/Packs.antt =====
-- The archives that the build makes.
use ton_sdk.Base.{
  Text, Bool, true, false, Option, none, some, List, [], ◌∷◌, ◌++◌, if◌then◌else◌, codes, same, ◌≡◌,
  ◌≢◌, refl, ◌∙◌, ap, map, inl, inr, Bool-cases, All, not,
}
use ton_sdk.Build.Options.{Value, on, given, is_set}
use ton_sdk.Build.Script.{
  Action, log, spawn, delete_folder, make_folder, make_missing, copy, gzip, chmod, Script, act,
  ◌>>◌, Artifact, platform_names, target_of, log_verbose, post_build, dev_copy, gz, bin_name, bin,
  cargo_build, cargo_update, pack, pack_all, build, finished, exit_one, main,
}
use ton_sdk.Build.Script.Order.{run_actions-All}

-- The files that are compressed, with the archives' paths.
unfoldable pub archives : List Action → List (Text × Text)
archives [] = []
archives (gzip src dst ∷ todo) = (src, dst) ∷ archives todo
archives (_ ∷ todo) = archives todo

archives-append : (xs ys : List Action) → archives (xs ++ ys) ≡ archives xs ++ archives ys
unfolding archives
archives-append [] ys = refl
archives-append (gzip src dst ∷ xs) ys = ap (λ l. (src, dst) ∷ l) (archives-append xs ys)
archives-append (log t ∷ xs) ys = archives-append xs ys
archives-append (spawn c a ∷ xs) ys = archives-append xs ys
archives-append (delete_folder p ∷ xs) ys = archives-append xs ys
archives-append (make_folder p ∷ xs) ys = archives-append xs ys
archives-append (make_missing p ∷ xs) ys = archives-append xs ys
archives-append (copy s d ∷ xs) ys = archives-append xs ys
archives-append (chmod p ∷ xs) ys = archives-append xs ys

-- The script runs through and makes these archives.
abbrev Makes : Script → List (Text × Text) → Type 0
Makes s l = (s.crashes ≡ false) × (archives s.actions ≡ l)

Makes->> :
    (s t : Script) (l m : List (Text × Text)) → Makes s l → Makes t m → Makes (s >> t) (l ++ m)
unfolding ◌>>◌
Makes->> s t l m (c, e) (d, q) = rw c (
  d,
  archives-append s.actions t.actions ∙ ap (λ a. a ++ archives t.actions) e ∙ ap (λ a. l ++ a) q,
)

abbrev update_script : Bool → Script
update_script b = act (if not b then cargo_update ∷ [] else [])

Makes-update_script : (b : Bool) → Makes (update_script b) []
unfolding archives
Makes-update_script true = (refl, refl)
Makes-update_script false = (refl, refl)

module _ (resolve : Text → List Text → Text) (base_name ext_name dir_name : Text → Text)
    (root script_dir version : Text) (verbose dev_out : Option Value) (platform : Text) where
  abbrev log_of : Text → Script
  log_of t =
      log_verbose resolve base_name ext_name dir_name root script_dir version verbose dev_out t

  Makes-log : (t : Text) → Makes (log_of t) []
  unfolding archives
  Makes-log t = elim (Bool-cases (is_set verbose)) [
    | inl e ↦ rw e (refl, refl)
    | inr e ↦ rw e (refl, refl)
  ]

  abbrev post_of : List Text → Script
  post_of target =
      post_build resolve base_name ext_name dir_name root script_dir version verbose dev_out target
        platform

  Makes-post_build : (target : List Text) → Makes (post_of target) []
  unfolding post_build archives
  Makes-post_build target =
      let lib = resolve root target in
      let fixed = codes "@loader_path/" ++ base_name lib in
      let message = codes "Fix lib:" ++ (lib ++ (codes " using id:" ++ fixed)) in
      elim (Bool-cases (same platform (codes "darwin"))) [
        | inl e ↦ rw e (
            Makes->> (log_of message)
              (act (spawn (codes "install_name_tool") (codes "-id" ∷ fixed ∷ lib ∷ []) ∷ [])) [] []
              (Makes-log message) (refl, refl))
        | inr e ↦ rw e (refl, refl)
      ]

  Makes-dev_copy :
      (src dev_path : List Text) (v : Option Value)
      → v ≢ some on
      → Makes
          (dev_copy resolve base_name ext_name dir_name root script_dir version verbose dev_out src
            dev_path v)
          []
  unfolding archives dev_copy
  Makes-dev_copy src dev_path none h = (refl, refl)
  Makes-dev_copy src dev_path (some on) h = absurd (h refl)
  Makes-dev_copy src dev_path (some (given out)) h = (refl, refl)

  -- The archive of an artifact.
  abbrev pub archive_of : Artifact → Text × Text
  archive_of a = (
    resolve root (target_of a.src),
    resolve root (
          codes "bin"
          ∷ (codes "tonclient_" ++ (version ++ (codes "_" ++ (platform ++ a.suffix))))
          ∷ [])
        ++ codes ".gz",
  )

  abbrev gz_of : Artifact → Script
  gz_of a =
      gz resolve base_name ext_name dir_name root script_dir version verbose dev_out
        (target_of a.src)
        (bin_name resolve base_name ext_name dir_name root script_dir version verbose dev_out
          platform a)
        (script_dir ∷ codes "build" ∷ [])

  abbrev dev_of : Artifact → Script
  dev_of a =
      dev_copy resolve base_name ext_name dir_name root script_dir version verbose dev_out
        (target_of a.src) (script_dir ∷ codes "build" ∷ []) dev_out

  Makes-gz : (a : Artifact) → dev_out ≢ some on → Makes (gz_of a) (archive_of a ∷ [])
  unfolding gz archives
  Makes-gz a h =
      let (src, dst) = archive_of a in
      let message = codes "Gzip src:" ++ (src ++ (codes " to dst:" ++ dst)) in
      Makes->> (dev_of a >> log_of message) (act (gzip src dst ∷ chmod dst ∷ [])) []
        (archive_of a ∷ [])
        (Makes->> (dev_of a) (log_of message) [] []
          (Makes-dev_copy (target_of a.src) (script_dir ∷ codes "build" ∷ []) dev_out h)
          (Makes-log message))
        (refl, refl)

  abbrev pack_of : List Artifact → Script
  pack_of todo =
      pack resolve base_name ext_name dir_name root script_dir version verbose dev_out platform todo

  Makes-pack :
      (artifacts : List Artifact)
      → dev_out ≢ some on
      → Makes (pack_of artifacts) (map archive_of artifacts)
  unfolding pack
  Makes-pack [] h = unfold archives in (refl, refl)
  Makes-pack (a ∷ todo) h =
      Makes->> (post_of (target_of a.src) >> gz_of a) (pack_of todo) (archive_of a ∷ [])
        (map archive_of todo)
        (Makes->> (post_of (target_of a.src)) (gz_of a) [] (archive_of a ∷ [])
          (Makes-post_build (target_of a.src)) (Makes-gz a h))
        (Makes-pack todo h)

  abbrev pub build_of : Text → Script
  build_of arch =
      build resolve base_name ext_name dir_name root script_dir version verbose dev_out platform
        arch

  Makes-build :
      (arch : Text) (artifacts : List Artifact)
      → dev_out ≢ some on
      → platform_names platform arch ≡ some artifacts
      → Makes (build_of arch) (map archive_of artifacts)
  unfolding build pack_all archives
  Makes-build arch artifacts h e =
      let folder = bin resolve root in
      let steps = cargo_build ∷ delete_folder folder ∷ make_folder folder ∷ [] in
      rw e (
        Makes->> (update_script (is_set dev_out) >> act steps) (pack_of artifacts) []
          (map archive_of artifacts)
          (Makes->> (update_script (is_set dev_out)) (act steps) [] []
            (Makes-update_script (is_set dev_out)) (refl, refl))
          (Makes-pack artifacts h))

  -- On a platform of the table, without an option `dev-out` that has no value, and when every
  -- effect succeeds, the script ends by itself, and it has compressed each artifact that the table
  -- has for the architecture, in turn, to its archive in bin/, and has compressed nothing else.
  pub main-Makes :
      (arch : Text) (artifacts : List Artifact) (works : Action → Bool)
      → dev_out ≢ some on
      → platform_names platform arch ≡ some artifacts
      → All (λ a. works a ≡ true) (build_of arch).actions
      → ((main works (build_of arch)).exit ≡ finished)
        × (archives (main works (build_of arch)).begun ≡ map archive_of artifacts)
  unfolding main
  main-Makes arch artifacts works h e k =
      let (c, q) = Makes-build arch artifacts h e in
      let end = if (build_of arch).crashes then exit_one else finished in
      let all = run_actions-All works (build_of arch).actions end k in
      (
        ap (λ t. t.exit) all ∙ ap (λ b. if b then exit_one else finished) c,
        ap (λ t. archives t.begun) all ∙ q,
      )
