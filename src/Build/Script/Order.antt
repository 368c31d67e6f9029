-- ===== src/Build/Script/Order.antt =====
-- What the build has done to bin/ when it ends, by the step that fails.
use ton_sdk.Base.{
  Text, Bool, true, false, not, Option, none, List, [], ◌∷◌, ◌++◌, if◌then◌else◌, ◌≡◌, refl, subst,
  sym, append_assoc, append-nil, ◌∙◌, ap, any_of, inl, inr, Bool-cases, All,
}
use ton_sdk.Build.Options.{Value, is_set}
use ton_sdk.Build.Script.{
  Action, log, spawn, delete_folder, make_folder, Script, ◌>>◌, platform_names, pack_all, build,
  cargo_build, cargo_update, bin, Exit, finished, exit_one, prepend, run_actions, main,
}

-- The effects that change files.
unfoldable pub writes : Action → Bool
writes (log t) = false
writes (spawn c args) = false
writes _ = true

-- All effects succeed: they are all begun.
pub run_actions-All :
    (works : Action → Bool) (actions : List Action) (end : Exit)
    → All (λ a. works a ≡ true) actions
    → run_actions works actions end ≡ record { begun = actions; exit = end }
unfolding run_actions
run_actions-All works [] end h = refl
run_actions-All works (a ∷ todo) end h =
    rw h.0 (ap (prepend a) (run_actions-All works todo end h.1))

-- The first step, of which `b` tells whether there is an option `dev-out`.
abbrev updates : Bool → List Action
updates b = if not b then cargo_update ∷ [] else []

run_actions-build_failed :
    (works : Action → Bool) (b : Bool) (todo : List Action) (end : Exit)
    → works cargo_build ≡ false
    → ((run_actions works (updates b ++ cargo_build ∷ todo) end).exit ≡ exit_one)
      × (any_of writes (run_actions works (updates b ++ cargo_build ∷ todo) end).begun ≡ false)
unfolding run_actions writes
run_actions-build_failed works true todo end h = rw h (refl, refl)
run_actions-build_failed works false todo end h = elim (Bool-cases (works cargo_update)) [
  | inl e ↦ rw (e, h) (refl, refl)
  | inr e ↦ rw e (refl, refl)
]

module _ (resolve : Text → List Text → Text) (base_name ext_name dir_name : Text → Text)
    (root script_dir version : Text) (verbose dev_out : Option Value) (platform arch : Text)
    (works : Action → Bool) where
  abbrev pub the_build : Script
  the_build =
      build resolve base_name ext_name dir_name root script_dir version verbose dev_out platform
        arch

  -- When `cargo build` fails, whether `cargo update` before it has failed or not, the script ends with `process.exit(1)`
  -- and has itself deleted and written nothing.
  pub main-build_failed :
      works cargo_build ≡ false
      → ((main works the_build).exit ≡ exit_one)
        × (any_of writes (main works the_build).begun ≡ false)
  unfolding main build ◌>>◌
  main-build_failed h =
      let end = if the_build.crashes then exit_one else finished in
      subst
        (λ l.
          ((run_actions works l end).exit ≡ exit_one)
          × (any_of writes (run_actions works l end).begun ≡ false))
        (sym (append_assoc (updates (is_set dev_out)) _ _))
        (run_actions-build_failed works (is_set dev_out) _ end h)

  -- The steps before the artifacts.
  abbrev pub first_steps : List Action
  first_steps =
      updates (is_set dev_out)
      ++ (cargo_build ∷ delete_folder (bin resolve root) ∷ make_folder (bin resolve root) ∷ [])

  build-unknown :
      platform_names platform arch ≡ none
      → the_build ≡ record { actions = first_steps ++ []; crashes = true }
  unfolding build ◌>>◌ pack_all
  build-unknown h = rw h

  -- On a platform that is not in the table, and when every effect succeeds, the script ends with
  -- `process.exit(1)` all the same, and has by then updated the dependencies (unless there is an
  -- option `dev-out`), built the library, deleted bin/ and made it again, and done nothing more.
  pub main-unknown_platform :
      platform_names platform arch ≡ none
      → All (λ a. works a ≡ true) the_build.actions
      → main works the_build ≡ record { begun = first_steps; exit = exit_one }
  unfolding main
  main-unknown_platform h k =
      run_actions-All works the_build.actions (if the_build.crashes then exit_one else finished) k
      ∙ ap (λ s. record { begun = s.actions; exit = if s.crashes then exit_one else finished })
          (build-unknown h)
      ∙ ap (λ l. record { begun = l; exit = exit_one }) (append-nil first_steps)
