-- ===== src/Tests/Script.antt =====
-- The theorems on the steps of the build, applied to a small world: a path is its segments joined.
use ton_sdk.Base.{
  Text, Bool, true, false, none, List, [], ◌∷◌, codes, same, ◌≡◌, refl, any_of, map, join,
}
use ton_sdk.Build.Options.{is_set}
use ton_sdk.Build.Script.{
  Action, spawn, Script, Artifact, platform_names, build, finished, exit_one, main,
}
use ton_sdk.Build.Script.Order.{writes, first_steps, main-build_failed, main-unknown_platform}
use ton_sdk.Build.Script.Packs.{archives, archive_of, main-Makes}

abbrev resolve_sample : Text → List Text → Text
resolve_sample p ps = join (codes "/") (p ∷ ps)

abbrev whole : Text → Text
whole p = p

-- No text is an extension here.
abbrev no_ext : Text → Text
no_ext p = []

abbrev sample_build : Text → Text → Script
sample_build platform arch =
    build resolve_sample whole no_ext whole (codes "/w") (codes "/w/ton_client") (codes "1_31_0")
      none none platform arch

-- Only the compiler fails.
abbrev compiler_fails : Action → Bool
compiler_fails (spawn c (a ∷ _)) = same a (codes "update")
compiler_fails _ = true

abbrev all_work : Action → Bool
all_work a = true

main-build_failed_example :
    ((main compiler_fails (sample_build (codes "linux") (codes "x64"))).exit ≡ exit_one)
    × (any_of writes (main compiler_fails (sample_build (codes "linux") (codes "x64"))).begun
        ≡ false)
unfolding same
main-build_failed_example =
    main-build_failed resolve_sample whole no_ext whole (codes "/w") (codes "/w/ton_client")
      (codes "1_31_0") none none (codes "linux") (codes "x64") compiler_fails refl

main-unknown_platform_example :
    main all_work (sample_build (codes "freebsd") (codes "x64")) ≡ record {
      begun =
          first_steps resolve_sample whole no_ext whole
            (codes "/w")
            (codes "/w/ton_client")
            (codes "1_31_0")
            none
            none
            (codes "freebsd")
            (codes "x64")
            all_work;
      exit = exit_one;
    }
unfolding build platform_names same is_set
main-unknown_platform_example =
    main-unknown_platform resolve_sample whole no_ext whole (codes "/w") (codes "/w/ton_client")
      (codes "1_31_0") none none (codes "freebsd") (codes "x64") all_work refl
      (refl, (refl, (refl, (refl, tt))))

abbrev archive_sample : Artifact → Text × Text
archive_sample =
    archive_of resolve_sample whole no_ext whole (codes "/w") (codes "/w/ton_client")
      (codes "1_31_0") none none (codes "linux")

abbrev linux_library : List Artifact
linux_library = record { src = codes "lib{}.so"; suffix = [] } ∷ []

main-Makes_example :
    ((main all_work (sample_build (codes "linux") (codes "x64"))).exit ≡ finished)
    × (archives (main all_work (sample_build (codes "linux") (codes "x64"))).begun
        ≡ map archive_sample linux_library)
unfolding build platform_names same is_set
main-Makes_example =
    main-Makes resolve_sample whole no_ext whole (codes "/w") (codes "/w/ton_client")
      (codes "1_31_0") none none (codes "linux") (codes "x64") linux_library all_work (λ e. cc) refl
      (refl, (refl, (refl, (refl, (refl, (refl, (refl, (refl, tt))))))))
