-- ===== src/Tests/Parallel.antt =====
-- The theorems on several processes and on the version, applied to small inputs.
use ton_sdk.Base.{
  Text, ℕ, ◌+◌, true, Option, none, some, List, [], ◌∷◌, ◌++◌, map, codes, split, join, All, ◌≢◌,
  ◌≡◌, refl, arith, inl, inr, returns,
}
use ton_sdk.Build.Process.{Event, stdout_data, failed, closed, on_event, spawn_process}
use ton_sdk.Build.Parallel.{AllSettled, all_resolved, first_rejected, spawn_all}
use ton_sdk.Build.Parallel.Isolation.{HasName, separate, spawn_all-separate}
use ton_sdk.Build.Parallel.Outcomes.{spawn_all-resolves, spawn_all-settles, spawn_all-rejects}
use ton_sdk.Build.Version.{version_of}
use ton_sdk.Build.Version.Digits.{is_name_char, version_of_chars}
use ton_sdk.Build.Version.Line.{version_line, version_of-line}

-- A decimal digit.
abbrev show_digit : ℕ → Text
show_digit n = (n + 48) ∷ []

abbrev no_name_text : Option Text → Text
no_name_text none = codes "ERR_INVALID_ARG_TYPE"
no_name_text (some name) = codes "ERR_INVALID_ARG_VALUE"

abbrev whole_item : List Text → List Text
whole_item args = args

abbrev two_items : List (List Text)
two_items = (codes "cargo" ∷ codes "doc" ∷ []) ∷ (codes "node" ∷ []) ∷ []

two_items_named : All (λ item. HasName (whole_item item)) two_items
two_items_named = (tt, (tt, tt))

-- The second process ends first.
abbrev interleaved : List (ℕ × Event)
interleaved =
    (1, stdout_data (codes "b"))
    ∷ (0, stdout_data (codes "a"))
    ∷ (1, closed (some 0))
    ∷ (0, closed (some 0))
    ∷ []

spawn_all-separate_example :
    map
      (λ m. m.watch)
      (spawn_all show_digit no_name_text two_items whole_item interleaved).processes
    ≡ separate show_digit no_name_text whole_item 0 two_items interleaved
spawn_all-separate_example =
    spawn_all-separate show_digit no_name_text whole_item two_items interleaved two_items_named

spawn_all-resolves_example :
    (spawn_all show_digit no_name_text two_items whole_item interleaved).all
    ≡ some (all_resolved (codes "a" ∷ codes "b" ∷ []))
unfolding spawn_process
spawn_all-resolves_example =
    spawn_all-resolves show_digit no_name_text whole_item two_items interleaved
      (codes "a" ∷ codes "b" ∷ []) two_items_named (refl, (refl, tt))

spawn_all-settles_example :
    (s : AllSettled) × ((spawn_all show_digit no_name_text two_items whole_item interleaved).all
      ≡ some s)
spawn_all-settles_example =
    spawn_all-settles show_digit no_name_text whole_item two_items interleaved
      ((λ _. refl), ((λ _. refl), tt))

abbrev started_events : List (ℕ × Event)
started_events = (1, stdout_data (codes "b")) ∷ []

spawn_all-rejects_example :
    (spawn_all show_digit no_name_text two_items whole_item
      (started_events ++ (1, failed (codes "ENOENT")) ∷ (0, failed (codes "EACCES")) ∷ [])).all
    ≡ some (first_rejected (codes "ENOENT"))
unfolding spawn_all on_event
spawn_all-rejects_example =
    spawn_all-rejects show_digit no_name_text whole_item two_items started_events
      ((0, failed (codes "EACCES")) ∷ []) 1 (failed (codes "ENOENT")) (codes "ENOENT") refl
      (inr (inl refl))

abbrev manifest_head : Text
manifest_head = codes "[package]\nname = \"ton_client\"\n"

version_of-line_example :
    version_of (manifest_head ++ version_line (codes "1.31.0") (codes "\nedition = \"2018\"\n"))
    ≡ returns (join (codes "_") (split b'.' (codes "1.31.0")))
unfolding version_of
version_of-line_example =
    version_of-line manifest_head (codes "1.31.0") (codes "\nedition = \"2018\"\n") (omega arith)
      refl ((λ e. cc), (refl, (refl, (refl, (refl, (refl, (refl, tt))))))) refl

version_of_chars_example : (codes "1_31" ≢ []) × All (λ c. is_name_char c ≡ true) (codes "1_31")
unfolding version_of split join
version_of_chars_example = version_of_chars (codes "version = '1.31'") (codes "1_31") refl
