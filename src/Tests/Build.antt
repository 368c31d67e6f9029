-- ===== src/Tests/Build.antt =====
-- The theorems on the build scripts, applied to small inputs.
use ton_sdk.Base.{
  Text, ℕ, true, none, some, List, [], ◌∷◌, ◌++◌, refl, codes, arith, ◌+◌, concat, map, ◌≡◌, ◌↔◌,
  returns, throws, type_error, any_of,
}
use ton_sdk.Build.Folders.{Entries, file, dir, no_entries, entry, delete_folder_recursive}
use ton_sdk.Build.Folders.Empties.{replay, replay-delete_folder_recursive}
use ton_sdk.Build.Options.{Settings, read_option, parse_options, is_line_terminator}
use ton_sdk.Build.Options.Last.{Answers, last_value, read_option-parse_options}
use ton_sdk.Build.Options.Words.{
  Setting, flag, inline, spaced, words, is_short, parse_options-throws_iff,
}
use ton_sdk.Build.Process.{
  loud, truthy, Event, stdout_data, stderr_data, failed, closed, rejected, Command, spawn_process,
}
use ton_sdk.Build.Process.Settles.{
  chunks, out_text, err_text, close_result, spawn_process-closed, spawn_process-failed,
  echo-spawn_process,
}

abbrev spelled : List Setting
spelled =
    flag (codes "verbose")
    ∷ inline (codes "dev-out") (codes "a=b")
    ∷ spaced (codes "x") (codes "y")
    ∷ []

read_option-parse_options_example :
    (acc : Settings) × (parse_options (concat (map words spelled)) ≡ returns acc)
    × ((opt : Text) → Answers opt (last_value opt none spelled) (read_option acc opt))
unfolding is_line_terminator
read_option-parse_options_example = read_option-parse_options spelled (
  ((λ e. cc), omega arith, (λ e. cc)),
  (
    (((λ e. cc), omega arith, (λ e. cc)), (λ e. cc), (refl, (refl, (refl, tt)))),
    ((((λ e. cc), omega arith, (λ e. cc)), (λ e. cc), refl), tt),
  ),
)

abbrev short_value : List Text
short_value = codes "--dev-out" ∷ codes "-x" ∷ []

parse_options-throws_iff_example :
    (parse_options short_value ≡ throws type_error) ↔ (any_of is_short short_value ≡ true)
parse_options-throws_iff_example = parse_options-throws_iff short_value

-- A decimal digit.
abbrev digit : ℕ → Text
digit n = (n + 48) ∷ []

abbrev cargo : Command
cargo = record { name = codes "cargo"; args = codes "update" ∷ [] }

abbrev output : List Event
output = stdout_data (codes "a") ∷ stderr_data (codes "b") ∷ stdout_data (codes "c") ∷ []

spawn_process-closed_example :
    (spawn_process digit cargo truthy (output ++ closed (some 1) ∷ [])).settled
    ≡ some (close_result digit cargo truthy (some 1) (out_text output) (err_text output))
spawn_process-closed_example = spawn_process-closed digit cargo truthy output [] (some 1) tt

spawn_process-failed_example :
    (spawn_process digit cargo loud
      (output ++ failed (codes "ENOENT") ∷ closed (some 0) ∷ [])).settled
    ≡ some (rejected (codes "ENOENT"))
spawn_process-failed_example =
    spawn_process-failed digit cargo loud output (closed (some 0) ∷ []) (codes "ENOENT") tt

echo-spawn_process_example : (spawn_process digit cargo loud output).echo ≡ chunks output
echo-spawn_process_example = echo-spawn_process digit cargo loud output

abbrev old_bin : Entries
old_bin =
    entry (codes "a") (dir (entry (codes "b") file no_entries)) (entry (codes "c") file no_entries)

abbrev beside : Entries
beside = entry (codes "src") file no_entries

replay-delete_folder_recursive_example :
    replay
      (delete_folder_recursive (codes "bin" ∷ []) (some old_bin))
      (entry (codes "bin") (dir old_bin) beside)
    ≡ some beside
replay-delete_folder_recursive_example = replay-delete_folder_recursive (codes "bin") old_bin beside
