-- ===== src/Build/Parallel.antt =====
-- ton_client/build-lib.js, `spawnAll`: several processes at once, and `Promise.all` of their
-- promises. An event comes with the index of its process, so a list of them is an interleaving.
-- `show` is node's decimal notation of an exit code, and `no_name` the text of the TypeError with
-- which node's `spawn` refuses a name that is undefined, or empty: that rejects the promise of
-- `spawnProcess`.
pub mod Isolation
pub mod Promises
pub mod Outcomes
use ton_sdk.Base.{
  Text, ℕ, zero, suc, Bool, true, false, Option, none, some, List, [], ◌∷◌, ◌++◌, map, concat,
  if◌then◌else◌, ◌==◌, codes, join,
}
use ton_sdk.Build.Process.{
  loud, Event, stdout_data, stderr_data, failed, closed, Settled, resolved, rejected, Echo,
  to_stdout, to_stderr, Command, Watch, new_watch, on_event,
}

-- A process that `list` has a promise of.
pub record Member : Type 0 where
  pub command : Command
  pub watch : Watch

-- What `Promise.all` is settled with: the values in the order of the list, or one reason.
pub data AllSettled : Type 0 where
  all_resolved : List Text → AllSettled
  first_rejected : Text → AllSettled

pub record Group : Type 0 where
  pub processes : List Member
  pub all : Option AllSettled
  pub output : List Echo

-- `Build: ${args.join(' ')}`.
unfoldable pub announce : List Text → Echo
announce args = to_stdout (codes "Build: " ++ (join (codes " ") args ++ codes "\n"))

abbrev pub add_result : Text → Option AllSettled → Option AllSettled
add_result r none = none
add_result r (some (all_resolved rs)) = some (all_resolved (r ∷ rs))
add_result r (some (first_rejected e)) = some (first_rejected e)

abbrev pub unless_rejected : Option AllSettled → Option AllSettled
unless_rejected (some (first_rejected e)) = some (first_rejected e)
unless_rejected _ = none

-- What the promises of the list amount to: a rejection, or all of the values, or nothing yet.
abbrev pub add_settled : Option Settled → Option AllSettled → Option AllSettled
add_settled none rest = unless_rejected rest
add_settled (some (resolved r)) rest = add_result r rest
add_settled (some (rejected e)) rest = some (first_rejected e)

unfoldable pub combine : List Member → Option AllSettled
combine [] = some (all_resolved [])
combine (m ∷ ms) = add_settled m.watch.settled (combine ms)

-- A promise that is settled stays as it is.
abbrev pub keep : Option AllSettled → Option AllSettled → Option AllSettled
keep none now = now
keep (some s) now = some s

-- What an event writes to the script's streams.
abbrev pub written : Event → List Echo
written (stdout_data chunk) = to_stdout chunk ∷ []
written (stderr_data chunk) = to_stderr chunk ∷ []
written _ = []

module _ (show : ℕ → Text) where
  abbrev pub take_event : Member → Event → Member
  take_event m e = record m { watch = on_event show m.command loud m.watch e }

  -- The event goes to the process of index `i`; `k` is the index of the first in the list.
  unfoldable pub deliver : ℕ → ℕ → Event → List Member → List Member
  deliver k i e [] = []
  deliver k i e (m ∷ ms) = (if k == i then take_event m e else m) ∷ deliver (suc k) i e ms

  unfoldable pub group_event : Group → ℕ × Event → Group
  unfolding deliver combine
  group_event g (i, e) =
      let processes = deliver 0 i e g.processes in
      record {
        processes = processes;
        all = keep g.all (combine processes);
        output = g.output ++ written e;
      }

  unfoldable pub group_from : Group → List (ℕ × Event) → Group
  unfolding group_event
  group_from g [] = g
  group_from g (x ∷ xs) = group_from (group_event g x) xs

-- The promise of a process that `spawn` has refused to start.
abbrev pub refused : Text → List Text → Text → Member
refused name args error = record {
  command = record { name = name; args = args };
  watch = record new_watch { settled = some (rejected error) };
}

-- `spawnProcess(args[0], args.slice(1))`, when it returns.
unfoldable pub start : (Option Text → Text) → List Text → Member
start no_name [] = refused [] [] (no_name none)
start no_name ([] ∷ args) = refused [] args (no_name (some []))
start no_name ((c ∷ name) ∷ args) = record {
  command = record { name = c ∷ name; args = args };
  watch = new_watch;
}

-- `spawnAll`, when it has called `Promise.all`: the loop waits for nothing, so no event has come.
unfoldable pub start_all {ℓ} :
    (Option Text → Text) → {A : Type ℓ} → List A → (A → List Text) → Group
unfolding start combine announce
start_all no_name items get_args =
    let processes = map (λ item. start no_name (get_args item)) items in
    record {
      processes = processes;
      all = combine processes;
      output = map (λ item. announce (get_args item)) items;
    }

-- `spawnAll`, after the events.
unfoldable pub spawn_all {ℓ} :
    (ℕ → Text)
    → (Option Text → Text)
    → {A : Type ℓ} → List A
    → (A → List Text)
    → List (ℕ × Event)
    → Group
unfolding group_from start_all
spawn_all show no_name items get_args events =
    group_from show (start_all no_name items get_args) events
