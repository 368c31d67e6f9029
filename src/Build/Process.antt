-- ===== src/Build/Process.antt =====
-- ton_client/build-lib.js, `spawnProcess` and `spawnAll`: the life of a spawned process, as the
-- events that node's child_process emits in turn, and the promise that they settle. `show` is
-- node's decimal notation of an exit code.
pub mod Settles
use ton_sdk.Base.{
  Text, ℕ, Bool, true, false, Option, none, some, List, [], ◌∷◌, ◌++◌, if◌then◌else◌, ◌==◌, codes,
  join,
}

-- What the script listens to. A chunk is the text of its bytes; the code of a process that a
-- signal has ended is `null`.
pub data Event : Type 0 where
  stdout_data stderr_data : Text → Event
  failed : Text → Event
  closed : Option ℕ → Event

-- What the promise is settled with.
pub data Settled : Type 0 where
  resolved rejected : Text → Settled

-- What is written to the script's own streams.
pub data Echo : Type 0 where
  to_stdout to_stderr : Text → Echo

pub record Command : Type 0 where
  pub name : Text
  pub args : List Text

-- `res`, `err` and the promise; `echo` is what has been written, in order.
pub record Watch : Type 0 where
  pub res : Text
  pub err : Text
  pub settled : Option Settled
  pub echo : List Echo

abbrev pub new_watch : Watch
new_watch = record { res = []; err = []; settled = none; echo = [] }

-- `options && options.quiet`: a false value, `true` itself, or another value that counts as true.
pub data Quiet : Type 0 where
  loud strict truthy : Quiet

-- `options && options.quiet === true`, which the handlers of the data test.
abbrev pub is_strict : Quiet → Bool
is_strict strict = true
is_strict _ = false

-- `options && options.quiet`, which the handler of `close` tests.
abbrev pub is_truthy : Quiet → Bool
is_truthy loud = false
is_truthy _ = true

-- `resolve` and `reject`: the first call settles the promise.
abbrev pub first_of : Option Settled → Settled → Settled
first_of none s = s
first_of (some t) s = t

unfoldable pub settle : Settled → Watch → Watch
settle s w = record w { settled = some (first_of w.settled s) }

abbrev pub echo_of : Bool → Echo → List Echo
echo_of true e = []
echo_of false e = e ∷ []

-- `code === 0`.
abbrev pub is_success : Option ℕ → Bool
is_success none = false
is_success (some n) = n == 0

module _ (show : ℕ → Text) where
  abbrev pub code_text : Option ℕ → Text
  code_text none = codes "null"
  code_text (some n) = show n

  -- What the promise is rejected with: a report in quiet mode, and otherwise the empty text.
  unfoldable pub rejection : Command → Bool → Option ℕ → Text → Text
  rejection c true code err =
      codes "return code: "
      ++ (code_text code
          ++ (codes "\ncmdline: "
              ++ (c.name ++ (codes " " ++ (join (codes " ") c.args ++ (codes "\n" ++ err))))))
  rejection c false code err = []

  -- The four handlers.
  unfoldable pub on_event : Command → Quiet → Watch → Event → Watch
  unfolding settle rejection
  on_event c quiet w (stdout_data chunk) = record w {
    res = w.res ++ chunk;
    echo = w.echo ++ echo_of (is_strict quiet) (to_stdout chunk);
  }
  on_event c quiet w (stderr_data chunk) = record w {
    err = w.err ++ chunk;
    echo = w.echo ++ echo_of (is_strict quiet) (to_stderr chunk);
  }
  on_event c quiet w (failed err) = settle (rejected err) w
  on_event c quiet w (closed code) =
      settle
        (if is_success code
          then resolved w.res
          else rejected (rejection c (is_truthy quiet) code w.err))
        w

  unfoldable pub watch_from : Command → Quiet → Watch → List Event → Watch
  unfolding on_event
  watch_from c quiet w [] = w
  watch_from c quiet w (e ∷ es) = watch_from c quiet (on_event c quiet w e) es

  -- `spawnProcess`, after the events `es`.
  unfoldable pub spawn_process : Command → Quiet → List Event → Watch
  unfolding watch_from
  spawn_process c quiet es = watch_from c quiet new_watch es
