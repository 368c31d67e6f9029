-- ===== src/Build/Process/Settles.antt =====
-- When the promise of a spawned process is settled, and with what.
use ton_sdk.Base.{
  ◌==◌, arith, zero, suc, codes, join, sym, if◌then◌else◌, Text, ℕ, Bool, true, false, Option, none,
  some, List, [], ◌∷◌, ◌++◌, ◌≡◌, refl, ◌∙◌, ap, append_assoc, append-nil,
}
use ton_sdk.Build.Process.{
  Quiet, loud, strict, truthy, is_strict, is_truthy, echo_of, Event, stdout_data, stderr_data,
  failed, closed, Settled, resolved, rejected, Echo, to_stdout, to_stderr, Command, Watch,
  new_watch, settle, rejection, is_success, on_event, watch_from, spawn_process,
}

-- The chunks of one stream, joined.
abbrev pub out_text : List Event → Text
out_text [] = []
out_text (stdout_data d ∷ es) = d ++ out_text es
out_text (_ ∷ es) = out_text es

abbrev pub err_text : List Event → Text
err_text [] = []
err_text (stderr_data d ∷ es) = d ++ err_text es
err_text (_ ∷ es) = err_text es

-- The chunks of both streams, in the order in which they came.
abbrev pub chunks : List Event → List Echo
chunks [] = []
chunks (stdout_data d ∷ es) = to_stdout d ∷ chunks es
chunks (stderr_data d ∷ es) = to_stderr d ∷ chunks es
chunks (_ ∷ es) = chunks es

-- Only data, no end.
abbrev pub IsOutput : List Event → Type 0
IsOutput [] = Unit
IsOutput (stdout_data d ∷ es) = IsOutput es
IsOutput (stderr_data d ∷ es) = IsOutput es
IsOutput (_ ∷ es) = ⊥

take_chunk :
    (e : List Echo) (x : Echo) (es : List Event) (b : Bool)
    → (e ++ echo_of b x) ++ (if b then [] else chunks es) ≡ e ++ (if b then [] else x ∷ chunks es)
take_chunk e x es true = append_assoc e [] []
take_chunk e x es false = append_assoc e (x ∷ []) (chunks es)

-- The report on a process that has not ended with the code 0; `null` stands for the code of one
-- that a signal has ended.
abbrev pub report : (ℕ → Text) → Command → Option ℕ → Text → Text
report show c none err =
    codes "return code: null\ncmdline: "
    ++ (c.name ++ (codes " " ++ (join (codes " ") c.args ++ (codes "\n" ++ err))))
report show c (some n) err =
    codes "return code: "
    ++ (show n
        ++ (codes "\ncmdline: "
            ++ (c.name ++ (codes " " ++ (join (codes " ") c.args ++ (codes "\n" ++ err))))))

-- The reason of a rejection: the report, or nothing where `quiet` is false.
abbrev pub reason : (ℕ → Text) → Command → Quiet → Option ℕ → Text → Text
reason show c loud code err = []
reason show c strict code err = report show c code err
reason show c truthy code err = report show c code err

-- What the end of a process with that output and error output settles its promise with.
abbrev pub close_result : (ℕ → Text) → Command → Quiet → Option ℕ → Text → Text → Settled
close_result show c quiet none out err = rejected (reason show c quiet none err)
close_result show c quiet (some zero) out err = resolved out
close_result show c quiet (some (suc n)) out err = rejected (reason show c quiet (some (suc n)) err)

rejection-reason :
    (show : ℕ → Text) (c : Command) (quiet : Quiet) (code : Option ℕ) (err : Text)
    → rejection show c (is_truthy quiet) code err ≡ reason show c quiet code err
unfolding rejection
rejection-reason show c loud code err = refl
rejection-reason show c strict none err = refl
rejection-reason show c strict (some n) err = refl
rejection-reason show c truthy none err = refl
rejection-reason show c truthy (some n) err = refl

suc-ne-0 : (n : ℕ) → (suc n == 0) ≡ false
suc-ne-0 n = ground arith

closed_as :
    (show : ℕ → Text) (c : Command) (quiet : Quiet) (code : Option ℕ) (out err : Text)
    → (if is_success code
        then resolved out
        else rejected (rejection show c (is_truthy quiet) code err))
      ≡ close_result show c quiet code out err
closed_as show c quiet none out err = ap rejected (rejection-reason show c quiet none err)
closed_as show c quiet (some zero) out err = refl
closed_as show c quiet (some (suc n)) out err =
    rw (suc-ne-0 n) (ap rejected (rejection-reason show c quiet (some (suc n)) err))

module _ (show : ℕ → Text) (c : Command) (quiet : Quiet) where
  pub watch_from-append :
      (w : Watch) (es fs : List Event)
      → watch_from show c quiet w (es ++ fs)
        ≡ watch_from show c quiet (watch_from show c quiet w es) fs
  unfolding watch_from
  watch_from-append w [] fs = refl
  watch_from-append w (e ∷ es) fs = watch_from-append (on_event show c quiet w e) es fs

  pub on_event-settled :
      (w : Watch) (e : Event) {s : Settled}
      → w.settled ≡ some s
      → (on_event show c quiet w e).settled ≡ some s
  unfolding on_event settle
  on_event-settled w (stdout_data d) h = h
  on_event-settled w (stderr_data d) h = h
  on_event-settled w (failed d) h = rw h
  on_event-settled w (closed code) h = rw h

  pub watch_from-settled :
      (w : Watch) (es : List Event) {s : Settled}
      → w.settled ≡ some s
      → (watch_from show c quiet w es).settled ≡ some s
  unfolding watch_from
  watch_from-settled w [] h = h
  watch_from-settled w (e ∷ es) h =
      watch_from-settled (on_event show c quiet w e) es (on_event-settled w e h)

  res-watch_from :
      (w : Watch) (es : List Event) → (watch_from show c quiet w es).res ≡ w.res ++ out_text es
  unfolding watch_from on_event settle
  res-watch_from w [] = sym (append-nil w.res)
  res-watch_from w (stdout_data d ∷ es) =
      res-watch_from (on_event show c quiet w (stdout_data d)) es
      ∙ append_assoc w.res d (out_text es)
  res-watch_from w (stderr_data d ∷ es) =
      res-watch_from (on_event show c quiet w (stderr_data d)) es
  res-watch_from w (failed d ∷ es) = res-watch_from (on_event show c quiet w (failed d)) es
  res-watch_from w (closed d ∷ es) = res-watch_from (on_event show c quiet w (closed d)) es

  err-watch_from :
      (w : Watch) (es : List Event) → (watch_from show c quiet w es).err ≡ w.err ++ err_text es
  unfolding watch_from on_event settle
  err-watch_from w [] = sym (append-nil w.err)
  err-watch_from w (stderr_data d ∷ es) =
      err-watch_from (on_event show c quiet w (stderr_data d)) es
      ∙ append_assoc w.err d (err_text es)
  err-watch_from w (stdout_data d ∷ es) =
      err-watch_from (on_event show c quiet w (stdout_data d)) es
  err-watch_from w (failed d ∷ es) = err-watch_from (on_event show c quiet w (failed d)) es
  err-watch_from w (closed d ∷ es) = err-watch_from (on_event show c quiet w (closed d)) es

  settled-watch_from :
      (w : Watch) (es : List Event)
      → IsOutput es
      → (watch_from show c quiet w es).settled ≡ w.settled
  unfolding watch_from on_event
  settled-watch_from w [] h = refl
  settled-watch_from w (stdout_data d ∷ es) h =
      settled-watch_from (on_event show c quiet w (stdout_data d)) es h
  settled-watch_from w (stderr_data d ∷ es) h =
      settled-watch_from (on_event show c quiet w (stderr_data d)) es h
  settled-watch_from w (failed d ∷ es) h = absurd h
  settled-watch_from w (closed d ∷ es) h = absurd h

  closed-settled :
      (w : Watch) (code : Option ℕ)
      → w.settled ≡ none
      → (on_event show c quiet w (closed code)).settled
        ≡ some (close_result show c quiet code w.res w.err)
  unfolding on_event settle
  closed-settled w code h = rw h (ap some (closed_as show c quiet code w.res w.err))

  -- After data only, the end of the process settles the promise, and no later event changes that:
  -- with all of the output when the exit code is 0, and otherwise with a rejection. Its reason is
  -- empty where `quiet` is false, and otherwise `return code: <code>`, `cmdline: <command>` and
  -- all of the error output, each on a line of its own.
  pub spawn_process-closed :
      (es later : List Event) (code : Option ℕ)
      → IsOutput es
      → (spawn_process show c quiet (es ++ closed code ∷ later)).settled
        ≡ some (close_result show c quiet code (out_text es) (err_text es))
  unfolding spawn_process
  spawn_process-closed es later code h =
      let w = watch_from show c quiet new_watch es in
      ap (λ v. v.settled) (watch_from-append new_watch es (closed code ∷ later))
      ∙ unfold watch_from in
        watch_from-settled (on_event show c quiet w (closed code)) later (
          closed-settled w code (settled-watch_from new_watch es h)
          ∙ ap (λ r. some (close_result show c quiet code r w.err)) (res-watch_from new_watch es)
          ∙ ap (λ r. some (close_result show c quiet code (out_text es) r))
              (err-watch_from new_watch es))

  failed-settled :
      (w : Watch) (error : Text)
      → w.settled ≡ none
      → (on_event show c quiet w (failed error)).settled ≡ some (rejected error)
  unfolding on_event settle
  failed-settled w error h = rw h

  -- After data only, a failure to run the process rejects the promise with its error, and no later
  -- event changes that, an exit code of 0 included.
  pub spawn_process-failed :
      (es later : List Event) (error : Text)
      → IsOutput es
      → (spawn_process show c quiet (es ++ failed error ∷ later)).settled ≡ some (rejected error)
  unfolding spawn_process
  spawn_process-failed es later error h =
      let w = watch_from show c quiet new_watch es in
      ap (λ v. v.settled) (watch_from-append new_watch es (failed error ∷ later))
      ∙ unfold watch_from in
        watch_from-settled (on_event show c quiet w (failed error)) later
          (failed-settled w error (settled-watch_from new_watch es h))

  echo-watch_from :
      (w : Watch) (es : List Event)
      → (watch_from show c quiet w es).echo ≡ w.echo ++ (if is_strict quiet then [] else chunks es)
  unfolding watch_from on_event settle
  echo-watch_from w [] = sym (unit-right w.echo (is_strict quiet))
    where
      unit-right : (e : List Echo) (b : Bool) → e ++ (if b then [] else []) ≡ e
      unit-right e true = append-nil e
      unit-right e false = append-nil e
  echo-watch_from w (stdout_data d ∷ es) =
      echo-watch_from (on_event show c quiet w (stdout_data d)) es
      ∙ take_chunk w.echo (to_stdout d) es (is_strict quiet)
  echo-watch_from w (stderr_data d ∷ es) =
      echo-watch_from (on_event show c quiet w (stderr_data d)) es
      ∙ take_chunk w.echo (to_stderr d) es (is_strict quiet)
  echo-watch_from w (failed d ∷ es) = echo-watch_from (on_event show c quiet w (failed d)) es
  echo-watch_from w (closed d ∷ es) = echo-watch_from (on_event show c quiet w (closed d)) es

  -- A process with `quiet === true` writes nothing to the script's streams, and any other the
  -- chunks of both of its streams in the order in which they came, whatever the events are.
  pub echo-spawn_process :
      (es : List Event)
      → (spawn_process show c quiet es).echo ≡ (if is_strict quiet then [] else chunks es)
  unfolding spawn_process
  echo-spawn_process es = echo-watch_from new_watch es
