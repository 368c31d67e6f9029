-- ===== src/Build/Parallel/Outcomes.antt =====
-- When the promise of `spawnAll` is settled, and with what.
use ton_sdk.Base.{
  Text, ℕ, suc, Option, Bool, true, false, none, some, List, [], ◌∷◌, ◌++◌, map, ◌≡◌, refl, ◌∙◌, ap,
  sym, subst, All, any_of,
}
use ton_sdk.Build.Process.{
  loud, Event, stdout_data, stderr_data, failed, closed, Settled, resolved, rejected, Watch,
  on_event, watch_from, settle, spawn_process,
}
use ton_sdk.Build.Process.Settles.{watch_from-settled}
use ton_sdk.Build.Parallel.{
  Member, AllSettled, all_resolved, first_rejected, Group, combine, group_event, group_from, start,
  start_all, spawn_all,
}
use ton_sdk.Build.Parallel.Isolation.{
  HasName, events_of, after, alone, processes-group_from, command_of, start-after,
}
use ton_sdk.Build.Parallel.Promises.{
  Rejected, Agrees, HaveSettled, NoneRejected, NoneRejected-of_none, combine-Agrees,
  group_from-Agrees, combine-deliver-Rejected, Agrees-resolved, Agrees-HaveSettled,
}

-- The process has been closed, or has failed.
abbrev pub is_end : Event → Bool
is_end (stdout_data d) = false
is_end (stderr_data d) = false
is_end _ = true

module _ (show : ℕ → Text) where
  watch_from-ends :
      (m : Member) (w : Watch) (es : List Event)
      → any_of is_end es ≡ true
      → (s : Settled) × ((watch_from show m.command loud w es).settled ≡ some s)
  unfolding watch_from on_event settle
  watch_from-ends m w [] h = cc
  watch_from-ends m w (stdout_data d ∷ es) h =
      watch_from-ends m (on_event show m.command loud w (stdout_data d)) es h
  watch_from-ends m w (stderr_data d ∷ es) h =
      watch_from-ends m (on_event show m.command loud w (stderr_data d)) es h
  watch_from-ends m w (failed d ∷ es) h = (
    _,
    watch_from-settled show m.command loud (on_event show m.command loud w (failed d)) es refl,
  )
  watch_from-ends m w (closed d ∷ es) h = (
    _,
    watch_from-settled show m.command loud (on_event show m.command loud w (closed d)) es refl,
  )

  group_from-append :
      (g : Group) (xs ys : List (ℕ × Event))
      → group_from show g (xs ++ ys) ≡ group_from show (group_from show g xs) ys
  unfolding group_from
  group_from-append g [] ys = refl
  group_from-append g (x ∷ xs) ys = group_from-append (group_event show g x) xs ys

  all-group_from :
      (g : Group) (xs : List (ℕ × Event)) {s : AllSettled}
      → g.all ≡ some s
      → (group_from show g xs).all ≡ some s
  unfolding group_from
  all-group_from g [] h = h
  all-group_from g (x ∷ xs) h =
      all-group_from (group_event show g x) xs (unfold group_event in rw h)

  group_event-Rejected :
      (g : Group) (i : ℕ) (v : Event) (e : Text)
      → g.all ≡ none
      → NoneRejected g.processes
      → Rejected e (group_event show g (i, v)).processes
      → (group_event show g (i, v)).all ≡ some (first_rejected e)
  unfolding group_event
  group_event-Rejected g i v e h k r = rw h (combine-deliver-Rejected show 0 i v g.processes e k r)

  group_from-Rejected :
      (g : Group) (xs ys : List (ℕ × Event)) (i : ℕ) (v : Event) (e : Text)
      → Agrees g.all g.processes
      → (group_from show g xs).all ≡ none
      → Rejected e (group_from show g (xs ++ (i, v) ∷ [])).processes
      → (group_from show g (xs ++ (i, v) ∷ ys)).all ≡ some (first_rejected e)
  unfolding group_from
  group_from-Rejected g xs ys i v e a h r =
      let g' = group_from show g xs in
      let none_yet =
        NoneRejected-of_none g'.processes
          (subst (λ o. Agrees o g'.processes) h (group_from-Agrees show g xs a)) in
      let r' = subst (λ o. Rejected e o.processes) (group_from-append g xs ((i, v) ∷ [])) r in
      ap (λ o. o.all) (group_from-append g xs ((i, v) ∷ ys))
      ∙ all-group_from (group_event show g' (i, v)) ys (group_event-Rejected g' i v e h none_yet r')

module _ {ℓ} (show : ℕ → Text) (no_name : Option Text → Text) {A : Type ℓ}
    (get_args : A → List Text) where
  spawn_all-Agrees :
      (items : List A) (xs : List (ℕ × Event))
      → Agrees
          (spawn_all show no_name items get_args xs).all
          (spawn_all show no_name items get_args xs).processes
  unfolding spawn_all start_all
  spawn_all-Agrees items xs =
      group_from-Agrees show (start_all no_name items get_args) xs
        (combine-Agrees (map (λ item. start no_name (get_args item)) items))

  -- The processes of the items resolve with these texts, each after its own events.
  abbrev pub Resolve : ℕ → List A → List (ℕ × Event) → List Text → Type 0
  Resolve k [] xs [] = Unit
  Resolve k [] xs (r ∷ rs) = ⊥
  Resolve k (item ∷ items) xs [] = ⊥
  Resolve k (item ∷ items) xs (r ∷ rs) =
      ((spawn_process show (command_of (get_args item)) loud (events_of k xs)).settled
        ≡ some (resolved r))
      × Resolve (suc k) items xs rs

  -- The processes of the items that have a command with a name have ended.
  abbrev pub HaveEnded : ℕ → List A → List (ℕ × Event) → Type 0
  HaveEnded k [] xs = Unit
  HaveEnded k (item ∷ items) xs =
      (HasName (get_args item) → any_of is_end (events_of k xs) ≡ true) × HaveEnded (suc k) items xs

  combine-Resolve :
      (k : ℕ) (items : List A) (xs : List (ℕ × Event)) (rs : List Text)
      → All (λ item. HasName (get_args item)) items
      → Resolve k items xs rs
      → combine (alone show k xs (map (λ item. start no_name (get_args item)) items))
        ≡ some (all_resolved rs)
  unfolding combine
  combine-Resolve k [] xs [] n h = refl
  combine-Resolve k [] xs (r ∷ rs) n h = absurd h
  combine-Resolve k (item ∷ items) xs [] n h = absurd h
  combine-Resolve k (item ∷ items) xs (r ∷ rs) n h = rw (
    start-after show no_name get_args (get_args item) (events_of k xs) n.0,
    h.0,
    combine-Resolve (suc k) items xs rs n.1 h.1,
  )

  -- When every item has a command with a name and every process resolves, `spawnAll` resolves with their
  -- outputs in the order of the items, whatever the interleaving of their events is.
  pub spawn_all-resolves :
      (items : List A) (xs : List (ℕ × Event)) (rs : List Text)
      → All (λ item. HasName (get_args item)) items
      → Resolve 0 items xs rs
      → (spawn_all show no_name items get_args xs).all ≡ some (all_resolved rs)
  spawn_all-resolves items xs rs n h =
      let g = spawn_all show no_name items get_args xs in
      Agrees-resolved g.all g.processes (spawn_all-Agrees items xs) (
        unfold spawn_all in
        unfold start_all in
        ap combine (processes-group_from show (start_all no_name items get_args) xs)
        ∙ combine-Resolve 0 items xs rs n h)

  after-settled :
      (k : ℕ) (args : List Text) (es : List Event)
      → (HasName args → any_of is_end es ≡ true)
      → (s : Settled) × ((after show (start no_name args) es).watch.settled ≡ some s)
  unfolding start
  after-settled k [] es h = (rejected (no_name none), watch_from-settled show _ loud _ es refl)
  after-settled k ([] ∷ args) es h =
      (rejected (no_name (some [])), watch_from-settled show _ loud _ es refl)
  after-settled k ((c ∷ name) ∷ args) es h =
      watch_from-ends show (start no_name ((c ∷ name) ∷ args)) _ es (h tt)

  alone-HaveSettled :
      (k : ℕ) (items : List A) (xs : List (ℕ × Event))
      → HaveEnded k items xs
      → HaveSettled (alone show k xs (map (λ item. start no_name (get_args item)) items))
  alone-HaveSettled k [] xs h = tt
  alone-HaveSettled k (item ∷ items) xs h =
      (after-settled k (get_args item) (events_of k xs) h.0, alone-HaveSettled (suc k) items xs h.1)

  -- `spawnAll` does not hang: once every process that could be started has been closed or has
  -- failed, its promise is settled.
  pub spawn_all-settles :
      (items : List A) (xs : List (ℕ × Event))
      → HaveEnded 0 items xs
      → (s : AllSettled) × ((spawn_all show no_name items get_args xs).all ≡ some s)
  spawn_all-settles items xs h =
      let g = spawn_all show no_name items get_args xs in
      Agrees-HaveSettled g.all g.processes (spawn_all-Agrees items xs) (
        unfold spawn_all in
        unfold start_all in
        subst HaveSettled (sym (processes-group_from show (start_all no_name items get_args) xs))
          (alone-HaveSettled 0 items xs h))

  -- While the promise of `spawnAll` is not settled, the event that rejects one of its processes
  -- rejects it with the same reason, and no later event changes that.
  pub spawn_all-rejects :
      (items : List A) (xs ys : List (ℕ × Event)) (i : ℕ) (v : Event) (e : Text)
      → (spawn_all show no_name items get_args xs).all ≡ none
      → Rejected e (spawn_all show no_name items get_args (xs ++ (i, v) ∷ [])).processes
      → (spawn_all show no_name items get_args (xs ++ (i, v) ∷ ys)).all ≡ some (first_rejected e)
  unfolding spawn_all start_all
  spawn_all-rejects items xs ys i v e h r =
      group_from-Rejected show (start_all no_name items get_args) xs ys i v e
        (combine-Agrees (map (λ item. start no_name (get_args item)) items)) h r
