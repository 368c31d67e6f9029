-- ===== src/Build/Parallel/Isolation.antt =====
-- Each process of `spawnAll` goes its own way.
use ton_sdk.Base.{
  Text, ℕ, suc, Option, List, [], ◌∷◌, map, if◌then◌else◌, ◌==◌, Bool-cases, inl, inr, ◌≡◌, refl,
  ◌∙◌, ap, All,
}
use mathlib.Core.Path.{ap₂}
use ton_sdk.Build.Process.{loud, Event, Command, Watch, watch_from, spawn_process}
use ton_sdk.Build.Parallel.{
  Member, Group, take_event, deliver, group_event, group_from, start, start_all, spawn_all,
}

-- The events of the process of index `k`, in their order.
abbrev pub events_of : ℕ → List (ℕ × Event) → List Event
events_of k [] = []
events_of k ((i, e) ∷ xs) = let rest = events_of k xs in if k == i then e ∷ rest else rest

module _ (show : ℕ → Text) where
  abbrev pub after : Member → List Event → Member
  after m es = record m { watch = watch_from show m.command loud m.watch es }

  -- Every process after its own events alone; `k` is the index of the first in the list.
  abbrev pub alone : ℕ → List (ℕ × Event) → List Member → List Member
  alone k xs [] = []
  alone k xs (m ∷ ms) = after m (events_of k xs) ∷ alone (suc k) xs ms

  alone-nil : (k : ℕ) (ms : List Member) → ms ≡ alone k [] ms
  unfolding watch_from
  alone-nil k [] = refl
  alone-nil k (m ∷ ms) = ap (λ l. m ∷ l) (alone-nil (suc k) ms)

  after-deliver :
      (k i : ℕ) (e : Event) (xs : List (ℕ × Event)) (m : Member)
      → after (if k == i then take_event show m e else m) (events_of k xs)
        ≡ after m (events_of k ((i, e) ∷ xs))
  unfolding watch_from
  after-deliver k i e xs m = elim (Bool-cases (k == i)) [ inl h ↦ rw h | inr h ↦ rw h ]

  alone-deliver :
      (k i : ℕ) (e : Event) (xs : List (ℕ × Event)) (ms : List Member)
      → alone k xs (deliver show k i e ms) ≡ alone k ((i, e) ∷ xs) ms
  unfolding deliver
  alone-deliver k i e xs [] = refl
  alone-deliver k i e xs (m ∷ ms) =
      ap (λ a. a ∷ alone (suc k) xs (deliver show (suc k) i e ms)) (after-deliver k i e xs m)
      ∙ ap (λ l. after m (events_of k ((i, e) ∷ xs)) ∷ l) (alone-deliver (suc k) i e xs ms)

  pub processes-group_from :
      (g : Group) (xs : List (ℕ × Event))
      → (group_from show g xs).processes ≡ alone 0 xs g.processes
  unfolding group_from
  processes-group_from g [] = alone-nil 0 g.processes
  processes-group_from g ((i, e) ∷ xs) =
      processes-group_from (group_event show g (i, e)) xs
      ∙ unfold group_event in alone-deliver 0 i e xs g.processes

-- The command of an item: its first word, and the others.
abbrev pub command_of : List Text → Command
command_of [] = record { name = []; args = [] }
command_of (name ∷ args) = record { name = name; args = args }

-- A command that node can be asked to start: it has a name.
abbrev pub HasName : List Text → Type 0
HasName [] = ⊥
HasName ([] ∷ args) = ⊥
HasName ((c ∷ name) ∷ args) = Unit

module _ {ℓ} (show : ℕ → Text) (no_name : Option Text → Text) {A : Type ℓ}
    (get_args : A → List Text) where
  -- What `spawnProcess` makes of each item, given its own events.
  abbrev pub separate : ℕ → List A → List (ℕ × Event) → List Watch
  separate k [] xs = []
  separate k (item ∷ items) xs =
      spawn_process show (command_of (get_args item)) loud (events_of k xs)
      ∷ separate (suc k) items xs

  pub start-after :
      (args : List Text) (es : List Event)
      → HasName args
      → (after show (start no_name args) es).watch ≡ spawn_process show (command_of args) loud es
  unfolding start spawn_process
  start-after [] es h = absurd h
  start-after ([] ∷ args) es h = absurd h
  start-after ((c ∷ name) ∷ args) es h = refl

  alone-separate :
      (k : ℕ) (items : List A) (xs : List (ℕ × Event))
      → All (λ item. HasName (get_args item)) items
      → map (λ m. m.watch) (alone show k xs (map (λ item. start no_name (get_args item)) items))
        ≡ separate k items xs
  alone-separate k [] xs h = refl
  alone-separate k (item ∷ items) xs h =
      ap₂ ◌∷◌ (start-after (get_args item) (events_of k xs) h.0)
        (alone-separate (suc k) items xs h.1)

  -- Where every item has a command with a name, `spawnAll` is the processes apart: whatever the interleaving of
  -- their events is, each has the output, the error output and the promise that `spawnProcess`
  -- gives it for its own events alone.
  pub spawn_all-separate :
      (items : List A) (xs : List (ℕ × Event))
      → All (λ item. HasName (get_args item)) items
      → map (λ m. m.watch) (spawn_all show no_name items get_args xs).processes
        ≡ separate 0 items xs
  unfolding spawn_all start_all
  spawn_all-separate items xs h =
      ap (map (λ m. m.watch)) (processes-group_from show (start_all no_name items get_args) xs)
      ∙ alone-separate 0 items xs h
