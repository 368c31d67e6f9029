-- ===== src/Build/Parallel/Promises.antt =====
-- `Promise.all` of the promises that `spawnAll` has.
use ton_sdk.Base.{
  Text, ℕ, suc, Bool, true, false, Option, none, some, List, [], ◌∷◌, if◌then◌else◌, ◌==◌,
  Bool-cases, inl, inr, ◌⊎◌, ◌≡◌, ◌≢◌, refl, subst, arith, ◌<◌,
}
use ton_sdk.Build.Process.{Event, Settled, resolved, rejected}
use ton_sdk.Build.Process.{loud}
use ton_sdk.Build.Process.Settles.{on_event-settled}
use ton_sdk.Build.Parallel.{
  Member, AllSettled, all_resolved, first_rejected, Group, add_settled, combine, keep, take_event,
  deliver, group_event, group_from,
}

-- A process of the list is rejected with this reason.
abbrev pub Rejected : Text → List Member → Type 0
Rejected e [] = ⊥
Rejected e (m ∷ ms) = (m.watch.settled ≡ some (rejected e)) ⊎ Rejected e ms

-- The promise of the list is what its promises amount to; a rejection is that of one of them.
abbrev pub Agrees : Option AllSettled → List Member → Type 0
Agrees none ms = combine ms ≡ none
Agrees (some (all_resolved rs)) ms = combine ms ≡ some (all_resolved rs)
Agrees (some (first_rejected e)) ms = Rejected e ms

add_settled-rejected :
    (s : Option Settled) (rest : Option AllSettled) {e : Text}
    → add_settled s rest ≡ some (first_rejected e)
    → (s ≡ some (rejected e)) ⊎ (rest ≡ some (first_rejected e))
add_settled-rejected none none h = cc
add_settled-rejected none (some (all_resolved rs)) h = cc
add_settled-rejected none (some (first_rejected e)) h = inr h
add_settled-rejected (some (resolved r)) none h = cc
add_settled-rejected (some (resolved r)) (some (all_resolved rs)) h = cc
add_settled-rejected (some (resolved r)) (some (first_rejected e)) h = inr h
add_settled-rejected (some (rejected e)) rest h = inl (cc)

add_settled-resolved :
    (s : Option Settled) (rest : Option AllSettled) {rs : List Text}
    → add_settled s rest ≡ some (all_resolved rs)
    → (r : Text) × (ts : List Text) × (s ≡ some (resolved r))
      × (rest ≡ some (all_resolved ts))
      × (rs ≡ r ∷ ts)
add_settled-resolved none none h = cc
add_settled-resolved none (some (all_resolved rs)) h = cc
add_settled-resolved none (some (first_rejected e)) h = cc
add_settled-resolved (some (resolved r)) none h = cc
add_settled-resolved (some (resolved r)) (some (all_resolved ts)) h = (r, ts, refl, refl, cc)
add_settled-resolved (some (resolved r)) (some (first_rejected e)) h = cc
add_settled-resolved (some (rejected e)) rest h = cc

combine-Rejected :
    (ms : List Member) {e : Text} → combine ms ≡ some (first_rejected e) → Rejected e ms
unfolding combine
combine-Rejected [] h = cc
combine-Rejected (m ∷ ms) h = elim (add_settled-rejected m.watch.settled (combine ms) h) [
  | inl q ↦ inl q
  | inr q ↦ inr (combine-Rejected ms q)
]

-- A rejected promise shows in what the list amounts to.
Rejected-combine :
    (ms : List Member) (e : Text)
    → Rejected e ms
    → (r : Text) × (combine ms ≡ some (first_rejected r))
unfolding combine
Rejected-combine [] e h = elim h [ ]
Rejected-combine (m ∷ ms) e (inl h) = (e, rw h)
Rejected-combine (m ∷ ms) e (inr h) = let (r, q) = Rejected-combine ms e h in go m.watch.settled r q
  where
    go :
        (s : Option Settled) (r : Text)
        → combine ms ≡ some (first_rejected r)
        → (t : Text) × (add_settled s (combine ms) ≡ some (first_rejected t))
    go none r q = (r, rw q)
    go (some (resolved x)) r q = (r, rw q)
    go (some (rejected x)) r q = (x, refl)

pub combine-Agrees : (ms : List Member) → Agrees (combine ms) ms
combine-Agrees ms = go (combine ms) refl
  where
    go : (a : Option AllSettled) → combine ms ≡ a → Agrees a ms
    go none h = h
    go (some (all_resolved rs)) h = h
    go (some (first_rejected e)) h = combine-Rejected ms h

-- No process of the list is rejected.
abbrev pub NoneRejected : List Member → Type 0
NoneRejected ms = (e : Text) → Rejected e ms → ⊥

pub NoneRejected-of_none : (ms : List Member) → combine ms ≡ none → NoneRejected ms
NoneRejected-of_none ms h e k = let (r, q) = Rejected-combine ms e k in absurd (cc)

combine_behind :
    (s : Option Settled) {e : Text}
    → ((r : Text) → s ≢ some (rejected r))
    → add_settled s (some (first_rejected e)) ≡ some (first_rejected e)
combine_behind none h = refl
combine_behind (some (resolved x)) h = refl
combine_behind (some (rejected x)) h = absurd (h x refl)

module _ (show : ℕ → Text) where
  deliver-Rejected :
      (k i : ℕ) (v : Event) (ms : List Member) (e : Text)
      → Rejected e ms
      → Rejected e (deliver show k i v ms)
  unfolding deliver
  deliver-Rejected k i v [] e h = elim h [ ]
  deliver-Rejected k i v (m ∷ ms) e (inl h) = inl (go (k == i))
    where
      go : (b : Bool) → (if b then take_event show m v else m).watch.settled ≡ some (rejected e)
      go true = on_event-settled show m.command loud m.watch v h
      go false = h
  deliver-Rejected k i v (m ∷ ms) e (inr h) = inr (deliver-Rejected (suc k) i v ms e h)

  combine-deliver :
      (k i : ℕ) (v : Event) (ms : List Member) {rs : List Text}
      → combine ms ≡ some (all_resolved rs)
      → combine (deliver show k i v ms) ≡ some (all_resolved rs)
  unfolding deliver combine
  combine-deliver k i v [] h = h
  combine-deliver k i v (m ∷ ms) h =
      let (r, ts, p, q, e) = add_settled-resolved m.watch.settled (combine ms) h in
      rw (go (k == i) r p, combine-deliver (suc k) i v ms q, e)
    where
      go :
          (b : Bool) (r : Text)
          → m.watch.settled ≡ some (resolved r)
          → (if b then take_event show m v else m).watch.settled ≡ some (resolved r)
      go true r p = on_event-settled show m.command loud m.watch v p
      go false r p = p

  deliver_skip : (k i : ℕ) (v : Event) (ms : List Member) → i < k → deliver show k i v ms ≡ ms
  unfolding deliver
  deliver_skip k i v [] h = refl
  deliver_skip k i v (m ∷ ms) h = ground (arith, deliver_skip (suc k) i v ms)

  -- Where no promise was rejected, the rejection that an event brings is the one that shows.
  pub combine-deliver-Rejected :
      (k i : ℕ) (v : Event) (ms : List Member) (e : Text)
      → NoneRejected ms
      → Rejected e (deliver show k i v ms)
      → combine (deliver show k i v ms) ≡ some (first_rejected e)
  unfolding deliver combine
  combine-deliver-Rejected k i v [] e none_yet h = elim h [ ]
  combine-deliver-Rejected k i v (m ∷ ms) e none_yet (inl h) = rw h
  combine-deliver-Rejected k i v (m ∷ ms) e none_yet (inr h) = elim (Bool-cases (k == i)) [
    | inl q ↦
        let same_tail = deliver_skip (suc k) i v ms (ground arith) in
        absurd (none_yet e (inr (subst (Rejected e) same_tail h)))
    | inr q ↦
        rw (q, combine-deliver-Rejected (suc k) i v ms e (λ r l. none_yet r (inr l)) h)
          (combine_behind m.watch.settled (λ r l. none_yet r (inl l)))
  ]

  keep-Agrees :
      (a : Option AllSettled) (i : ℕ) (v : Event) (ms : List Member)
      → Agrees a ms
      → Agrees (keep a (combine (deliver show 0 i v ms))) (deliver show 0 i v ms)
  keep-Agrees none i v ms h = combine-Agrees (deliver show 0 i v ms)
  keep-Agrees (some (all_resolved rs)) i v ms h = combine-deliver 0 i v ms h
  keep-Agrees (some (first_rejected e)) i v ms h = deliver-Rejected 0 i v ms e h

  pub group_from-Agrees :
      (g : Group) (xs : List (ℕ × Event))
      → Agrees g.all g.processes
      → Agrees (group_from show g xs).all (group_from show g xs).processes
  unfolding group_from group_event
  group_from-Agrees g [] h = h
  group_from-Agrees g ((i, v) ∷ xs) h =
      group_from-Agrees (group_event show g (i, v)) xs (keep-Agrees g.all i v g.processes h)

-- Where all have resolved, so has the promise of the list.
pub Agrees-resolved :
    (a : Option AllSettled) (ms : List Member) {rs : List Text}
    → Agrees a ms
    → combine ms ≡ some (all_resolved rs)
    → a ≡ some (all_resolved rs)
Agrees-resolved none ms h k = cc
Agrees-resolved (some (all_resolved rs)) ms h k = cc
Agrees-resolved (some (first_rejected e)) ms h k = let (r, q) = Rejected-combine ms e h in cc

-- All have settled.
abbrev pub HaveSettled : List Member → Type 0
HaveSettled [] = Unit
HaveSettled (m ∷ ms) = ((s : Settled) × (m.watch.settled ≡ some s)) × HaveSettled ms

combine-HaveSettled : (ms : List Member) → HaveSettled ms → (a : AllSettled) × (combine ms ≡ some a)
unfolding combine
combine-HaveSettled [] h = (all_resolved [], refl)
combine-HaveSettled (m ∷ ms) ((s, e), h) =
    let (a, q) = combine-HaveSettled ms h in rw (e, q) (go s a)
  where
    go :
        (s : Settled) (a : AllSettled) → (b : AllSettled) × (add_settled (some s) (some a) ≡ some b)
    go (resolved r) (all_resolved rs) = (all_resolved (r ∷ rs), refl)
    go (resolved r) (first_rejected e) = (first_rejected e, refl)
    go (rejected r) a = (first_rejected r, refl)

pub Agrees-HaveSettled :
    (a : Option AllSettled) (ms : List Member)
    → Agrees a ms
    → HaveSettled ms
    → (s : AllSettled) × (a ≡ some s)
Agrees-HaveSettled none ms h k = let (s, q) = combine-HaveSettled ms k in absurd (cc)
Agrees-HaveSettled (some s) ms h k = (s, refl)
