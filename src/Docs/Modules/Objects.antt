-- ===== src/Docs/Modules/Objects.antt =====
-- The app objects of a module: those that the documentation lists are those that the binding
-- (tools/ts-code.ts, `module`) declares and dispatches to.
use ton_sdk.Base.{
  ◌⊎◌, Occurs-cons, same_iff, Text, Bool, true, false, ◌||◌, Option, none, some, List, [], ◌∷◌,
  ◌++◌, concat, concat-append, any_of, same, same_refl, Occurs, here, there, Outcome, returns,
  map_all, >>=-eq-returns, returns-injective, Bool-cases, inl, inr, append-nil, arith, ◌≡◌, refl,
  sym, ◌∙◌, ap, subst,
}
use ton_sdk.Api.Types.{Api, ApiModule, ApiFunction}
use ton_sdk.Api.Info.{FunctionInfo, get_function_info}
use ton_sdk.Ts.Modules.{app_object_code, app_object_round, app_object_loop}
use ton_sdk.Docs.Modules.{add_object, collect_objects}

-- An object of this name is in the list.
abbrev pub has_name : List ApiModule → Text → Bool
has_name objs n = any_of (λ o. same n o.name) objs

-- No two objects have one name.
abbrev pub HasDistinctNames : List ApiModule → Type 0
HasDistinctNames [] = Unit
HasDistinctNames (o ∷ os) = (any_of (λ p. same p.name o.name) os ≡ false) × HasDistinctNames os

any_of-append {ℓ} :
    {A : Type ℓ} (p : A → Bool) (xs ys : List A)
    → any_of p (xs ++ ys) ≡ (any_of p xs || any_of p ys)
any_of-append p [] ys = refl
any_of-append p (x ∷ xs) ys = ground (arith, any_of-append p xs ys)

map_all-append {ℓ} :
    {A B : Type ℓ} (f : A → Outcome B) (xs : List A) (y : A) (bs : List B) (c : B)
    → map_all f xs ≡ returns bs
    → f y ≡ returns c
    → map_all f (xs ++ y ∷ []) ≡ returns (bs ++ c ∷ [])
unfolding map_all
map_all-append f [] y bs c h k = rw (k, sym (returns-injective h))
map_all-append f (x ∷ xs) y bs c h k =
    let (b, p, h₁) = >>=-eq-returns (f x) _ h in
    let (ds, q, h₂) = >>=-eq-returns (map_all f xs) _ h₁ in
    rw (p, map_all-append f xs y ds c q k, sym (returns-injective h₂))

Occurs-snoc {ℓ} :
    {A : Type ℓ} {x y : A} (xs : List A) → Occurs x (xs ++ y ∷ []) → Occurs x xs ⊎ (x ≡ y)
Occurs-snoc [] o = elim (Occurs-cons o) [ inl e ↦ inr e | inr k ↦ elim k [ ] ]
Occurs-snoc (z ∷ xs) o = elim (Occurs-cons o) [
  | inl e ↦ inl (subst (λ w. Occurs w (z ∷ xs)) (sym e) here)
  | inr k ↦ elim (Occurs-snoc xs k) [ inl i ↦ inl (there i) | inr q ↦ inr q ]
]

HasDistinctNames-snoc :
    (objs : List ApiModule) (obj : ApiModule)
    → HasDistinctNames objs
    → has_name objs obj.name ≡ false
    → HasDistinctNames (objs ++ obj ∷ [])
HasDistinctNames-snoc [] obj d h = (refl, tt)
HasDistinctNames-snoc (o ∷ os) obj d h = (
  ground (arith, any_of-append (λ p. same p.name o.name) os (obj ∷ [])),
  HasDistinctNames-snoc os obj d.1 (ground arith),
)

module _ (api : Api) where
  -- The names seen are those of the objects, and the text is their code in order.
  record Tracks (s : List Text × Text) (objs : List ApiModule) : Type 0 where
    seen : (n : Text) → any_of (same n) s.0 ≡ has_name objs n
    codes_of : List Text
    coded : map_all (app_object_code api) objs ≡ returns codes_of
    joined : s.1 ≡ concat codes_of

  added :
      (obj : ApiModule) (s : List Text × Text) (objs : List ApiModule) (t : Tracks s objs)
      (code : Text)
      → app_object_code api obj ≡ returns code
      → Tracks (obj.name ∷ s.0, s.1 ++ code) (objs ++ obj ∷ [])
  added obj s objs t code q = record {
    seen = λ n. ground (arith, t.seen n, any_of-append (λ o. same n o.name) objs (obj ∷ []));
    codes_of = t.codes_of ++ code ∷ [];
    coded = map_all-append (app_object_code api) objs obj t.codes_of code t.coded q;
    joined = rw (t.joined, concat-append t.codes_of (code ∷ []), append-nil code);
  }

  round-Tracks :
      (o : Option ApiModule) (s s' : List Text × Text) (objs : List ApiModule)
      → Tracks s objs
      → app_object_round api o s ≡ returns s'
      → Tracks s' (add_object o objs)
  unfolding app_object_round
  round-Tracks none s s' objs t h = subst (λ x. Tracks x objs) (returns-injective h) t
  round-Tracks (some obj) s s' objs t h = elim (Bool-cases (has_name objs obj.name)) [
    | inl e ↦
        let h' = rw (t.seen obj.name ∙ e) at h in
        rw e (subst (λ x. Tracks x objs) (returns-injective h') t)
    | inr e ↦
        let h' = rw (t.seen obj.name ∙ e) at h in
        let (code, q, h₁) = >>=-eq-returns (app_object_code api obj) _ h' in
        rw e (
          subst (λ x. Tracks x (objs ++ obj ∷ [])) (returns-injective h₁)
            (added obj s objs t code q))
  ]

  loop-Tracks :
      (fs : List ApiFunction) (s s' : List Text × Text) (objs : List ApiModule)
      → Tracks s objs
      → app_object_loop api fs s ≡ returns s'
      → (os : List ApiModule) × (collect_objects api fs objs ≡ returns os) × Tracks s' os
  unfolding app_object_loop collect_objects
  loop-Tracks [] s s' objs t h = (objs, refl, subst (λ x. Tracks x objs) (returns-injective h) t)
  loop-Tracks (f ∷ fs) s s' objs t h =
      let (info, e, h₁) = >>=-eq-returns (get_function_info api f) _ h in
      let (r, e', h₂) = >>=-eq-returns (app_object_round api info.app_object s) _ h₁ in
      let objs' = add_object info.app_object objs in
      let (os, q, t') = loop-Tracks fs r s' objs' (round-Tracks info.app_object s r objs t e') h₂ in
      (os, rw e q, t')

  empty-Tracks : Tracks ([], []) []
  unfolding map_all
  empty-Tracks = record { seen = λ n. refl; codes_of = []; coded = refl; joined = refl }

  HasDistinctNames-add :
      (o : Option ApiModule) (objs : List ApiModule)
      → HasDistinctNames objs
      → HasDistinctNames (add_object o objs)
  HasDistinctNames-add none objs h = h
  HasDistinctNames-add (some obj) objs h = elim (Bool-cases (has_name objs obj.name)) [
    | inl e ↦ rw e h
    | inr e ↦ rw e (HasDistinctNames-snoc objs obj h e)
  ]

  collect_objects-HasDistinctNames :
      (fs : List ApiFunction) (objs os : List ApiModule)
      → HasDistinctNames objs
      → collect_objects api fs objs ≡ returns os
      → HasDistinctNames os
  unfolding collect_objects
  collect_objects-HasDistinctNames [] objs os d h = subst HasDistinctNames (returns-injective h) d
  collect_objects-HasDistinctNames (f ∷ fs) objs os d h =
      let (info, e, h₁) = >>=-eq-returns (get_function_info api f) _ h in
      collect_objects-HasDistinctNames fs (add_object info.app_object objs) os
        (HasDistinctNames-add info.app_object objs d) h₁

  has_name-add :
      (o : Option ApiModule) (objs : List ApiModule) (n : Text)
      → has_name objs n ≡ true
      → has_name (add_object o objs) n ≡ true
  has_name-add none objs n h = h
  has_name-add (some obj) objs n h = elim (Bool-cases (has_name objs obj.name)) [
    | inl e ↦ rw e h
    | inr e ↦ rw e (rw (any_of-append (λ o. same n o.name) objs (obj ∷ []), h))
  ]

  collect_objects-keeps :
      (fs : List ApiFunction) (objs os : List ApiModule) (n : Text)
      → collect_objects api fs objs ≡ returns os
      → has_name objs n ≡ true
      → has_name os n ≡ true
  unfolding collect_objects
  collect_objects-keeps [] objs os n h k = subst (λ l. has_name l n ≡ true) (returns-injective h) k
  collect_objects-keeps (f ∷ fs) objs os n h k =
      let (info, e, h₁) = >>=-eq-returns (get_function_info api f) _ h in
      collect_objects-keeps fs (add_object info.app_object objs) os n h₁
        (has_name-add info.app_object objs n k)

  add_object-has_name :
      (obj : ApiModule) (objs : List ApiModule)
      → has_name (add_object (some obj) objs) obj.name ≡ true
  add_object-has_name obj objs = elim (Bool-cases (has_name objs obj.name)) [
    | inl e ↦ rw e e
    | inr e ↦
        rw e (rw (any_of-append (λ o. same obj.name o.name) objs (obj ∷ []), e, same_refl obj.name))
  ]

  collect_objects_complete :
      (fs : List ApiFunction) (objs os : List ApiModule)
      → collect_objects api fs objs ≡ returns os
      → (f : ApiFunction) (info : FunctionInfo) (obj : ApiModule) → Occurs f fs
      → get_function_info api f ≡ returns info
      → info.app_object ≡ some obj
      → has_name os obj.name ≡ true
  unfolding collect_objects
  collect_objects_complete [] objs os h f' info obj o q p = elim o [ ]
  collect_objects_complete (f ∷ fs) objs os h f' info obj here q p =
      let (i, e, h₁) = >>=-eq-returns (get_function_info api f) _ h in
      let a : i.app_object ≡ some obj =
        ap (λ x. x.app_object) (returns-injective (sym e ∙ q)) ∙ p in
      collect_objects-keeps fs (add_object i.app_object objs) os obj.name h₁
        (rw a (add_object-has_name obj objs))
  collect_objects_complete (f ∷ fs) objs os h f' info obj (there o) q p =
      let (i, e, h₁) = >>=-eq-returns (get_function_info api f) _ h in
      collect_objects_complete fs (add_object i.app_object objs) os h₁ f' info obj o q p

  -- The app object is that of a function of the list.
  abbrev pub IsObjectOf : List ApiFunction → ApiModule → Type 0
  IsObjectOf fs obj =
      (f : ApiFunction) × (info : FunctionInfo) × Occurs f fs
      × (get_function_info api f ≡ returns info)
      × (info.app_object ≡ some obj)

  IsObjectOf-later :
      (f : ApiFunction) (fs : List ApiFunction) (obj : ApiModule)
      → IsObjectOf fs obj
      → IsObjectOf (f ∷ fs) obj
  IsObjectOf-later f fs obj (g, info, o, e, q) = (g, info, there o, e, q)

  Occurs-add_object :
      (a : Option ApiModule) (objs : List ApiModule) (x : ApiModule)
      → Occurs x (add_object a objs)
      → Occurs x objs ⊎ (a ≡ some x)
  Occurs-add_object none objs x o = inl o
  Occurs-add_object (some obj) objs x o = elim (Bool-cases (has_name objs obj.name)) [
    | inl e ↦ inl (rw e at o)
    | inr e ↦ elim (Occurs-snoc objs (rw e at o)) [ inl k ↦ inl k | inr q ↦ inr (ap some (sym q)) ]
  ]

  collect_objects_sound :
      (fs : List ApiFunction) (objs os : List ApiModule) (x : ApiModule)
      → collect_objects api fs objs ≡ returns os
      → Occurs x os
      → Occurs x objs ⊎ IsObjectOf fs x
  unfolding collect_objects
  collect_objects_sound [] objs os x h o = inl (subst (Occurs x) (sym (returns-injective h)) o)
  collect_objects_sound (f ∷ fs) objs os x h o =
      let (info, e, h₁) = >>=-eq-returns (get_function_info api f) _ h in
      elim (collect_objects_sound fs (add_object info.app_object objs) os x h₁ o) [
        | inl k ↦ elim (Occurs-add_object info.app_object objs x k) [
          | inl i ↦ inl i
          | inr q ↦ inr (f, info, here, e, q)
        ]
        | inr k ↦ inr (IsObjectOf-later f fs x k)
      ]

  -- The app objects whose code is generated: each is that of a function, no two have one name, and
  -- each name that a function's app object has is the name of one of them.
  pub record CoversNames (fs : List ApiFunction) (os : List ApiModule) : Type 0 where
    pub of_functions : (x : ApiModule) → Occurs x os → IsObjectOf fs x
    pub distinct : HasDistinctNames os
    pub names :
        (obj : ApiModule) → IsObjectOf fs obj → (x : ApiModule) × Occurs x os × (obj.name ≡ x.name)

  has_name-Occurs :
      (os : List ApiModule) (n : Text)
      → has_name os n ≡ true
      → (x : ApiModule) × Occurs x os × (n ≡ x.name)
  has_name-Occurs [] n h = cc
  has_name-Occurs (o ∷ os) n h = elim (Bool-cases (same n o.name)) [
    | inl e ↦ (o, here, (same_iff n o.name).0 e)
    | inr e ↦ let (x, k, q) = has_name-Occurs os n (rw e at h) in (x, there k, q)
  ]

  -- Where the binding of a module's app objects is generated, it is the code of the app objects
  -- that the documentation lists, one after another. Each of them is the app object of a function
  -- of the module, no two have one name, so each name is declared and dispatched to once, and for
  -- the app object of every function one of the same name is among them.
  pub app_object_loop-collects :
      (fs : List ApiFunction) (s : List Text × Text)
      → app_object_loop api fs ([], []) ≡ returns s
      → (os : List ApiModule) × (cs : List Text) × (collect_objects api fs [] ≡ returns os)
        × (map_all (app_object_code api) os ≡ returns cs)
        × (s.1 ≡ concat cs)
        × CoversNames fs os
  app_object_loop-collects fs s h =
      let (os, e, t) = loop-Tracks fs ([], []) s [] empty-Tracks h in
      (
        os,
        t.codes_of,
        e,
        t.coded,
        t.joined,
        record {
          of_functions =
              λ x o. elim (collect_objects_sound fs [] os x e o) [ inl k ↦ elim k [ ] | inr k ↦ k ];
          distinct = collect_objects-HasDistinctNames fs [] os tt e;
          names = λ obj (f, info, o, q, p).
              has_name-Occurs os obj.name (collect_objects_complete fs [] os e f info obj o q p);
        },
      )
