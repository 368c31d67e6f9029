-- ===== src/Docs/Modules/Links.antt =====
-- The links of a module's page lead to sections of that page.
use ton_sdk.Base.{
  ℕ, Text, none, List, [], ◌∷◌, ◌++◌, map, concat, codes, Outcome, returns, required, map_all,
  >>=-eq-returns, returns-injective, ◌≡◌, refl, append_assoc, ap, ◌∙◌, subst, Occurs, here, there,
  Occurs-map,
}
use ton_sdk.Api.Types.{Api, ApiModule, ApiFunction, ApiField, field_type}
use ton_sdk.Api.Info.{get_function_info}
use ton_sdk.Ts.Functions.{function_interface}
use ton_sdk.Docs.Marks.{func_ref, type_ref}
use ton_sdk.Docs.Types.{doc_type, document}
use ton_sdk.Docs.Functions.{
  function_heading, function_body, type_heading, type_body, function_section, type_section,
  app_object_section, optional_type, resolve_ref, resolved_params,
}
use ton_sdk.Docs.Modules.{
  func_entry, type_entry, sections, page, page_parts, module_page, collect_objects,
}

-- The text `s` stands in the text `t`.
pub record Contains (t s : Text) : Type 0 where
  pub before : Text
  pub after : Text
  pub parts : t ≡ before ++ (s ++ after)

pub Contains-start : (s after : Text) → Contains (s ++ after) s
Contains-start s after = record { before = []; after = after; parts = refl }

pub Contains-left : (t u s : Text) → Contains t s → Contains (t ++ u) s
Contains-left t u s c = record {
  before = c.before;
  after = c.after ++ u;
  parts = ap (λ x. x ++ u) c.parts ∙ simp append_assoc;
}

pub Contains-right : (t u s : Text) → Contains u s → Contains (t ++ u) s
Contains-right t u s c = record {
  before = t ++ c.before;
  after = c.after;
  parts = ap (λ x. t ++ x) c.parts ∙ simp append_assoc;
}

pub Contains-concat :
    (s t : Text) {ts : List Text} → Occurs t ts → Contains t s → Contains (concat ts) s
Contains-concat s t (here {xs}) c = Contains-left t (concat xs) s c
Contains-concat s t (there {y} {xs} o) c = Contains-right y (concat xs) s (Contains-concat s t o c)

-- A page contains what an element of its list of sections does.
Contains-sections :
    (s t : Text) {ts : List Text} → Occurs t ts → Contains t s → Contains (sections ts) s
Contains-sections s t o c =
    Contains-concat s (t ++ codes "\n\n") (Occurs-map (λ x. x ++ codes "\n\n") o)
      (Contains-left t (codes "\n\n") s c)

Occurs-map_all {ℓ} :
    {A : Type ℓ} {B : Type 0} (f : A → Outcome B) {x : A} {xs : List A}
    → Occurs x xs
    → (ys : List B) → map_all f xs ≡ returns ys
    → (y : B) × (f x ≡ returns y) × Occurs y ys
unfolding map_all
Occurs-map_all f {x} (here {xs}) ys h =
    let (y, e, h₁) = >>=-eq-returns (f x) _ h in
    let (zs, e', h₂) = >>=-eq-returns (map_all f xs) _ h₁ in
    let q : y ∷ zs ≡ ys = cc in (y, e, subst (Occurs y) q here)
Occurs-map_all f {x} (there {y = z} {xs} o) ys h =
    let (w, e, h₁) = >>=-eq-returns (f z) _ h in
    let (zs, e', h₂) = >>=-eq-returns (map_all f xs) _ h₁ in
    let q : w ∷ zs ≡ ys = cc in
    let (y, e'', o') = Occurs-map_all f o zs e' in (y, e'', subst (Occurs y) q (there o'))

Contains-function_section :
    (api : Api) (depth : ℕ) (m : ApiModule) (f : ApiFunction) (s : Text)
    → function_section api depth m f ≡ returns s
    → Contains s (function_heading f)
unfolding function_section
Contains-function_section api depth m f s h =
    let (info, e₁, h₁) = >>=-eq-returns (get_function_info api f) _ h in
    let (t, e₂, h₂) = >>=-eq-returns (required f.result) _ h₁ in
    let (code, e₃, h₃) = >>=-eq-returns (function_interface api f) _ h₂ in
    let (p, e₄, h₄) =
      >>=-eq-returns (optional_type api depth (resolved_params api m info.params)) _ h₃ in
    let (r, e₅, h₅) = >>=-eq-returns (optional_type api depth (resolve_ref api m t)) _ h₄ in
    let q = returns-injective h₅ in
    subst (λ x. Contains x (function_heading f)) q
      (Contains-start (function_heading f)
        (function_body f info (resolved_params api m info.params) (resolve_ref api m t) code p r))

Contains-type_section :
    (api : Api) (depth : ℕ) (t : ApiField) (s : Text)
    → type_section api depth t ≡ returns s
    → Contains s (type_heading t)
unfolding type_section
Contains-type_section api depth t s h =
    let (x, e, h₁) = >>=-eq-returns (doc_type api (document api depth) (field_type t)) _ h in
    subst (λ x. Contains x (type_heading t)) (returns-injective h₁)
      (Contains-start (type_heading t) (type_body t x))

-- The parts of a page that was made.
record Made (api : Api) (depth : ℕ) (m : ApiModule) (text : Text) : Type 0 where
  objs : List ApiModule
  functions : List Text
  types : List Text
  objects : List Text
  functions_made : map_all (function_section api depth m) m.functions ≡ returns functions
  types_made : map_all (type_section api depth) m.types ≡ returns types
  assembled : page m objs functions types objects ≡ text

module_page-Made :
    (api : Api) (depth : ℕ) (m : ApiModule) (text : Text)
    → module_page api depth m ≡ returns text
    → Made api depth m text
unfolding module_page
module_page-Made api depth m text h =
    let (os, e₁, h₁) = >>=-eq-returns (collect_objects api m.functions []) _ h in
    let (fs, e₂, h₂) = >>=-eq-returns (map_all (function_section api depth m) m.functions) _ h₁ in
    let (ts, e₃, h₃) = >>=-eq-returns (map_all (type_section api depth) m.types) _ h₂ in
    let (ss, e₄, h₄) = >>=-eq-returns (map_all (app_object_section api depth) os) _ h₃ in
    record {
      objs = os;
      functions = fs;
      types = ts;
      objects = ss;
      functions_made = e₂;
      types_made = e₃;
      assembled = returns-injective h₄;
    }

-- A page contains what a part of it does.
Contains-page :
    (m : ApiModule) (os : List ApiModule) (fs ts ss : List Text) (part s : Text)
    → Occurs part (page_parts m os fs ts ss)
    → Contains part s
    → Contains (page m os fs ts ss) s
unfolding page
Contains-page m os fs ts ss part s o c = Contains-concat s part {ts = page_parts m os fs ts ss} o c

-- A module's page, once made, has for each of its functions the link of the list of functions,
-- and a section under the heading that the link's anchor is made from.
pub module_page-function :
    (api : Api) (depth : ℕ) (m : ApiModule) (text : Text) (f : ApiFunction)
    → module_page api depth m ≡ returns text
    → Occurs f m.functions
    → Contains text (func_ref f none) × Contains text (function_heading f)
unfolding func_entry
module_page-function api depth m text f h o =
    let made = module_page-Made api depth m text h in
    let (s, e, o') =
      Occurs-map_all (function_section api depth m) o made.functions made.functions_made in
    let on_page =
      λ (part w : Text)
          (i : Occurs part (page_parts m made.objs made.functions made.types made.objects))
          (c : Contains part w).
        subst (λ x. Contains x w) made.assembled
          (Contains-page m made.objs made.functions made.types made.objects part w i c) in
    (
      on_page (concat (map (func_entry none) m.functions)) (func_ref f none) (there here) (
          Contains-concat (func_ref f none) (func_entry none f) (Occurs-map (func_entry none) o)
            (Contains-start (func_ref f none) _)),
      on_page (sections made.functions) (function_heading f)
          (there (there (there (there (there (there here))))))
          (Contains-sections (function_heading f) s o'
            (Contains-function_section api depth m f s e)),
    )

-- The same for each of its types.
pub module_page-type :
    (api : Api) (depth : ℕ) (m : ApiModule) (text : Text) (t : ApiField)
    → module_page api depth m ≡ returns text
    → Occurs t m.types
    → Contains text (type_ref t none) × Contains text (type_heading t)
unfolding type_entry
module_page-type api depth m text t h o =
    let made = module_page-Made api depth m text h in
    let (s, e, o') = Occurs-map_all (type_section api depth) o made.types made.types_made in
    let on_page =
      λ (part w : Text)
          (i : Occurs part (page_parts m made.objs made.functions made.types made.objects))
          (c : Contains part w).
        subst (λ x. Contains x w) made.assembled
          (Contains-page m made.objs made.functions made.types made.objects part w i c) in
    (
      on_page (concat (map type_entry m.types)) (type_ref t none) (there (there (there here))) (
          Contains-concat (type_ref t none) (type_entry t) (Occurs-map type_entry o)
            (Contains-start (type_ref t none) _)),
      on_page (sections made.types) (type_heading t)
          (there (there (there (there (there (there (there (there here))))))))
          (Contains-sections (type_heading t) s o' (Contains-type_section api depth t s e)),
    )
