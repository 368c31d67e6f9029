-- ===== src/Ts/Functions/CleanNames.antt =====
-- Text made of clean names by the operations on names is clean, and so is what the API declares.
use ton_sdk.Base.{
  ℕ, zero, suc, Text, Bool, true, false, Option, none, some, List, [], ◌∷◌, ◌++◌, if◌then◌else◌,
  codes, split, drop, get_elem?, ◌≡◌, refl, sym, subst, All, Occurs, here, there, printed, to_lower,
}
use ton_sdk.Api.Types.{
  Api, ApiField, ApiFields, ApiType, field, field_name, field_type, field_doc, ref, no_fields,
  more_fields, to_list, undocumented, renamed,
}
use ton_sdk.Api.Naming.{pascal_to_snake, snake_loop, snake_round, underscore}
use ton_sdk.Api.Find.{find_type, qualified}
use ton_sdk.Api.Find.Laws.{find_type_sound}
use ton_sdk.Ts.Names.{ref_name_of}
use ton_sdk.Ts.Types.Scan.{char_class, plain, is_clean, IsClean, IsClean-of, IsClean-split}
use ton_sdk.Ts.Types.Clean.{IsCleanDoc, IsCleanType, IsCleanField, AreCleanFields, IsClean-append}
use ton_sdk.Ts.Constructors.Balance.{plain-to_lower}
use ton_sdk.Ts.Functions.Balance.{IsCleanModule}

All-Occurs {ℓ κ} :
    {A : Type ℓ} (P : A → Type κ) {x : A} {xs : List A} → Occurs x xs → All P xs → P x
All-Occurs P here h = h.0
All-Occurs P (there o) h = All-Occurs P o h.1

pub IsCleanField-name : (t : ApiField) → IsCleanField t → IsClean (field_name t)
IsCleanField-name (field n d t) h = h.0

IsCleanField-type : (t : ApiField) → IsCleanField t → IsCleanType (field_type t)
IsCleanField-type (field n d t) h = h.2

pub IsCleanField-doc : (t : ApiField) → IsCleanField t → IsCleanDoc (field_doc t)
IsCleanField-doc (field n d t) h = h.1

pub IsCleanField-renamed :
    (t : ApiField) (n : Text) → IsClean n → IsCleanField t → IsCleanField (renamed t n)
IsCleanField-renamed (field m d t) n k h = (k, h.1, h.2)

pub IsClean-drop : (n : ℕ) (s : Text) → IsClean s → IsClean (drop n s)
IsClean-drop zero s h = h
IsClean-drop (suc n) [] h = tt
IsClean-drop (suc n) (c ∷ s) h = IsClean-drop n s h.1

pub IsClean-get_elem :
    (ws : List Text) (i : ℕ) {w : Text} → get_elem? ws i ≡ some w → All IsClean ws → IsClean w
IsClean-get_elem [] i e h = cc
IsClean-get_elem (v ∷ ws) zero e h = let q : v ≡ _ = cc in subst IsClean q h.0
IsClean-get_elem (v ∷ ws) (suc i) e h = IsClean-get_elem ws i e h.1

IsClean-if : (b : Bool) (s t : Text) → IsClean s → IsClean t → IsClean (if b then s else t)
IsClean-if true s t h k = h
IsClean-if false s t h k = k

-- Lower case and underscores add no bracket.
IsClean-snake_round :
    (c : ℕ) (snake : Text) → char_class c ≡ plain → IsClean snake → IsClean (snake_round c snake)
unfolding snake_round is_clean char_class
IsClean-snake_round c snake h k =
    IsClean-if _ (snake ++ underscore ∷ to_lower c ∷ []) (snake ++ to_lower c ∷ [])
      (IsClean-append snake (underscore ∷ to_lower c ∷ []) k (
        IsClean-append (underscore ∷ []) (to_lower c ∷ []) (IsClean-of (underscore ∷ []) refl)
          (plain-to_lower c h, tt)))
      (IsClean-append snake (to_lower c ∷ []) k (plain-to_lower c h, tt))

IsClean-snake_loop :
    (name snake : Text) → IsClean name → IsClean snake → IsClean (snake_loop name snake)
unfolding snake_loop
IsClean-snake_loop [] snake h k = k
IsClean-snake_loop (c ∷ name) snake h k =
    IsClean-snake_loop name (snake_round c snake) h.1 (IsClean-snake_round c snake h.0 k)

pub IsClean-pascal_to_snake : (name : Text) → IsClean name → IsClean (pascal_to_snake name)
unfolding pascal_to_snake
IsClean-pascal_to_snake name h = IsClean-snake_loop name [] h tt

pub IsClean-find_type :
    (api : Api) (name : Text) (t : ApiField)
    → All IsCleanModule api.modules
    → find_type api name ≡ some t
    → IsClean name × IsCleanField t
unfolding qualified is_clean char_class
IsClean-find_type api name t h e =
    let (m, d, q) = find_type_sound api name t e in
    let cm = All-Occurs IsCleanModule d.in_modules h in
    let ct = All-Occurs IsCleanField d.in_types cm.types in
    (
      subst IsClean (sym q) (
          IsClean-append m.name _ cm.name (
            IsClean-append (codes ".") (field_name t) (IsClean-of (codes ".") refl)
              (IsCleanField-name t ct))),
      ct,
    )

pub AreClean-to_list : (fs : ApiFields) → AreCleanFields fs → All IsCleanField (to_list fs)
AreClean-to_list no_fields h = tt
AreClean-to_list (more_fields f fs) h = (h.0, AreClean-to_list fs h.1)

pub undocumented-IsClean : IsCleanDoc undocumented
undocumented-IsClean = record { summary = tt; description = tt }

IsClean-printed : (o : Option Text) → ((w : Text) → o ≡ some w → IsClean w) → IsClean (printed o)
unfolding is_clean char_class
IsClean-printed none h = IsClean-of (codes "undefined") refl
IsClean-printed (some w) h = h w refl

pub IsClean-ref_name_of : (t : ApiType) → IsCleanType t → IsClean (ref_name_of t)
unfolding ref_name_of
IsClean-ref_name_of (ref name) h =
    IsClean-printed (get_elem? (split b'.' name) 1)
      (λ w q. IsClean-get_elem (split b'.' name) 1 q (IsClean-split b'.' name h))
IsClean-ref_name_of t h = tt
