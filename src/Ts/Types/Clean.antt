-- ===== src/Ts/Types/Clean.antt =====
-- Text made of names and constants that are free of brackets and bars is free of them, and a
-- comment is well bracketed with no bar outside its brackets when its texts are so.
use ton_sdk.Base.{
  Text, false, Option, none, some, List, [], ◌∷◌, ◌++◌, map, refl, All, All-append, codes, join,
  split, Bool-cases, inl, inr,
}
use ton_sdk.Api.Types.{
  ApiType, ApiField, ApiFields, ApiConst, ApiConstValue, Documented, none_value, bool_value,
  string_value, number_value, ref, optional, array, struct, enum_of_consts, enum_of_types, field,
  no_fields, more_fields, truthy,
}
use ton_sdk.Ts.Names.{fix_field_name, type_name, quote, backslash, last_part, is_valid_ident}
use ton_sdk.Ts.JsDoc.{
  newline, doc_line, js_doc, summary_doc, description_doc, js_doc_start, js_doc_end, element_js_doc,
}
use ton_sdk.Ts.Types.{ref_type, is_any_ref}
use ton_sdk.Ts.JsDoc.Brackets.{Reads-js_doc}
use ton_sdk.Ts.Types.Scan.{
  Reads, Reads-IsClean, Reads-after, Reads-before, Reads-append_false, char_class, IsClean,
  IsClean-split, IsClean-join, IsClean-of, is_clean,
}

abbrev pub IsCleanOption : Option Text → Type 0
IsCleanOption none = Unit
IsCleanOption (some s) = Reads s false

pub record IsCleanDoc (d : Documented) : Type 0 where
  pub summary : IsCleanOption d.summary
  pub description : IsCleanOption d.description

abbrev pub IsCleanValue : ApiConstValue → Type 0
IsCleanValue none_value = Unit
IsCleanValue (bool_value v) = IsClean v
IsCleanValue (string_value v) = IsClean v
IsCleanValue (number_value v) = IsClean v

pub record IsCleanConst (c : ApiConst) : Type 0 where
  pub name : IsClean c.name
  pub value : IsCleanValue c.value

-- Every name and constant of a type is free of brackets and bars, and every comment is well
-- bracketed and has no bar outside its brackets.
abbrev mutual
  pub IsCleanType : ApiType → Type 0
  IsCleanType (ref name) = IsClean name
  IsCleanType (optional t) = IsCleanType t
  IsCleanType (array t) = IsCleanType t
  IsCleanType (struct fs) = AreCleanFields fs
  IsCleanType (enum_of_types vs) = AreCleanFields vs
  IsCleanType (enum_of_consts cs) = All IsCleanConst cs
  IsCleanType _ = Unit

  pub IsCleanField : ApiField → Type 0
  IsCleanField (field n d t) = IsClean n × IsCleanDoc d × IsCleanType t

  pub AreCleanFields : ApiFields → Type 0
  AreCleanFields no_fields = Unit
  AreCleanFields (more_fields f fs) = IsCleanField f × AreCleanFields fs

pub IsClean-append : (s t : Text) → IsClean s → IsClean t → IsClean (s ++ t)
IsClean-append s t h k = All-append _ s t h k

IsClean-doc_line : (indent x : Text) → IsClean indent → IsClean x → IsClean (doc_line indent x)
unfolding is_clean char_class
IsClean-doc_line indent x h k =
    IsClean-append indent _ h (IsClean-append (codes " * ") x (IsClean-of (codes " * ") refl) k)

IsClean-doc_lines :
    (indent : Text) (ws : List Text)
    → IsClean indent
    → All IsClean ws
    → All IsClean (map (doc_line indent) ws)
IsClean-doc_lines indent [] h k = tt
IsClean-doc_lines indent (w ∷ ws) h k =
    (IsClean-doc_line indent w h k.0, IsClean-doc_lines indent ws h k.1)

pub IsClean-newline : IsClean newline
unfolding is_clean char_class
IsClean-newline = IsClean-of newline refl

pub IsClean-js_doc :
    (text indent : Text) → IsClean indent → IsClean text → IsClean (js_doc text indent)
unfolding js_doc
IsClean-js_doc text indent h k = IsClean-append newline _ IsClean-newline (
    IsClean-join newline _ IsClean-newline
      (IsClean-doc_lines indent (split 10 text) h (IsClean-split 10 text k)))

Reads-summary_doc :
    (o : Option Text) (indent : Text)
    → IsClean indent
    → IsCleanOption o
    → Reads (summary_doc (truthy o) indent) false
unfolding summary_doc
Reads-summary_doc none indent h k = Reads-IsClean [] tt
Reads-summary_doc (some []) indent h k = Reads-IsClean [] tt
Reads-summary_doc (some (c ∷ s)) indent h k = Reads-js_doc indent h (c ∷ s) false k

Reads-description_doc :
    (o : Option Text) (indent : Text)
    → IsClean indent
    → IsCleanOption o
    → Reads (description_doc (truthy o) indent) false
unfolding description_doc is_clean char_class
Reads-description_doc none indent h k = Reads-IsClean [] tt
Reads-description_doc (some []) indent h k = Reads-IsClean [] tt
Reads-description_doc (some (c ∷ s)) indent h k =
    Reads-after (js_doc [] indent) _ false (IsClean-js_doc [] indent h tt) (
      Reads-after (js_doc (codes "@remarks") indent) _ false
        (IsClean-js_doc (codes "@remarks") indent h (IsClean-of (codes "@remarks") refl))
        (Reads-js_doc indent h (c ∷ s) false k))

pub Reads-js_doc_start :
    (d : Documented) (indent : Text)
    → IsCleanDoc d
    → IsClean indent
    → Reads (js_doc_start d indent) false
unfolding js_doc_start is_clean char_class
Reads-js_doc_start d indent h k = Reads-after newline _ false IsClean-newline (
    Reads-after indent _ false k (
      Reads-after (codes "/**") _ false (IsClean-of (codes "/**") refl) (
        Reads-append_false (summary_doc (truthy d.summary) indent) _
          (Reads-summary_doc d.summary indent k h.summary)
          (Reads-description_doc d.description indent k h.description))))

pub IsClean-js_doc_end : (indent : Text) → IsClean indent → IsClean (js_doc_end indent)
unfolding js_doc_end is_clean char_class
IsClean-js_doc_end indent k =
    IsClean-append newline _ IsClean-newline
      (IsClean-append indent _ k (IsClean-of (codes " */") refl))

pub Reads-element_js_doc :
    (d : Documented) (indent : Text)
    → IsCleanDoc d
    → IsClean indent
    → Reads (element_js_doc d indent) false
unfolding element_js_doc
Reads-element_js_doc d indent h k =
    Reads-before (js_doc_start d indent) _ false (Reads-js_doc_start d indent h k)
      (IsClean-js_doc_end indent k)

pub IsClean-fix_field_name : (name : Text) → IsClean name → IsClean (fix_field_name name)
unfolding fix_field_name is_clean char_class
IsClean-fix_field_name name h = elim (Bool-cases (is_valid_ident name)) [
  | inl e ↦ rw e h
  | inr e ↦ rw e (
      IsClean-append (quote ∷ []) _ (IsClean-of (quote ∷ []) refl) (
        IsClean-append (join (backslash ∷ quote ∷ []) (split quote name)) _
          (IsClean-join _ _ (IsClean-of (backslash ∷ quote ∷ []) refl) (IsClean-split quote name h))
          (IsClean-of (quote ∷ []) refl)))
]

IsClean-last_part : (ws : List Text) → All IsClean ws → IsClean (last_part ws)
IsClean-last_part [] h = tt
IsClean-last_part (w ∷ []) h = h.0
IsClean-last_part (w ∷ v ∷ ws) h = IsClean-last_part (v ∷ ws) h.1

pub IsClean-type_name : (name : Text) → IsClean name → IsClean (type_name name)
unfolding type_name
IsClean-type_name name h = IsClean-last_part (split b'.' name) (IsClean-split b'.' name h)

pub IsClean-ref_type : (name : Text) → IsClean name → IsClean (ref_type name)
unfolding is_clean char_class
IsClean-ref_type name h = elim (Bool-cases (is_any_ref name)) [
  | inl e ↦ rw e (IsClean-of (codes "any") refl)
  | inr e ↦ rw e (IsClean-type_name name h)
]
