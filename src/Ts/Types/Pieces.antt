-- ===== src/Ts/Types/Pieces.antt =====
-- The pieces that the text of a type is made of are well bracketed.
use ton_sdk.Base.{
  Text, Bool, true, false, List, [], ◌∷◌, ◌++◌, map, if◌then◌else◌, refl, arith, All, codes, join,
  subst, append_assoc,
}
use ton_sdk.Api.Types.{
  ApiConst, ApiConstValue, Documented, none_value, bool_value, string_value, number_value,
}
use ton_sdk.Ts.Names.{fix_field_name, type_name}
use ton_sdk.Ts.JsDoc.{newline, element_js_doc}
use ton_sdk.Ts.Types.{
  step, const_value, const_variant, braced, member, tag, ref_variant, struct_variant, fields_decl,
}
use ton_sdk.Ts.Types.Scan.{
  char_class, scan, advance, IsClean, IsClean-of, is_clean, Reads, Reads-wrap, Reads-IsClean,
  Reads-append, Reads-after, Reads-before, IsBalanced, IsBalanced-join,
}
use ton_sdk.Ts.Types.Clean.{
  IsCleanDoc, IsCleanValue, IsCleanConst, IsClean-append, IsClean-newline, Reads-element_js_doc,
  IsClean-fix_field_name, IsClean-type_name,
}

pub IsClean-step : (indent : Text) → IsClean indent → IsClean (indent ++ step)
unfolding is_clean char_class
IsClean-step indent h = IsClean-append indent step h (IsClean-of step refl)

pub Reads-bar : Reads (codes " | ") true
unfolding scan advance char_class
Reads-bar st b = ground arith

-- What stands between braces is hidden.
Reads-braces : (s : Text) (u : Bool) → Reads s u → Reads (codes "{" ++ (s ++ codes "}")) false
unfolding char_class
Reads-braces s u h = Reads-wrap b'{' b'}' s u refl refl h

pub Reads-braced :
    (ms : List Text) (indent : Text)
    → All IsBalanced ms
    → IsClean indent
    → Reads (braced ms indent) false
unfolding is_clean char_class
Reads-braced ms indent h k =
    let (u, r) = IsBalanced-join (codes ",\n") ms (IsClean-of (codes ",\n") refl) h in
    subst (λ s. Reads s false) (simp append_assoc)
      (Reads-braces (newline ++ (join (codes ",\n") ms ++ (newline ++ indent))) u (
        Reads-after newline _ u IsClean-newline (
          Reads-before (join (codes ",\n") ms) _ u r
            (IsClean-append newline indent IsClean-newline k))))

IsClean-const_value :
    (c : ApiConst) (v : ApiConstValue) → IsClean c.name → IsCleanValue v → IsClean (const_value c v)
unfolding const_value is_clean char_class
IsClean-const_value c none_value h k =
    IsClean-append (codes "\"") _ (IsClean-of (codes "\"") refl)
      (IsClean-append c.name _ h (IsClean-of (codes "\"") refl))
IsClean-const_value c (string_value v) h k =
    IsClean-append (codes "\"") _ (IsClean-of (codes "\"") refl)
      (IsClean-append v _ k (IsClean-of (codes "\"") refl))
IsClean-const_value c (bool_value v) h k = k
IsClean-const_value c (number_value v) h k = k

IsBalanced-const_variant :
    (indent : Text) (c : ApiConst)
    → IsClean indent
    → IsCleanConst c
    → IsBalanced (const_variant indent c)
unfolding const_variant is_clean char_class
IsBalanced-const_variant indent c h k = (
  false,
  Reads-IsClean _ (
      IsClean-append indent _ h (
        IsClean-append c.name _ k.name (
          IsClean-append (codes " = ") _ (IsClean-of (codes " = ") refl)
            (IsClean-const_value c c.value k.name k.value)))),
)

pub IsBalanced-const_variants :
    (indent : Text) (cs : List ApiConst)
    → IsClean indent
    → All IsCleanConst cs
    → All IsBalanced (map (const_variant indent) cs)
IsBalanced-const_variants indent [] h k = tt
IsBalanced-const_variants indent (c ∷ cs) h k =
    (IsBalanced-const_variant indent c h k.0, IsBalanced-const_variants indent cs h k.1)

pub Reads-member :
    (name mark : Text) (d : Documented) (indent : Text) (doc : Bool) (text : Text) (u : Bool)
    → IsClean name
    → IsClean mark
    → IsCleanDoc d
    → IsClean indent
    → Reads text u
    → Reads (member name mark d indent doc text) u
unfolding member is_clean char_class
Reads-member name mark d indent doc text u h hm hd hi k =
    Reads-append (if doc then element_js_doc d indent ++ newline else []) _ false u (comment doc) (
      Reads-after indent _ u hi (
        Reads-after (fix_field_name name) _ u (IsClean-fix_field_name name h) (
          Reads-after mark _ u hm
            (Reads-after (codes ": ") text u (IsClean-of (codes ": ") refl) k))))
  where
    comment : (b : Bool) → Reads (if b then element_js_doc d indent ++ newline else []) false
    comment true =
        Reads-before (element_js_doc d indent) newline false (Reads-element_js_doc d indent hd hi)
          IsClean-newline
    comment false = Reads-IsClean [] tt

IsClean-tag : (name indent : Text) → IsClean name → IsClean indent → IsClean (tag name indent)
unfolding is_clean char_class
IsClean-tag name indent h k = IsClean-append newline _ IsClean-newline (
    IsClean-append indent _ k (
      IsClean-append (codes "    type: '") _ (IsClean-of (codes "    type: '") refl)
        (IsClean-append name _ h (IsClean-of (codes "'") refl))))

pub Reads-struct_variant :
    (name : Text) (ms : List Text) (indent : Text)
    → IsClean name
    → All IsBalanced ms
    → IsClean indent
    → Reads (struct_variant name (fields_decl ms) indent) false
unfolding is_clean char_class
Reads-struct_variant name ms indent h hm k =
    let (u, r) = decl ms hm in
    subst (λ s. Reads s false) (simp append_assoc)
      (Reads-braces (tag name indent ++ (fields_decl ms ++ (newline ++ indent))) u (
        Reads-after (tag name indent) _ u (IsClean-tag name indent h k)
          (Reads-before (fields_decl ms) _ u r (IsClean-append newline indent IsClean-newline k))))
  where
    decl : (ms : List Text) → All IsBalanced ms → IsBalanced (fields_decl ms)
    decl [] hm = (false, Reads-IsClean [] tt)
    decl (m ∷ ms) hm =
        let (u, r) = IsBalanced-join (codes ",\n") (m ∷ ms) (IsClean-of (codes ",\n") refl) hm in
        (u, Reads-after newline _ u IsClean-newline r)

pub Reads-ref_variant :
    (name ref_name indent : Text)
    → IsClean name
    → IsClean ref_name
    → IsClean indent
    → Reads (ref_variant name ref_name indent) false
unfolding is_clean char_class
Reads-ref_variant name ref_name indent h k l =
    subst (λ s. Reads s false) (simp append_assoc)
      (Reads-wrap b'(' b')'
        ((codes "{" ++ ((tag name indent ++ (newline ++ indent)) ++ codes "}"))
          ++ (codes " & " ++ type_name ref_name))
        false refl refl
        (Reads-before _ _ false
          (Reads-braces (tag name indent ++ (newline ++ indent)) false (
            Reads-IsClean _ (
              IsClean-append (tag name indent) _ (IsClean-tag name indent h l)
                (IsClean-append newline indent IsClean-newline l))))
          (IsClean-append (codes " & ") _ (IsClean-of (codes " & ") refl)
            (IsClean-type_name ref_name k))))
