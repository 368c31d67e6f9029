-- ===== src/Ts/Types/Union.antt =====
-- The text of a type is well bracketed, and has a bar outside its brackets exactly where the type
-- is a union.
use ton_sdk.Base.{
  Text, Bool, true, false, ◌||◌, [], ◌++◌, if◌then◌else◌, ◌≡◌, refl, arith, All, codes, join, subst,
}
use ton_sdk.Api.Types.{
  ApiType, ApiField, ApiFields, Documented, ref, none_type, any, boolean, string, number, big_int,
  optional, array, struct, enum_of_consts, enum_of_types, generic, field, no_fields, more_fields,
}
use ton_sdk.Ts.JsDoc.{newline}
use ton_sdk.Ts.Types.{
  step, is_enum_of_consts, type_def, type, type_field, type_variant, members, variants,
}
use ton_sdk.Ts.Types.Scan.{
  char_class, scan, advance, IsClean, IsClean-of, is_clean, Reads, Reads-append, Reads-IsClean,
  Reads-after, Reads-before, IsBalanced,
}
use ton_sdk.Ts.Types.Clean.{
  IsCleanType, IsCleanField, AreCleanFields, IsClean-append, IsClean-newline, IsClean-ref_type,
}
use ton_sdk.Ts.Types.Pieces.{
  IsClean-step, Reads-bar, Reads-braced, IsBalanced-const_variants, Reads-member,
  Reads-struct_variant, Reads-ref_variant,
}

-- Whether the text of a type has a bar outside its brackets: only unions of two members or more
-- write one, and an array writes what its items do.
abbrev mutual
  pub has_bar : ApiType → Bool
  has_bar (optional t) = true
  has_bar (enum_of_types vs) = has_bar_of vs
  has_bar (array t) = has_bar t
  has_bar _ = false

  pub has_bar_variant : ApiField → Bool
  has_bar_variant (field n d t) = has_bar t

  pub has_bar_of : ApiFields → Bool
  has_bar_of no_fields = false
  has_bar_of (more_fields v no_fields) = has_bar_variant v
  has_bar_of (more_fields v (more_fields w vs)) = true

-- A literal name of a type.
Reads-word : (s : Text) → is_clean s ≡ true → Reads s false
Reads-word s h = Reads-IsClean s (IsClean-of s h)

-- What `Optional` adds.
null_member : Reads (codes " | null") true
unfolding scan advance char_class
null_member st b = ground arith

-- What `Array` adds.
brackets : Reads (codes "[]") false
unfolding scan advance char_class
brackets st b = ground arith

or_true : (u : Bool) → (u || true) ≡ true
or_true u = ground arith

or_false : (u : Bool) → (u || false) ≡ u
or_false u = ground arith

-- A union with one member more.
Reads-union :
    (s t : Text) (u v : Bool) → Reads s u → Reads t v → Reads (s ++ (codes " | " ++ t)) true
Reads-union s t u v h k =
    subst (Reads (s ++ (codes " | " ++ t))) (or_true u)
      (Reads-append s _ u (true || v) h (Reads-append (codes " | ") t true v Reads-bar k))

mutual
  unfolding type join is_clean char_class

  Reads-type :
      (t : ApiType) (indent : Text) (doc : Bool)
      → IsCleanType t
      → IsClean indent
      → Reads (type t indent doc) (has_bar t)
  Reads-type none_type indent doc h k = Reads-word (codes "void") refl
  Reads-type (ref name) indent doc h k = Reads-IsClean _ (IsClean-ref_type name h)
  Reads-type (optional t) indent doc h k =
      subst (Reads (type t indent doc ++ codes " | null")) (or_true (has_bar t)) (
        Reads-append (type t indent doc) (codes " | null") (has_bar t) true
          (Reads-type t indent doc h k) null_member)
  Reads-type (struct fs) indent doc h k =
      Reads-braced _ indent (IsBalanced-members fs (indent ++ step) doc h (IsClean-step indent k)) k
  Reads-type (enum_of_types vs) indent doc h k = Reads-variants vs indent doc h k
  Reads-type (array t) indent doc h k =
      subst (Reads (type t indent false ++ codes "[]")) (or_false (has_bar t)) (
        Reads-append (type t indent false) (codes "[]") (has_bar t) false
          (Reads-type t indent false h k) brackets)
  Reads-type (enum_of_consts cs) indent doc h k =
      Reads-braced _ indent
        (IsBalanced-const_variants (indent ++ step) cs (IsClean-step indent k) h) k
  Reads-type (big_int n s) indent doc h k = Reads-word (codes "bigint") refl
  Reads-type any indent doc h k = Reads-word (codes "any") refl
  Reads-type string indent doc h k = Reads-word (codes "string") refl
  Reads-type (number n s) indent doc h k = Reads-word (codes "number") refl
  Reads-type boolean indent doc h k = Reads-word (codes "boolean") refl
  Reads-type (generic name args) indent doc h k = Reads-word (codes "Generic") refl

  IsBalanced-field :
      (f : ApiField) (indent : Text) (doc : Bool)
      → IsCleanField f
      → IsClean indent
      → IsBalanced (type_field f indent doc)
  IsBalanced-field (field n d (optional t)) indent doc h k = (
    has_bar t,
    Reads-member n (codes "?") d indent doc _ (has_bar t) h.0 (IsClean-of (codes "?") refl) h.1 k
        (Reads-type t indent false h.2 k),
  )
  IsBalanced-field (field n d t) indent doc h k = (
    has_bar t,
    Reads-member n [] d indent doc _ (has_bar t) h.0 tt h.1 k (Reads-type t indent false h.2 k),
  )

  Reads-variant :
      (v : ApiField) (indent : Text) (doc : Bool)
      → IsCleanField v
      → IsClean indent
      → Reads (type_variant v indent doc) (has_bar_variant v)
  Reads-variant (field n d (ref r)) indent doc h k = Reads-ref_variant n r indent h.0 h.2 k
  Reads-variant (field n d (struct fs)) indent doc h k =
      Reads-struct_variant n _ indent h.0
        (IsBalanced-members fs (indent ++ step) doc h.2 (IsClean-step indent k)) k
  Reads-variant (field n d none_type) indent doc h k = Reads-IsClean _ (
      IsClean-append (codes "'") _ (IsClean-of (codes "'") refl)
        (IsClean-append n _ h.0 (IsClean-of (codes "'") refl)))
  Reads-variant (field n d t) indent doc h k = Reads-type t indent false h.2 k

  pub IsBalanced-members :
      (fs : ApiFields) (indent : Text) (doc : Bool)
      → AreCleanFields fs
      → IsClean indent
      → All IsBalanced (members fs indent doc)
  IsBalanced-members no_fields indent doc h k = tt
  IsBalanced-members (more_fields f fs) indent doc h k =
      (IsBalanced-field f indent doc h.0 k, IsBalanced-members fs indent doc h.1 k)

  Reads-variants :
      (vs : ApiFields) (indent : Text) (doc : Bool)
      → AreCleanFields vs
      → IsClean indent
      → Reads (join (codes " | ") (variants vs indent doc)) (has_bar_of vs)
  Reads-variants no_fields indent doc h k = Reads-IsClean [] tt
  Reads-variants (more_fields v no_fields) indent doc h k = Reads-variant v indent doc h.0 k
  Reads-variants (more_fields v (more_fields w vs)) indent doc h k =
      Reads-union (type_variant v indent doc) _ (has_bar_variant v) (has_bar_of (more_fields w vs))
        (Reads-variant v indent doc h.0 k) (Reads-variants (more_fields w vs) indent doc h.1 k)

-- Where the names and constants of a type and its indentation hold no bracket and no bar, and its
-- comments are well bracketed with no bar outside their brackets, the text of the type is well
-- bracketed, whatever stands around it, and has a bar outside its brackets exactly if the type is
-- optional, or an enum with two variants or more or with one that is such a type, or an array of
-- such a type.
pub type-Reads :
    (t : ApiType) (indent : Text) (doc : Bool)
    → IsCleanType t
    → IsClean indent
    → Reads (type t indent doc) (has_bar t)
type-Reads t indent doc h k = Reads-type t indent doc h k

-- The definition of a type is well bracketed, under the same conditions.
pub type_def-Reads :
    (n : Text) (d : Documented) (t : ApiType) (doc : Bool)
    → IsCleanField (field n d t)
    → Reads (type_def (field n d t) doc) (has_bar t)
unfolding type_def is_clean char_class
type_def-Reads n d t doc h =
    Reads-after
      (if is_enum_of_consts t then codes "enum " ++ n else codes "type " ++ (n ++ codes " =")) _
      (has_bar t) (head (is_enum_of_consts t))
      (Reads-after (codes " ") _ (has_bar t) (IsClean-of (codes " ") refl) (
        Reads-before (type t [] doc) newline (has_bar t) (Reads-type t [] doc h.2 tt)
          IsClean-newline))
  where
    head :
        (b : Bool) → IsClean (if b then codes "enum " ++ n else codes "type " ++ (n ++ codes " ="))
    head true = IsClean-append (codes "enum ") n (IsClean-of (codes "enum ") refl) h.0
    head false =
        IsClean-append (codes "type ") _ (IsClean-of (codes "type ") refl)
          (IsClean-append n _ h.0 (IsClean-of (codes " =") refl))
