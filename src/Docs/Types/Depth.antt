-- ===== src/Docs/Types/Depth.antt =====
-- Where the documentation of a type ends, and where it does not.
use ton_sdk.Base.{
  ℕ, zero, suc, ◌<◌, Text, Option, none, some, List, [], ◌++◌, codes, Outcome, returns, throws,
  range_error, ◌>>=◌, >>=-eq-returns, ◌≡◌, ◌≢◌, refl, arith, ap, sym, ◌∙◌,
}
use ton_sdk.Api.Types.{
  Api, ApiType, ApiField, ApiFields, Documented, ref, none_type, optional, array, struct,
  enum_of_types, generic, field, no_fields, more_fields, no_types, more_types,
  field_type as type_of,
}
use ton_sdk.Api.Find.{find_type}
use ton_sdk.Docs.Types.{
  field_line, when_type, followed, field_type, doc_field, type_fields, doc_type, doc_variant,
  doc_variants, document,
}

-- Documenting the type leads to the declared type `f`, at once.
mutual
  pub data Follows (api : Api) (f : ApiField) : ApiType → Type 0 where
    by_ref : {name : Text} → find_type api name ≡ some f → Follows api f (ref name)
    by_optional : {t : ApiType} → Follows api f t → Follows api f (optional t)
    by_variant : {vs : ApiFields} → FollowsIn api f vs → Follows api f (enum_of_types vs)

  pub data FollowsIn (api : Api) (f : ApiField) : ApiFields → Type 0 where
    first :
        {n : Text} {d : Documented} {t : ApiType} {vs : ApiFields}
        → Follows api f t
        → FollowsIn api f (more_fields (field n d t) vs)
    later :
        {v : ApiField} {vs : ApiFields} → FollowsIn api f vs → FollowsIn api f (more_fields v vs)

-- The call stack is deep enough.
abbrev pub Ends : {A : Type 0} → Outcome A → Type 0
Ends r = r ≢ throws range_error

pub Ends-bind :
    {A B : Type 0} (m : Outcome A) (k : A → Outcome B)
    → Ends m
    → ((a : A) → Ends (k a))
    → Ends (m >>= k)
Ends-bind (returns a) k h hk = hk a
Ends-bind (throws e) k h hk = λ q. h (cc)

field_type-Ends : (t : ApiType) → Ends (field_type t)
unfolding field_type
field_type-Ends (ref name) = λ q. cc
field_type-Ends (optional t) = Ends-bind (field_type t) _ (field_type-Ends t) (λ s q. cc)
field_type-Ends (array t) = Ends-bind (field_type t) _ (field_type-Ends t) (λ s q. cc)
field_type-Ends (generic name no_types) = λ q. cc
field_type-Ends (generic name (more_types t ts)) =
    Ends-bind (field_type t) _ (field_type-Ends t) (λ s q. cc)
field_type-Ends _ = λ q. cc

pub returning-Ends :
    {A B : Type 0} (m : Outcome A) (g : A → B) → Ends m → Ends (m >>= λ a. returns (g a))
returning-Ends m g h = Ends-bind m _ h (λ a q. cc)

doc_field-Ends : (f : ApiField) → Ends (doc_field f)
unfolding doc_field
doc_field-Ends (field n d (optional t)) =
    returning-Ends (field_type t) (field_line n (codes "?") d) (field_type-Ends t)
doc_field-Ends (field n d t) = returning-Ends (field_type t) (field_line n [] d) (field_type-Ends t)

type_fields-Ends : (fs : ApiFields) → Ends (type_fields fs)
unfolding type_fields
type_fields-Ends no_fields = λ q. cc
type_fields-Ends (more_fields f fs) =
    Ends-bind (doc_field f) _ (doc_field-Ends f)
      (λ s. returning-Ends (type_fields fs) (λ ss. s ++ ss) (type_fields-Ends fs))

module _ (api : Api) (follow : ApiField → Outcome Text) where
  followed-Ends :
      (name : Text) (o : Option ApiField)
      → ((f : ApiField) → o ≡ some f → Ends (follow f))
      → Ends (followed api follow name o)
  followed-Ends name none h = λ q. cc
  followed-Ends name (some f) h = h f refl

  mutual
    unfolding doc_type

    pub doc_type-Ends :
        (t : ApiType)
        → ((f : ApiField) → Follows api f t → Ends (follow f))
        → Ends (doc_type api follow t)
    doc_type-Ends (ref name) h = followed-Ends name (find_type api name) (λ f e. h f (by_ref e))
    doc_type-Ends (optional t) h =
        returning-Ends (doc_type api follow t) _ (doc_type-Ends t (λ f p. h f (by_optional p)))
    doc_type-Ends (struct fs) h = type_fields-Ends fs
    doc_type-Ends (enum_of_types vs) h =
        returning-Ends (doc_variants api follow vs) _
          (doc_variants-Ends vs (λ f p. h f (by_variant p)))
    doc_type-Ends _ h = λ q. cc

    doc_variant-Ends :
        (v : ApiField)
        → ((f : ApiField) → Follows api f (type_of v) → Ends (follow f))
        → Ends (doc_variant api follow v)
    doc_variant-Ends (field n d (struct no_fields)) h = λ q. cc
    doc_variant-Ends (field n d (struct (more_fields f fs))) h =
        returning-Ends (type_fields (more_fields f fs)) _ (type_fields-Ends (more_fields f fs))
    doc_variant-Ends (field n d none_type) h = λ q. cc
    doc_variant-Ends (field n d t) h =
        returning-Ends (doc_type api follow t) (when_type n d) (doc_type-Ends t h)

    doc_variants-Ends :
        (vs : ApiFields)
        → ((f : ApiField) → FollowsIn api f vs → Ends (follow f))
        → Ends (doc_variants api follow vs)
    doc_variants-Ends no_fields h = λ q. cc
    doc_variants-Ends (more_fields (field n d t) vs) h =
        Ends-bind (doc_variant api follow (field n d t)) _
          (doc_variant-Ends (field n d t) (λ f p. h f (first p)))
          (λ s.
            returning-Ends (doc_variants api follow vs) _
              (doc_variants-Ends vs (λ f p. h f (later p))))

  -- The variant of a type that leads somewhere is documented by that type.
  doc_variant-Follows :
      (n : Text) (d : Documented) {t : ApiType} {f : ApiField}
      → Follows api f t
      → doc_variant api follow (field n d t)
        ≡ (doc_type api follow t >>= λ s. returns (when_type n d s))
  unfolding doc_type
  doc_variant-Follows n d (by_ref e) = refl
  doc_variant-Follows n d (by_optional p) = refl
  doc_variant-Follows n d (by_variant p) = refl

  mutual
    unfolding doc_type

    -- The documentation of a type is there only if that of each type it leads to is.
    doc_type-returns :
        {f : ApiField} {t : ApiType} (p : Follows api f t) (s : Text)
        → doc_type api follow t ≡ returns s
        → (r : Text) × (follow f ≡ returns r)
    doc_type-returns {f} (by_ref {name} e) s h = (s, ap (followed api follow name) (sym e) ∙ h)
    doc_type-returns (by_optional {t} p) s h =
        let (r, e, _) = >>=-eq-returns (doc_type api follow t) _ h in doc_type-returns p r e
    doc_type-returns (by_variant {vs} p) s h =
        let (rs, e, _) = >>=-eq-returns (doc_variants api follow vs) _ h in
        doc_variants-returns p rs e

    doc_variants-returns :
        {f : ApiField} {vs : ApiFields} (p : FollowsIn api f vs) (ss : List Text)
        → doc_variants api follow vs ≡ returns ss
        → (r : Text) × (follow f ≡ returns r)
    doc_variants-returns (first {n} {d} {t} {vs} p) ss h =
        let (v, e, _) = >>=-eq-returns (doc_variant api follow (field n d t)) _ h in
        let (r, e', _) =
          >>=-eq-returns (doc_type api follow t) _ (sym (doc_variant-Follows n d p) ∙ e) in
        doc_type-returns p r e'
    doc_variants-returns (later {v} {vs} p) ss h =
        let (w, e, h₁) = >>=-eq-returns (doc_variant api follow v) _ h in
        let (rs, e', _) = >>=-eq-returns (doc_variants api follow vs) _ h₁ in
        doc_variants-returns p rs e'

-- Where each type that the documentation of a declared type leads to is of a lower rank, the
-- recursion ends: a stack of more references than the type's rank is never too small.
pub document-Ends :
    (api : Api) (rank : ApiField → ℕ)
    → ((f g : ApiField) → Follows api g (type_of f) → rank g < rank f)
    → (depth : ℕ) (f : ApiField) → rank f < depth
    → document api depth f ≢ throws range_error
unfolding document
document-Ends api rank falls zero f h = absurd (omega arith)
document-Ends api rank falls (suc depth) f h =
    doc_type-Ends api (document api depth) (type_of f)
      λ g p. document-Ends api rank falls depth g (omega (arith, falls f g p))

-- A declared type whose documentation leads back to itself at once is never documented, however
-- deep the stack.
pub document-ne-returns :
    (api : Api) (f : ApiField) (depth : ℕ) (s : Text)
    → Follows api f (type_of f)
    → document api depth f ≢ returns s
unfolding document
document-ne-returns api f zero s p = λ q. cc
document-ne-returns api f (suc depth) s p = λ q.
    let (r, e) = doc_type-returns api (document api depth) p s q in
    document-ne-returns api f depth r p e
