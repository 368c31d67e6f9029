-- ===== src/Api/Info/Closed.antt =====
-- The references of an app object's functions lead to the object's own types.
use ton_sdk.Base.{
  Text, Option, none, some, List, [], ◌∷◌, ◌++◌, returns, get_elem?, ◌≡◌, refl, inl, inr, Occurs,
  here, Occurs-append_left, Occurs-append_right, map-append, All, All-map, map, true, ◌⊎◌, subst,
  Bool-cases, same, sym,
}
use ton_sdk.Api.Types.{
  Api, ApiModule, ApiFunction, ApiField, ApiFields, ApiType, ref, field, to_list, struct, no_fields,
  more_fields, field_name, field_type,
}
use ton_sdk.Api.Info.{
  has_fields, variant_types, variant_function, object_types, object_functions, params_type_name,
  result_type_name, pushed_type, find_variant, get_app_object,
}
use ton_sdk.Api.Info.Errors.{NamesEnum, NamesEnum-unique, get_app_object_sound}

abbrev pub NamesOneOf : List ApiField → Text → Type 0
NamesOneOf types name = Occurs name (map field_name types)

-- A reference names one of the types, or nothing at all, as the result of a notification does.
abbrev pub RefersTo : List ApiField → ApiType → Type 0
RefersTo types (ref name) = (name ≡ []) ⊎ NamesOneOf types name
RefersTo types _ = Unit

abbrev pub ResultRefersTo : List ApiField → Option ApiType → Type 0
ResultRefersTo types none = ⊥
ResultRefersTo types (some t) = RefersTo types t

pub record IsClosed (types : List ApiField) (f : ApiFunction) : Type 0 where
  pub params_closed : All (λ p. RefersTo types (field_type p)) f.params
  pub result_closed : ResultRefersTo types f.result

abbrev pub IsStruct : ApiField → Type 0
IsStruct (field n d (struct fs)) = Unit
IsStruct (field n d _) = ⊥

NamesOneOf-pushed_type :
    (name : Text) (v : ApiField)
    → has_fields (field_type v) ≡ true
    → NamesOneOf (pushed_type name v) name
unfolding pushed_type
NamesOneOf-pushed_type name (field n d t) h = rw h here

RefersTo-mono :
    (xs ys : List ApiField)
    → ((n : Text) → NamesOneOf xs n → NamesOneOf ys n)
    → (t : ApiType) → RefersTo xs t
    → RefersTo ys t
RefersTo-mono xs ys f (ref name) (inl e) = inl e
RefersTo-mono xs ys f (ref name) (inr o) = inr (f name o)
RefersTo-mono xs ys f _ h = tt

ResultRefersTo-mono :
    (xs ys : List ApiField)
    → ((n : Text) → NamesOneOf xs n → NamesOneOf ys n)
    → (t : Option ApiType) → ResultRefersTo xs t
    → ResultRefersTo ys t
ResultRefersTo-mono xs ys f none h = h
ResultRefersTo-mono xs ys f (some t) h = RefersTo-mono xs ys f t h

IsClosed-mono :
    (xs ys : List ApiField) (g : ApiFunction)
    → ((n : Text) → NamesOneOf xs n → NamesOneOf ys n)
    → IsClosed xs g
    → IsClosed ys g
IsClosed-mono xs ys g f c = record {
  params_closed =
      All-map _ _ (λ p h. RefersTo-mono xs ys f (field_type p) h) g.params c.params_closed;
  result_closed = ResultRefersTo-mono xs ys f g.result c.result_closed;
}

NamesOneOf-append_left :
    (xs ys : List ApiField) (n : Text) → NamesOneOf xs n → NamesOneOf (xs ++ ys) n
NamesOneOf-append_left xs ys n o = rw map-append (Occurs-append_left (map field_name ys) o)

NamesOneOf-append_right :
    (xs ys : List ApiField) (n : Text) → NamesOneOf ys n → NamesOneOf (xs ++ ys) n
NamesOneOf-append_right xs ys n o = rw map-append (Occurs-append_right (map field_name xs) o)

params-IsClosed :
    (obj : Text) (v : ApiField) (r : Option ApiField)
    → All (λ p. RefersTo (variant_types obj v r) (field_type p)) (variant_function obj v r).params
unfolding variant_types variant_function
params-IsClosed obj v r = elim (Bool-cases (has_fields (field_type v))) [
  | inl e ↦ rw e (inr (own r e), tt)
  | inr e ↦ rw e tt
]
  where
    own :
        (r : Option ApiField)
        → has_fields (field_type v) ≡ true
        → NamesOneOf (variant_types obj v r) (params_type_name obj v)
    own none e = NamesOneOf-pushed_type _ v e
    own (some r) e = NamesOneOf-append_left _ _ _ (NamesOneOf-pushed_type _ v e)

-- A result variant is a struct, if there is one.
abbrev pub IsStructOr : Option ApiField → Type 0
IsStructOr none = Unit
IsStructOr (some r) = IsStruct r

result-IsClosed :
    (obj : Text) (v : ApiField) (r : Option ApiField)
    → IsStructOr r
    → ResultRefersTo (variant_types obj v r) (variant_function obj v r).result
unfolding variant_types variant_function
result-IsClosed obj v none h = inl refl
result-IsClosed obj v (some (field n d (struct no_fields))) h = tt
result-IsClosed obj v (some (field n d (struct (more_fields f fs)))) h = inr (
    NamesOneOf-append_right (pushed_type (params_type_name obj v) v) _ _ (
      NamesOneOf-pushed_type (result_type_name obj v) (field n d (struct (more_fields f fs)))
        (unfold has_fields in refl)))
result-IsClosed obj v (some (field n d _)) h = absurd h

find_variant-IsStruct :
    (name : Text) (rs : List ApiField) → All IsStruct rs → IsStructOr (find_variant name rs)
unfolding find_variant
find_variant-IsStruct name [] h = tt
find_variant-IsStruct name (r ∷ rs) h = elim (Bool-cases (same (field_name r) name)) [
  | inl e ↦ rw e h.0
  | inr e ↦ rw e (find_variant-IsStruct name rs h.1)
]

object_functions-IsClosed :
    (obj : Text) (vs rs : List ApiField)
    → All IsStruct rs
    → All (IsClosed (object_types obj vs rs)) (object_functions obj vs rs)
unfolding object_types object_functions
object_functions-IsClosed obj [] rs h = tt
object_functions-IsClosed obj (v ∷ vs) rs h =
    let r = find_variant (field_name v) rs in
    (
      IsClosed-mono _ _ (variant_function obj v r)
          (NamesOneOf-append_left (variant_types obj v r) _)
          (record {
            params_closed = params-IsClosed obj v r;
            result_closed = result-IsClosed obj v r (find_variant-IsStruct (field_name v) rs h);
          }),
      All-map _ _
          (λ g.
            IsClosed-mono _ _ g
              (NamesOneOf-append_right (variant_types obj v r) (object_types obj vs rs)))
          (object_functions obj vs rs) (object_functions-IsClosed obj vs rs h),
    )

-- Where every variant of the results' enum is a struct, each reference in the functions of an app
-- object, of a parameter or of a result, names a type of the object, or is the empty reference
-- that marks a notification.
pub get_app_object-IsClosed :
    (api : Api) (args : List ApiType) (obj : ApiModule) (rs : ApiFields)
    → get_app_object api args ≡ returns obj
    → NamesEnum api (get_elem? args 1) rs
    → All IsStruct (to_list rs)
    → All (IsClosed obj.types) obj.functions
get_app_object-IsClosed api args obj rs h n structs =
    let (ps, rs', np, nr, e) = get_app_object_sound api args obj h in
    let same_results : rs ≡ rs' = NamesEnum-unique api _ rs rs' n nr in
    let structs' : All IsStruct (to_list rs') =
      subst (λ l. All IsStruct (to_list l)) same_results structs in
    subst (λ o. All (IsClosed o.types) o.functions) (sym e)
      (object_functions-IsClosed obj.name (to_list ps) (to_list rs') structs')
