-- ===== src/Ts/Constructors/Params.antt =====
-- The parameters of a variant's constructor.
use ton_sdk.Base.{
  ℕ, Text, false, List, [], ◌∷◌, ◌++◌, codes, join, append_assoc, ◌≡◌, ◌≢◌, refl, ◌∙◌, ap,
}
use ton_sdk.Api.Types.{
  ApiField, ApiFields, Documented, optional, struct, field, no_fields, more_fields,
}
use ton_sdk.Ts.Names.{fix_field_name}
use ton_sdk.Ts.Types.{type, type_field, members, member}
use ton_sdk.Ts.Constructors.{params_loop, constructor_params}

join-cons-append :
    (s a b : Text) (ms : List Text) → join s ((a ++ (s ++ b)) ∷ ms) ≡ join s (a ∷ b ∷ ms)
unfolding join
join-cons-append s a b [] = refl
join-cons-append s a b (m ∷ ms) = simp append_assoc

-- A text that is not empty stays in front, behind it a comma before each member.
params_loop-cons :
    (c : ℕ) (s : Text) (ms : List Text) → params_loop (c ∷ s) ms ≡ join (codes ", ") ((c ∷ s) ∷ ms)
unfolding params_loop
params_loop-cons c s [] = unfold join in refl
params_loop-cons c s (m ∷ ms) =
    params_loop-cons c ((s ++ codes ", ") ++ m) ms
    ∙ ap (λ t. join (codes ", ") ((c ∷ t) ∷ ms)) (append_assoc s (codes ", ") m)
    ∙ join-cons-append (codes ", ") (c ∷ s) m ms

params_loop-ne :
    (m : Text) (ms : List Text) → m ≢ [] → params_loop m ms ≡ join (codes ", ") (m ∷ ms)
params_loop-ne [] ms h = absurd (h refl)
params_loop-ne (c ∷ m) ms h = params_loop-cons c m ms

append-ne : (a b : Text) → b ≢ [] → a ++ b ≢ []
append-ne [] b h = h
append-ne (c ∷ a) b h = λ q. cc

member-ne : (n mark : Text) (d : Documented) (t : Text) → member n mark d [] false t ≢ []
unfolding member
member-ne n mark d t =
    append-ne (fix_field_name n) (mark ++ (codes ": " ++ t))
      (append-ne mark (codes ": " ++ t) (λ q. cc))

type_field-ne : (f : ApiField) → type_field f [] false ≢ []
unfolding type
type_field-ne (field n d (optional t)) = member-ne n (codes "?") d (type t [] false)
type_field-ne (field n d t) = member-ne n [] d (type t [] false)

-- The parameters of the constructor of a struct variant are the members of the struct, in their
-- order, with a comma between each two, and nothing else.
pub constructor_params-struct :
    (fs : ApiFields) → constructor_params (struct fs) ≡ join (codes ", ") (members fs [] false)
unfolding constructor_params type
constructor_params-struct no_fields = unfold join in refl
constructor_params-struct (more_fields f fs) =
    params_loop-ne (type_field f [] false) (members fs [] false) (type_field-ne f)
