-- ===== src/Ts/JsDoc/Closes.antt =====
-- A documentation comment is closed by its own end and by nothing before it.
use ton_sdk.Base.{
  ℕ, Text, Bool, true, false, not, ◌&&◌, Option, none, some, List, [], ◌∷◌, ◌++◌, map, codes, split,
  join, ◌==◌, ◌≡◌, ◌≢◌, refl, All, arith, append_assoc, Bool-cases, inl, inr, split-cons, subst,
  ==_iff, split_at_sep, split-push,
}
use ton_sdk.Api.Types.{Documented, truthy}
use ton_sdk.Ts.JsDoc.{
  newline, doc_line, js_doc, summary_doc, description_doc, js_doc_start, element_js_doc,
}

abbrev star : ℕ
star = b'*'

abbrev slash : ℕ
slash = b'/'

-- No `*/` in the text; the flag says that a star stands before it.
unfoldable pub stays_open : Bool → Text → Bool
stays_open after_star [] = true
stays_open after_star (c ∷ s) = not (after_star && c == slash) && stays_open (c == star) s

unfoldable ends_in_star : Bool → Text → Bool
ends_in_star after_star [] = after_star
ends_in_star after_star (c ∷ s) = ends_in_star (c == star) s

stays_open-append :
    (b : Bool) (s t : Text)
    → stays_open b (s ++ t) ≡ (stays_open b s && stays_open (ends_in_star b s) t)
unfolding stays_open ends_in_star
stays_open-append b [] t = refl
stays_open-append b (c ∷ s) t = ground (arith, stays_open-append (c == star) s t)

stays_open-false : (b : Bool) (s : Text) → stays_open b s ≡ true → stays_open false s ≡ true
unfolding stays_open
stays_open-false b [] h = refl
stays_open-false b (c ∷ s) h = ground arith

-- An indentation holds neither of the two characters.
abbrev pub IsIndent : Text → Type 0
IsIndent = All (λ c. (c ≢ star) × (c ≢ slash))

-- Text that opens with the newline, or with an indented line, may stand behind anything.
stays_open-indent :
    (b : Bool) (indent t : Text)
    → IsIndent indent
    → stays_open false (32 ∷ t) ≡ true
    → stays_open b (indent ++ 32 ∷ t) ≡ true
unfolding stays_open
stays_open-indent b [] t h k = ground arith
stays_open-indent b (c ∷ indent) t h k =
    ground (arith, stays_open-indent (c == star) indent t h.1 k)

-- The lines of an open text are open; the first one behind the same character as the text.
abbrev OpenLines : Bool → List Text → Type 0
OpenLines b [] = Unit
OpenLines b (w ∷ ws) = (stays_open b w ≡ true) × All (λ v. stays_open false v ≡ true) ws

OpenLines-split : (b : Bool) (s : Text) → stays_open b s ≡ true → OpenLines b (split 10 s)
unfolding stays_open
OpenLines-split b [] h = unfold split in (refl, tt)
OpenLines-split b (c ∷ s) h =
    let (w, ws, e) = split-cons 10 s in
    let rest : stays_open (c == star) s ≡ true = ground arith in
    let ih : OpenLines (c == star) (w ∷ ws) =
      subst (OpenLines (c == star)) e (OpenLines-split (c == star) s rest) in
    elim (Bool-cases (c == 10)) [
      | inl q ↦
          let same : c ≡ 10 = (==_iff c 10).0 q in
          rw (same, split_at_sep, e) (refl, (stays_open-false (c == star) w ih.0, ih.1))
      | inr q ↦ rw (split-push 10 c s (λ r. cc ((==_iff c 10).1 r)), e) (ground arith, ih.1)
    ]

-- Text that may stand behind anything, the star of a comment's start included.
abbrev pub IsOpen : Text → Type 0
IsOpen s = (b : Bool) → stays_open b s ≡ true

IsOpen-append : (s t : Text) → IsOpen s → IsOpen t → IsOpen (s ++ t)
IsOpen-append s t h k b = rw (stays_open-append b s t, h b, k (ends_in_star b s))

IsOpen-newline : (s : Text) → stays_open false s ≡ true → IsOpen (newline ++ s)
unfolding stays_open
IsOpen-newline s h b = ground arith

IsOpen-doc_line :
    (indent x : Text) → IsIndent indent → stays_open false x ≡ true → IsOpen (doc_line indent x)
IsOpen-doc_line indent x h k b =
    stays_open-indent b indent (b'*' ∷ 32 ∷ x) h (unfold stays_open in k)

IsOpen-join :
    (indent : Text) (ws : List Text)
    → IsIndent indent
    → All (λ v. stays_open false v ≡ true) ws
    → IsOpen (join newline (map (doc_line indent) ws))
unfolding join
IsOpen-join indent [] h k = λ b. unfold stays_open in refl
IsOpen-join indent (w ∷ []) h k = IsOpen-doc_line indent w h k.0
IsOpen-join indent (w ∷ v ∷ ws) h k =
    IsOpen-append (doc_line indent w) _ (IsOpen-doc_line indent w h k.0)
      (IsOpen-newline _ (IsOpen-join indent (v ∷ ws) h k.1 false))

OpenLines-All : (ws : List Text) → OpenLines false ws → All (λ v. stays_open false v ≡ true) ws
OpenLines-All [] h = tt
OpenLines-All (w ∷ ws) h = h

IsOpen-js_doc :
    (text indent : Text)
    → IsIndent indent
    → stays_open false text ≡ true
    → IsOpen (js_doc text indent)
unfolding js_doc
IsOpen-js_doc text indent h k = IsOpen-newline _ (
    IsOpen-join indent (split 10 text) h
      (OpenLines-All (split 10 text) (OpenLines-split false text k)) false)

-- The text of a documentation field, if any, holds no end of a comment.
abbrev pub HasNoClose : Option Text → Type 0
HasNoClose none = Unit
HasNoClose (some s) = stays_open false s ≡ true

IsOpen-summary_doc :
    (o : Option Text) (indent : Text)
    → IsIndent indent
    → HasNoClose o
    → IsOpen (summary_doc (truthy o) indent)
unfolding summary_doc
IsOpen-summary_doc none indent h k = λ b. unfold stays_open in refl
IsOpen-summary_doc (some []) indent h k = λ b. unfold stays_open in refl
IsOpen-summary_doc (some (c ∷ s)) indent h k = IsOpen-js_doc (c ∷ s) indent h k

IsOpen-description_doc :
    (o : Option Text) (indent : Text)
    → IsIndent indent
    → HasNoClose o
    → IsOpen (description_doc (truthy o) indent)
unfolding description_doc
IsOpen-description_doc none indent h k = λ b. unfold stays_open in refl
IsOpen-description_doc (some []) indent h k = λ b. unfold stays_open in refl
IsOpen-description_doc (some (c ∷ s)) indent h k =
    IsOpen-append (js_doc [] indent) _ (IsOpen-js_doc [] indent h (unfold stays_open in refl)) (
      IsOpen-append (js_doc (codes "@remarks") indent) _
        (IsOpen-js_doc (codes "@remarks") indent h (unfold stays_open in refl))
        (IsOpen-js_doc (c ∷ s) indent h k))

-- An indentation behind anything but a star changes nothing.
stays_open_skip :
    (indent t : Text) → IsIndent indent → stays_open false (indent ++ t) ≡ stays_open false t
unfolding stays_open
stays_open_skip [] t h = refl
stays_open_skip (c ∷ indent) t h = ground (arith, stays_open_skip indent t h.1)

-- The start of a comment opens it before open text.
IsOpen-start :
    (indent s : Text)
    → IsIndent indent
    → IsOpen s
    → IsOpen (newline ++ (indent ++ (codes "/**" ++ s)))
IsOpen-start indent s h k =
    IsOpen-newline _ (rw (stays_open_skip indent _ h) (unfold stays_open in ground (arith, k true)))

IsOpen-end : (indent : Text) → IsIndent indent → IsOpen (newline ++ (indent ++ (32 ∷ star ∷ [])))
IsOpen-end indent h =
    IsOpen-newline _ (stays_open-indent false indent (star ∷ []) h (unfold stays_open in refl))

-- Where neither the summary nor the description holds `*/`, and the indentation neither of its
-- two characters, the generated comment ends with `*/`, and holds no other one: none in what
-- stands before that, the last star included.
pub element_js_doc_closes :
    (element : Documented) (indent : Text)
    → IsIndent indent
    → HasNoClose element.summary
    → HasNoClose element.description
    → (body : Text) × (element_js_doc element indent ≡ body ++ (star ∷ slash ∷ []))
      × (stays_open false (body ++ (star ∷ [])) ≡ true)
unfolding element_js_doc
element_js_doc_closes element indent h k l = (
  js_doc_start element indent ++ (newline ++ (indent ++ (32 ∷ []))),
  simp append_assoc,
  simp append_assoc (
      IsOpen-start indent _ h
        (IsOpen-append (summary_doc (truthy element.summary) indent) _
          (IsOpen-summary_doc element.summary indent h k)
          (IsOpen-append (description_doc (truthy element.description) indent) _
            (IsOpen-description_doc element.description indent h l) (IsOpen-end indent h)))
        false),
)
