-- ===== src/Ts/JsDoc/Brackets.antt =====
-- The lines of a comment have the brackets of its text.
use ton_sdk.Base.{
  Bool, ℕ, Text, none, some, List, [], ◌∷◌, ◌++◌, map, codes, join, split, push, ◌==◌, ◌≡◌, refl,
  ap, sym, ◌∙◌, Bool-cases, inl, inr, split-cons, split_at_sep, split-push, ==_iff, append_assoc,
  All-append,
}
use ton_sdk.Ts.JsDoc.{newline, doc_line, js_doc}
use ton_sdk.Ts.Types.Scan.{
  Scan, scan, advance, scan-append, char_class, is_clean, IsClean, IsClean-of, Reads, Reads-after,
  advance-plain,
}
use ton_sdk.Ts.Balance.{Turns, open_brackets, after_clean}

scan-none : (s : Text) → scan s none ≡ none
unfolding scan advance
scan-none [] = refl
scan-none (c ∷ s) = scan-none s

scan-IsClean : (s : Text) (x : Scan) → IsClean s → scan s x ≡ x
unfolding scan
scan-IsClean s none h = scan-none s
scan-IsClean [] (some (st, b)) h = refl
scan-IsClean (c ∷ s) (some (st, b)) h =
    ap (scan s) (advance-plain c st b h.0) ∙ scan-IsClean s (some (st, b)) h.1

-- Clean text in front of the first line changes nothing.
scan_clean_front :
    (p w : Text) (ws : List Text) (x : Scan)
    → IsClean p
    → scan (join newline ((p ++ w) ∷ ws)) x ≡ scan (join newline (w ∷ ws)) x
unfolding join
scan_clean_front p w [] x h = scan-append p w x ∙ ap (scan w) (scan-IsClean p x h)
scan_clean_front p w (v ∷ ws) x h =
    ap (λ s. scan s x) (append_assoc p w (newline ++ join newline (v ∷ ws)))
    ∙ scan-append p (w ++ (newline ++ join newline (v ∷ ws))) x
    ∙ ap (scan (w ++ (newline ++ join newline (v ∷ ws)))) (scan-IsClean p x h)

join-push :
    (c : ℕ) (w : Text) (ws : List Text) → join newline ((c ∷ w) ∷ ws) ≡ c ∷ join newline (w ∷ ws)
unfolding join
join-push c w [] = refl
join-push c w (v ∷ ws) = refl

newline-IsClean : IsClean newline
unfolding is_clean char_class
newline-IsClean = IsClean-of newline refl

module _ (indent : Text) (clean : IsClean indent) where
  front : IsClean (indent ++ codes " * ")
  unfolding is_clean char_class
  front = All-append _ indent (codes " * ") clean (IsClean-of (codes " * ") refl)

  scan-doc_line :
      (w : Text) (ws : List Text) (x : Scan)
      → scan (join newline (doc_line indent w ∷ ws)) x ≡ scan (join newline (w ∷ ws)) x
  scan-doc_line w ws x =
      ap (λ s. scan (join newline (s ∷ ws)) x) (sym (append_assoc indent (codes " * ") w))
      ∙ scan_clean_front (indent ++ codes " * ") w ws x front

  -- The lines, each with its front.
  abbrev lines : List Text → Text
  lines ws = join newline (map (doc_line indent) ws)

  scan-line_end :
      (w : Text) (ws : List Text) (x : Scan)
      → scan (lines ([] ∷ w ∷ ws)) x ≡ scan (lines (w ∷ ws)) (advance 10 x)
  unfolding scan join
  scan-line_end w ws x = scan-doc_line [] (doc_line indent w ∷ map (doc_line indent) ws) x

  scan-line_push :
      (c : ℕ) (w : Text) (ws : List Text) (x : Scan)
      → scan (lines ((c ∷ w) ∷ ws)) x ≡ scan (lines (w ∷ ws)) (advance c x)
  unfolding scan
  scan-line_push c w ws x =
      scan-doc_line (c ∷ w) (map (doc_line indent) ws) x
      ∙ ap (λ s. scan s x) (join-push c w (map (doc_line indent) ws))
      ∙ sym (scan-doc_line w (map (doc_line indent) ws) (advance c x))

  scan-lines : (s : Text) (x : Scan) → scan (lines (split 10 s)) x ≡ scan s x
  unfolding scan
  scan-lines [] x = unfold split in (scan-doc_line [] [] x ∙ unfold join in refl)
  scan-lines (c ∷ s) x =
      let (w, ws, q) = split-cons 10 s in
      let go_on : scan (lines (w ∷ ws)) (advance c x) ≡ scan s (advance c x) =
        ap (λ vs. scan (lines vs) (advance c x)) (sym q) ∙ scan-lines s (advance c x) in
      elim (Bool-cases (c == 10)) [
        | inl e ↦
            let first : split 10 (c ∷ s) ≡ [] ∷ w ∷ ws =
              ap (λ k. split 10 (k ∷ s)) ((==_iff c 10).0 e)
              ∙ split_at_sep 10 s
              ∙ ap (λ vs. [] ∷ vs) q in
            ap (λ vs. scan (lines vs) x) first
            ∙ scan-line_end w ws x
            ∙ ap (λ k. scan (lines (w ∷ ws)) (advance k x)) (sym ((==_iff c 10).0 e))
            ∙ go_on
        | inr e ↦
            let first : split 10 (c ∷ s) ≡ (c ∷ w) ∷ ws =
              split-push 10 c s (λ k. let t = (==_iff c 10).1 k in cc) ∙ ap (push c) q in
            ap (λ vs. scan (lines vs) x) first ∙ scan-line_push c w ws x ∙ go_on
      ]

  -- A line of a comment for each line of the text opens and closes the brackets of the text.
  pub Turns-js_doc :
      (s : Text) {start end : List ℕ} → Turns s start end → Turns (js_doc s indent) start end
  unfolding js_doc
  Turns-js_doc s {start} {end} h = after_clean newline newline-IsClean (record {
    run = λ st b. ap open_brackets (scan-lines s (some (start ++ st, b))) ∙ h.run st b;
  })

  -- The comment of a text reads as the text does.
  pub Reads-js_doc : (s : Text) (u : Bool) → Reads s u → Reads (js_doc s indent) u
  unfolding js_doc
  Reads-js_doc s u h =
      Reads-after newline _ u newline-IsClean (λ st b. scan-lines s (some (st, b)) ∙ h st b)
