-- ===== src/Markdown/Inline.antt =====
-- src/ui/markdown_renderer.cpp: the elements of a line and the fuel of the loop.
use ircord_client.Base.{
  ℕ, zero, suc, ◌≤◌, ◌<◌, ◌≡◌, refl, ◌∙◌, sym, ap, subst, true, false, ◌&&◌, ◌==◌, ==_iff, Option,
  none, some, [], ◌∷◌, ◌++◌, if◌then◌else◌, Text, length, arith, Bool-cases, inl, inr, Option-cases,
  ++_nil, ++_assoc,
}
use ircord_client.Markdown.{
  Style, normal, bold, italic, Elements, push_word, words_after, push_words, cons_before, split_at,
  split_at_stars, styled, code_text, after_star, mark_at, is_marker, inline_loop, parse_inline,
}

-- What is seen of the elements.
abbrev pub shown : Elements → Text
shown [] = []
shown ((style, s) ∷ es) = s ++ shown es

-- A text without its stars and backquotes.
abbrev pub unmarked : Text → Text
unmarked [] = []
unmarked (c ∷ s) = let rest = unmarked s in if is_marker c then rest else c ∷ rest

unmarked-++ : (a b : Text) → unmarked (a ++ b) ≡ unmarked a ++ unmarked b
unmarked-++ [] b = refl
unmarked-++ (c ∷ a) b = elim (Bool-cases (is_marker c)) [
  | inl m ↦ rw m (unmarked-++ a b)
  | inr m ↦ rw m (ap (λ s. c ∷ s) (unmarked-++ a b))
]

shown-++ : (a b : Elements) → shown (a ++ b) ≡ shown a ++ shown b
shown-++ [] b = refl
shown-++ ((style, s) ∷ a) b = ap (λ t. s ++ t) (shown-++ a b) ∙ sym (++_assoc s (shown a) (shown b))

shown-push_word : (style : Style) (word : Text) → shown (push_word style word) ≡ word
shown-push_word style [] = refl
shown-push_word style (c ∷ word) = ++_nil (c ∷ word)

shown-words_after : (style : Style) (s word : Text) → shown (words_after style word s) ≡ word ++ s
unfolding words_after
shown-words_after style [] word = shown-push_word style word ∙ sym (++_nil word)
shown-words_after style (c ∷ s) word = elim (Bool-cases (c == b' ')) [
  | inl space ↦
      rw (space, words_after)
        (shown-++ (push_word style word) ((style, b' ' ∷ []) ∷ words_after style [] s)
          ∙ ap (λ t. t ++ (b' ' ∷ shown (words_after style [] s))) (shown-push_word style word)
          ∙ ap (λ t. word ++ (b' ' ∷ t)) (shown-words_after style s [])
          ∙ ap (λ d. word ++ (d ∷ s)) (sym ((==_iff c b' ').0 space)))
  | inr letter ↦
      rw (letter, words_after)
        (shown-words_after style s (word ++ (c ∷ [])) ∙ ++_assoc word (c ∷ []) s)
]

-- The words of a text, put together again, are the text.
pub shown-push_words : (style : Style) (s : Text) → shown (push_words style s) ≡ s
shown-push_words style s = shown-words_after style s []

-- What is before and after a found marker makes up the line but for markers, and is shorter.
abbrev Splits : Text → Option (Text × Text) → Type 0
Splits s none = Unit
Splits s (some (before, after)) =
    (unmarked s ≡ unmarked before ++ unmarked after) × (length after < length s)

cons-Splits :
    (c : ℕ) (s : Text) (r : Option (Text × Text)) → Splits s r → Splits (c ∷ s) (cons_before c r)
cons-Splits c s none h = tt
cons-Splits c s (some (before, after)) h = (
  elim (Bool-cases (is_marker c)) [ inl m ↦ rw m h.0 | inr m ↦ rw m (ap (λ t. c ∷ t) h.0) ],
  omega (arith, h.1),
)

split_at-Splits : (d : ℕ) (s : Text) → is_marker d ≡ true → Splits s (split_at d s)
unfolding split_at
split_at-Splits d [] m = tt
split_at-Splits d (c ∷ s) m = elim (Bool-cases (c == d)) [
  | inl same ↦ rw (same, split_at) (ground arith, omega arith)
  | inr other ↦ rw (other, split_at) (cons-Splits c s _ (split_at-Splits d s m))
]

split_at_stars-Splits : (s : Text) → Splits s (split_at_stars s)
unfolding split_at_stars
split_at_stars-Splits [] = tt
split_at_stars-Splits (c ∷ []) = tt
split_at_stars-Splits (c ∷ d ∷ s) = elim (Bool-cases (c == b'*' && d == b'*')) [
  | inl same ↦ rw (same, split_at_stars) (ground arith, omega arith)
  | inr other ↦ rw (other, split_at_stars) (cons-Splits c (d ∷ s) _ (split_at_stars-Splits (d ∷ s)))
]

-- What is taken of a line is seen but for markers, and the rest is shorter.
abbrev Takes : Text → Option (Elements × Text) → Type 0
Takes s none = Unit
Takes s (some (es, after)) =
    (unmarked s ≡ unmarked (shown es) ++ unmarked after) × (length after < length s)

styled-Takes :
    (f : Text → Elements) (s : Text) (r : Option (Text × Text))
    → ((t : Text) → shown (f t) ≡ t)
    → Splits s r
    → Takes s (styled f r)
styled-Takes f s none keeps h = tt
styled-Takes f s (some (before, after)) keeps h =
    (h.0 ∙ ap (λ t. unmarked t ++ unmarked after) (sym (keeps before)), h.1)

past_marker :
    (c : ℕ) (s : Text) (r : Option (Elements × Text))
    → is_marker c ≡ true
    → Takes s r
    → Takes (c ∷ s) r
past_marker c s none m h = tt
past_marker c s (some (es, after)) m h = (rw m h.0, omega (arith, h.1))

after_star-Takes : (s : Text) → Takes s (after_star s)
unfolding after_star
after_star-Takes [] = styled-Takes (push_words italic) [] none (shown-push_words italic) tt
after_star-Takes (d ∷ s) = elim (Bool-cases (d == b'*')) [
  | inl star ↦
      rw (star, after_star)
        (past_marker d s (styled (push_words bold) (split_at_stars s)) (ground (arith, star))
          (styled-Takes (push_words bold) s _ (shown-push_words bold) (split_at_stars-Splits s)))
  | inr other ↦
      rw (other, after_star)
        (styled-Takes (push_words italic) (d ∷ s) _ (shown-push_words italic)
          (cons-Splits d s (split_at b'*' s) (split_at-Splits b'*' s refl)))
]

mark_at-Takes : (c : ℕ) (s : Text) → Takes (c ∷ s) (mark_at c s)
unfolding mark_at
mark_at-Takes c s = elim (Bool-cases (c == b'*')) [
  | inl star ↦
      rw (star, mark_at)
        (past_marker c s (after_star s) (ground (arith, star)) (after_star-Takes s))
  | inr other ↦ elim (Bool-cases (c == b'`')) [
    | inl tick ↦
        rw (other, tick, mark_at)
          (past_marker c s (styled code_text (split_at b'`' s)) (ground (arith, tick))
            (styled-Takes code_text s _ ++_nil (split_at-Splits b'`' s refl)))
    | inr plain ↦ rw (other, plain, mark_at) tt
  ]
]

flushed :
    (buf : Text) (es : Elements)
    → unmarked (shown (push_words normal buf ++ es)) ≡ unmarked buf ++ unmarked (shown es)
flushed buf es =
    ap unmarked (shown-++ (push_words normal buf) es)
    ∙ unmarked-++ (shown (push_words normal buf)) (shown es)
    ∙ ap (λ t. unmarked t ++ unmarked (shown es)) (shown-push_words normal buf)

one_marker : (c : ℕ) (t : Text) → is_marker c ≡ true → unmarked (c ∷ []) ++ t ≡ t
one_marker c t m = rw m refl

one_letter :
    (buf : Text) (c : ℕ) (t : Text)
    → is_marker c ≡ false
    → unmarked (buf ++ (c ∷ [])) ++ t ≡ unmarked buf ++ (c ∷ t)
one_letter buf c t m =
    ap (λ u. u ++ t) (unmarked-++ buf (c ∷ []))
    ∙ ++_assoc (unmarked buf) (unmarked (c ∷ [])) t
    ∙ rw m refl

-- With as much fuel as there are characters left, the loop shows the buffer and the rest of the line.
inline_loop-unmarked :
    (fuel : ℕ) (buf line : Text)
    → length line ≤ fuel
    → unmarked (shown (inline_loop fuel buf line)) ≡ unmarked buf ++ unmarked line
unfolding inline_loop
inline_loop-unmarked fuel buf [] h =
    ap unmarked (shown-push_words normal buf) ∙ sym (++_nil (unmarked buf))
inline_loop-unmarked zero buf (c ∷ s) h = absurd (omega (arith, h))
inline_loop-unmarked (suc fuel) buf (c ∷ s) h = elim (Option-cases (mark_at c s)) [
  | inl none_found ↦ elim (Bool-cases (is_marker c)) [
    | inl m ↦
        rw (none_found, m, inline_loop)
          (flushed buf (inline_loop fuel (c ∷ []) s)
            ∙ ap (λ t. unmarked buf ++ t)
                (inline_loop-unmarked fuel (c ∷ []) s (omega (arith, h))
                  ∙ one_marker c (unmarked s) m))
    | inr m ↦
        rw (none_found, m, inline_loop)
          (inline_loop-unmarked fuel (buf ++ (c ∷ [])) s (omega (arith, h))
            ∙ one_letter buf c (unmarked s) m)
  ]
  | inr ((es, after), found) ↦
      let takes = subst (Takes (c ∷ s)) found (mark_at-Takes c s) in
      rw (found, inline_loop)
        (flushed buf (es ++ inline_loop fuel [] after)
          ∙ ap (λ t. unmarked buf ++ t)
              (ap unmarked (shown-++ es (inline_loop fuel [] after))
                ∙ unmarked-++ (shown es) (shown (inline_loop fuel [] after))
                ∙ ap (λ t. unmarked (shown es) ++ t)
                    (inline_loop-unmarked fuel [] after (omega (arith, h, takes.1)))
                ∙ sym takes.0))
]

-- The elements of a line, put together, are the line but for stars and backquotes: nothing else is
-- lost, doubled or moved, whatever markers are open, nested or missing.
pub parse_inline-unmarked : (line : Text) → unmarked (shown (parse_inline line)) ≡ unmarked line
unfolding parse_inline
parse_inline-unmarked line = inline_loop-unmarked (length line) [] line (omega arith)

more_fuel :
    (f g : ℕ) (buf line : Text)
    → length line ≤ f
    → length line ≤ g
    → inline_loop f buf line ≡ inline_loop g buf line
unfolding inline_loop
more_fuel f g buf [] h k = refl
more_fuel zero g buf (c ∷ s) h k = absurd (omega (arith, h))
more_fuel (suc f) zero buf (c ∷ s) h k = absurd (omega (arith, k))
more_fuel (suc f) (suc g) buf (c ∷ s) h k = elim (Option-cases (mark_at c s)) [
  | inl none_found ↦ elim (Bool-cases (is_marker c)) [
    | inl m ↦
        rw (none_found, m, inline_loop)
          (ap (λ es. push_words normal buf ++ es)
            (more_fuel f g (c ∷ []) s (omega (arith, h)) (omega (arith, k))))
    | inr m ↦
        rw (none_found, m, inline_loop)
          (more_fuel f g (buf ++ (c ∷ [])) s (omega (arith, h)) (omega (arith, k)))
  ]
  | inr ((es, after), found) ↦
      let takes = subst (Takes (c ∷ s)) found (mark_at-Takes c s) in
      rw (found, inline_loop)
        (ap (λ rest. push_words normal buf ++ (es ++ rest))
          (more_fuel f g [] after (omega (arith, h, takes.1)) (omega (arith, k, takes.1))))
]

-- The loop ends within as many rounds as the line has characters: with any more fuel it gives what it
-- gives with that many.
pub inline_loop-parse_inline :
    (fuel : ℕ) (line : Text) → length line ≤ fuel → inline_loop fuel [] line ≡ parse_inline line
unfolding parse_inline
inline_loop-parse_inline fuel line h = more_fuel fuel (length line) [] line h (omega arith)
