-- ===== src/Markdown.antt =====
-- src/ui/markdown_renderer.cpp: the inline styles of a line and the blocks of a text.
pub mod Inline
pub mod Blocks
mod Tests
use ircord_client.Base.{
  ℕ, zero, suc, Bool, true, false, not, ◌&&◌, ◌||◌, ◌==◌, Option, none, some, List, [], ◌∷◌, ◌++◌,
  if◌then◌else◌, Text, codes, is_empty, length, drop,
}
use ircord_client.Command.{starts_with}

pub data Style : Type 0 where
  normal bold italic code : Style

-- The elements of a line, each a text in its style.
abbrev pub Elements : Type 0
Elements = List (Style × Text)

abbrev pub push_word : Style → Text → Elements
push_word style word = if is_empty word then [] else (style, word) ∷ []

-- The words of a text that is read after `word`.
unfoldable pub words_after : Style → Text → Text → Elements
words_after style word [] = push_word style word
words_after style word (c ∷ s) =
    if c == b' '
    then push_word style word ++ ((style, b' ' ∷ []) ∷ words_after style [] s)
    else words_after style (word ++ (c ∷ [])) s

abbrev pub push_words : Style → Text → Elements
push_words style s = words_after style [] s

abbrev pub cons_before : ℕ → Option (Text × Text) → Option (Text × Text)
cons_before c none = none
cons_before c (some (before, after)) = some (c ∷ before, after)

-- `find` of a character: what stands before it and behind it.
unfoldable pub split_at : ℕ → Text → Option (Text × Text)
split_at d [] = none
split_at d (c ∷ s) = if c == d then some ([], s) else cons_before c (split_at d s)

-- `find("**")`
unfoldable pub split_at_stars : Text → Option (Text × Text)
split_at_stars [] = none
split_at_stars (c ∷ []) = none
split_at_stars (c ∷ d ∷ s) =
    if c == b'*' && d == b'*' then some ([], s) else cons_before c (split_at_stars (d ∷ s))

-- The elements of what stands between two markers, and what follows.
abbrev pub styled : (Text → Elements) → Option (Text × Text) → Option (Elements × Text)
styled f none = none
styled f (some (inside, after)) = some (f inside, after)

abbrev pub code_text : Text → Elements
code_text s = (code, s) ∷ []

-- What a line begins with after a star.
unfoldable pub after_star : Text → Option (Elements × Text)
unfolding split_at split_at_stars words_after
after_star [] = styled (push_words italic) (split_at b'*' [])
after_star (d ∷ s) =
    if d == b'*'
    then styled (push_words bold) (split_at_stars s)
    else styled (push_words italic) (split_at b'*' (d ∷ s))

-- Bold, italic or code at the beginning of a line.
unfoldable pub mark_at : ℕ → Text → Option (Elements × Text)
unfolding after_star split_at
mark_at c s =
    if c == b'*'
    then after_star s
    else if c == b'`'
    then styled code_text (split_at b'`' s)
    else none

abbrev pub is_marker : ℕ → Bool
is_marker c = c == b'*' || c == b'`'

-- The loop of `parse_inline`; `buf` holds the plain characters since the last element.
unfoldable pub inline_loop : ℕ → Text → Text → Elements
unfolding mark_at words_after
inline_loop fuel buf [] = push_words normal buf
inline_loop zero buf (c ∷ s) = push_words normal buf
inline_loop (suc fuel) buf (c ∷ s) = elim (mark_at c s) [
  | some (elements, after) ↦ push_words normal buf ++ (elements ++ inline_loop fuel [] after)
  | none ↦ elim (is_marker c) [
    | true ↦ push_words normal buf ++ inline_loop fuel (c ∷ []) s
    | false ↦ inline_loop fuel (buf ++ (c ∷ [])) s
  ]
]

-- Each round takes a character of the line, so its length is enough fuel.
unfoldable pub parse_inline : Text → Elements
unfolding inline_loop
parse_inline line = inline_loop (length line) [] line

pub data Block : Type 0 where
  code_block : List Text → Block
  heading : Text → Block
  blockquote bullet paragraph : Elements → Block
  blank : Block

abbrev pub drop_space : Text → Text
drop_space [] = []
drop_space (c ∷ s) = if c == b' ' then s else c ∷ s

abbrev pub drop_hashes : Text → Text
drop_hashes [] = []
drop_hashes (c ∷ s) = if c == b'#' then drop_hashes s else c ∷ s

-- A line outside a code block.
unfoldable pub line_block : Text → Block
unfolding parse_inline
line_block [] = blank
line_block (c ∷ s) =
    if c == b'#'
    then heading (drop_space (drop_hashes (c ∷ s)))
    else if c == b'>'
    then blockquote (parse_inline (drop_space s))
    else if (c == b'-' || c == b'*') && starts_with (codes " ") s
    then bullet (parse_inline (drop 1 s))
    else paragraph (parse_inline (c ∷ s))

abbrev pub is_fence : Text → Bool
is_fence line = starts_with (codes "```") line

-- The loop over the lines: whether it is in a code block, and the lines of that.
unfoldable pub render_lines : Bool → List Text → List Text → List Block
unfolding line_block
render_lines in_code_block code_lines [] =
    if in_code_block && not (is_empty code_lines) then code_block code_lines ∷ [] else []
render_lines in_code_block code_lines (line ∷ lines) = elim (is_fence line) [
  | true ↦ elim in_code_block [
    | true ↦ code_block code_lines ∷ render_lines false [] lines
    | false ↦ render_lines true code_lines lines
  ]
  | false ↦ elim in_code_block [
    | true ↦ render_lines true (code_lines ++ (line ∷ [])) lines
    | false ↦ line_block line ∷ render_lines false code_lines lines
  ]
]

-- `std::getline` until the text ends: a line break at its end begins no further line.
abbrev pub lines_after : Text → Text → List Text
lines_after line [] = if is_empty line then [] else line ∷ []
lines_after line (c ∷ md) =
    if c == 10 then line ∷ lines_after [] md else lines_after (line ++ (c ∷ [])) md

unfoldable pub render_markdown : Text → List Block
unfolding render_lines
render_markdown md = render_lines false [] (lines_after [] md)
