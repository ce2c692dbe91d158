-- ===== src/Markdown/Blocks.antt =====
-- src/ui/markdown_renderer.cpp: the lines of a text and its code blocks.
use ircord_client.Base.{
  ◌≡◌, refl, ◌∙◌, sym, ap, true, false, List, [], ◌∷◌, ◌++◌, Text, All, ◌==◌, ++_nil, ++_assoc,
}
use ircord_client.Markdown.{code_block, is_fence, render_lines, render_markdown, lines_after}

-- A line that opens and closes no code block.
abbrev pub IsPlain : Text → Type 0
IsPlain line = is_fence line ≡ false

inside_block :
    (seen ls : List Text) (close : Text) (rest : List Text)
    → All IsPlain ls
    → is_fence close ≡ true
    → render_lines true seen (ls ++ (close ∷ rest))
      ≡ code_block (seen ++ ls) ∷ render_lines false [] rest
unfolding render_lines
inside_block seen [] close rest plain closes =
    rw (closes, render_lines)
      (ap (λ l. code_block l ∷ render_lines false [] rest) (sym (++_nil seen)))
inside_block seen (l ∷ ls) close rest plain closes =
    rw (plain.0, render_lines)
      (inside_block (seen ++ (l ∷ [])) ls close rest plain.1 closes
        ∙ ap (λ m. code_block m ∷ render_lines false [] rest) (++_assoc seen (l ∷ []) ls))

fenced :
    (start : Text) (ls : List Text) (close : Text) (rest : List Text)
    → is_fence start ≡ true
    → All IsPlain ls
    → is_fence close ≡ true
    → render_lines false [] (start ∷ (ls ++ (close ∷ rest)))
      ≡ code_block ls ∷ render_lines false [] rest
unfolding render_lines
fenced start ls close rest starts plain closes =
    rw (starts, render_lines) (inside_block [] ls close rest plain closes)

-- A line has no line break in it.
abbrev pub IsLine : Text → Type 0
IsLine [] = Unit
IsLine (c ∷ s) = (c == 10 ≡ false) × IsLine s

-- The text of some lines, each ended by a line break.
abbrev pub text_of : List Text → Text
text_of [] = []
text_of (l ∷ ls) = l ++ (10 ∷ text_of ls)

next_line :
    (l seen rest : Text)
    → IsLine l
    → lines_after seen (l ++ (10 ∷ rest)) ≡ (seen ++ l) ∷ lines_after [] rest
next_line [] seen rest h = ap (λ s. s ∷ lines_after [] rest) (sym (++_nil seen))
next_line (c ∷ l) seen rest h = rw h.0 (
    next_line l (seen ++ (c ∷ [])) rest h.1
    ∙ ap (λ s. s ∷ lines_after [] rest) (++_assoc seen (c ∷ []) l))

lines_after-text_of : (ls : List Text) → All IsLine ls → lines_after [] (text_of ls) ≡ ls
lines_after-text_of [] h = refl
lines_after-text_of (l ∷ ls) h =
    next_line l [] (text_of ls) h.0 ∙ ap (λ r. l ∷ r) (lines_after-text_of ls h.1)

both_lines : (a b : List Text) → All IsLine a → All IsLine b → All IsLine (a ++ b)
both_lines [] b h k = k
both_lines (l ∷ a) b h k = (h.0, both_lines a b h.1 k)

-- In a text of lines that each end in a line break, the lines between two fences become one code block
-- that shows each of them as it is, and what follows is rendered as if it stood alone.
pub render_markdown-fenced :
    (start : Text) (ls : List Text) (close : Text) (rest : List Text)
    → All IsLine (start ∷ ls)
    → All IsLine (close ∷ rest)
    → is_fence start ≡ true
    → All IsPlain ls
    → is_fence close ≡ true
    → render_markdown (text_of (start ∷ (ls ++ (close ∷ rest))))
      ≡ code_block ls ∷ render_markdown (text_of rest)
unfolding render_markdown
render_markdown-fenced start ls close rest h k starts plain closes =
    let read : lines_after [] (text_of (start ∷ (ls ++ (close ∷ rest))))
        ≡ start ∷ (ls ++ (close ∷ rest)) =
      lines_after-text_of (start ∷ (ls ++ (close ∷ rest)))
        (both_lines (start ∷ ls) (close ∷ rest) h k) in
    ap (render_lines false []) read
    ∙ fenced start ls close rest starts plain closes
    ∙ ap (λ r. code_block ls ∷ render_lines false [] r) (sym (lines_after-text_of rest k.1))
