-- ===== src/Markdown/Tests.antt =====
-- src/ui/markdown_renderer.cpp: runs on small texts.
use ircord_client.Base.{arith, ◌≡◌, refl, [], ◌∷◌, Text, codes}
use ircord_client.Command.{starts_with}
use ircord_client.Markdown.{
  normal, bold, italic, code, code_block, heading, bullet, words_after, split_at, split_at_stars,
  after_star, mark_at, inline_loop, parse_inline, line_block, render_lines, render_markdown,
}
use ircord_client.Markdown.Inline.{shown, unmarked, parse_inline-unmarked, inline_loop-parse_inline}
use ircord_client.Markdown.Blocks.{text_of, render_markdown-fenced}

-- A bold word, an italic one, code with a star in it, and a star that is not closed.
abbrev mixed : Text
mixed = codes "a **b** *c* `d*e` *f"

parse_inline-mixed :
    parse_inline mixed
    ≡ (normal, codes "a")
      ∷ (normal, codes " ")
      ∷ (bold, codes "b")
      ∷ (normal, codes " ")
      ∷ (italic, codes "c")
      ∷ (normal, codes " ")
      ∷ (code, codes "d*e")
      ∷ (normal, codes " ")
      ∷ (normal, codes "*f")
      ∷ []
unfolding words_after split_at split_at_stars after_star mark_at inline_loop parse_inline
parse_inline-mixed = refl

parse_inline-unmarked_example : unmarked (shown (parse_inline mixed)) ≡ codes "a b c de f"
parse_inline-unmarked_example = parse_inline-unmarked mixed

inline_loop-parse_inline_example : inline_loop 30 [] mixed ≡ parse_inline mixed
inline_loop-parse_inline_example = inline_loop-parse_inline 30 mixed (omega arith)

render_markdown_title :
    render_markdown (text_of (codes "# Help" ∷ codes "- a" ∷ []))
    ≡ heading (codes "Help") ∷ bullet ((normal, codes "a") ∷ []) ∷ []
unfolding starts_with words_after mark_at inline_loop parse_inline line_block render_lines
    render_markdown
render_markdown_title = refl

render_markdown-fenced_example :
    render_markdown (text_of (codes "```sh" ∷ codes "# *x*" ∷ codes "```" ∷ codes "y" ∷ []))
    ≡ code_block (codes "# *x*" ∷ []) ∷ render_markdown (text_of (codes "y" ∷ []))
unfolding starts_with
render_markdown-fenced_example =
    render_markdown-fenced (codes "```sh") (codes "# *x*" ∷ []) (codes "```") (codes "y" ∷ [])
      ((refl, (refl, (refl, (refl, (refl, tt))))), ((refl, (refl, (refl, (refl, (refl, tt))))), tt))
      ((refl, (refl, (refl, tt))), ((refl, tt), tt)) refl (refl, tt) refl
