-- ===== src/Command/Parsing.antt =====
-- The command parser: what it accepts, and that it reads back what is written out.
use ircord_client.Base.{
  subst, ℕ, ◌≡◌, refl, ap, sym, ◌∙◌, inl, inr, false, some, List, [], ◌∷◌, ◌++◌, ◌==◌, is_empty,
  All, Text, arith, Bool-cases,
}
use ircord_client.Command.{
  ParsedCommand, parse_command, tokens, cons_word, command_of, lower, is_space,
}
use mathlib.Core.List.{append-nil, append_assoc}

-- No character of the text is white space.
abbrev pub HasNoSpace : Text → Type 0
HasNoSpace s = All (λ c. is_space c ≡ false) s

abbrev pub IsWord : Text → Type 0
IsWord w = (is_empty w ≡ false) × HasNoSpace w

-- The words, a space before each.
abbrev pub spaced : List Text → Text
spaced [] = []
spaced (w ∷ ws) = b' ' ∷ (w ++ spaced ws)

-- Reading a word goes on with it behind what is read already.
tokens_word :
    (seen w rest : Text) → HasNoSpace w → tokens seen (w ++ rest) ≡ tokens (seen ++ w) rest
unfolding tokens
tokens_word seen [] rest h = ap (λ s. tokens s rest) (sym (append-nil seen))
tokens_word seen (c ∷ w) rest h = rw (h.0) (
    tokens_word (seen ++ (c ∷ [])) w rest h.1
    ∙ ap (λ s. tokens s rest) (append_assoc seen (c ∷ []) w))

tokens-spaced :
    (word : Text) (ws : List Text) → All IsWord ws → tokens word (spaced ws) ≡ cons_word word ws
unfolding tokens
tokens-spaced word [] h = refl
tokens-spaced word (w ∷ ws) h =
    ap (cons_word word)
      (tokens_word [] w (spaced ws) h.0.1 ∙ tokens-spaced w ws h.1 ∙ nonempty w h.0.0)
  where
    nonempty : (w : Text) → is_empty w ≡ false → cons_word w ws ≡ w ∷ ws
    nonempty [] e = cc
    nonempty (c ∷ w) e = refl

-- A slash, a word and further words, a space before each, are read as the command with the first
-- word in lower case behind a slash as its name and the others as its arguments.
pub parse_command-spaced :
    (w : Text) (args : List Text)
    → IsWord w
    → All IsWord args
    → parse_command (b'/' ∷ (w ++ spaced args))
      ≡ some (record { name = lower (b'/' ∷ w); args = args })
unfolding parse_command command_of
parse_command-spaced [] args h hs = cc
parse_command-spaced (c ∷ w) args h hs =
    ap command_of (tokens_word [] (c ∷ w) (spaced args) h.1 ∙ tokens-spaced (c ∷ w) args hs)

HasNoSpace-snoc :
    (s : Text) (c : ℕ) → HasNoSpace s → is_space c ≡ false → HasNoSpace (s ++ (c ∷ []))
HasNoSpace-snoc [] c h e = (e, tt)
HasNoSpace-snoc (d ∷ s) c h e = (h.0, HasNoSpace-snoc s c h.1 e)

cons_word-AreWords :
    (w : Text) (ws : List Text) → HasNoSpace w → All IsWord ws → All IsWord (cons_word w ws)
cons_word-AreWords [] ws h hs = hs
cons_word-AreWords (c ∷ w) ws h hs = ((refl, h), hs)

tokens-AreWords : (word s : Text) → HasNoSpace word → All IsWord (tokens word s)
unfolding tokens
tokens-AreWords word [] h = cons_word-AreWords word [] h tt
tokens-AreWords word (c ∷ s) h = elim (Bool-cases (is_space c)) [
  | inl e ↦ rw e (cons_word-AreWords word (tokens [] s) h (tokens-AreWords [] s tt))
  | inr e ↦ rw e (tokens-AreWords (word ++ (c ∷ [])) s (HasNoSpace-snoc word c h e))
]

lower_idem : (s : Text) → lower (lower s) ≡ lower s
unfolding lower
lower_idem [] = refl
lower_idem (c ∷ s) = ground (arith, lower_idem s)

some_inj : {x y : ParsedCommand} → some x ≡ some y → x ≡ y
some_inj e = cc

-- A name: a slash and a word, in lower case.
abbrev pub IsName : Text → Type 0
IsName n = (w : Text) × (n ≡ lower (b'/' ∷ w)) × IsWord w × (lower n ≡ n)

command_of-IsName :
    (ts : List Text) (cmd : ParsedCommand)
    → All IsWord ts
    → command_of ts ≡ some cmd
    → IsName cmd.name × All IsWord cmd.args
unfolding command_of
command_of-IsName [] cmd h e = cc
command_of-IsName (t ∷ ts) cmd h e =
    subst (λ c. IsName c.name × All IsWord c.args) (some_inj e)
      ((t, refl, h.0, lower_idem (b'/' ∷ t)), h.1)

-- Whatever the line, a command that is read has a name of a slash and a word in lower case, and
-- arguments that are words.
pub parse_command-IsName :
    (line : Text) (cmd : ParsedCommand)
    → parse_command line ≡ some cmd
    → IsName cmd.name × All IsWord cmd.args
unfolding parse_command
parse_command-IsName [] cmd e = cc
parse_command-IsName (c ∷ line) cmd e = elim (Bool-cases (c == b'/')) [
  | inl h ↦ command_of-IsName (tokens [] line) cmd (tokens-AreWords [] line tt) (rw⁻¹ e (rw h refl))
  | inr h ↦ ground arith
]
