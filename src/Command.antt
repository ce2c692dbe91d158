-- ===== src/Command.antt =====
-- src/input/command_parser.cpp and src/input/tab_complete.cpp: command lines, and tab completion.
pub mod Parsing
pub mod Completion
pub mod Cycling
mod Tests
use ircord_client.Base.{
  ℕ, zero, suc, ◌+◌, ◌%◌, Bool, true, false, ◌||◌, ◌&&◌, Option, none, some, List, [], ◌∷◌, ◌++◌,
  map, ltb, leb, ◌==◌, if◌then◌else◌, length, is_empty, get_elem?, Text, codes, text_eq, text_lt,
}
use ircord_client.Base.Sort.{sort}

-- `kKnownCommands`
abbrev pub known_commands : List Text
known_commands =
    codes "/join"
    ∷ codes "/part"
    ∷ codes "/msg"
    ∷ codes "/me"
    ∷ codes "/call"
    ∷ codes "/hangup"
    ∷ codes "/accept"
    ∷ codes "/voice"
    ∷ codes "/mute"
    ∷ codes "/deafen"
    ∷ codes "/ptt"
    ∷ codes "/trust"
    ∷ codes "/safety"
    ∷ codes "/set"
    ∷ codes "/clear"
    ∷ codes "/search"
    ∷ codes "/quit"
    ∷ codes "/disconnect"
    ∷ codes "/status"
    ∷ codes "/help"
    ∷ codes "/reload_help"
    ∷ codes "/settings"
    ∷ codes "/version"
    ∷ codes "/names"
    ∷ codes "/whois"
    ∷ codes "/upload"
    ∷ codes "/download"
    ∷ []

pub record ParsedCommand : Type 0 where
  pub name : Text
  pub args : List Text

-- `std::isspace` in the "C" locale: space, tab, newline, vertical tab, form feed, return.
abbrev pub is_space : ℕ → Bool
is_space c = c == 32 || leb 9 c && leb c 13

-- `std::tolower` in the "C" locale.
abbrev pub to_lower : ℕ → ℕ
to_lower c = if leb 65 c && leb c 90 then c + 32 else c

unfoldable pub lower : Text → Text
lower [] = []
lower (c ∷ s) = to_lower c ∷ lower s

-- `word` is put in front, unless it is empty.
abbrev pub cons_word : Text → List Text → List Text
cons_word [] ws = ws
cons_word (c ∷ w) ws = (c ∷ w) ∷ ws

-- `while (ss >> token)`: `word` is what is read of the current token.
unfoldable pub tokens : Text → Text → List Text
tokens word [] = cons_word word []
tokens word (c ∷ s) =
    if is_space c then cons_word word (tokens [] s) else tokens (word ++ (c ∷ [])) s

unfoldable pub command_of : List Text → Option ParsedCommand
unfolding lower
command_of [] = none
command_of (t ∷ ts) = some (record { name = lower (b'/' ∷ t); args = ts })

unfoldable pub parse_command : Text → Option ParsedCommand
unfolding tokens command_of
parse_command [] = none
parse_command (c ∷ line) = if c == b'/' then command_of (tokens [] line) else none

-- `s.find(p) == 0`
unfoldable pub starts_with : Text → Text → Bool
starts_with [] s = true
starts_with (c ∷ p) [] = false
starts_with (c ∷ p) (d ∷ s) = c == d && starts_with p s

-- One of the three loops of `build_candidates`.
unfoldable pub matching : Text → Text → List Text → List Text
unfolding lower starts_with
matching partial suffix [] = []
matching partial suffix (n ∷ ns) =
    if starts_with (lower partial) (lower n)
    then (n ++ suffix) ∷ matching partial suffix ns
    else matching partial suffix ns

unfoldable pub build_candidates : Text → List Text → List Text → List Text → List Text
unfolding matching sort
build_candidates [] users channels commands = []
build_candidates (c ∷ p) users channels commands = sort text_lt (
    if c == b'/'
    then matching (c ∷ p) (codes " ") commands
    else if c == b'#'
    then matching (c ∷ p) [] channels
    else matching (c ∷ p) (codes ": ") users)

pub record TabCompleter : Type 0 where
  pub in_cycle : Bool
  pub stem : Text
  pub candidates : List Text
  pub cycle_pos : ℕ

abbrev pub new_completer : TabCompleter
new_completer = record { in_cycle = false; stem = []; candidates = []; cycle_pos = 0 }

unfoldable pub reset : TabCompleter → TabCompleter
reset t = record t { in_cycle = false; candidates = []; cycle_pos = 0 }

-- The first part of `complete`.
unfoldable pub begin_cycle : Text → List Text → List Text → List Text → TabCompleter → TabCompleter
unfolding build_candidates
begin_cycle partial users channels commands t = if t.in_cycle then t else record {
  in_cycle = true;
  stem = partial;
  candidates = build_candidates partial users channels commands;
  cycle_pos = 0;
}

-- `candidates_[i]`; past the end the source has no value, here it is the empty text.
abbrev pub candidate : List Text → ℕ → Text
candidate [] i = []
candidate (c ∷ cs) zero = c
candidate (c ∷ cs) (suc i) = candidate cs i

-- The rest of `complete`.
unfoldable pub show_next : Text → TabCompleter → Text × TabCompleter
show_next partial t = if is_empty t.candidates then (partial, t) else (
  candidate t.candidates t.cycle_pos,
  record t { cycle_pos = (t.cycle_pos + 1) % length t.candidates },
)

unfoldable pub complete :
    Text → List Text → List Text → List Text → TabCompleter → Text × TabCompleter
unfolding begin_cycle show_next
complete partial users channels commands t =
    show_next partial (begin_cycle partial users channels commands t)
