-- ===== src/InputLine.antt =====
-- src/ui/input_line.cpp and input_line.hpp: the text under the cursor, its history, and UTF-8.
-- The buffer and its history are code points; `hist_pos` is `none` where the source has -1.
pub mod Utf8
pub mod RoundTrip
pub mod Cursor
pub mod Edit
pub mod History
mod Tests
use Utf8.{to_utf8, from_utf8}
use ircord_client.Base.{
  ℕ, zero, suc, ◌+◌, ◌-◌, ◌≤◌, ◌<◌, min, ◌≡◌, Bool, true, false, Option, none, some, List, [], ◌∷◌,
  ◌++◌, ltb, leb, ◌==◌, if◌then◌else◌, length, take, drop, drop_last, is_empty, get_elem?, Text,
}

pub record InputLine : Type 0 where
  pub buf : List ℕ
  pub cursor : ℕ
  pub history : List (List ℕ)
  pub hist_pos : Option ℕ
  pub saved_input : List ℕ
  pub max_history : ℕ

-- the constructor
abbrev pub new : ℕ → InputLine
new max_history = record {
  buf = [];
  cursor = 0;
  history = [];
  hist_pos = none;
  saved_input = [];
  max_history = max_history;
}

-- `buf_.insert(pos, …)` and `buf_.erase(pos, 1)`
unfoldable pub splice : List ℕ → ℕ → List ℕ → List ℕ
splice buf pos added = take pos buf ++ (added ++ drop pos buf)

unfoldable pub erase_at : List ℕ → ℕ → List ℕ
erase_at buf pos = take pos buf ++ drop (suc pos) buf

unfoldable pub insert : ℕ → InputLine → InputLine
unfolding splice
insert ch s = record s {
  buf = splice s.buf s.cursor (ch ∷ []);
  cursor = s.cursor + 1;
  hist_pos = none;
}

unfoldable pub insert_points : List ℕ → InputLine → InputLine
unfolding splice
insert_points decoded s = if is_empty decoded then s else record s {
  buf = splice s.buf s.cursor decoded;
  cursor = s.cursor + length decoded;
  hist_pos = none;
}

unfoldable pub insert_text : Text → InputLine → InputLine
unfolding insert_points
insert_text utf8 s = insert_points (from_utf8 utf8) s

unfoldable pub backspace : InputLine → InputLine
unfolding erase_at
backspace s =
    if s.cursor == 0
    then s
    else record s { buf = erase_at s.buf (s.cursor - 1); cursor = s.cursor - 1 }

unfoldable pub del_forward : InputLine → InputLine
unfolding erase_at
del_forward s =
    if leb (length s.buf) s.cursor then s else record s { buf = erase_at s.buf s.cursor }

unfoldable pub move_left : InputLine → InputLine
move_left s = if ltb 0 s.cursor then record s { cursor = s.cursor - 1 } else s

unfoldable pub move_right : InputLine → InputLine
move_right s = if ltb s.cursor (length s.buf) then record s { cursor = s.cursor + 1 } else s

unfoldable pub move_home : InputLine → InputLine
move_home s = record s { cursor = 0 }

unfoldable pub move_end : InputLine → InputLine
move_end s = record s { cursor = length s.buf }

-- `find(c, pos)`: the first place at `pos` or behind it that holds `c`.
abbrev pub suc_option : Option ℕ → Option ℕ
suc_option none = none
suc_option (some i) = some (suc i)

unfoldable pub find : ℕ → ℕ → List ℕ → Option ℕ
find c pos [] = none
find c zero (x ∷ xs) = if x == c then some 0 else suc_option (find c zero xs)
find c (suc pos) (x ∷ xs) = suc_option (find c pos xs)

-- `rfind(c, pos)`: the last place at `pos` or before it that holds `c`.
abbrev pub or_here : ℕ → ℕ → Option ℕ → Option ℕ
or_here c x none = if x == c then some 0 else none
or_here c x (some i) = some (suc i)

unfoldable pub rfind : ℕ → ℕ → List ℕ → Option ℕ
rfind c pos [] = none
rfind c zero (x ∷ xs) = if x == c then some 0 else none
rfind c (suc pos) (x ∷ xs) = or_here c x (rfind c pos xs)

abbrev pub newline : ℕ
newline = 10

-- The start of the line that ends before `pos`: 0, or behind the newline that `rfind` finds.
abbrev pub after_newline : Option ℕ → ℕ
after_newline none = 0
after_newline (some p) = p + 1

unfoldable pub line_start_before : List ℕ → ℕ → ℕ
line_start_before buf pos = if ltb 0 pos then after_newline (rfind newline (pos - 1) buf) else 0

-- The end of `move_up`, from the newline that ends the previous line.
unfoldable pub up_from : InputLine → ℕ → ℕ
unfolding line_start_before
up_from s cur_line_start =
    let col = s.cursor - cur_line_start - 1 in
    let prev_line_start = line_start_before s.buf cur_line_start in
    prev_line_start + min col (cur_line_start - prev_line_start)

unfoldable pub move_up : InputLine → InputLine × Bool
unfolding up_from
move_up s = if s.cursor == 0 then (s, false) else elim (rfind newline (s.cursor - 1) s.buf) [
  | none ↦ (s, false)
  | some cur_line_start ↦ (record s { cursor = up_from s cur_line_start }, true)
]

abbrev pub or_size : List ℕ → Option ℕ → ℕ
or_size buf none = length buf
or_size buf (some p) = p

-- The end of `move_down`, from the newline that ends the current line.
unfoldable pub down_from : InputLine → ℕ → ℕ
unfolding line_start_before
down_from s next_nl =
    let col = s.cursor - line_start_before s.buf s.cursor in
    let next_line_start = next_nl + 1 in
    let next_line_end = or_size s.buf (find newline next_line_start s.buf) in
    next_line_start + min col (next_line_end - next_line_start)

unfoldable pub move_down : InputLine → InputLine × Bool
unfolding down_from
move_down s = elim (find newline s.cursor s.buf) [
  | none ↦ (s, false)
  | some next_nl ↦ (record s { cursor = down_from s next_nl }, true)
]

-- `history_[pos]`; out of range the source has no behaviour.
unfoldable pub entry : List (List ℕ) → ℕ → List ℕ
entry [] pos = []
entry (e ∷ es) zero = e
entry (e ∷ es) (suc pos) = entry es pos

unfoldable pub show_entry : ℕ → InputLine → InputLine
unfolding entry
show_entry pos s =
    let shown = entry s.history pos in
    record s { buf = shown; cursor = length shown; hist_pos = some pos }

unfoldable pub browse_back : Option ℕ → InputLine → InputLine
unfolding show_entry
browse_back none s = show_entry 0 (record s { saved_input = s.buf })
browse_back (some pos) s = if ltb pos (length s.history - 1) then show_entry (pos + 1) s else s

unfoldable pub history_prev : InputLine → InputLine
unfolding browse_back
history_prev s = if is_empty s.history then s else browse_back s.hist_pos s

unfoldable pub browse_forth : Option ℕ → InputLine → InputLine
unfolding show_entry
browse_forth none s = s
browse_forth (some zero) s = record s {
  buf = s.saved_input;
  cursor = length s.saved_input;
  hist_pos = none;
}
browse_forth (some (suc pos)) s = show_entry pos s

unfoldable pub history_next : InputLine → InputLine
unfolding browse_forth
history_next s = browse_forth s.hist_pos s

-- `push_front`, and `pop_back` of what is over the limit.
unfoldable pub remember : ℕ → List ℕ → List (List ℕ) → List (List ℕ)
remember max_history line history =
    if is_empty line
    then history
    else if ltb max_history (length (line ∷ history))
    then drop_last (line ∷ history)
    else line ∷ history

unfoldable pub clear : InputLine → InputLine
clear s = record s { buf = []; cursor = 0; hist_pos = none }

-- The new state and the committed line.
unfoldable pub commit : InputLine → InputLine × Text
unfolding remember clear
commit s = (clear (record s { history = remember s.max_history s.buf s.history }), to_utf8 s.buf)

unfoldable pub set_text : Text → InputLine → InputLine
set_text utf8 s =
    let decoded = from_utf8 utf8 in
    record s { buf = decoded; cursor = length decoded; hist_pos = none }

unfoldable pub text : InputLine → Text
text s = to_utf8 s.buf

unfoldable pub cursor_byte_offset : InputLine → ℕ
cursor_byte_offset s = length (to_utf8 (take s.cursor s.buf))

-- Every call that changes the object.
pub data Action : Type 0 where
  type_point : ℕ → Action
  paste replace : Text → Action
  back del left right home finish up down prev next enter wipe : Action

unfoldable pub act : Action → InputLine → InputLine
act (type_point ch) s = insert ch s
act (paste utf8) s = insert_text utf8 s
act (replace utf8) s = set_text utf8 s
act back s = backspace s
act del s = del_forward s
act left s = move_left s
act right s = move_right s
act home s = move_home s
act finish s = move_end s
act up s = (move_up s).0
act down s = (move_down s).0
act prev s = history_prev s
act next s = history_next s
act enter s = (commit s).0
act wipe s = clear s

abbrev pub run : InputLine → List Action → InputLine
run s [] = s
run s (a ∷ rest) = run (act a s) rest
