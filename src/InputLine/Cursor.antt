-- ===== src/InputLine/Cursor.antt =====
-- The invariant of the input line: every call keeps it.
use ircord_client.Base.{
  ℕ, zero, suc, ◌+◌, ◌-◌, ◌≤◌, ◌<◌, ◌≡◌, false, Option, none, some, List, [], ◌∷◌, ◌++◌, length,
  length-append, length-take, length-drop, length-drop_last, take, drop, arith, inl, inr,
  Option-cases, Bool-cases, is_empty, Text,
}
use ircord_client.InputLine.{
  InputLine, new, splice, erase_at, insert, insert_points, insert_text, backspace, del_forward,
  move_left, move_right, move_home, move_end, find, rfind, newline, line_start_before, up_from,
  move_up, down_from, move_down, show_entry, browse_back, browse_forth, history_prev, history_next,
  remember, commit, clear, set_text, Action, type_point, paste, replace, back, del, left, right,
  home, finish, up, down, prev, next, enter, wipe, act, run,
}
use ircord_client.InputLine.Utf8.{from_utf8}

abbrev pub IsWithin : Option ℕ → ℕ → Type 0
IsWithin none n = Unit {0}
IsWithin (some pos) n = pos < n

-- The cursor is within the text, a browsed entry exists, and the history is within its limit.
pub record IsValid (s : InputLine) : Type 0 where
  pub within : s.cursor ≤ length s.buf
  pub browsing : IsWithin s.hist_pos (length s.history)
  pub bounded : length s.history ≤ s.max_history

length-splice :
    (buf : List ℕ) (pos : ℕ) (added : List ℕ)
    → pos ≤ length buf
    → length (splice buf pos added) ≡ length buf + length added
unfolding splice
length-splice buf pos added h = omega (
  arith,
  length-append (take pos buf) (added ++ drop pos buf),
  length-append added (drop pos buf),
  length-take pos buf,
  length-drop pos buf,
)

length-erase_at :
    (buf : List ℕ) (pos : ℕ) → pos < length buf → length (erase_at buf pos) + 1 ≡ length buf
unfolding erase_at
length-erase_at buf pos h = omega (
  arith,
  length-append (take pos buf) (drop (suc pos) buf),
  length-take pos buf,
  length-drop (suc pos) buf,
)

pub rfind_bounds :
    (c pos : ℕ) (xs : List ℕ) {i : ℕ} → rfind c pos xs ≡ some i → (i ≤ pos) × (i < length xs)
unfolding rfind
rfind_bounds c pos [] h = cc
rfind_bounds c zero (x ∷ xs) h = ground arith
rfind_bounds c (suc pos) (x ∷ xs) {i} h = elim (Option-cases (rfind c pos xs)) [
  | inl e ↦ ground arith
  | inr (j, e) ↦ ground (arith, rfind_bounds c pos xs {i = j} e)
]

pub find_bounds :
    (c pos : ℕ) (xs : List ℕ) {i : ℕ} → find c pos xs ≡ some i → (pos ≤ i) × (i < length xs)
unfolding find
find_bounds c pos [] h = cc
find_bounds c zero (x ∷ xs) {i} h = elim (Option-cases (find c zero xs)) [
  | inl e ↦ ground arith
  | inr (j, e) ↦ ground (arith, find_bounds c zero xs {i = j} e)
]
find_bounds c (suc pos) (x ∷ xs) h = elim (Option-cases (find c pos xs)) [
  | inl e ↦ ground arith
  | inr (j, e) ↦ ground (arith, find_bounds c pos xs {i = j} e)
]

pub line_start_before-le : (buf : List ℕ) (pos : ℕ) → line_start_before buf pos ≤ pos
unfolding line_start_before
line_start_before-le buf pos = elim (Option-cases (rfind newline (pos - 1) buf)) [
  | inl e ↦ ground arith
  | inr (j, e) ↦ ground (arith, rfind_bounds newline (pos - 1) buf {i = j} e)
]

up_from-le : (s : InputLine) (start : ℕ) → up_from s start ≤ start
unfolding up_from
up_from-le s start = omega (arith, line_start_before-le s.buf start)

down_from-le : (s : InputLine) (nl : ℕ) → nl < length s.buf → down_from s nl ≤ length s.buf
unfolding down_from
down_from-le s nl h = elim (Option-cases (find newline (nl + 1) s.buf)) [
  | inl e ↦ ground arith
  | inr (j, e) ↦ ground (arith, find_bounds newline (nl + 1) s.buf {i = j} e)
]

module _ {s : InputLine} (v : IsValid s) where
  insert-IsValid : (ch : ℕ) → IsValid (insert ch s)
  unfolding insert
  insert-IsValid ch = omega (arith, length-splice s.buf s.cursor (ch ∷ []))

  insert_points-IsValid : (d : List ℕ) → IsValid (insert_points d s)
  unfolding insert_points
  insert_points-IsValid [] = v
  insert_points-IsValid (c ∷ d) = omega (arith, length-splice s.buf s.cursor (c ∷ d))

  backspace-IsValid : IsValid (backspace s)
  unfolding backspace
  backspace-IsValid = ground (arith, length-erase_at s.buf (s.cursor - 1))

  del_forward-IsValid : IsValid (del_forward s)
  unfolding del_forward
  del_forward-IsValid = ground (arith, length-erase_at s.buf s.cursor)

  move_up-IsValid : IsValid (move_up s).0
  unfolding move_up
  move_up-IsValid = elim (Option-cases (rfind newline (s.cursor - 1) s.buf)) [
    | inl e ↦ ground arith
    | inr (j, e) ↦
        ground (arith, up_from-le s j, rfind_bounds newline (s.cursor - 1) s.buf {i = j} e)
  ]

  move_down-IsValid : IsValid (move_down s).0
  unfolding move_down
  move_down-IsValid = elim (Option-cases (find newline s.cursor s.buf)) [
    | inl e ↦ ground arith
    | inr (j, e) ↦ ground (arith, down_from-le s j, find_bounds newline s.cursor s.buf {i = j} e)
  ]

  remember-bounded : length (remember s.max_history s.buf s.history) ≤ s.max_history
  unfolding remember
  remember-bounded = ground (arith, length-drop_last (s.buf ∷ s.history))

  commit-IsValid : IsValid (commit s).0
  unfolding commit
  commit-IsValid = ground (arith, remember-bounded)

  clear-IsValid : IsValid (clear s)
  unfolding clear
  clear-IsValid = omega arith

  show_entry-IsValid : (pos : ℕ) → pos < length s.history → IsValid (show_entry pos s)
  unfolding show_entry
  show_entry-IsValid pos h = omega arith

  browse_forth-IsValid :
      (pos : Option ℕ) → IsWithin pos (length s.history) → IsValid (browse_forth pos s)
  unfolding browse_forth
  browse_forth-IsValid none h = v
  browse_forth-IsValid (some zero) h = omega arith
  browse_forth-IsValid (some (suc pos)) h = show_entry-IsValid pos (omega arith)

  history_next-IsValid : IsValid (history_next s)
  unfolding history_next
  history_next-IsValid = browse_forth-IsValid s.hist_pos v.browsing

  set_text-IsValid : (utf8 : Text) → IsValid (set_text utf8 s)
  unfolding set_text
  set_text-IsValid utf8 = omega arith

is_empty-false : (xs : List (List ℕ)) → is_empty xs ≡ false → 0 < length xs
is_empty-false [] e = cc
is_empty-false (x ∷ xs) e = omega arith

save-IsValid : {s : InputLine} → IsValid s → IsValid (record s { saved_input = s.buf })
save-IsValid v = record { within = v.within; browsing = v.browsing; bounded = v.bounded }

browse_back-IsValid :
    {s : InputLine} (pos : Option ℕ)
    → IsValid s
    → 0 < length s.history
    → IsValid (browse_back pos s)
unfolding browse_back
browse_back-IsValid none v h = show_entry-IsValid (save-IsValid v) 0 h
browse_back-IsValid {s} (some pos) v h =
    ground (arith, λ (l : pos + 1 < length s.history). show_entry-IsValid v (pos + 1) l)

history_prev-IsValid : {s : InputLine} → IsValid s → IsValid (history_prev s)
unfolding history_prev
history_prev-IsValid {s} v = elim (Bool-cases (is_empty s.history)) [
  | inl e ↦ rw (e, history_prev) v
  | inr e ↦ rw (e, history_prev) (browse_back-IsValid s.hist_pos v (is_empty-false s.history e))
]

-- Every call keeps the cursor within the text, a browsed entry within the history, and the history
-- within `max_history`.
pub act-IsValid : (a : Action) (s : InputLine) → IsValid s → IsValid (act a s)
unfolding act
act-IsValid (type_point ch) s v = insert-IsValid v ch
act-IsValid (paste utf8) s v = unfold insert_text in insert_points-IsValid v (from_utf8 utf8)
act-IsValid (replace utf8) s v = set_text-IsValid v utf8
act-IsValid back s v = backspace-IsValid v
act-IsValid del s v = del_forward-IsValid v
act-IsValid left s v = unfold move_left in ground arith
act-IsValid right s v = unfold move_right in ground arith
act-IsValid home s v = unfold move_home in ground arith
act-IsValid finish s v = unfold move_end in ground arith
act-IsValid up s v = move_up-IsValid v
act-IsValid down s v = move_down-IsValid v
act-IsValid prev s v = history_prev-IsValid v
act-IsValid next s v = history_next-IsValid v
act-IsValid enter s v = commit-IsValid v
act-IsValid wipe s v = clear-IsValid v

-- After any calls on a new input line, the cursor is within the text, a browsed entry exists, and
-- the history has at most `max_history` lines.
pub run-new-IsValid :
    (max_history : ℕ) (calls : List Action) → IsValid (run (new max_history) calls)
run-new-IsValid max_history calls = keep calls (new max_history) (omega arith)
  where
    keep : (calls : List Action) (s : InputLine) → IsValid s → IsValid (run s calls)
    keep [] s v = v
    keep (a ∷ rest) s v = keep rest (act a s) (act-IsValid a s v)
