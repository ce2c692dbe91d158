-- ===== src/Screen.antt =====
-- src/ui/message_view.cpp and src/ui/user_list_panel.cpp: which messages are on the screen, and how
-- wide the panel of users is. Sizes of the terminal are not negative.
pub mod Shown
pub mod Panel
mod Tests
use ircord_client.Base.{
  ℕ, zero, suc, ◌+◌, ◌-◌, ◌/◌, Bool, true, false, Option, none, some, List, [], ◌∷◌, ltb,
  if◌then◌else◌, length, is_empty, get_elem?,
}

abbrev pub cons_some {ℓ} : {A : Type ℓ} → Option A → List A → List A
cons_some none xs = xs
cons_some (some x) xs = x ∷ xs

-- The loop of `render_messages`: `count` messages from place `i` on.
unfoldable pub lines {ℓ} : {A : Type ℓ} → ℕ → ℕ → List A → List A
lines zero i messages = []
lines (suc count) i messages = cons_some (get_elem? messages i) (lines count (i + 1) messages)

-- The messages that `render_messages` draws. `bottom_idx` is clamped to 0 by the subtraction, and
-- `top_idx` by the other.
unfoldable pub render_messages {ℓ} : {A : Type ℓ} → ℕ → ℕ → List A → List A
unfolding lines
render_messages visible_rows scroll_offset messages =
    if is_empty messages
    then []
    else let bottom_idx = length messages - 1 - scroll_offset in
      let top_idx = bottom_idx + 1 - visible_rows in
      lines (bottom_idx + 1 - top_idx) top_idx messages

-- `std::clamp`, which is not defined for `hi < lo`.
unfoldable pub clamp : ℕ → ℕ → ℕ → Option ℕ
clamp v lo hi =
    if ltb hi lo then none else some (if ltb v lo then lo else if ltb hi v then hi else v)

unfoldable pub get_panel_width : Bool → ℕ → ℕ → Option ℕ
unfolding clamp
get_panel_width collapsed width term_cols =
    if collapsed then some 0 else clamp width 15 (term_cols / 2)
