-- ===== src/Screen/Panel.antt =====
-- The width of the panel of users.
use ircord_client.Base.{ℕ, ◌/◌, ◌≤◌, ◌<◌, ◌≡◌, ◌↔◌, false, none, some, arith}
use ircord_client.Screen.{get_panel_width, clamp}

-- For an open panel the bounds given to `std::clamp` are the wrong way round exactly where the terminal
-- has fewer than 30 columns; from 30 on the width is at least 15 and at most half of the columns.
pub get_panel_width_lem :
    (width term_cols : ℕ)
    → ((get_panel_width false width term_cols ≡ none) ↔ (term_cols < 30))
      × ((w : ℕ) → get_panel_width false width term_cols ≡ some w → (15 ≤ w) × (w ≤ term_cols / 2))
unfolding get_panel_width clamp
get_panel_width_lem width term_cols =
    ((λ h. ground arith, λ h. ground arith), λ w h. (ground arith, ground arith))
