-- ===== src/Screen/Tests.antt =====
-- Runs of the screen's computations, and each theorem at an input that meets its hypotheses.
use ircord_client.Base.{◌-◌, ◌≡◌, ℕ, refl, List, [], ◌∷◌, take, arith}
use ircord_client.AppState.Window.{window}
use ircord_client.Screen.{render_messages, lines}
use ircord_client.Screen.Shown.{render_messages-window}

abbrev five : List ℕ
five = 1 ∷ 2 ∷ 3 ∷ 4 ∷ 5 ∷ []

two_rows : render_messages 2 1 five ≡ 3 ∷ 4 ∷ []
unfolding render_messages lines
two_rows = refl

-- Scrolled past the oldest message, the screen shows that one.
past_the_end : render_messages 2 9 five ≡ 1 ∷ []
unfolding render_messages lines
past_the_end = refl

render_messages-window_example : render_messages 2 1 five ≡ window 2 (take (5 - 1) five)
render_messages-window_example = render_messages-window 2 1 five (omega arith)
