-- ===== src/InputLine/Tests.antt =====
-- Runs of the input line, and each theorem at an input that meets its hypotheses.
use ircord_client.Base.{ℕ, ◌≡◌, refl, List, [], ◌∷◌, none, arith, codes}
use ircord_client.InputLine.{
  InputLine, move_up, rfind, new, type_point, paste, back, left, up, prev, enter, act, run, commit,
  insert,
}
use ircord_client.InputLine.Utf8.{to_utf8, from_utf8, clean}
use ircord_client.InputLine.RoundTrip.{from_utf8-to_utf8}
use ircord_client.InputLine.Cursor.{IsValid, run-new-IsValid}
use ircord_client.InputLine.Edit.{erase_back, view, perform, view-perform}

-- ö, a tab, the snowman and an emoji
abbrev sample : List ℕ
sample = 0xF6 ∷ 9 ∷ 0x2603 ∷ 0x1F680 ∷ []

encode_sample :
    to_utf8 sample ≡ 0xC3 ∷ 0xB6 ∷ 9 ∷ 0xE2 ∷ 0x98 ∷ 0x83 ∷ 0xF0 ∷ 0x9F ∷ 0x9A ∷ 0x80 ∷ []
unfolding to_utf8
encode_sample = refl

decode_broken : from_utf8 (0x61 ∷ 0xC3 ∷ 0x28 ∷ 0xE2 ∷ 0x98 ∷ []) ≡ 0x61 ∷ 0x28 ∷ []
unfolding from_utf8
decode_broken = refl

from_utf8-to_utf8_example : from_utf8 (to_utf8 sample) ≡ 0xF6 ∷ 32 ∷ 0x2603 ∷ 0x1F680 ∷ []
unfolding clean
from_utf8-to_utf8_example = from_utf8-to_utf8 sample (omega arith)

abbrev typed : InputLine
typed =
    run (new 2)
      (type_point 104 ∷ type_point 105 ∷ enter ∷ type_point 121 ∷ enter ∷ type_point 122 ∷ [])

typed_state : typed ≡ record {
  buf = 122 ∷ [];
  cursor = 1;
  history = (121 ∷ []) ∷ (104 ∷ 105 ∷ []) ∷ [];
  hist_pos = none;
  saved_input = [];
  max_history = 2;
}
unfolding act insert commit
typed_state = refl

-- ab newline c, up and down
moves :
    (run (new 2) (type_point 97 ∷ type_point 98 ∷ type_point 10 ∷ type_point 99 ∷ up ∷ [])).cursor
    ≡ 1
unfolding act insert move_up rfind
moves = refl

run-new-IsValid_example :
    IsValid (run (new 2) (paste (codes "hey") ∷ left ∷ back ∷ enter ∷ prev ∷ []))
run-new-IsValid_example = run-new-IsValid 2 (paste (codes "hey") ∷ left ∷ back ∷ enter ∷ prev ∷ [])

abbrev line : InputLine
line = record {
  buf = 104 ∷ 105 ∷ [];
  cursor = 1;
  history = (121 ∷ []) ∷ (104 ∷ []) ∷ [];
  hist_pos = none;
  saved_input = [];
  max_history = 2;
}

line-IsValid : IsValid line
line-IsValid = record { within = omega arith; browsing = tt; bounded = omega arith }

view-perform_example : view (perform erase_back line) ≡ record { before = []; after = 105 ∷ [] }
view-perform_example = view-perform erase_back line line-IsValid
