-- ===== src/App/Names.antt =====
-- The names of channels in src/app.cpp.
use ircord_client.Base.{
  ℕ, Bool, true, false, ◌||◌, ◌&&◌, Option, none, some, [], ◌∷◌, leb, ◌==◌, if◌then◌else◌, length,
  is_empty, Text, codes, text_eq,
}
use ircord_client.Command.{is_space, lower}

-- The loop compares the six characters in lower case.
unfoldable pub is_server_channel : Text → Bool
unfolding lower
is_server_channel channel_id =
    if length channel_id == 6 then text_eq (lower channel_id) (codes "server") else false

unfoldable pub canonical_channel_id : Text → Text
unfolding is_server_channel
canonical_channel_id channel_id =
    if is_server_channel channel_id then codes "server" else channel_id

abbrev pub trim_start : Text → Text
trim_start [] = []
trim_start (c ∷ s) = if is_space c then trim_start s else c ∷ s

-- The text without the white space at its end.
abbrev pub trim_end : Text → Text
trim_end [] = []
trim_end (c ∷ s) = let rest = trim_end s in if is_space c && is_empty rest then [] else c ∷ rest

unfoldable pub trim_ascii_whitespace : Text → Text
trim_ascii_whitespace text = trim_end (trim_start text)

-- `std::isalnum` in the "C" locale, `_`, `-` and `.`.
abbrev pub is_valid_channel_char : ℕ → Bool
is_valid_channel_char c =
    (leb 48 c && leb c 57)
    || (leb 65 c && leb c 90)
    || (leb 97 c && leb c 122)
    || c == 95
    || c == 45
    || c == 46

abbrev pub all_valid : Text → Bool
all_valid [] = true
all_valid (c ∷ s) = is_valid_channel_char c && all_valid s

-- A `#` is put in front, unless it is there.
abbrev pub with_hash : Text → Text
with_hash [] = []
with_hash (c ∷ s) = if c == 35 then c ∷ s else 35 ∷ c ∷ s

-- The loop over the characters behind the first.
abbrev pub checked_name : Text → Option Text
checked_name [] = none
checked_name (c ∷ s) = if is_empty s then none else if all_valid s then some (c ∷ s) else none

-- The name that a trimmed text stands for.
unfoldable pub sanitized : Text → Option Text
sanitized channel =
    if is_empty channel
    then none
    else if is_server_channel channel
    then some (codes "server")
    else checked_name (with_hash channel)

unfoldable pub sanitize_channel_name : Text → Option Text
unfolding sanitized
sanitize_channel_name raw_name = sanitized (trim_ascii_whitespace raw_name)
