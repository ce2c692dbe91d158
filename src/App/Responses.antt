-- ===== src/App/Responses.antt =====
-- `handle_command_response` of src/app.cpp: the answers of the server to commands.
use ircord_client.Base.{
  ℕ, Bool, true, false, not, ◌&&◌, Option, none, some, List, [], ◌∷◌, ◌++◌, if◌then◌else◌, is_empty,
  ltb, length, drop, Text, codes, text_eq, ◌==◌,
}
use ircord_client.Base.Assoc.{Assoc, or_default}
use ircord_client.AppState.{
  ChannelState, ChannelUserInfo, UserRole, regular, voice, admin, offline, off, active_channel,
}
use ircord_client.Command.{lower}
use ircord_client.Handler.{Task, enters_channel, lists_users, removes_channel}
use ircord_client.App.Types.{App, CommandResponse}
use ircord_client.App.Logs.{post, push_system_msg_to_channel, log_server_event}

-- `msg.find(":\n")`, and the two parts around it.
unfoldable pub find_header : Text → Option (Text × Text)
find_header [] = none
find_header (c ∷ []) = none
find_header (c ∷ d ∷ s) =
    if c == 58 && d == 10
    then some ([], s)
    else elim (find_header (d ∷ s)) [ none ↦ none | some (head, rest) ↦ some (c ∷ head, rest) ]

-- The line up to a newline or the end, and what follows.
abbrev pub cons_line : ℕ → List Text → List Text
cons_line c [] = (c ∷ []) ∷ []
cons_line c (l ∷ ls) = (c ∷ l) ∷ ls

-- `std::getline` until it fails: a newline at the end opens no further line.
unfoldable pub get_lines : Text → List Text
get_lines [] = []
get_lines (c ∷ s) = let rest = get_lines s in if c == 10 then [] ∷ rest else cons_line c rest

abbrev pub info_of : UserRole → Text → ChannelUserInfo
info_of role user_id = record {
  user_id = user_id;
  role = role;
  presence = offline;
  voice_status = off;
}

-- A line that is not empty: `@` and `+` give the role.
abbrev pub info_of_line : Text → List ChannelUserInfo
info_of_line [] = []
info_of_line (c ∷ s) =
    if c == 64
    then info_of admin s ∷ []
    else if c == 43
    then info_of voice s ∷ []
    else info_of regular (c ∷ s) ∷ []

abbrev pub infos_of : List Text → List ChannelUserInfo
infos_of [] = []
infos_of (l ∷ ls) = info_of_line l ++ infos_of ls

-- `msg.substr(9, header_end - 9)`, where `head` is the text before the header's end: none where it
-- throws, and all of the rest where the difference wraps around.
abbrev pub channel_of_names : Text → Text → Option Text
channel_of_names msg head =
    if ltb (length msg) 9
    then none
    else some (if ltb (length head) 9 then drop 9 msg else drop 9 head)

-- The list in the answer to `names`: none where there is none, an exception is `some none`.
unfoldable pub parse_names : Text → Option (Option (Text × List ChannelUserInfo))
unfolding find_header get_lines
parse_names msg = elim (find_header msg) [
  | none ↦ none
  | some (head, rest) ↦ some (elim (channel_of_names msg head) [
    | none ↦ none
    | some channel ↦ some (channel, infos_of (get_lines rest))
  ])
]

abbrev pub response_text : Text → CommandResponse → Text
response_text command response =
    (if response.success then codes "[ok] " else codes "[fail] ")
    ++ (command ++ (codes ": " ++ response.message))

-- The first text, if there is one, and the others.
abbrev pub pop_front : List Text → Option Text × List Text
pop_front [] = (none, [])
pop_front (t ∷ ts) = (some t, ts)

-- A success is followed by a task for the channel that was asked for.
abbrev pub follow_up {ℓ} : {C : Type ℓ} → Bool → Option Text → (Text → Task) → App C → App C
follow_up success none task a = a
follow_up success (some target) task a = if success then post (task target) a else a

-- With whether an exception leaves it.
abbrev pub list_names {ℓ} :
    {C : Type ℓ} → Option (Option (Text × List ChannelUserInfo)) → App C → App C × Bool
list_names none a = (a, false)
list_names (some none) a = (a, true)
list_names (some (some (channel, users))) a = (post (lists_users channel users) a, false)

module _ {ℓ} {C : Type ℓ} (first : Assoc ChannelState → Text) (now : ℕ) where
  -- The response in the log, and a failed one also in the active channel.
  unfoldable pub report_response : Text → CommandResponse → App C → App C
  unfolding log_server_event push_system_msg_to_channel
  report_response command response a =
      let text = response_text command response in
      let logged = log_server_event now text false a in
      let active = or_default [] (active_channel a.handler.state) in
      if not response.success && (not (is_empty active) && not (text_eq active (codes "server")))
      then push_system_msg_to_channel now active text false logged
      else logged

  unfoldable pub join_response : Bool → App C → App C
  join_response success a =
      let (target, rest) = pop_front a.pending_joins in
      follow_up success target enters_channel (record a { pending_joins = rest })

  unfoldable pub part_response : Bool → App C → App C
  part_response success a =
      let (target, rest) = pop_front a.pending_parts in
      follow_up success target (removes_channel first) (record a { pending_parts = rest })

  unfoldable pub names_response : Text → App C → App C × Bool
  names_response message a = list_names (parse_names message) a

  -- The application afterwards, and whether an exception leaves the function.
  unfoldable pub handle_command_response : CommandResponse → App C → App C × Bool
  unfolding report_response join_response part_response names_response lower
  handle_command_response response a =
      let command = lower response.command in
      let told = report_response command response a in
      if text_eq command (codes "join")
      then (join_response response.success told, false)
      else if text_eq command (codes "names") && response.success
      then names_response response.message told
      else if text_eq command (codes "part")
      then (part_response response.success told, false)
      else (told, false)
