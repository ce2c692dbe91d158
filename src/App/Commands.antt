-- ===== src/App/Commands.antt =====
-- `handle_command` and `on_submit` of src/app.cpp: a function for each command, chosen by its name.
use ircord_client.Base.{
  ℕ, ltb, Bool, true, false, not, ◌||◌, Option, none, some, List, [], ◌∷◌, ◌++◌, if◌then◌else◌,
  is_empty, length, take, Text, codes, text_eq,
}
use ircord_client.Base.Assoc.{or_default}
use ircord_client.AppState.{
  SearchResult, Message, system, active_channel, push_message, online_users,
}
use ircord_client.Handler.{send_command}
use ircord_client.App.Types.{
  App, World, SettingsResult, saved, cancelled, logout, stops_io, requests_exit, reloads_help,
  hangs_up, leaves_room, toggles_mode, saves_config, calls_peer, accepts_call, joins_room,
  sets_muted, sets_deafened, verifies,
}
use ircord_client.App.Names.{is_server_channel, sanitize_channel_name}
use ircord_client.App.Logs.{tell, push_system_msg, log_server_event}

-- The words with a space between them.
abbrev pub spaced : List Text → Text
spaced [] = []
spaced (w ∷ []) = w
spaced (w ∷ v ∷ ws) = w ++ (32 ∷ spaced (v ∷ ws))

-- The words with a space behind each.
abbrev pub listed : List Text → Text
listed [] = []
listed (w ∷ ws) = w ++ (32 ∷ listed ws)

unfoldable pub has_pending_command : List Text → Text → Bool
has_pending_command [] target = false
has_pending_command (t ∷ queue) target = text_eq t target || has_pending_command queue target

abbrev pub preview_of : Text → Text
preview_of content = if ltb 60 (length content) then take 57 content ++ codes "..." else content

abbrev pub action_message : ℕ → Text → Text → Message
action_message now user_id action = record {
  sender_id = user_id;
  content = codes "* " ++ (user_id ++ (32 ∷ action));
  timestamp_ms = now;
  kind = system;
  link_preview = none;
}

module _ {ℓ} {C : Type ℓ} where
  unfoldable pub quit_command : App C → App C
  quit_command a = tell requests_exit (tell stops_io a)

  -- `on_transport_disconnected` clears the handler's flag.
  unfoldable pub disconnect_command : ℕ → App C → App C
  unfolding push_system_msg
  disconnect_command now a =
      if a.net_connected
      then push_system_msg now (codes "Disconnected from server.") (record (tell stops_io a) {
        handler = record a.handler {
          authenticated = false;
          state = record a.handler.state { is_connected = false };
        };
      })
      else push_system_msg now (codes "Not connected.") a

  unfoldable pub names_command : ℕ → App C → App C
  unfolding push_system_msg
  names_command now a =
      let list = listed (online_users a.handler.state) in
      push_system_msg now (codes "Online: " ++ (if is_empty list then codes "(none)" else list)) a

  abbrev pub say_results : ℕ → List SearchResult → App C → App C
  say_results now [] a = a
  say_results now (r ∷ rs) a = say_results now rs (
      push_system_msg now
        (codes "  ["
          ++ (r.channel_id
              ++ (codes "] <" ++ (r.sender_id ++ (codes ">: " ++ preview_of r.content)))))
        a)

  unfoldable pub part_command : ℕ → App C → App C
  unfolding push_system_msg log_server_event send_command has_pending_command
  part_command now a =
      let ch = or_default [] (active_channel a.handler.state) in
      if is_empty ch || is_server_channel ch
      then push_system_msg now (codes "Cannot leave the server channel.") a
      else if has_pending_command a.pending_parts ch
      then log_server_event now (codes "part already pending for " ++ ch) true a
      else log_server_event now (codes "part requested for " ++ ch) false (record a {
        pending_parts = a.pending_parts ++ (ch ∷ []);
        handler = send_command (codes "part") (ch ∷ []) a.handler;
      })

  unfoldable pub join_command : ℕ → Text → App C → App C
  unfolding push_system_msg log_server_event send_command has_pending_command sanitize_channel_name
  join_command now raw_name a = elim (sanitize_channel_name raw_name) [
    | none ↦ push_system_msg now (codes "Invalid channel name. Use letters, numbers, ., - or _.") a
    | some target ↦
        if is_server_channel target
        then push_system_msg now (codes "`server` is a reserved internal tab.") a
        else if has_pending_command a.pending_joins target
        then log_server_event now (codes "join already pending for " ++ target) true a
        else log_server_event now (codes "join requested for " ++ target) false (record a {
          pending_joins = a.pending_joins ++ (target ∷ []);
          handler = send_command (codes "join") (target ∷ []) a.handler;
        })
  ]

  unfoldable pub mute_command : ℕ → App C → App C
  unfolding push_system_msg
  mute_command now a =
      let m = not a.handler.state.voice.muted in
      push_system_msg now (if m then codes "Muted." else codes "Unmuted.") (tell (sets_muted m) a)

  unfoldable pub deafen_command : ℕ → App C → App C
  unfolding push_system_msg
  deafen_command now a =
      let d = not a.handler.state.voice.deafened in
      push_system_msg now (if d then codes "Deafened." else codes "Undeafened.")
        (tell (sets_deafened d) a)

  unfoldable pub me_command : ℕ → List Text → App C → App C
  unfolding send_command
  me_command now args a =
      let action = spaced args in
      let ch = or_default (codes "#general") (active_channel a.handler.state) in
      let sent = send_command (codes "me") (action ∷ []) a.handler in
      record a {
        handler = record sent {
          state = push_message ch (action_message now a.user_id action) sent.state;
        };
      }

  unfoldable pub status_command : ℕ → App C → App C
  unfolding push_system_msg
  status_command now a =
      let b =
        push_system_msg now
          (codes "Connection: "
            ++ (if a.net_connected then codes "connected" else codes "disconnected"))
          a in
      let c =
        push_system_msg now
          (codes "Auth: "
            ++ (if a.handler.authenticated
                then codes "authenticated"
                else codes "not authenticated"))
          b in
      let d = push_system_msg now (codes "User: " ++ a.user_id) c in
      push_system_msg now
        (codes "Active channel: " ++ or_default (codes "(none)") (active_channel a.handler.state)) d

  unfoldable pub call_command : ℕ → Text → App C → App C
  unfolding push_system_msg
  call_command now peer a =
      push_system_msg now (codes "Calling " ++ (peer ++ codes "...")) (tell (calls_peer peer) a)

  unfoldable pub accept_command : ℕ → Text → App C → App C
  unfolding push_system_msg
  accept_command now peer a =
      push_system_msg now (codes "Accepted call from " ++ peer) (tell (accepts_call peer) a)

  unfoldable pub hangup_command : ℕ → App C → App C
  unfolding push_system_msg
  hangup_command now a = push_system_msg now (codes "Call ended.") (tell hangs_up a)

  unfoldable pub after_settings : ℕ → SettingsResult → App C → App C
  unfolding push_system_msg
  after_settings now saved a = push_system_msg now (codes "Settings saved.") (tell saves_config a)
  after_settings now cancelled a = push_system_msg now (codes "Settings cancelled.") a
  after_settings now logout a =
      tell stops_io (record (push_system_msg now (codes "Logging out...") a) { should_exit = true })

module _ {ℓ} {C : Type ℓ} (world : World C) where
  unfoldable pub version_command : ℕ → App C → App C
  unfolding push_system_msg
  version_command now a =
      push_system_msg now (codes "Server version: " ++ a.server_version)
        (push_system_msg now (codes "Client version: " ++ world.version) a)

  unfoldable pub open_settings : ℕ → App C → App C
  unfolding after_settings
  open_settings now a = after_settings now world.settings a

  -- The topics, if there are any.
  abbrev pub say_topics : ℕ → App C → App C
  say_topics now a =
      let list = listed (if world.help then world.help_topics else []) in
      if is_empty list then a else push_system_msg now (codes "Available topics: " ++ list) a

  abbrev pub help_text : Text → Option Text
  help_text topic = if world.help then world.help_get topic else none

  unfoldable pub help_command : ℕ → List Text → App C → App C
  unfolding push_system_msg
  help_command now [] a = elim (help_text (codes "help")) [
    | some content ↦ push_system_msg now content a
    | none ↦ say_topics now (push_system_msg now (codes "Usage: /help <topic>") a)
  ]
  help_command now (topic ∷ args) a = elim (help_text topic) [
    | some content ↦ push_system_msg now content a
    | none ↦
        say_topics now (push_system_msg now (codes "Topic '" ++ (topic ++ codes "' not found.")) a)
  ]

  unfoldable pub reload_help_command : ℕ → App C → App C
  unfolding push_system_msg
  reload_help_command now a =
      if world.help
      then push_system_msg now (codes "Help files reloaded.") (tell reloads_help a)
      else push_system_msg now (codes "Help system not initialized.") a

  unfoldable pub search_command : ℕ → List Text → App C → App C
  unfolding push_system_msg
  search_command now args a =
      let query = spaced args in
      let results = world.search_messages query in
      let told = push_system_msg now (codes "Search results for '" ++ (query ++ codes "':")) a in
      if world.store
      then if is_empty results
        then push_system_msg now (codes "  (no results)") told
        else say_results now results told
      else push_system_msg now (codes "Search not available (no database).") a

  unfoldable pub voice_command : ℕ → List Text → App C → App C
  unfolding push_system_msg
  voice_command now args a =
      let leave = push_system_msg now (codes "Left voice room.") (tell leaves_room a) in
      let join = λ (ch : Text).
        push_system_msg now (codes "Joining voice room: " ++ (ch ++ codes "..."))
          (tell (joins_room ch) a) in
      elim args [
        | [] ↦
            if world.in_voice
            then leave
            else join (or_default (codes "#general") (active_channel a.handler.state))
        | arg ∷ rest ↦ if text_eq arg (codes "leave") || world.in_voice then leave else join arg
      ]

  unfoldable pub trust_command : ℕ → Text → App C → App C
  unfolding push_system_msg
  trust_command now peer a =
      let told =
        push_system_msg now (codes "  " ++ world.safety_number peer)
          (push_system_msg now (codes "Safety number with " ++ (peer ++ codes ":")) a) in
      elim (world.peer_identity peer) [
        | none ↦ told
        | some identity ↦ tell (verifies peer identity) told
      ]

  unfoldable pub ptt_command : ℕ → App C → App C
  unfolding push_system_msg
  ptt_command now a =
      push_system_msg now (codes "Voice mode: " ++ world.voice_mode) (tell toggles_mode a)
