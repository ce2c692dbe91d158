-- ===== src/App.antt =====
-- src/app.cpp: what the application does with a line, a command and a response.
mod Types
mod Names
mod Logs
mod Chat
mod Commands
mod Responses
mod Switching
pub mod Gate
pub mod Sanitize
pub mod Requests
pub mod Submitted
pub mod Answered
pub mod Matching
pub mod UserList
pub mod Joining
pub mod Delivered
mod Tests
unfoldable pub use Types.*
unfoldable pub use Names.*
unfoldable pub use Logs.*
unfoldable pub use Chat.*
unfoldable pub use Commands.*
unfoldable pub use Responses.*
unfoldable pub use Switching.*
use ircord_client.Base.{
  ℕ, Bool, true, false, not, ◌||◌, ◌&&◌, Option, none, some, List, [], ◌∷◌, ◌++◌, if◌then◌else◌,
  is_empty, Text, codes, text_eq, ◌==◌, leb, length, drop,
}
use ircord_client.AppState.{ChannelState, ensure_channel, set_active_channel}
use ircord_client.Base.Assoc.{Assoc}
use ircord_client.Command.{ParsedCommand, parse_command}
use ircord_client.Handler.{Engine, Incoming, Step, step, steps}

abbrev pub first_of : List Text → Text
first_of [] = []
first_of (x ∷ xs) = x

module _ {ℓ} {C : Type ℓ} (engine : Engine C) (world : World C) where
  -- The text goes to the channel of the addressee, which becomes the active one.
  unfoldable pub msg_command : ℕ → Text → List Text → App C → App C
  unfolding send_chat
  msg_command now target words a = send_chat engine world now (spaced words) (record a {
    handler = record a.handler {
      state = set_active_channel target (ensure_channel target a.handler.state);
    };
  })

  -- The commands for which the connection must be authenticated.
  unfoldable pub server_command : ℕ → ParsedCommand → App C → App C
  unfolding push_system_msg part_command join_command msg_command voice_command mute_command
      deafen_command trust_command me_command call_command accept_command hangup_command ptt_command
  server_command now cmd a =
      let is_ = λ (name : Text). text_eq cmd.name name in
      let with_arg = not (is_empty cmd.args) in
      let arg = first_of cmd.args in
      if is_ (codes "/part")
      then part_command now a
      else if is_ (codes "/join") && with_arg
      then join_command now arg a
      else if is_ (codes "/msg") && leb 2 (length cmd.args)
      then msg_command now arg (drop 1 cmd.args) a
      else if is_ (codes "/call") && with_arg
      then call_command now arg a
      else if is_ (codes "/accept") && with_arg
      then accept_command now arg a
      else if is_ (codes "/hangup")
      then hangup_command now a
      else if is_ (codes "/voice")
      then voice_command world now cmd.args a
      else if is_ (codes "/mute")
      then mute_command now a
      else if is_ (codes "/deafen")
      then deafen_command now a
      else if is_ (codes "/ptt")
      then ptt_command world now a
      else if is_ (codes "/trust") && with_arg
      then trust_command world now arg a
      else if is_ (codes "/me") && with_arg
      then me_command now cmd.args a
      else push_system_msg now (codes "Unknown command: " ++ cmd.name) a

  unfoldable pub handle_command : ℕ → ParsedCommand → App C → App C
  unfolding push_system_msg quit_command disconnect_command version_command status_command
      open_settings help_command reload_help_command names_command search_command server_command
  handle_command now cmd a =
      let is_ = λ (name : Text). text_eq cmd.name name in
      if is_ (codes "/quit") || is_ (codes "/exit")
      then quit_command a
      else if is_ (codes "/disconnect")
      then disconnect_command now a
      else if is_ (codes "/version")
      then version_command world now a
      else if is_ (codes "/status")
      then status_command now a
      else if is_ (codes "/settings")
      then open_settings world now a
      else if is_ (codes "/help")
      then help_command world now cmd.args a
      else if is_ (codes "/reload_help")
      then reload_help_command world now a
      else if is_ (codes "/clear")
      then push_system_msg now (codes "(cleared)") a
      else if is_ (codes "/names")
      then names_command now a
      else if is_ (codes "/search") && not (is_empty cmd.args)
      then search_command world now cmd.args a
      else if not a.handler.authenticated
      then push_system_msg now (codes "Not connected. Use /status to check connection state.") a
      else server_command now cmd a

  unfoldable pub on_submit : ℕ → Text → App C → App C
  unfolding handle_command send_chat push_system_msg
  on_submit now [] a = a
  on_submit now (c ∷ s) a =
      if c == 47
      then elim (parse_command (c ∷ s)) [
        | some cmd ↦ handle_command now cmd a
        | none ↦ push_system_msg now (codes "Unknown command: " ++ (c ∷ s)) a
      ]
      else send_chat engine world now (c ∷ s) a

-- The callbacks of the network client that `init` sets.
module _ {ℓ} {C : Type ℓ} where
  unfoldable pub on_connected : ℕ → ℕ → Text → App C → App C
  unfolding trace_connection_phase
  on_connected now steady version a =
      trace_connection_phase now steady (codes "HELLO sent") false false
        (tell (sends_hello (codes "ircord-client/" ++ version) 1) a)

  unfoldable pub clear_pending_channel_commands : App C → App C
  clear_pending_channel_commands a = record a { pending_joins = []; pending_parts = [] }

  unfoldable pub on_disconnected : ℕ → Text → App C → App C
  unfolding clear_pending_channel_commands log_server_event
  on_disconnected now reason a = log_server_event now (codes "Disconnected: " ++ reason) true (
      clear_pending_channel_commands (record a {
        handler = record a.handler {
          authenticated = false;
          state = record a.handler.state { is_connected = false };
        };
      }))

-- What happens to the application: the user submits a line or switches the channel, the server answers
-- a command, the transport opens or is lost, and what happens to the handler alone.
pub data Event : Type 0 where
  submits : Text → Event
  switches : Delta → Event
  switches_to : ℕ → Event
  answers : CommandResponse → Event
  transport_opens : ℕ → Event
  disconnects_for : Text → Event
  handles : Step → Event

module _ {ℓ} {C : Type ℓ} (engine : Engine C) (world : World C) (password : Text)
    (first : Assoc ChannelState → Text) where
  -- An exception leaves `handle_command_response` at the end of its work.
  unfoldable pub on_event : ℕ → Event → App C → App C
  unfolding on_submit switch_channel switch_to_channel_by_index handle_command_response on_connected
      on_disconnected
  on_event now (submits line) a = on_submit engine world now line a
  on_event now (switches delta) a = switch_channel now delta a
  on_event now (switches_to index) a = switch_to_channel_by_index now index a
  on_event now (answers response) a = (handle_command_response first now response a).0
  on_event now (transport_opens steady) a = on_connected now steady world.version a
  on_event now (disconnects_for reason) a = on_disconnected now reason a
  on_event now (handles s) a = record a { handler = step engine a.user_id password now s a.handler }

  abbrev pub on_events : List (ℕ × Event) → App C → App C
  on_events [] a = a
  on_events ((now, e) ∷ es) a = on_events es (on_event now e a)
