-- ===== src/App/Types.antt =====
-- The object of src/app.hpp: the message handler with the shared state that both work on, the commands
-- that wait for an answer, and what the application told its other parts.
use ircord_client.Base.{ℕ, Bool, Option, List, Text}
use ircord_client.AppState.{SearchResult}
use ircord_client.Handler.{Handler, ChatEnvelope}

pub record MessageRow : Type 0 where
  pub channel_id : Text
  pub sender_id : Text
  pub content : Text
  pub timestamp_ms : ℕ
  pub kind : ℕ

-- What the application tells the I/O thread, the screen, the voice engine, the store, the network
-- client and the link previewer. `sends_chat` and `sends_hello` go past the message handler.
pub data Call : Type 0 where
  stops_io requests_exit reloads_help hangs_up leaves_room toggles_mode saves_config : Call
  calls_peer accepts_call joins_room : Text → Call
  sets_muted sets_deafened : Bool → Call
  verifies : Text → Text → Call
  saves_message : MessageRow → Call
  sends_chat : ChatEnvelope → Call
  sends_hello : Text → ℕ → Call
  fetches : Text → Text → Call

-- How the settings screen was left.
pub data SettingsResult : Type 0 where
  saved cancelled logout : SettingsResult

-- The answers of the parts that are not modelled, at the time of a call. `help` and `store` say
-- whether these objects exist; `urls` are the matches of the regular expression in a text.
pub record World {ℓ} (C : Type ℓ) : Type ℓ where
  pub version : Text
  pub help : Bool
  pub help_get : Text → Option Text
  pub help_topics : List Text
  pub store : Bool
  pub search_messages : Text → List SearchResult
  pub in_voice : Bool
  pub voice_mode : Text
  pub safety_number : Text → Text
  pub peer_identity : Text → Option Text
  pub previewer : Bool
  pub urls : Text → List Text
  pub needs_key : C → Text → Bool
  pub settings : SettingsResult

pub record App {ℓ} (C : Type ℓ) : Type ℓ where
  pub handler : Handler C
  pub user_id : Text
  pub server_version : Text
  pub net_connected : Bool
  pub pending_joins : List Text
  pub pending_parts : List Text
  pub attempt_started : Option ℕ
  pub should_exit : Bool
  pub calls : List Call

-- A response of the server to a command.
pub record CommandResponse : Type 0 where
  pub command : Text
  pub success : Bool
  pub message : Text
