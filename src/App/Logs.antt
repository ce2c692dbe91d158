-- ===== src/App/Logs.antt =====
-- Messages of the application to the user and to the store: src/app.cpp, and `push_system_msg` of
-- src/ui/ui_manager.cpp.
use ircord_client.Base.{
  ℕ, ◌-◌, Bool, false, some, [], ◌∷◌, ◌++◌, if◌then◌else◌, is_empty, Text, codes,
}
use ircord_client.Base.Assoc.{or_default}
use ircord_client.Base.Decimal.{decimal}
use ircord_client.AppState.{Message, MessageType, chat, system, voice_event, active_channel}
use ircord_client.Handler.{Task, post_ui, shows_in, system_message, server}
use ircord_client.App.Types.{App, Call, saves_message, World}

-- `static_cast<int>(type)`
abbrev pub type_number : MessageType → ℕ
type_number chat = 0
type_number system = 1
type_number voice_event = 2

module _ {ℓ} {C : Type ℓ} where
  abbrev pub tell : Call → App C → App C
  tell call a = record a { calls = a.calls ++ (call ∷ []) }

  abbrev pub post : Task → App C → App C
  post task a = record a { handler = post_ui task a.handler }

  unfoldable pub push_system_msg_to_channel : ℕ → Text → Text → Bool → App C → App C
  unfolding post_ui
  push_system_msg_to_channel now channel_id txt activate_channel a =
      post
        (shows_in (if is_empty channel_id then server else channel_id) (system_message now txt)
          activate_channel)
        a

  unfoldable pub push_system_msg : ℕ → Text → App C → App C
  unfolding push_system_msg_to_channel
  push_system_msg now txt a =
      push_system_msg_to_channel now (or_default server (active_channel a.handler.state)) txt false
        a

  unfoldable pub log_server_event : ℕ → Text → Bool → App C → App C
  unfolding push_system_msg_to_channel
  log_server_event now text activate_server a =
      push_system_msg_to_channel now server text activate_server a

  -- `steady` is the steady clock in milliseconds.
  unfoldable pub trace_connection_phase : ℕ → ℕ → Text → Bool → Bool → App C → App C
  unfolding log_server_event
  trace_connection_phase now steady phase reset_attempt_timer activate_server a =
      let started = if reset_attempt_timer then steady else or_default steady a.attempt_started in
      log_server_event now (codes "[+" ++ (decimal (steady - started) ++ (codes "ms] " ++ phase)))
        activate_server (record a { attempt_started = some started })

  unfoldable pub persist_message : World C → Text → Message → App C → App C
  persist_message world channel_id msg a =
      if world.store
      then tell
          (saves_message (record {
            channel_id = channel_id;
            sender_id = msg.sender_id;
            content = msg.content;
            timestamp_ms = msg.timestamp_ms;
            kind = type_number msg.kind;
          }))
          a
      else a
