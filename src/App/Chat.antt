-- ===== src/App/Chat.antt =====
-- `send_chat` of src/app.cpp.
use ircord_client.Base.{
  ℕ, true, not, none, some, List, [], ◌∷◌, if◌then◌else◌, is_empty, Text, codes,
}
use ircord_client.Base.Assoc.{or_default}
use ircord_client.AppState.{Message, chat, active_channel, push_message}
use ircord_client.Handler.{Engine, request_key}
use ircord_client.App.Types.{App, World, sends_chat, fetches}
use ircord_client.App.Names.{canonical_channel_id, is_server_channel}
use ircord_client.App.Logs.{tell, push_system_msg, log_server_event, persist_message}

abbrev pub local_message : ℕ → Text → Text → Message
local_message now user_id text = record {
  sender_id = user_id;
  content = text;
  timestamp_ms = now;
  kind = chat;
  link_preview = none;
}

module _ {ℓ} {C : Type ℓ} (engine : Engine C) (world : World C) where
  -- `crypto_->encrypt` calls back for a key, and gives an envelope or none.
  unfoldable pub encrypt_and_send : Text → Text → App C → App C
  unfolding request_key
  encrypt_and_send active text a =
      let asked =
        if world.needs_key a.handler.crypto active
        then record a { handler = request_key active text a.handler }
        else a in
      let (env, after) = engine.encrypt a.handler.crypto a.user_id active text in
      let used = record asked { handler = record asked.handler { crypto = after } } in
      elim env [ none ↦ used | some e ↦ tell (sends_chat e) used ]

  -- The loop over the links of a text.
  abbrev pub fetch_all : Text → List Text → App C → App C
  fetch_all active [] a = a
  fetch_all active (url ∷ urls) a = fetch_all active urls (tell (fetches active url) a)

  -- A text that may be sent to the channel `active`.
  unfoldable pub send_to : ℕ → Text → Text → App C → App C
  unfolding persist_message encrypt_and_send
  send_to now active text a =
      let msg = local_message now a.user_id text in
      let shown = record a {
        handler = record a.handler { state = push_message active msg a.handler.state };
      } in
      let sent = encrypt_and_send active text (persist_message world active msg shown) in
      if world.previewer then fetch_all active (world.urls text) sent else sent

  unfoldable pub send_chat : ℕ → Text → App C → App C
  unfolding log_server_event push_system_msg send_to
  send_chat now text a =
      let active = canonical_channel_id (or_default [] (active_channel a.handler.state)) in
      if not a.handler.authenticated
      then if a.net_connected
        then log_server_event now (codes "message blocked: authentication still in progress") true a
        else log_server_event now (codes "message blocked: not connected") true a
      else if is_empty active
      then push_system_msg now (codes "No active channel.") a
      else if is_server_channel active
      then push_system_msg now
          (codes "Cannot send messages here. Use /join #channel or /msg <user>.") a
      else send_to now active text a
