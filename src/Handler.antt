-- ===== src/Handler.antt =====
-- src/net/message_handler.cpp: what each inbound envelope does. `now` is the clock in milliseconds.
mod Types
mod Outbound
mod Tasks
pub mod Ordering
pub mod Pending
pub mod Sequence
mod Tests
unfoldable pub use Types.*
unfoldable pub use Outbound.*
unfoldable pub use Tasks.*
use ircord_client.Base.{
  ℕ, zero, suc, ◌+◌, Bool, true, false, not, ◌&&◌, Option, none, some, List, [], ◌∷◌, ◌++◌, ◌==◌,
  ltb, if◌then◌else◌, length, is_empty, Text, codes, text_eq,
}
use ircord_client.Base.Assoc.{Assoc, lookup, insert, erase, or_default}
use ircord_client.Base.Decimal.{decimal}
use ircord_client.AppState.{
  AppState, Message, PresenceStatus, online, away, offline, chat, system, ensure_channel,
  push_message, set_presence, channel_user, add_channel_user, user_from,
}

abbrev pub status_of : WireStatus → PresenceStatus
status_of wire_online = online
status_of wire_away = away
status_of wire_offline = offline

abbrev pub is_channel : Text → Bool
is_channel [] = false
is_channel (c ∷ s) = c == b'#'

-- The channel of a chat: its recipient, or else its sender.
abbrev pub channel_of : ChatEnvelope → Text
channel_of c = if is_empty c.recipient_id then c.sender_id else c.recipient_id

-- A time stamp of 0 is replaced by the clock.
abbrev pub message_of : ℕ → ℕ → ChatEnvelope → Text → Message
message_of now stamp c text = record {
  sender_id = c.sender_id;
  content = text;
  timestamp_ms = if stamp == 0 then now else stamp;
  kind = chat;
  link_preview = none;
}

-- A sender who is not in the list of the channel is added to it.
unfoldable pub list_sender : Text → Text → AppState → AppState
list_sender channel_id sender s =
    if is_channel channel_id && not (is_empty sender)
    then elim (channel_user channel_id sender s) [
      | some u ↦ s
      | none ↦ add_channel_user channel_id (user_from sender online) s
    ]
    else s

module _ {ℓ} {C : Type ℓ} where
  unfoldable pub handle_auth_fail : ℕ → Option Text → Handler C → Handler C
  unfolding push_system
  handle_auth_fail now detail h =
      let text : Text = elim detail [
        | none ↦ codes "Authentication failed! Check your identity key."
        | some d ↦
            if is_empty d
            then codes "Authentication failed! Check your identity key."
            else codes "Authentication failed: " ++ d
      ] in
      let told = push_system now text (record h { authenticated = false }) in
      record told { state = record told.state { is_connected = false } }

  unfoldable pub handle_presence : Option (Text × WireStatus) → Handler C → Handler C
  unfolding post_ui
  handle_presence none h = h
  handle_presence (some (uid, status)) h = post_ui (shows_presence uid (status_of status)) h

  unfoldable pub handle_error : ℕ → Option Text → Handler C → Handler C
  unfolding push_system
  handle_error now none h = h
  handle_error now (some text) h = push_system now (codes "Server error: " ++ text) h

  unfoldable pub handle_command_response : ℕ → Option (Text × Text) → Handler C → Handler C
  unfolding push_system
  handle_command_response now none h = h
  handle_command_response now (some (name, text)) h =
      if h.has_response_fn
      then record h { responses = h.responses ++ ((name, text) ∷ []) }
      else push_system now (codes "Command " ++ (name ++ (codes ": " ++ text))) h

  unfoldable pub handle_voice_room_join : Option (Text × Text) → Handler C → Handler C
  unfolding post_ui tell_voice
  handle_voice_room_join none h = h
  handle_voice_room_join (some (channel_id, user_id)) h =
      post_ui (joined_voice channel_id user_id) (tell_voice (on_peer_joined user_id) h)

  unfoldable pub handle_voice_room_leave : Option (Text × Text) → Handler C → Handler C
  unfolding post_ui tell_voice
  handle_voice_room_leave none h = h
  handle_voice_room_leave (some (channel_id, user_id)) h =
      post_ui (left_voice channel_id user_id) (tell_voice (on_peer_left user_id) h)

-- The configuration is the user's name and password.
module _ {ℓ} {C : Type ℓ} (engine : Engine C) (user_id password : Text) where
  unfoldable pub handle_auth_challenge : Option Text → Handler C → Handler C
  unfolding send_envelope
  handle_auth_challenge none h = h
  handle_auth_challenge (some nonce) h =
      send_envelope (auth_response user_id (engine.sign_challenge h.crypto nonce) password) h

  unfoldable pub on_auth_ok : Handler C → Handler C
  unfolding send_envelope
  on_auth_ok h =
      let (keys, crypto) = engine.prepare_key_upload h.crypto in
      send_envelope (key_upload keys) (record h { crypto = crypto })

  unfoldable pub handle_auth_ok : ℕ → Handler C → Handler C
  unfolding push_system on_auth_ok
  handle_auth_ok now h =
      let told =
        push_system now (codes "Authenticated as " ++ user_id)
          (record h { authenticated = true }) in
      on_auth_ok (record told { state = record told.state { is_connected = true } })

  -- The text of a chat, and the engine behind it.
  unfoldable pub plaintext_of : C → ChatEnvelope → Text × C
  plaintext_of crypto c =
      if c.ciphertext_type == 0
      then (c.ciphertext, crypto)
      else let (result, after) = engine.decrypt crypto c in
        (or_default (codes "[decryption failed]") result, after)

  unfoldable pub handle_chat : ℕ → ℕ → Option ChatEnvelope → Handler C → Handler C
  unfolding plaintext_of list_sender post_ui
  handle_chat now stamp none h = h
  handle_chat now stamp (some c) h =
      let (text, crypto) = plaintext_of h.crypto c in
      let message = message_of now stamp c text in
      post_ui (pushes_to (channel_of c) message) (record h {
        crypto = crypto;
        persisted =
            if h.has_persist then h.persisted ++ ((channel_of c, message) ∷ []) else h.persisted;
        state = list_sender (channel_of c) c.sender_id (ensure_channel (channel_of c) h.state);
      })

  -- The loop over the queued texts: the handler behind it, and how many failed.
  unfoldable pub flush : Text → List Text → Handler C → Handler C × ℕ
  unfolding send_envelope
  flush recipient [] h = (h, 0)
  flush recipient (p ∷ ps) h =
      let (made, crypto) = engine.encrypt h.crypto user_id recipient p in
      let tried = record h { crypto = crypto } in
      let sending : Handler C = elim made [
        | none ↦ tried
        | some c ↦ send_envelope (chat_envelope c) tried
      ] in
      let failed : ℕ = elim made [ none ↦ 1 | some c ↦ 0 ] in
      let (after, more) = flush recipient ps sending in (after, failed + more)

  unfoldable pub report_failed : ℕ → Text → Handler C × ℕ → Handler C
  unfolding push_system
  report_failed now recipient (h, failed) =
      if ltb 0 failed
      then push_system now
          (codes "Failed to send " ++ (decimal failed ++ (codes " message(s) to " ++ recipient))) h
      else h

  unfoldable pub handle_key_bundle : ℕ → Option KeyBundle → Handler C → Handler C
  unfolding flush report_failed
  handle_key_bundle now none h = h
  handle_key_bundle now (some b) h =
      if is_empty b.recipient_for
      then h
      else let ready = record h { crypto = engine.on_key_bundle b b.recipient_for h.crypto } in
        elim (lookup b.recipient_for h.pending) [
          | none ↦ ready
          | some queued ↦ report_failed now b.recipient_for (
              flush b.recipient_for queued
                (record ready { pending = erase b.recipient_for h.pending }))
        ]

  unfoldable pub handle_voice_room_state : Option (Text × List Text) → Handler C → Handler C
  unfolding post_ui tell_voice
  handle_voice_room_state none h = h
  handle_voice_room_state (some (channel_id, participants)) h =
      post_ui (enters_room channel_id participants)
        (tell_voice (on_room_joined channel_id (without user_id participants)) h)

  unfoldable pub dispatch : ℕ → Incoming → Handler C → Handler C
  unfolding handle_auth_challenge handle_auth_ok handle_auth_fail handle_chat handle_key_bundle
      handle_presence handle_voice_room_join handle_voice_room_leave handle_voice_room_state
      handle_ping handle_error handle_command_response
  dispatch now (auth_challenge nonce) h = handle_auth_challenge nonce h
  dispatch now auth_ok h = handle_auth_ok now h
  dispatch now (auth_fail detail) h = handle_auth_fail now detail h
  dispatch now (chat_comes stamp c) h = handle_chat now stamp c h
  dispatch now (bundle_comes b) h = handle_key_bundle now b h
  dispatch now (presence_comes p) h = handle_presence p h
  dispatch now voice_signal h = h
  dispatch now (room_join j) h = handle_voice_room_join j h
  dispatch now (room_leave l) h = handle_voice_room_leave l h
  dispatch now (room_state r) h = handle_voice_room_state r h
  dispatch now ping h = handle_ping h
  dispatch now (error_message e) h = handle_error now e h
  dispatch now (command_response r) h = handle_command_response now r h
  dispatch now unknown h = h

  -- What happens to the handler, each a whole call: an envelope comes, the application asks for a key
  -- or sends a command, a timer ends, the render thread drains the queue, the transport is lost. The
  -- code does not lock `next_seq_` and `pending_sends_`, so the steps are those of runs in which no two
  -- calls overlap in time.
  unfoldable pub step : ℕ → Step → Handler C → Handler C
  unfolding dispatch
  step now (comes e) h = dispatch now e h
  step now (asks recipient text) h = request_key recipient text h
  step now (commands name args) h = send_command name args h
  step now (greets version) h = send_hello version h
  step now (times_out recipient) h = key_timeout now recipient h
  step now drains h = drain_ui_queue now h
  step now disconnects h = record h { authenticated = false }

  abbrev pub steps : List (ℕ × Step) → Handler C → Handler C
  steps [] h = h
  steps ((now, s) ∷ ss) h = steps ss (step now s h)
