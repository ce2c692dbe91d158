-- ===== src/App/Submitted.antt =====
-- src/app.cpp: what the user enters keeps the requests well formed.
use ircord_client.Base.{
  if_kept, ℕ, true, List, [], ◌∷◌, ◌++◌, Text, codes, Bool-cases, Option-cases, inl, inr, drop,
}
use ircord_client.AppState.{AppState, Message, push_message}
use ircord_client.Command.{ParsedCommand, parse_command}
use ircord_client.Handler.{Engine, post_ui}
use ircord_client.App.Gate.{
  quit_command-wire, status_command-wire, names_command-wire, disconnect_command-wire,
  version_command-wire, open_settings-wire, help_command-wire, reload_help_command-wire,
  search_command-wire,
}
use ircord_client.App.{
  App, World, tell, fetches, leaves_room, joins_room, verifies, first_of, push_system_msg,
  push_system_msg_to_channel, persist_message, encrypt_and_send, fetch_all, send_to, send_chat,
  spaced, msg_command, voice_command, mute_command, deafen_command, trust_command, me_command,
  call_command, accept_command, hangup_command, ptt_command, server_command, handle_command,
  on_submit, local_message,
}
use ircord_client.App.Requests.{
  Asks, wire-Asks, told, logged, telling, part_command-Asks, join_command-Asks,
}

module _ {ℓ} {C : Type ℓ} (engine : Engine C) (world : World C) (now : ℕ) where
  encrypt_and_send-Asks :
      (active text : Text) (a : App C) → Asks a → Asks (encrypt_and_send engine world active text a)
  unfolding Asks encrypt_and_send
  encrypt_and_send-Asks active text a h =
      elim (Option-cases (engine.encrypt a.handler.crypto a.user_id active text).0) [
        | inl e ↦ elim (Bool-cases (world.needs_key a.handler.crypto active)) [
          | inl k ↦ rw (e, encrypt_and_send) (rw (k, encrypt_and_send) h)
          | inr k ↦ rw (e, encrypt_and_send) (rw (k, encrypt_and_send) h)
        ]
        | inr (env, e) ↦ elim (Bool-cases (world.needs_key a.handler.crypto active)) [
          | inl k ↦ rw (e, encrypt_and_send) (rw (k, encrypt_and_send) h)
          | inr k ↦ rw (e, encrypt_and_send) (rw (k, encrypt_and_send) h)
        ]
      ]

  persist_message-Asks :
      (channel_id : Text) (m : Message) (a : App C)
      → Asks a
      → Asks (persist_message world channel_id m a)
  unfolding Asks persist_message
  persist_message-Asks channel_id m a h = elim (Bool-cases world.store) [
    | inl e ↦ rw e h
    | inr e ↦ rw e h
  ]

  fetch_all-Asks :
      (active : Text) (urls : List Text) (a : App C)
      → Asks a
      → Asks (fetch_all engine world active urls a)
  unfolding Asks
  fetch_all-Asks active [] a h = h
  fetch_all-Asks active (url ∷ urls) a h =
      fetch_all-Asks active urls (tell (fetches active url) a) h

  -- The message on the screen changes no request.
  pub shown-Asks :
      (s : AppState) (a : App C)
      → Asks a
      → Asks (record a { handler = record a.handler { state = s } })
  unfolding Asks
  shown-Asks s a h = h

  send_to-Asks :
      (active text : Text) (a : App C) → Asks a → Asks (send_to engine world now active text a)
  unfolding send_to
  send_to-Asks active text a h =
      let msg = local_message now a.user_id text in
      let sent = encrypt_and_send-Asks active text _ (
        persist_message-Asks active msg _
          (shown-Asks (push_message active msg a.handler.state) a h)) in
      if_kept Asks world.previewer (fetch_all-Asks active (world.urls text) _ sent) sent

  send_chat-Asks : (text : Text) (a : App C) → Asks a → Asks (send_chat engine world now text a)
  unfolding send_chat
  send_chat-Asks text a h =
      if_kept Asks _
        (if_kept Asks _
          (logged now (codes "message blocked: authentication still in progress") true a h)
          (logged now (codes "message blocked: not connected") true a h))
        (if_kept Asks _ (told now (codes "No active channel.") a h) (
          if_kept Asks _
            (told now (codes "Cannot send messages here. Use /join #channel or /msg <user>.") a h)
            (send_to-Asks _ text a h)))

  voice_command-Asks :
      (args : List Text) (a : App C) → Asks a → Asks (voice_command world now args a)
  unfolding voice_command
  voice_command-Asks [] a h =
      if_kept Asks _ (told now _ _ (telling leaves_room a h))
        (told now _ _ (telling (joins_room _) a h))
  voice_command-Asks (arg ∷ args) a h =
      if_kept Asks _ (told now _ _ (telling leaves_room a h))
        (told now _ _ (telling (joins_room arg) a h))

  trust_command-Asks : (peer : Text) (a : App C) → Asks a → Asks (trust_command world now peer a)
  unfolding trust_command
  trust_command-Asks peer a h =
      let both = told now _ _ (told now (codes "Safety number with " ++ (peer ++ codes ":")) a h) in
      elim (Option-cases (world.peer_identity peer)) [
        | inl e ↦ rw (e, trust_command) both
        | inr (identity, e) ↦ rw (e, trust_command) (telling (verifies peer identity) _ both)
      ]

  me_command-Asks : (args : List Text) (a : App C) → Asks a → Asks (me_command now args a)
  unfolding Asks me_command
  me_command-Asks args a h = h

  mute_command-Asks : (a : App C) → Asks a → Asks (mute_command now a)
  unfolding Asks mute_command push_system_msg push_system_msg_to_channel post_ui
  mute_command-Asks a h = h

  deafen_command-Asks : (a : App C) → Asks a → Asks (deafen_command now a)
  unfolding Asks deafen_command push_system_msg push_system_msg_to_channel post_ui
  deafen_command-Asks a h = h

  call_command-Asks : (peer : Text) (a : App C) → Asks a → Asks (call_command now peer a)
  unfolding Asks call_command push_system_msg push_system_msg_to_channel post_ui
  call_command-Asks peer a h = h

  accept_command-Asks : (peer : Text) (a : App C) → Asks a → Asks (accept_command now peer a)
  unfolding Asks accept_command push_system_msg push_system_msg_to_channel post_ui
  accept_command-Asks peer a h = h

  hangup_command-Asks : (a : App C) → Asks a → Asks (hangup_command now a)
  unfolding Asks hangup_command push_system_msg push_system_msg_to_channel post_ui
  hangup_command-Asks a h = h

  ptt_command-Asks : (a : App C) → Asks a → Asks (ptt_command world now a)
  unfolding Asks ptt_command push_system_msg push_system_msg_to_channel post_ui
  ptt_command-Asks a h = h

  msg_command-Asks :
      (target : Text) (words : List Text) (a : App C)
      → Asks a
      → Asks (msg_command engine world now target words a)
  unfolding msg_command
  msg_command-Asks target words a h = send_chat-Asks (spaced words) _ (shown-Asks _ a h)

  server_command-Asks :
      (cmd : ParsedCommand) (a : App C) → Asks a → Asks (server_command engine world now cmd a)
  unfolding server_command
  server_command-Asks cmd a h =
      let arg = first_of cmd.args in
      if_kept Asks _ (part_command-Asks now a h) (
        if_kept Asks _ (join_command-Asks now arg a h) (
          if_kept Asks _ (msg_command-Asks arg (drop 1 cmd.args) a h) (
            if_kept Asks _ (call_command-Asks arg a h) (
              if_kept Asks _ (accept_command-Asks arg a h) (
                if_kept Asks _ (hangup_command-Asks a h) (
                  if_kept Asks _ (voice_command-Asks cmd.args a h) (
                    if_kept Asks _ (mute_command-Asks a h) (
                      if_kept Asks _ (deafen_command-Asks a h) (
                        if_kept Asks _ (ptt_command-Asks a h) (
                          if_kept Asks _ (trust_command-Asks arg a h) (
                            if_kept Asks _ (me_command-Asks cmd.args a h)
                              (told now (codes "Unknown command: " ++ cmd.name) a h))))))))))))

  handle_command-Asks :
      (cmd : ParsedCommand) (a : App C) → Asks a → Asks (handle_command engine world now cmd a)
  unfolding handle_command
  handle_command-Asks cmd a h = if_kept Asks _ (wire-Asks a _ (quit_command-wire a) h) (
      if_kept Asks _ (wire-Asks a _ (disconnect_command-wire now a) h) (
        if_kept Asks _ (wire-Asks a _ (version_command-wire world now a) h) (
          if_kept Asks _ (wire-Asks a _ (status_command-wire now a) h) (
            if_kept Asks _ (wire-Asks a _ (open_settings-wire world now a) h) (
              if_kept Asks _ (wire-Asks a _ (help_command-wire world now cmd.args a) h) (
                if_kept Asks _ (wire-Asks a _ (reload_help_command-wire world now a) h) (
                  if_kept Asks _ (told now (codes "(cleared)") a h) (
                    if_kept Asks _ (wire-Asks a _ (names_command-wire now a) h) (
                      if_kept Asks _ (wire-Asks a _ (search_command-wire world now cmd.args a) h) (
                        if_kept Asks _
                          (told now (codes "Not connected. Use /status to check connection state.")
                            a h)
                          (server_command-Asks cmd a h)))))))))))

  pub on_submit-Asks : (line : Text) (a : App C) → Asks a → Asks (on_submit engine world now line a)
  unfolding on_submit
  on_submit-Asks [] a h = h
  on_submit-Asks (c ∷ s) a h = elim (Option-cases (parse_command (c ∷ s))) [
    | inl e ↦
        rw (e, on_submit)
          (if_kept Asks _ (told now (codes "Unknown command: " ++ (c ∷ s)) a h)
            (send_chat-Asks (c ∷ s) a h))
    | inr (cmd, e) ↦
        rw (e, on_submit)
          (if_kept Asks _ (handle_command-Asks cmd a h) (send_chat-Asks (c ∷ s) a h))
  ]
