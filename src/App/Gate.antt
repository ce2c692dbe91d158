-- ===== src/App/Gate.antt =====
-- src/app.cpp: without an authenticated connection nothing goes to the server.
use ircord_client.Base.{
  if_kept, ℕ, ◌≡◌, refl, ◌∙◌, ap, Bool, true, false, not, ◌++◌, List, [], ◌∷◌, if◌then◌else◌,
  is_empty, Text, codes, ◌==◌, Bool-cases, Option-cases, inl, inr,
}
use ircord_client.Base.Assoc.{Assoc}
use ircord_client.AppState.{SearchResult}
use ircord_client.Command.{ParsedCommand, parse_command}
use ircord_client.Handler.{Engine, Outgoing, post_ui}
use ircord_client.App.{
  Call, tell, sends_chat, sends_hello, calls_peer, accepts_call, hangs_up, joins_room, leaves_room,
  fetches, stops_io, requests_exit, saves_config, reloads_help, App, World, SettingsResult, saved,
  cancelled, logout, spaced, listed, help_text, push_system_msg, push_system_msg_to_channel,
  log_server_event, say_results, say_topics, quit_command, disconnect_command, version_command,
  status_command, after_settings, open_settings, help_command, reload_help_command, names_command,
  search_command, handle_command, server_command, send_chat, on_submit,
}

-- A call that goes to the server, to another user or to a web page.
abbrev pub is_outward : Call → Bool
is_outward (sends_chat e) = true
is_outward (sends_hello version now) = true
is_outward (calls_peer peer) = true
is_outward (accepts_call peer) = true
is_outward hangs_up = true
is_outward (joins_room id) = true
is_outward leaves_room = true
is_outward (fetches channel url) = true
is_outward _ = false

abbrev pub outward : List Call → List Call
outward [] = []
outward (call ∷ cs) = let rest = outward cs in if is_outward call then call ∷ rest else rest

-- What the application wants of the world outside: what the handler sent, the texts that wait for a
-- key, the requests to join and to leave a channel, and the calls that go out past the handler.
unfoldable pub wire {ℓ} :
    {C : Type ℓ}
    → App C
    → List (ℕ × Outgoing) × Assoc (List Text) × List Text × List Text × List Call
wire a = (a.handler.sent, a.handler.pending, a.pending_joins, a.pending_parts, outward a.calls)

outward-inward :
    (call : Call) (cs : List Call)
    → is_outward call ≡ false
    → outward (cs ++ (call ∷ [])) ≡ outward cs
outward-inward call [] h = rw h refl
outward-inward call (c ∷ cs) h = elim (Bool-cases (is_outward c)) [
  | inl e ↦ rw e (ap (λ l. c ∷ l) (outward-inward call cs h))
  | inr e ↦ rw e (outward-inward call cs h)
]

module _ {ℓ} {C : Type ℓ} where
  pub push_system_msg-wire :
      (now : ℕ) (text : Text) (a : App C) → wire (push_system_msg now text a) ≡ wire a
  unfolding wire push_system_msg push_system_msg_to_channel post_ui
  push_system_msg-wire now text a = refl

  tell-wire : (call : Call) (a : App C) → is_outward call ≡ false → wire (tell call a) ≡ wire a
  unfolding wire
  tell-wire call a h =
      ap (λ l. (a.handler.sent, a.handler.pending, a.pending_joins, a.pending_parts, l))
        (outward-inward call a.calls h)

  pub quit_command-wire : (a : App C) → wire (quit_command a) ≡ wire a
  unfolding quit_command
  quit_command-wire a = tell-wire requests_exit (tell stops_io a) refl ∙ tell-wire stops_io a refl

  pub status_command-wire : (now : ℕ) (a : App C) → wire (status_command now a) ≡ wire a
  unfolding wire status_command push_system_msg push_system_msg_to_channel post_ui
  status_command-wire now a = refl

  pub names_command-wire : (now : ℕ) (a : App C) → wire (names_command now a) ≡ wire a
  unfolding wire names_command push_system_msg push_system_msg_to_channel post_ui
  names_command-wire now a = refl

  pub say_results-wire :
      (now : ℕ) (rs : List SearchResult) (a : App C) → wire (say_results now rs a) ≡ wire a
  unfolding wire push_system_msg push_system_msg_to_channel post_ui
  say_results-wire now [] a = refl
  say_results-wire now (r ∷ rs) a = say_results-wire now rs _

  -- The commands that need no connection.
  pub disconnect_command-wire : (now : ℕ) (a : App C) → wire (disconnect_command now a) ≡ wire a
  unfolding wire disconnect_command push_system_msg push_system_msg_to_channel post_ui
  disconnect_command-wire now a = elim (Bool-cases a.net_connected) [
    | inl e ↦ rw e (tell-wire stops_io a refl)
    | inr e ↦ rw e refl
  ]

  pub after_settings-wire :
      (now : ℕ) (r : SettingsResult) (a : App C) → wire (after_settings now r a) ≡ wire a
  unfolding wire after_settings push_system_msg push_system_msg_to_channel post_ui
  after_settings-wire now saved a = tell-wire saves_config a refl
  after_settings-wire now cancelled a = refl
  after_settings-wire now logout a = tell-wire stops_io a refl

module _ {ℓ} {C : Type ℓ} (world : World C) where
  pub version_command-wire : (now : ℕ) (a : App C) → wire (version_command world now a) ≡ wire a
  unfolding wire version_command push_system_msg push_system_msg_to_channel post_ui
  version_command-wire now a = refl

  pub say_topics-wire : (now : ℕ) (a : App C) → wire (say_topics world now a) ≡ wire a
  unfolding wire push_system_msg push_system_msg_to_channel post_ui
  say_topics-wire now a =
      elim (Bool-cases (is_empty (listed (if world.help then world.help_topics else [])))) [
        | inl e ↦ rw e refl
        | inr e ↦ rw e refl
      ]

  pub open_settings-wire : (now : ℕ) (a : App C) → wire (open_settings world now a) ≡ wire a
  unfolding wire open_settings
  open_settings-wire now a = after_settings-wire now world.settings a

  pub help_command-wire :
      (now : ℕ) (args : List Text) (a : App C) → wire (help_command world now args a) ≡ wire a
  unfolding wire help_command push_system_msg push_system_msg_to_channel post_ui
  help_command-wire now [] a = elim (Option-cases (help_text world (codes "help"))) [
    | inl e ↦ rw (e, help_command) (say_topics-wire now _)
    | inr (t, e) ↦ rw (e, help_command) refl
  ]
  help_command-wire now (topic ∷ args) a = elim (Option-cases (help_text world topic)) [
    | inl e ↦ rw (e, help_command) (say_topics-wire now _)
    | inr (t, e) ↦ rw (e, help_command) refl
  ]

  pub reload_help_command-wire :
      (now : ℕ) (a : App C) → wire (reload_help_command world now a) ≡ wire a
  unfolding wire reload_help_command push_system_msg push_system_msg_to_channel post_ui
  reload_help_command-wire now a = elim (Bool-cases world.help) [
    | inl e ↦ rw e (tell-wire reloads_help a refl)
    | inr e ↦ rw e refl
  ]

  pub search_command-wire :
      (now : ℕ) (args : List Text) (a : App C) → wire (search_command world now args a) ≡ wire a
  unfolding wire search_command push_system_msg push_system_msg_to_channel post_ui
  search_command-wire now args a = elim (Bool-cases world.store) [
    | inl e ↦ elim (Bool-cases (is_empty (world.search_messages (spaced args)))) [
      | inl none_found ↦ rw (e, none_found) refl
      | inr found ↦ rw (e, found) (say_results-wire now (world.search_messages (spaced args)) _)
    ]
    | inr e ↦ rw e refl
  ]

module _ {ℓ} {C : Type ℓ} (engine : Engine C) (world : World C) (now : ℕ) where
  pub gate-wire :
      (cmd : ParsedCommand) (a : App C)
      → a.handler.authenticated ≡ false
      → wire (
          if not a.handler.authenticated
          then push_system_msg now (codes "Not connected. Use /status to check connection state.") a
          else server_command engine world now cmd a)
        ≡ wire a
  unfolding wire push_system_msg push_system_msg_to_channel post_ui
  gate-wire cmd a h = rw h refl

  pub handle_command-wire :
      (cmd : ParsedCommand) (a : App C)
      → a.handler.authenticated ≡ false
      → wire (handle_command engine world now cmd a) ≡ wire a
  unfolding handle_command
  handle_command-wire cmd a h =
      let kept = λ (b : App C). wire b ≡ wire a in
      if_kept kept _ (quit_command-wire a) (
        if_kept kept _ (disconnect_command-wire now a) (
          if_kept kept _ (version_command-wire world now a) (
            if_kept kept _ (status_command-wire now a) (
              if_kept kept _ (open_settings-wire world now a) (
                if_kept kept _ (help_command-wire world now cmd.args a) (
                  if_kept kept _ (reload_help_command-wire world now a) (
                    if_kept kept _ (push_system_msg-wire now (codes "(cleared)") a) (
                      if_kept kept _ (names_command-wire now a) (
                        if_kept kept _ (search_command-wire world now cmd.args a)
                          (gate-wire cmd a h))))))))))

  pub send_chat-wire :
      (text : Text) (a : App C)
      → a.handler.authenticated ≡ false
      → wire (send_chat engine world now text a) ≡ wire a
  unfolding wire send_chat log_server_event push_system_msg_to_channel post_ui
  send_chat-wire text a h = elim (Bool-cases a.net_connected) [
    | inl e ↦ rw (h, e) refl
    | inr e ↦ rw (h, e) refl
  ]

  -- While the connection is not authenticated, nothing that the user enters sends anything, waits for
  -- a key, asks to join or to leave a channel, sends a chat or a hello past the handler, calls or
  -- answers a user, hangs up, joins or leaves a voice room, or fetches a page.
  pub on_submit-wire :
      (line : Text) (a : App C)
      → a.handler.authenticated ≡ false
      → wire (on_submit engine world now line a) ≡ wire a
  unfolding wire on_submit push_system_msg push_system_msg_to_channel post_ui
  on_submit-wire [] a h = refl
  on_submit-wire (c ∷ s) a h = elim (Bool-cases (c == 47)) [
    | inl slash ↦ elim (Option-cases (parse_command (c ∷ s))) [
      | inl e ↦ rw (slash, on_submit) (rw (e, on_submit) refl)
      | inr (cmd, e) ↦ rw (slash, on_submit) (rw (e, on_submit) (handle_command-wire cmd a h))
    ]
    | inr other ↦ rw (other, on_submit) (send_chat-wire (c ∷ s) a h)
  ]
