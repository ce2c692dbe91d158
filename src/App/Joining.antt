-- ===== src/App/Joining.antt =====
-- src/app.cpp with src/net/message_handler.cpp and src/state/app_state.cpp: from `/join` to the channel.
use ircord_client.Base.{
  ℕ, ◌≡◌, refl, ◌∙◌, ap, true, false, some, none, [], ◌∷◌, Text, codes, is_empty, text_eq,
  text_eq_refl, if◌then◌else◌, Option, List, ◌++◌, Bool-cases, inl, inr,
}
use ircord_client.Base.Assoc.{
  Assoc, contains, is_some, map_option, lookup, lookup-insert, lookup-adjust,
}
use ircord_client.AppState.{
  ChannelState, AppState, active_channel, ensure_channel, set_active_channel, without_unread,
}
use ircord_client.Handler.{
  Handler, Task, drain_ui_queue, run_tasks, run_task, post_ui, enters_channel, send_command,
  send_envelope, command,
}
use ircord_client.App.Matching.{IsJoin, logged-entered}
use ircord_client.App.Requests.{target_name}
use ircord_client.App.Sanitize.{IsChannelName}
use ircord_client.App.{
  App, CommandResponse, sanitize_channel_name, is_server_channel, has_pending_command, join_command,
  handle_command_response, join_response, report_response, log_server_event,
  push_system_msg_to_channel,
}

-- A channel that was entered is there and active.
entered-contains :
    (id : Text) (s : AppState)
    → contains id (set_active_channel id (ensure_channel id s)).channels ≡ true
unfolding set_active_channel ensure_channel
entered-contains id s = elim (Bool-cases (contains id s.channels)) [
  | inl there ↦ rw (there, lookup-adjust, text_eq_refl id) (kept_there (lookup id s.channels) there)
  | inr new ↦ rw (new, lookup-adjust, text_eq_refl id) (rw (lookup-insert, text_eq_refl id) refl)
]
  where
    kept_there :
        (o : Option ChannelState) → is_some o ≡ true → is_some (map_option without_unread o) ≡ true
    kept_there none h = h
    kept_there (some ch) h = refl

active_entered :
    (id : Text) (s : AppState)
    → is_empty id ≡ false
    → active_channel (set_active_channel id (ensure_channel id s)) ≡ some id
unfolding active_channel set_active_channel
active_entered id s named = rw named refl

target_named :
    (raw target : Text)
    → sanitize_channel_name raw ≡ some target
    → is_server_channel target ≡ false
    → is_empty target ≡ false
target_named raw target e other = nonempty (target_name raw target e other)
  where
    nonempty : {n : Text} → IsChannelName n → is_empty n ≡ false
    nonempty (c, s, e, h) = rw e refl

module _ {ℓ} {C : Type ℓ} where
  run_tasks-append :
      (now : ℕ) (ts us : List Task) (h : Handler C)
      → run_tasks now (ts ++ us) h ≡ run_tasks now us (run_tasks now ts h)
  run_tasks-append now [] us h = refl
  run_tasks-append now (t ∷ ts) us h = run_tasks-append now ts us (run_task now t h)

  -- Draining a queue that ends with entering a channel.
  drain-enters :
      (now : ℕ) (id : Text) (ts : List Task) (h : Handler C)
      → is_empty id ≡ false
      → h.ui_queue ≡ ts ++ (enters_channel id ∷ [])
      → (active_channel (drain_ui_queue now h).state ≡ some id)
        × (contains id (drain_ui_queue now h).state.channels ≡ true)
  unfolding drain_ui_queue run_task
  drain-enters now id ts h named q =
      let before = run_tasks now ts (record h { ui_queue = [] }) in
      let after =
        ap (λ l. run_tasks now l (record h { ui_queue = [] })) q
        ∙ run_tasks-append now ts (enters_channel id ∷ []) (record h { ui_queue = [] }) in
      (
        ap (λ (g : Handler C). active_channel g.state) after ∙ active_entered id before.state named,
        ap (λ (g : Handler C). contains id g.state.channels) after
            ∙ entered-contains id before.state,
      )

  requested :
      (now : ℕ) (raw target : Text) (a : App C)
      → sanitize_channel_name raw ≡ some target
      → is_server_channel target ≡ false
      → a.pending_joins ≡ []
      → (join_command now raw a).pending_joins ≡ target ∷ []
  unfolding join_command has_pending_command log_server_event push_system_msg_to_channel post_ui
  requested now raw target a e other free =
      rw (e, join_command) (rw (other, join_command) (rw (free, join_command) refl))

  -- The command goes to the server.
  asks_server :
      (now : ℕ) (raw target : Text) (a : App C)
      → sanitize_channel_name raw ≡ some target
      → is_server_channel target ≡ false
      → a.pending_joins ≡ []
      → (join_command now raw a).handler.sent ≡ (
          if a.handler.has_net
          then a.handler.sent ++ ((a.handler.next_seq, command (codes "join") (target ∷ [])) ∷ [])
          else a.handler.sent)
  unfolding join_command has_pending_command log_server_event push_system_msg_to_channel post_ui
      send_command send_envelope
  asks_server now raw target a e other free = elim (Bool-cases a.handler.has_net) [
    | inl n ↦ rw (e, join_command) (rw (other, join_command) (rw (free, join_command) (rw n refl)))
    | inr n ↦ rw (e, join_command) (rw (other, join_command) (rw (free, join_command) (rw n refl)))
  ]

  module _ (first : Assoc ChannelState → Text) (now : ℕ) where
    success_enters :
        (r : CommandResponse) (target : Text) (ts : List Text) (a : App C)
        → IsJoin r
        → r.success ≡ true
        → a.pending_joins ≡ target ∷ ts
        → (handle_command_response first now r a).0.handler.ui_queue
          ≡ (report_response first now (codes "join") r a).handler.ui_queue
            ++ (enters_channel target ∷ [])
    unfolding handle_command_response join_response text_eq post_ui
    success_enters r target ts a j ok e =
        rw (j, handle_command_response)
          (rw ((logged-entered first now r (codes "join") a).1 ∙ e, handle_command_response)
            (rw ok refl))

    -- With no other request waiting: for a name that is accepted and is not the internal tab the command
    -- `join` with this name goes to the server as the next envelope, if there is a client to send it,
    -- and when the server answers with success and the render thread drains the queue, the channel is
    -- there and active, whatever else was in the queue.
    pub join_command-enters :
        (asked later : ℕ) (raw target : Text) (r : CommandResponse) (a : App C)
        → sanitize_channel_name raw ≡ some target
        → is_server_channel target ≡ false
        → a.pending_joins ≡ []
        → IsJoin r
        → r.success ≡ true
        → let b = (handle_command_response first now r (join_command asked raw a)).0 in
          ((join_command asked raw a).handler.sent ≡ (
            if a.handler.has_net
            then a.handler.sent ++ ((a.handler.next_seq, command (codes "join") (target ∷ [])) ∷ [])
            else a.handler.sent))
          × ((active_channel (drain_ui_queue later b.handler).state ≡ some target)
              × (contains target (drain_ui_queue later b.handler).state.channels ≡ true))
    join_command-enters asked later raw target r a e other free j ok = (
      asks_server asked raw target a e other free,
      drain-enters later target _ _ (target_named raw target e other) (
          success_enters r target [] (join_command asked raw a) j ok
            (requested asked raw target a e other free)),
    )
