-- ===== src/App/Answered.antt =====
-- src/app.cpp: the answers of the server keep the requests well formed, and are matched to them in order.
use ircord_client.Base.{if_kept, ℕ, Bool, false, Option, none, some, List, [], ◌∷◌, Text, All}
use ircord_client.Base.Assoc.{Assoc, or_default}
use ircord_client.AppState.{ChannelState, ChannelUserInfo, active_channel}
use ircord_client.Command.{lower}
use ircord_client.Handler.{
  Handler, Engine, Task, enters_channel, removes_channel, lists_users, post_ui,
}
use ircord_client.App.Sanitize.{IsChannelName}
use ircord_client.App.{
  App, World, CommandResponse, Delta, Event, submits, switches, switches_to, answers,
  transport_opens, disconnects_for, handles, response_text, list_names, pop_front, follow_up,
  push_system_msg, push_system_msg_to_channel, log_server_event, join_response, part_response,
  names_response, report_response, handle_command_response, parse_names, switch_to_place,
  switch_to_channel, switch_channel, switch_to_channel_by_index, on_connected,
  trace_connection_phase, on_disconnected, clear_pending_channel_commands, on_event, on_events,
}
use ircord_client.App.Requests.{IsDistinct, AreRequests, Asks, logged, posting}
use ircord_client.App.Submitted.{on_submit-Asks}

pop_front-IsDistinct : (ts : List Text) → IsDistinct ts → IsDistinct (pop_front ts).1
pop_front-IsDistinct [] h = tt
pop_front-IsDistinct (t ∷ ts) h = h.1

pop_front-named : (ts : List Text) → All IsChannelName ts → All IsChannelName (pop_front ts).1
pop_front-named [] h = tt
pop_front-named (t ∷ ts) h = h.1

follow_up-Asks {ℓ} :
    {C : Type ℓ} (success : Bool) (target : Option Text) (task : Text → Task) (a : App C)
    → Asks a
    → Asks (follow_up success target task a)
follow_up-Asks success none task a h = h
follow_up-Asks success (some t) task a h = if_kept Asks success (posting (task t) a h) h

list_names-Asks {ℓ} :
    {C : Type ℓ} (l : Option (Option (Text × List ChannelUserInfo))) (a : App C)
    → Asks a
    → Asks (list_names l a).0
list_names-Asks none a h = h
list_names-Asks (some none) a h = h
list_names-Asks (some (some (channel, users))) a h = posting (lists_users channel users) a h

module _ {ℓ} {C : Type ℓ} (first : Assoc ChannelState → Text) (now : ℕ) where
  shown_there :
      (ch text : Text) (a : App C) → Asks a → Asks (push_system_msg_to_channel now ch text false a)
  unfolding Asks push_system_msg_to_channel post_ui
  shown_there ch text a h = h

  report_response-Asks :
      (command : Text) (r : CommandResponse) (a : App C)
      → Asks a
      → Asks (report_response first now command r a)
  unfolding report_response
  report_response-Asks command r a h =
      let text = response_text command r in
      if_kept Asks _
        (shown_there (or_default [] (active_channel a.handler.state)) text _
          (logged now text false a h))
        (logged now text false a h)

  join_response-Asks :
      (success : Bool) (a : App C) → Asks a → Asks (join_response first now success a)
  unfolding Asks join_response
  join_response-Asks success a h =
      follow_up-Asks success (pop_front a.pending_joins).0 enters_channel
        (record a { pending_joins = (pop_front a.pending_joins).1 })
        (record {
          joins_once = pop_front-IsDistinct a.pending_joins h.joins_once;
          parts_once = h.parts_once;
          joins_named = pop_front-named a.pending_joins h.joins_named;
        })

  part_response-Asks :
      (success : Bool) (a : App C) → Asks a → Asks (part_response first now success a)
  unfolding Asks part_response
  part_response-Asks success a h =
      follow_up-Asks success (pop_front a.pending_parts).0 (removes_channel first)
        (record a { pending_parts = (pop_front a.pending_parts).1 })
        (record {
          joins_once = h.joins_once;
          parts_once = pop_front-IsDistinct a.pending_parts h.parts_once;
          joins_named = h.joins_named;
        })

  names_response-Asks :
      (message : Text) (a : App C) → Asks a → Asks (names_response first now message a).0
  unfolding names_response
  names_response-Asks message a h = list_names-Asks (parse_names message) a h

  handle_command_response-Asks :
      (r : CommandResponse) (a : App C) → Asks a → Asks (handle_command_response first now r a).0
  unfolding handle_command_response
  handle_command_response-Asks r a h =
      let P = λ (r : App C × Bool). Asks r.0 in
      let told = report_response-Asks (lower r.command) r a h in
      if_kept P _ (join_response-Asks r.success _ told) (
        if_kept P _ (names_response-Asks r.message _ told)
          (if_kept P _ (part_response-Asks r.success _ told) told))

module _ {ℓ} {C : Type ℓ} (now : ℕ) where
  handled : (h' : Handler C) (a : App C) → Asks a → Asks (record a { handler = h' })
  unfolding Asks
  handled h' a h = h

  switch_to_channel-Asks : (id : Text) (a : App C) → Asks a → Asks (switch_to_channel now id a)
  unfolding Asks switch_to_channel push_system_msg push_system_msg_to_channel post_ui
  switch_to_channel-Asks id a h = h

  switch_to_place-Asks : (id : Option Text) (a : App C) → Asks a → Asks (switch_to_place now id a)
  switch_to_place-Asks none a h = h
  switch_to_place-Asks (some id) a h = switch_to_channel-Asks id a h

  switch_channel-Asks : (delta : Delta) (a : App C) → Asks a → Asks (switch_channel now delta a)
  unfolding switch_channel
  switch_channel-Asks delta a h = if_kept Asks _ h (switch_to_place-Asks _ a h)

  on_connected-Asks :
      (steady : ℕ) (version : Text) (a : App C) → Asks a → Asks (on_connected now steady version a)
  unfolding Asks on_connected trace_connection_phase log_server_event push_system_msg_to_channel
      post_ui
  on_connected-Asks steady version a h = h

  on_disconnected-Asks : (reason : Text) (a : App C) → Asks (on_disconnected now reason a)
  unfolding Asks on_disconnected clear_pending_channel_commands log_server_event
      push_system_msg_to_channel post_ui
  on_disconnected-Asks reason a = record { joins_once = tt; parts_once = tt; joins_named = tt }

module _ {ℓ} {C : Type ℓ} (engine : Engine C) (world : World C) (password : Text)
    (first : Assoc ChannelState → Text) where
  on_event-Asks :
      (now : ℕ) (e : Event) (a : App C)
      → Asks a
      → Asks (on_event engine world password first now e a)
  unfolding on_event switch_to_channel_by_index
  on_event-Asks now (submits line) a h = on_submit-Asks engine world now line a h
  on_event-Asks now (switches delta) a h = switch_channel-Asks now delta a h
  on_event-Asks now (switches_to index) a h = switch_to_place-Asks now _ a h
  on_event-Asks now (answers r) a h = handle_command_response-Asks first now r a h
  on_event-Asks now (transport_opens steady) a h = on_connected-Asks now steady world.version a h
  on_event-Asks now (disconnects_for reason) a h = on_disconnected-Asks now reason a
  on_event-Asks now (handles s) a h = handled now _ a h

  -- Whatever happens, the requests that wait for an answer stay distinct, and those to join name
  -- channels.
  pub on_events-Asks :
      (es : List (ℕ × Event)) (a : App C)
      → AreRequests a.pending_joins a.pending_parts
      → AreRequests
          (on_events engine world password first es a).pending_joins
          (on_events engine world password first es a).pending_parts
  unfolding Asks
  on_events-Asks [] a h = h
  on_events-Asks ((now, e) ∷ es) a h =
      on_events-Asks es (on_event engine world password first now e a) (on_event-Asks now e a h)
