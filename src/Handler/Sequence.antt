-- ===== src/Handler/Sequence.antt =====
-- The sequence numbers of the envelopes that the message handler sends.
use ircord_client.Base.{
  ℕ, suc, ◌+◌, ◌≤◌, Option, none, some, List, [], ◌∷◌, ◌++◌, Text, arith, ltb, inl, inr, Bool-cases,
  Option-cases, is_empty,
}
use ircord_client.Base.Assoc.{lookup}
use ircord_client.Handler.{
  Handler, Engine, Outgoing, Task, Step, Incoming, step, steps, dispatch, send_envelope,
  handle_ping, request_key, key_timeout, push_system, post_ui, tell_voice, run_task, run_tasks,
  drain_ui_queue, send_command, handle_auth_challenge, handle_auth_ok, on_auth_ok, handle_auth_fail,
  handle_chat, handle_key_bundle, flush, report_failed, handle_presence, handle_voice_room_join,
  handle_voice_room_leave, handle_voice_room_state, handle_error, handle_command_response, comes,
  asks, commands, times_out, greets, send_hello, drains, disconnects, auth_challenge, auth_ok,
  auth_fail, chat_comes, bundle_comes, presence_comes, voice_signal, room_join, room_leave,
  room_state, ping, error_message, command_response, unknown, pushes_to, says, shows_presence,
  enters_room, joined_voice, left_voice, shows_in, enters_channel, lists_users, removes_channel,
}

-- Numbers from `low` on, each above the one before, and all below `high`.
abbrev pub AreFrom : ℕ → List (ℕ × Outgoing) → ℕ → Type 0
AreFrom low [] high = low ≤ high
AreFrom low ((k, out) ∷ sent) high = (low ≤ k) × AreFrom (suc k) sent high

AreFrom-snoc :
    (low : ℕ) (sent : List (ℕ × Outgoing)) (k : ℕ) (out : Outgoing)
    → AreFrom low sent k
    → AreFrom low (sent ++ ((k, out) ∷ [])) (k + 1)
AreFrom-snoc low [] k out h = (h, omega arith)
AreFrom-snoc low ((j, o) ∷ sent) k out h = (h.0, AreFrom-snoc (suc j) sent k out h.1)

AreFrom-later :
    (low : ℕ) (sent : List (ℕ × Outgoing)) (k : ℕ) → AreFrom low sent k → AreFrom low sent (k + 1)
AreFrom-later low [] k h = omega (arith, h)
AreFrom-later low ((j, o) ∷ sent) k h = (h.0, AreFrom-later (suc j) sent k h.1)

module _ {ℓ} {C : Type ℓ} where
  -- The envelopes that were sent have ascending numbers from 1 on, all below the next one.
  abbrev pub IsNumbered : Handler C → Type 0
  IsNumbered h = AreFrom 1 h.sent h.next_seq

  send_envelope-IsNumbered :
      (out : Outgoing) (h : Handler C) → IsNumbered h → IsNumbered (send_envelope out h)
  unfolding send_envelope
  send_envelope-IsNumbered out h n = elim (Bool-cases h.has_net) [
    | inl e ↦ rw e (AreFrom-snoc 1 h.sent h.next_seq out n)
    | inr e ↦ rw e n
  ]

  handle_ping-IsNumbered : (h : Handler C) → IsNumbered h → IsNumbered (handle_ping h)
  unfolding handle_ping
  handle_ping-IsNumbered h n = elim (Bool-cases h.has_net) [
    | inl e ↦ rw e (AreFrom-snoc 1 h.sent h.next_seq _ n)
    | inr e ↦ rw e (AreFrom-later 1 h.sent h.next_seq n)
  ]

  request_key-IsNumbered :
      (recipient text : Text) (h : Handler C)
      → IsNumbered h
      → IsNumbered (request_key recipient text h)
  unfolding request_key
  request_key-IsNumbered recipient text h n = elim (Option-cases (lookup recipient h.pending)) [
    | inl e ↦ rw (e, request_key) (send_envelope-IsNumbered _ _ n)
    | inr (queued, e) ↦ rw (e, request_key) n
  ]

  key_timeout-IsNumbered :
      (now : ℕ) (recipient : Text) (h : Handler C)
      → IsNumbered h
      → IsNumbered (key_timeout now recipient h)
  unfolding key_timeout push_system post_ui
  key_timeout-IsNumbered now recipient h n = elim (Option-cases (lookup recipient h.pending)) [
    | inl e ↦ rw (e, key_timeout) n
    | inr (queued, e) ↦ rw (e, key_timeout) n
  ]

  tell_voice-IsNumbered : (call : _) (h : Handler C) → IsNumbered h → IsNumbered (tell_voice call h)
  unfolding tell_voice
  tell_voice-IsNumbered call h n = elim (Bool-cases h.has_voice) [ inl e ↦ rw e n | inr e ↦ rw e n ]

  run_task-IsNumbered :
      (now : ℕ) (t : Task) (h : Handler C) → IsNumbered h → IsNumbered (run_task now t h)
  unfolding run_task push_system post_ui
  run_task-IsNumbered now (pushes_to channel_id m) h n = n
  run_task-IsNumbered now (says m) h n = n
  run_task-IsNumbered now (shows_presence uid status) h n = n
  run_task-IsNumbered now (enters_room channel_id participants) h n = n
  run_task-IsNumbered now (joined_voice channel_id user) h n = n
  run_task-IsNumbered now (left_voice channel_id user) h n = n
  run_task-IsNumbered now (shows_in channel_id m activates) h n = n
  run_task-IsNumbered now (enters_channel channel_id) h n = n
  run_task-IsNumbered now (lists_users channel_id users) h n = n
  run_task-IsNumbered now (removes_channel first channel_id) h n = n

  run_tasks-IsNumbered :
      (now : ℕ) (ts : List Task) (h : Handler C) → IsNumbered h → IsNumbered (run_tasks now ts h)
  run_tasks-IsNumbered now [] h n = n
  run_tasks-IsNumbered now (t ∷ ts) h n =
      run_tasks-IsNumbered now ts (run_task now t h) (run_task-IsNumbered now t h n)

  handle_command_response-IsNumbered :
      (now : ℕ) (r : Option (Text × Text)) (h : Handler C)
      → IsNumbered h
      → IsNumbered (handle_command_response now r h)
  unfolding handle_command_response push_system post_ui
  handle_command_response-IsNumbered now none h n = n
  handle_command_response-IsNumbered now (some (name, text)) h n =
      elim (Bool-cases h.has_response_fn) [ inl e ↦ rw e n | inr e ↦ rw e n ]

module _ {ℓ} {C : Type ℓ} (engine : Engine C) (user_id password : Text) where
  flush-IsNumbered :
      (recipient : Text) (ps : List Text) (h : Handler C)
      → IsNumbered h
      → IsNumbered (flush engine user_id password recipient ps h).0
  unfolding flush
  flush-IsNumbered recipient [] h n = n
  flush-IsNumbered recipient (p ∷ ps) h n =
      elim (Option-cases (engine.encrypt h.crypto user_id recipient p).0) [
        | inl e ↦ rw (e, flush) (flush-IsNumbered recipient ps _ n)
        | inr (c, e) ↦
            rw (e, flush) (flush-IsNumbered recipient ps _ (send_envelope-IsNumbered _ _ n))
      ]

  report_failed-IsNumbered :
      (now : ℕ) (recipient : Text) (r : Handler C × ℕ)
      → IsNumbered r.0
      → IsNumbered (report_failed engine user_id password now recipient r)
  unfolding report_failed push_system post_ui
  report_failed-IsNumbered now recipient (h, failed) n = elim (Bool-cases (ltb 0 failed)) [
    | inl e ↦ rw e n
    | inr e ↦ rw e n
  ]

  handle_key_bundle-IsNumbered :
      (now : ℕ) (b : _) (h : Handler C)
      → IsNumbered h
      → IsNumbered (handle_key_bundle engine user_id password now b h)
  unfolding handle_key_bundle
  handle_key_bundle-IsNumbered now none h n = n
  handle_key_bundle-IsNumbered now (some b) h n = elim (Bool-cases (is_empty b.recipient_for)) [
    | inl e ↦ rw e n
    | inr e ↦ elim (Option-cases (lookup b.recipient_for h.pending)) [
      | inl none_waits ↦ rw (e, none_waits, handle_key_bundle) n
      | inr (queued, waits) ↦
          rw (e, waits, handle_key_bundle)
            (report_failed-IsNumbered now b.recipient_for _
              (flush-IsNumbered b.recipient_for queued _ n))
    ]
  ]

  dispatch-IsNumbered :
      (now : ℕ) (e : Incoming) (h : Handler C)
      → IsNumbered h
      → IsNumbered (dispatch engine user_id password now e h)
  unfolding dispatch handle_auth_challenge handle_auth_ok on_auth_ok handle_auth_fail handle_chat
      handle_presence handle_voice_room_join handle_voice_room_leave handle_voice_room_state
      handle_error push_system post_ui
  dispatch-IsNumbered now (auth_challenge none) h n = n
  dispatch-IsNumbered now (auth_challenge (some nonce)) h n = send_envelope-IsNumbered _ h n
  dispatch-IsNumbered now auth_ok h n = send_envelope-IsNumbered _ _ n
  dispatch-IsNumbered now (auth_fail detail) h n = n
  dispatch-IsNumbered now (chat_comes stamp none) h n = n
  dispatch-IsNumbered now (chat_comes stamp (some c)) h n = n
  dispatch-IsNumbered now (bundle_comes b) h n = handle_key_bundle-IsNumbered now b h n
  dispatch-IsNumbered now (presence_comes none) h n = n
  dispatch-IsNumbered now (presence_comes (some p)) h n = n
  dispatch-IsNumbered now voice_signal h n = n
  dispatch-IsNumbered now (room_join none) h n = n
  dispatch-IsNumbered now (room_join (some j)) h n = tell_voice-IsNumbered _ h n
  dispatch-IsNumbered now (room_leave none) h n = n
  dispatch-IsNumbered now (room_leave (some l)) h n = tell_voice-IsNumbered _ h n
  dispatch-IsNumbered now (room_state none) h n = n
  dispatch-IsNumbered now (room_state (some r)) h n = tell_voice-IsNumbered _ h n
  dispatch-IsNumbered now ping h n = handle_ping-IsNumbered h n
  dispatch-IsNumbered now (error_message none) h n = n
  dispatch-IsNumbered now (error_message (some e)) h n = n
  dispatch-IsNumbered now (command_response r) h n = handle_command_response-IsNumbered now r h n
  dispatch-IsNumbered now unknown h n = n

  step-IsNumbered :
      (now : ℕ) (s : Step) (h : Handler C)
      → IsNumbered h
      → IsNumbered (step engine user_id password now s h)
  unfolding step drain_ui_queue send_command send_hello
  step-IsNumbered now (comes e) h n = dispatch-IsNumbered now e h n
  step-IsNumbered now (asks recipient text) h n = request_key-IsNumbered recipient text h n
  step-IsNumbered now (commands name args) h n = send_envelope-IsNumbered _ h n
  step-IsNumbered now (greets version) h n = send_envelope-IsNumbered _ h n
  step-IsNumbered now (times_out recipient) h n = key_timeout-IsNumbered now recipient h n
  step-IsNumbered now drains h n =
      run_tasks-IsNumbered now h.ui_queue (record h { ui_queue = [] }) n
  step-IsNumbered now disconnects h n = n

  -- While no two calls of the handler overlap in time, whatever envelopes come and whatever is asked of
  -- it, in any order: if the envelopes that it had sent have ascending sequence numbers from 1 on,
  -- below the next number, they have them still with those that it has sent since; so in such a run no
  -- number is given out twice.
  pub steps-IsNumbered :
      (ss : List (ℕ × Step)) (h : Handler C)
      → IsNumbered h
      → IsNumbered (steps engine user_id password ss h)
  steps-IsNumbered [] h n = n
  steps-IsNumbered ((now, s) ∷ ss) h n =
      steps-IsNumbered ss (step engine user_id password now s h) (step-IsNumbered now s h n)
