-- ===== src/Handler/Outbound.antt =====
-- src/net/message_handler.cpp: what the handler posts to the render thread, sends to the server and
-- tells the voice engine, and the requests for keys.
use ircord_client.Base.{ℕ, ◌+◌, none, some, List, [], ◌∷◌, ◌++◌, if◌then◌else◌, length, Text, codes}
use ircord_client.Base.Assoc.{lookup, insert, erase}
use ircord_client.Base.Decimal.{decimal}
use ircord_client.AppState.{Message, system}
use ircord_client.Handler.Types.{
  Outgoing, hello, key_request, command, pong, Task, says, VoiceCall, Handler,
}

abbrev pub server : Text
server = codes "server"

abbrev pub system_message : ℕ → Text → Message
system_message now text = record {
  sender_id = codes "system";
  content = text;
  timestamp_ms = now;
  kind = system;
  link_preview = none;
}

-- The bytes of the dash and the space behind it.
abbrev em_dash : Text
em_dash = 226 ∷ 128 ∷ 148 ∷ 32 ∷ []

module _ {ℓ} {C : Type ℓ} where
  unfoldable pub post_ui : Task → Handler C → Handler C
  post_ui task h = record h { ui_queue = h.ui_queue ++ (task ∷ []) }

  unfoldable pub push_system : ℕ → Text → Handler C → Handler C
  unfolding post_ui
  push_system now text h = post_ui (says (system_message now text)) h

  unfoldable pub send_envelope : Outgoing → Handler C → Handler C
  send_envelope out h =
      if h.has_net
      then record h { next_seq = h.next_seq + 1; sent = h.sent ++ ((h.next_seq, out) ∷ []) }
      else h

  -- The number is used up even without a client to send it.
  unfoldable pub handle_ping : Handler C → Handler C
  handle_ping h = record h {
    next_seq = h.next_seq + 1;
    sent = if h.has_net then h.sent ++ ((h.next_seq, pong) ∷ []) else h.sent;
  }

  unfoldable pub request_key : Text → Text → Handler C → Handler C
  unfolding send_envelope
  request_key recipient plaintext h = elim (lookup recipient h.pending) [
    | none ↦
        send_envelope (key_request recipient)
          (record h { pending = insert recipient (plaintext ∷ []) h.pending })
    | some queued ↦ record h { pending = insert recipient (queued ++ (plaintext ∷ [])) h.pending }
  ]

  -- Ten seconds after the first request for a recipient.
  unfoldable pub key_timeout : ℕ → Text → Handler C → Handler C
  unfolding push_system
  key_timeout now recipient h = elim (lookup recipient h.pending) [
    | none ↦ h
    | some queued ↦
        push_system now
          (codes "Could not establish session with "
            ++ (recipient
                ++ (codes " (timeout) "
                    ++ (em_dash ++ (decimal (length queued) ++ codes " message(s) dropped")))))
          (record h { pending = erase recipient h.pending })
  ]

  unfoldable pub tell_voice : VoiceCall → Handler C → Handler C
  tell_voice call h =
      if h.has_voice then record h { voice_calls = h.voice_calls ++ (call ∷ []) } else h

  unfoldable pub send_command : Text → List Text → Handler C → Handler C
  unfolding send_envelope
  send_command name args h = send_envelope (command name args) h

  -- `version` is the client's version number.
  unfoldable pub send_hello : Text → Handler C → Handler C
  unfolding send_envelope
  send_hello version h = send_envelope (hello (codes "ircord-client/" ++ version)) h
