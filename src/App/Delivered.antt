-- ===== src/App/Delivered.antt =====
-- `send_chat` of src/app.cpp: no text that it accepts is lost.
use ircord_client.Base.{
  if_kept, else_kept, ℕ, ◌≡◌, refl, ◌∙◌, ap, ◌⊎◌, inl, inr, true, false, not, some, List, [], ◌∷◌,
  ◌++◌, is_empty, Text, text_eq_refl, Bool-cases, Option-cases,
}
use mathlib.Core.List.{append_assoc}
use ircord_client.Base.Assoc.{lookup, lookup-insert, or_default}
use ircord_client.AppState.{Message, active_channel, push_message}
use ircord_client.Handler.{Handler, Engine, ChatEnvelope, request_key, send_envelope}
use ircord_client.App.{
  App, World, Call, saves_message, type_number, sends_chat, fetches, tell, canonical_channel_id,
  is_server_channel, local_message, persist_message, encrypt_and_send, fetch_all, send_to,
  send_chat,
}

-- The call is among the calls.
abbrev pub Called {ℓ} : {C : Type ℓ} → Call → App C → Type 0
Called call a = (before : List Call) × (after : List Call) × (a.calls ≡ before ++ (call ∷ after))

-- The text is the last that waits for the key of the recipient.
abbrev pub Waits {ℓ} : {C : Type ℓ} → Text → Text → App C → Type 0
Waits recipient text a =
    (ts : List Text) × (lookup recipient a.handler.pending ≡ some (ts ++ (text ∷ [])))

request_key-waits {ℓ} :
    {C : Type ℓ} (recipient text : Text) (h : Handler C)
    → (ts : List Text) × (lookup recipient (request_key recipient text h).pending
        ≡ some (ts ++ (text ∷ [])))
unfolding request_key send_envelope
request_key-waits recipient text h = elim (Option-cases (lookup recipient h.pending)) [
  | inl e ↦ elim (Bool-cases h.has_net) [
    | inl net ↦ (
      [],
      rw (e, request_key)
          (rw (net, send_envelope) (rw (lookup-insert, text_eq_refl recipient) refl)),
    )
    | inr no_net ↦ (
      [],
      rw (e, request_key)
          (rw (no_net, send_envelope) (rw (lookup-insert, text_eq_refl recipient) refl)),
    )
  ]
  | inr (ts, e) ↦ (ts, rw (e, request_key) (rw (lookup-insert, text_eq_refl recipient) refl))
]

module _ {ℓ} {C : Type ℓ} (engine : Engine C) (world : World C) where
  -- Either way.
  abbrev pub Delivers : Text → Text → Text → C → App C → Type 0
  Delivers user_id active text crypto a =
      ((env : ChatEnvelope) × ((engine.encrypt crypto user_id active text).0 ≡ some env)
        × Called (sends_chat env) a)
      ⊎ Waits active text a

  tell-Delivers :
      (user_id active text : Text) (crypto : C) (call : Call) (a : App C)
      → Delivers user_id active text crypto a
      → Delivers user_id active text crypto (tell call a)
  tell-Delivers user_id active text crypto call a (inl (env, e, (before, after, there))) = inl (
    env,
    e,
    (
      before,
      after ++ (call ∷ []),
      ap (◌++ (call ∷ [])) there ∙ append_assoc before (sends_chat env ∷ after) (call ∷ []),
    ),
  )
  tell-Delivers user_id active text crypto call a (inr (ts, e)) = inr (ts, e)

  fetch_all-Delivers :
      (user_id active text : Text) (crypto : C) (channel : Text) (urls : List Text) (a : App C)
      → Delivers user_id active text crypto a
      → Delivers user_id active text crypto (fetch_all engine world channel urls a)
  fetch_all-Delivers user_id active text crypto channel [] a h = h
  fetch_all-Delivers user_id active text crypto channel (url ∷ urls) a h =
      fetch_all-Delivers user_id active text crypto channel urls (tell (fetches channel url) a)
        (tell-Delivers user_id active text crypto (fetches channel url) a h)

  -- The engine gives an envelope, unless it asks for a key.
  abbrev pub Encrypts : C → Text → Text → Text → Type 0
  Encrypts crypto user_id active text =
      (world.needs_key crypto active ≡ true)
      ⊎ ((env : ChatEnvelope) × ((engine.encrypt crypto user_id active text).0 ≡ some env))

  encrypt_and_send-Delivers :
      (active text : Text) (a : App C)
      → Encrypts a.handler.crypto a.user_id active text
      → Delivers a.user_id active text a.handler.crypto
          (encrypt_and_send engine world active text a)
  unfolding encrypt_and_send
  encrypt_and_send-Delivers active text a (inl asks) =
      elim (Option-cases (engine.encrypt a.handler.crypto a.user_id active text).0) [
        | inl e ↦ inr (
            rw (e, encrypt_and_send)
              (rw (asks, encrypt_and_send) (request_key-waits active text a.handler)))
        | inr (env, e) ↦ inr (
            rw (e, encrypt_and_send)
              (rw (asks, encrypt_and_send) (request_key-waits active text a.handler)))
      ]
  encrypt_and_send-Delivers active text a (inr (env, e)) =
      elim (Bool-cases (world.needs_key a.handler.crypto active)) [
        | inl asks ↦
            inl (env, e, (a.calls, [], rw (e, encrypt_and_send) (rw (asks, encrypt_and_send) refl)))
        | inr has ↦
            inl (env, e, (a.calls, [], rw (e, encrypt_and_send) (rw (has, encrypt_and_send) refl)))
      ]

  -- Storing changes neither the name of the user nor the engine.
  persist_message-Delivers :
      (active text channel : Text) (m : Message) (a : App C)
      → Encrypts a.handler.crypto a.user_id active text
      → Delivers a.user_id active text a.handler.crypto
          (encrypt_and_send engine world active text (persist_message world channel m a))
  unfolding persist_message
  persist_message-Delivers active text channel m a h =
      if_kept
        (λ (b : App C).
          Delivers a.user_id active text a.handler.crypto
            (encrypt_and_send engine world active text b))
        world.store
        (encrypt_and_send-Delivers active text
          (tell
            (saves_message (record {
              channel_id = channel;
              sender_id = m.sender_id;
              content = m.content;
              timestamp_ms = m.timestamp_ms;
              kind = type_number m.kind;
            }))
            a)
          h)
        (encrypt_and_send-Delivers active text a h)

  -- In a channel that is not the internal tab, with an engine that gives an envelope unless it asks
  -- for a key: on an authenticated connection each text that is sent goes to the network client in
  -- such an envelope, or waits as the last text for the key of its recipient.
  pub send_chat-Delivers :
      (now : ℕ) (text : Text) (a : App C)
      → let active = canonical_channel_id (or_default [] (active_channel a.handler.state)) in
        a.handler.authenticated ≡ true
        → is_empty active ≡ false
        → is_server_channel active ≡ false
        → Encrypts a.handler.crypto a.user_id active text
        → Delivers a.user_id active text a.handler.crypto (send_chat engine world now text a)
  unfolding send_chat send_to
  send_chat-Delivers now text a auth named other h =
      let id = canonical_channel_id (or_default [] (active_channel a.handler.state)) in
      let P = Delivers a.user_id id text a.handler.crypto in
      let msg = local_message now a.user_id text in
      let shown = record a {
        handler = record a.handler { state = push_message id msg a.handler.state };
      } in
      let sent = persist_message-Delivers id text id msg shown h in
      else_kept P _ (ap not auth) (
        else_kept P _ named (
          else_kept P _ other (
            if_kept P world.previewer
              (fetch_all-Delivers a.user_id id text a.handler.crypto id (world.urls text) _ sent)
              sent)))
