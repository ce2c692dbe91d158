-- ===== src/Handler/Ordering.antt =====
-- Chats of one channel reach it in the order in which they came.
use ircord_client.Base.{
  subst, ℕ, ◌≤◌, ◌≡◌, refl, ap, sym, ◌∙◌, not, ◌&&◌, some, List, [], ◌∷◌, ◌++◌, map, Text, arith,
  inl, inr, Bool-cases, Option-cases, is_empty, length, All, text_eq_iff,
}
use mathlib.Core.List.{append-nil, append_assoc}
use ircord_client.Base.Assoc.{lookup-insert, contains}
use ircord_client.AppState.{
  AppState, Message, channel_snapshot, push_message, ensure_channel, max_messages, add_channel_user,
  channel_user,
}
use ircord_client.AppState.Window.{push_messages, push_messages-snapshot, window}
use ircord_client.Handler.{
  Handler, Engine, ChatEnvelope, handle_chat, plaintext_of, message_of, channel_of, list_sender,
  post_ui, pushes_to, run_tasks, run_task, drain_ui_queue, is_channel,
}

module _ {ℓ} {C : Type ℓ} (engine : Engine C) (user_id password : Text) (now : ℕ) where
  -- Chats with their time stamps, one after the other.
  abbrev pub chats : List (ℕ × ChatEnvelope) → Handler C → Handler C
  chats [] h = h
  chats ((stamp, c) ∷ cs) h = chats cs (handle_chat engine user_id password now stamp (some c) h)

  -- The messages that the engine makes of them, one after the other.
  abbrev pub messages_of : C → List (ℕ × ChatEnvelope) → List Message
  messages_of crypto [] = []
  messages_of crypto ((stamp, c) ∷ cs) =
      let (text, after) = plaintext_of engine user_id password crypto c in
      message_of now stamp c text ∷ messages_of after cs

-- The messages of a channel.
abbrev pub held : Text → AppState → List Message
held id s = (channel_snapshot id s).messages

snapshot-ensure :
    (id j : Text) (s : AppState) → channel_snapshot id (ensure_channel j s) ≡ channel_snapshot id s
unfolding channel_snapshot ensure_channel
snapshot-ensure id j s = elim (Bool-cases (contains j s.channels)) [
  | inl e ↦ rw e refl
  | inr e ↦ rw (e, lookup-insert) (ground (arith, text_eq_iff j id))
]

snapshot-list_sender :
    (id j sender : Text) (s : AppState)
    → channel_snapshot id (list_sender j sender s) ≡ channel_snapshot id s
unfolding channel_snapshot list_sender add_channel_user
snapshot-list_sender id j sender s = elim (Bool-cases (is_channel j && not (is_empty sender))) [
  | inl e ↦ elim (Option-cases (channel_user j sender s)) [
    | inl missing ↦ rw (e, missing, list_sender) refl
    | inr (u, there) ↦ rw (e, there, list_sender) refl
  ]
  | inr e ↦ rw e refl
]

module _ {ℓ} {C : Type ℓ} where
  -- Running queued messages is pushing them.
  run_tasks-push :
      (now : ℕ) (id : Text) (ms : List Message) (h : Handler C)
      → (run_tasks now (map (pushes_to id) ms) h).state ≡ push_messages id ms h.state
  unfolding run_task
  run_tasks-push now id [] h = refl
  run_tasks-push now id (m ∷ ms) h =
      run_tasks-push now id ms (record h { state = push_message id m h.state })

module _ {ℓ} {C : Type ℓ} (engine : Engine C) (user_id password : Text) (now : ℕ) (id : Text) where
  abbrev pub IsFor : ℕ × ChatEnvelope → Type 0
  IsFor c = channel_of c.1 ≡ id

  queue-chats :
      (cs : List (ℕ × ChatEnvelope)) (h : Handler C)
      → All IsFor cs
      → ((chats engine user_id password now cs h).ui_queue
          ≡ h.ui_queue ++ map (pushes_to id) (messages_of engine user_id password now h.crypto cs))
        × (channel_snapshot id (chats engine user_id password now cs h).state
            ≡ channel_snapshot id h.state)
  unfolding handle_chat post_ui
  queue-chats [] h p = (sym (append-nil h.ui_queue), refl)
  queue-chats ((stamp, c) ∷ cs) h p =
      let later = handle_chat engine user_id password now stamp (some c) h in
      let (q, s) = queue-chats cs later p.1 in
      (
        q
            ∙ append_assoc h.ui_queue _ _
            ∙ ap
                (λ i.
                  h.ui_queue
                  ++ (pushes_to i
                        (message_of now stamp c (plaintext_of engine user_id password h.crypto c).0)
                      ∷ map (pushes_to id)
                          (messages_of engine user_id password now later.crypto cs)))
                p.0,
        s
            ∙ snapshot-list_sender id (channel_of c) c.sender_id
                (ensure_channel (channel_of c) h.state)
            ∙ snapshot-ensure id (channel_of c) h.state,
      )

  -- If the queue is empty and the channel holds at most 1000 messages: after any chats for the channel
  -- came and the render thread drained the queue, the channel holds the last 1000 of its messages and
  -- what the engine made of the chats, in the order in which they came.
  pub drain-chats :
      (later : ℕ) (cs : List (ℕ × ChatEnvelope)) (h : Handler C)
      → h.ui_queue ≡ []
      → All IsFor cs
      → length (held id h.state) ≤ max_messages
      → held id (drain_ui_queue later (chats engine user_id password now cs h)).state
        ≡ window max_messages
            (held id h.state ++ messages_of engine user_id password now h.crypto cs)
  unfolding drain_ui_queue
  drain-chats later cs h free p bound =
      let came = chats engine user_id password now cs h in
      let ms = messages_of engine user_id password now h.crypto cs in
      let (q, s) = queue-chats cs h p in
      let queued : came.ui_queue ≡ map (pushes_to id) ms =
        q ∙ ap (◌++ map (pushes_to id) ms) free in
      ap (λ ts. held id (run_tasks later ts (record came { ui_queue = [] })).state) queued
      ∙ ap (held id) (run_tasks-push later id ms (record came { ui_queue = [] }))
      ∙ ap (λ ch. ch.messages)
          (push_messages-snapshot id ms came.state
            (subst (λ ch. length ch.messages ≤ max_messages) (sym s) bound))
      ∙ ap (λ ch. window max_messages (ch.messages ++ ms)) s
