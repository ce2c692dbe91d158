-- ===== src/AppState/Bounds.antt =====
-- How many messages a channel can hold.
use ircord_client.Base.{◌≤◌, ◌≡◌, refl, List, [], ◌∷◌, length, arith, inl, inr, Option-cases, Text}
use ircord_client.Base.Assoc.{
  Assoc, lookup, lookup-insert, lookup-erase, adjust, lookup-adjust, or_default,
}
use ircord_client.AppState.{
  AppState, Message, ChannelState, new_channel, max_messages, receive, push_message,
  channel_snapshot, ensure_channel, remove_channel, set_active_channel, mark_read, scroll_to_bottom,
  scroll_up, scroll_down, Change, ensures, removes, activates, reads, bottoms, pushes, scrolls_up,
  scrolls_down, fills_from_online, sets_presence, sets_users, adds_user, removes_user, sets_role,
  sets_voice_status, sets_voice, sets_connected, sets_local_user, sets_results, act, run, new,
  set_presence, set_channel_users, add_channel_user, remove_channel_user, set_user_role,
  ensure_channel_users_from_online, set_user_voice_status,
}
use ircord_client.AppState.Window.{length-push_bounded}

-- Each channel holds at most `max_messages`.
abbrev pub IsBounded : AppState → Type 0
IsBounded s = (j : Text) → length (channel_snapshot j s).messages ≤ max_messages

adjust-messages :
    (id j : Text) (f : ChannelState → ChannelState) (m : Assoc ChannelState)
    → ((ch : ChannelState) → (f ch).messages ≡ ch.messages)
    → (or_default new_channel (lookup j (adjust id f m))).messages
      ≡ (or_default new_channel (lookup j m)).messages
adjust-messages id j f m keep = elim (Option-cases (lookup j m)) [
  | inl e ↦ rw lookup-adjust (ground arith)
  | inr (ch, e) ↦ rw lookup-adjust (ground (arith, keep ch))
]

module _ (s : AppState) (h : IsBounded s) where
  adjust-IsBounded :
      (id : Text) (f : ChannelState → ChannelState)
      → ((ch : ChannelState) → (f ch).messages ≡ ch.messages)
      → IsBounded (record s { channels = adjust id f s.channels })
  unfolding channel_snapshot
  adjust-IsBounded id f keep j = rw (adjust-messages id j f s.channels keep) (h j)

  ensure_channel-IsBounded : (id : Text) → IsBounded (ensure_channel id s)
  unfolding channel_snapshot ensure_channel
  ensure_channel-IsBounded id j = ground (arith, h j, lookup-insert id j new_channel s.channels)

  remove_channel-IsBounded :
      (first : Assoc ChannelState → Text) (id : Text) → IsBounded (remove_channel first id s)
  unfolding channel_snapshot remove_channel
  remove_channel-IsBounded first id j = rw lookup-erase (ground (arith, h j))

  push_message-IsBounded : (id : Text) (msg : Message) → IsBounded (push_message id msg s)
  unfolding channel_snapshot push_message receive
  push_message-IsBounded id msg j = rw lookup-insert (
      ground
        (arith, h j, length-push_bounded max_messages msg (channel_snapshot id s).messages (h id)))

act-IsBounded :
    (first : Assoc ChannelState → Text) (c : Change) (s : AppState)
    → IsBounded s
    → IsBounded (act first c s)
unfolding act set_active_channel mark_read scroll_to_bottom scroll_up scroll_down
    ensure_channel_users_from_online set_presence set_channel_users add_channel_user
    remove_channel_user set_user_role set_user_voice_status channel_snapshot
act-IsBounded first (ensures id) s h = ensure_channel-IsBounded s h id
act-IsBounded first (removes id) s h = remove_channel-IsBounded s h first id
act-IsBounded first (activates id) s h = adjust-IsBounded s h id _ (λ ch. refl)
act-IsBounded first (reads id) s h = adjust-IsBounded s h id _ (λ ch. refl)
act-IsBounded first (bottoms id) s h = adjust-IsBounded s h id _ (λ ch. refl)
act-IsBounded first (pushes id msg) s h = push_message-IsBounded s h id msg
act-IsBounded first (scrolls_up id n) s h = adjust-IsBounded s h id _ (λ ch. refl)
act-IsBounded first (scrolls_down id n) s h = adjust-IsBounded s h id _ (λ ch. refl)
act-IsBounded first (fills_from_online id) s h = λ j. ground (arith, h j)
act-IsBounded first (sets_presence id status) s h = h
act-IsBounded first (sets_users id us) s h = h
act-IsBounded first (adds_user id u) s h = h
act-IsBounded first (removes_user id u) s h = h
act-IsBounded first (sets_role id u r) s h = h
act-IsBounded first (sets_voice_status id status) s h = h
act-IsBounded first (sets_voice v) s h = h
act-IsBounded first (sets_connected b) s h = h
act-IsBounded first (sets_local_user id) s h = h
act-IsBounded first (sets_results rs) s h = h

-- After any calls on a new state, every channel holds at most `max_messages` messages.
pub run-new-IsBounded :
    (first : Assoc ChannelState → Text) (calls : List Change) → IsBounded (run first new calls)
unfolding channel_snapshot lookup
run-new-IsBounded first calls = keep calls new (λ j. omega arith)
  where
    keep : (calls : List Change) (s : AppState) → IsBounded s → IsBounded (run first s calls)
    keep [] s h = h
    keep (c ∷ cs) s h = keep cs (act first c s) (act-IsBounded first c s h)
