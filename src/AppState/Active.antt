-- ===== src/AppState/Active.antt =====
-- Which channel is active, and how much each channel holds.
use ircord_client.Base.{
  ◌≡◌, ◌≢◌, ◌∙◌, true, false, ◌⊎◌, [], arith, inl, inr, Text, text_eq_iff, text_eq_refl, is_empty,
}
use ircord_client.Base.Assoc.{
  Assoc, insert, lookup-insert, erase, lookup-erase, adjust, lookup-adjust, contains,
}
use ircord_client.AppState.{
  AppState, Message, ChannelState, new_channel, push_message, ensure_channel, remove_channel,
  set_active_channel, mark_read, scroll_to_bottom, scroll_up, scroll_down, without_unread,
  fall_back, Change, ensures, removes, activates, reads, bottoms, pushes, scrolls_up, scrolls_down,
  fills_from_online, sets_presence, sets_users, adds_user, removes_user, sets_role,
  sets_voice_status, sets_voice, sets_connected, sets_local_user, sets_results, act, set_presence,
  set_channel_users, add_channel_user, remove_channel_user, set_user_role,
  ensure_channel_users_from_online, set_user_voice_status,
}

-- The active channel is unset or one of the channels.
abbrev pub IsShown : AppState → Type 0
IsShown s = (s.active ≡ []) ⊎ (contains s.active s.channels ≡ true)

-- Only a known channel is made active.
abbrev pub Allowed : Change → AppState → Type 0
Allowed (activates id) s = contains id s.channels ≡ true
Allowed _ s = Unit {0}

-- `begin()` of a map that is not empty is one of its entries.
abbrev pub Picks : (Assoc ChannelState → Text) → Type 0
Picks first = (m : Assoc ChannelState) → is_empty m ≡ false → contains (first m) m ≡ true

module _ {V : Type 0} where
  contains-insert :
      (k j : Text) (v : V) (m : Assoc V) → contains j m ≡ true → contains j (insert k v m) ≡ true
  contains-insert k j v m h = rw lookup-insert (ground arith)

  contains-insert_self : (k : Text) (v : V) (m : Assoc V) → contains k (insert k v m) ≡ true
  contains-insert_self k v m = rw (lookup-insert, text_eq_refl)

  contains-adjust :
      (k j : Text) (f : V → V) (m : Assoc V) → contains j (adjust k f m) ≡ contains j m
  contains-adjust k j f m = rw lookup-adjust (ground arith)

  contains-erase : (k j : Text) (m : Assoc V) → k ≢ j → contains j (erase k m) ≡ contains j m
  contains-erase k j m h = rw lookup-erase (ground (arith, text_eq_iff k j))

ensure_channel-IsShown : (id : Text) (s : AppState) → IsShown s → IsShown (ensure_channel id s)
unfolding ensure_channel
ensure_channel-IsShown id s h = ground (
  arith,
  contains-insert id s.active new_channel s.channels,
  contains-insert_self id new_channel s.channels,
)

push_message-IsShown :
    (id : Text) (m : Message) (s : AppState) → IsShown s → IsShown (push_message id m s)
unfolding push_message
push_message-IsShown id m s (inl e) = inl e
push_message-IsShown id m s (inr e) = inr (contains-insert id s.active _ s.channels e)

remove_channel-IsShown :
    (first : Assoc ChannelState → Text) (id : Text) (s : AppState)
    → Picks first
    → IsShown s
    → IsShown (remove_channel first id s)
unfolding remove_channel fall_back
remove_channel-IsShown first id s picks h = ground (
  arith,
  picks (erase id s.channels),
  text_eq_iff s.active id,
  contains-erase id s.active s.channels,
)

adjust-IsShown :
    (id : Text) (f : ChannelState → ChannelState) (s : AppState)
    → IsShown s
    → IsShown (record s { channels = adjust id f s.channels })
adjust-IsShown id f s (inl e) = inl e
adjust-IsShown id f s (inr e) = inr (contains-adjust id s.active f s.channels ∙ e)

-- Every method keeps the active channel unset or known, if only known channels are made active,
-- and if `begin()` of a map that is not empty is one of its entries.
pub act-IsShown :
    (first : Assoc ChannelState → Text) (c : Change) (s : AppState)
    → Picks first
    → Allowed c s
    → IsShown s
    → IsShown (act first c s)
unfolding act
act-IsShown first (ensures id) s picks ok h = ensure_channel-IsShown id s h
act-IsShown first (removes id) s picks ok h = remove_channel-IsShown first id s picks h
act-IsShown first (activates id) s picks ok h =
    unfold set_active_channel in inr (contains-adjust id id without_unread s.channels ∙ ok)
act-IsShown first (reads id) s picks ok h = unfold mark_read in adjust-IsShown id _ s h
act-IsShown first (bottoms id) s picks ok h = unfold scroll_to_bottom in adjust-IsShown id _ s h
act-IsShown first (pushes id msg) s picks ok h = push_message-IsShown id msg s h
act-IsShown first (scrolls_up id n) s picks ok h = unfold scroll_up in adjust-IsShown id _ s h
act-IsShown first (scrolls_down id n) s picks ok h = unfold scroll_down in adjust-IsShown id _ s h
act-IsShown first (fills_from_online id) s picks ok h =
    unfold ensure_channel_users_from_online in ground arith
act-IsShown first (sets_presence id status) s picks ok h = unfold set_presence in h
act-IsShown first (sets_users id us) s picks ok h = unfold set_channel_users in h
act-IsShown first (adds_user id u) s picks ok h = unfold add_channel_user in h
act-IsShown first (removes_user id u) s picks ok h = unfold remove_channel_user in h
act-IsShown first (sets_role id u r) s picks ok h = unfold set_user_role in h
act-IsShown first (sets_voice_status id status) s picks ok h = unfold set_user_voice_status in h
act-IsShown first (sets_voice v) s picks ok h = h
act-IsShown first (sets_connected b) s picks ok h = h
act-IsShown first (sets_local_user id) s picks ok h = h
act-IsShown first (sets_results rs) s picks ok h = h
