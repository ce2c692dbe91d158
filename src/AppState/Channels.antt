-- ===== src/AppState/Channels.antt =====
-- The methods of src/state/app_state.cpp on channels and their messages.
use ircord_client.Base.{
  ℕ, ◌+◌, ◌-◌, Bool, true, false, not, ◌||◌, Option, none, some, List, [], ◌∷◌, ◌++◌, ltb,
  if◌then◌else◌, length, is_empty, Text, codes, text_eq, text_lt,
}
use mathlib.Core.List.{tail}
use ircord_client.Base.Assoc.{Assoc, lookup, insert, erase, adjust, contains, or_default, keys}
use ircord_client.Base.Sort.{sort}
use ircord_client.AppState.Types.{AppState, Message, ChannelState, new_channel}

-- kMaxMessages
abbrev pub max_messages : ℕ
max_messages = 1000

abbrev pub server : Text
server = codes "server"

-- Channels. `try_emplace` leaves a channel that is there.
unfoldable pub ensure_channel : Text → AppState → AppState
ensure_channel channel_id s = record s {
  channels =
      if contains channel_id s.channels
      then s.channels
      else insert channel_id new_channel s.channels;
  active = if is_empty s.active then channel_id else s.active;
}

-- `push_back`, and `pop_front` of what is over the limit.
unfoldable pub push_bounded {ℓ} : {A : Type ℓ} → ℕ → A → List A → List A
push_bounded n x xs = let all = xs ++ (x ∷ []) in if ltb n (length all) then tail all else all

-- The channel after `push_message`, which may or may not be on the screen.
unfoldable pub receive : Bool → Message → ChannelState → ChannelState
unfolding push_bounded
receive elsewhere msg ch = record ch {
  messages = push_bounded max_messages msg ch.messages;
  unread_count =
      if elsewhere || ltb 0 ch.scroll_offset then ch.unread_count + 1 else ch.unread_count;
}

unfoldable pub push_message : Text → Message → AppState → AppState
unfolding receive
push_message channel_id msg s =
    let ch = or_default new_channel (lookup channel_id s.channels) in
    record s {
      channels = insert channel_id (receive (not (text_eq channel_id s.active)) msg ch) s.channels;
    }

unfoldable pub active_channel : AppState → Option Text
active_channel s = if is_empty s.active then none else some s.active

abbrev pub without_unread : ChannelState → ChannelState
without_unread ch = record ch { unread_count = 0 }

unfoldable pub set_active_channel : Text → AppState → AppState
set_active_channel channel_id s = record s {
  active = channel_id;
  channels = adjust channel_id without_unread s.channels;
}

-- The comparator of `channel_list`.
unfoldable pub channel_before : Text → Text → Bool
channel_before a b =
    if text_eq a server then true else if text_eq b server then false else text_lt a b

unfoldable pub channel_list : AppState → List Text
channel_list s = sort channel_before (keys s.channels)

unfoldable pub channel_snapshot : Text → AppState → ChannelState
channel_snapshot channel_id s = or_default new_channel (lookup channel_id s.channels)

-- `first m` stands for `m.begin()->first`: some key of an unordered map that is not empty.
unfoldable pub fall_back : (Assoc ChannelState → Text) → Assoc ChannelState → Text
fall_back first channels =
    if contains server channels
    then server
    else if not (is_empty channels)
    then first channels
    else []

unfoldable pub remove_channel : (Assoc ChannelState → Text) → Text → AppState → AppState
unfolding fall_back
remove_channel first channel_id s =
    let rest = erase channel_id s.channels in
    record s {
      channels = rest;
      active = if text_eq s.active channel_id then fall_back first rest else s.active;
    }

unfoldable pub scroll_up : Text → ℕ → AppState → AppState
scroll_up channel_id lines s = record s {
  channels =
      adjust channel_id (λ ch. record ch { scroll_offset = ch.scroll_offset + lines }) s.channels;
}

-- `-` stops at 0, as `std::max(0, …)` does.
unfoldable pub scroll_down : Text → ℕ → AppState → AppState
scroll_down channel_id lines s = record s {
  channels =
      adjust channel_id (λ ch. record ch { scroll_offset = ch.scroll_offset - lines }) s.channels;
}

unfoldable pub scroll_to_bottom : Text → AppState → AppState
scroll_to_bottom channel_id s = record s {
  channels = adjust channel_id (λ ch. record ch { scroll_offset = 0 }) s.channels;
}

unfoldable pub mark_read : Text → AppState → AppState
mark_read channel_id s = record s { channels = adjust channel_id without_unread s.channels }

abbrev unread_of : Option ChannelState → ℕ
unread_of none = 0
unread_of (some ch) = ch.unread_count

unfoldable pub unread_count : Text → AppState → ℕ
unread_count channel_id s = unread_of (lookup channel_id s.channels)
