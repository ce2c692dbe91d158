-- ===== src/AppState/Members.antt =====
-- The methods of src/state/app_state.cpp on presence, voice status and channel users.
use ircord_client.Base.{
  Bool, not, Option, none, some, List, [], ◌∷◌, ltb, ◌==◌, if◌then◌else◌, Text, text_lt,
}
use ircord_client.Base.Assoc.{
  Assoc, lookup, insert, erase, adjust, map_values, contains, or_default,
}
use ircord_client.Base.Sort.{sort}
use ircord_client.AppState.Types.{
  AppState, PresenceStatus, offline, UserRole, regular, VoiceStatus, off, ChannelUserInfo,
  presence_eq, role_rank,
}

-- Presence.
abbrev pub with_presence : PresenceStatus → ChannelUserInfo → ChannelUserInfo
with_presence status u = record u { presence = status }

abbrev pub with_voice : VoiceStatus → ChannelUserInfo → ChannelUserInfo
with_voice status u = record u { voice_status = status }

unfoldable pub set_presence : Text → PresenceStatus → AppState → AppState
set_presence user_id status s = record s {
  presences = insert user_id status s.presences;
  members = map_values (adjust user_id (with_presence status)) s.members;
}

unfoldable pub presence : Text → AppState → PresenceStatus
presence user_id s = or_default offline (lookup user_id s.presences)

-- The users of a presence map that are not offline.
abbrev pub is_here : PresenceStatus → Bool
is_here status = not (presence_eq status offline)

unfoldable pub those_here : Assoc PresenceStatus → List Text
those_here [] = []
those_here ((id, status) ∷ m) = if is_here status then id ∷ those_here m else those_here m

unfoldable pub online_users : AppState → List Text
unfolding those_here
online_users s = sort text_lt (those_here s.presences)

-- Channel users. `info` with the presence and the voice status that are known for its user.
abbrev over_presence : ChannelUserInfo → Option PresenceStatus → ChannelUserInfo
over_presence u none = u
over_presence u (some status) = with_presence status u

abbrev over_voice : ChannelUserInfo → Option VoiceStatus → ChannelUserInfo
over_voice u none = u
over_voice u (some status) = with_voice status u

unfoldable pub synced : AppState → ChannelUserInfo → ChannelUserInfo
synced s u =
    over_voice (over_presence u (lookup u.user_id s.presences)) (lookup u.user_id s.voice_statuses)

-- The loop of `set_channel_users`, on the list of the channel.
unfoldable pub fill_users :
    AppState → List ChannelUserInfo → Assoc ChannelUserInfo → Assoc ChannelUserInfo
fill_users s [] m = m
fill_users s (u ∷ us) m = fill_users s us (insert u.user_id (synced s u) m)

unfoldable pub set_channel_users : Text → List ChannelUserInfo → AppState → AppState
unfolding fill_users
set_channel_users channel_id users s = record s {
  members = insert channel_id (fill_users s users []) s.members;
}

unfoldable pub add_channel_user : Text → ChannelUserInfo → AppState → AppState
add_channel_user channel_id user s =
    let users = or_default [] (lookup channel_id s.members) in
    record s { members = insert channel_id (insert user.user_id (synced s user) users) s.members }

unfoldable pub remove_channel_user : Text → Text → AppState → AppState
remove_channel_user channel_id user_id s = record s {
  members = adjust channel_id (erase user_id) s.members;
}

unfoldable pub set_user_role : Text → Text → UserRole → AppState → AppState
set_user_role channel_id user_id role s = record s {
  members = adjust channel_id (adjust user_id (λ u. record u { role = role })) s.members;
}

-- The comparator of `channel_users`: higher roles first, then by name.
unfoldable pub user_before : ChannelUserInfo → ChannelUserInfo → Bool
user_before a b =
    if role_rank a.role == role_rank b.role
    then text_lt a.user_id b.user_id
    else ltb (role_rank b.role) (role_rank a.role)

abbrev pub values {ℓ} : {V : Type ℓ} → Assoc V → List V
values [] = []
values ((k, v) ∷ m) = v ∷ values m

unfoldable pub channel_users : Text → AppState → List ChannelUserInfo
channel_users channel_id s = sort user_before (values (or_default [] (lookup channel_id s.members)))

abbrev pub find_user : Text → Option (Assoc ChannelUserInfo) → Option ChannelUserInfo
find_user user_id none = none
find_user user_id (some users) = lookup user_id users

unfoldable pub channel_user : Text → Text → AppState → Option ChannelUserInfo
channel_user channel_id user_id s = find_user user_id (lookup channel_id s.members)

-- A regular user with a presence; the voice status is the default.
abbrev pub user_from : Text → PresenceStatus → ChannelUserInfo
user_from id status = record { user_id = id; role = regular; presence = status; voice_status = off }

unfoldable pub users_from_online :
    Assoc PresenceStatus → Assoc ChannelUserInfo → Assoc ChannelUserInfo
users_from_online [] m = m
users_from_online ((id, status) ∷ online) m =
    users_from_online online (if is_here status then insert id (user_from id status) m else m)

unfoldable pub ensure_channel_users_from_online : Text → AppState → AppState
ensure_channel_users_from_online channel_id s =
    if contains channel_id s.members
    then s
    else record s { members = insert channel_id (users_from_online s.presences []) s.members }

unfoldable pub set_user_voice_status : Text → VoiceStatus → AppState → AppState
set_user_voice_status user_id status s = record s {
  voice_statuses = insert user_id status s.voice_statuses;
  members = map_values (adjust user_id (with_voice status)) s.members;
}

unfoldable pub user_voice_status : Text → AppState → VoiceStatus
user_voice_status user_id s = or_default off (lookup user_id s.voice_statuses)
