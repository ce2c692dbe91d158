-- ===== src/AppState/Order.antt =====
-- The order of the lists that the state hands out.
use ircord_client.Base.{
  ◌≡◌, true, [], arith, inl, inr, Bool-cases, Text, text_eq, text_eq_iff, text_lt_asym,
}
use mathlib.Core.List.{Perm}
use ircord_client.Base.Assoc.{lookup, or_default, keys}
use ircord_client.Base.Sort.{IsSorted, sort-perm, sort-IsSorted, MayPrecede}
use ircord_client.AppState.{
  AppState, ChannelUserInfo, channel_before, channel_list, server, user_before, channel_users,
  values,
}

channel_before-asym : (x y : Text) → channel_before x y ≡ true → MayPrecede channel_before x y
unfolding channel_before
channel_before-asym x y h = elim (Bool-cases (text_eq x y)) [
  | inl e ↦ inr ((text_eq_iff x y).0 e)
  | inr e ↦ inl (
      ground (arith, text_eq_iff x server, text_eq_iff y server, text_eq_iff x y, text_lt_asym x y))
]

user_before-asym : (x y : ChannelUserInfo) → user_before x y ≡ true → MayPrecede user_before x y
unfolding user_before
user_before-asym x y h = inl (ground (arith, text_lt_asym x.user_id y.user_id))

channel_list-IsSorted :
    (s : AppState)
    → Perm (channel_list s) (keys s.channels) × IsSorted channel_before (channel_list s)
unfolding channel_list
channel_list-IsSorted s =
    (sort-perm channel_before _, sort-IsSorted channel_before channel_before-asym _)

channel_users-IsSorted :
    (channel_id : Text) (s : AppState)
    → Perm (channel_users channel_id s) (values (or_default [] (lookup channel_id s.members)))
      × IsSorted user_before (channel_users channel_id s)
unfolding channel_users
channel_users-IsSorted channel_id s =
    (sort-perm user_before _, sort-IsSorted user_before user_before-asym _)

-- `channel_list` holds each channel as often as the state does, "server" before any other and the
-- others by name; `channel_users` holds the users of the channel, each as often as the state does,
-- higher roles first and by name within a role.
pub lists-IsSorted :
    (channel_id : Text) (s : AppState)
    → (Perm (channel_list s) (keys s.channels) × IsSorted channel_before (channel_list s))
      × (Perm (channel_users channel_id s) (values (or_default [] (lookup channel_id s.members)))
          × IsSorted user_before (channel_users channel_id s))
lists-IsSorted channel_id s = (channel_list-IsSorted s, channel_users-IsSorted channel_id s)
