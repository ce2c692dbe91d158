-- ===== src/AppState/FromOnline.antt =====
-- The users that a channel gets from the presences.
use ircord_client.Base.{
  ◌≡◌, refl, ◌∙◌, Option, none, some, [], ◌∷◌, arith, inl, inr, Bool-cases, if◌then◌else◌, Text,
  text_eq, text_eq_iff, text_eq_refl,
}
use ircord_client.Base.Assoc.{Assoc, lookup, insert, lookup-insert, contains}
use ircord_client.AppState.{
  AppState, PresenceStatus, ChannelUserInfo, is_here, channel_user, user_from, users_from_online,
  ensure_channel_users_from_online,
}

-- No key stands twice, as in any map of the source.
abbrev pub IsMap {ℓ} : {V : Type ℓ} → Assoc V → Type ℓ
IsMap [] = Unit {ℓ}
IsMap ((k, v) ∷ m) = (lookup k m ≡ none) × IsMap m

pub insert-IsMap : {V : Type 0} (k : Text) (v : V) (m : Assoc V) → IsMap m → IsMap (insert k v m)
unfolding insert lookup
insert-IsMap k v [] h = (refl, tt)
insert-IsMap k v ((j, w) ∷ m) h = elim (Bool-cases (text_eq j k)) [
  | inl e ↦ rw e h
  | inr e ↦
      rw e (
        rw lookup-insert (ground (arith, text_eq_iff j k, text_eq_iff k j)),
        insert-IsMap k v m h.1,
      )
]

-- The user that `ensure_channel_users_from_online` makes of a presence, if any.
abbrev pub made_from : Text → Option PresenceStatus → Option ChannelUserInfo
made_from id none = none
made_from id (some status) = if is_here status then some (user_from id status) else none

abbrev pub or_else : Option ChannelUserInfo → Option ChannelUserInfo → Option ChannelUserInfo
or_else none o = o
or_else (some u) o = some u

or_else-none : (o : Option ChannelUserInfo) → or_else o none ≡ o
or_else-none none = refl
or_else-none (some u) = refl

pub lookup-users_from_online :
    (j : Text) (online : Assoc PresenceStatus) (m : Assoc ChannelUserInfo)
    → IsMap online
    → lookup j (users_from_online online m) ≡ or_else (made_from j (lookup j online)) (lookup j m)
unfolding users_from_online lookup
lookup-users_from_online j [] m h = refl
lookup-users_from_online j ((id, status) ∷ online) m h = ground (
  arith,
  lookup-users_from_online j online m h.1,
  lookup-users_from_online j online (insert id (user_from id status) m) h.1,
  lookup-insert id j (user_from id status) m,
  text_eq_iff id j,
)

-- A channel with no user list yet gets each user who is not offline, with that presence, as a
-- regular user whose voice status is off; a channel that has a list keeps it.
pub channel_user-from_online :
    (channel_id user_id : Text) (s : AppState)
    → IsMap s.presences
    → channel_user channel_id user_id (ensure_channel_users_from_online channel_id s) ≡ (
        if contains channel_id s.members
        then channel_user channel_id user_id s
        else made_from user_id (lookup user_id s.presences))
unfolding ensure_channel_users_from_online channel_user
channel_user-from_online channel_id user_id s h =
    elim (Bool-cases (contains channel_id s.members)) [
      | inl e ↦ rw e
      | inr e ↦
          rw (e, lookup-insert, text_eq_refl)
            (lookup-users_from_online user_id s.presences [] h ∙ unfold lookup in or_else-none _)
    ]

pub lookup-nil : (id : Text) → lookup {V = ChannelUserInfo} id [] ≡ none
unfolding lookup
lookup-nil id = refl
