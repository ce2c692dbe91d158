-- ===== src/AppState/Synced.antt =====
-- The presence that channel users show is the one that `set_presence` recorded last.
use ircord_client.Base.{
  ◌≡◌, Option, some, List, [], ◌∷◌, arith, inl, inr, Bool-cases, Option-cases, if◌then◌else◌, Text,
  text_eq, text_eq_iff,
}
use ircord_client.Base.Assoc.{
  Assoc, lookup, insert, lookup-insert, erase, lookup-erase, adjust, lookup-adjust, map_values,
  lookup-map_values, contains, map_option,
}
use ircord_client.AppState.{
  AppState, ChannelState, PresenceStatus, UserRole, ChannelUserInfo, VoiceStatus, with_presence,
  with_voice, synced, fill_users, find_user, channel_user, users_from_online, set_presence,
  set_channel_users, add_channel_user, remove_channel_user, set_user_role,
  ensure_channel_users_from_online, set_user_voice_status, Change, sets_presence, sets_users,
  adds_user, removes_user, sets_role, fills_from_online, sets_voice_status, act, run, new,
  ensure_channel, remove_channel, set_active_channel, mark_read, scroll_to_bottom, push_message,
  scroll_up, scroll_down,
}
use ircord_client.AppState.FromOnline.{IsMap, insert-IsMap, lookup-users_from_online, lookup-nil}

-- What `find` gives in the users of a channel after an update of all lists, or of one.
abbrev in_channel : Text → Text → Assoc (Assoc ChannelUserInfo) → Option ChannelUserInfo
in_channel ch id members = find_user id (lookup ch members)

in_channel-map_values :
    (ch id k : Text) (f : ChannelUserInfo → ChannelUserInfo) (m : Assoc (Assoc ChannelUserInfo))
    → in_channel ch id (map_values (adjust k f) m)
      ≡ (if text_eq k id then map_option f (in_channel ch id m) else in_channel ch id m)
in_channel-map_values ch id k f m = elim (Option-cases (lookup ch m)) [
  | inl e ↦ ground (arith, lookup-map_values (adjust k f) ch m)
  | inr (users, e) ↦ ground (arith, lookup-map_values (adjust k f) ch m, lookup-adjust k id f users)
]

in_channel-adjust :
    (ch id c : Text) (f : Assoc ChannelUserInfo → Assoc ChannelUserInfo)
    (m : Assoc (Assoc ChannelUserInfo))
    → in_channel ch id (adjust c f m)
      ≡ (if text_eq c ch then find_user id (map_option f (lookup ch m)) else in_channel ch id m)
in_channel-adjust ch id c f m = rw lookup-adjust (ground arith)

-- Every channel user whose presence is recorded shows the recorded one.
abbrev pub Agrees : AppState → Type 0
Agrees s =
    (ch id : Text) (u : ChannelUserInfo) (p : PresenceStatus)
    → channel_user ch id s ≡ some u
    → lookup id s.presences ≡ some p
    → u.presence ≡ p

pub record IsSynced (s : AppState) : Type 0 where
  pub is_map : IsMap s.presences
  pub agrees : Agrees s

module _ (s : AppState) (v : IsSynced s) where
  set_presence-IsSynced : (k : Text) (status : PresenceStatus) → IsSynced (set_presence k status s)
  unfolding set_presence channel_user
  set_presence-IsSynced k status = record {
    is_map = insert-IsMap k status s.presences v.is_map;
    agrees = λ ch id u p e f. elim (Option-cases (in_channel ch id s.members)) [
      | inl g ↦ ground (arith, in_channel-map_values ch id k (with_presence status) s.members)
      | inr (u0, g) ↦ ground (
        arith,
        in_channel-map_values ch id k (with_presence status) s.members,
        lookup-insert k id status s.presences,
        v.agrees ch id u0 p,
      )
    ];
  }

  set_user_voice_status-IsSynced :
      (k : Text) (status : VoiceStatus) → IsSynced (set_user_voice_status k status s)
  unfolding set_user_voice_status channel_user
  set_user_voice_status-IsSynced k status = record {
    is_map = v.is_map;
    agrees = λ ch id u p e f. elim (Option-cases (in_channel ch id s.members)) [
      | inl g ↦ ground (arith, in_channel-map_values ch id k (with_voice status) s.members)
      | inr (u0, g) ↦
          ground (
            arith,
            in_channel-map_values ch id k (with_voice status) s.members,
            v.agrees ch id u0 p,
          )
    ];
  }

  remove_channel_user-IsSynced : (c k : Text) → IsSynced (remove_channel_user c k s)
  unfolding remove_channel_user channel_user
  remove_channel_user-IsSynced c k = record {
    is_map = v.is_map;
    agrees = λ ch id u p e f. elim (Option-cases (lookup ch s.members)) [
      | inl g ↦ ground (arith, in_channel-adjust ch id c (erase k) s.members)
      | inr (users, g) ↦ ground (
        arith,
        in_channel-adjust ch id c (erase k) s.members,
        lookup-erase k id users,
        v.agrees ch id u p,
      )
    ];
  }

  set_user_role-IsSynced : (c k : Text) (role : UserRole) → IsSynced (set_user_role c k role s)
  unfolding set_user_role channel_user
  set_user_role-IsSynced c k role = record {
    is_map = v.is_map;
    agrees = λ ch id u p e f. elim (Option-cases (lookup ch s.members)) [
      | inl g ↦
          ground
            (arith, in_channel-adjust ch id c (adjust k (λ u. record u { role = role })) s.members)
      | inr (users, g) ↦ elim (Option-cases (lookup id users)) [
        | inl g' ↦ ground (
          arith,
          in_channel-adjust ch id c (adjust k (λ u. record u { role = role })) s.members,
          lookup-adjust k id (λ u. record u { role = role }) users,
        )
        | inr (u0, g') ↦ ground (
          arith,
          in_channel-adjust ch id c (adjust k (λ u. record u { role = role })) s.members,
          lookup-adjust k id (λ u. record u { role = role }) users,
          v.agrees ch id u0 p,
        )
      ]
    ];
  }

  -- What `add_channel_user` and `set_channel_users` store agrees with what is recorded.
  synced-agrees :
      (u : ChannelUserInfo) (p : PresenceStatus)
      → lookup u.user_id s.presences ≡ some p
      → (synced s u).presence ≡ p
  unfolding synced
  synced-agrees u p h = ground arith

  abbrev StoreAgrees : Assoc ChannelUserInfo → Type 0
  StoreAgrees m =
      (id : Text) (u : ChannelUserInfo) (p : PresenceStatus)
      → lookup id m ≡ some u
      → lookup id s.presences ≡ some p
      → u.presence ≡ p

  insert-StoreAgrees :
      (u : ChannelUserInfo) (m : Assoc ChannelUserInfo)
      → StoreAgrees m
      → StoreAgrees (insert u.user_id (synced s u) m)
  insert-StoreAgrees u m h id w p e f = ground (
    arith,
    lookup-insert u.user_id id (synced s u) m,
    text_eq_iff u.user_id id,
    synced-agrees u p,
    h id w p,
  )

  fill_users-StoreAgrees :
      (us : List ChannelUserInfo) (m : Assoc ChannelUserInfo)
      → StoreAgrees m
      → StoreAgrees (fill_users s us m)
  unfolding fill_users
  fill_users-StoreAgrees [] m h = h
  fill_users-StoreAgrees (u ∷ us) m h = fill_users-StoreAgrees us _ (insert-StoreAgrees u m h)

  -- A channel gets a list that agrees.
  store-IsSynced :
      (c : Text) (m : Assoc ChannelUserInfo)
      → StoreAgrees m
      → IsSynced (record s { members = insert c m s.members })
  unfolding channel_user
  store-IsSynced c m h = record {
    is_map = v.is_map;
    agrees = λ ch id u p e f.
        ground (arith, lookup-insert c ch m s.members, h id u p, v.agrees ch id u p);
  }

  set_channel_users-IsSynced :
      (c : Text) (us : List ChannelUserInfo) → IsSynced (set_channel_users c us s)
  unfolding set_channel_users
  set_channel_users-IsSynced c us =
      store-IsSynced c _ (fill_users-StoreAgrees us [] (unfold lookup in λ id u p e f. cc))

  add_channel_user-IsSynced : (c : Text) (u : ChannelUserInfo) → IsSynced (add_channel_user c u s)
  unfolding add_channel_user channel_user lookup
  add_channel_user-IsSynced c u = store-IsSynced c _ (
      insert-StoreAgrees u _ (elim (Option-cases (lookup c s.members)) [
        | inl g ↦ rw g (λ id w p e f. cc)
        | inr (users, g) ↦ rw g (λ id w p e f. ground (arith, v.agrees c id w p))
      ]))

  from_online-IsSynced : (c : Text) → IsSynced (ensure_channel_users_from_online c s)
  unfolding ensure_channel_users_from_online
  from_online-IsSynced c = elim (Bool-cases (contains c s.members)) [
    | inl e ↦ rw e v
    | inr e ↦ rw e (store-IsSynced c _ made)
  ]
    where
      made : StoreAgrees (users_from_online s.presences [])
      made id u p e f =
          ground (arith, lookup-users_from_online id s.presences [] v.is_map, lookup-nil id)

act-IsSynced :
    (first : Assoc ChannelState → Text) (c : Change) (s : AppState)
    → IsSynced s
    → IsSynced (act first c s)
unfolding act ensure_channel remove_channel set_active_channel mark_read scroll_to_bottom
    push_message scroll_up scroll_down channel_user
act-IsSynced first (sets_presence id status) s v = set_presence-IsSynced s v id status
act-IsSynced first (sets_users id us) s v = set_channel_users-IsSynced s v id us
act-IsSynced first (adds_user id u) s v = add_channel_user-IsSynced s v id u
act-IsSynced first (removes_user id u) s v = remove_channel_user-IsSynced s v id u
act-IsSynced first (sets_role id u r) s v = set_user_role-IsSynced s v id u r
act-IsSynced first (fills_from_online id) s v = from_online-IsSynced s v id
act-IsSynced first (sets_voice_status id status) s v = set_user_voice_status-IsSynced s v id status
act-IsSynced first _ s v = record { is_map = v.is_map; agrees = v.agrees }

-- After any calls on a new state, every channel user whose presence is recorded shows the recorded
-- one, in every channel.
pub run-new-IsSynced :
    (first : Assoc ChannelState → Text) (calls : List Change) → IsSynced (run first new calls)
unfolding channel_user lookup
run-new-IsSynced first calls = keep calls new (record { is_map = tt; agrees = λ ch id u p e f. cc })
  where
    keep : (calls : List Change) (s : AppState) → IsSynced s → IsSynced (run first s calls)
    keep [] s v = v
    keep (c ∷ cs) s v = keep cs (act first c s) (act-IsSynced first c s v)
