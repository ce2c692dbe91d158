-- ===== src/AppState/Tests.antt =====
-- Runs of the state, and each theorem at an input that meets its hypotheses.
use ircord_client.Base.{
  ◌≡◌, refl, ap, none, List, [], ◌∷◌, arith, Text, codes, text_eq, text_eq_refl, text_lt,
}
use ircord_client.Base.Assoc.{map_values, Assoc, lookup, insert}
use ircord_client.Base.Sort.{sort}
use ircord_client.AppState.{
  AppState, ChannelState, Message, chat, online, away, talking, Change, ensures, pushes,
  sets_presence, sets_voice_status, fills_from_online, act, run, new, server, ensure_channel,
  push_message, set_presence, channel_snapshot, channel_list, channel_before,
  ensure_channel_users_from_online,
}
use ircord_client.AppState.Window.{push_messages, push_messages-snapshot}
use ircord_client.AppState.Active.{Picks}
use ircord_client.AppState.Synced.{IsSynced, run-new-IsSynced}

abbrev hello : Message
hello = record {
  sender_id = codes "ann";
  content = codes "hi";
  timestamp_ms = 7;
  kind = chat;
  link_preview = none;
}

abbrev first_key : Assoc ChannelState → Text
first_key [] = []
first_key ((k, v) ∷ m) = k

first_key-Picks : Picks first_key
unfolding lookup
first_key-Picks [] h = cc
first_key-Picks ((k, v) ∷ m) h = rw text_eq_refl

abbrev calls : List Change
calls =
    ensures (codes "server")
    ∷ ensures (codes "#b")
    ∷ ensures (codes "#a")
    ∷ pushes (codes "#a") hello
    ∷ sets_presence (codes "ann") online
    ∷ fills_from_online (codes "#a")
    ∷ sets_presence (codes "ann") away
    ∷ []

abbrev used : AppState
used = run first_key new calls

used_list : channel_list used ≡ codes "server" ∷ codes "#a" ∷ codes "#b" ∷ []
unfolding act ensure_channel push_message set_presence ensure_channel_users_from_online channel_list
    sort channel_before text_lt text_eq insert lookup map_values
used_list = refl

used_unread : (channel_snapshot (codes "#a") used).unread_count ≡ 1
unfolding act ensure_channel push_message set_presence ensure_channel_users_from_online
    channel_snapshot text_eq insert lookup map_values
used_unread = refl

push_messages-snapshot_example :
    (channel_snapshot server (push_messages server (hello ∷ hello ∷ []) new)).messages
    ≡ hello ∷ hello ∷ []
unfolding channel_snapshot lookup
push_messages-snapshot_example =
    ap (λ (ch : ChannelState). ch.messages)
      (push_messages-snapshot server (hello ∷ hello ∷ []) new (omega arith))

run-new-IsSynced_example : IsSynced used
run-new-IsSynced_example = run-new-IsSynced first_key calls

-- Someone who talks, put into a new list from the presences: shown as off.
abbrev talker : AppState
talker =
    run first_key new
      (sets_presence (codes "ann") online ∷ sets_voice_status (codes "ann") talking ∷ [])
