-- ===== src/AppState/Types.antt =====
-- The structures that src/state/ declares: messages, channels, users, the voice room.
use ircord_client.Base.Assoc.{Assoc}
use ircord_client.Base.{ℕ, Bool, true, false, Option, List, [], Text, codes, ◌++◌}

pub record Preview : Type 0 where
  pub title : Text
  pub description : Text
  pub loaded : Bool

pub data MessageType : Type 0 where
  chat system voice_event : MessageType

-- Timestamps are milliseconds since the epoch.
pub record Message : Type 0 where
  pub sender_id : Text
  pub content : Text
  pub timestamp_ms : ℕ
  pub kind : MessageType
  pub link_preview : Option Preview

-- Oldest message first. The counters start at 0 and only grow by amounts that are not negative.
pub record ChannelState : Type 0 where
  pub messages : List Message
  pub unread_count : ℕ
  pub scroll_offset : ℕ

abbrev pub new_channel : ChannelState
new_channel = record { messages = []; unread_count = 0; scroll_offset = 0 }

pub data PresenceStatus : Type 0 where
  offline online away : PresenceStatus

abbrev pub presence_eq : PresenceStatus → PresenceStatus → Bool
presence_eq offline offline = true
presence_eq online online = true
presence_eq away away = true
presence_eq _ _ = false

pub data UserRole : Type 0 where
  regular voice admin : UserRole

-- `static_cast<int>(role)`
abbrev pub role_rank : UserRole → ℕ
role_rank regular = 0
role_rank voice = 1
role_rank admin = 2

pub data VoiceStatus : Type 0 where
  off muted talking : VoiceStatus

pub record ChannelUserInfo : Type 0 where
  pub user_id : Text
  pub role : UserRole
  pub presence : PresenceStatus
  pub voice_status : VoiceStatus

abbrev pub role_prefix : UserRole → Text
role_prefix admin = codes "@"
role_prefix voice = codes "+"
role_prefix regular = []

unfoldable pub display_name : ChannelUserInfo → Text
display_name u = role_prefix u.role ++ u.user_id

pub record VoiceState : Type 0 where
  pub in_voice : Bool
  pub muted : Bool
  pub deafened : Bool
  pub active_channel : Text
  pub participants : List Text
  pub speaking_peers : List Text
  pub voice_mode : Text

pub record SearchResult : Type 0 where
  pub channel_id : Text
  pub sender_id : Text
  pub content : Text
  pub timestamp_ms : ℕ

pub record AppState : Type 0 where
  pub channels : Assoc ChannelState
  pub active : Text
  pub presences : Assoc PresenceStatus
  pub voice : VoiceState
  pub members : Assoc (Assoc ChannelUserInfo)
  pub voice_statuses : Assoc VoiceStatus
  pub is_connected : Bool
  pub local_user : Text
  pub results : List SearchResult
