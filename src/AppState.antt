-- ===== src/AppState.antt =====
-- src/state/app_state.cpp with the structures of app_state.hpp, channel_state.hpp and
-- voice_state.hpp. Each method is one step under the lock, so it is a function on the record.
-- The unordered maps are association lists; only `begin()` reads their order.
mod Types
mod Channels
mod Members
pub mod Window
pub mod Active
pub mod Bounds
pub mod Order
pub mod FromOnline
pub mod Synced
mod Tests
unfoldable pub use Types.*
unfoldable pub use Channels.*
unfoldable pub use Members.*
use ircord_client.Base.{ℕ, Bool, false, List, [], ◌∷◌, Text, codes}
use ircord_client.Base.Assoc.{Assoc}

-- Every method that changes the object; `first` is as for `remove_channel`.
pub data Change : Type 0 where
  ensures removes activates reads bottoms : Text → Change
  pushes : Text → Message → Change
  scrolls_up scrolls_down : Text → ℕ → Change
  sets_presence : Text → PresenceStatus → Change
  sets_users : Text → List ChannelUserInfo → Change
  adds_user : Text → ChannelUserInfo → Change
  removes_user : Text → Text → Change
  sets_role : Text → Text → UserRole → Change
  fills_from_online : Text → Change
  sets_voice_status : Text → VoiceStatus → Change
  sets_voice : VoiceState → Change
  sets_connected : Bool → Change
  sets_local_user : Text → Change
  sets_results : List SearchResult → Change

unfoldable pub act : (Assoc ChannelState → Text) → Change → AppState → AppState
act first (ensures id) s = ensure_channel id s
act first (removes id) s = remove_channel first id s
act first (activates id) s = set_active_channel id s
act first (reads id) s = mark_read id s
act first (bottoms id) s = scroll_to_bottom id s
act first (pushes id msg) s = push_message id msg s
act first (scrolls_up id lines) s = scroll_up id lines s
act first (scrolls_down id lines) s = scroll_down id lines s
act first (sets_presence id status) s = set_presence id status s
act first (sets_users id users) s = set_channel_users id users s
act first (adds_user id user) s = add_channel_user id user s
act first (removes_user id user) s = remove_channel_user id user s
act first (sets_role id user role) s = set_user_role id user role s
act first (fills_from_online id) s = ensure_channel_users_from_online id s
act first (sets_voice_status id status) s = set_user_voice_status id status s
act first (sets_voice v) s = record s { voice = v }
act first (sets_connected b) s = record s { is_connected = b }
act first (sets_local_user id) s = record s { local_user = id }
act first (sets_results rs) s = record s { results = rs }

abbrev pub run : (Assoc ChannelState → Text) → AppState → List Change → AppState
run first s [] = s
run first s (c ∷ cs) = run first (act first c s) cs

abbrev pub new : AppState
new = record {
  channels = [];
  active = [];
  presences = [];
  voice = record {
    in_voice = false;
    muted = false;
    deafened = false;
    active_channel = [];
    participants = [];
    speaking_peers = [];
    voice_mode = codes "ptt";
  };
  members = [];
  voice_statuses = [];
  is_connected = false;
  local_user = [];
  results = [];
}
