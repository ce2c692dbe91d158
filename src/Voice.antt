-- ===== src/Voice.antt =====
-- src/voice/voice_engine.cpp: any call of the engine.
mod Types
mod Rtp
mod Rooms
mod Sound
pub mod Packets
pub mod Gating
pub mod Speaking
pub mod Device
mod Tests
unfoldable pub use Types.*
unfoldable pub use Rtp.*
unfoldable pub use Rooms.*
unfoldable pub use Sound.*
use ircord_client.Base.{
  ℕ, zero, suc, ◌+◌, ◌-◌, ◌%◌, ◌^◌, Bool, true, false, not, ◌||◌, ◌&&◌, Option, none, some, List,
  [], ◌∷◌, ◌++◌, if◌then◌else◌, ltb, is_empty, length, take, map, Text, codes, text_eq, is_among,
}
use ircord_client.Base.Assoc.{Assoc, lookup, insert, erase, adjust, contains, is_some}
use ircord_client.AppState.{AppState, VoiceState, off, talking, set_user_voice_status}
use ircord_client.Jitter.{JitterBuffer, push, pop, new as new_jitter}

-- A call of the engine; of runs in which no two overlap in time, since only the table of peers is
-- locked.
pub data Operation {ℓ} (S : Type ℓ) : Type ℓ where
  joins_room gets_left gets_track : Text → Operation S
  leaves_room hangs_up toggles : Operation S
  is_joined : Bool → Text → List Text → Operation S
  calls accepts : Bool → Text → Operation S
  mutes deafens holds : Bool → Operation S
  signalled : SignalType → Text → Operation S
  changes : Text → ConnectionState → Operation S
  receives : ℕ → Text → Text → Operation S
  captures : List S → Operation S
  plays refreshes : ℕ → Operation S

-- Any call of a method that changes the engine and any callback of the WebRTC library and the audio
-- device. No other part calls `set_ptt_active` and `on_voice_signal`.
module _ {ℓ} {S K : Type ℓ} (audio : Audio S K) where
  unfoldable pub act : Operation S → VoiceEngine S K → VoiceEngine S K
  unfolding join_room on_peer_left leave_room hangup toggle_voice_mode on_room_joined call
      accept_call set_muted set_deafened set_ptt_active on_voice_signal on_state_change on_track
      on_track_message on_capture mix_output refresh_speaking_state
  act (joins_room id) e = join_room id e
  act (gets_left id) e = on_peer_left id e
  act (gets_track id) e = on_track id e
  act leaves_room e = leave_room e
  act hangs_up e = hangup e
  act toggles e = toggle_voice_mode e
  act (is_joined opens id peers) e = on_room_joined audio opens id peers e
  act (calls opens id) e = call audio opens id e
  act (accepts opens id) e = accept_call audio opens id e
  act (mutes b) e = set_muted b e
  act (deafens b) e = set_deafened b e
  act (holds b) e = set_ptt_active b e
  act (signalled kind from) e = on_voice_signal audio kind from e
  act (changes id s) e = on_state_change id s e
  act (receives now id packet) e = on_track_message audio now id packet e
  act (captures pcm) e = on_capture audio pcm e
  act (plays frames) e = (mix_output audio frames e).1
  act (refreshes now) e = refresh_speaking_state now e

  abbrev pub run : VoiceEngine S K → List (Operation S) → VoiceEngine S K
  run e [] = e
  run e (o ∷ os) = run (act o e) os
