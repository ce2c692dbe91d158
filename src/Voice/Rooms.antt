-- ===== src/Voice/Rooms.antt =====
-- src/voice/voice_engine.cpp: rooms, calls, the controls, signals and the table of peers.
use ircord_client.Voice.Types.{
  Audio, PeerConn, SignalType, offer, answer, ice_candidate, call_invite, call_accept, call_reject,
  call_hangup, Sent, signals, joins, leaves, VoiceEngine,
}
use ircord_client.Base.{
  Bool, true, false, not, List, [], ◌∷◌, ◌++◌, if◌then◌else◌, Text, codes, text_eq,
}
use ircord_client.Base.Assoc.{insert, erase, adjust, contains}
use ircord_client.AppState.{VoiceState}
use ircord_client.Jitter.{new as new_jitter}

pub data ConnectionState : Type 0 where
  comes_up fails goes_down : ConnectionState

abbrev pub open_failed : Text
open_failed = codes "Failed to open audio device. Check your audio settings."

module _ {ℓ} {S K : Type ℓ} where
  abbrev pub send : Sent → VoiceEngine S K → VoiceEngine S K
  send s e = record e { sent = e.sent ++ (s ∷ []) }

  abbrev pub post_text : Text → VoiceEngine S K → VoiceEngine S K
  post_text text e = record e { posted = e.posted ++ (text ∷ []) }

  abbrev pub set_voice : (VoiceState → VoiceState) → VoiceEngine S K → VoiceEngine S K
  set_voice f e = record e { state = record e.state { voice = f e.state.voice } }

  unfoldable pub join_room : Text → VoiceEngine S K → VoiceEngine S K
  join_room channel_id e = send (joins channel_id) e

  unfoldable pub leave_room : VoiceEngine S K → VoiceEngine S K
  leave_room e =
      if not e.in_voice
      then e
      else send (leaves e.active_channel) (
          set_voice (λ vs. record vs { in_voice = false; active_channel = []; participants = [] })
            (record e { audio_on = false; peers = []; in_voice = false; active_channel = [] }))

  unfoldable pub hangup : VoiceEngine S K → VoiceEngine S K
  unfolding leave_room
  hangup e =
      if not e.in_voice then e else send (signals call_hangup e.active_channel) (leave_room e)

  unfoldable pub on_peer_left : Text → VoiceEngine S K → VoiceEngine S K
  on_peer_left peer_id e = if not e.in_voice then e else record e { peers = erase peer_id e.peers }

  unfoldable pub set_muted : Bool → VoiceEngine S K → VoiceEngine S K
  set_muted muted e = set_voice (λ vs. record vs { muted = muted }) (record e { muted = muted })

  unfoldable pub set_deafened : Bool → VoiceEngine S K → VoiceEngine S K
  set_deafened deafened e =
      set_voice (λ vs. record vs { deafened = deafened }) (record e { deafened = deafened })

  unfoldable pub set_ptt_active : Bool → VoiceEngine S K → VoiceEngine S K
  set_ptt_active active e = record e { ptt_active = active }

  -- What the library reports of a connection.
  unfoldable pub on_state_change : Text → ConnectionState → VoiceEngine S K → VoiceEngine S K
  on_state_change peer_id comes_up e = record e {
    peers = adjust peer_id (λ p. record p { connected = true }) e.peers;
  }
  on_state_change peer_id fails e =
      post_text
        (codes "Voice connection to " ++ (peer_id ++ codes " failed. Check your network/firewall."))
        (record e { peers = adjust peer_id (λ p. record p { connected = false }) e.peers })
  on_state_change peer_id goes_down e = record e {
    peers = adjust peer_id (λ p. record p { connected = false }) e.peers;
  }

  -- The library reports the other side's track.
  unfoldable pub on_track : Text → VoiceEngine S K → VoiceEngine S K
  on_track peer_id e = record e {
    peers = adjust peer_id (λ p. record p { has_track = true }) e.peers;
  }

  unfoldable pub toggle_voice_mode : VoiceEngine S K → VoiceEngine S K
  toggle_voice_mode e =
      let mode = if text_eq e.voice_mode (codes "ptt") then codes "vox" else codes "ptt" in
      set_voice (λ vs. record vs { voice_mode = mode }) (record e { voice_mode = mode })

module _ {ℓ} {S K : Type ℓ} (audio : Audio S K) where
  abbrev pub new_peer : Bool → PeerConn S K
  new_peer is_offerer = record {
    has_track = is_offerer;
    jitter_buf = new_jitter 2;
    codec = audio.new_codec;
    connected = false;
    loud = false;
    last_packet_time = 0;
  }

  unfoldable pub get_or_create_peer : Text → Bool → VoiceEngine S K → VoiceEngine S K
  get_or_create_peer peer_id is_offerer e =
      if contains peer_id e.peers
      then e
      else record e { peers = insert peer_id (new_peer is_offerer) e.peers }

  abbrev pub create_all : List Text → VoiceEngine S K → VoiceEngine S K
  create_all [] e = e
  create_all (p ∷ ps) e = create_all ps (get_or_create_peer p true e)

  -- `opens` says whether the audio device opens.
  unfoldable pub on_room_joined : Bool → Text → List Text → VoiceEngine S K → VoiceEngine S K
  unfolding leave_room get_or_create_peer
  on_room_joined opens channel_id peers e =
      let joined = record (leave_room e) {
        active_channel = channel_id;
        in_voice = true;
        muted = false;
        deafened = false;
      } in
      if not opens
      then post_text open_failed (record joined { in_voice = false })
      else set_voice
          (λ vs. record vs {
            in_voice = true;
            active_channel = channel_id;
            voice_mode = e.voice_mode;
          })
          (create_all peers (record joined { audio_on = true }))

  unfoldable pub call : Bool → Text → VoiceEngine S K → VoiceEngine S K
  unfolding leave_room get_or_create_peer
  call opens peer_id e =
      let called = record (leave_room e) { in_voice = true; active_channel = peer_id } in
      if not opens
      then post_text open_failed (record called { in_voice = false })
      else send (signals call_invite peer_id)
          (get_or_create_peer peer_id true (record called { audio_on = true }))

  unfoldable pub accept_call : Bool → Text → VoiceEngine S K → VoiceEngine S K
  unfolding get_or_create_peer
  accept_call opens caller_id e =
      let accepted = record e { in_voice = true; active_channel = caller_id } in
      if not opens
      then record accepted { in_voice = false }
      else send (signals call_accept caller_id)
          (get_or_create_peer caller_id false (record accepted { audio_on = true }))

  -- The descriptions and candidates go to the connection of the library.
  unfoldable pub on_voice_signal : SignalType → Text → VoiceEngine S K → VoiceEngine S K
  unfolding get_or_create_peer leave_room
  on_voice_signal call_invite from e =
      post_text (from ++ (codes " is calling. Type /accept " ++ (from ++ codes " to answer."))) e
  on_voice_signal call_accept from e = get_or_create_peer from true e
  on_voice_signal call_hangup from e =
      let erased = record e { peers = erase from e.peers } in
      if text_eq e.active_channel from then leave_room erased else erased
  on_voice_signal offer from e = get_or_create_peer from false e
  on_voice_signal answer from e = e
  on_voice_signal ice_candidate from e = e
  on_voice_signal call_reject from e = e
