-- ===== src/Voice/Device.antt =====
-- src/voice/voice_engine.cpp: the audio device over the calls of the engine.
use ircord_client.Base.{
  ◌≡◌, ◌⊎◌, inl, inr, refl, ◌∙◌, Bool, true, false, not, List, [], ◌∷◌, Text, text_eq, if_kept,
}
use ircord_client.Base.Assoc.{contains, erase}
use ircord_client.Voice.{
  Audio, VoiceEngine, Operation, act, run, on_capture, leave_room, hangup, get_or_create_peer,
  is_gated, create_all, call_invite, call_accept, call_hangup, offer, answer, ice_candidate,
  call_reject, joins_room, gets_left, gets_track, leaves_room, hangs_up, toggles, is_joined, calls,
  accepts, mutes, deafens, holds, set_ptt_active, signalled, changes, receives, captures, plays,
  refreshes, comes_up, fails, goes_down, texts_eq, speaking, join_room, on_peer_left,
  toggle_voice_mode, on_room_joined, call, accept_call, set_muted, set_deafened, on_voice_signal,
  on_state_change, on_track, on_track_message, mix_output, refresh_speaking_state,
}

module _ {ℓ} {S K : Type ℓ} where
  -- An engine is in no room and no call, or its audio device runs.
  unfoldable pub HasDevice : VoiceEngine S K → Type 0
  HasDevice e = (e.in_voice ≡ false) ⊎ (e.audio_on ≡ true)

  -- The two fields as those of another engine.
  as_of :
      (x e : VoiceEngine S K)
      → x.in_voice ≡ e.in_voice
      → x.audio_on ≡ e.audio_on
      → HasDevice e
      → HasDevice x
  unfolding HasDevice
  as_of x e p q (inl out) = inl (p ∙ out)
  as_of x e p q (inr on) = inr (q ∙ on)

  pub outside : (x : VoiceEngine S K) → x.in_voice ≡ false → HasDevice x
  unfolding HasDevice
  outside x out = inl out

  running : (x : VoiceEngine S K) → x.audio_on ≡ true → HasDevice x
  unfolding HasDevice
  running x on = inr on

  leave_room-HasDevice : (e : VoiceEngine S K) → HasDevice e → HasDevice (leave_room e)
  unfolding leave_room
  leave_room-HasDevice e h = if_kept HasDevice (not e.in_voice) h (outside _ refl)

  hangup-HasDevice : (e : VoiceEngine S K) → HasDevice e → HasDevice (hangup e)
  unfolding hangup
  hangup-HasDevice e h =
      if_kept HasDevice (not e.in_voice) h
        (as_of _ (leave_room e) refl refl (leave_room-HasDevice e h))

module _ {ℓ} {S K : Type ℓ} (audio : Audio S K) where
  create-HasDevice :
      (id : Text) (offers : Bool) (e : VoiceEngine S K)
      → HasDevice e
      → HasDevice (get_or_create_peer audio id offers e)
  unfolding get_or_create_peer
  create-HasDevice id offers e h = if_kept HasDevice (contains id e.peers) h (as_of _ e refl refl h)

  create_all-HasDevice :
      (ids : List Text) (e : VoiceEngine S K) → HasDevice e → HasDevice (create_all audio ids e)
  create_all-HasDevice [] e h = h
  create_all-HasDevice (id ∷ ids) e h =
      create_all-HasDevice ids (get_or_create_peer audio id true e) (create-HasDevice id true e h)

  -- Every call of the engine keeps it so that the device runs in a room or a call.
  act-HasDevice : (o : Operation S) (e : VoiceEngine S K) → HasDevice e → HasDevice (act audio o e)
  unfolding act join_room on_peer_left toggle_voice_mode on_room_joined call accept_call set_muted
      set_deafened set_ptt_active on_voice_signal on_state_change on_track on_track_message
      on_capture mix_output refresh_speaking_state
  act-HasDevice (joins_room id) e h = as_of _ e refl refl h
  act-HasDevice (gets_left id) e h = if_kept HasDevice (not e.in_voice) h (as_of _ e refl refl h)
  act-HasDevice (gets_track id) e h = as_of _ e refl refl h
  act-HasDevice leaves_room e h = leave_room-HasDevice e h
  act-HasDevice hangs_up e h = hangup-HasDevice e h
  act-HasDevice toggles e h = as_of _ e refl refl h
  act-HasDevice (is_joined true id peers) e h =
      as_of _ _ refl refl (create_all-HasDevice peers _ (running _ refl))
  act-HasDevice (is_joined false id peers) e h = outside _ refl
  act-HasDevice (calls true id) e h =
      as_of _ _ refl refl (create-HasDevice id true _ (running _ refl))
  act-HasDevice (calls false id) e h = outside _ refl
  act-HasDevice (accepts true id) e h =
      as_of _ _ refl refl (create-HasDevice id false _ (running _ refl))
  act-HasDevice (accepts false id) e h = outside _ refl
  act-HasDevice (mutes b) e h = as_of _ e refl refl h
  act-HasDevice (deafens b) e h = as_of _ e refl refl h
  act-HasDevice (holds b) e h = as_of _ e refl refl h
  act-HasDevice (signalled call_invite from) e h = as_of _ e refl refl h
  act-HasDevice (signalled call_accept from) e h = create-HasDevice from true e h
  act-HasDevice (signalled call_hangup from) e h =
      let erased = as_of (record e { peers = erase from e.peers }) e refl refl h in
      if_kept HasDevice (text_eq e.active_channel from) (leave_room-HasDevice _ erased) erased
  act-HasDevice (signalled offer from) e h = create-HasDevice from false e h
  act-HasDevice (signalled answer from) e h = h
  act-HasDevice (signalled ice_candidate from) e h = h
  act-HasDevice (signalled call_reject from) e h = h
  act-HasDevice (changes id comes_up) e h = as_of _ e refl refl h
  act-HasDevice (changes id fails) e h = as_of _ e refl refl h
  act-HasDevice (changes id goes_down) e h = as_of _ e refl refl h
  act-HasDevice (receives now id packet) e h = as_of _ e refl refl h
  act-HasDevice (captures pcm) e h =
      if_kept HasDevice (is_gated audio pcm e) h (as_of _ e refl refl h)
  act-HasDevice (plays frames) e h =
      if_kept (λ (r : List S × VoiceEngine S K). HasDevice r.1) e.deafened h (as_of _ e refl refl h)
  act-HasDevice (refreshes now) e h = if_kept HasDevice (not e.in_voice) h (
      as_of _ _ refl refl (
        if_kept HasDevice (not (texts_eq e.state.voice.speaking_peers (speaking now e.peers)))
          (as_of _ e refl refl h) h))

  -- Whatever is called, in any order, on an engine that is in no room and no call or whose audio
  -- device runs: afterwards it is in none, or the device runs.
  pub run-HasDevice :
      (os : List (Operation S)) (e : VoiceEngine S K) → HasDevice e → HasDevice (run audio e os)
  run-HasDevice [] e h = h
  run-HasDevice (o ∷ os) e h = run-HasDevice os (act audio o e) (act-HasDevice o e h)
