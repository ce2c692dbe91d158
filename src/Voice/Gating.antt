-- ===== src/Voice/Gating.antt =====
-- src/voice/voice_engine.cpp: the gate of captured buffers.
use ircord_client.Base.{
  ◌≡◌, ◌⊎◌, inl, inr, refl, sym, ap, All, ◌∙◌, Bool, true, false, not, List, [], ◌∷◌, if◌then◌else◌,
  Text, codes, text_eq, arith, Bool-cases,
}
use ircord_client.Base.Assoc.{contains}
use ircord_client.Voice.{
  Audio, VoiceEngine, Operation, act, run, on_capture, leave_room, hangup, get_or_create_peer,
  is_gated, create_all, call_invite, call_accept, call_hangup, offer, answer, ice_candidate,
  call_reject, joins_room, gets_left, gets_track, leaves_room, hangs_up, toggles, is_joined, calls,
  accepts, mutes, deafens, holds, set_ptt_active, signalled, changes, receives, captures, plays,
  refreshes, comes_up, fails, goes_down, texts_eq, speaking, join_room, on_peer_left,
  toggle_voice_mode, on_room_joined, call, accept_call, set_muted, set_deafened, on_voice_signal,
  on_state_change, on_track, on_track_message, mix_output, refresh_speaking_state,
}

if_true {ℓ} : {A : Type ℓ} → (b : Bool) (x y : A) → b ≡ true → (if b then x else y) ≡ x
if_true true x y h = refl
if_true false x y h = absurd (cc h)

-- The key, the mode, and what has been sent.
abbrev pub sending {ℓ} : {S K : Type ℓ} → VoiceEngine S K → Bool × Text × List (Text × Text)
sending e = (e.ptt_active, e.voice_mode, e.packets)

-- The calls that can open the gate of the mode: holding the key, and going to the other mode.
abbrev pub opens_gate {ℓ} : {S : Type ℓ} → Operation S → Bool
opens_gate (holds b) = b
opens_gate toggles = true
opens_gate _ = false

abbrev pub IsShut {ℓ} : {S : Type ℓ} → Operation S → Type 0
IsShut o = opens_gate o ≡ false

module _ {ℓ} {S K : Type ℓ} (audio : Audio S K) where
  gated :
      (pcm : List S) (e : VoiceEngine S K)
      → (e.muted ≡ true)
        ⊎ ((e.in_voice ≡ false)
            ⊎ ((text_eq e.voice_mode (codes "ptt") ≡ true) × (e.ptt_active ≡ false)))
      → is_gated audio pcm e ≡ true
  gated pcm e (inl muted) = ground arith
  gated pcm e (inr (inl out)) = ground arith
  gated pcm e (inr (inr (ptt, released))) = ground arith

  -- A muted engine, one without a room or a call, and one in push-to-talk mode whose key is not held
  -- send nothing of a captured buffer and use up no number.
  pub on_capture-silent :
      (pcm : List S) (e : VoiceEngine S K)
      → (e.muted ≡ true)
        ⊎ ((e.in_voice ≡ false)
            ⊎ ((text_eq e.voice_mode (codes "ptt") ≡ true) × (e.ptt_active ≡ false)))
      → on_capture audio pcm e ≡ e
  unfolding on_capture
  on_capture-silent pcm e h = if_true (is_gated audio pcm e) _ _ (gated pcm e h)

  if_sending :
      {b : Bool × Text × List (Text × Text)} (t : Bool) (x y : VoiceEngine S K)
      → sending x ≡ b
      → sending y ≡ b
      → sending (if t then x else y) ≡ b
  if_sending true x y p q = p
  if_sending false x y p q = q

  leave_room-sending : (e : VoiceEngine S K) → sending (leave_room e) ≡ sending e
  unfolding leave_room
  leave_room-sending e = elim (Bool-cases e.in_voice) [ inl v ↦ rw v refl | inr v ↦ rw v refl ]

  hangup-sending : (e : VoiceEngine S K) → sending (hangup e) ≡ sending e
  unfolding hangup
  hangup-sending e = if_sending (not e.in_voice) _ _ refl (leave_room-sending e)

  create-sending :
      (id : Text) (offers : Bool) (e : VoiceEngine S K)
      → sending (get_or_create_peer audio id offers e) ≡ sending e
  unfolding get_or_create_peer
  create-sending id offers e = elim (Bool-cases (contains id e.peers)) [
    | inl v ↦ rw v refl
    | inr v ↦ rw v refl
  ]

  create_all-sending :
      (ids : List Text) (e : VoiceEngine S K) → sending (create_all audio ids e) ≡ sending e
  create_all-sending [] e = refl
  create_all-sending (id ∷ ids) e =
      create_all-sending ids (get_or_create_peer audio id true e) ∙ create-sending id true e

  act-sending :
      (o : Operation S) (e : VoiceEngine S K)
      → IsShut o
      → e.ptt_active ≡ false
      → text_eq e.voice_mode (codes "ptt") ≡ true
      → sending (act audio o e) ≡ sending e
  unfolding act join_room on_peer_left toggle_voice_mode on_room_joined call accept_call set_muted
      set_ptt_active set_deafened on_voice_signal on_state_change on_track on_track_message
      on_capture mix_output refresh_speaking_state
  act-sending (joins_room id) e shut up ptt = refl
  act-sending (gets_left id) e shut up ptt = elim (Bool-cases e.in_voice) [
    | inl v ↦ rw v refl
    | inr v ↦ rw v refl
  ]
  act-sending (gets_track id) e shut up ptt = refl
  act-sending leaves_room e shut up ptt = leave_room-sending e
  act-sending hangs_up e shut up ptt = hangup-sending e
  act-sending toggles e shut up ptt = absurd (cc shut)
  act-sending (is_joined true id peers) e shut up ptt =
      create_all-sending peers _ ∙ leave_room-sending e
  act-sending (is_joined false id peers) e shut up ptt = leave_room-sending e
  act-sending (calls true id) e shut up ptt = create-sending id true _ ∙ leave_room-sending e
  act-sending (calls false id) e shut up ptt = leave_room-sending e
  act-sending (accepts true id) e shut up ptt = create-sending id false _
  act-sending (accepts false id) e shut up ptt = refl
  act-sending (mutes b) e shut up ptt = refl
  act-sending (deafens b) e shut up ptt = refl
  act-sending (holds b) e shut up ptt = ap (λ k. (k, e.voice_mode, e.packets)) (shut ∙ sym up)
  act-sending (signalled call_invite from) e shut up ptt = refl
  act-sending (signalled call_accept from) e shut up ptt = create-sending from true e
  act-sending (signalled call_hangup from) e shut up ptt =
      elim (Bool-cases (text_eq e.active_channel from)) [
        | inl v ↦ rw v (leave_room-sending _)
        | inr v ↦ rw v refl
      ]
  act-sending (signalled offer from) e shut up ptt = create-sending from false e
  act-sending (signalled answer from) e shut up ptt = refl
  act-sending (signalled ice_candidate from) e shut up ptt = refl
  act-sending (signalled call_reject from) e shut up ptt = refl
  act-sending (changes id comes_up) e shut up ptt = refl
  act-sending (changes id fails) e shut up ptt = refl
  act-sending (changes id goes_down) e shut up ptt = refl
  act-sending (receives now id packet) e shut up ptt = refl
  act-sending (captures pcm) e shut up ptt =
      ap sending (on_capture-silent pcm e (inr (inr (ptt, up))))
  act-sending (plays frames) e shut up ptt = elim (Bool-cases e.deafened) [
    | inl v ↦ rw v refl
    | inr v ↦ rw v refl
  ]
  act-sending (refreshes now) e shut up ptt = if_sending (not e.in_voice) _ _ refl (
      if_sending (not (texts_eq e.state.voice.speaking_peers (speaking now e.peers))) _ _ refl refl)

  -- In push-to-talk mode nothing is sent unless the key is held: whatever calls are made of the engine,
  -- in any order, if it begins with the key not held in this mode and no call holds the key or
  -- changes the mode, no packet goes out, and the key and the mode are as they were.
  pub run-silent :
      (os : List (Operation S)) (e : VoiceEngine S K)
      → e.ptt_active ≡ false
      → text_eq e.voice_mode (codes "ptt") ≡ true
      → All IsShut os
      → sending (run audio e os) ≡ sending e
  run-silent [] e up ptt shut = refl
  run-silent (o ∷ os) e up ptt shut =
      let one = act-sending o e shut.0 up ptt in
      run-silent os (act audio o e) (ap (λ k. k.0) one ∙ up)
        (ap (λ k. text_eq k.1 (codes "ptt")) one ∙ ptt) shut.1
      ∙ one
