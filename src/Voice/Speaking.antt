-- ===== src/Voice/Speaking.antt =====
-- src/voice/voice_engine.cpp: what the participants of a room are shown as, and the mixed output.
use ircord_client.Base.{
  is_among, ℕ, zero, suc, ◌≡◌, refl, ◌∙◌, ap, Bool, true, false, not, ◌&&◌, Option, none, some,
  List, [], ◌∷◌, if◌then◌else◌, Text, text_eq_iff, arith, length, map, Bool-cases, inl, inr,
}
use ircord_client.Base.Assoc.{Assoc, lookup, lookup-insert}
use ircord_client.Jitter.{pop}
use ircord_client.AppState.{AppState, talking, off, set_user_voice_status}
use ircord_client.Voice.{
  Audio, VoiceEngine, PeerConn, silent, add_frame, play_peer, mix_peers, mix_output, texts_eq,
  speaking, show_statuses, refresh_speaking_state,
}

show_statuses-lookup :
    (heard ps : List Text) (p : Text) (s : AppState)
    → lookup p (show_statuses heard ps s).voice_statuses ≡ (
        if is_among p ps
        then some (if is_among p heard then talking else off)
        else lookup p s.voice_statuses)
unfolding set_user_voice_status
show_statuses-lookup heard [] p s = refl
show_statuses-lookup heard (q ∷ ps) p s = ground (
  arith,
  text_eq_iff q p,
  lookup-insert q p (if is_among q heard then talking else off) s.voice_statuses,
  show_statuses-lookup heard ps p
      (set_user_voice_status q (if is_among q heard then talking else off) s),
)

marked :
    (heard ps : List Text) (p : Text) (s : AppState)
    → is_among p ps ≡ true
    → lookup p (show_statuses heard ps s).voice_statuses
      ≡ some (if is_among p heard then talking else off)
marked heard ps p s among =
    show_statuses-lookup heard ps p s
    ∙ ap
        (λ b.
          if b then some (if is_among p heard then talking else off) else lookup p s.voice_statuses)
        among

module _ {ℓ} {S K : Type ℓ} where
  inside_room : (b : Bool) (x y : VoiceEngine S K) → b ≡ true → (if not b then x else y) ≡ y
  inside_room true x y h = refl
  inside_room false x y h = absurd (cc h)

  marked_after :
      (same : Bool) (heard ps : List Text) (p : Text) (x y : VoiceEngine S K)
      → is_among p ps ≡ true
      → lookup p
          (show_statuses
            (if not same then [] else heard)
            ps
            (if not same then x else y).state).voice_statuses
        ≡ some (if same && is_among p heard then talking else off)
  marked_after true heard ps p x y among = marked heard ps p y.state among
  marked_after false heard ps p x y among = marked [] ps p x.state among

  -- After a refresh in a room, a participant is shown as talking where it is among those heard and
  -- they are the same as at the refresh before; in the refresh at which they change, every participant
  -- is shown as off.
  pub refresh_speaking_state-shown :
      (now : ℕ) (e : VoiceEngine S K) (p : Text)
      → e.in_voice ≡ true
      → is_among p e.state.voice.participants ≡ true
      → lookup p (refresh_speaking_state now e).state.voice_statuses
        ≡ some (
            if texts_eq e.state.voice.speaking_peers (speaking now e.peers)
              && is_among p (speaking now e.peers)
            then talking
            else off)
  unfolding refresh_speaking_state
  refresh_speaking_state-shown now e p inside among =
      ap (λ r. lookup p r.state.voice_statuses) (inside_room e.in_voice _ _ inside)
      ∙ marked_after (texts_eq e.state.voice.speaking_peers (speaking now e.peers))
          (speaking now e.peers) e.state.voice.participants p _ _ among

module _ {ℓ} {S K : Type ℓ} (audio : Audio S K) where
  length-silent : (frames : ℕ) → length (silent audio frames) ≡ frames
  length-silent zero = refl
  length-silent (suc n) = ap suc (length-silent n)

  length-add_frame : (out pcm : List S) → length (add_frame audio out pcm) ≡ length out
  length-add_frame [] pcm = refl
  length-add_frame (s ∷ out) [] = refl
  length-add_frame (s ∷ out) (t ∷ pcm) = ap suc (length-add_frame out pcm)

  length-play_peer :
      (frame : Option (List S)) (out : List S) (p : PeerConn S K)
      → length (play_peer audio frame out p).0 ≡ length out
  length-play_peer (some pcm) out p = length-add_frame out pcm
  length-play_peer none out p = elim (Bool-cases p.connected) [
    | inl c ↦ rw c (length-add_frame out (audio.decode_plc p.codec).0)
    | inr c ↦ rw c refl
  ]

  length-mix_peers :
      (ps : Assoc (PeerConn S K)) (out : List S) → length (mix_peers audio out ps).0 ≡ length out
  length-mix_peers [] out = refl
  length-mix_peers ((id, p) ∷ ps) out =
      length-mix_peers ps _ ∙ length-play_peer (pop p.jitter_buf).0 out _

  length-clipped : (out : List S) → length (map audio.clip out) ≡ length out
  length-clipped [] = refl
  length-clipped (s ∷ out) = ap suc (length-clipped out)

  -- The output has the number of samples that was asked for, whatever the lengths of the peers' frames
  -- are.
  pub mix_output-length :
      (frames : ℕ) (e : VoiceEngine S K) → length (mix_output audio frames e).0 ≡ frames
  unfolding mix_output
  mix_output-length frames e = elim (Bool-cases e.deafened) [
    | inl d ↦ rw (d, mix_output) (length-silent frames)
    | inr d ↦
        rw (d, mix_output)
          (length-clipped _ ∙ length-mix_peers e.peers (silent audio frames) ∙ length-silent frames)
  ]
