-- ===== src/Voice/Sound.antt =====
-- src/voice/voice_engine.cpp: what comes from the peers and goes to them, and who is shown as speaking.
use ircord_client.Voice.Types.{Audio, PeerConn, VoiceEngine}
use ircord_client.Voice.Rtp.{rtp_packet, read_packet}
use ircord_client.Voice.Rooms.{set_voice}
use ircord_client.Base.{
  ℕ, zero, suc, ◌+◌, ◌-◌, ◌%◌, ◌^◌, Bool, true, false, not, ◌||◌, ◌&&◌, Option, none, some, List,
  [], ◌∷◌, ◌++◌, if◌then◌else◌, ltb, is_empty, length, take, map, Text, codes, text_eq, is_among,
}
use ircord_client.Base.Assoc.{Assoc, adjust}
use ircord_client.AppState.{AppState, off, talking, set_user_voice_status}
use ircord_client.Jitter.{push, pop}

abbrev pub texts_eq : List Text → List Text → Bool
texts_eq [] [] = true
texts_eq [] (y ∷ ys) = false
texts_eq (x ∷ xs) [] = false
texts_eq (x ∷ xs) (y ∷ ys) = text_eq x y && texts_eq xs ys

-- `OpusCodec::kFrameSamples`
abbrev pub frame_samples : ℕ
frame_samples = 960

abbrev pub show_statuses : List Text → List Text → AppState → AppState
show_statuses speaking [] s = s
show_statuses speaking (p ∷ ps) s =
    show_statuses speaking ps
      (set_user_voice_status p (if is_among p speaking then talking else off) s)

module _ {ℓ} {S K : Type ℓ} where
  abbrev pub speaking : ℕ → Assoc (PeerConn S K) → List Text
  speaking now [] = []
  speaking now ((id, p) ∷ ps) =
      let rest = speaking now ps in
      if p.connected && p.loud && ltb (now - p.last_packet_time) 500 then id ∷ rest else rest

  -- Where the list is new, it has been moved into the shared state before the participants are marked,
  -- and the marking finds an empty one.
  unfoldable pub refresh_speaking_state : ℕ → VoiceEngine S K → VoiceEngine S K
  refresh_speaking_state now e =
      let heard = speaking now e.peers in
      let vs = e.state.voice in
      let changed = not (texts_eq vs.speaking_peers heard) in
      let shown = if changed then set_voice (λ vs. record vs { speaking_peers = heard }) e else e in
      let left = if changed then [] else heard in
      if not e.in_voice
      then e
      else record shown { state = show_statuses left vs.participants shown.state }

module _ {ℓ} {S K : Type ℓ} (audio : Audio S K) where
  -- The peer after a message on its track; `now` is the steady clock in milliseconds.
  abbrev pub receive_packet : ℕ → Text → PeerConn S K → PeerConn S K
  receive_packet now packet p = elim (read_packet packet) [
    | none ↦ p
    | some (seq, opus) ↦
        let (pcm, codec) = audio.decode p.codec opus in
        let heard =
          if is_empty pcm
          then p
          else record p { loud = audio.is_loud pcm; last_packet_time = now } in
        record heard { codec = codec; jitter_buf = push seq pcm p.jitter_buf }
  ]

  unfoldable pub on_track_message : ℕ → Text → Text → VoiceEngine S K → VoiceEngine S K
  on_track_message now peer_id packet e = record e {
    peers = adjust peer_id (receive_packet now packet) e.peers;
  }

  -- The loop over the peers: their codecs afterwards, the next sequence number, the packets.
  unfoldable pub send_to_peers :
      List S → Assoc (PeerConn S K) → ℕ → Assoc (PeerConn S K) × ℕ × List (Text × Text)
  send_to_peers pcm [] seq = ([], seq, [])
  send_to_peers pcm ((id, p) ∷ ps) seq = elim (p.connected && p.has_track) [
    | false ↦ let (qs, next, packets) = send_to_peers pcm ps seq in ((id, p) ∷ qs, next, packets)
    | true ↦
        let (opus, codec) = audio.encode p.codec pcm in
        let used = record p { codec = codec } in
        elim (is_empty opus) [
          | true ↦
              let (qs, next, packets) = send_to_peers pcm ps seq in ((id, used) ∷ qs, next, packets)
          | false ↦
              let (qs, next, packets) = send_to_peers pcm ps ((seq + 1) % 2 ^ 16) in
              ((id, used) ∷ qs, next, (id, rtp_packet seq opus) ∷ packets)
        ]
  ]

  -- Whether a captured buffer is sent.
  abbrev pub is_gated : List S → VoiceEngine S K → Bool
  is_gated pcm e =
      e.muted
      || not e.in_voice
      || (text_eq e.voice_mode (codes "ptt") && not e.ptt_active)
      || (text_eq e.voice_mode (codes "vox") && not (audio.passes_vad (take frame_samples pcm)))
      || ltb (length pcm) frame_samples

  unfoldable pub on_capture : List S → VoiceEngine S K → VoiceEngine S K
  unfolding send_to_peers
  on_capture pcm e =
      let (peers, next, packets) = send_to_peers (take frame_samples pcm) e.peers e.rtp_seq in
      if is_gated pcm e
      then e
      else record e { peers = peers; rtp_seq = next; packets = e.packets ++ packets }

  -- The samples of a frame are added to the output, as far as both go.
  abbrev pub add_frame : List S → List S → List S
  add_frame [] pcm = []
  add_frame (s ∷ out) [] = s ∷ out
  add_frame (s ∷ out) (t ∷ pcm) = audio.add s t ∷ add_frame out pcm

  abbrev pub silent : ℕ → List S
  silent zero = []
  silent (suc n) = audio.silence ∷ silent n

  -- What a peer adds: a frame of its jitter buffer, or else one that conceals the loss.
  abbrev pub play_peer : Option (List S) → List S → PeerConn S K → List S × PeerConn S K
  play_peer (some pcm) out p = (add_frame out pcm, p)
  play_peer none out p =
      let (plc, codec) = audio.decode_plc p.codec in
      if p.connected then (add_frame out plc, record p { codec = codec }) else (out, p)

  abbrev pub mix_peers : List S → Assoc (PeerConn S K) → List S × Assoc (PeerConn S K)
  mix_peers out [] = (out, [])
  mix_peers out ((id, p) ∷ ps) =
      let (frame, rest) = pop p.jitter_buf in
      let (added, used) = play_peer frame out (record p { jitter_buf = rest }) in
      let (mixed, qs) = mix_peers added ps in (mixed, (id, used) ∷ qs)

  -- The output of `frames` samples.
  unfoldable pub mix_output : ℕ → VoiceEngine S K → List S × VoiceEngine S K
  mix_output frames e =
      let (mixed, peers) = mix_peers (silent frames) e.peers in
      if e.deafened then (silent frames, e) else (map audio.clip mixed, record e { peers = peers })
