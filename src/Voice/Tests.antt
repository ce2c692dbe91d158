-- ===== src/Voice/Tests.antt =====
-- src/voice/voice_engine.cpp: runs on small inputs.
use ircord_client.Base.{
  ◌++◌, ℕ, ◌+◌, ◌≡◌, refl, true, false, some, List, [], ◌∷◌, codes, text_eq, arith,
}
use ircord_client.Base.Assoc.{Assoc, lookup}
use ircord_client.AppState.{off, new}
use ircord_client.Jitter.{push}
use ircord_client.Voice.{
  silent, captures, frame_samples, Audio, PeerConn, VoiceEngine, Operation, new_peer, is_joined,
  changes, comes_up, act, run, receive_packet, rtp_packet, send_to_peers, refresh_speaking_state,
}
use ircord_client.Voice.Packets.{receive_packet-rtp_packet, send_to_peers-numbered}
use ircord_client.Voice.Gating.{sending, run-silent}
use ircord_client.Voice.Speaking.{refresh_speaking_state-shown}

-- A codec whose state counts its calls and whose bytes are the samples.
abbrev counting : Audio ℕ ℕ
counting = record {
  new_codec = 0;
  encode = λ k pcm. (pcm, k + 1);
  decode = λ k opus. (opus, k + 1);
  decode_plc = λ k. ([], k + 1);
  is_loud = λ pcm. true;
  passes_vad = λ pcm. true;
  silence = 0;
  add = λ s t. s + t;
  clip = λ s. s;
}

abbrev heard_peer : PeerConn ℕ ℕ
heard_peer = record (new_peer counting true) {
  connected = true;
  loud = true;
  last_packet_time = 900;
}

abbrev two_peers : Assoc (PeerConn ℕ ℕ)
two_peers = (codes "ann", heard_peer) ∷ (codes "bob", heard_peer) ∷ []

abbrev idle : VoiceEngine ℕ ℕ
idle = record {
  state = new;
  peers = [];
  audio_on = false;
  in_voice = false;
  muted = false;
  deafened = false;
  ptt_active = false;
  active_channel = [];
  voice_mode = codes "ptt";
  rtp_seq = 0;
  sent = [];
  packets = [];
  posted = [];
}

-- In a room with `ann`, who has spoken since the last refresh.
abbrev in_room : VoiceEngine ℕ ℕ
in_room = record idle {
  peers = two_peers;
  audio_on = true;
  in_voice = true;
  state = record new {
    voice = record new.voice { in_voice = true; participants = codes "ann" ∷ [] };
  };
}

abbrev joining : List (Operation ℕ)
joining = is_joined true (codes "den") (codes "ann" ∷ []) ∷ changes (codes "ann") comes_up ∷ []

-- A whole frame is captured while connected to a peer.
abbrev spoken : List (Operation ℕ)
spoken = joining ++ (captures (silent counting frame_samples) ∷ [])

receive_packet-rtp_packet_example :
    ((receive_packet counting 5 (rtp_packet 300 (7 ∷ 8 ∷ [])) heard_peer).jitter_buf
      ≡ push 300 (7 ∷ 8 ∷ []) heard_peer.jitter_buf)
    × ((receive_packet counting 5 (rtp_packet 300 (7 ∷ 8 ∷ [])) heard_peer).codec ≡ 1)
receive_packet-rtp_packet_example =
    receive_packet-rtp_packet counting 5 300 (7 ∷ 8 ∷ []) heard_peer (omega arith) refl

-- At the last number, so that the second peer gets number 0.
send_to_peers-numbered_example :
    ((send_to_peers counting (1 ∷ 2 ∷ []) two_peers 65535).1 ≡ 1)
    × ((send_to_peers counting (1 ∷ 2 ∷ []) two_peers 65535).2
        ≡ (codes "ann", rtp_packet 65535 (1 ∷ 2 ∷ []))
          ∷ (codes "bob", rtp_packet 0 (1 ∷ 2 ∷ []))
          ∷ [])
send_to_peers-numbered_example =
    send_to_peers-numbered counting (1 ∷ 2 ∷ []) two_peers 65535 ((refl, refl), ((refl, refl), tt))

run-silent_example : sending (run counting idle spoken) ≡ sending idle
unfolding text_eq act lookup
run-silent_example = run-silent counting spoken idle refl refl (refl, (refl, (refl, tt)))

refresh_speaking_state-shown_example :
    lookup (codes "ann") (refresh_speaking_state 1000 in_room).state.voice_statuses ≡ some off
unfolding text_eq
refresh_speaking_state-shown_example =
    refresh_speaking_state-shown 1000 in_room (codes "ann") refl refl
