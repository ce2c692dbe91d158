-- ===== src/Voice/Types.antt =====
-- The structures of src/voice/voice_engine.hpp. `S` is the type of a sample, `K` that of the state of
-- an Opus codec.
use ircord_client.Base.{ℕ, Bool, List, Text}
use ircord_client.Base.Assoc.{Assoc}
use ircord_client.AppState.{AppState}
use ircord_client.Jitter.{JitterBuffer}

-- What the engine calls of the codec library and computes on samples: `is_loud` is an energy above
-- 0.01, `passes_vad` one that is not below the threshold of the configuration.
pub record Audio {ℓ} (S K : Type ℓ) : Type ℓ where
  pub new_codec : K
  pub encode : K → List S → Text × K
  pub decode : K → Text → List S × K
  pub decode_plc : K → List S × K
  pub is_loud : List S → Bool
  pub passes_vad : List S → Bool
  pub silence : S
  pub add : S → S → S
  pub clip : S → S

-- A connection to a peer; `is_offerer` says whether the audio track was added here.
pub record PeerConn {ℓ} (S K : Type ℓ) : Type ℓ where
  pub has_track : Bool
  pub jitter_buf : JitterBuffer (List S)
  pub codec : K
  pub connected : Bool
  pub loud : Bool
  pub last_packet_time : ℕ

pub data SignalType : Type 0 where
  offer answer ice_candidate call_invite call_accept call_reject call_hangup : SignalType

-- What goes to the network: a signal to a user, and joining and leaving a room.
pub data Sent : Type 0 where
  signals : SignalType → Text → Sent
  joins leaves : Text → Sent

-- `packets` are the RTP packets sent, each with its peer; `posted` are the texts for the active
-- channel.
pub record VoiceEngine {ℓ} (S K : Type ℓ) : Type ℓ where
  pub state : AppState
  pub peers : Assoc (PeerConn S K)
  pub audio_on : Bool
  pub in_voice : Bool
  pub muted : Bool
  pub deafened : Bool
  pub ptt_active : Bool
  pub active_channel : Text
  pub voice_mode : Text
  pub rtp_seq : ℕ
  pub sent : List Sent
  pub packets : List (Text × Text)
  pub posted : List Text
