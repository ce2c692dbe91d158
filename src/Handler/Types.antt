-- ===== src/Handler/Types.antt =====
-- What src/net/message_handler.cpp takes, keeps and sends. A protobuf message that does not parse is
-- `none`; `Engine` is what the handler calls of src/crypto/crypto_engine.hpp.
use ircord_client.Base.{ℕ, Bool, Option, List, Text}
use ircord_client.Base.Assoc.{Assoc}
use ircord_client.AppState.{AppState, Message, PresenceStatus, ChannelState, ChannelUserInfo}

pub record ChatEnvelope : Type 0 where
  pub sender_id : Text
  pub recipient_id : Text
  pub ciphertext : Text
  pub ciphertext_type : ℕ

pub record KeyBundle : Type 0 where
  pub recipient_for : Text
  pub keys : Text

-- `encrypt` gives no envelope where the source gives one without a sender.
pub record Engine {ℓ} (C : Type ℓ) : Type ℓ where
  pub sign_challenge : C → Text → Text
  pub prepare_key_upload : C → Text × C
  pub decrypt : C → ChatEnvelope → Option Text × C
  pub on_key_bundle : KeyBundle → Text → C → C
  pub encrypt : C → Text → Text → Text → Option ChatEnvelope × C

-- The answer to a challenge has the user, what the engine signs and shows, and the password.
pub data Outgoing : Type 0 where
  auth_response : Text → Text → Text → Outgoing
  hello key_upload key_request : Text → Outgoing
  chat_envelope : ChatEnvelope → Outgoing
  command : Text → List Text → Outgoing
  pong : Outgoing

-- A closure that `post_ui` queued. The last four are those of the application and the screen;
-- `removes_channel` has the channel that `begin()` will give.
pub data Task : Type 0 where
  pushes_to : Text → Message → Task
  says : Message → Task
  shows_presence : Text → PresenceStatus → Task
  enters_room : Text → List Text → Task
  joined_voice left_voice : Text → Text → Task
  shows_in : Text → Message → Bool → Task
  enters_channel : Text → Task
  lists_users : Text → List ChannelUserInfo → Task
  removes_channel : (Assoc ChannelState → Text) → Text → Task

-- What the voice engine is told.
pub data VoiceCall : Type 0 where
  on_room_joined : Text → List Text → VoiceCall
  on_peer_joined on_peer_left : Text → VoiceCall

pub data WireStatus : Type 0 where
  wire_online wire_away wire_offline : WireStatus

-- An envelope of each type that `dispatch` knows, its payload parsed; a chat has its time stamp.
pub data Incoming : Type 0 where
  auth_challenge auth_fail error_message : Option Text → Incoming
  auth_ok ping voice_signal unknown : Incoming
  chat_comes : ℕ → Option ChatEnvelope → Incoming
  bundle_comes : Option KeyBundle → Incoming
  presence_comes : Option (Text × WireStatus) → Incoming
  room_state : Option (Text × List Text) → Incoming
  room_join room_leave : Option (Text × Text) → Incoming
  command_response : Option (Text × Text) → Incoming

-- The handler with the state it works on, what it has sent (with the sequence numbers), and what its
-- callbacks got. The last four fields say which of its optional parts are set.
pub record Handler {ℓ} (C : Type ℓ) : Type ℓ where
  pub authenticated : Bool
  pub next_seq : ℕ
  pub pending : Assoc (List Text)
  pub crypto : C
  pub state : AppState
  pub ui_queue : List Task
  pub sent : List (ℕ × Outgoing)
  pub persisted : List (Text × Message)
  pub responses : List (Text × Text)
  pub voice_calls : List VoiceCall
  pub has_net : Bool
  pub has_voice : Bool
  pub has_persist : Bool
  pub has_response_fn : Bool

pub data Step : Type 0 where
  comes : Incoming → Step
  asks : Text → Text → Step
  commands : Text → List Text → Step
  times_out : Text → Step
  greets : Text → Step
  drains disconnects : Step
