-- ===== src/Transfer/Types.antt =====
-- The structures of src/file/file_transfer.hpp, and what the manager sees of the world.
use ircord_client.Base.{ℕ, Bool, List, Text}
use ircord_client.Base.Assoc.{Assoc}

pub data Direction : Type 0 where
  to_server from_server : Direction

pub data TransferState : Type 0 where
  pending uploading downloading completed failed cancelled : TransferState

-- A `float` quotient of two numbers, kept as the two: the code only stores it.
pub data Progress : Type 0 where
  ratio : ℕ → ℕ → Progress

-- Paths are texts.
pub record TransferInfo : Type 0 where
  pub transfer_id : Text
  pub file_id : Text
  pub filename : Text
  pub mime_type : Text
  pub file_size : ℕ
  pub bytes_transferred : ℕ
  pub direction : Direction
  pub state : TransferState
  pub progress : Progress
  pub error_message : Text
  pub local_path : Text
  pub recipient_id : Text
  pub channel_id : Text

pub record FileChunk : Type 0 where
  pub file_id : Text
  pub chunk_index : ℕ
  pub bytes : Text
  pub is_last : Bool

-- The messages that the manager sends.
pub data Sent : Type 0 where
  upload_request : TransferInfo → ℕ → Sent
  upload_chunk : FileChunk → Sent
  download_request : Text → ℕ → Sent

-- `disk` is the content of each file that exists; `sent` is what `send_fn_` got, oldest first, and
-- `can_send` says whether that function is set. `starting` holds the record that each running call of
-- `download` has of its own, between its two writes to the table.
pub record Manager : Type 0 where
  pub transfers : Assoc TransferInfo
  pub by_file : Assoc Text
  pub starting : Assoc TransferInfo
  pub can_send : Bool
  pub next_transfer_id : ℕ
  pub pending_uploads : List Text
  pub disk : Assoc Text
  pub sent : List Sent
