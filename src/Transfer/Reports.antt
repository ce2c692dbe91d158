-- ===== src/Transfer/Reports.antt =====
-- The handlers of src/file/file_transfer.cpp for what the server sends.
use ircord_client.Base.{
  ℕ, ◌+◌, ◌%◌, ◌^◌, Bool, true, false, Option, none, some, [], ◌++◌, if◌then◌else◌, length, Text,
  codes, text_eq,
}
use ircord_client.Base.Assoc.{lookup, insert, or_default}
use ircord_client.Transfer.Types.{
  Manager, TransferInfo, TransferState, FileChunk, ratio, uploading, downloading, completed, failed,
  cancelled,
}

-- The transfer of a file id, as every handler looks it up.
unfoldable pub transfer_of : Text → Manager → Option (Text × TransferInfo)
transfer_of file_id m = elim (lookup file_id m.by_file) [
  | none ↦ none
  | some id ↦ elim (lookup id m.transfers) [ none ↦ none | some t ↦ some (id, t) ]
]

abbrev pub is_cancelled : TransferState → Bool
is_cancelled cancelled = true
is_cancelled _ = false

-- The record after a chunk was written: `+=` on 64 bits, and the last chunk completes.
unfoldable pub after_chunk : FileChunk → TransferInfo → TransferInfo
after_chunk chunk t =
    let bytes = (t.bytes_transferred + length chunk.bytes) % 2 ^ 64 in
    record t {
      bytes_transferred = bytes;
      progress = if chunk.is_last then ratio 1 1 else ratio bytes t.file_size;
      state = if chunk.is_last then completed else t.state;
    }

unfoldable pub write_failure : TransferInfo → TransferInfo
write_failure t = record t { state = failed; error_message = codes "Failed to write file" }

-- `can_write` says which paths can be opened for appending.
unfoldable pub on_file_chunk : (Text → Bool) → FileChunk → Manager → Manager
unfolding transfer_of after_chunk write_failure
on_file_chunk can_write chunk m = elim (transfer_of chunk.file_id m) [
  | none ↦ m
  | some (id, t) ↦
      if is_cancelled t.state
      then m
      else if can_write t.local_path
      then record m {
        transfers = insert id (after_chunk chunk t) m.transfers;
        disk =
            insert t.local_path (or_default [] (lookup t.local_path m.disk) ++ chunk.bytes) m.disk;
      }
      else record m { transfers = insert id (write_failure t) m.transfers }
]

pub record FileProgress : Type 0 where
  pub file_id : Text
  pub bytes_transferred : ℕ
  pub percent_complete : ℕ
  pub status : Text

unfoldable pub after_progress : FileProgress → TransferInfo → TransferInfo
after_progress p t = record t {
  bytes_transferred = p.bytes_transferred;
  progress = ratio p.percent_complete 100;
  state =
      if text_eq p.status (codes "uploading")
      then uploading
      else if text_eq p.status (codes "downloading")
      then downloading
      else t.state;
}

abbrev pub update : Text → (TransferInfo → TransferInfo) → Manager → Manager
update file_id f m = elim (transfer_of file_id m) [
  | none ↦ m
  | some (id, t) ↦ record m { transfers = insert id (f t) m.transfers }
]

unfoldable pub on_file_progress : FileProgress → Manager → Manager
unfolding after_progress transfer_of
on_file_progress p m = update p.file_id (after_progress p) m

unfoldable pub on_file_complete : Text → ℕ → Manager → Manager
unfolding transfer_of
on_file_complete file_id total_bytes m =
    update file_id
      (λ t. record t { state = completed; bytes_transferred = total_bytes; progress = ratio 1 1 }) m

unfoldable pub on_file_error : Text → Text → Manager → Manager
unfolding transfer_of
on_file_error file_id message m =
    update file_id (λ t. record t { state = failed; error_message = message }) m
